-- ===== src/Probes.antt =====
-- varnish-sys/src/vcl/probe.rs: a probe of Rust as the C struct of varnishd, and back, with the
-- conversion of a text in varnish-sys/src/vcl/convert.rs.
pub mod RoundTrip
mod Tests
use varnish_rs.Prelude.{
  ℕ, zero, suc, ◌+◌, ◌^◌, Bool, true, false, not, ◌&&◌, ◌||◌, Option, none, some, [], ◌∷◌, ◌==◌,
  if◌then◌else◌,
}
use varnish_rs.Outcome.{Bytes, Outcome, ok, err, panic, Exec, pure, ◌>>=◌, ◌>>◌}
use varnish_rs.Memory.{Memory, null, read}
use varnish_rs.Workspace.{Ws, Runtime, store, copy_value, copy_bytes_with_null}

pub data Request : Type 0 where
  url text : Bytes → Request

-- `Probe`, with durations of a type of Rust's library.
pub record Probe (D : Type 0) : Type 0 where
  pub request : Request
  pub timeout : D
  pub interval : D
  pub exp_status : ℕ
  pub window : ℕ
  pub threshold : ℕ
  pub initial : ℕ

-- `ffi::vrt_backend_probe`, with durations as numbers of C.
pub record VrtBackendProbe (F : Type 0) : Type 0 where
  pub magic : ℕ
  pub url : ℕ
  pub request : ℕ
  pub timeout : F
  pub interval : F
  pub exp_status : ℕ
  pub window : ℕ
  pub threshold : ℕ
  pub initial : ℕ

-- What the code uses of Rust's library and of the C compiler: the conversions of durations, the
-- replacement of bytes that are not UTF-8, the magic number and the bytes of the C struct.
pub record ProbeLayout (D F : Type 0) : Type 0 where
  pub into_dur : D → F
  pub from_dur : F → D
  pub lossy : Bytes → Bytes
  pub magic : ℕ
  pub size : ℕ
  pub image : VrtBackendProbe F → Bytes
  pub decode : Bytes → VrtBackendProbe F

-- `CStr::from_ptr`: the bytes before the first NUL, looked for in so many bytes.
unfoldable pub c_str_at : ℕ → Memory → ℕ → Option Bytes
c_str_at zero mem p = none
c_str_at (suc most) mem p =
    let rest = c_str_at most mem (suc p) in
    if mem p == 0 then some [] else elim rest [ none ↦ none | some bs ↦ some (mem p ∷ bs) ]

-- `&str::into_vcl`
abbrev pub str_into_vcl : Runtime → Bytes → Exec Ws ℕ
str_into_vcl rt s = do t ← copy_bytes_with_null rt s; pure t.b

module _ {D F : Type 0} (layout : ProbeLayout D F) where
  -- The fields that the code does not name have their default, which is 0 or null.
  abbrev pub struct_of : Probe D → VrtBackendProbe F
  struct_of src = record {
    magic = layout.magic;
    url = null;
    request = null;
    timeout = layout.into_dur src.timeout;
    interval = layout.into_dur src.interval;
    exp_status = src.exp_status;
    window = src.window;
    threshold = 0;
    initial = src.initial;
  }

  abbrev pub set_request : Runtime → VrtBackendProbe F → ℕ → Request → Exec Ws ℕ
  set_request rt probe p (url s) = do
    str ← str_into_vcl rt s
    store p (layout.image (record probe { url = str }))
    pure p
  set_request rt probe p (text s) = do
    str ← str_into_vcl rt s
    store p (layout.image (record probe { request = str }))
    pure p

  -- The pointer to the struct in the workspace.
  unfoldable pub into_vcl_probe : Runtime → Probe D → Exec Ws ℕ
  into_vcl_probe rt src = do
    p ← copy_value rt (layout.image (struct_of src))
    set_request rt (struct_of src) p src.request

  -- `from_str`: a null pointer is the empty text.
  abbrev pub lossy_text : Option Bytes → Option Bytes
  lossy_text none = none
  lossy_text (some bs) = some (layout.lossy bs)

  abbrev pub from_str : ℕ → Memory → ℕ → Option Bytes
  from_str most mem p = if p == null then some [] else lossy_text (c_str_at most mem p)

  abbrev pub probe_with : VrtBackendProbe F → Request → Probe D
  probe_with pr request = record {
    request = request;
    timeout = layout.from_dur pr.timeout;
    interval = layout.from_dur pr.interval;
    exp_status = pr.exp_status;
    window = pr.window;
    threshold = pr.threshold;
    initial = pr.initial;
  }

  -- A C string without an end in `most` bytes is outside the model, and taken as a panic.
  abbrev pub named :
      VrtBackendProbe F → (Bytes → Request) → Option Bytes → Outcome (Option (Probe D))
  named pr kind none = panic
  named pr kind (some s) = ok (some (probe_with pr (kind s)))

  abbrev pub one_is_set : VrtBackendProbe F → Bool
  one_is_set pr =
      ((pr.url == null) && not (pr.request == null))
      || ((pr.request == null) && not (pr.url == null))

  abbrev pub from_struct : ℕ → Memory → VrtBackendProbe F → Outcome (Option (Probe D))
  from_struct most mem pr =
      if not (one_is_set pr)
      then panic
      else if pr.url == null
      then named pr text (from_str most mem pr.request)
      else named pr url (from_str most mem pr.url)

  unfoldable pub from_vcl_probe : ℕ → Memory → ℕ → Outcome (Option (Probe D))
  unfolding c_str_at
  from_vcl_probe most mem p =
      if p == null then ok none else from_struct most mem (layout.decode (read mem p layout.size))
