-- ===== src/Backends.antt =====
-- varnish-sys/src/vcl/backend/backend_main.rs: the callbacks of `Backend` for one fetch:
-- `wrap_gethdrs`, `vfp_pull`, `wrap_getip` and `wrap_finish`.
pub mod Steps
pub mod Fetches
pub mod Leaks
mod Tests
use varnish_rs.Prelude.{
  ℕ, zero, suc, ◌+◌, ◌-◌, ◌^◌, Bool, true, false, Option, none, some, List, [], ◌∷◌, ◌++◌, ltb,
  ◌==◌, ℤ, pos, negsuc, if◌then◌else◌, length,
}
use varnish_rs.Outcome.{
  Bytes, VclError, Result, Outcome, ok, err, panic, Fallible, Exec, assert, pure, fail, panics,
  gets, ◌>>=◌, ◌>>◌,
}
use varnish_rs.Memory.{null}
use varnish_rs.Boxes.{Boxes, one_made, one_dropped}
use varnish_rs.Workspace.{Ws, Txt, Runtime, copy_bytes_with_null}
use varnish_rs.Http.{Http, HdrIndex, http_version, set_proto, on_ws}
use varnish_rs.Http.Lookup.{status, proto}
use varnish_rs.Processors.{VfpStatus, vfp_error, vfp_ok, vfp_end, as_isize}

-- `BS_NONE`, `BS_CHUNKED` and `BS_LENGTH` of varnishd.
pub data BodyStatus : Type 0 where
  bs_none bs_chunked bs_length : BodyStatus

-- What is written to the log or given to `Ctx::fail`, without its wording.
pub data Report : Type 0 where
  no_workspace vfp_refused : Report
  proto_failed fetch_error read_error : VclError → Report

-- `ffi::http_conn`. The private pointer is null or holds the response.
pub record HttpConn (T : Type 0) : Type 0 where
  pub magic : ℕ
  pub content_length : ℤ
  pub body_status : BodyStatus
  pub response : Option T

-- The part of `ffi::busyobj` that the callbacks use, with what the asserts on the director say. The response headers have its workspace. If
-- there is a filter, its private pointer is that of the connection.
pub record BusyObj (T : Type 0) : Type 0 where
  pub magic : ℕ
  pub director_valid : Bool
  pub beresp : Http
  pub htc : Option (HttpConn T)
  pub filtered : Bool
  pub reports : List Report
  pub boxes : Boxes

-- varnishd: its allocator, `http_SetStatus`, `VFP_Push` (with whether it gives an entry), the sizes
-- of its structs and its magic numbers.
pub record Varnishd : Type 0 where
  pub rt : Runtime
  pub ix : HdrIndex
  pub set_status : ℕ → Http → Http
  pub vfp_push : Http → Bool × Http
  pub http_conn_size : ℕ
  pub vfp_size : ℕ
  pub http_conn_magic : ℕ
  pub busyobj_magic : ℕ

-- The traits `VclBackend` and `VclResponse`: a vmod's functions, and the type of the backend.
pub record VclBackend (T : Type 0) : Type 0 where
  pub type_name : Bytes
  pub get_response : Fallible VclError Http (Option T)
  pub len : T → Option ℕ
  pub read : Bytes → T → Outcome ℕ × Bytes × T
  pub get_ip : T → Outcome (Option ℕ)

-- A step of `wrap_gethdrs`, which may return a status early.
abbrev pub Step : Type 0 → Type 0 → Type 0
Step T A = Fallible ℤ (BusyObj T) A

abbrev pub report : {T : Type 0} → Report → BusyObj T → BusyObj T
report r b = record b { reports = b.reports ++ r ∷ [] }

-- `ctx.fail` and a return.
abbrev pub fail_with : {T A : Type 0} → Report → ℤ → Step T A
fail_with r code b = (err code, report r b)

abbrev pub is_none : {A : Type 0} → Option A → Bool
is_none none = true
is_none (some a) = false

abbrev pub proto_or_fail : {T : Type 0} → Outcome (Unit {0}) × Http → Step T (Unit {0})
proto_or_fail (ok u, h) b = (ok tt, record b { beresp = h })
proto_or_fail (err e, h) b = fail_with (proto_failed e) (pos 1) (record b { beresp = h })
proto_or_fail (panic, h) b = (panic, record b { beresp = h })

-- A pointer that is null is the failure `no_workspace`.
abbrev pub alloc_or_fail : {T : Type 0} → Outcome ℕ × Ws → Step T (Unit {0})
alloc_or_fail (ok p, w) b =
    if p == null
    then fail_with no_workspace (negsuc 0) (record b { beresp = record b.beresp { ws = w } })
    else (ok tt, record b { beresp = record b.beresp { ws = w } })
alloc_or_fail (err e, w) b = (panic, b)
alloc_or_fail (panic, w) b = (panic, b)

abbrev pub copy_or_fail : {T : Type 0} → Outcome Txt × Ws → Step T (Unit {0})
copy_or_fail (ok t, w) b = (ok tt, record b { beresp = record b.beresp { ws = w } })
copy_or_fail (err e, w) b =
    fail_with no_workspace (negsuc 0) (record b { beresp = record b.beresp { ws = w } })
copy_or_fail (panic, w) b = (panic, b)

abbrev pub pushed_or_fail : {T : Type 0} → Bool × Http → Step T (Unit {0})
pushed_or_fail (true, h) b = (ok tt, record b { beresp = h; filtered = true })
pushed_or_fail (false, h) b = fail_with vfp_refused (negsuc 0) (record b { beresp = h })

-- The body status and the content length for what `len` says.
abbrev pub body_of : Option ℕ → BodyStatus × ℤ
body_of none = (bs_chunked, negsuc 0)
body_of (some zero) = (bs_none, pos 0)
body_of (some (suc l)) = (bs_length, as_isize (suc l))

abbrev pub code_of : {T : Type 0} → Result ℤ (Unit {0}) × BusyObj T → Outcome ℤ × BusyObj T
code_of (ok u, b) = (ok (pos 0), b)
code_of (err code, b) = (ok code, b)
code_of (panic, b) = (panic, b)

module _ {T : Type 0} (vd : Varnishd) (be : VclBackend T) where
  abbrev pub default_status : Step T (Unit {0})
  default_status b = (
    ok tt,
    if is_none (status vd.ix b.beresp) then record b { beresp = vd.set_status 200 b.beresp } else b,
  )

  abbrev pub default_proto : Step T (Unit {0})
  default_proto b =
      if is_none (proto vd.ix b.beresp)
      then proto_or_fail (set_proto vd.rt vd.ix (http_version 1 1) b.beresp) b
      else (ok tt, b)

  abbrev pub ws_alloc : ℕ → Step T (Unit {0})
  ws_alloc size b = alloc_or_fail (vd.rt.alloc size b.beresp.ws) b

  -- The filter that pulls the body.
  unfoldable pub push_vfp : Step T (Unit {0})
  unfolding copy_bytes_with_null
  push_vfp = do
    ws_alloc vd.vfp_size
    λ b. copy_or_fail (copy_bytes_with_null vd.rt be.type_name b.beresp.ws) b
    λ b. pushed_or_fail (vd.vfp_push b.beresp) b

  abbrev pub with_filter : BodyStatus → Step T (Unit {0})
  with_filter bs_none = pure tt
  with_filter _ = push_vfp

  abbrev pub box_response : Step T (Unit {0})
  box_response b = (ok tt, record b { boxes = one_made b.boxes })

  abbrev pub conn_of : BodyStatus × ℤ → Option T → HttpConn T
  conn_of (body, size) response = record {
    magic = vd.http_conn_magic;
    content_length = size;
    body_status = body;
    response = response;
  }

  abbrev pub set_htc : HttpConn T → Step T (Unit {0})
  set_htc htc b = (ok tt, record b { htc = some htc })

  -- The connection is put in place at the very end.
  unfoldable pub connect : Option T → Step T (Unit {0})
  unfolding push_vfp
  connect none = set_htc (conn_of (bs_none, pos 0) none)
  connect (some transfer) = do
    box_response
    with_filter (body_of (be.len transfer)).0
    set_htc (conn_of (body_of (be.len transfer)) (some transfer))

  unfoldable pub prepare : Step T (Unit {0})
  unfolding status proto set_proto
  prepare = do default_status; default_proto; ws_alloc vd.http_conn_size

  abbrev pub answered : Outcome (Option T) × Http → Exec (BusyObj T) ℤ
  answered (ok res, h) b = code_of ((prepare >> connect res) (record b { beresp = h }))
  answered (err e, h) b = (ok (pos 1), report (fetch_error e) (record b { beresp = h }))
  answered (panic, h) b = (panic, record b { beresp = h })

  unfoldable pub wrap_gethdrs : Exec (BusyObj T) ℤ
  unfolding prepare connect
  wrap_gethdrs b = if b.director_valid then answered (be.get_response b.beresp) b else (panic, b)

  abbrev pub drop_box : Option T → Boxes → Boxes
  drop_box none boxes = boxes
  drop_box (some t) boxes = one_dropped boxes

  -- `wrap_finish`, up to the vmod's own `finish`.
  abbrev pub finished : Option (HttpConn T) → BusyObj T → BusyObj T
  finished none b = b
  finished (some htc) b = record b { htc = none; boxes = drop_box htc.response b.boxes }

  unfoldable pub wrap_finish : Exec (BusyObj T) (Unit {0})
  wrap_finish b = if b.director_valid then (ok tt, finished b.htc b) else (panic, b)

  -- The result of a `read` in `vfp_pull`, with what is stored behind `len` and the buffer.
  abbrev pub read_status :
      Outcome ℕ → ℤ → Bytes → BusyObj T → Outcome (VfpStatus × ℤ × Bytes) × BusyObj T
  read_status (ok zero) old buf b = (ok (vfp_end, pos 0, buf), b)
  read_status (ok (suc l)) old buf b = (ok (vfp_ok, as_isize (suc l), buf), b)
  read_status (err e) old buf b = (ok (vfp_error, old, buf), report (read_error e) b)
  read_status panic old buf b = (panic, b)

  abbrev pub read_by : Bytes → HttpConn T → Option T → Exec (BusyObj T) (VfpStatus × ℤ × Bytes)
  read_by buf htc none b = (panic, b)
  read_by buf htc (some t) b =
      let (r, written, t') = be.read buf t in
      read_status r (pos (length buf)) written
        (record b { htc = some (record htc { response = some t' }) })

  abbrev pub read_into : Bytes → Option (HttpConn T) → Exec (BusyObj T) (VfpStatus × ℤ × Bytes)
  read_into buf none b = (panic, b)
  read_into buf (some htc) b = read_by buf htc htc.response b

  -- An empty buffer is not passed on.
  unfoldable pub vfp_pull : Bytes → Exec (BusyObj T) (VfpStatus × ℤ × Bytes)
  vfp_pull [] b = (ok (vfp_ok, pos 0, []), b)
  vfp_pull (x ∷ buf) b = read_into (x ∷ buf) b.htc b

  -- The address of the response.
  abbrev pub ip_of : Option T → Outcome (Option ℕ)
  ip_of none = panic
  ip_of (some t) = be.get_ip t

  abbrev pub getip_from : Option (HttpConn T) → Outcome (Option ℕ)
  getip_from none = panic
  getip_from (some htc) = if htc.magic == vd.busyobj_magic then ip_of htc.response else panic

  -- Without the conversion of the address.
  unfoldable pub wrap_getip : BusyObj T → Outcome (Option ℕ)
  wrap_getip b = if b.magic == vd.busyobj_magic then getip_from b.htc else panic
