-- ===== src/Processors/Fetch.antt =====
-- varnish-sys/src/vcl/processor.rs: `wrap_vfp_init`, `wrap_vfp_pull`, `wrap_vfp_fini` and
-- `FetchProcCtx::pull`.
use varnish_rs.Prelude.{ℕ, Bool, Option, none, some, [], leb, ℤ, pos, negsuc, if◌then◌else◌}
use varnish_rs.Outcome.{Bytes, ok, panic, Exec, assert, pure, panics, gets, ◌>>=◌, ◌>>◌}
use varnish_rs.Boxes.{Boxes, one_made, one_dropped}
use varnish_rs.Processors.{
  PullResult, pull_err, pull_ok, pull_end, InitResult, init_err, init_ok, init_pass, VfpStatus,
  vfp_error, vfp_ok, vfp_end, vfp_null, vfp_unknown, as_isize,
}

-- The trait. A pull is given a buffer and leaves one of the same length.
pub record FetchProcessor (T W : Type 0) : Type 0 where
  pub create : W → InitResult T × W
  pub fetch : Bytes → T → W → PullResult × Bytes × T × W

-- What a callback is given: what the asserts on the contexts and on the entry say, the private
-- pointer of the entry, the buffer, if its address is not null, the length behind `len`, and the
-- rest of the program.
pub record VfpCall (T W : Type 0) : Type 0 where
  pub ctx_valid : Bool
  pub vfp_valid : Bool
  pub entry_valid : Bool
  pub priv1 : Option T
  pub buf : Option Bytes
  pub len : ℤ
  pub world : W
  pub boxes : Boxes

-- Puts the written buffer back; a null one is empty.
abbrev pub rewritten : Option Bytes → Bytes → Option Bytes
rewritten none bs = none
rewritten (some old) bs = some bs

abbrev pub buf_or_empty : Option Bytes → Bytes
buf_or_empty none = []
buf_or_empty (some bs) = bs

module _ {T W : Type 0} where
  abbrev pub created_vfp : InitResult T × W → VfpCall T W → VfpStatus × VfpCall T W
  created_vfp (init_ok proc, w) c =
      (vfp_ok, record c { priv1 = some proc; world = w; boxes = one_made c.boxes })
  created_vfp (init_err e, w) c = (vfp_error, record c { world = w })
  created_vfp (init_pass, w) c = (vfp_end, record c { world = w })

  -- `validate_vfp_ctx` and `validate_vfp_entry`.
  abbrev pub validate_vfp : Exec (VfpCall T W) (Unit {0})
  validate_vfp = do
    vfp_valid ← gets (λ c. c.vfp_valid)
    assert vfp_valid
    entry_valid ← gets (λ c. c.entry_valid)
    assert entry_valid

  -- A private pointer that is not null is overwritten.
  unfoldable pub wrap_vfp_init : FetchProcessor T W → Exec (VfpCall T W) VfpStatus
  wrap_vfp_init proc = do
    validate_vfp
    ctx_valid ← gets (λ c. c.ctx_valid)
    assert ctx_valid
    λ c. let (status, c') = created_vfp (proc.create c.world) c in (ok status, c')

  abbrev pub pulled : PullResult × Bytes × T × W → VfpCall T W → VfpStatus × VfpCall T W
  pulled (pull_err, bs, t, w) c =
      (vfp_error, record c { priv1 = some t; buf = rewritten c.buf bs; world = w })
  pulled (pull_ok l, bs, t, w) c =
      (vfp_ok, record c { priv1 = some t; buf = rewritten c.buf bs; len = as_isize l; world = w })
  pulled (pull_end l, bs, t, w) c =
      (vfp_end, record c { priv1 = some t; buf = rewritten c.buf bs; len = as_isize l; world = w })

  abbrev pub pull_by : FetchProcessor T W → Option T → Exec (VfpCall T W) VfpStatus
  pull_by proc none c = (ok vfp_error, c)
  pull_by proc (some t) c =
      let (status, c') = pulled (proc.fetch (buf_or_empty c.buf) t c.world) c in (ok status, c')

  unfoldable pub wrap_vfp_pull : FetchProcessor T W → Exec (VfpCall T W) VfpStatus
  wrap_vfp_pull proc = do validate_vfp; obj ← gets (λ c. c.priv1); pull_by proc obj

  abbrev pub dropped_vfp : Option T → Exec (VfpCall T W) (Unit {0})
  dropped_vfp none c = (ok tt, c)
  dropped_vfp (some t) c = (ok tt, record c { priv1 = none; boxes = one_dropped c.boxes })

  unfoldable pub wrap_vfp_fini : Exec (VfpCall T W) (Unit {0})
  wrap_vfp_fini = do validate_vfp; priv1 ← gets (λ c. c.priv1); dropped_vfp priv1

-- The asserts on the length that `VFP_Suck` stores, and the length as a `usize`.
abbrev pub checked_len : {W : Type 0} → (ℕ → PullResult) → ℤ → ℕ → Exec W PullResult
checked_len result (negsuc n) max_len w = (panic, w)
checked_len result (pos n) max_len w = (if leb n max_len then ok (result n) else panic, w)

abbrev pub pull_result : {W : Type 0} → ℕ → VfpStatus × ℤ → Exec W PullResult
pull_result max_len (vfp_ok, len) = checked_len pull_ok len max_len
pull_result max_len (vfp_end, len) = checked_len pull_end len max_len
pull_result max_len (vfp_error, len) = pure pull_err
pull_result max_len (vfp_null, len) = panics
pull_result max_len (vfp_unknown n, len) = panics

-- `FetchProcCtx::pull`, over `VFP_Suck` of varnishd, which is given the length of the buffer and
-- leaves one. A slice has less than 2 ^ 63 bytes.
unfoldable pub ctx_pull : {W : Type 0} → (ℤ → Exec W (VfpStatus × ℤ)) → ℕ → Exec W PullResult
ctx_pull vfp_suck size = do r ← vfp_suck (pos size); pull_result size r
