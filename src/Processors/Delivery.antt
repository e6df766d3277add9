-- ===== src/Processors/Delivery.antt =====
-- varnish-sys/src/vcl/processor.rs: `gen_vdp_init`, `gen_vdp_push`, `gen_vdp_fini` and
-- `DeliveryProcCtx::push`.
use varnish_rs.Prelude.{
  ℕ, zero, suc, Bool, true, false, Option, none, some, [], ◌==◌, ℤ, pos, negsuc, if◌then◌else◌,
}
use varnish_rs.Outcome.{Bytes, ok, panic, Exec, assert, pure, gets, ◌>>=◌, ◌>>◌}
use varnish_rs.Memory.{Memory, null, read}
use varnish_rs.Boxes.{Boxes, one_made, one_dropped}
use varnish_rs.Processors.{
  PushResult, push_err, push_ok, push_end, InitResult, init_err, init_ok, init_pass, VdpAction,
  act_null, act_flush, act_end, act_other,
}

-- The trait: a vmod's functions on its own type `T` and on the rest of the program.
pub record DeliveryProcessor (T W : Type 0) : Type 0 where
  pub create : W → InitResult T × W
  pub handle : VdpAction → Bytes → T → W → PushResult × T × W

-- What a callback is given: the place of the private pointer, if its address is not null, what
-- `from_ptr` of the contexts asserts, the memory of the buffer, and the rest of the program.
pub record VdpCall (T W : Type 0) : Type 0 where
  pub place : Option (Option T)
  pub ctx_valid : Bool
  pub vdp_valid : Bool
  pub mem : Memory
  pub world : W
  pub boxes : Boxes

-- The actions that `gen_vdp_push` passes on.
abbrev pub is_known : VdpAction → Bool
is_known act_null = true
is_known act_flush = true
is_known act_end = true
is_known (act_other n) = false

abbrev pub push_code : PushResult → ℤ
push_code push_err = negsuc 0
push_code push_ok = pos 0
push_code push_end = pos 1

-- The match on the result of `VDP_bytes`.
abbrev pub push_result : ℤ → PushResult
push_result (negsuc n) = push_err
push_result (pos zero) = push_ok
push_result (pos (suc n)) = push_end

-- The buffer, where a null pointer is an empty one.
abbrev pub slice_at : Memory → ℕ → ℕ → Bytes
slice_at mem ptr len = if ptr == null then [] else read mem ptr len

-- There is a place, and it is null.
abbrev pub is_vacant : {T : Type 0} → Option (Option T) → Bool
is_vacant (some none) = true
is_vacant _ = false

module _ {T W : Type 0} where
  -- What is done with the result of `T::new`.
  abbrev pub created : InitResult T × W → VdpCall T W → ℤ × VdpCall T W
  created (init_ok proc, w) c =
      (pos 0, record c { place = some (some proc); world = w; boxes = one_made c.boxes })
  created (init_err e, w) c = (negsuc 0, record c { world = w })
  created (init_pass, w) c = (pos 1, record c { world = w })

  unfoldable pub gen_vdp_init : DeliveryProcessor T W → Exec (VdpCall T W) ℤ
  gen_vdp_init proc = do
    place ← gets (λ c. c.place)
    assert (is_vacant place)
    ctx_valid ← gets (λ c. c.ctx_valid)
    assert ctx_valid
    vdp_valid ← gets (λ c. c.vdp_valid)
    assert vdp_valid
    λ c. let (code, c') = created (proc.create c.world) c in (ok code, c')

  abbrev pub dropped_at : Option (Option T) → Exec (VdpCall T W) ℤ
  dropped_at none c = (ok (pos 0), c)
  dropped_at (some none) c = (panic, c)
  dropped_at (some (some t)) c =
      (ok (pos 0), record c { place = some none; boxes = one_dropped c.boxes })

  unfoldable pub gen_vdp_fini : Exec (VdpCall T W) ℤ
  gen_vdp_fini c = dropped_at c.place c

  abbrev pub pushed : PushResult × T × W → VdpCall T W → ℤ × VdpCall T W
  pushed (r, t, w) c = (push_code r, record c { place = some (some t); world = w })

  -- The processor has its turn if the action is known and the context is valid.
  abbrev pub push_at :
      DeliveryProcessor T W → VdpAction → ℕ → ℕ → Option (Option T) → Exec (VdpCall T W) ℤ
  push_at proc act ptr len (some (some t)) c =
      if is_known act
      then if c.vdp_valid
        then (let (code, c') = pushed (proc.handle act (slice_at c.mem ptr len) t c.world) c in
            (ok code, c'))
        else (panic, c)
      else (ok (pos 1), c)
  push_at proc act ptr len _ c = (panic, c)

  unfoldable pub gen_vdp_push : DeliveryProcessor T W → VdpAction → ℕ → ℕ → Exec (VdpCall T W) ℤ
  gen_vdp_push proc act ptr len c = push_at proc act ptr len c.place c

-- `DeliveryProcCtx::push`, over `VDP_bytes` of varnishd.
unfoldable pub ctx_push :
    {W : Type 0} → (VdpAction → Bytes → Exec W ℤ) → VdpAction → Bytes → Exec W PushResult
ctx_push vdp_bytes act buf = do r ← vdp_bytes act buf; pure (push_result r)
