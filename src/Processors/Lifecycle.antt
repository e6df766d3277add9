-- ===== src/Processors/Lifecycle.antt =====
-- varnish-sys/src/vcl/processor.rs: the callbacks of a delivery processor, from its start to its end.
use varnish_rs.Prelude.{
  ℕ, suc, ◌+◌, ◌≡◌, refl, ap, true, none, some, List, [], ◌∷◌, ℤ, pos, negsuc, length, Bool-cases,
  inl, inr, arith,
}
use varnish_rs.Outcome.{ok, panic, Exec, pure, ◌>>=◌, ◌>>◌}
use varnish_rs.Boxes.{Boxes, one_made, one_dropped}
use varnish_rs.Processors.{InitResult, init_err, init_ok, init_pass, VdpAction}
use varnish_rs.Processors.Delivery.{
  DeliveryProcessor, VdpCall, is_known, push_code, slice_at, created, gen_vdp_init, gen_vdp_push,
  gen_vdp_fini,
}

-- A buffer that is sent: its action, its address and its length.
abbrev pub Chunk : Type 0
Chunk = VdpAction × ℕ × ℕ

module _ {T W : Type 0} (proc : DeliveryProcessor T W) where
  unfoldable pub push_all : List Chunk → Exec (VdpCall T W) (List ℤ)
  push_all [] = pure []
  push_all ((act, ptr, len) ∷ chunks) = do
    code ← gen_vdp_push proc act ptr len
    codes ← push_all chunks
    pure (code ∷ codes)

  unfoldable pub push_and_close : List Chunk → Exec (VdpCall T W) (List ℤ)
  push_and_close chunks = do codes ← push_all chunks; gen_vdp_fini; pure codes

  -- The place is held, and the boxes are those of `c`.
  abbrev Running : Boxes → VdpCall T W → Type 0
  Running boxes c = ((t : T) × (c.place ≡ some (some t))) × (c.vdp_valid ≡ true) × (c.boxes ≡ boxes)

  gen_vdp_push-Running :
      (act : VdpAction) (ptr len : ℕ) (boxes : Boxes) (c : VdpCall T W)
      → Running boxes c
      → (code : ℤ) × (c' : VdpCall T W) × (gen_vdp_push proc act ptr len c ≡ (ok code, c'))
        × Running boxes c'
  unfolding gen_vdp_push
  gen_vdp_push-Running act ptr len boxes c ((t, at), valid, same) =
      elim (Bool-cases (is_known act)) [
        | inl known ↦
            let (r, t', w) = proc.handle act (slice_at c.mem ptr len) t c.world in
            (
              push_code r,
              record c { place = some (some t'); world = w },
              rw (at, known, valid),
              ((t', refl), valid, same),
            )
        | inr unknown ↦ (pos 1, c, rw (at, unknown), ((t, at), valid, same))
      ]

  push_all-Running :
      (chunks : List Chunk) (boxes : Boxes) (c : VdpCall T W)
      → Running boxes c
      → (codes : List ℤ) × (c' : VdpCall T W) × (push_all chunks c ≡ (ok codes, c'))
        × Running boxes c'
        × (length codes ≡ length chunks)
  unfolding push_all
  push_all-Running [] boxes c r = ([], c, refl, r, refl)
  push_all-Running ((act, ptr, len) ∷ chunks) boxes c r =
      let (code, c1, e, r1) = gen_vdp_push-Running act ptr len boxes c r in
      let (codes, c2, e2, r2, n) = push_all-Running chunks boxes c1 r1 in
      (code ∷ codes, c2, rw (e, e2), r2, ap suc n)

  -- Nothing is left of the processor: its place is null and every box is dropped.
  abbrev pub IsClean : VdpCall T W → VdpCall T W → Type 0
  IsClean c c' =
      (c'.place ≡ some none) × (c'.boxes.made + c.boxes.dropped ≡ c'.boxes.dropped + c.boxes.made)

  -- Whatever is sent, each chunk has a status, and closing leaves nothing of the processor.
  abbrev pub Usable : VdpCall T W → VdpCall T W → Type 0
  Usable c c1 =
      (chunks : List Chunk)
      → (codes : List ℤ) × (c' : VdpCall T W) × (push_and_close chunks c1 ≡ (ok codes, c'))
        × (length codes ≡ length chunks)
        × IsClean c c'

  -- There is nothing of it, and each callback panics.
  abbrev pub Unusable : VdpCall T W → VdpCall T W → Type 0
  Unusable c c1 =
      IsClean c c1
      × (gen_vdp_fini c1 ≡ (panic, c1))
      × ((act : VdpAction) (ptr len : ℕ) → gen_vdp_push proc act ptr len c1 ≡ (panic, c1))

  -- By the answer of the processor: its status, and what can be done then.
  abbrev pub Started : InitResult T → VdpCall T W → ℤ → VdpCall T W → Type 0
  Started (init_ok t) c code c1 = (code ≡ pos 0) × Usable c c1
  Started (init_err e) c code c1 = (code ≡ negsuc 0) × Unusable c c1
  Started init_pass c code c1 = (code ≡ pos 1) × Unusable c c1

  gen_vdp_init-created :
      (c : VdpCall T W)
      → c.place ≡ some none
      → c.ctx_valid ≡ true
      → c.vdp_valid ≡ true
      → gen_vdp_init proc c
        ≡ (ok (created (proc.create c.world) c).0, (created (proc.create c.world) c).1)
  unfolding gen_vdp_init
  gen_vdp_init-created c at ctx vdp = rw (at, ctx, vdp)

  Running-Usable : (c c1 : VdpCall T W) → Running (one_made c.boxes) c1 → Usable c c1
  unfolding push_and_close gen_vdp_fini
  Running-Usable c c1 r chunks =
      let (codes, c', e, ((t', held), valid, same), n) =
        push_all-Running chunks (one_made c.boxes) c1 r in
      let made : c'.boxes.made ≡ suc c.boxes.made = ap (λ b. b.made) same in
      let gone : c'.boxes.dropped ≡ c.boxes.dropped = ap (λ b. b.dropped) same in
      (
        codes,
        record c' { place = some none; boxes = one_dropped c'.boxes },
        rw (e, held),
        n,
        (refl, omega (arith, made, gone)),
      )

  vacant-Unusable : (c c1 : VdpCall T W) → c1.place ≡ some none → c1.boxes ≡ c.boxes → Unusable c c1
  unfolding gen_vdp_fini gen_vdp_push
  vacant-Unusable c c1 at same = ((at, rw same (omega arith)), rw at, λ act ptr len. rw at)

  created-Started :
      (c : VdpCall T W) (r : InitResult T × W)
      → c.place ≡ some none
      → c.vdp_valid ≡ true
      → Started r.0 c (created r c).0 (created r c).1
  created-Started c (init_ok t, w) at vdp = (refl, Running-Usable c _ ((t, refl), vdp, refl))
  created-Started c (init_err e, w) at vdp = (refl, vacant-Unusable c _ at refl)
  created-Started c (init_pass, w) at vdp = (refl, vacant-Unusable c _ at refl)

  -- With a null place and valid contexts the start of a processor does not panic. If the processor
  -- starts, its status is 0, any chunks can then be sent, each with a status, and closing it
  -- behind them does not panic: the place is null again and every box made is dropped. If it does
  -- not start, its status is -1 for an error and 1 for a pass, the place is null and no box is
  -- left, and sending a chunk or closing it panics.
  pub gen_vdp_lem :
      (c : VdpCall T W)
      → c.place ≡ some none
      → c.ctx_valid ≡ true
      → c.vdp_valid ≡ true
      → (code : ℤ) × (c1 : VdpCall T W) × (gen_vdp_init proc c ≡ (ok code, c1))
        × Started (proc.create c.world).0 c code c1
  gen_vdp_lem c at ctx vdp =
      let (code, c1) = created (proc.create c.world) c in
      (code, c1, gen_vdp_init-created c at ctx vdp, created-Started c (proc.create c.world) at vdp)
