-- ===== src/Processors/Chains.antt =====
-- varnish-sys/src/vcl/processor.rs: what `FetchProcCtx::pull` gives a processor whose next
-- processor is another one of a vmod.
use varnish_rs.Prelude.{
  ℕ, ◌^◌, ◌≤◌, ◌<◌, ◌≡◌, refl, sym, ap, ◌⊎◌, inl, inr, true, some, lt→ltb, le→ltb, le→leb, lt→leb,
  le-cases, ℤ, pos, arith,
}
use mathlib.Core.Path.{subst}
use varnish_rs.Outcome.{Bytes, Outcome, ok, panic, Exec, pure, gets, ◌>>=◌}
use varnish_rs.Processors.{PullResult, pull_err, pull_ok, pull_end, VfpStatus, as_isize}
use varnish_rs.Processors.Fetch.{
  FetchProcessor, VfpCall, buf_or_empty, pulled, wrap_vfp_pull, checked_len, pull_result, ctx_pull,
}

module _ {T W : Type 0} (proc : FetchProcessor T W) where
  -- `VFP_Suck` hands the call on to the next processor, whose entry is the state.
  abbrev pub next_pull : ℤ → Exec (VfpCall T W) (VfpStatus × ℤ)
  next_pull len c =
      (do status ← wrap_vfp_pull proc; left ← gets (λ c. c.len); pure (status, left))
        (record c { len = len })

  -- The next processor's answer and the state that it leaves.
  abbrev pub answer_of : VfpCall T W → T → PullResult
  answer_of c t = (proc.fetch (buf_or_empty c.buf) t c.world).0

  checked_len-within :
      (result : ℕ → PullResult) (l size : ℕ) (w : VfpCall T W)
      → l ≤ size
      → size < 2 ^ 63
      → checked_len result (as_isize l) size w ≡ (ok (result l), w)
  checked_len-within result l size w p q =
      let small : l < 2 ^ 63 = omega arith in rw (lt→ltb l (2 ^ 63) small, le→leb l size p)

  checked_len-beyond :
      (result : ℕ → PullResult) (l size : ℕ) (w : VfpCall T W)
      → size < l
      → checked_len result (as_isize l) size w ≡ (panic, w)
  checked_len-beyond result l size w p = elim (le-cases (2 ^ 63) l) [
    | inl big ↦ rw (le→ltb l (2 ^ 63) big)
    | inr small ↦ rw (lt→ltb l (2 ^ 63) small, lt→leb l size p)
  ]

  -- The answer as it is seen behind a buffer of `size` bytes.
  abbrev pub Sees : PullResult → ℕ → Outcome PullResult → Type 0
  Sees pull_err size seen = seen ≡ ok pull_err
  Sees (pull_ok l) size seen =
      ((l ≤ size) × (seen ≡ ok (pull_ok l))) ⊎ ((size < l) × (seen ≡ panic))
  Sees (pull_end l) size seen =
      ((l ≤ size) × (seen ≡ ok (pull_end l))) ⊎ ((size < l) × (seen ≡ panic))

  abbrev seen_by : ℕ → VfpStatus × VfpCall T W → Outcome PullResult × VfpCall T W
  seen_by size (status, c) = pull_result size (status, c.len) c

  ctx_pull-seen_by :
      (c : VfpCall T W) (t : T) (size : ℕ)
      → c.vfp_valid ≡ true
      → c.entry_valid ≡ true
      → c.priv1 ≡ some t
      → ctx_pull (next_pull) size c
        ≡ seen_by size
            (pulled (proc.fetch (buf_or_empty c.buf) t c.world) (record c { len = pos size }))
  unfolding ctx_pull wrap_vfp_pull
  ctx_pull-seen_by c t size v e p = rw (v, e, p)

  sees :
      (r : PullResult × Bytes × T × W) (c : VfpCall T W) (size : ℕ)
      → size < 2 ^ 63
      → Sees r.0 size (seen_by size (pulled r c)).0
  sees (pull_err, bs, t, w) c size q = refl
  sees (pull_ok l, bs, t, w) c size q = elim (le-cases l size) [
    | inl p ↦ inl (
      p,
      ap (λ x. x.0) (checked_len-within pull_ok l size (pulled (pull_ok l, bs, t, w) c).1 p q),
    )
    | inr p ↦
        inr (
          p,
          ap (λ x. x.0) (checked_len-beyond pull_ok l size (pulled (pull_ok l, bs, t, w) c).1 p),
        )
  ]
  sees (pull_end l, bs, t, w) c size q = elim (le-cases l size) [
    | inl p ↦ inl (
      p,
      ap (λ x. x.0) (checked_len-within pull_end l size (pulled (pull_end l, bs, t, w) c).1 p q),
    )
    | inr p ↦ inr (
      p,
      ap (λ x. x.0) (checked_len-beyond pull_end l size (pulled (pull_end l, bs, t, w) c).1 p),
    )
  ]

  -- With valid contexts and a processor behind it, a pull into a buffer below 2 ^ 63 bytes gives
  -- back the very answer of the next processor, status and length, if that is at most the length of
  -- the buffer, and panics if the length is beyond it.
  pub ctx_pull-wrap_vfp_pull :
      (c : VfpCall T W) (t : T) (size : ℕ)
      → c.vfp_valid ≡ true
      → c.entry_valid ≡ true
      → c.priv1 ≡ some t
      → size < 2 ^ 63
      → Sees (answer_of c t) size (ctx_pull next_pull size c).0
  ctx_pull-wrap_vfp_pull c t size v e p q =
      let fetched = proc.fetch (buf_or_empty c.buf) t c.world in
      subst (λ o. Sees (answer_of c t) size o.0) (sym (ctx_pull-seen_by c t size v e p))
        (sees fetched (record c { len = pos size }) size q)
