-- ===== src/RoundRobin/Health.antt =====
-- examples/vmod_round_robin/src/lib.rs: `probe` and `health_stats`, against each other and against
-- `resolve`.
use native.Mathlib.Nat.{le_trans}
use varnish_rs.Prelude.{
  ℕ, zero, suc, ◌+◌, ◌≤◌, ◌≡◌, refl, ap, ◌⊎◌, inl, inr, ◌↔◌, true, false, some, List, [], ◌∷◌, ltb,
  length, get_elem?, arith, Bool-cases,
}
use varnish_rs.Outcome.{ok}
use varnish_rs.RoundRobin.{
  ProbeResult, RoundRobinState, merge, resolve, probe, fold_probes, fold_count, health_stats,
}
use varnish_rs.RoundRobin.Resolve.{resolve_lem}
use varnish_rs.RoundRobin.Rotation.{resolve_finds}

merge-le :
    (acc p : ProbeResult)
    → (acc.last_changed ≤ (merge acc p).last_changed)
      × (p.last_changed ≤ (merge acc p).last_changed)
merge-le acc p = ground arith

module _ {B : Type 0} (probe_of : B → ProbeResult) where
  -- Some backend of the list is healthy.
  abbrev pub HasHealthy : List B → Type 0
  HasHealthy bs = (i : ℕ) × (b : B) × (get_elem? bs i ≡ some b) × ((probe_of b).healthy ≡ true)

  fold_probes-healthy :
      (bs : List B) (acc : ProbeResult)
      → (fold_probes probe_of acc bs).healthy ≡ true
      → (acc.healthy ≡ true) ⊎ HasHealthy bs
  unfolding fold_probes
  fold_probes-healthy [] acc h = inl h
  fold_probes-healthy (b ∷ bs) acc h = elim (fold_probes-healthy bs _ h) [
    | inr (i, b', g, e) ↦ inr (suc i, b', g, e)
    | inl e ↦ elim (Bool-cases (probe_of b).healthy) [
      | inl here ↦ inr (0, b, refl, here)
      | inr sick ↦ inl (ground arith)
    ]
  ]

  fold_probes-acc :
      (bs : List B) (acc : ProbeResult)
      → acc.healthy ≡ true
      → (fold_probes probe_of acc bs).healthy ≡ true
  unfolding fold_probes
  fold_probes-acc [] acc h = h
  fold_probes-acc (b ∷ bs) acc h = fold_probes-acc bs _ (ground arith)

  fold_probes_found :
      (bs : List B) (acc : ProbeResult) (i : ℕ) (b : B)
      → get_elem? bs i ≡ some b
      → (probe_of b).healthy ≡ true
      → (fold_probes probe_of acc bs).healthy ≡ true
  unfolding fold_probes
  fold_probes_found [] acc i b g h = absurd (cc)
  fold_probes_found (c ∷ bs) acc zero b g h = fold_probes-acc bs _ (ground arith)
  fold_probes_found (c ∷ bs) acc (suc i) b g h = fold_probes_found bs _ i b g h

  -- The director is reported healthy exactly if `resolve` has a backend to return.
  pub probe-resolve :
      (s : RoundRobinState B)
      → ((probe probe_of s).healthy ≡ true) ↔ ((b : B) × ((resolve probe_of s).0 ≡ ok (some b)))
  unfolding probe
  probe-resolve s =
      let start : ProbeResult = record { healthy = false; last_changed = 0 } in
      (
        λ h. elim (fold_probes-healthy s.backends start h) [
          | inl e ↦ absurd (cc)
          | inr (i, b, g, e) ↦
              let (j, b', r, g', e') = resolve_finds probe_of s i b g e in (b', ap (λ x. x.0) r)
        ],
        λ (b, r). elim (resolve_lem probe_of s) [
          | inl (z, e) ↦ absurd (cc (r, ap (λ x. x.0) e))
          | inr (ne, inr (all, e)) ↦ absurd (cc (r, ap (λ x. x.0) e))
          | inr (ne, inl (j, b', lo, hi, g, h, before, e)) ↦
              fold_probes_found s.backends start _ b' g h
        ],
      )

  fold_count-probes :
      (bs : List B) (acc : ProbeResult) (n : ℕ)
      → ltb 0 n ≡ acc.healthy
      → ltb 0 (fold_count probe_of n bs) ≡ (fold_probes probe_of acc bs).healthy
  unfolding fold_probes fold_count
  fold_count-probes [] acc n h = h
  fold_count-probes (b ∷ bs) acc n h = fold_count-probes bs _ _ (ground arith)

  fold_count-le : (bs : List B) (n : ℕ) → fold_count probe_of n bs ≤ n + length bs
  unfolding fold_count
  fold_count-le [] n = omega arith
  fold_count-le (b ∷ bs) n = ground (arith, fold_count-le bs (n + 1), fold_count-le bs (n + 0))

  -- The statistics agree with the probe: the status is "healthy" exactly if the probe is, and the
  -- healthy backends are at most as many as all.
  pub health_stats_lem :
      (s : RoundRobinState B)
      → ((health_stats probe_of s).2 ≡ (probe probe_of s).healthy)
        × ((health_stats probe_of s).0 ≤ (health_stats probe_of s).1)
  unfolding health_stats probe
  health_stats_lem s = (
    fold_count-probes s.backends (record { healthy = false; last_changed = 0 }) 0 refl,
    omega (arith, fold_count-le s.backends 0),
  )

  fold_probes-changed :
      (bs : List B) (acc : ProbeResult)
      → acc.last_changed ≤ (fold_probes probe_of acc bs).last_changed
  unfolding fold_probes
  fold_probes-changed [] acc = omega arith
  fold_probes-changed (b ∷ bs) acc =
      le_trans (merge-le acc (probe_of b)).0 (fold_probes-changed bs (merge acc (probe_of b)))

  fold_probes-latest :
      (bs : List B) (acc : ProbeResult) (i : ℕ) (b : B)
      → get_elem? bs i ≡ some b
      → (probe_of b).last_changed ≤ (fold_probes probe_of acc bs).last_changed
  unfolding fold_probes
  fold_probes-latest [] acc i b g = absurd (cc)
  fold_probes-latest (c ∷ bs) acc zero b g =
      let e : c ≡ b = cc in
      rw (← e)
        (le_trans (merge-le acc (probe_of c)).1 (fold_probes-changed bs (merge acc (probe_of c))))
  fold_probes-latest (c ∷ bs) acc (suc i) b g = fold_probes-latest bs _ i b g

  -- The time of the last change is not before that of any backend.
  pub probe-latest :
      (s : RoundRobinState B) (i : ℕ) (b : B)
      → get_elem? s.backends i ≡ some b
      → (probe_of b).last_changed ≤ (probe probe_of s).last_changed
  unfolding probe
  probe-latest s i b g = fold_probes-latest s.backends _ i b g
