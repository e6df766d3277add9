-- ===== src/RoundRobin/Rotation.antt =====
-- examples/vmod_round_robin/src/lib.rs: `resolve` finds a healthy backend if there is one, and
-- takes turns among healthy backends.
use native.Mathlib.Nat.{mod-lt, mod-eq_of_lt, add-mod_right, mod-add-mod}
use mathlib.Core.Path.{subst}
use varnish_rs.Prelude.{
  ℕ, zero, suc, ◌+◌, ◌-◌, ◌%◌, ◌<◌, ◌≡◌, sym, ap, ◌∙◌, inl, inr, true, Option, some, List, [], ◌∷◌,
  length, get_elem?, arith, le-cases,
}
use varnish_rs.Outcome.{Outcome, ok}
use varnish_rs.RoundRobin.{ProbeResult, RoundRobinState, resolve}
use varnish_rs.RoundRobin.Resolve.{slot, resolve_lem, get_elem?_of_lt}

lt_of_get_elem? {ℓ} :
    {A : Type ℓ} (xs : List A) (i : ℕ) (x : A) → get_elem? xs i ≡ some x → i < length xs
lt_of_get_elem? [] i x h = absurd (cc)
lt_of_get_elem? (y ∷ xs) zero x h = omega arith
lt_of_get_elem? (y ∷ xs) (suc i) x h = omega (arith, lt_of_get_elem? xs i x h)

module _ {B : Type 0} (probe_of : B → ProbeResult) (s : RoundRobinState B) where
  -- Going once around meets every backend.
  slot_covers :
      (i : ℕ) → i < length s.backends → (j : ℕ) × (j < length s.backends) × (slot probe_of s j ≡ i)
  slot_covers i h =
      let n = length s.backends in
      let c = s.current % n in
      let below : c < n = mod-lt s.current (omega arith) in
      elim (le-cases c i) [
        | inl le ↦
            let e : c + (i - c) ≡ i = omega arith in (i - c, omega arith, rw e (mod-eq_of_lt h))
        | inr gt ↦
            let e : c + (i + n - c) ≡ i + n = omega arith in
            (i + n - c, omega arith, rw e (add-mod_right i n ∙ mod-eq_of_lt h))
      ]

  -- If some backend is healthy, the answer is a backend of the list that is healthy.
  pub resolve_finds :
      (i : ℕ) (b : B)
      → get_elem? s.backends i ≡ some b
      → (probe_of b).healthy ≡ true
      → (j : ℕ) × (b' : B) × (resolve probe_of s ≡ (ok (some b'), record s { current = j + 1 }))
        × (get_elem? s.backends j ≡ some b')
        × ((probe_of b').healthy ≡ true)
  resolve_finds i b g h =
      let lt = lt_of_get_elem? s.backends i b g in
      elim (resolve_lem probe_of s) [
        | inl (z, e) ↦ absurd (omega (arith, ap length z))
        | inr (ne, inl (j, b', lo, hi, g', h', before, e)) ↦ (slot probe_of s j, b', e, g', h')
        | inr (ne, inr (all, e)) ↦
            let (j, hi, at) = slot_covers i lt in
            let (b', g', sick) = all j (omega arith) hi in
            absurd (cc (g, subst (λ k. get_elem? s.backends k ≡ some b') at g', h, sick))
      ]

  -- Where every backend is healthy, the answer is the current one, and the next becomes current.
  pub resolve_current :
      ((b : B) → (probe_of b).healthy ≡ true)
      → (b : B) → get_elem? s.backends (s.current % length s.backends) ≡ some b
      → resolve probe_of s ≡ (ok (some b), record s { current = s.current % length s.backends + 1 })
  resolve_current all b g =
      let n = length s.backends in
      let lt = lt_of_get_elem? s.backends (s.current % n) b g in
      let first : slot probe_of s 0 ≡ s.current % n =
        let e : s.current % n + 0 ≡ s.current % n = omega arith in rw e (mod-eq_of_lt lt) in
      elim (resolve_lem probe_of s) [
        | inl (z, e) ↦ absurd (omega (arith, ap length z))
        | inr (ne, inr (sick, e)) ↦
            let (b', g', h) = sick 0 (omega arith) ne in absurd (cc (all b', h))
        | inr (ne, inl (zero, b', lo, hi, g', h', before, e)) ↦
            let same : some b' ≡ some b =
              sym g' ∙ subst (λ k. get_elem? s.backends k ≡ some b) (sym first) g in
            rw e (
              subst
                (λ k.
                  ◌≡◌ {A = Outcome (Option B) × RoundRobinState B}
                    (ok (some b'), record s { current = k + 1 })
                    (ok (some b), record s { current = s.current % n + 1 }))
                (sym first) (cc same))
        | inr (ne, inl (suc j, b', lo, hi, g', h', before, e)) ↦
            let (b'', g'', h) = before 0 (omega arith) (omega arith) in absurd (cc (all b'', h))
      ]

module _ {B : Type 0} (probe_of : B → ProbeResult) where
  -- The state after `k` calls.
  pub turns : ℕ → RoundRobinState B → RoundRobinState B
  turns zero s = s
  turns (suc k) s = turns k (resolve probe_of s).1

  -- Where every backend is healthy, the answer after `k` calls is the backend that stands `k`
  -- places behind the current one, going around: each backend has its turn.
  pub resolve-turns :
      (k : ℕ) (s : RoundRobinState B) (b : B)
      → ((b' : B) → (probe_of b').healthy ≡ true)
      → get_elem? s.backends ((s.current + k) % length s.backends) ≡ some b
      → (resolve probe_of (turns k s)).0 ≡ ok (some b)
  unfolding turns
  resolve-turns zero s b all g =
      let e : s.current + 0 ≡ s.current = omega arith in
      ap (λ r. r.0) (resolve_current probe_of s all b (rw e at g))
  resolve-turns (suc k) s b all g =
      let n = length s.backends in
      let lt = lt_of_get_elem? s.backends ((s.current + suc k) % n) b g in
      let (b', g') = get_elem?_of_lt s.backends (s.current % n) (mod-lt s.current (omega arith)) in
      let e : s.current % n + 1 + k ≡ s.current % n + suc k = omega arith in
      rw (resolve_current probe_of s all b' g')
        (resolve-turns k (record s { current = s.current % n + 1 }) b all (rw (e, mod-add-mod) g))
