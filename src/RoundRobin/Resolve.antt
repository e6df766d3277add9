-- ===== src/RoundRobin/Resolve.antt =====
-- examples/vmod_round_robin/src/lib.rs: which backend `resolve` picks.
use native.Mathlib.Nat.{mod-lt}
use varnish_rs.Prelude.{
  ℕ, zero, suc, ◌+◌, ◌%◌, ◌≤◌, ◌<◌, ◌≡◌, refl, ◌⊎◌, inl, inr, true, false, Option, none, some, List,
  [], ◌∷◌, length, get_elem?, arith, Bool-cases, le-cases, eq→==, ne→==,
}
use mathlib.Core.Path.{subst}
use varnish_rs.Outcome.{Outcome, ok}
use varnish_rs.RoundRobin.{ProbeResult, RoundRobinState, resolve_loop, resolve}

pub get_elem?_of_lt {ℓ} :
    {A : Type ℓ} (xs : List A) (i : ℕ) → i < length xs → (x : A) × (get_elem? xs i ≡ some x)
get_elem?_of_lt [] i h = elim h [ ]
get_elem?_of_lt (x ∷ xs) zero h = (x, refl)
get_elem?_of_lt (x ∷ xs) (suc i) h = get_elem?_of_lt xs i (omega arith)

pub length-zero {ℓ} : {A : Type ℓ} (xs : List A) → length xs ≡ 0 → xs ≡ []
length-zero [] h = refl
length-zero (x ∷ xs) h = absurd (omega arith)

module _ {B : Type 0} (probe_of : B → ProbeResult) (s : RoundRobinState B) where
  -- The backend at position `j` of the round that starts at the current one.
  abbrev pub slot : ℕ → ℕ
  slot j = (s.current % length s.backends + j) % length s.backends

  abbrev pub IsSick : ℕ → Type 0
  IsSick j = (b : B) × (get_elem? s.backends (slot j) ≡ some b) × ((probe_of b).healthy ≡ false)

  -- The answer of a search over the positions from `i` to `stop`.
  abbrev pub Picks : ℕ → ℕ → (Outcome (Option B) × RoundRobinState B) → Type 0
  Picks i stop result =
      ((j : ℕ) × (b : B) × (i ≤ j)
        × (j < stop)
        × (get_elem? s.backends (slot j) ≡ some b)
        × ((probe_of b).healthy ≡ true)
        × ((m : ℕ) → i ≤ m → m < j → IsSick m)
        × (result ≡ (ok (some b), record s { current = slot j + 1 })))
      ⊎ (((m : ℕ) → i ≤ m → m < stop → IsSick m) × (result ≡ (ok none, s)))

  module _ (ne : 0 < length s.backends) where
    -- One sick position in front of a search.
    Picks-sick :
        (i stop : ℕ) (result : Outcome (Option B) × RoundRobinState B)
        → IsSick i
        → Picks (i + 1) stop result
        → Picks i stop result
    Picks-sick i stop result here (inl (j, b, lo, hi, g, h, before, e)) = inl (
      j,
      b,
      omega arith,
      hi,
      g,
      h,
      λ m x y. elim (le-cases m i) [
        | inl at ↦ let k : i ≡ m = omega arith in subst IsSick k here
        | inr later ↦ before m (omega arith) y
      ],
      e,
    )
    Picks-sick i stop result here (inr (all, e)) = inr (
      λ m x y. elim (le-cases m i) [
        | inl at ↦ let k : i ≡ m = omega arith in subst IsSick k here
        | inr later ↦ all m (omega arith) y
      ],
      e,
    )

    resolve_loop-Picks :
        (rounds i : ℕ)
        → Picks i (i + rounds) (resolve_loop probe_of (s.current % length s.backends) rounds i s)
    unfolding resolve_loop
    resolve_loop-Picks zero i = inr (λ m x y. absurd (omega arith), refl)
    resolve_loop-Picks (suc rounds) i =
        let (b, g) =
          get_elem?_of_lt s.backends (slot i) (mod-lt (s.current % length s.backends + i) ne) in
        elim (Bool-cases (probe_of b).healthy) [
          | inl h ↦ inl (
            i,
            b,
            omega arith,
            omega arith,
            g,
            h,
            λ m x y. absurd (omega arith),
            rw (g, h, resolve_loop),
          )
          | inr sick ↦
              let e : i + suc rounds ≡ i + 1 + rounds = omega arith in
              rw (g, sick, e, resolve_loop)
                (Picks-sick i (i + 1 + rounds) _ (b, g, sick) (resolve_loop-Picks rounds (i + 1)))
        ]

  -- With no backend the answer is none. Otherwise, going once around from the current position,
  -- the answer is the first backend that is healthy, and the next call starts behind it; if all
  -- positions are sick, the answer is none and nothing changes. No index is out of range.
  pub resolve_lem :
      ((s.backends ≡ []) × (resolve probe_of s ≡ (ok none, s)))
      ⊎ ((0 < length s.backends) × Picks 0 (length s.backends) (resolve probe_of s))
  unfolding resolve
  resolve_lem = elim (le-cases (length s.backends) 0) [
    | inl z ↦
        inl (length-zero s.backends (omega arith), rw (eq→== (length s.backends) 0 (omega arith)))
    | inr ne ↦
        let e : 0 + length s.backends ≡ length s.backends = omega arith in
        inr (
          ne,
          rw (ne→== (length s.backends) 0 (omega arith))
              (rw e at (resolve_loop-Picks ne (length s.backends) 0)),
        )
  ]
