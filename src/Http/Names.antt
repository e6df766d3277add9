-- ===== src/Http/Names.antt =====
-- varnish-sys/src/vcl/http.rs: names without regard to case, and what looking up finds among the
-- headers that remain or are appended.
use varnish_rs.Prelude.{
  ◌≡◌, refl, sym, ap, ◌∙◌, true, false, none, some, List, [], ◌∷◌, ◌++◌, map, ◌==◌, ◌&&◌, ==_iff,
  if◌then◌else◌, Bool-cases, eq→==, inl, inr, arith,
}
use varnish_rs.Outcome.{Bytes}
use varnish_rs.HeaderText.{lower, eq_ignore_ascii_case}
use varnish_rs.Http.State.{Row}
use varnish_rs.Http.Find.{lookup}
use varnish_rs.Http.Rounds.{remaining}

eq_ignore_ascii_case-lower :
    (a b : Bytes) → eq_ignore_ascii_case a b ≡ true → map lower a ≡ map lower b
unfolding eq_ignore_ascii_case
eq_ignore_ascii_case-lower [] [] e = refl
eq_ignore_ascii_case-lower [] (y ∷ b) e = ground arith
eq_ignore_ascii_case-lower (x ∷ a) [] e = ground arith
eq_ignore_ascii_case-lower (x ∷ a) (y ∷ b) e = elim (Bool-cases (lower x == lower y)) [
  | inl p ↦
      let head : lower x ≡ lower y = (==_iff (lower x) (lower y)).0 p in
      let rest : eq_ignore_ascii_case a b ≡ true =
        ap (λ t. t && eq_ignore_ascii_case a b) (sym p) ∙ e in
      ap (λ n. n ∷ map lower a) head ∙ ap (◌∷◌ (lower y)) (eq_ignore_ascii_case-lower a b rest)
  | inr p ↦
      let no : false ≡ true = ap (λ t. t && eq_ignore_ascii_case a b) (sym p) ∙ e in absurd (cc no)
]

lower-eq_ignore_ascii_case :
    (a b : Bytes) → map lower a ≡ map lower b → eq_ignore_ascii_case a b ≡ true
unfolding eq_ignore_ascii_case
lower-eq_ignore_ascii_case [] [] e = refl
lower-eq_ignore_ascii_case [] (y ∷ b) e = cc e
lower-eq_ignore_ascii_case (x ∷ a) [] e = cc e
lower-eq_ignore_ascii_case (x ∷ a) (y ∷ b) e =
    let head : lower x ≡ lower y = cc e in
    let rest : map lower a ≡ map lower b = cc e in
    ap (λ t. t && eq_ignore_ascii_case a b) (eq→== (lower x) (lower y) head)
    ∙ lower-eq_ignore_ascii_case a b rest

pub eq_ignore_ascii_case_refl : (a : Bytes) → eq_ignore_ascii_case a a ≡ true
eq_ignore_ascii_case_refl a = lower-eq_ignore_ascii_case a a refl

-- Two names that both match a third match each other.
pub eq_ignore_ascii_case-join :
    (a b c : Bytes)
    → eq_ignore_ascii_case a c ≡ true
    → eq_ignore_ascii_case b c ≡ true
    → eq_ignore_ascii_case a b ≡ true
eq_ignore_ascii_case-join a b c p q =
    lower-eq_ignore_ascii_case a b
      (eq_ignore_ascii_case-lower a c p ∙ sym (eq_ignore_ascii_case-lower b c q))

pub lookup-remaining : (name : Bytes) (rows : List Row) → lookup name (remaining name rows) ≡ none
lookup-remaining name [] = refl
lookup-remaining name (r ∷ rows) = elim (Bool-cases (eq_ignore_ascii_case name r.name)) [
  | inl same ↦ rw same (lookup-remaining name rows)
  | inr other ↦ rw (other, other) (lookup-remaining name rows)
]

pub lookup-remaining_other :
    (name other : Bytes) (rows : List Row)
    → eq_ignore_ascii_case other name ≡ false
    → lookup other (remaining name rows) ≡ lookup other rows
lookup-remaining_other name other [] ne = refl
lookup-remaining_other name other (r ∷ rows) ne =
    let rest = lookup-remaining_other name other rows ne in
    elim (Bool-cases (eq_ignore_ascii_case name r.name)) [
      | inl p ↦ elim (Bool-cases (eq_ignore_ascii_case other r.name)) [
        | inl q ↦ absurd (cc (ne, eq_ignore_ascii_case-join other name r.name q p))
        | inr q ↦ rw (p, q) rest
      ]
      | inr p ↦ elim (Bool-cases (eq_ignore_ascii_case other r.name)) [
        | inl q ↦ rw (p, q)
        | inr q ↦ rw (p, q) rest
      ]
    ]

-- A header appended is found when no header before it has the name.
pub lookup-append :
    (name : Bytes) (rows : List Row) (r : Row)
    → lookup name rows ≡ none
    → eq_ignore_ascii_case name r.name ≡ true
    → lookup name (rows ++ r ∷ []) ≡ some r.value
lookup-append name [] r e same = rw same
lookup-append name (x ∷ rows) r e same = elim (Bool-cases (eq_ignore_ascii_case name x.name)) [
  | inl p ↦
      let found : some x.value ≡ none =
        ap (λ t. if t then some x.value else lookup name rows) (sym p) ∙ e in
      absurd (cc found)
  | inr p ↦
      let later : lookup name rows ≡ none =
        ap (λ t. if t then some x.value else lookup name rows) (sym p) ∙ e in
      rw p (lookup-append name rows r later same)
]

pub lookup-append_other :
    (name : Bytes) (rows : List Row) (r : Row)
    → eq_ignore_ascii_case name r.name ≡ false
    → lookup name (rows ++ r ∷ []) ≡ lookup name rows
lookup-append_other name [] r ne = rw ne
lookup-append_other name (x ∷ rows) r ne = elim (Bool-cases (eq_ignore_ascii_case name x.name)) [
  | inl p ↦ rw p
  | inr p ↦ rw p (lookup-append_other name rows r ne)
]
