-- ===== src/Metrics/Balance.antt =====
-- varnish/src/metrics_reader.rs: the handles that an update reports account for the table.
use varnish_rs.Prelude.{
  ℕ, ◌+◌, ◌≡◌, ◌⊎◌, refl, sym, ap, ◌∙◌, true, false, List, [], ◌∷◌, ◌++◌, ◌==◌, ==_iff, Bool-cases,
  inl, inr, if◌then◌else◌, arith,
}
use varnish_rs.Outcome.{Outcome, ok, err, panic, and_then}
use varnish_rs.Metrics.{
  Metric, MetricsReaderImpl, contains_key, remove, insert, metric_of, has_texts, add_point,
  del_point, PointCall, add, del, vsc_iter, update, take_changes,
}

-- How often a handle is in a list, and in the table.
abbrev pub times : ℕ → List ℕ → ℕ
times k [] = 0
times k (x ∷ xs) = (if x == k then 1 else 0) + times k xs

abbrev pub present : ℕ → List (ℕ × Metric) → ℕ
present k points = if contains_key k points then 1 else 0

times-append :
    (k x : ℕ) (xs : List ℕ) → times k (xs ++ x ∷ []) ≡ times k xs + (if x == k then 1 else 0)
times-append k x [] = omega arith
times-append k x (y ∷ xs) = omega (arith, times-append k x xs)

contains_key-remove :
    (k : ℕ) (points : List (ℕ × Metric)) → contains_key k (remove k points) ≡ false
contains_key-remove k [] = refl
contains_key-remove k ((key, m) ∷ points) = elim (Bool-cases (key == k)) [
  | inl same ↦ rw same (contains_key-remove k points)
  | inr other ↦ rw (other, other) (contains_key-remove k points)
]

contains_key-remove_other :
    (k a : ℕ) (points : List (ℕ × Metric))
    → (a == k) ≡ false
    → contains_key k (remove a points) ≡ contains_key k points
contains_key-remove_other k a [] ne = refl
contains_key-remove_other k a ((key, m) ∷ points) ne =
    let rest = contains_key-remove_other k a points ne in
    elim (Bool-cases (key == a)) [
      | inl same ↦
          let e : key ≡ a = (==_iff key a).0 same in
          let away : (key == k) ≡ false = ap (λ x. x == k) e ∙ ne in rw (same, away) rest
      | inr other ↦ elim (Bool-cases (key == k)) [
        | inl here ↦ rw (other, here)
        | inr away ↦ rw (other, away) rest
      ]
    ]

present-insert :
    (k a : ℕ) (m : Metric) (points : List (ℕ × Metric))
    → contains_key a points ≡ false
    → present k (insert a m points) ≡ (if a == k then 1 else 0) + present k points
present-insert k a m points missing = elim (Bool-cases (a == k)) [
  | inl same ↦
      let e : a ≡ k = (==_iff a k).0 same in
      let gone : contains_key k points ≡ false =
        ap (λ x. contains_key x points) (sym e) ∙ missing in
      rw (same, gone) (omega arith)
  | inr other ↦ rw (other, contains_key-remove_other k a points other) (omega arith)
]

present-remove :
    (k a : ℕ) (points : List (ℕ × Metric))
    → contains_key a points ≡ true
    → (if a == k then 1 else 0) + present k (remove a points) ≡ present k points
present-remove k a points found = elim (Bool-cases (a == k)) [
  | inl same ↦
      let e : a ≡ k = (==_iff a k).0 same in
      let here : contains_key k points ≡ true = ap (λ x. contains_key x points) (sym e) ∙ found in
      let gone : contains_key k (remove a points) ≡ false =
        ap (λ x. contains_key k (remove x points)) e ∙ contains_key-remove k points in
      rw (same, here, gone) (omega arith)
  | inr other ↦ rw (other, contains_key-remove_other k a points other) (omega arith)
]

-- Points that are added are not there and have C strings that are UTF-8, and points that are
-- deleted are there.
abbrev pub Allowed : List PointCall → List (ℕ × Metric) → Type 0
Allowed [] points = Unit {0}
Allowed (add k p ∷ calls) points =
    (has_texts p ≡ true)
    × (contains_key k points ≡ false)
    × Allowed calls (insert k (metric_of p) points)
Allowed (del k ∷ calls) points = (contains_key k points ≡ true) × Allowed calls (remove k points)

-- The handles added and deleted from one state to another account for the table.
abbrev pub IsBalanced : MetricsReaderImpl → MetricsReaderImpl → Type 0
IsBalanced r r' =
    (k : ℕ)
    → times k r'.added + (times k r.deleted + present k r.points)
      ≡ times k r'.deleted + (times k r.added + present k r'.points)

vsc_iter-IsBalanced :
    (calls : List PointCall) (r : MetricsReaderImpl)
    → Allowed calls r.points
    → (r' : MetricsReaderImpl) × (vsc_iter calls r ≡ (ok tt, r')) × IsBalanced r r'
unfolding vsc_iter add_point del_point
vsc_iter-IsBalanced [] r h = (r, refl, λ k. omega arith)
vsc_iter-IsBalanced (add a p ∷ calls) r (texts, missing, h) =
    let r1 = record r { points = insert a (metric_of p) r.points; added = r.added ++ a ∷ [] } in
    let (r', e, b) = vsc_iter-IsBalanced calls r1 h in
    (
      r',
      rw (texts, missing) e,
      λ k.
          omega (
            arith,
            b k,
            times-append k a r.added,
            present-insert k a (metric_of p) r.points missing,
          ),
    )
vsc_iter-IsBalanced (del a ∷ calls) r (found, h) =
    let r1 = record r { points = remove a r.points; deleted = r.deleted ++ a ∷ [] } in
    let (r', e, b) = vsc_iter-IsBalanced calls r1 h in
    (
      r',
      rw found e,
      λ k. omega (arith, b k, times-append k a r.deleted, present-remove k a r.points found),
    )

abbrev pub Panics : {S A : Type 0} → Outcome A × S → Type 0
Panics x = x.0 ≡ panic

vsc_iter-Panics :
    (calls : List PointCall) (r : MetricsReaderImpl)
    → Allowed calls r.points ⊎ Panics (vsc_iter calls r)
unfolding vsc_iter add_point del_point
vsc_iter-Panics [] r = inl tt
vsc_iter-Panics (add a p ∷ calls) r = elim (Bool-cases (has_texts p)) [
  | inr bad ↦ inr (rw bad refl)
  | inl texts ↦ elim (Bool-cases (contains_key a r.points)) [
    | inl taken ↦ inr (rw (texts, taken) refl)
    | inr free ↦
        let r1 = record r { points = insert a (metric_of p) r.points; added = r.added ++ a ∷ [] } in
        elim (vsc_iter-Panics calls r1) [
          | inl h ↦ inl (texts, free, h)
          | inr e ↦ inr (rw (texts, free) e)
        ]
  ]
]
vsc_iter-Panics (del a ∷ calls) r = elim (Bool-cases (contains_key a r.points)) [
  | inr away ↦ inr (rw away refl)
  | inl found ↦
      let r1 = record r { points = remove a r.points; deleted = r.deleted ++ a ∷ [] } in
      elim (vsc_iter-Panics calls r1) [ inl h ↦ inl (found, h) | inr e ↦ inr (rw found e) ]
]

-- No change is pending, and the lists that are reported account for the table.
abbrev pub Reports : List PointCall → MetricsReaderImpl → Type 0
Reports calls r =
    (added deleted : List ℕ) × (r' : MetricsReaderImpl) × (update calls r
      ≡ (ok (added, deleted), r'))
    × (r'.added ≡ [])
    × (r'.deleted ≡ [])
    × ((k : ℕ) → times k added + present k r.points ≡ times k deleted + present k r'.points)

reports :
    (calls : List PointCall) (r : MetricsReaderImpl)
    → Allowed calls r.points
    → r.added ≡ []
    → r.deleted ≡ []
    → Reports calls r
unfolding update
reports calls r h no_added no_deleted =
    let (r1, e, b) = vsc_iter-IsBalanced calls r h in
    let none_added : (k : ℕ) → times k r.added ≡ 0 = λ k. ap (times k) no_added in
    let none_deleted : (k : ℕ) → times k r.deleted ≡ 0 = λ k. ap (times k) no_deleted in
    (
      r1.added,
      r1.deleted,
      record r1 { added = []; deleted = [] },
      rw e,
      refl,
      refl,
      λ k. omega (arith, b k, none_added k, none_deleted k),
    )

-- A pass that panics ends the update.
update-Panics :
    (calls : List PointCall) (r : MetricsReaderImpl)
    → Panics (vsc_iter calls r)
    → Panics (update calls r)
unfolding update
update-Panics calls r e = by_result (vsc_iter calls r) e
  where
    by_result :
        (x : Outcome (Unit {0}) × MetricsReaderImpl)
        → Panics x
        → Panics (and_then (λ _. take_changes) x)
    by_result (ok u, r') e = cc
    by_result (err v, r') e = cc
    by_result (panic, r') e = refl

not_both :
    (calls : List PointCall) (r : MetricsReaderImpl)
    → Panics (vsc_iter calls r)
    → Allowed calls r.points
    → ⊥
not_both calls r e h =
    let (r1, f, b) = vsc_iter-IsBalanced calls r h in
    let fine : (vsc_iter calls r).0 ≡ ok tt = ap (λ x. x.0) f in cc

-- From a table with no changes pending, an update panics exactly if varnishd adds a point that is
-- there, adds one with a text that is not UTF-8, or deletes one that is not there. Otherwise it
-- leaves no change pending, and its two lists account for the table: a handle is as often in the
-- first list, and in the table before, as it is in the second, and in the table after.
pub update_lem :
    (calls : List PointCall) (r : MetricsReaderImpl)
    → r.added ≡ []
    → r.deleted ≡ []
    → (Allowed calls r.points × Reports calls r)
      ⊎ ((Allowed calls r.points → ⊥) × Panics (update calls r))
update_lem calls r no_added no_deleted = elim (vsc_iter-Panics calls r) [
  | inl h ↦ inl (h, reports calls r h no_added no_deleted)
  | inr e ↦ inr (not_both calls r e, update-Panics calls r e)
]
