-- ===== src/Filters/Laws.antt =====
-- varnish-sys/src/vcl/processor.rs: what registering and unregistering a filter does to the
-- filters of a registry.
use varnish_rs.Prelude.{
  swap_remove, last_or, but_last, behind, ℕ, zero, suc, ◌+◌, ◌≡◌, ◌≢◌, ◌⊎◌, inl, inr, refl, ap,
  Bool, true, false, Option, none, some, ◌<◌, List, [], ◌∷◌, ◌++◌, ◌==◌, if◌then◌else◌, arith,
  Bool-cases, Option-cases, eq→==,
}
use varnish_rs.Filters.{
  Filter, Filters, Arguments, find_position, next, adds, removes, register, unregister,
}

-- How often a name occurs.
abbrev pub count : ℕ → List Filter → ℕ
count name [] = 0
count name (f ∷ fs) = (if f.name == name then 1 else 0) + count name fs

-- No name occurs twice.
abbrev pub IsUnique : List Filter → Type 0
IsUnique fs = (name : ℕ) → (count name fs ≡ 0) ⊎ (count name fs ≡ 1)

pub count-append :
    (name : ℕ) (xs ys : List Filter) → count name (xs ++ ys) ≡ count name xs + count name ys
count-append name [] ys = omega arith
count-append name (x ∷ xs) ys = omega (arith, count-append name xs ys)

count-last :
    (name : ℕ) (g : Filter) (gs : List Filter)
    → count name (last_or g gs ∷ but_last (g ∷ gs)) ≡ count name (g ∷ gs)
count-last name g [] = refl
count-last name g (h ∷ gs) = omega (arith, count-last name h gs)

abbrev pub one_if : ℕ → Filter → ℕ
one_if name f = if f.name == name then 1 else 0

-- What a removal at a position answers, against the list.
abbrev Removes : List Filter → Option (Filter × List Filter) → Type 0
Removes fs none = Unit {0}
Removes fs (some (x, rest)) = (name : ℕ) → one_if name x + count name rest ≡ count name fs

Removes-behind :
    (f : Filter) (fs : List Filter) (o : Option (Filter × List Filter))
    → Removes fs o
    → Removes (f ∷ fs) (behind f o)
Removes-behind f fs none h = tt
Removes-behind f fs (some (x, rest)) h = λ name. omega (arith, h name)

swap_remove-Removes : (i : ℕ) (fs : List Filter) → Removes fs (swap_remove i fs)
swap_remove-Removes i [] = tt
swap_remove-Removes zero (f ∷ []) = λ name. refl
swap_remove-Removes zero (f ∷ g ∷ gs) = λ name. omega (arith, count-last name g gs)
swap_remove-Removes (suc i) (f ∷ fs) =
    Removes-behind f fs (swap_remove i fs) (swap_remove-Removes i fs)

-- The position of a name, against the list.
abbrev Finds : ℕ → List Filter → Option ℕ → Type 0
Finds name fs none = count name fs ≡ 0
Finds name fs (some i) =
    (x : Filter) × (rest : List Filter) × (swap_remove i fs ≡ some (x, rest)) × (x.name ≡ name)

Finds-here :
    (name : ℕ) (f : Filter) (fs : List Filter) → f.name ≡ name → Finds name (f ∷ fs) (some 0)
Finds-here name f [] e = (f, [], refl, e)
Finds-here name f (g ∷ gs) e = (f, last_or g gs ∷ but_last (g ∷ gs), refl, e)

Finds-next :
    (name : ℕ) (f : Filter) (fs : List Filter) (o : Option ℕ)
    → f.name ≢ name
    → Finds name fs o
    → Finds name (f ∷ fs) (next o)
Finds-next name f fs none ne h = ground arith
Finds-next name f fs (some i) ne (x, rest, e, n) = (x, f ∷ rest, ap (behind f) e, n)

find_position-Finds : (name : ℕ) (fs : List Filter) → Finds name fs (find_position name fs)
unfolding find_position
find_position-Finds name [] = refl
find_position-Finds name (f ∷ fs) = elim (Bool-cases (f.name == name)) [
  | inl same ↦ rw same (Finds-here name f fs (ground arith))
  | inr other ↦
      rw other
        (Finds-next name f fs (find_position name fs) (ground arith) (find_position-Finds name fs))
]

-- A found filter counts, and the rest keeps the counts.
found_counts :
    (name i : ℕ) (fs : List Filter) (x : Filter) (rest : List Filter)
    → swap_remove i fs ≡ some (x, rest)
    → (other : ℕ) → one_if other x + count other rest ≡ count other fs
found_counts name i fs x rest e = rw e at (swap_remove-Removes i fs)

count_pos : (name i : ℕ) (fs : List Filter) → Finds name fs (some i) → 0 < count name fs
count_pos name i fs (x, rest, e, n) =
    let c = found_counts name i fs x rest e name in ground (arith, eq→== x.name name n)

module _ (args : Arguments) where
  -- What `register` does, by whether the name is there.
  abbrev pub Registers : ℕ → ℕ → Filters → (Bool × Filters) → Type 0
  Registers addr name r result =
      let f : Filter = record { addr = addr; name = name } in
      ((count name r.filters ≡ 0)
        × (result ≡ (
          true,
          record { filters = r.filters ++ f ∷ []; calls = r.calls ++ adds args f ∷ [] },
        )))
      ⊎ ((0 < count name r.filters) × (result ≡ (false, r)))

  -- Registering succeeds exactly if the name is not there: then the filter is appended and
  -- varnishd is told of it; otherwise nothing changes.
  pub register_lem :
      (addr name : ℕ) (r : Filters) → Registers addr name r (register args addr name r)
  unfolding register
  register_lem addr name r = elim (Option-cases (find_position name r.filters)) [
    | inl e ↦ inl (rw e at (find_position-Finds name r.filters), rw (e, register))
    | inr (i, e) ↦ inr (
      count_pos name i r.filters (rw e at (find_position-Finds name r.filters)),
      rw (e, register),
    )
  ]

  -- Unregistering succeeds exactly if the name is there: then one filter of that name is taken
  -- out, every other filter stays as often as it was, and varnishd is told of the one taken;
  -- otherwise nothing changes.
  pub unregister_lem :
      (name : ℕ) (r : Filters)
      → ((count name r.filters ≡ 0) × (unregister args name r ≡ (false, r)))
        ⊎ ((x : Filter) × (rest : List Filter) × (unregister args name r
              ≡ (true, record { filters = rest; calls = r.calls ++ removes args x ∷ [] }))
            × (x.name ≡ name)
            × ((other : ℕ) → one_if other x + count other rest ≡ count other r.filters))
  unfolding unregister
  unregister_lem name r = elim (Option-cases (find_position name r.filters)) [
    | inl e ↦ inl (rw e at (find_position-Finds name r.filters), rw (e, unregister))
    | inr (i, e) ↦
        let (x, rest, s, n) = rw e at (find_position-Finds name r.filters) in
        inr (x, rest, rw (e, s, unregister), n, found_counts name i r.filters x rest s)
  ]
