-- ===== src/Filters/Balance.antt =====
-- varnish-sys/src/vcl/processor.rs: over any sequence of operations a registry holds every name
-- at most once, and varnishd has been told of exactly the filters that it holds.
use varnish_rs.Prelude.{
  ℕ, ◌+◌, ◌≡◌, ◌⊎◌, inl, inr, refl, Option, none, some, List, [], ◌∷◌, ◌++◌, ◌==◌, arith,
  Bool-cases,
}
use varnish_rs.Filters.{
  Filter, Filters, Call, add_filter, remove_filter, Arguments, adds, removes, register, unregister,
  unregister_all, remove_calls, as_vfp, as_vdp,
}
use varnish_rs.Filters.Laws.{count, one_if, IsUnique, count-append, register_lem, unregister_lem}

abbrev names : ℕ → Option Filter → ℕ
names name none = 0
names name (some f) = one_if name f

-- How often varnishd was told to add, and to remove, a filter of a name.
abbrev pub added : ℕ → List Call → ℕ
added name [] = 0
added name (add_filter a b ∷ cs) = names name a + names name b + added name cs
added name (remove_filter a b ∷ cs) = added name cs

abbrev pub taken : ℕ → List Call → ℕ
taken name [] = 0
taken name (add_filter a b ∷ cs) = taken name cs
taken name (remove_filter a b ∷ cs) = names name a + names name b + taken name cs

added-append :
    (name : ℕ) (xs ys : List Call) → added name (xs ++ ys) ≡ added name xs + added name ys
added-append name [] ys = omega arith
added-append name (add_filter a b ∷ xs) ys = omega (arith, added-append name xs ys)
added-append name (remove_filter a b ∷ xs) ys = added-append name xs ys

taken-append :
    (name : ℕ) (xs ys : List Call) → taken name (xs ++ ys) ≡ taken name xs + taken name ys
taken-append name [] ys = omega arith
taken-append name (add_filter a b ∷ xs) ys = taken-append name xs ys
taken-append name (remove_filter a b ∷ xs) ys = omega (arith, taken-append name xs ys)

pub record IsSound (r : Filters) : Type 0 where
  pub unique : IsUnique r.filters
  pub balanced : (name : ℕ) → added name r.calls ≡ taken name r.calls + count name r.filters

abbrev pub no_filters : Filters
no_filters = record { filters = []; calls = [] }

-- The two ways to name one filter to varnishd.
pub data IsArguments : Arguments → Type 0 where
  vfp : IsArguments as_vfp
  vdp : IsArguments as_vdp

names_once :
    {args : Arguments}
    → IsArguments args
    → (name : ℕ) (f : Filter) → names name (args f).0 + names name (args f).1 ≡ one_if name f
names_once vfp name f = omega arith
names_once vdp name f = omega arith

unique-append :
    (fs : List Filter) (f : Filter) (name : ℕ)
    → IsUnique fs
    → count f.name fs ≡ 0
    → (count name (fs ++ f ∷ []) ≡ 0) ⊎ (count name (fs ++ f ∷ []) ≡ 1)
unique-append fs f name u absent = elim (Bool-cases (f.name == name)) [
  | inl same ↦
      let e : f.name ≡ name = ground arith in
      let z : count name fs ≡ 0 = rw e at absent in ground (arith, count-append name fs (f ∷ []))
  | inr other ↦ ground (arith, count-append name fs (f ∷ []), u name)
]

module _ (args : Arguments) (ia : IsArguments args) where
  pub register-IsSound :
      (addr name : ℕ) (r : Filters) → IsSound r → IsSound (register args addr name r).1
  register-IsSound addr name r s =
      let f : Filter = record { addr = addr; name = name } in
      elim (register_lem args addr name r) [
        | inl (absent, e) ↦ rw e (record {
          unique = λ other. unique-append r.filters f other s.unique absent;
          balanced = λ other. omega (
            arith,
            added-append other r.calls (adds args f ∷ []),
            taken-append other r.calls (adds args f ∷ []),
            count-append other r.filters (f ∷ []),
            s.balanced other,
            names_once ia other f,
          );
        })
        | inr (there, e) ↦ rw e s
      ]

  pub unregister-IsSound : (name : ℕ) (r : Filters) → IsSound r → IsSound (unregister args name r).1
  unregister-IsSound name r s = elim (unregister_lem args name r) [
    | inl (absent, e) ↦ rw e s
    | inr (x, rest, e, n, keeps) ↦ rw e (record {
      unique = λ other. ground (arith, s.unique other, keeps other);
      balanced = λ other. omega (
        arith,
        added-append other r.calls (removes args x ∷ []),
        taken-append other r.calls (removes args x ∷ []),
        keeps other,
        s.balanced other,
        names_once ia other x,
      );
    })
  ]

  added-remove_calls : (name : ℕ) (fs : List Filter) → added name (remove_calls args fs) ≡ 0
  unfolding remove_calls
  added-remove_calls name [] = refl
  added-remove_calls name (f ∷ fs) = added-remove_calls name fs

  taken-remove_calls :
      (name : ℕ) (fs : List Filter) → taken name (remove_calls args fs) ≡ count name fs
  unfolding remove_calls
  taken-remove_calls name [] = refl
  taken-remove_calls name (f ∷ fs) = omega (arith, names_once ia name f, taken-remove_calls name fs)

  pub unregister_all-IsSound : (r : Filters) → IsSound r → IsSound (unregister_all args r)
  unfolding unregister_all
  unregister_all-IsSound r s = record {
    unique = λ other. inl refl;
    balanced = λ other. omega (
      arith,
      added-append other r.calls (remove_calls args r.filters),
      taken-append other r.calls (remove_calls args r.filters),
      added-remove_calls other r.filters,
      taken-remove_calls other r.filters,
      s.balanced other,
    );
  }

-- One operation of a registry; the address of a new box is the environment's choice.
pub data Step (args : Arguments) : Filters → Filters → Type 0 where
  register_one : (addr name : ℕ) (r : Filters) → Step args r (register args addr name r).1
  unregister_one : (name : ℕ) (r : Filters) → Step args r (unregister args name r).1
  unregister_rest : (r : Filters) → Step args r (unregister_all args r)

pub data Reach (args : Arguments) : Filters → Type 0 where
  start : Reach args no_filters
  next_step : {r t : Filters} → Reach args r → Step args r t → Reach args t

Step-IsSound :
    {args : Arguments} {r t : Filters} → IsArguments args → Step args r t → IsSound r → IsSound t
Step-IsSound {args} ia (register_one addr name r) s = register-IsSound args ia addr name r s
Step-IsSound {args} ia (unregister_one name r) s = unregister-IsSound args ia name r s
Step-IsSound {args} ia (unregister_rest r) s = unregister_all-IsSound args ia r s

-- Every registry of fetch filters, or of delivery filters, that any operations lead to from the
-- empty one holds each name at most once, and for each name varnishd was told to add as many
-- filters as it was told to remove and the registry holds.
pub Reach-IsSound : {args : Arguments} {r : Filters} → IsArguments args → Reach args r → IsSound r
Reach-IsSound ia start = record { unique = λ name. inl refl; balanced = λ name. refl }
Reach-IsSound ia (next_step h st) = Step-IsSound ia st (Reach-IsSound ia h)
