-- ===== src/Filters.antt =====
-- varnish-sys/src/vcl/processor.rs: `FetchFilters` and `DeliveryFilters`, the registries of the
-- filters of a VMOD. A filter is known by the address of its box and of its name; what the
-- registries tell varnishd is kept as a log of calls.
pub mod Laws
pub mod Balance
mod Tests
use varnish_rs.Prelude.{
  swap_remove, ℕ, zero, suc, ◌+◌, Bool, true, false, Option, none, some, List, [], ◌∷◌, ◌++◌, ◌==◌,
  if◌then◌else◌,
}

-- A boxed `ffi::vfp` or `ffi::vdp`.
pub record Filter : Type 0 where
  pub addr : ℕ
  pub name : ℕ

-- The arguments of `VRT_AddFilter` and `VRT_RemoveFilter`: the vfp and the vdp, either of them
-- null.
pub data Call : Type 0 where
  add_filter : Option Filter → Option Filter → Call
  remove_filter : Option Filter → Option Filter → Call

pub record Filters : Type 0 where
  pub filters : List Filter
  pub calls : List Call

abbrev pub next : Option ℕ → Option ℕ
next none = none
next (some i) = some (suc i)

-- `Iterator::position` on the names
unfoldable pub find_position : ℕ → List Filter → Option ℕ
find_position name [] = none
find_position name (f ∷ fs) = if f.name == name then some 0 else next (find_position name fs)

-- The arguments by which a registry names a filter to varnishd.
abbrev pub Arguments : Type 0
Arguments = Filter → Option Filter × Option Filter

abbrev pub as_vfp : Arguments
as_vfp f = (some f, none)

abbrev pub as_vdp : Arguments
as_vdp f = (none, some f)

abbrev pub adds : Arguments → Filter → Call
adds args f = add_filter (args f).0 (args f).1

abbrev pub removes : Arguments → Filter → Call
removes args f = remove_filter (args f).0 (args f).1

module _ (args : Arguments) where
  -- `addr` is the address of the new box.
  unfoldable pub register : ℕ → ℕ → Filters → Bool × Filters
  register addr name r = elim (find_position name r.filters) [
    | none ↦
        let instance_ : Filter = record { addr = addr; name = name } in
        (
          true,
          record {
            filters = r.filters ++ instance_ ∷ [];
            calls = r.calls ++ adds args instance_ ∷ [];
          },
        )
    | some _ ↦ (false, r)
  ]

  -- A position that `find_position` returns is in range.
  abbrev pub removed : Option (Filter × List Filter) → Filters → Bool × Filters
  removed none r = (false, r)
  removed (some (filter, rest)) r =
      (true, record { filters = rest; calls = r.calls ++ removes args filter ∷ [] })

  unfoldable pub unregister : ℕ → Filters → Bool × Filters
  unregister name r = elim (find_position name r.filters) [
    | none ↦ (false, r)
    | some pos ↦ removed (swap_remove pos r.filters) r
  ]

  remove_calls : List Filter → List Call
  remove_calls [] = []
  remove_calls (f ∷ fs) = removes args f ∷ remove_calls fs

  unfoldable pub unregister_all : Filters → Filters
  unfolding remove_calls
  unregister_all r = record { filters = []; calls = r.calls ++ remove_calls r.filters }

-- `FetchFilters`
module _ (addr name : ℕ) where
  unfoldable pub fetch_register : Filters → Bool × Filters
  unfolding register
  fetch_register = register as_vfp addr name

  unfoldable pub delivery_register : Filters → Bool × Filters
  unfolding register
  delivery_register = register as_vdp addr name

module _ (name : ℕ) where
  unfoldable pub fetch_unregister : Filters → Bool × Filters
  unfolding unregister
  fetch_unregister = unregister as_vfp name

  unfoldable pub delivery_unregister : Filters → Bool × Filters
  unfolding unregister
  delivery_unregister = unregister as_vdp name

unfoldable pub fetch_unregister_all : Filters → Filters
unfolding unregister_all
fetch_unregister_all = unregister_all as_vfp

unfoldable pub delivery_unregister_all : Filters → Filters
unfolding unregister_all
delivery_unregister_all = unregister_all as_vdp
