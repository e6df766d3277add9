-- ===== src/Filters/Tests.antt =====
-- A run of a filter registry, and instances of its theorems.
use varnish_rs.Prelude.{ℕ, ◌+◌, ◌≡◌, refl, ◌⊎◌, true, false, List, [], ◌∷◌}
use varnish_rs.Filters.{
  Filter, Filters, find_position, register, unregister, as_vfp, as_vdp, removes,
}
use varnish_rs.Filters.Laws.{count, one_if, register_lem, unregister_lem, Registers}
use varnish_rs.Filters.Balance.{
  IsSound, vfp, start, next_step, register_one, unregister_one, no_filters, Reach-IsSound,
}

abbrev filter : ℕ → ℕ → Filter
filter a n = record { addr = a; name = n }

abbrev three : Filters
three = record { filters = filter 100 1 ∷ filter 101 2 ∷ filter 102 3 ∷ []; calls = [] }

-- The last filter takes the place of the one removed.
unregister_first : (unregister as_vfp 1 three).1.filters ≡ filter 102 3 ∷ filter 101 2 ∷ []
unfolding unregister find_position
unregister_first = refl

register_again : (register as_vfp 200 2 three).0 ≡ false
unfolding register find_position
register_again = refl

register_lem_example : Registers as_vfp 200 2 three (register as_vfp 200 2 three)
register_lem_example = register_lem as_vfp 200 2 three

unregister_lem_example :
    ((count 1 three.filters ≡ 0) × (unregister as_vdp 1 three ≡ (false, three)))
    ⊎ ((x : Filter) × (rest : List Filter) × (unregister as_vdp 1 three
          ≡ (true, record { filters = rest; calls = removes as_vdp x ∷ [] }))
        × (x.name ≡ 1)
        × ((other : ℕ) → one_if other x + count other rest ≡ count other three.filters))
unregister_lem_example = unregister_lem as_vdp 1 three

abbrev one_filter : Filters
one_filter = (register as_vfp 100 1 no_filters).1

Reach-IsSound_example : IsSound (unregister as_vfp 1 one_filter).1
Reach-IsSound_example =
    Reach-IsSound vfp
      (next_step (next_step start (register_one 100 1 no_filters)) (unregister_one 1 one_filter))
