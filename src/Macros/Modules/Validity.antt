-- ===== src/Macros/Modules/Validity.antt =====
-- What is known of a module that validation accepts.
use Prim.Native.String.{String}
use varnish_rs.Prelude.{◌≡◌, ◌≤◌, ◌<◌, false, ◌&&◌, List, [], ◌∷◌, ◌++◌, ltb, ◌==◌, arith}
use varnish_rs.Macros.Output.{is_event}
use varnish_rs.Macros.Functions.{
  FuncError, two_events, nothing_found, shared_not_initialized, collision, contains, is_empty, when,
}
use varnish_rs.Macros.Functions.Laws.{Empty, append-Empty, when-false}
use varnish_rs.Macros.Modules.{
  VmodInfo, vcl_idents, constructors_of, count_funcs, count_args, is_per_vcl_mut, is_per_vcl_ref,
  collisions, validate,
}

-- No name stands in the list twice, or in the list of names seen before.
abbrev pub Different : List String → List String → Type 0
Different seen [] = Unit {0}
Different seen (name ∷ names) = (contains seen name ≡ false) × Different (name ∷ seen) names

collisions-Different :
    (seen names : List String) → Empty (collisions seen names) → Different seen names
collisions-Different seen [] h = tt
collisions-Different seen (name ∷ names) h =
    let (first, rest) =
      append-Empty (when (contains seen name) (collision name)) (collisions (name ∷ seen) names)
        h in
    (
      when-false (contains seen name) (collision name) first,
      collisions-Different (name ∷ seen) names rest,
    )

-- A module that passes validation, with no errors before it, has at most one event handler; the
-- VCL names of its functions and constructors differ; and if a function reads the value shared per
-- VCL, another one may set it.
pub validate_lem :
    {N : Type 0} (info : VmodInfo N) (errors : List FuncError)
    → Empty (validate info errors)
    → Empty errors
      × (count_funcs (λ f. is_event f.func_type) info ≤ 1)
      × Different [] (vcl_idents info.funcs ++ vcl_idents (constructors_of info.objects))
      × (0 < count_args is_per_vcl_ref info → 0 < count_args is_per_vcl_mut info)
unfolding validate
validate_lem info errors h =
    let events = ltb 1 (count_funcs (λ f. is_event f.func_type) info) in
    let names = vcl_idents info.funcs ++ vcl_idents (constructors_of info.objects) in
    let unset = ltb 0 (count_args is_per_vcl_ref info) && (count_args is_per_vcl_mut info == 0) in
    let by_event = when events two_events in
    let by_name = collisions [] names in
    let by_shared = when unset shared_not_initialized in
    let found = errors ++ by_event ++ by_name ++ by_shared in
    let (all, last) =
      append-Empty found
        (when (is_empty info.funcs && (is_empty info.objects && is_empty found)) nothing_found) h in
    let (three, d) = append-Empty (errors ++ by_event ++ by_name) by_shared all in
    let (two, c) = append-Empty (errors ++ by_event) by_name three in
    let (a, b) = append-Empty errors by_event two in
    (
      a,
      ground (arith, when-false events two_events b),
      collisions-Different [] names c,
      λ some_ref. ground (arith, some_ref, when-false unset shared_not_initialized d),
    )
