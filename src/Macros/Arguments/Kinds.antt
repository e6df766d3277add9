-- ===== src/Macros/Arguments/Kinds.antt =====
-- Every parameter that is accepted fits the kind of its function.
use Prim.Native.String.{String}
use text.Mathlib.Text.{◌==◌ as str_eq}
use mathlib.Core.Path.{subst}
use varnish_rs.Prelude.{◌≡◌, sym, Bool, true, false, not, Option, none, some, if◌then◌else◌}
use varnish_rs.Outcome.{pure, fail, ◌>>=◌, ◌>>◌}
use varnish_rs.Macros.Syntax.{
  Ty, and_then, as_ref_ty, as_ref_mut_ty, as_option_type, as_box_type, as_ref_cell_type,
}
use varnish_rs.Macros.Types.{FuncType, ParamTy, try_parse}
use varnish_rs.Macros.Output.{is_event, is_constructor}
use varnish_rs.Macros.Attributes.{
  null, Special, shared_per_task, shared_per_vcl, vcl_name, ParamError, misplaced, not_in_events,
  per_task_type, vcl_name_type, not_a_ref_cell, is_text,
}
use varnish_rs.Macros.Params.{
  Parsing, Parser, regular, ParamType, name_param, per_task_mut, per_task_ref, per_task_ref_cell,
  per_vcl_ref, per_vcl_mut, fail_if, unique, only_in, not_in_event, kind_of_function,
  constructor_or_event, function_or_method, is_some, Store, task_store, vcl_store, store_text,
  store_shared, parse_shared_mut, parse_shared_ref, parse_shared_ref_cell, of_option,
}
use varnish_rs.Macros.Arguments.Rules.{
  AllOk, Holds, Yields, Yields-pure, Yields-fail, Yields-if, Yields-bind, fail_if-Yields,
  kind_of_function-Yields, unique-Yields, not_in_event-Yields, only_in-Yields,
}
use varnish_rs.Macros.Arguments.{
  task_mut, task_ref_cell, task_ref, per_task_param, vcl_shared, per_vcl_for, per_vcl_param, named,
  vcl_name_param,
}
use varnish_rs.Macros.Arguments.Fits.{Fits}

abbrev pub Any : {A : Type 0} → A → Type 0
Any a = Unit {0}

either : {A : Type 0} (P : A → Type 0) (b : Bool) (x y : A) → P x → P y → P (if b then x else y)
either P true x y p q = p
either P false x y p q = q

module _ {N : Type 0} (from_str : String → Option N) (to_text : Ty → String)
    (parses : String → Bool) (t : FuncType) where
  store_text-Yields :
      (store : Store) (ty : String) (s : Parsing) (o : Option String)
      → s.status.func_type ≡ t
      → Holds t Any (store_text to_text parses store ty s o)
  unfolding AllOk
  store_text-Yields store ty s none h = either (Holds t Any) (parses ty) _ _ (h, tt) (h, tt)
  store_text-Yields store ty s (some other) h = (h, either (AllOk Any) (str_eq other ty) _ _ tt tt)

  store_shared-Yields :
      (store : Store) (ty : Option Ty) (is_mut : Bool)
      → Yields t Any (store_shared to_text parses store ty is_mut)
  unfolding AllOk store_shared
  store_shared-Yields store none is_mut s h = (h, tt)
  store_shared-Yields store (some ty) is_mut s h = store_text-Yields store (to_text ty) s _ h

  -- Without a condition of its own.
  pub after :
      {A : Type 0} (Q : A → Type 0) (m : Parser (Unit {0})) (n : Parser A)
      → Yields t Any m
      → Yields t Q n
      → Yields t Q (m >> n)
  after Q m n p q = Yields-bind t Q Any m (λ u. n) p (λ u r. q)

  -- A check that the parameter relies on.
  pub checked :
      {A : Type 0} (Q : A → Type 0) {P : Type 0} (m : Parser (Unit {0})) (n : Parser A)
      → Yields t (λ u. P) m
      → (P → Yields t Q n)
      → Yields t Q (m >> n)
  checked Q {P = P} m n p q = Yields-bind t Q (λ u. P) m (λ u. n) p (λ u r. q r)

  -- What depends on the kind of the function.
  pub with_kind :
      {A : Type 0} (Q : A → Type 0) (f : FuncType → Parser A)
      → Yields t Q (f t)
      → Yields t Q (kind_of_function >>= f)
  with_kind Q f y =
      Yields-bind t Q (λ u. u ≡ t) kind_of_function f (kind_of_function-Yields t)
        (λ u same. subst (λ u. Yields t Q (f u)) (sym same) y)

  abbrev FitsKind : ParamType N → Type 0
  FitsKind = Fits t

  -- The three forms of an argument that is shared per task: a check of the form, and the store.
  shared-Fits :
      (b : Bool) (store : Parser (Unit {0})) (p : ParamType N)
      → Yields t Any store
      → FitsKind p
      → Yields t FitsKind (fail_if b per_task_type >> (store >> pure p))
  shared-Fits b store p y fits =
      checked FitsKind (fail_if b per_task_type) (store >> pure p)
        (fail_if-Yields t b per_task_type)
        (λ h. after FitsKind store (pure p) y (Yields-pure t FitsKind p fits))

  task_mut-Fits :
      (ty : Ty) → is_event t ≡ false → Yields t FitsKind (task_mut from_str to_text parses ty)
  unfolding task_mut parse_shared_mut
  task_mut-Fits ty e =
      shared-Fits
        (not (is_some (and_then (and_then (as_ref_mut_ty ty) as_option_type) as_box_type)))
        (parse_shared_mut to_text parses task_store ty) per_task_mut
        (store_shared-Yields task_store
          (and_then (and_then (as_ref_mut_ty ty) as_option_type) as_box_type) true)
        e

  parse_shared_ref-Yields :
      (store : Store) (ty : Ty) → Yields t Any (parse_shared_ref to_text parses store ty)
  unfolding parse_shared_ref
  parse_shared_ref-Yields store ty =
      store_shared-Yields store (and_then (as_option_type ty) as_ref_ty) false

  parse_shared_mut-Yields :
      (store : Store) (ty : Ty) → Yields t Any (parse_shared_mut to_text parses store ty)
  unfolding parse_shared_mut
  parse_shared_mut-Yields store ty =
      store_shared-Yields store (and_then (and_then (as_ref_mut_ty ty) as_option_type) as_box_type)
        true

  parse_shared_ref_cell-Yields :
      (store : Store) (ty : Ty) → Yields t Any (parse_shared_ref_cell to_text parses store ty)
  unfolding parse_shared_ref_cell
  parse_shared_ref_cell-Yields store ty =
      let of_ref = and_then (as_ref_ty ty) (of_option to_text parses) in
      Yields-if t Any (is_some of_ref) (store_shared to_text parses store of_ref false)
        (fail not_a_ref_cell) (λ h. store_shared-Yields store of_ref false)
        (λ h. Yields-fail t Any not_a_ref_cell)

  task_ref_cell-Fits :
      (ty : Ty) → is_event t ≡ false → Yields t FitsKind (task_ref_cell from_str to_text parses ty)
  unfolding task_ref_cell
  task_ref_cell-Fits ty e =
      shared-Fits
        (not (is_some (and_then (and_then (as_ref_ty ty) as_ref_cell_type) as_option_type)))
        (parse_shared_ref_cell to_text parses task_store ty) per_task_ref_cell
        (parse_shared_ref_cell-Yields task_store ty) e

  task_ref-Fits :
      (ty : Ty) → is_event t ≡ false → Yields t FitsKind (task_ref from_str to_text parses ty)
  unfolding task_ref
  task_ref-Fits ty e =
      shared-Fits (not (is_some (and_then (as_option_type ty) as_ref_ty)))
        (parse_shared_ref to_text parses task_store ty) per_task_ref
        (parse_shared_ref-Yields task_store ty) e

  pub per_task_param-Fits :
      (ty : Ty) → Yields t FitsKind (per_task_param from_str to_text parses ty)
  unfolding per_task_param
  per_task_param-Fits ty =
      let by_cell = is_some (and_then (as_ref_ty ty) as_ref_cell_type) in
      let of_cell = task_ref_cell from_str to_text parses ty in
      let of_mut = task_mut from_str to_text parses ty in
      let of_ref = task_ref from_str to_text parses ty in
      let other : Parser (ParamType N) = if by_cell then of_cell else of_ref in
      let by_type : Parser (ParamType N) = if is_some (as_ref_mut_ty ty) then of_mut else other in
      checked FitsKind (not_in_event not_in_events) (unique shared_per_task >> by_type)
        (not_in_event-Yields t not_in_events)
        (λ e. after FitsKind (unique shared_per_task) by_type (unique-Yields t shared_per_task) (
          Yields-if t FitsKind (is_some (as_ref_mut_ty ty)) of_mut other (λ h. task_mut-Fits ty e)
            (λ h.
              Yields-if t FitsKind by_cell of_cell of_ref (λ h. task_ref_cell-Fits ty e)
                (λ h. task_ref-Fits ty e))))

  vcl_shared-Fits :
      (store : Parser (Unit {0})) (p : ParamType N)
      → Yields t Any store
      → FitsKind p
      → Yields t FitsKind (vcl_shared from_str to_text parses store p)
  unfolding vcl_shared
  vcl_shared-Fits store p y fits = after FitsKind store (unique shared_per_vcl >> pure p) y (
      after FitsKind (unique shared_per_vcl) (pure p) (unique-Yields t shared_per_vcl)
        (Yields-pure t FitsKind p fits))

  pub per_vcl_param-Fits : (ty : Ty) → Yields t FitsKind (per_vcl_param from_str to_text parses ty)
  unfolding per_vcl_param
  per_vcl_param-Fits ty = with_kind FitsKind (per_vcl_for from_str to_text parses ty) (
      Yields-if t FitsKind (constructor_or_event t) of_mut other
        (λ h.
          vcl_shared-Fits (parse_shared_mut to_text parses vcl_store ty) per_vcl_mut
            (parse_shared_mut-Yields vcl_store ty) h)
        (λ h.
          Yields-if t FitsKind (function_or_method t) of_ref (fail (misplaced shared_per_vcl))
            (λ h.
              vcl_shared-Fits (parse_shared_ref to_text parses vcl_store ty) per_vcl_ref
                (parse_shared_ref-Yields vcl_store ty) h)
            (λ h. Yields-fail t FitsKind (misplaced shared_per_vcl))))
    where
      of_mut : Parser (ParamType N)
      of_mut =
          vcl_shared from_str to_text parses (parse_shared_mut to_text parses vcl_store ty)
            per_vcl_mut

      of_ref : Parser (ParamType N)
      of_ref =
          vcl_shared from_str to_text parses (parse_shared_ref to_text parses vcl_store ty)
            per_vcl_ref

      other : Parser (ParamType N)
      other = if function_or_method t then of_ref else fail (misplaced shared_per_vcl)

  named-Fits :
      (o : Option ParamTy)
      → is_constructor t ≡ true
      → Yields t FitsKind (named from_str to_text parses o)
  named-Fits none c = Yields-fail t FitsKind vcl_name_type
  named-Fits (some ty) c =
      Yields-if t FitsKind (is_text ty)
        (pure (name_param (record { kind = regular; default = null; ty_info = ty })))
        (fail vcl_name_type)
        (λ h.
          Yields-pure t FitsKind
            (name_param (record { kind = regular; default = null; ty_info = ty })) (c, h))
        (λ h. Yields-fail t FitsKind vcl_name_type)

  pub vcl_name_param-Fits :
      (ty : Ty) → Yields t FitsKind (vcl_name_param from_str to_text parses ty)
  unfolding vcl_name_param
  vcl_name_param-Fits ty =
      checked FitsKind (only_in is_constructor (misplaced vcl_name))
        (unique vcl_name >> named from_str to_text parses (try_parse ty))
        (only_in-Yields t is_constructor (misplaced vcl_name))
        (λ c.
          after FitsKind (unique vcl_name) (named from_str to_text parses (try_parse ty))
            (unique-Yields t vcl_name) (named-Fits (try_parse ty) c))

  pub only_once-Fits :
      (allowed : FuncType → Bool) (e : ParamError) (c : Special) (p : ParamType N)
      → (allowed t ≡ true → FitsKind p)
      → Yields t FitsKind (only_in allowed e >> (unique c >> pure p))
  only_once-Fits allowed e c p fits =
      checked FitsKind (only_in allowed e) (unique c >> pure p) (only_in-Yields t allowed e) (λ h.
        after FitsKind (unique c) (pure p) (unique-Yields t c) (Yields-pure t FitsKind p (fits h)))
