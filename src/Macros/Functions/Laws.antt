-- ===== src/Macros/Functions/Laws.antt =====
-- What is known of a function that the parser accepts.
use Prim.Native.String.{String}
use varnish_rs.Prelude.{
  ◌≡◌, refl, Bool, true, false, not, ◌&&◌, Option, none, some, List, [], ◌∷◌, ◌++◌, if◌then◌else◌,
  arith,
}
use varnish_rs.Outcome.{Result, ok, err, panic}
use varnish_rs.Macros.Syntax.{Ty, as_result_type}
use varnish_rs.Macros.Types.{FuncType, function, constructor, destructor, method, event}
use varnish_rs.Macros.Attributes.{ParamError}
use varnish_rs.Macros.Output.{
  OutputTy, default, OutputResult, requires_unsafe, is_event, output_c_type, output_vcc_type,
}
use varnish_rs.Macros.Output.Laws.{KeepsRules, parse_output_lem}
use varnish_rs.Macros.Params.{SharedTypes, new_status, is_some}
use varnish_rs.Macros.Arguments.{ParamTypeInfo}
use varnish_rs.Macros.Arguments.Rules.{AllOk}
use varnish_rs.Macros.Arguments.Lists.{AllFit, parse_args-Fits}
use varnish_rs.Macros.Functions.{
  FuncError, only_public, async_function, unsafe_without_vcl, vcl_without_unsafe, Signature,
  FuncAttributes, FuncInfo, valid_restrict_scopes, contains, is_empty, when, valid_only,
  any_optional, parse_restricted_attr, parse_vcl_rename_attr, sig_returns_self, visibility_errors,
  func_type_of, kind_errors, unsafe_errors, output_in, output_of, param_errors, conclude, with_args,
  args_of, with_output, parse_func, event_in_object, restrict_on_event, rename_on_event,
}

abbrev pub Empty : List FuncError → Type 0
Empty es = is_empty es ≡ true

pub append-Empty : (xs ys : List FuncError) → Empty (xs ++ ys) → Empty xs × Empty ys
append-Empty [] ys h = (refl, h)
append-Empty (x ∷ xs) ys h = ground (arith, h)

pub conclude-AllOk :
    {A : Type 0} (Q : A → Type 0) (es : List FuncError) (a : A)
    → (Empty es → Q a)
    → AllOk Q (conclude es a)
unfolding AllOk
conclude-AllOk Q [] a q = q refl
conclude-AllOk Q (e ∷ es) a q = tt

pub when-false : (b : Bool) (e : FuncError) → Empty (when b e) → b ≡ false
when-false true e h = ground (arith, h)
when-false false e h = refl

visibility_errors-public :
    (is_public is_async : Bool)
    → Empty (if not is_public then only_public ∷ [] else when is_async async_function)
    → (is_public ≡ true) × (is_async ≡ false)
visibility_errors-public true a h = (refl, when-false a async_function h)
visibility_errors-public false a h = ground (arith, h)

unsafe_errors-agree :
    (u r : Bool)
    → Empty (if u && not r then unsafe_without_vcl ∷ [] else when (r && not u) vcl_without_unsafe)
    → u ≡ r
unsafe_errors-agree true true h = refl
unsafe_errors-agree true false h = ground (arith, h)
unsafe_errors-agree false true h = ground (arith, h)
unsafe_errors-agree false false h = refl

abbrev pub AllValid : List String → Type 0
AllValid [] = Unit {0}
AllValid (x ∷ xs) = (contains valid_restrict_scopes x ≡ true) × AllValid xs

valid_only-AllValid : (xs : List String) → AllValid (valid_only xs)
valid_only-AllValid [] = tt
valid_only-AllValid (x ∷ xs) =
    keep (contains valid_restrict_scopes x) (λ h. h) (valid_only-AllValid xs)
  where
    keep :
        (b : Bool)
        → (b ≡ true → contains valid_restrict_scopes x ≡ true)
        → AllValid (valid_only xs)
        → AllValid (if b then x ∷ valid_only xs else valid_only xs)
    keep true h rest = (h refl, rest)
    keep false h rest = rest

restrict-AllValid : (r : Option (Option (List String))) → AllValid (parse_restricted_attr r).0
unfolding parse_restricted_attr
restrict-AllValid none = tt
restrict-AllValid (some none) = tt
restrict-AllValid (some (some [])) = tt
restrict-AllValid (some (some (x ∷ xs))) = valid_only-AllValid (x ∷ xs)

-- An event function stands outside an object, and is neither restricted nor renamed.
abbrev pub PlainEvent : Bool → FuncType → List String → Option String → Type 0
PlainEvent is_object t restrict rename =
    is_event t ≡ true
    → (is_object ≡ false) × (not (is_empty restrict) ≡ false) × (is_some rename ≡ false)

kind_errors-PlainEvent :
    (is_object : Bool) (t : FuncType) (restrict : List String) (rename : Option String)
    → Empty (kind_errors is_object t restrict rename)
    → PlainEvent is_object t restrict rename
kind_errors-PlainEvent is_object event restrict rename h e =
    let by_restrict = when (not (is_empty restrict)) restrict_on_event in
    let by_rename = when (is_some rename) rename_on_event in
    let in_object = when is_object event_in_object in
    let (first, c) = append-Empty (in_object ++ by_restrict) by_rename h in
    let (a, b) = append-Empty in_object by_restrict first in
    (
      when-false is_object event_in_object a,
      when-false (not (is_empty restrict)) restrict_on_event b,
      when-false (is_some rename) rename_on_event c,
    )
kind_errors-PlainEvent is_object function restrict rename h e = ground (arith, e)
kind_errors-PlainEvent is_object constructor restrict rename h e = ground (arith, e)
kind_errors-PlainEvent is_object destructor restrict rename h e = ground (arith, e)
kind_errors-PlainEvent is_object method restrict rename h e = ground (arith, e)

-- What an accepted function has.
abbrev pub Accepted : {N : Type 0} → Signature → FuncAttributes → Bool → FuncInfo N → Type 0
Accepted sig attrs is_object info =
    (sig.is_public ≡ true)
    × (sig.is_async ≡ false)
    × (info.func_type ≡ func_type_of attrs.has_event is_object (sig_returns_self sig))
    × AllFit info.func_type info.args
    × KeepsRules info.func_type (ok info.output_ty)
    × (sig.is_unsafe ≡ requires_unsafe info.output_ty)
    × AllValid info.restrict
    × PlainEvent is_object info.func_type info.restrict info.vcl_name
    × (info.has_optional_args ≡ any_optional info.args)

module _ {N : Type 0} (from_str : String → Option N) (to_text : Ty → String)
    (parses : String → Bool) (sig : Signature) (attrs : FuncAttributes) (is_object : Bool) where
  abbrev t : FuncType
  t = func_type_of attrs.has_event is_object (sig_returns_self sig)

  abbrev scopes : List String
  scopes = (parse_restricted_attr attrs.restrict).0

  abbrev rename : Option String
  rename = (parse_vcl_rename_attr attrs.vcl_rename).0

  abbrev visible : List FuncError
  visible = visibility_errors sig

  abbrev restricting : List FuncError
  restricting = (parse_restricted_attr attrs.restrict).1

  abbrev renaming : List FuncError
  renaming = (parse_vcl_rename_attr attrs.vcl_rename).1

  abbrev early : List FuncError
  early = visible ++ restricting ++ renaming ++ kind_errors is_object t scopes rename

  with_args-Accepted :
      (o : OutputTy) (out_result : Bool)
      (parsed : Result ParamError (List (ParamTypeInfo N) × List ParamError))
      → KeepsRules t (ok o)
      → AllOk (λ r. AllFit t r.0) parsed
      → AllOk
          (Accepted sig attrs is_object)
          (with_args from_str to_text parses sig t scopes rename early o out_result parsed)
  unfolding AllOk
  with_args-Accepted o out_result panic rules fit = tt
  with_args-Accepted o out_result (err e) rules fit = tt
  with_args-Accepted o out_result (ok (args, arg_errors)) rules fit =
      conclude-AllOk (Accepted sig attrs is_object) _ _ (λ nil.
        let by_kind = kind_errors is_object t scopes rename in
        let (most, q) =
          append-Empty (early ++ param_errors arg_errors) (unsafe_errors sig.is_unsafe o) nil in
        let (first, p) = append-Empty early (param_errors arg_errors) most in
        let (three, g) = append-Empty (visible ++ restricting ++ renaming) by_kind first in
        let (two, f) = append-Empty (visible ++ restricting) renaming three in
        let (a, c) = append-Empty visible restricting two in
        let (public, sync) = visibility_errors-public sig.is_public sig.is_async a in
        (
          public,
          sync,
          refl,
          fit,
          rules,
          unsafe_errors-agree sig.is_unsafe (requires_unsafe o) q,
          restrict-AllValid attrs.restrict,
          kind_errors-PlainEvent is_object t scopes rename g,
          refl,
        ))

  no_output-KeepsRules : KeepsRules t (ok default)
  unfolding output_c_type output_vcc_type
  no_output-KeepsRules = (refl, (λ e. refl), (λ e. ground (arith, e)))

  output_in-KeepsRules : (ty : Ty) (o : Option Ty) → KeepsRules t (output_in ty t o).0
  output_in-KeepsRules ty none = parse_output_lem ty t
  output_in-KeepsRules ty (some inner) = parse_output_lem inner t

  output_of-KeepsRules : (ty : Option Ty) → KeepsRules t (output_of ty t).0
  unfolding output_of
  output_of-KeepsRules none = no_output-KeepsRules
  output_of-KeepsRules (some ty) = output_in-KeepsRules ty (as_result_type ty)

  with_output-Accepted :
      (shared : SharedTypes) (r : OutputResult × Bool)
      → KeepsRules t r.0
      → AllOk
          (Accepted sig attrs is_object)
          (with_output from_str to_text parses sig t scopes rename early shared r).0
  unfolding AllOk
  with_output-Accepted shared (err e, b) rules = tt
  with_output-Accepted shared (panic, b) rules = tt
  with_output-Accepted shared (ok o, b) rules =
      with_args-Accepted o b (args_of from_str to_text parses t shared sig.inputs).0 rules
        (parse_args-Fits from_str to_text parses t 0 sig.inputs
          (record { status = new_status t; shared = shared; attrs = [] }) refl).1

  -- A function that is accepted is public and not `async`; its parameters and its return type are
  -- ones that its kind may have; it is `unsafe` exactly if it returns a raw VCL type; its scopes
  -- are valid; an event function stands outside an object, without scopes or another name; and it
  -- is said to have optional arguments exactly if one of its parameters is optional.
  pub parse_func_lem :
      (shared : SharedTypes)
      → AllOk
          (Accepted sig attrs is_object)
          (parse_func from_str to_text parses sig attrs is_object shared).0
  unfolding parse_func
  parse_func_lem shared =
      with_output-Accepted shared (output_of sig.return_type t)
        (output_of-KeepsRules sig.return_type)
