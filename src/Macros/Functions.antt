-- ===== src/Macros/Functions.antt =====
-- varnish-macros/src/parser.rs: a function with its attributes.
pub mod Laws
use Prim.Native.String.{String}
use text.Mathlib.Text.{◌==◌ as str_eq}
use varnish_rs.Prelude.{
  ℕ, ◌+◌, Bool, true, false, not, ◌&&◌, ◌||◌, Option, none, some, List, [], ◌∷◌, ◌++◌,
  if◌then◌else◌, length, ltb, ◌==◌,
}
use varnish_rs.Outcome.{Result, ok, err, panic}
use varnish_rs.Macros.Syntax.{Ty, as_simple_ty, as_result_type}
use varnish_rs.Macros.Types.{FuncType, function, constructor, destructor, method, event}
use varnish_rs.Macros.Attributes.{ParamError}
use varnish_rs.Macros.Output.{
  OutputTy, default, OutputError, OutputResult, parse_output, requires_unsafe, is_event,
}
use varnish_rs.Macros.Params.{
  SharedTypes, ParamType, per_vcl_mut, per_vcl_ref, value, ParamKind, optional, Parsing, new_status,
  is_some,
}
use varnish_rs.Macros.Arguments.{FnArg, ParamTypeInfo, parse_args}

-- The items that a module cannot hold.
pub data ItemKind : Type 0 where
  structs enums constants macros nested_modules statics traits trait_aliases : ItemKind
  type_aliases unions other_items : ItemKind

pub data FuncError : Type 0 where
  only_public async_function : FuncError
  restrict_parse_error restrict_without_scope : FuncError
  invalid_scope : String → FuncError
  rename_not_an_identifier : FuncError
  event_in_object restrict_on_event rename_on_event restrict_on_constructor : FuncError
  output : OutputError → FuncError
  param : ParamError → FuncError
  unsafe_without_vcl vcl_without_unsafe : FuncError
  two_events nothing_found shared_not_initialized : FuncError
  collision : String → FuncError
  trait_impl generic_impl not_a_simple_type rename_on_impl no_constructor : FuncError
  not_allowed : ItemKind → FuncError

-- The part of `syn::Signature` and of the visibility that the parser looks at.
pub record Signature : Type 0 where
  pub ident : String
  pub is_public : Bool
  pub is_async : Bool
  pub is_unsafe : Bool
  pub inputs : List FnArg
  pub return_type : Option Ty

-- The attributes `event`, `restrict` and `vcl_rename`, with what their arguments parse to.
pub record FuncAttributes : Type 0 where
  pub has_event : Bool
  pub restrict : Option (Option (List String))
  pub vcl_rename : Option (Option String)

-- `FuncInfo`, without the documentation.
pub record FuncInfo (N : Type 0) : Type 0 where
  pub func_type : FuncType
  pub ident : String
  pub vcl_name : Option String
  pub has_optional_args : Bool
  pub args : List (ParamTypeInfo N)
  pub output_ty : OutputTy
  pub out_result : Bool
  pub restrict : List String

abbrev pub valid_restrict_scopes : List String
valid_restrict_scopes =
    "vcl_recv" ∷ "vcl_pipe" ∷ "vcl_pass" ∷ "vcl_hash" ∷ "vcl_purge" ∷ "vcl_miss" ∷ "vcl_hit"
    ∷ "vcl_deliver" ∷ "vcl_synth" ∷ "vcl_backend_fetch" ∷ "vcl_backend_refresh"
    ∷ "vcl_backend_response" ∷ "vcl_backend_error" ∷ "vcl_init" ∷ "vcl_fini" ∷ "client" ∷ "backend"
    ∷ "housekeeping" ∷ []

abbrev pub contains : List String → String → Bool
contains [] name = false
contains (x ∷ xs) name = str_eq x name || contains xs name

abbrev pub is_empty : {A : Type 0} → List A → Bool
is_empty [] = true
is_empty (x ∷ xs) = false

abbrev pub when : Bool → FuncError → List FuncError
when b e = if b then e ∷ [] else []

abbrev pub valid_only : List String → List String
valid_only [] = []
valid_only (name ∷ names) =
    let rest = valid_only names in if contains valid_restrict_scopes name then name ∷ rest else rest

abbrev pub invalid_scopes : List String → List FuncError
invalid_scopes [] = []
invalid_scopes (name ∷ names) =
    when (not (contains valid_restrict_scopes name)) (invalid_scope name) ++ invalid_scopes names

unfoldable pub parse_restricted_attr : Option (Option (List String)) → List String × List FuncError
parse_restricted_attr none = ([], [])
parse_restricted_attr (some none) = ([], restrict_parse_error ∷ [])
parse_restricted_attr (some (some [])) = ([], restrict_without_scope ∷ [])
parse_restricted_attr (some (some (x ∷ xs))) = (valid_only (x ∷ xs), invalid_scopes (x ∷ xs))

unfoldable pub parse_vcl_rename_attr : Option (Option String) → Option String × List FuncError
parse_vcl_rename_attr none = (none, [])
parse_vcl_rename_attr (some (some name)) = (some name, [])
parse_vcl_rename_attr (some none) = (none, rename_not_an_identifier ∷ [])

abbrev inner_type : Ty → Ty
unfolding as_result_type
inner_type ty = elim (as_result_type ty) [ none ↦ ty | some t ↦ t ]

abbrev is_self_name : Option String → Bool
is_self_name none = false
is_self_name (some ident) = str_eq ident "Self"

unfoldable pub sig_returns_self : Signature → Bool
unfolding inner_type
sig_returns_self sig = elim sig.return_type [
  | none ↦ false
  | some ty ↦ is_self_name (as_simple_ty (inner_type ty))
]

abbrev pub visibility_errors : Signature → List FuncError
visibility_errors sig =
    if not sig.is_public then only_public ∷ [] else when sig.is_async async_function

-- The kind of a function, and the errors that choosing it adds.
unfoldable pub func_type_of : Bool → Bool → Bool → FuncType
func_type_of has_event is_object returns_self =
    if has_event
    then event
    else if is_object
    then if returns_self then constructor else method
    else function

abbrev pub kind_errors : Bool → FuncType → List String → Option String → List FuncError
kind_errors is_object event restrict rename =
    when is_object event_in_object
    ++ when (not (is_empty restrict)) restrict_on_event
    ++ when (is_some rename) rename_on_event
kind_errors is_object constructor restrict rename =
    when (not (is_empty restrict)) restrict_on_constructor
kind_errors is_object _ restrict rename = []

abbrev pub unsafe_errors : Bool → OutputTy → List FuncError
unsafe_errors is_unsafe o =
    if is_unsafe && not (requires_unsafe o)
    then unsafe_without_vcl ∷ []
    else when (requires_unsafe o && not is_unsafe) vcl_without_unsafe

-- The return type, and whether it stands in a `Result`.
abbrev pub output_in : Ty → FuncType → Option Ty → OutputResult × Bool
output_in ty t none = (parse_output ty t, false)
output_in ty t (some inner) = (parse_output inner t, true)

unfoldable pub output_of : Option Ty → FuncType → OutputResult × Bool
unfolding as_result_type
output_of none t = (ok default, false)
output_of (some ty) t = output_in ty t (as_result_type ty)

abbrev pub is_optional : ParamKind → Bool
is_optional optional = true
is_optional _ = false

abbrev pub is_optional_value : {N : Type 0} → ParamType N → Bool
is_optional_value (value i) = is_optional i.kind
is_optional_value _ = false

abbrev pub any_optional : {N : Type 0} → List (ParamTypeInfo N) → Bool
any_optional [] = false
any_optional (p ∷ ps) = is_optional_value p.ty || any_optional ps

abbrev pub param_errors : List ParamError → List FuncError
param_errors [] = []
param_errors (e ∷ es) = param e ∷ param_errors es

-- `errors.into_result()?` before the model is returned.
abbrev pub conclude : {A : Type 0} → List FuncError → A → Result (List FuncError) A
conclude [] a = ok a
conclude (e ∷ es) a = err (e ∷ es)

module _ {N : Type 0} (from_str : String → Option N) (to_text : Ty → String)
    (parses : String → Bool) where
  -- What is left when the kind and the return type are known, on what parsing the arguments gave.
  abbrev pub with_args :
      Signature
      → FuncType
      → List String
      → Option String
      → List FuncError
      → OutputTy
      → Bool
      → Result ParamError (List (ParamTypeInfo N) × List ParamError)
      → Result (List FuncError) (FuncInfo N)
  with_args sig t restrict rename errors o out_result panic = panic
  with_args sig t restrict rename errors o out_result (err e) = err (param e ∷ [])
  with_args sig t restrict rename errors o out_result (ok (args, arg_errors)) =
      conclude (errors ++ param_errors arg_errors ++ unsafe_errors sig.is_unsafe o) (record {
        func_type = t;
        ident = sig.ident;
        vcl_name = rename;
        has_optional_args = any_optional args;
        args = args;
        output_ty = o;
        out_result = out_result;
        restrict = restrict;
      })

  abbrev pub args_of :
      FuncType
      → SharedTypes
      → List FnArg
      → Result ParamError (List (ParamTypeInfo N) × List ParamError) × Parsing
  args_of t shared inputs =
      parse_args from_str to_text parses 0 inputs
        (record { status = new_status t; shared = shared; attrs = [] })

  -- An error of the return type ends the function before the arguments.
  abbrev pub with_output :
      Signature
      → FuncType
      → List String
      → Option String
      → List FuncError
      → SharedTypes
      → OutputResult × Bool
      → Result (List FuncError) (FuncInfo N) × SharedTypes
  with_output sig t restrict rename errors shared (err e, out_result) =
      (err (output e ∷ []), shared)
  with_output sig t restrict rename errors shared (panic, out_result) = (panic, shared)
  with_output sig t restrict rename errors shared (ok o, out_result) =
      let (parsed, s) = args_of t shared sig.inputs in
      (with_args sig t restrict rename errors o out_result parsed, s.shared)

  unfoldable pub parse_func :
      Signature
      → FuncAttributes
      → Bool
      → SharedTypes
      → Result (List FuncError) (FuncInfo N) × SharedTypes
  parse_func sig attrs is_object shared =
      let restricted = parse_restricted_attr attrs.restrict in
      let renamed = parse_vcl_rename_attr attrs.vcl_rename in
      let t = func_type_of attrs.has_event is_object (sig_returns_self sig) in
      with_output sig t restricted.0 renamed.0
        (visibility_errors sig
          ++ restricted.1
          ++ renamed.1
          ++ kind_errors is_object t restricted.0 renamed.0)
        shared (output_of sig.return_type t)
