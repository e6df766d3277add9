-- ===== src/Macros/Wrappers/Body.antt =====
-- varnish-macros/src/gen_func.rs: `gen_callback_fn`, the wrapper with its body.
use Prim.Native.String.{String}
use text.Mathlib.Text.{◌==◌ as str_eq}
use varnish_rs.Prelude.{
  Bool, true, false, not, ◌||◌, ◌&&◌, Option, none, some, List, [], ◌∷◌, if◌then◌else◌,
}
use varnish_rs.Macros.Syntax.{and_then}
use varnish_rs.Macros.Types.{FuncType, constructor, destructor, method, event, use_try_from}
use varnish_rs.Macros.Output.{OutputTy, default, vcl}
use varnish_rs.Macros.Params.{ParamType, name_param, value}
use varnish_rs.Macros.Arguments.{ParamTypeInfo}
use varnish_rs.Macros.Functions.{FuncInfo, contains, valid_restrict_scopes}
use varnish_rs.Macros.Names.{Names, fn_name_user, wrapper_fn_name}
use varnish_rs.Macros.Wrappers.{FuncProcessor, ArgDecl, PreCall, CallVar, AfterCall}
use varnish_rs.Macros.Wrappers.Prototype.{output_hdr}

-- What the wrapper calls: an associated function, a method of `__obj`, or a function.
pub data Callee : Type 0 where
  associated : String → String → Callee
  on_object free : String → Callee

-- What is made of the value of the call.
pub data Conversion : Type 0 where
  ignored into_vcl as_it_is : Conversion

-- What is returned on an error.
pub data ErrorValue : Type 0 where
  nothing one default_of_type : ErrorValue

-- A call with `?`, and whether its value is boxed into `__objp`.
pub record UserCall : Type 0 where
  pub callee : Callee
  pub vars : List CallVar
  pub question : Bool
  pub conversion : Conversion
  pub boxed : Bool

pub record Wrapper : Type 0 where
  pub opt_struct : List ArgDecl
  pub name : String
  pub args : List ArgDecl
  pub output : Option String
  pub allowed_in : List String
  pub create_ctx : Bool
  pub pre_call : List PreCall
  pub call : Option UserCall
  pub on_error : Option ErrorValue
  pub always_after : List AfterCall

abbrev pub callable_in : FuncType → Option String → Option String → Option Callee
callable_in _ object none = none
callable_in constructor none name = none
callable_in constructor (some obj) (some name) = some (associated obj name)
callable_in method _ (some name) = some (on_object name)
callable_in _ _ (some name) = some (free name)

unfoldable pub fn_callable_name : Names → FuncType → Option Callee
fn_callable_name n t = callable_in t n.object (fn_name_user n)

abbrev pub may_fail_in : {N : Type 0} → ParamType N → Bool
unfolding use_try_from
may_fail_in (name_param i) = use_try_from i.ty_info
may_fail_in (value i) = use_try_from i.ty_info
may_fail_in _ = false

abbrev pub any_may_fail : {N : Type 0} → List (ParamTypeInfo N) → Bool
unfolding may_fail_in
any_may_fail [] = false
any_may_fail (a ∷ rest) = may_fail_in a.ty || any_may_fail rest

abbrev pub is_raw : OutputTy → Bool
is_raw (vcl ty) = true
is_raw _ = false

abbrev pub is_unit : OutputTy → Bool
is_unit default = true
is_unit _ = false

abbrev pub needs_conversion : Conversion → Bool
needs_conversion into_vcl = true
needs_conversion _ = false

abbrev pub is_boxed : FuncType → Bool
is_boxed constructor = true
is_boxed _ = false

-- A scope without a bit mask is a panic.
abbrev pub masks : List String → Option (List String)
masks [] = some []
masks (s ∷ rest) =
    let more = masks rest in
    if contains valid_restrict_scopes s then and_then more (λ l. some (s ∷ l)) else none

abbrev pub converts : Option UserCall → Bool
converts none = false
converts (some c) = needs_conversion c.conversion

abbrev pub if_failing : Bool → ErrorValue → Option ErrorValue
if_failing true e = some e
if_failing false e = none

module _ {N : Type 0} (info : FuncInfo N) where
  unfoldable pub is_void : Bool
  unfolding output_hdr
  is_void = str_eq (output_hdr info) "VCL_VOID"

  unfoldable pub func_may_fail : Bool
  unfolding is_void any_may_fail
  func_may_fail =
      any_may_fail info.args
      || info.out_result
      || (not is_void && not (is_unit info.output_ty || is_raw info.output_ty))

  unfoldable pub conversion_of : FuncType → Conversion
  unfolding is_void
  conversion_of event = ignored
  conversion_of _ = if not is_void && not (is_raw info.output_ty) then into_vcl else as_it_is

  unfoldable pub error_value : FuncType → ErrorValue
  unfolding is_void
  error_value event = if is_void then nothing else one
  error_value _ = if is_void then nothing else default_of_type

  unfoldable pub on_error_of : Option ErrorValue
  unfolding func_may_fail error_value
  on_error_of = if_failing func_may_fail (error_value info.func_type)

  unfoldable pub gen_restrict_check : FuncType → Option (List String)
  gen_restrict_check destructor = some []
  gen_restrict_check event = some []
  gen_restrict_check _ = masks info.restrict

  unfoldable pub user_call : FuncType → FuncProcessor → Option (Option UserCall)
  unfolding fn_callable_name conversion_of
  user_call destructor p = some none
  user_call t p = and_then (fn_callable_name p.names t) (λ callee. some (
      some (record {
        callee = callee;
        vars = p.func_call_vars;
        question = info.out_result;
        conversion = conversion_of t;
        boxed = is_boxed t;
      })))

  unfoldable pub wrapper_of : FuncProcessor → List String → String → Option UserCall → Wrapper
  unfolding func_may_fail on_error_of is_void output_hdr
  wrapper_of p scopes name call = record {
    opt_struct = p.opt_args_arg_decl;
    name = name;
    args = p.wrap_fn_arg_decl;
    output = if is_void then none else some (output_hdr info);
    allowed_in = scopes;
    create_ctx = p.func_needs_ctx || converts call || func_may_fail;
    pre_call = p.func_pre_call;
    call = call;
    on_error = on_error_of;
    always_after = p.func_always_after_call;
  }

  unfoldable pub gen_callback_fn : FuncProcessor → Option Wrapper
  unfolding gen_restrict_check user_call wrapper_of wrapper_fn_name
  gen_callback_fn p = and_then (gen_restrict_check info.func_type) (λ scopes.
      and_then (wrapper_fn_name p.names) (λ name.
        and_then (user_call info.func_type p) (λ call. some (wrapper_of p scopes name call))))
