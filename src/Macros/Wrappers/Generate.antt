-- ===== src/Macros/Wrappers/Generate.antt =====
-- varnish-macros/src/gen_func.rs: `from_info` and `init`, which generate all that a function has.
use Prim.Native.String.{String}
use varnish_rs.Prelude.{
  Bool, true, false, ◌&&◌, Option, none, some, List, [], ◌∷◌, ◌++◌, if◌then◌else◌,
}
use varnish_rs.Macros.Syntax.{and_then}
use varnish_rs.Macros.Types.{FuncType, constructor, destructor, method, to_c_type}
use varnish_rs.Macros.Attributes.{Value}
use varnish_rs.Macros.Params.{SharedTypes, ParamType, value}
use varnish_rs.Macros.Arguments.{ParamTypeInfo}
use varnish_rs.Macros.Functions.{FuncInfo, is_optional}
use varnish_rs.Macros.Names.{Names, obj_name, fn_name_user, wrapper_fn_name}
use varnish_rs.Macros.Wrappers.{FuncProcessor, valid_name}
use varnish_rs.Macros.Wrappers.Prototype.{
  no_steps, gather, opt_struct_name, output_hdr, output_vcc, gen_cproto, FuncJson, json_func,
}
use varnish_rs.Macros.Wrappers.Body.{Wrapper, is_void, gen_callback_fn}

-- The text that `to_ident` gets, if there is one.
abbrev pub ident_list : Option String → List String
ident_list none = []
ident_list (some name) = name ∷ []

abbrev pub object_idents : FuncType → Option String → List String
object_idents constructor obj = ident_list obj
object_idents destructor obj = ident_list obj
object_idents method obj = ident_list obj
object_idents _ obj = []

-- `format_ident!("valid_{}", arg_info.ident)`
abbrev pub flag_idents : Bool → String → List String
flag_idents true name = valid_name name ∷ []
flag_idents false name = []

abbrev pub value_idents : {N : Type 0} → String → ParamType N → List String
unfolding to_c_type
value_idents name (value i) = flag_idents (is_optional i.kind) name ++ to_c_type i.ty_info ∷ []
value_idents name _ = []

abbrev pub param_idents : {N : Type 0} → List (ParamTypeInfo N) → List String
param_idents [] = []
param_idents (a ∷ rest) = (a.ident ∷ value_idents a.ident a.ty) ++ param_idents rest

-- `fn_callable_name`
abbrev pub called_idents : FuncType → Names → List String
called_idents destructor names = []
called_idents _ names = ident_list (fn_name_user names)

pub record Generated : Type 0 where
  pub processor : FuncProcessor
  pub output_hdr : String
  pub output_vcc : String
  pub wrapper_fn_name : String
  pub wrapper_function_body : Wrapper
  pub cproto : String × String
  pub json : FuncJson
  pub restrict_json : Option (List String)

abbrev pub restrict_of : List String → Option (List String)
restrict_of [] = none
restrict_of (s ∷ rest) = some (s ∷ rest)

-- `is_ident` is what `format_ident!` takes for an identifier; another text is a panic. A panic is
-- the same wherever it is, so the texts of several calls are checked together.
module _ (is_ident : String → Bool) where
  abbrev pub are_idents : List String → Bool
  are_idents [] = true
  are_idents (name ∷ names) = is_ident name && are_idents names

  abbrev pub to_idents : {A : Type 0} → List String → Option A → Option A
  to_idents names o = if are_idents names then o else none

module _ {N : Type 0} (info : FuncInfo N) where
  abbrev pub struct_idents : String → List String
  struct_idents ty = if info.has_optional_args then ty ∷ [] else []

  unfoldable pub gathered_idents : Names → String → List String
  gathered_idents names ty =
      object_idents info.func_type (obj_name names) ++ struct_idents ty ++ param_idents info.args

  unfoldable pub output_idents : List String
  unfolding is_void output_hdr
  output_idents = if is_void info then [] else output_hdr info ∷ []

  abbrev pub generated : FuncProcessor → String → Wrapper → String × String → FuncJson → Generated
  unfolding output_hdr output_vcc
  generated p name w cproto json = record {
    processor = p;
    output_hdr = output_hdr info;
    output_vcc = output_vcc info;
    wrapper_fn_name = name;
    wrapper_function_body = w;
    cproto = cproto;
    json = json;
    restrict_json = restrict_of info.restrict;
  }

  module _ (is_ident : String → Bool) where
    -- With the function that the wrapper calls.
    unfoldable pub with_wrapper : FuncProcessor → String → Option Generated
    unfolding gen_callback_fn gen_cproto json_func
    with_wrapper p name = to_idents is_ident (called_idents info.func_type p.names) (
        and_then (gen_callback_fn info p) (λ w.
          and_then (gen_cproto info p) (λ cproto.
            and_then (json_func info p) (λ json. some (generated p name w cproto json)))))

    -- Behind the parameters.
    unfoldable pub finish : FuncProcessor → Option Generated
    unfolding output_idents wrapper_fn_name with_wrapper
    finish p = to_idents is_ident output_idents (
        and_then (wrapper_fn_name p.names)
          (λ name. to_idents is_ident (name ∷ []) (with_wrapper p name)))

    module _ (to_string : Value N → String) (parses : String → Bool) (shared : SharedTypes) where
      unfoldable pub init : FuncProcessor → Option Generated
      unfolding gather gathered_idents finish
      init p =
          to_idents is_ident (gathered_idents p.names p.opt_args_ty_name)
            (and_then (gather to_string parses info shared p) finish)

      unfoldable pub from_info : Names → Option Generated
      unfolding init opt_struct_name
      from_info names =
          and_then (opt_struct_name info.has_optional_args names) (λ ty. init (no_steps names ty))
