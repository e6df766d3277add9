-- ===== src/Macros/Tests.antt =====
-- Runs of the parser of functions, and instances of its theorems.
use Prim.Native.String.{String}
use varnish_rs.Prelude.{Bool, ◌≡◌, refl, true, false, Option, none, some, List, [], ◌∷◌}
use varnish_rs.Outcome.{ok, err}
use varnish_rs.Macros.Syntax.{
  Ty, path, reference, last, no_arguments, angle_bracketed, generic, empty, of_type, as_one_gen_arg,
  as_one_gen_type, as_option_type, as_box_type, as_ref_ty, as_ref_mut_ty, as_slice_ty, as_simple_ty,
}
use varnish_rs.Macros.Types.{
  ParamTy, function, event, i64, try_parse, from_ident, All, NamesAgree, try_parse-NamesAgree,
  try_parse_or_optional, must_be_optional,
}
use varnish_rs.Macros.Output.{parse_output, try_parse_output, event_returns}
use varnish_rs.Macros.Output.Laws.{KeepsRules, parse_output_lem}
use varnish_rs.Macros.Attributes.{
  Attribute, AttributeMeta, meta_path, meta_list, literal, int_lit, remove_attr, get_arg_opts,
  get_required_attr, default_value, default_of, number, must_be_option,
}
use varnish_rs.Macros.Params.{
  SharedTypes, new_status, context, per_vcl_mut, value, regular, unique, not_in_event, remove,
  store_shared, parse_shared_mut,
}
use varnish_rs.Macros.Arguments.{
  FnArg, typed, ParamTypeInfo, parse_arg, parse_args, parse_param, of_typed, plain_param,
  value_param, per_vcl_param, ctx_or_ws_param, vcl_shared,
}
use varnish_rs.Macros.Arguments.Fits.{GivesDefault}
use varnish_rs.Macros.Arguments.Lists.{AllFit, parse_args_lem}
use varnish_rs.Macros.Arguments.Rules.{AllOk}
use varnish_rs.Macros.Functions.{
  parse_restricted_attr, parse_vcl_rename_attr, func_type_of, output_of, Signature, FuncAttributes,
  FuncInfo, parse_func, structs, not_allowed,
}
use varnish_rs.Macros.Functions.Laws.{Accepted, parse_func_lem, Empty}
use varnish_rs.Macros.Modules.{
  VmodInfo, vcl_ident, count_funcs, count_args, iter_all_funcs, validate,
}
use varnish_rs.Macros.Items.{
  Item, fn_item, impl_item, use_item, refused, impl_fn, impl_other, parse_module, module_of,
  parse_items,
}
use varnish_rs.Macros.Items.Errors.{Judged}
use varnish_rs.Macros.Items.Accepted.{ModuleFrom, parse_module_lem}
use varnish_rs.Macros.Output.{default, requires_unsafe}

abbrev simple : String → Ty
simple name = path false false (last name no_arguments)

abbrev of_one : String → Ty → Ty
of_one name t = path false false (last name (angle_bracketed (generic (of_type t) empty)))

-- Every type is printed as `T`, every text is a type, and a number is a text.
abbrev as_number : String → Option String
as_number s = some s

abbrev one_text : Ty → String
one_text t = "T"

abbrev any_text : String → Bool
any_text s = true

abbrev no_types : SharedTypes
no_types = record { shared_per_task_ty = none; shared_per_vcl_ty = none }

abbrev attribute : String → Attribute
attribute name = record { name = some name; meta = meta_path true }

abbrev default_int : Attribute
default_int = record { name = some "default"; meta = meta_list (some (literal (int_lit "7") ∷ [])) }

-- `ctx: &Ctx, #[shared_per_vcl] v: &mut Option<Box<T>>, p: Probe` in an event function.
abbrev event_args : List FnArg
event_args =
    typed (some "ctx") (reference false (simple "Ctx")) []
    ∷ typed (some "v") (reference true (of_one "Option" (of_one "Box" (simple "T"))))
        (attribute "shared_per_vcl" ∷ [])
    ∷ []

abbrev event_params : List (ParamTypeInfo String)
event_params =
    record { ident = "ctx"; ty = context false } ∷ record { ident = "v"; ty = per_vcl_mut } ∷ []

event_run :
    (parse_args as_number one_text any_text 0 event_args
      (record { status = new_status event; shared = no_types; attrs = [] })).0
    ≡ ok (event_params, [])
unfolding parse_args parse_arg of_typed parse_param plain_param per_vcl_param ctx_or_ws_param
    vcl_shared remove remove_attr unique parse_shared_mut store_shared as_one_gen_arg
    as_one_gen_type as_option_type as_box_type as_ref_ty as_ref_mut_ty as_simple_ty
event_run = refl

-- `#[default(7)] n: i64, p: Probe` in a function: a probe must be optional.
abbrev function_args : List FnArg
function_args =
    typed (some "n") (simple "i64") (default_int ∷ []) ∷ typed (some "p") (simple "Probe") [] ∷ []

abbrev function_params : List (ParamTypeInfo String)
function_params =
    record {
      ident = "n";
      ty = value (record { kind = regular; default = number "7"; ty_info = i64 });
    }
    ∷ []

function_run :
    (parse_args as_number one_text any_text 0 function_args
      (record { status = new_status function; shared = no_types; attrs = [] })).0
    ≡ ok (function_params, must_be_option ∷ [])
unfolding parse_args parse_arg of_typed parse_param plain_param value_param remove remove_attr
    not_in_event try_parse_or_optional try_parse from_ident must_be_optional get_arg_opts
    get_required_attr default_of default_value as_one_gen_arg as_one_gen_type as_option_type
    as_ref_ty as_ref_mut_ty as_slice_ty as_simple_ty
function_run = refl

parse_args_lem_example :
    AllFit function function_params
    × ((ty : ParamTy) (m : AttributeMeta)
        → AllOk (GivesDefault as_number ty m) (default_of as_number ty m))
parse_args_lem_example =
    parse_args_lem as_number one_text any_text function no_types [] function_args function_params
      (must_be_option ∷ []) function_run

parse_output_lem_example : KeepsRules event (parse_output (simple "VCL_BACKEND") event)
parse_output_lem_example = parse_output_lem (simple "VCL_BACKEND") event

event_returns_nothing : parse_output (simple "VCL_BACKEND") event ≡ err event_returns
unfolding parse_output try_parse_output as_one_gen_arg as_one_gen_type as_option_type as_simple_ty
event_returns_nothing = refl

try_parse-NamesAgree_example : All NamesAgree (try_parse (simple "VCL_BLOB"))
try_parse-NamesAgree_example = try_parse-NamesAgree (simple "VCL_BLOB")

abbrev handler : Signature
handler = record {
  ident = "on_event";
  is_public = true;
  is_async = false;
  is_unsafe = false;
  inputs = event_args;
  return_type = none;
}

abbrev on_event : FuncAttributes
on_event = record { has_event = true; restrict = none; vcl_rename = none }

parse_func_lem_example :
    AllOk
      (Accepted handler on_event false)
      (parse_func as_number one_text any_text handler on_event false no_types).0
parse_func_lem_example = parse_func_lem as_number one_text any_text handler on_event false no_types

abbrev event_func : FuncInfo String
event_func = record {
  func_type = event;
  ident = "on_event";
  vcl_name = none;
  has_optional_args = false;
  args = event_params;
  output_ty = default;
  out_result = false;
  restrict = [];
}

handler_run :
    (parse_func as_number one_text any_text handler on_event false no_types).0 ≡ ok event_func
unfolding parse_func parse_restricted_attr parse_vcl_rename_attr func_type_of output_of
    requires_unsafe parse_args parse_arg of_typed parse_param plain_param per_vcl_param
    ctx_or_ws_param vcl_shared remove remove_attr unique parse_shared_mut store_shared
    as_one_gen_arg as_one_gen_type as_option_type as_box_type as_ref_ty as_ref_mut_ty as_simple_ty
handler_run = refl

abbrev plain_func : FuncInfo String
plain_func = record {
  func_type = function;
  ident = "inc";
  vcl_name = some "increment";
  has_optional_args = false;
  args = function_params;
  output_ty = default;
  out_result = false;
  restrict = "client" ∷ [];
}

abbrev two_functions : VmodInfo String
two_functions = record { funcs = event_func ∷ plain_func ∷ []; objects = [] }

valid_module : Empty (validate two_functions [])
unfolding validate vcl_ident count_funcs count_args iter_all_funcs
valid_module = refl

abbrev maker : Signature
maker = record {
  ident = "new";
  is_public = true;
  is_async = false;
  is_unsafe = false;
  inputs = [];
  return_type = some (simple "Self");
}

abbrev unmarked : FuncAttributes
unmarked = record { has_event = false; restrict = none; vcl_rename = none }

abbrev module_items : List Item
module_items =
    use_item
    ∷ fn_item handler on_event
    ∷ impl_item (record {
      is_trait = false;
      has_generics = false;
      has_rename = false;
      self_ty = simple "Counter";
      items = impl_other ∷ impl_fn maker unmarked ∷ [];
    })
    ∷ []

parse_module_lem_example :
    Judged (ModuleFrom module_items) (parse_module as_number one_text any_text (some module_items))
parse_module_lem_example = parse_module_lem as_number one_text any_text (some module_items)

struct_is_refused :
    parse_module as_number one_text any_text (some (refused structs ∷ []))
    ≡ err (not_allowed structs ∷ [])
unfolding parse_module module_of parse_items validate vcl_ident count_funcs count_args
    iter_all_funcs
struct_is_refused = refl
