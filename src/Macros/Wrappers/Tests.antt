-- ===== src/Macros/Wrappers/Tests.antt =====
-- The wrapper of a constructor, and instances of the theorems on wrappers.
use Prim.Native.String.{String}
use varnish_rs.Prelude.{◌≡◌, refl, Bool, true, false, Option, none, some, [], ◌∷◌}
use varnish_rs.Macros.Syntax.{path, last, no_arguments, as_result_type, as_simple_ty}
use varnish_rs.Macros.Types.{constructor, i64, str, to_c_type, to_vcc_type}
use varnish_rs.Macros.Attributes.{Value, null, number}
use varnish_rs.Macros.Output.{
  self_type as returns_self, output_c_type, output_vcc_type, requires_unsafe,
}
use varnish_rs.Macros.Params.{SharedTypes, optional, regular, name_param, per_task_mut, value}
use varnish_rs.Macros.Functions.{
  FuncInfo, contains, Signature, FuncAttributes, sig_returns_self, func_type_of,
}
use varnish_rs.Macros.Functions.Laws.{Accepted}
use varnish_rs.Macros.Names.{Names, wrapper_fn_name}
use varnish_rs.Macros.Names.Collisions.{method_names, function_names, wrapper_names_collide}
use varnish_rs.Macros.Total.{Total}
use varnish_rs.Macros.Wrappers.Prototype.{gather, gen_cproto, opt_struct_name}
use varnish_rs.Macros.Wrappers.Body.{gen_callback_fn}
use varnish_rs.Macros.Wrappers.Json.{Published}
use varnish_rs.Macros.Wrappers.Calls.{InScope}
use varnish_rs.Macros.Wrappers.Generate.{
  Generated, from_info, init, gathered_idents, finish, output_idents, with_wrapper,
}
use varnish_rs.Macros.Wrappers.InScope.{HasIdents}
use varnish_rs.Macros.Wrappers.Results.{
  SameTypes, gen_callback_fn_lem, from_info_lem, args_json_lem,
}

abbrev no_text : Value String → String
no_text null = "null"
no_text _ = "1"

abbrev any_text : String → Bool
any_text _ = true

abbrev types : SharedTypes
types = record { shared_per_task_ty = some "Seen"; shared_per_vcl_ty = none }

-- `fn new(#[vcl_name] name: &str, seen: &mut Option<Box<Seen>>, max: Option<i64>) -> Self`
abbrev new_counter : FuncInfo String
new_counter = record {
  func_type = constructor;
  ident = "new";
  vcl_name = none;
  has_optional_args = true;
  args =
      record {
        ident = "name";
        ty = name_param (record { kind = regular; default = null; ty_info = str });
      }
      ∷ record { ident = "seen"; ty = per_task_mut }
      ∷ record {
        ident = "max";
        ty = value (record { kind = optional; default = number "1"; ty_info = i64 });
      }
      ∷ [];
  output_ty = returns_self;
  out_result = false;
  restrict = [];
}

abbrev signature : Signature
signature = record {
  ident = "new";
  is_public = true;
  is_async = false;
  is_unsafe = false;
  inputs = [];
  return_type = some (path false false (last "Self" no_arguments));
}

abbrev no_attributes : FuncAttributes
no_attributes = record { has_event = false; restrict = none; vcl_rename = none }

abbrev of_counter : Names
of_counter = record {
  module_name = "stats";
  object = some "counter";
  func = some (constructor, "new");
}

prototype_text : String
prototype_text =
    "\nstruct arg_vmod_stats_counter_new {\n  struct vmod_priv * seen;\n  char valid_max;\n  VCL_INT max;\n};\n\ntypedef VCL_VOID td_vmod_stats_counter_new(\n    VRT_CTX,\n    struct vmod_stats_counter **,\n    const char *,\n    struct arg_vmod_stats_counter_new *\n);\n"

-- The texts that are identifiers here.
abbrev known_idents : String → Bool
known_idents = contains (
    "counter" ∷ "arg_vmod_stats_counter_new" ∷ "name" ∷ "seen" ∷ "max" ∷ "valid_max" ∷ "VCL_INT"
    ∷ "vmod_c_counter_new" ∷ "new" ∷ [])

abbrev made : Option Generated
made = from_info new_counter known_idents no_text any_text types of_counter

prototype_of : Option Generated → Option (String × String)
prototype_of none = none
prototype_of (some r) = some r.cproto

prototype_run :
    prototype_of made ≡ some ("  td_vmod_stats_counter_new *f_counter_new;\n", prototype_text)
unfolding prototype_of from_info init gather gathered_idents finish output_idents with_wrapper
    gen_callback_fn gen_cproto opt_struct_name prototype_text
prototype_run = refl

counter-Accepted : Accepted signature no_attributes true new_counter
unfolding func_type_of sig_returns_self as_result_type as_simple_ty output_c_type output_vcc_type
    requires_unsafe to_c_type to_vcc_type
counter-Accepted = (
  refl,
  refl,
  refl,
  ((refl, refl), (refl, ((refl, tt, refl, (refl, refl)), tt))),
  (refl, (λ e. cc), (λ e. refl)),
  refl,
  tt,
  (λ e. cc),
  refl,
)

counter-HasIdents : HasIdents known_idents new_counter of_counter
unfolding gathered_idents output_idents opt_struct_name wrapper_fn_name
counter-HasIdents = (refl, refl, refl, refl)

gen_callback_fn_lem_example : Total (λ r. InScope r.wrapper_function_body) made
gen_callback_fn_lem_example =
    gen_callback_fn_lem no_text any_text known_idents types of_counter new_counter signature
      no_attributes true counter-Accepted tt tt refl refl counter-HasIdents

from_info_lem_example : Total (λ r. SameTypes new_counter r.processor) made
from_info_lem_example =
    from_info_lem no_text any_text known_idents types of_counter new_counter signature no_attributes
      true counter-Accepted tt tt refl refl counter-HasIdents refl

args_json_lem_example : Total (λ r. Published true r.processor) made
args_json_lem_example =
    args_json_lem no_text any_text known_idents types of_counter new_counter signature no_attributes
      true counter-Accepted tt tt refl refl counter-HasIdents refl

-- `pub fn r#match()`
abbrev raw_match : Names
raw_match = function_names "stats" "r#match"

wrapper_names_collide_example :
    wrapper_fn_name (method_names "m" "a" "b") ≡ wrapper_fn_name (function_names "m" "a_b")
wrapper_names_collide_example = wrapper_names_collide "m" "a" "b"
