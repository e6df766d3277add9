-- ===== src/Macros/Wrappers/Prototype.antt =====
-- varnish-macros/src/gen_func.rs: what `init` gathers, the prototype and the JSON of a function.
use Prim.Native.String.{String, ◌++◌ as cat}
use varnish_rs.Prelude.{
  Bool, true, false, Option, none, some, List, [], ◌∷◌, ◌++◌, if◌then◌else◌, ltb,
}
use varnish_rs.Macros.Syntax.{and_then}
use varnish_rs.Macros.Types.{
  FuncType, function, constructor, destructor, method, event, i64, func_vcc_type,
}
use varnish_rs.Macros.Attributes.{Value}
use varnish_rs.Macros.Output.{OutputTy, param_type, output_c_type, output_vcc_type}
use varnish_rs.Macros.Params.{
  SharedTypes, ParamType, per_vcl_mut, fetch_filters_param, delivery_filters_param,
}
use varnish_rs.Macros.Arguments.{ParamTypeInfo}
use varnish_rs.Macros.Functions.{FuncInfo}
use varnish_rs.Macros.Modules.{count_if}
use varnish_rs.Macros.Names.{
  Names, obj_name, struct_name_of, arg_struct_name, typedef_name, f_fn_name, fn_name,
  func_struct_name,
}
use varnish_rs.Macros.Wrappers.{
  FuncProcessor, Step, decl, ctx_ptr, name_ptr, priv_mut, event_kind, obj_place, obj_ptr, args_ptr,
  drop_object, args_ref, take_per_vcl, put_per_vcl, pre, after, declare, in_prototype,
  add_wrapper_arg, add_cproto_arg, plain_json, get_arg_value, or_unit, do_params, JsonCell,
}

abbrev pub no_steps : Names → String → FuncProcessor
no_steps names ty = record {
  names = names;
  opt_args_ty_name = ty;
  func_pre_call = [];
  func_call_vars = [];
  func_always_after_call = [];
  func_needs_ctx = false;
  cproto_wrapper_args = [];
  cproto_opt_arg_decl = [];
  opt_args_arg_decl = [];
  wrap_fn_arg_decl = [];
  cproto_fn_arg_decl = [];
  args_json = [];
}

abbrev pub with_ctx : Step
with_ctx p = in_prototype "VRT_CTX" (declare (decl "__ctx" ctx_ptr) p)

abbrev pub with_place : String → Step
with_place obj p =
    in_prototype (cat (struct_name_of p.names.module_name obj) " **")
      (declare (decl "__objp" (obj_place obj)) p)

abbrev pub with_object : String → Step
with_object obj p =
    in_prototype (cat (struct_name_of p.names.module_name obj) " *")
      (declare (decl "__obj" (obj_ptr obj)) p)

-- The arguments that the kind of function brings, on the name of its object.
abbrev pub kind_args : FuncType → Option String → FuncProcessor → Option FuncProcessor
kind_args destructor (some obj) p = some (with_place obj (pre drop_object p))
kind_args constructor (some obj) p = some (
    in_prototype "const char *"
      (declare (decl "__vcl_name" name_ptr) (with_place obj (with_ctx p))))
kind_args method (some obj) p = some (with_object obj (with_ctx p))
kind_args event _ p =
    some (declare (decl "__ev" event_kind) (declare (decl "__vp" priv_mut) (with_ctx p)))
kind_args function _ p = some (with_ctx p)
kind_args _ none p = none

abbrev pub optional_args : Bool → Step
optional_args true p = pre args_ref (declare (decl "__args" (args_ptr p.opt_args_ty_name)) p)
optional_args false p = p

abbrev pub keeps_vcl_value : {N : Type 0} → ParamType N → Bool
keeps_vcl_value per_vcl_mut = true
keeps_vcl_value fetch_filters_param = true
keeps_vcl_value delivery_filters_param = true
keeps_vcl_value _ = false

abbrev pub keeps_vcl : {N : Type 0} → ParamTypeInfo N → Bool
keeps_vcl a = keeps_vcl_value a.ty

unfoldable pub use_shared_per_vcl : {N : Type 0} → FuncInfo N → Bool
use_shared_per_vcl info = ltb 0 (count_if keeps_vcl info.args)

unfoldable pub opt_struct_name : Bool → Names → Option String
unfolding arg_struct_name
opt_struct_name true names = arg_struct_name names
opt_struct_name false names = some ""

module _ {N : Type 0} (to_string : Value N → String) (parses : String → Bool) (info : FuncInfo N)
    (shared : SharedTypes) where
  unfoldable pub add_per_vcl : Step
  unfolding plain_json
  add_per_vcl p =
      let declared =
        add_cproto_arg info "struct vmod_priv *" "__vp"
          (add_wrapper_arg info (decl "__vp" priv_mut) p) in
      after (put_per_vcl (get_arg_value info "__vp")) (
        pre (take_per_vcl (get_arg_value info "__vp") (or_unit shared.shared_per_vcl_ty))
          (plain_json to_string "__vp" "PRIV_VCL" declared))

  unfoldable pub per_vcl_arg : Bool → FuncProcessor → Option FuncProcessor
  unfolding add_per_vcl
  per_vcl_arg true p =
      if parses (or_unit shared.shared_per_vcl_ty) then some (add_per_vcl p) else none
  per_vcl_arg false p = some p

  -- The part of `init` up to the parameters.
  unfoldable pub gather : FuncProcessor → Option FuncProcessor
  unfolding per_vcl_arg do_params use_shared_per_vcl
  gather p = and_then (kind_args info.func_type (obj_name p.names) p) (λ q.
      and_then (per_vcl_arg (use_shared_per_vcl info) (optional_args info.has_optional_args q))
        (do_params parses to_string info shared info.args))

module _ {N : Type 0} (info : FuncInfo N) where
  -- `do_fn_return`
  abbrev pub returned : FuncType → OutputTy
  returned event = param_type i64
  returned _ = info.output_ty

  unfoldable pub output_hdr : String
  unfolding output_c_type
  output_hdr = output_c_type (returned info.func_type)

  unfoldable pub output_vcc : String
  unfolding output_vcc_type
  output_vcc = output_vcc_type (returned info.func_type)

  -- The types that the prototype lists.
  unfoldable pub prototype_args : FuncProcessor → List String
  prototype_args p =
      p.cproto_fn_arg_decl
      ++ (if info.has_optional_args
          then cat "struct " (cat p.opt_args_ty_name " *") ∷ []
          else p.cproto_wrapper_args)

  abbrev pub fields_text : List String → String
  fields_text [] = ""
  fields_text (arg ∷ rest) = cat "  " (cat arg (cat ";\n" (fields_text rest)))

  abbrev pub struct_text : FuncProcessor → String
  struct_text p =
      if info.has_optional_args
      then cat "struct "
          (cat p.opt_args_ty_name (cat " {\n" (cat (fields_text p.cproto_opt_arg_decl) "};\n\n")))
      else ""

  abbrev pub more_args : List String → String
  more_args [] = ""
  more_args (arg ∷ rest) = cat ",\n    " (cat arg (more_args rest))

  abbrev pub args_text : List String → String
  args_text [] = ""
  args_text (arg ∷ rest) = cat "\n    " (cat arg (more_args rest))

  -- The entry of the struct of functions, and the declarations before it.
  abbrev pub typedef_text : FuncProcessor → String → String
  unfolding prototype_args output_hdr
  typedef_text p td_name = cat "\n" (
      cat (struct_text p) (
        cat "typedef " (
          cat output_hdr
            (cat " " (cat td_name (cat "(" (cat (args_text (prototype_args p)) "\n);\n")))))))

  abbrev pub entry_text : String → String → String
  entry_text td_name f_name = cat "  " (cat td_name (cat " *" (cat f_name ";\n")))

  unfoldable pub proto_texts :
      FuncType → Option String → String → FuncProcessor → Option (String × String)
  unfolding typedef_text
  proto_texts event td_name f_name p = some (entry_text "vmod_event_f" f_name, "")
  proto_texts _ none f_name p = none
  proto_texts _ (some td_name) f_name p = some (entry_text td_name f_name, typedef_text p td_name)

  unfoldable pub gen_cproto : FuncProcessor → Option (String × String)
  unfolding proto_texts f_fn_name typedef_name
  gen_cproto p =
      and_then (f_fn_name p.names)
        (λ f_name. proto_texts info.func_type (typedef_name p.names) f_name p)

-- The blob of a function, over the texts of its cells.
pub record Declaration : Type 0 where
  pub result_type : String
  pub callback_fn : String
  pub args_struct : String
  pub args : List (List JsonCell)

pub data FuncJson : Type 0 where
  callable : String → String → Declaration → FuncJson
  constructed : String → Declaration → FuncJson
  event_json : String → String → FuncJson

module _ {N : Type 0} (info : FuncInfo N) where
  abbrev pub args_struct_text : FuncProcessor → String
  args_struct_text p = if info.has_optional_args then cat "struct " p.opt_args_ty_name else ""

  abbrev pub or_name : Option String → String → String
  or_name none name = name
  or_name (some vcl_name) name = vcl_name

  abbrev pub json_of : FuncType → String → Declaration → FuncJson
  unfolding func_vcc_type
  json_of event name d = event_json (func_vcc_type event) d.callback_fn
  json_of constructor name d = constructed (func_vcc_type constructor) d
  json_of destructor name d = constructed (func_vcc_type destructor) d
  json_of function name d = callable (func_vcc_type function) (or_name info.vcl_name name) d
  json_of method name d = callable (func_vcc_type method) (or_name info.vcl_name name) d

  unfoldable pub json_func : FuncProcessor → Option FuncJson
  unfolding json_of output_vcc f_fn_name
  json_func p = and_then (f_fn_name p.names) (λ f_name. and_then (fn_name p.names) (λ name. some (
      json_of info.func_type name (record {
        result_type = output_vcc info;
        callback_fn = cat (func_struct_name p.names) (cat "." f_name);
        args_struct = args_struct_text p;
        args = p.args_json;
      }))))
