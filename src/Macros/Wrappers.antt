-- ===== src/Macros/Wrappers.antt =====
-- varnish-macros/src/gen_func.rs: the C wrapper of a function, with its prototype. The tokens that
-- are quoted are data: declarations, steps before and after the call, and arguments of the call.
pub mod Prototype
pub mod Body
pub mod Generate
pub mod Agreement
pub mod Signatures
pub mod Scopes
pub mod Closed
pub mod Variables
pub mod Whole
pub mod Callbacks
pub mod Kept
pub mod Json
pub mod Published
pub mod Calls
pub mod InScope
pub mod Results
mod Tests
use Prim.Native.String.{String, ◌++◌ as cat}
use varnish_rs.Prelude.{
  Bool, true, false, ◌||◌, ◌&&◌, Option, none, some, List, [], ◌∷◌, ◌++◌, if◌then◌else◌,
}
use varnish_rs.Macros.Syntax.{and_then}
use varnish_rs.Macros.Types.{
  FuncType, function, constructor, destructor, method, event, to_c_type, to_vcc_type, use_try_from,
}
use varnish_rs.Macros.Attributes.{Value, null}
use varnish_rs.Macros.Params.{
  SharedTypes, ParamKind, regular, optional, required, ParamInfo, ParamType, context, workspace,
  self_type, event_param, name_param, per_task_mut, per_task_ref, per_task_ref_cell, per_vcl_ref,
  per_vcl_mut, fetch_filters_param, delivery_filters_param, value,
}
use varnish_rs.Macros.Arguments.{ParamTypeInfo}
use varnish_rs.Macros.Functions.{FuncInfo, is_optional}
use varnish_rs.Macros.Names.{Names, obj_name, arg_struct_name}

-- The Rust types of a wrapper's arguments, where a type of an object or a struct has its name.
pub data WrapTy : Type 0 where
  ctx_ptr name_ptr priv_mut priv_const event_kind valid_flag : WrapTy
  obj_place obj_ptr args_ptr c_type : String → WrapTy

pub record ArgDecl : Type 0 where
  pub name : String
  pub ty : WrapTy

-- Where a value comes from: a field of `__args`, or an argument of the wrapper.
pub data Source : Type 0 where
  in_args direct : String → Source

pub data PreCall : Type 0 where
  drop_object args_ref object_ref : PreCall
  take_per_vcl : Source → String → PreCall
  take_task : Source → PreCall
  init_ref_cell : Source → String → PreCall

-- The arguments of the call. A value has the flag that says whether it is there, if it may be
-- missing, and says whether its conversion may fail.
pub data CallVar : Type 0 where
  ctx_var ws_var : Bool → CallVar
  event_var : CallVar
  name_value : Bool → CallVar
  task_ref vcl_ref : Source → CallVar
  task_object task_cell vcl_data delivery fetch : CallVar
  plain_value : Source → Bool → CallVar
  checked_value : String → Source → Bool → CallVar

pub data AfterCall : Type 0 where
  put_per_vcl put_task : Source → AfterCall

pub data JsonCell : Type 0 where
  json_null json_true : JsonCell
  json_text : String → JsonCell

pub record FuncProcessor : Type 0 where
  pub names : Names
  pub opt_args_ty_name : String
  pub func_pre_call : List PreCall
  pub func_call_vars : List CallVar
  pub func_always_after_call : List AfterCall
  pub func_needs_ctx : Bool
  pub cproto_wrapper_args : List String
  pub cproto_opt_arg_decl : List String
  pub opt_args_arg_decl : List ArgDecl
  pub wrap_fn_arg_decl : List ArgDecl
  pub cproto_fn_arg_decl : List String
  pub args_json : List (List JsonCell)

-- The steps on different lists can change places, so each list is in the order of the source.
abbrev pub Step : Type 0
Step = FuncProcessor → FuncProcessor

abbrev pub pre : PreCall → Step
pre c p = record p { func_pre_call = p.func_pre_call ++ c ∷ [] }

abbrev pub call_with : CallVar → Step
call_with v p = record p { func_call_vars = p.func_call_vars ++ v ∷ [] }

abbrev pub after : AfterCall → Step
after a p = record p { func_always_after_call = p.func_always_after_call ++ a ∷ [] }

abbrev pub needs_ctx : Step
needs_ctx p = record p { func_needs_ctx = true }

abbrev pub declare : ArgDecl → Step
declare d p = record p { wrap_fn_arg_decl = p.wrap_fn_arg_decl ++ d ∷ [] }

abbrev pub in_prototype : String → Step
in_prototype c p = record p { cproto_fn_arg_decl = p.cproto_fn_arg_decl ++ c ∷ [] }

abbrev pub has_signature : FuncType → Bool
has_signature function = true
has_signature constructor = true
has_signature method = true
has_signature _ = false

abbrev pub decl : String → WrapTy → ArgDecl
decl name ty = record { name = name; ty = ty }

abbrev pub field_text : String → String → String
field_text ctype name = cat ctype (cat " " name)

abbrev keep_unless_null : JsonCell → List JsonCell → List JsonCell
keep_unless_null json_null [] = []
keep_unless_null c [] = c ∷ []
keep_unless_null c (d ∷ ds) = c ∷ d ∷ ds

-- Without the nulls at the end.
abbrev pub trimmed : List JsonCell → List JsonCell
trimmed [] = []
trimmed (c ∷ cs) = keep_unless_null c (trimmed cs)

abbrev pub add_json : List JsonCell → Step
add_json j p = record p { args_json = p.args_json ++ j ∷ [] }

-- Whether the kind of function has a signature of its own, whether its arguments are in a struct.
abbrev pub add_decl : Bool → Bool → ArgDecl → Step
add_decl true true d p = record p { opt_args_arg_decl = p.opt_args_arg_decl ++ d ∷ [] }
add_decl true false d p = declare d p
add_decl false _ d p = p

abbrev pub add_field_text : String → String → Step
add_field_text ctype name p = record p {
  cproto_opt_arg_decl = p.cproto_opt_arg_decl ++ field_text ctype name ∷ [];
}

abbrev pub add_text : Bool → String → String → Step
add_text true ctype name p = add_field_text ctype name p
add_text false ctype name p = record p { cproto_wrapper_args = p.cproto_wrapper_args ++ ctype ∷ [] }

abbrev pub valid_name : String → String
valid_name name = cat "valid_" name

abbrev pub or_unit : Option String → String
or_unit none = "()"
or_unit (some ty) = ty

-- Identifiers are texts here; Generate asks whether they are identifiers.
module _ {N : Type 0} (info : FuncInfo N) where
  abbrev pub get_arg_value : String → Source
  get_arg_value name = if info.has_optional_args then in_args name else direct name

  abbrev pub add_wrapper_arg : ArgDecl → Step
  add_wrapper_arg d = add_decl (has_signature info.func_type) info.has_optional_args d

  abbrev pub add_cproto_arg : String → String → Step
  add_cproto_arg ctype name = add_text info.has_optional_args ctype name

  abbrev pub add_flag : Bool → String → Step
  add_flag true name p =
      add_field_text "char" (valid_name name)
        (add_wrapper_arg (decl (valid_name name) valid_flag) p)
  add_flag false name p = p

  abbrev pub value_var : Bool → String → Bool → CallVar
  value_var true name fallible = checked_value (valid_name name) (get_arg_value name) fallible
  value_var false name fallible = plain_value (get_arg_value name) fallible

  abbrev pub declare_value : String → ParamInfo N → Step
  unfolding to_c_type
  declare_value name i p = add_cproto_arg (to_c_type i.ty_info) name (
      add_wrapper_arg (decl name (c_type (to_c_type i.ty_info)))
        (add_flag (is_optional i.kind) name p))

-- `to_string` is the one of `serde_json`.
module _ {N : Type 0} (to_string : Value N → String) where
  abbrev default_cell : Value N → JsonCell
  default_cell null = json_null
  default_cell v = json_text (to_string v)

  unfoldable pub arg_to_json : String → Bool → String → Value N → List JsonCell
  arg_to_json arg_name is_optional_arg vcc_type default =
      let cells =
        json_text vcc_type
        ∷ json_text arg_name
        ∷ json_text arg_name
        ∷ default_cell default
        ∷ json_null
        ∷ [] in
      if is_optional_arg then cells ++ json_true ∷ [] else trimmed cells

  abbrev pub plain_json : String → String → Step
  unfolding arg_to_json
  plain_json name vcc_type = add_json (arg_to_json name false vcc_type null)

  module _ (info : FuncInfo N) where
    -- A `vmod_priv` in the signature, in the JSON and in the prototype.
    abbrev pub add_priv : String → WrapTy → String → Step
    unfolding plain_json
    add_priv name ty vcc_type p =
        plain_json name vcc_type
          (add_cproto_arg info "struct vmod_priv *" name (add_wrapper_arg info (decl name ty) p))

    abbrev pub add_value : String → ParamInfo N → Step
    unfolding arg_to_json to_vcc_type use_try_from declare_value
    add_value name i p =
        add_json (arg_to_json name (is_optional i.kind) (to_vcc_type i.ty_info) i.default) (
          call_with (value_var info (is_optional i.kind) name (use_try_from i.ty_info))
            (declare_value info name i p))

    abbrev pub add_param : SharedTypes → String → ParamType N → Step
    unfolding add_value plain_json add_priv use_try_from
    add_param shared name (context is_mut) p = call_with (ctx_var is_mut) (needs_ctx p)
    add_param shared name (workspace is_mut) p = call_with (ws_var is_mut) (needs_ctx p)
    add_param shared name self_type p = pre object_ref p
    add_param shared name event_param p = plain_json name "EVENT" (call_with event_var p)
    add_param shared name (name_param i) p = call_with (name_value (use_try_from i.ty_info)) p
    add_param shared name per_task_ref p =
        call_with (task_ref (get_arg_value info name)) (add_priv name priv_const "PRIV_TASK" p)
    add_param shared name per_task_mut p =
        let q = add_priv name priv_mut "PRIV_TASK" p in
        after (put_task (get_arg_value info name))
          (call_with task_object (pre (take_task (get_arg_value info name)) q))
    add_param shared name per_task_ref_cell p =
        let q = add_priv name priv_mut "PRIV_TASK" p in
        call_with task_cell
          (pre (init_ref_cell (get_arg_value info name) (or_unit shared.shared_per_task_ty)) q)
    add_param shared name per_vcl_ref p =
        call_with (vcl_ref (get_arg_value info name)) (add_priv name priv_const "PRIV_VCL" p)
    add_param shared name per_vcl_mut p = call_with vcl_data p
    add_param shared name delivery_filters_param p = call_with delivery (needs_ctx p)
    add_param shared name fetch_filters_param p = call_with fetch (needs_ctx p)
    add_param shared name (value i) p = add_value name i p

-- `syn::parse_str` of a text of a type, with `expect`.
module _ (parses : String → Bool) where
  abbrev pub parses_again : {N : Type 0} → SharedTypes → ParamType N → Bool
  parses_again shared per_task_ref_cell = parses (or_unit shared.shared_per_task_ty)
  parses_again shared _ = true

  module _ {N : Type 0} (to_string : Value N → String) (info : FuncInfo N)
      (shared : SharedTypes) where
    unfoldable pub do_fn_param : ParamTypeInfo N → FuncProcessor → Option FuncProcessor
    unfolding add_param
    do_fn_param a p =
        if parses_again shared a.ty
        then some (add_param to_string info shared a.ident a.ty p)
        else none

    unfoldable pub do_params : List (ParamTypeInfo N) → FuncProcessor → Option FuncProcessor
    unfolding do_fn_param
    do_params [] p = some p
    do_params (a ∷ rest) p = and_then (do_fn_param a p) (do_params rest)
