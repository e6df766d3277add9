-- ===== src/Macros/Arguments.antt =====
-- varnish-macros/src/parser_args.rs: which parameter an argument of a function is.
pub mod Rules
pub mod Fits
pub mod Kinds
pub mod Accepted
pub mod Lists
use Prim.Native.String.{String}
use text.Mathlib.Text.{◌==◌ as str_eq}
use varnish_rs.Prelude.{
  ℕ, zero, suc, ◌+◌, ◌≡◌, refl, Bool, true, false, not, ◌&&◌, ◌||◌, Option, none, some, List, [],
  ◌∷◌, ◌++◌, if◌then◌else◌, length, ltb, ◌==◌,
}
use varnish_rs.Outcome.{
  Result, ok, err, panic, Fallible, pure, fail, panics, answer, gets, ◌>>=◌, ◌>>◌,
}
use varnish_rs.Macros.Syntax.{
  Ty, and_then, as_simple_ty, as_ref_ty, as_ref_mut_ty, as_option_type, as_box_type,
  as_ref_cell_type,
}
use varnish_rs.Macros.Types.{
  FuncType, function, constructor, destructor, method, event, ParamTy, try_parse,
  try_parse_or_optional, must_be_optional,
}
use varnish_rs.Macros.Output.{is_event, is_constructor}
use varnish_rs.Macros.Attributes.{
  Attribute, OnAttributes, Value, null, Special, ctx_or_ws, shared_per_task, shared_per_vcl,
  event_kind, vcl_name, fetch_filters, delivery_filters, ParamError, twice, too_many_attributes,
  misplaced, not_in_events, per_task_type, vcl_name_type, unsupported, must_be_option,
  required_without_option, required_type, self_first, self_not_allowed, pattern, is_text,
  get_arg_opts, get_required_attr,
}
use varnish_rs.Macros.Params.{
  FuncStatus, Parsing, SharedTypes, Parser, ParamKind, regular, optional, required, ParamInfo,
  ParamType, context, workspace, self_type, event_param, name_param, per_task_mut, per_task_ref,
  per_task_ref_cell, per_vcl_ref, per_vcl_mut, fetch_filters_param, delivery_filters_param, value,
  fail_if, unique, only_in, not_in_event, kind_of_function, constructor_or_event,
  function_or_method, on_attributes, is_some, remove, Store, task_store, vcl_store,
  parse_shared_mut, parse_shared_ref, parse_shared_ref_cell,
}

-- The argument of a function: its attributes stand in the state. The name is that of a plain
-- identifier pattern. A receiver is `&self` or another form of self.
pub data FnArg : Type 0 where
  receiver : Bool → List Attribute → FnArg
  typed : Option String → Ty → List Attribute → FnArg

abbrev pub simple_is : String → Option String → Bool
simple_is name none = false
simple_is name (some ident) = str_eq ident name

abbrev pub context_or_workspace : Bool → Bool → {N : Type 0} → ParamType N
context_or_workspace is_ctx is_mut = if is_ctx then context is_mut else workspace is_mut

abbrev pub kind_of : Bool → Bool → ParamKind
kind_of has_required opt = if has_required then required else if opt then optional else regular

-- `ParamTypeInfo`, without the documentation.
pub record ParamTypeInfo (N : Type 0) : Type 0 where
  pub ident : String
  pub ty : ParamType N

abbrev pub is_method : FuncType → Bool
is_method method = true
is_method _ = false

module _ {N : Type 0} (from_str : String → Option N) (to_text : Ty → String)
    (parses : String → Bool) where
  -- Must be exactly `&mut Option<Box<T>>`.
  unfoldable pub task_mut : Ty → Parser (ParamType N)
  task_mut arg_ty = do
    fail_if (not (is_some (and_then (and_then (as_ref_mut_ty arg_ty) as_option_type) as_box_type)))
        per_task_type
    parse_shared_mut to_text parses task_store arg_ty
    pure per_task_mut

  -- Must be exactly `&RefCell<Option<T>>`.
  unfoldable pub task_ref_cell : Ty → Parser (ParamType N)
  task_ref_cell arg_ty = do
    fail_if (not (is_some (and_then (and_then (as_ref_ty arg_ty) as_ref_cell_type) as_option_type)))
        per_task_type
    parse_shared_ref_cell to_text parses task_store arg_ty
    pure per_task_ref_cell

  -- Must be exactly `Option<&T>`.
  unfoldable pub task_ref : Ty → Parser (ParamType N)
  task_ref arg_ty = do
    fail_if (not (is_some (and_then (as_option_type arg_ty) as_ref_ty))) per_task_type
    parse_shared_ref to_text parses task_store arg_ty
    pure per_task_ref

  unfoldable pub per_task_param : Ty → Parser (ParamType N)
  unfolding task_mut task_ref_cell task_ref
  per_task_param arg_ty = do
    not_in_event not_in_events
    unique shared_per_task
    if is_some (as_ref_mut_ty arg_ty)
        then task_mut arg_ty
        else if is_some (and_then (as_ref_ty arg_ty) as_ref_cell_type)
        then task_ref_cell arg_ty
        else task_ref arg_ty

  -- A shared argument per VCL, after the type is stored.
  unfoldable pub vcl_shared : Parser (Unit {0}) → ParamType N → Parser (ParamType N)
  vcl_shared store param = do store; unique shared_per_vcl; pure param

  abbrev pub per_vcl_for : Ty → FuncType → Parser (ParamType N)
  per_vcl_for arg_ty t =
      if constructor_or_event t
      then vcl_shared (parse_shared_mut to_text parses vcl_store arg_ty) per_vcl_mut
      else if function_or_method t
      then vcl_shared (parse_shared_ref to_text parses vcl_store arg_ty) per_vcl_ref
      else fail (misplaced shared_per_vcl)

  unfoldable pub per_vcl_param : Ty → Parser (ParamType N)
  per_vcl_param arg_ty = do t ← kind_of_function; per_vcl_for arg_ty t

  abbrev pub named : Option ParamTy → Parser (ParamType N)
  named none = fail vcl_name_type
  named (some ty) =
      if is_text ty
      then pure (name_param (record { kind = regular; default = null; ty_info = ty }))
      else fail vcl_name_type

  unfoldable pub vcl_name_param : Ty → Parser (ParamType N)
  vcl_name_param arg_ty = do
    only_in is_constructor (misplaced vcl_name)
    unique vcl_name
    named (try_parse arg_ty)

  unfoldable pub event_param_of : Parser (ParamType N)
  event_param_of = do only_in is_event (misplaced event_kind); unique event_kind; pure event_param

  unfoldable pub ctx_or_ws_param : Bool → Bool → Parser (ParamType N)
  ctx_or_ws_param is_ctx is_mut = do unique ctx_or_ws; pure (context_or_workspace is_ctx is_mut)

  unfoldable pub filters_param : Special → ParamType N → Parser (ParamType N)
  filters_param which param = do
    only_in constructor_or_event (misplaced which)
    unique which
    pure param

  abbrev pub value_of : Bool × ParamTy → Parser (ParamType N)
  value_of (opt, ty) = do
    fail_if (not opt && must_be_optional ty) must_be_option
    default ← on_attributes (get_arg_opts from_str ty)
    has_required ← on_attributes get_required_attr
    fail_if (has_required && not opt) required_without_option
    fail_if (has_required && (not (must_be_optional ty) && not (is_text ty))) required_type
    pure (value (record { kind = kind_of has_required opt; default = default; ty_info = ty }))

  abbrev pub supported : Option (Bool × ParamTy) → Parser (ParamType N)
  supported none = fail unsupported
  supported (some p) = value_of p

  unfoldable pub value_param : Ty → Parser (ParamType N)
  value_param arg_ty = do not_in_event not_in_events; supported (try_parse_or_optional arg_ty)

  -- `&Ctx` and the like: the identifier behind a reference.
  abbrev pub is_ctx_or_ws : Option String → Bool
  is_ctx_or_ws ident = simple_is "Ctx" ident || simple_is "Workspace" ident

  -- The branches on the type of an argument without a special attribute.
  unfoldable pub plain_param : Ty → Parser (ParamType N)
  plain_param arg_ty =
      let by_ref = and_then (as_ref_ty arg_ty) as_simple_ty in
      let by_mut = and_then (as_ref_mut_ty arg_ty) as_simple_ty in
      if simple_is "Event" (as_simple_ty arg_ty)
      then event_param_of
      else if is_ctx_or_ws by_ref
      then ctx_or_ws_param (simple_is "Ctx" by_ref) false
      else if is_ctx_or_ws by_mut
      then ctx_or_ws_param (simple_is "Ctx" by_mut) true
      else if simple_is "FetchFilters" by_mut
      then filters_param fetch_filters fetch_filters_param
      else if simple_is "DeliveryFilters" by_mut
      then filters_param delivery_filters delivery_filters_param
      else value_param arg_ty

  abbrev pub count_attrs : Parser ℕ
  count_attrs = gets (λ s. length s.attrs)

  unfoldable pub parse_param : Ty → Parser (ParamType N)
  parse_param arg_ty = do
    attr_count ← count_attrs
    is_per_task ← remove "shared_per_task"
    is_per_vcl ← remove "shared_per_vcl"
    is_vcl_name ← remove "vcl_name"
    attrs_left ← count_attrs
    fail_if (ltb (attrs_left + 1) attr_count) too_many_attributes
    if is_per_task
        then per_task_param arg_ty
        else if is_per_vcl
        then per_vcl_param arg_ty
        else if is_vcl_name
        then vcl_name_param arg_ty
        else plain_param arg_ty

  abbrev pub receiver_for : ℕ → Bool → FuncType → Parser (ParamTypeInfo N)
  receiver_for idx is_plain_ref t =
      if is_method t
      then if not (idx == 0) || not is_plain_ref
        then fail self_first
        else pure (record { ident = "self"; ty = self_type })
      else fail self_not_allowed

  abbrev pub of_receiver : ℕ → Bool → Parser (ParamTypeInfo N)
  of_receiver idx is_plain_ref = do t ← kind_of_function; receiver_for idx is_plain_ref t

  abbrev pub with_name : Option String → ParamType N → Parser (ParamTypeInfo N)
  with_name none ty = fail pattern
  with_name (some ident) ty = pure (record { ident = ident; ty = ty })

  unfoldable pub of_typed : Option String → Ty → Parser (ParamTypeInfo N)
  unfolding parse_param
  of_typed ident arg_ty = do ty ← parse_param arg_ty; with_name ident ty

  unfoldable pub parse_arg : ℕ → FnArg → Parser (ParamTypeInfo N)
  parse_arg idx (receiver is_plain_ref attrs) s =
      of_receiver idx is_plain_ref (record s { attrs = attrs })
  parse_arg idx (typed ident arg_ty attrs) s = of_typed ident arg_ty (record s { attrs = attrs })

  -- What an argument adds to the parameters and errors of the arguments behind it.
  abbrev pub add_arg :
      Result ParamError (ParamTypeInfo N)
      → Parsing
      → Result ParamError (List (ParamTypeInfo N) × List ParamError) × Parsing
      → Result ParamError (List (ParamTypeInfo N) × List ParamError) × Parsing
  add_arg panic s rest = (panic, s)
  add_arg (err e) s (ok (params, errors), t) = (ok (params, e ∷ errors), t)
  add_arg (ok p) s (ok (params, errors), t) = (ok (p ∷ params, errors), t)
  add_arg (err e) s (err f, t) = (err f, t)
  add_arg (ok p) s (err f, t) = (err f, t)
  add_arg (err e) s (panic, t) = (panic, t)
  add_arg (ok p) s (panic, t) = (panic, t)

  -- The loop over the arguments of a function. An argument with an error is left out.
  unfoldable pub parse_args : ℕ → List FnArg → Parser (List (ParamTypeInfo N) × List ParamError)
  unfolding parse_arg
  parse_args idx [] s = (ok ([], []), s)
  parse_args idx (arg ∷ args) s =
      let first = parse_arg idx arg s in
      let rest = parse_args (idx + 1) args first.1 in add_arg first.0 first.1 rest
