-- ===== src/Macros/Wrappers/Variables.antt =====
-- Each parameter keeps the variables of a wrapper in scope.
use Prim.Native.String.{String}
use mathlib.Core.Path.{subst}
use varnish_rs.Prelude.{◌≡◌, refl, sym, Bool, true, false, List, [], ◌∷◌, ◌++◌}
use varnish_rs.Macros.Types.{FuncType, to_c_type, use_try_from}
use varnish_rs.Macros.Attributes.{Value}
use varnish_rs.Macros.Output.{is_event, is_constructor}
use varnish_rs.Macros.Params.{
  SharedTypes, ParamType, context, workspace, self_type, event_param, name_param, per_task_mut,
  per_task_ref, per_task_ref_cell, per_vcl_ref, per_vcl_mut, fetch_filters_param,
  delivery_filters_param, value,
}
use varnish_rs.Macros.Arguments.{ParamTypeInfo, is_method}
use varnish_rs.Macros.Functions.{FuncInfo, is_optional}
use varnish_rs.Macros.Total.{Total, Total-if, Total-and_then}
use varnish_rs.Macros.Wrappers.{
  WrapTy, Source, object_ref, take_task, init_ref_cell, ctx_var, ws_var, event_var, name_value,
  task_ref, vcl_ref, task_object, task_cell, vcl_data, delivery, fetch, put_task, priv_mut,
  priv_const, valid_flag, c_type, FuncProcessor, Step, decl, pre, call_with, after, needs_ctx,
  add_decl, add_text, add_field_text, add_wrapper_arg, add_cproto_arg, add_flag, get_arg_value,
  has_signature, valid_name, value_var, add_priv, plain_json, declare_value, add_value, add_param,
  or_unit, parses_again, do_fn_param, do_params,
}
use varnish_rs.Macros.Wrappers.Agreement.{parses_again-true}
use varnish_rs.Macros.Wrappers.Scopes.{
  task_bound, cell_bound, declares, bound_in, SourceOk, CallOk, declares-append, declares-last,
  bound_in-last, SourceOk-Grows,
}
use varnish_rs.Macros.Wrappers.Closed.{
  scope_of, Scoped, call_with-Scoped, pre-Scoped, pre-Grows, after-Scoped, needs_ctx-Scoped,
  declared-Scoped, text-Scoped, get_arg_value-SourceOk,
}

-- What a parameter needs of its function: that it is of the right kind, has a signature of its own,
-- a struct for optional values, or a value per VCL.
abbrev pub Placed : {N : Type 0} → FuncType → Bool → Bool → ParamType N → Type 0
Placed t b v (context is_mut) = Unit {0}
Placed t b v (workspace is_mut) = Unit {0}
Placed t b v self_type = is_method t ≡ true
Placed t b v event_param = is_event t ≡ true
Placed t b v (name_param i) = is_constructor t ≡ true
Placed t b v per_task_mut = has_signature t ≡ true
Placed t b v per_task_ref = has_signature t ≡ true
Placed t b v per_task_ref_cell = has_signature t ≡ true
Placed t b v per_vcl_ref = has_signature t ≡ true
Placed t b v per_vcl_mut = v ≡ true
Placed t b v fetch_filters_param = v ≡ true
Placed t b v delivery_filters_param = v ≡ true
Placed t b v (value i) = (has_signature t ≡ true) × (is_optional i.kind ≡ true → b ≡ true)

module _ {N : Type 0} (to_string : Value N → String) (info : FuncInfo N) (shared : SharedTypes)
    (v : Bool) where
  abbrev t : FuncType
  t = info.func_type

  abbrev b : Bool
  b = info.has_optional_args

  abbrev declared : String → String → WrapTy → Step
  declared ctype name ty p = add_cproto_arg info ctype name (add_wrapper_arg info (decl name ty) p)

  pub declare-Scoped :
      (ctype name : String) (ty : WrapTy) (p : FuncProcessor)
      → Scoped t b v p
      → Scoped t b v (declared ctype name ty p)
  declare-Scoped ctype name ty p h =
      text-Scoped t b v b ctype name _ (declared-Scoped t b v (has_signature t) (decl name ty) p h)

  pub declare-SourceOk :
      (ctype name : String) (ty : WrapTy) (p : FuncProcessor)
      → has_signature t ≡ true
      → Scoped t b v p
      → SourceOk (scope_of (declared ctype name ty p)) (get_arg_value info name)
  declare-SourceOk ctype name ty p callable (h, i, j, base) =
      subst
        (λ s.
          SourceOk (scope_of (add_text b ctype name (add_decl s b (decl name ty) p)))
            (get_arg_value info name))
        (sym callable) (get_arg_value-SourceOk t b v b ctype name ty p base.has_args)

  flag-Scoped :
      (opt : Bool) (name : String) (p : FuncProcessor)
      → Scoped t b v p
      → Scoped t b v (add_flag info opt name p)
  flag-Scoped true name p h =
      declared-Scoped t b v (has_signature t) (decl (valid_name name) valid_flag) p h
  flag-Scoped false name p h = h

  -- The flag of an optional value is a field.
  flag-declared :
      (s c : Bool) (ctype flag name : String) (ty : WrapTy) (p : FuncProcessor)
      → s ≡ true
      → c ≡ true
      → declares flag
          (add_text c ctype name (
            add_decl s c (decl name ty) (
              add_field_text "char" flag
                (add_decl s c (decl flag valid_flag) p)))).opt_args_arg_decl
        ≡ true
  flag-declared true true ctype flag name ty p e f =
      declares-append flag (p.opt_args_arg_decl ++ decl flag valid_flag ∷ []) (decl name ty ∷ [])
        (declares-last flag p.opt_args_arg_decl (decl flag valid_flag) refl)
  flag-declared true false ctype flag name ty p e f = cc
  flag-declared false c ctype flag name ty p e f = cc

  value-CallOk :
      (opt fallible ctx : Bool) (name ctype : String) (p : FuncProcessor)
      → has_signature t ≡ true
      → (opt ≡ true → b ≡ true)
      → Scoped t b v p
      → CallOk ctx
          (scope_of (declared ctype name (c_type ctype) (add_flag info opt name p)))
          (value_var info opt name fallible)
  value-CallOk true fallible ctx name ctype p callable in_struct h =
      let flagged = add_flag info true name p in
      let with_flag : Scoped t b v flagged = flag-Scoped true name p h in
      let (_, _, _, base) = declare-Scoped ctype name (c_type ctype) flagged with_flag in
      (
        base.has_args (in_struct refl),
        flag-declared (has_signature t) b ctype (valid_name name) name (c_type ctype) p callable
            (in_struct refl),
        declare-SourceOk ctype name (c_type ctype) flagged callable with_flag,
      )
  value-CallOk false fallible ctx name ctype p callable in_struct h =
      declare-SourceOk ctype name (c_type ctype) p callable h

  pub param-Scoped :
      (name : String) (ty : ParamType N) (p : FuncProcessor)
      → Placed t b v ty
      → Scoped t b v p
      → Scoped t b v (add_param to_string info shared name ty p)
  unfolding add_param add_value add_priv plain_json declare_value
  param-Scoped name (context is_mut) p f h =
      call_with-Scoped t b v (needs_ctx p) (ctx_var is_mut) (needs_ctx-Scoped t b v p h) refl
  param-Scoped name (workspace is_mut) p f h =
      call_with-Scoped t b v (needs_ctx p) (ws_var is_mut) (needs_ctx-Scoped t b v p h) refl
  param-Scoped name self_type p f h = pre-Scoped t b v p object_ref h (h.3.has_object f)
  param-Scoped name event_param p f h = call_with-Scoped t b v p event_var h (h.3.has_event f)
  param-Scoped name (name_param i) p f h =
      call_with-Scoped t b v p (name_value (use_try_from i.ty_info)) h (h.3.has_name f)
  param-Scoped name per_task_ref p f h =
      let q = add_priv to_string info name priv_const "PRIV_TASK" p in
      call_with-Scoped t b v q (task_ref (get_arg_value info name))
        (declare-Scoped "struct vmod_priv *" name priv_const p h)
        (declare-SourceOk "struct vmod_priv *" name priv_const p f h)
  param-Scoped name per_task_mut p f h = task_mut
    where
      q : FuncProcessor
      q = add_priv to_string info name priv_mut "PRIV_TASK" p

      source : Source
      source = get_arg_value info name

      taken : bound_in task_bound (q.func_pre_call ++ take_task source ∷ []) ≡ true
      taken = bound_in-last task_bound q.func_pre_call (take_task source) refl

      known : SourceOk (scope_of q) source
      known = declare-SourceOk "struct vmod_priv *" name priv_mut p f h

      task_mut :
          Scoped t b v (after (put_task source) (call_with task_object (pre (take_task source) q)))
      task_mut =
          after-Scoped t b v (call_with task_object (pre (take_task source) q)) (put_task source)
            (call_with-Scoped t b v (pre (take_task source) q) task_object
              (pre-Scoped t b v q (take_task source)
                (declare-Scoped "struct vmod_priv *" name priv_mut p h) known)
              taken)
            (taken, SourceOk-Grows (pre-Grows t b v q (take_task source)) source known)
  param-Scoped name per_task_ref_cell p f h =
      let q = add_priv to_string info name priv_mut "PRIV_TASK" p in
      let cell = init_ref_cell (get_arg_value info name) (or_unit shared.shared_per_task_ty) in
      call_with-Scoped t b v (pre cell q) task_cell
        (pre-Scoped t b v q cell (declare-Scoped "struct vmod_priv *" name priv_mut p h)
          (declare-SourceOk "struct vmod_priv *" name priv_mut p f h))
        (bound_in-last cell_bound q.func_pre_call cell refl)
  param-Scoped name per_vcl_ref p f h =
      let q = add_priv to_string info name priv_const "PRIV_VCL" p in
      call_with-Scoped t b v q (vcl_ref (get_arg_value info name))
        (declare-Scoped "struct vmod_priv *" name priv_const p h)
        (declare-SourceOk "struct vmod_priv *" name priv_const p f h)
  param-Scoped name per_vcl_mut p f h = call_with-Scoped t b v p vcl_data h (h.3.has_per_vcl f)
  param-Scoped name fetch_filters_param p f h =
      call_with-Scoped t b v (needs_ctx p) fetch (needs_ctx-Scoped t b v p h)
        (refl, h.3.has_per_vcl f)
  param-Scoped name delivery_filters_param p f h =
      call_with-Scoped t b v (needs_ctx p) delivery (needs_ctx-Scoped t b v p h)
        (refl, h.3.has_per_vcl f)
  param-Scoped name (value i) p (f, g) h =
      let q = declare_value info name i p in
      let opt = is_optional i.kind in
      let ctype = to_c_type i.ty_info in
      call_with-Scoped t b v q (value_var info opt name (use_try_from i.ty_info))
        (declare-Scoped ctype name (c_type ctype) (add_flag info opt name p)
          (flag-Scoped opt name p h))
        (value-CallOk opt (use_try_from i.ty_info) q.func_needs_ctx name ctype p f g h)

  -- For every parameter of a list.
  abbrev pub AllPlaced : List (ParamTypeInfo N) → Type 0
  AllPlaced [] = Unit {0}
  AllPlaced (a ∷ rest) = Placed t b v a.ty × AllPlaced rest

  pub params-Scoped :
      (parses : String → Bool) (params : List (ParamTypeInfo N)) (p : FuncProcessor)
      → parses (or_unit shared.shared_per_task_ty) ≡ true
      → AllPlaced params
      → Scoped t b v p
      → Total (Scoped t b v) (do_params parses to_string info shared params p)
  unfolding do_params do_fn_param
  params-Scoped parses [] p e f h = h
  params-Scoped parses (a ∷ rest) p e (f, g) h =
      Total-and_then (Scoped t b v) (Scoped t b v) _ (do_params parses to_string info shared rest)
        (Total-if (Scoped t b v) (parses_again parses shared a.ty)
          (add_param to_string info shared a.ident a.ty p) (parses_again-true parses shared a.ty e)
          (param-Scoped a.ident a.ty p f h))
        (λ q. params-Scoped parses rest q e g)
