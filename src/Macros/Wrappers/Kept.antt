-- ===== src/Macros/Wrappers/Kept.antt =====
-- The steps of the generator keep the names of a function.
use Prim.Native.String.{String}
use varnish_rs.Prelude.{◌≡◌, refl, Bool, true, false, Option, none, some, List, [], ◌∷◌}
use varnish_rs.Macros.Types.{FuncType, function, constructor, destructor, method, event, to_c_type}
use varnish_rs.Macros.Attributes.{Value}
use varnish_rs.Macros.Params.{
  SharedTypes, ParamType, context, workspace, self_type, event_param, name_param, per_task_mut,
  per_task_ref, per_task_ref_cell, per_vcl_ref, per_vcl_mut, fetch_filters_param,
  delivery_filters_param, value,
}
use varnish_rs.Macros.Arguments.{ParamTypeInfo}
use varnish_rs.Macros.Functions.{FuncInfo, is_optional}
use varnish_rs.Macros.Names.{Names}
use varnish_rs.Macros.Total.{Made, Made-and_then, Made-if}
use varnish_rs.Macros.Wrappers.{
  WrapTy, ArgDecl, c_type, valid_flag, priv_mut, FuncProcessor, decl, add_decl, add_text,
  add_wrapper_arg, add_cproto_arg, add_flag, valid_name, add_param, add_value, add_priv, plain_json,
  declare_value, parses_again, has_signature, or_unit, do_fn_param, do_params,
}
use varnish_rs.Macros.Wrappers.Prototype.{
  no_steps, kind_args, optional_args, add_per_vcl, per_vcl_arg, use_shared_per_vcl, gather,
}

module _ (n : Names) where
  abbrev pub Keeps : FuncProcessor → Type 0
  Keeps p = p.names ≡ n

  decl-Keeps : (s b : Bool) (d : ArgDecl) (p : FuncProcessor) → Keeps p → Keeps (add_decl s b d p)
  decl-Keeps true true d p h = h
  decl-Keeps true false d p h = h
  decl-Keeps false b d p h = h

  text-Keeps :
      (b : Bool) (ctype name : String) (p : FuncProcessor)
      → Keeps p
      → Keeps (add_text b ctype name p)
  text-Keeps true ctype name p h = h
  text-Keeps false ctype name p h = h

  kind_args-Keeps :
      (t : FuncType) (o : Option String) (p : FuncProcessor)
      → Keeps p
      → Made Keeps (kind_args t o p)
  kind_args-Keeps function none p h = h
  kind_args-Keeps function (some obj) p h = h
  kind_args-Keeps event none p h = h
  kind_args-Keeps event (some obj) p h = h
  kind_args-Keeps constructor none p h = tt
  kind_args-Keeps constructor (some obj) p h = h
  kind_args-Keeps destructor none p h = tt
  kind_args-Keeps destructor (some obj) p h = h
  kind_args-Keeps method none p h = tt
  kind_args-Keeps method (some obj) p h = h

  optional_args-Keeps : (b : Bool) (p : FuncProcessor) → Keeps p → Keeps (optional_args b p)
  optional_args-Keeps true p h = h
  optional_args-Keeps false p h = h

  module _ {N : Type 0} (to_string : Value N → String) (info : FuncInfo N)
      (shared : SharedTypes) where
    declared-Keeps :
        (ctype name : String) (ty : WrapTy) (p : FuncProcessor)
        → Keeps p
        → Keeps (add_cproto_arg info ctype name (add_wrapper_arg info (decl name ty) p))
    declared-Keeps ctype name ty p h =
        text-Keeps info.has_optional_args ctype name _
          (decl-Keeps (has_signature info.func_type) info.has_optional_args (decl name ty) p h)

    flag-Keeps :
        (opt : Bool) (name : String) (p : FuncProcessor)
        → Keeps p
        → Keeps (add_flag info opt name p)
    flag-Keeps true name p h =
        decl-Keeps (has_signature info.func_type) info.has_optional_args
          (decl (valid_name name) valid_flag) p h
    flag-Keeps false name p h = h

    param-Keeps :
        (name : String) (ty : ParamType N) (p : FuncProcessor)
        → Keeps p
        → Keeps (add_param to_string info shared name ty p)
    unfolding add_param add_value add_priv plain_json declare_value
    param-Keeps name (context is_mut) p h = h
    param-Keeps name (workspace is_mut) p h = h
    param-Keeps name self_type p h = h
    param-Keeps name event_param p h = h
    param-Keeps name (name_param i) p h = h
    param-Keeps name per_task_mut p h = declared-Keeps "struct vmod_priv *" name _ p h
    param-Keeps name per_task_ref p h = declared-Keeps "struct vmod_priv *" name _ p h
    param-Keeps name per_task_ref_cell p h = declared-Keeps "struct vmod_priv *" name _ p h
    param-Keeps name per_vcl_ref p h = declared-Keeps "struct vmod_priv *" name _ p h
    param-Keeps name per_vcl_mut p h = h
    param-Keeps name fetch_filters_param p h = h
    param-Keeps name delivery_filters_param p h = h
    param-Keeps name (value i) p h =
        declared-Keeps (to_c_type i.ty_info) name (c_type (to_c_type i.ty_info)) _
          (flag-Keeps (is_optional i.kind) name p h)

    module _ (parses : String → Bool) where
      params-Keeps :
          (params : List (ParamTypeInfo N)) (p : FuncProcessor)
          → Keeps p
          → Made Keeps (do_params parses to_string info shared params p)
      unfolding do_params do_fn_param
      params-Keeps [] p h = h
      params-Keeps (a ∷ rest) p h =
          Made-and_then Keeps Keeps _ (do_params parses to_string info shared rest)
            (Made-if Keeps (parses_again parses shared a.ty) _ (param-Keeps a.ident a.ty p h))
            (params-Keeps rest)

      per_vcl-Keeps :
          (used : Bool) (p : FuncProcessor)
          → Keeps p
          → Made Keeps (per_vcl_arg to_string parses info shared used p)
      unfolding per_vcl_arg add_per_vcl plain_json
      per_vcl-Keeps true p h =
          Made-if Keeps (parses (or_unit shared.shared_per_vcl_ty)) _
            (declared-Keeps "struct vmod_priv *" "__vp" priv_mut p h)
      per_vcl-Keeps false p h = h

      pub gather-Keeps :
          (ty : String) → Made Keeps (gather to_string parses info shared (no_steps n ty))
      unfolding gather
      gather-Keeps ty =
          Made-and_then Keeps Keeps (kind_args info.func_type n.object (no_steps n ty)) _
            (kind_args-Keeps info.func_type n.object (no_steps n ty) refl)
            (λ q h.
              Made-and_then Keeps Keeps _ _
                (per_vcl-Keeps (use_shared_per_vcl info) (optional_args info.has_optional_args q)
                  (optional_args-Keeps info.has_optional_args q h))
                (params-Keeps info.args))
