-- ===== src/Macros/Wrappers/Agreement.antt =====
-- The prototype of a function says what the signature of its wrapper says.
use Prim.Native.String.{String, ◌++◌ as cat}
use mathlib.Core.Path.{subst}
use mathlib.Core.List.{append_assoc}
use varnish_rs.Prelude.{
  ◌≡◌, refl, sym, ap, ◌∙◌, Bool, true, false, ◌||◌, List, [], ◌∷◌, ◌++◌, if◌then◌else◌,
}
use varnish_rs.Macros.Types.{to_c_type}
use varnish_rs.Macros.Total.{Total, Total-if, Total-and_then}
use varnish_rs.Macros.Attributes.{Value}
use varnish_rs.Macros.Params.{
  SharedTypes, ParamType, context, workspace, self_type, event_param, name_param, per_task_mut,
  per_task_ref, per_task_ref_cell, per_vcl_ref, per_vcl_mut, fetch_filters_param,
  delivery_filters_param, value,
}
use varnish_rs.Macros.Arguments.{ParamTypeInfo}
use varnish_rs.Macros.Functions.{FuncInfo, is_optional, is_optional_value, any_optional}
use varnish_rs.Macros.Names.{struct_name_of}
use varnish_rs.Macros.Wrappers.{
  WrapTy, ctx_ptr, name_ptr, priv_mut, priv_const, event_kind, valid_flag, obj_place, obj_ptr,
  args_ptr, c_type, ArgDecl, FuncProcessor, decl, field_text, has_signature, add_decl, add_text,
  add_field_text, add_wrapper_arg, add_cproto_arg, add_flag, valid_name, declare_value, add_value,
  add_param, add_priv, plain_json, parses_again, or_unit, do_fn_param, do_params,
}
use varnish_rs.Macros.Wrappers.Scopes.{||-second}
use varnish_rs.Macros.Wrappers.Prototype.{per_vcl_arg, add_per_vcl}

-- The C type of an argument, in a module.
abbrev pub c_text : String → WrapTy → String
c_text m ctx_ptr = "VRT_CTX"
c_text m name_ptr = "const char *"
c_text m priv_mut = "struct vmod_priv *"
c_text m priv_const = "struct vmod_priv *"
c_text m event_kind = "enum vcl_event_e"
c_text m valid_flag = "char"
c_text m (obj_place obj) = cat (struct_name_of m obj) " **"
c_text m (obj_ptr obj) = cat (struct_name_of m obj) " *"
c_text m (args_ptr ty) = cat "struct " (cat ty " *")
c_text m (c_type ty) = ty

abbrev pub type_texts : String → List ArgDecl → List String
type_texts m [] = []
type_texts m (d ∷ ds) = c_text m d.ty ∷ type_texts m ds

abbrev pub field_texts : String → List ArgDecl → List String
field_texts m [] = []
field_texts m (d ∷ ds) = field_text (c_text m d.ty) d.name ∷ field_texts m ds

pub type_texts-snoc :
    (m : String) (ds : List ArgDecl) (d : ArgDecl)
    → type_texts m (ds ++ d ∷ []) ≡ type_texts m ds ++ c_text m d.ty ∷ []
type_texts-snoc m [] d = refl
type_texts-snoc m (x ∷ ds) d = ap (λ r. c_text m x.ty ∷ r) (type_texts-snoc m ds d)

field_texts-snoc :
    (m : String) (ds : List ArgDecl) (d : ArgDecl)
    → field_texts m (ds ++ d ∷ []) ≡ field_texts m ds ++ field_text (c_text m d.ty) d.name ∷ []
field_texts-snoc m [] d = refl
field_texts-snoc m (x ∷ ds) d =
    ap (λ r. field_text (c_text m x.ty) x.name ∷ r) (field_texts-snoc m ds d)

-- The types of the prototype, whether the arguments are in a struct.
abbrev pub listed : Bool → FuncProcessor → List String
listed b p =
    p.cproto_fn_arg_decl
    ++ (if b then cat "struct " (cat p.opt_args_ty_name " *") ∷ [] else p.cproto_wrapper_args)

abbrev pub Agrees : Bool → FuncProcessor → Type 0
Agrees b p =
    (type_texts p.names.module_name p.wrap_fn_arg_decl ≡ listed b p)
    × (field_texts p.names.module_name p.opt_args_arg_decl ≡ p.cproto_opt_arg_decl)

-- An argument that is declared and published in the prototype.
published-Agrees :
    (b : Bool) (name ctype : String) (ty : WrapTy) (p : FuncProcessor)
    → c_text p.names.module_name ty ≡ ctype
    → Agrees b p
    → Agrees b (add_text b ctype name (add_decl true b (decl name ty) p))
published-Agrees true name ctype ty p e (h, k) =
    let m = p.names.module_name in
    (
      h,
      field_texts-snoc m p.opt_args_arg_decl (decl name ty)
          ∙ ap (λ (l : List String). l ++ field_text (c_text m ty) name ∷ []) k
          ∙ ap (λ (c : String). p.cproto_opt_arg_decl ++ field_text c name ∷ []) e,
    )
published-Agrees false name ctype ty p e (h, k) =
    let m = p.names.module_name in
    (
      type_texts-snoc m p.wrap_fn_arg_decl (decl name ty)
          ∙ ap (λ (l : List String). l ++ c_text m ty ∷ []) h
          ∙ append_assoc p.cproto_fn_arg_decl p.cproto_wrapper_args (c_text m ty ∷ [])
          ∙ ap (λ (c : String). p.cproto_fn_arg_decl ++ (p.cproto_wrapper_args ++ c ∷ [])) e,
      k,
    )

flag-Agrees :
    (b : Bool) (name : String) (p : FuncProcessor)
    → b ≡ true
    → Agrees b p
    → Agrees b (add_field_text "char" name (add_decl true b (decl name valid_flag) p))
flag-Agrees true name p e h = published-Agrees true name "char" valid_flag p refl h
flag-Agrees false name p e h = cc

-- An optional value needs that the arguments are in a struct.
abbrev pub InStruct : {N : Type 0} → Bool → ParamType N → Type 0
InStruct b (value i) = is_optional i.kind ≡ true → b ≡ true
InStruct b _ = Unit {0}

abbrev pub AllInStruct : {N : Type 0} → Bool → List (ParamTypeInfo N) → Type 0
AllInStruct b [] = Unit {0}
AllInStruct b (a ∷ rest) = InStruct b a.ty × AllInStruct b rest

optional_value-InStruct :
    {N : Type 0} (b : Bool) (ty : ParamType N)
    → (is_optional_value ty ≡ true → b ≡ true)
    → InStruct b ty
optional_value-InStruct b (value i) h = h
optional_value-InStruct b (context is_mut) h = tt
optional_value-InStruct b (workspace is_mut) h = tt
optional_value-InStruct b self_type h = tt
optional_value-InStruct b event_param h = tt
optional_value-InStruct b (name_param i) h = tt
optional_value-InStruct b per_task_mut h = tt
optional_value-InStruct b per_task_ref h = tt
optional_value-InStruct b per_task_ref_cell h = tt
optional_value-InStruct b per_vcl_ref h = tt
optional_value-InStruct b per_vcl_mut h = tt
optional_value-InStruct b fetch_filters_param h = tt
optional_value-InStruct b delivery_filters_param h = tt

pub any_optional-AllInStruct :
    {N : Type 0} (b : Bool) (args : List (ParamTypeInfo N))
    → (any_optional args ≡ true → b ≡ true)
    → AllInStruct b args
any_optional-AllInStruct b [] h = tt
any_optional-AllInStruct b (a ∷ rest) h = (
  optional_value-InStruct b a.ty (λ e. h (ap (λ c. c || any_optional rest) e)),
  any_optional-AllInStruct b rest
      (λ e. h (||-second (is_optional_value a.ty) (any_optional rest) e)),
)

pub parses_again-true :
    {N : Type 0} (parses : String → Bool) (shared : SharedTypes) (ty : ParamType N)
    → parses (or_unit shared.shared_per_task_ty) ≡ true
    → parses_again parses shared ty ≡ true
parses_again-true parses shared (context is_mut) e = refl
parses_again-true parses shared (workspace is_mut) e = refl
parses_again-true parses shared self_type e = refl
parses_again-true parses shared event_param e = refl
parses_again-true parses shared (name_param i) e = refl
parses_again-true parses shared per_task_mut e = refl
parses_again-true parses shared per_task_ref e = refl
parses_again-true parses shared per_task_ref_cell e = e
parses_again-true parses shared per_vcl_ref e = refl
parses_again-true parses shared per_vcl_mut e = refl
parses_again-true parses shared fetch_filters_param e = refl
parses_again-true parses shared delivery_filters_param e = refl
parses_again-true parses shared (value i) e = refl

module _ {N : Type 0} (to_string : Value N → String) (info : FuncInfo N) (shared : SharedTypes)
    (callable : has_signature info.func_type ≡ true) where
  abbrev b : Bool
  b = info.has_optional_args

  add_wrapper_arg_lem :
      (d : ArgDecl) (p : FuncProcessor) → add_wrapper_arg info d p ≡ add_decl true b d p
  add_wrapper_arg_lem d p = ap (λ s. add_decl s b d p) callable

  declared-Agrees :
      (name ctype : String) (ty : WrapTy) (p : FuncProcessor)
      → c_text p.names.module_name ty ≡ ctype
      → Agrees b p
      → Agrees b (add_cproto_arg info ctype name (add_wrapper_arg info (decl name ty) p))
  declared-Agrees name ctype ty p e h =
      subst (λ q. Agrees b (add_text b ctype name q)) (sym (add_wrapper_arg_lem (decl name ty) p))
        (published-Agrees b name ctype ty p e h)

  flagged-Agrees :
      (opt : Bool) (name : String) (p : FuncProcessor)
      → (opt ≡ true → b ≡ true)
      → Agrees b p
      → Agrees b (add_flag info opt name p)
  flagged-Agrees true name p e h =
      subst (λ q. Agrees b (add_field_text "char" (valid_name name) q))
        (sym (add_wrapper_arg_lem (decl (valid_name name) valid_flag) p))
        (flag-Agrees b (valid_name name) p (e refl) h)
  flagged-Agrees false name p e h = h

  param-Agrees :
      (name : String) (ty : ParamType N) (p : FuncProcessor)
      → InStruct b ty
      → Agrees b p
      → Agrees b (add_param to_string info shared name ty p)
  unfolding add_param add_value add_priv plain_json declare_value
  param-Agrees name (context is_mut) p s h = h
  param-Agrees name (workspace is_mut) p s h = h
  param-Agrees name self_type p s h = h
  param-Agrees name event_param p s h = h
  param-Agrees name (name_param i) p s h = h
  param-Agrees name per_task_mut p s h = declared-Agrees name "struct vmod_priv *" priv_mut p refl h
  param-Agrees name per_task_ref p s h =
      declared-Agrees name "struct vmod_priv *" priv_const p refl h
  param-Agrees name per_task_ref_cell p s h =
      declared-Agrees name "struct vmod_priv *" priv_mut p refl h
  param-Agrees name per_vcl_ref p s h =
      declared-Agrees name "struct vmod_priv *" priv_const p refl h
  param-Agrees name per_vcl_mut p s h = h
  param-Agrees name fetch_filters_param p s h = h
  param-Agrees name delivery_filters_param p s h = h
  param-Agrees name (value i) p s h =
      declared-Agrees name (to_c_type i.ty_info) (c_type (to_c_type i.ty_info))
        (add_flag info (is_optional i.kind) name p) refl
        (flagged-Agrees (is_optional i.kind) name p s h)

  module _ (parses : String → Bool) where
    pub params-Agrees :
        (params : List (ParamTypeInfo N)) (p : FuncProcessor)
        → parses (or_unit shared.shared_per_task_ty) ≡ true
        → AllInStruct b params
        → Agrees b p
        → Total (Agrees b) (do_params parses to_string info shared params p)
    unfolding do_params do_fn_param
    params-Agrees [] p e s h = h
    params-Agrees (a ∷ rest) p e (s, t) h =
        Total-and_then (Agrees b) (Agrees b) _ (do_params parses to_string info shared rest)
          (Total-if (Agrees b) (parses_again parses shared a.ty)
            (add_param to_string info shared a.ident a.ty p)
            (parses_again-true parses shared a.ty e) (param-Agrees a.ident a.ty p s h))
          (λ q. params-Agrees rest q e t)

    pub per_vcl-Agrees :
        (used : Bool) (p : FuncProcessor)
        → parses (or_unit shared.shared_per_vcl_ty) ≡ true
        → Agrees b p
        → Total (Agrees b) (per_vcl_arg to_string parses info shared used p)
    unfolding per_vcl_arg add_per_vcl plain_json
    per_vcl-Agrees true p e h =
        Total-if (Agrees b) (parses (or_unit shared.shared_per_vcl_ty))
          (add_per_vcl to_string parses info shared p) e
          (declared-Agrees "__vp" "struct vmod_priv *" priv_mut p refl h)
    per_vcl-Agrees false p e h = h
