-- ===== src/Macros/Wrappers/Published.antt =====
-- The arguments that the JSON publishes are those of the C prototype.
use Prim.Native.String.{String, ◌++◌ as cat}
use varnish_rs.Prelude.{
  ◌≡◌, refl, sym, ap, ◌∙◌, Bool, true, false, Option, none, some, List, [], ◌∷◌, if◌then◌else◌,
}
use varnish_rs.Macros.Types.{
  FuncType, function, constructor, destructor, method, event, to_c_type, to_vcc_type, ParamTy,
  NamesAgree,
}
use varnish_rs.Macros.Attributes.{Value, null}
use varnish_rs.Macros.Params.{
  SharedTypes, ParamType, context, workspace, self_type, event_param, name_param, per_task_mut,
  per_task_ref, per_task_ref_cell, per_vcl_ref, per_vcl_mut, fetch_filters_param,
  delivery_filters_param, value,
}
use varnish_rs.Macros.Arguments.{ParamTypeInfo}
use varnish_rs.Macros.Output.{is_event}
use varnish_rs.Macros.Arguments.Fits.{Fits}
use varnish_rs.Macros.Arguments.Lists.{AllFit}
use varnish_rs.Macros.Functions.{FuncInfo, is_optional}
use varnish_rs.Macros.Names.{Names}
use varnish_rs.Macros.Total.{Total, Total-if, Total-and_then}
use varnish_rs.Macros.Wrappers.{
  c_type, priv_mut, FuncProcessor, decl, add_json, add_wrapper_arg, add_cproto_arg, add_flag,
  arg_to_json, add_param, add_value, add_priv, plain_json, declare_value, parses_again,
  has_signature, or_unit, do_fn_param, do_params,
}
use varnish_rs.Macros.Wrappers.Prototype.{
  no_steps, kind_args, optional_args, add_per_vcl, per_vcl_arg, use_shared_per_vcl, gather,
}
use varnish_rs.Macros.Wrappers.Agreement.{parses_again-true, AllInStruct, InStruct}
use varnish_rs.Macros.Wrappers.Signatures.{HasObject}
use varnish_rs.Macros.Wrappers.Json.{
  c_of_vcc, c_sides, pick, Published, plain-Published, flagged-Published,
}

-- The C type of each value is that of its VCC name, and no parameter is the event.
abbrev pub Named : {N : Type 0} → ParamType N → Type 0
Named (value i) = c_of_vcc (to_vcc_type i.ty_info) ≡ to_c_type i.ty_info
Named event_param = ⊥
Named _ = Unit {0}

abbrev pub AllNamed : {N : Type 0} → List (ParamTypeInfo N) → Type 0
AllNamed [] = Unit {0}
AllNamed (a ∷ rest) = Named a.ty × AllNamed rest

named : (ty : ParamTy) → NamesAgree ty → c_of_vcc (to_vcc_type ty) ≡ to_c_type ty
named ty (agree, other) =
    ap (λ b. if b then "struct vmod_priv *" else cat "VCL_" (to_vcc_type ty)) other ∙ sym agree

Fits-Named :
    {N : Type 0} (t : FuncType) (ty : ParamType N) → is_event t ≡ false → Fits t ty → Named ty
Fits-Named t (context is_mut) e f = tt
Fits-Named t (workspace is_mut) e f = tt
Fits-Named t self_type e f = tt
Fits-Named t event_param e f = cc
Fits-Named t (name_param i) e f = tt
Fits-Named t per_task_mut e f = tt
Fits-Named t per_task_ref e f = tt
Fits-Named t per_task_ref_cell e f = tt
Fits-Named t per_vcl_ref e f = tt
Fits-Named t per_vcl_mut e f = tt
Fits-Named t fetch_filters_param e f = tt
Fits-Named t delivery_filters_param e f = tt
Fits-Named t (value i) e (_, _, _, agree) = named i.ty_info agree

pub fits-AllNamed :
    {N : Type 0} (t : FuncType) (args : List (ParamTypeInfo N))
    → is_event t ≡ false
    → AllFit t args
    → AllNamed args
fits-AllNamed t [] e f = tt
fits-AllNamed t (a ∷ rest) e (f, g) = (Fits-Named t a.ty e f, fits-AllNamed t rest e g)

-- Before the arguments, nothing is published.
abbrev Nothing : FuncProcessor → Type 0
Nothing p = (b : Bool) → Published b p

nothing : (b : Bool) → c_sides b [] ≡ pick b [] []
nothing true = refl
nothing false = refl

kind_args-Nothing :
    (t : FuncType) (o : Option String) (names : Names) (ty : String)
    → HasObject t o
    → Total Nothing (kind_args t o (no_steps names ty))
kind_args-Nothing function none names ty h = nothing
kind_args-Nothing function (some obj) names ty h = nothing
kind_args-Nothing constructor (some obj) names ty h = nothing
kind_args-Nothing destructor (some obj) names ty h = nothing
kind_args-Nothing method (some obj) names ty h = nothing
kind_args-Nothing event none names ty h = nothing
kind_args-Nothing event (some obj) names ty h = nothing
kind_args-Nothing constructor none names ty h = elim h [ ]
kind_args-Nothing destructor none names ty h = elim h [ ]
kind_args-Nothing method none names ty h = elim h [ ]

optional_args-Published :
    (b : Bool) (p : FuncProcessor) → Nothing p → Published b (optional_args b p)
optional_args-Published true p h = h true
optional_args-Published false p h = h false

module _ {N : Type 0} (to_string : Value N → String) (parses : String → Bool) (info : FuncInfo N)
    (shared : SharedTypes) where
  abbrev b : Bool
  b = info.has_optional_args

  abbrev s : Bool
  s = has_signature info.func_type

  param-Published :
      (name : String) (ty : ParamType N) (p : FuncProcessor)
      → Named ty
      → InStruct b ty
      → Published b p
      → Published b (add_param to_string info shared name ty p)
  unfolding add_param add_value add_priv plain_json declare_value
  param-Published name (context is_mut) p a k h = h
  param-Published name (workspace is_mut) p a k h = h
  param-Published name self_type p a k h = h
  param-Published name event_param p a k h = elim a [ ]
  param-Published name (name_param i) p a k h = h
  param-Published name per_task_mut p a k h =
      plain-Published to_string s b name "PRIV_TASK" "struct vmod_priv *" null _ p refl h
  param-Published name per_task_ref p a k h =
      plain-Published to_string s b name "PRIV_TASK" "struct vmod_priv *" null _ p refl h
  param-Published name per_task_ref_cell p a k h =
      plain-Published to_string s b name "PRIV_TASK" "struct vmod_priv *" null _ p refl h
  param-Published name per_vcl_ref p a k h =
      plain-Published to_string s b name "PRIV_VCL" "struct vmod_priv *" null _ p refl h
  param-Published name per_vcl_mut p a k h = h
  param-Published name fetch_filters_param p a k h = h
  param-Published name delivery_filters_param p a k h = h
  param-Published name (value i) p agree in_struct h = by_kind (is_optional i.kind) in_struct
    where
      by_kind :
          (opt : Bool)
          → (opt ≡ true → b ≡ true)
          → Published b (
              add_json (arg_to_json to_string name opt (to_vcc_type i.ty_info) i.default) (
                add_cproto_arg info (to_c_type i.ty_info) name (
                  add_wrapper_arg info
                    (decl name (c_type (to_c_type i.ty_info)))
                    (add_flag info opt name p))))
      by_kind true f =
          flagged-Published to_string s b name (to_vcc_type i.ty_info) (to_c_type i.ty_info)
            i.default _ p (f refl) agree h
      by_kind false f =
          plain-Published to_string s b name (to_vcc_type i.ty_info) (to_c_type i.ty_info) i.default
            _ p agree h

  params-Published :
      (params : List (ParamTypeInfo N)) (p : FuncProcessor)
      → parses (or_unit shared.shared_per_task_ty) ≡ true
      → AllNamed params
      → AllInStruct b params
      → Published b p
      → Total (Published b) (do_params parses to_string info shared params p)
  unfolding do_params do_fn_param
  params-Published [] p e a k h = h
  params-Published (x ∷ rest) p e (a, more) (k, others) h =
      Total-and_then (Published b) (Published b) _ (do_params parses to_string info shared rest)
        (Total-if (Published b) (parses_again parses shared x.ty) _
          (parses_again-true parses shared x.ty e) (param-Published x.ident x.ty p a k h))
        (λ q. params-Published rest q e more others)

  per_vcl-Published :
      (used : Bool) (p : FuncProcessor)
      → parses (or_unit shared.shared_per_vcl_ty) ≡ true
      → Published b p
      → Total (Published b) (per_vcl_arg to_string parses info shared used p)
  unfolding per_vcl_arg add_per_vcl plain_json
  per_vcl-Published true p e h =
      Total-if (Published b) (parses (or_unit shared.shared_per_vcl_ty)) _ e (
        plain-Published to_string s b "__vp" "PRIV_VCL" "struct vmod_priv *" null priv_mut p refl h)
  per_vcl-Published false p e h = h

  pub gather-Published :
      (names : Names) (ty : String)
      → HasObject info.func_type names.object
      → parses (or_unit shared.shared_per_task_ty) ≡ true
      → parses (or_unit shared.shared_per_vcl_ty) ≡ true
      → AllNamed info.args
      → AllInStruct b info.args
      → Total (Published b) (gather to_string parses info shared (no_steps names ty))
  unfolding gather
  gather-Published names ty o e f n k =
      Total-and_then Nothing (Published b)
        (kind_args info.func_type names.object (no_steps names ty)) _
        (kind_args-Nothing info.func_type names.object names ty o)
        (λ q none_yet.
          Total-and_then (Published b) (Published b) _ _
            (per_vcl-Published (use_shared_per_vcl info) (optional_args b q) f
              (optional_args-Published b q none_yet))
            (λ r h. params-Published info.args r e n k h))
