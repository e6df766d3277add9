-- ===== src/Macros/Wrappers/Callbacks.antt =====
-- What is in scope in the wrapper of a function that the parser accepts.
use Prim.Native.String.{String}
use varnish_rs.Prelude.{
  ◌≡◌, refl, ap, ◌∙◌, Bool, true, false, ◌||◌, List, [], ◌∷◌, inl, inr, ltb, arith,
}
use varnish_rs.Macros.Types.{FuncType, function, constructor, destructor, method, event}
use varnish_rs.Macros.Attributes.{Value}
use varnish_rs.Macros.Output.{is_event}
use varnish_rs.Macros.Params.{
  SharedTypes, ParamType, context, workspace, self_type, event_param, name_param, per_task_mut,
  per_task_ref, per_task_ref_cell, per_vcl_ref, per_vcl_mut, fetch_filters_param,
  delivery_filters_param, value, function_or_method,
}
use varnish_rs.Macros.Arguments.{ParamTypeInfo}
use varnish_rs.Macros.Arguments.Fits.{Fits}
use varnish_rs.Macros.Arguments.Lists.{AllFit}
use varnish_rs.Macros.Functions.{FuncInfo, is_optional_value, any_optional}
use varnish_rs.Macros.Modules.{count_if}
use varnish_rs.Macros.Wrappers.{has_signature}
use varnish_rs.Macros.Wrappers.Prototype.{keeps_vcl, keeps_vcl_value}
use varnish_rs.Macros.Wrappers.Agreement.{AllInStruct, InStruct}
use varnish_rs.Macros.Wrappers.Variables.{Placed, AllPlaced}
use varnish_rs.Macros.Wrappers.Whole.{is_destructor, HasPlace}

pub has_signature-true :
    (t : FuncType) → is_destructor t ≡ false → is_event t ≡ false → has_signature t ≡ true
has_signature-true function d e = refl
has_signature-true constructor d e = refl
has_signature-true method d e = refl
has_signature-true destructor d e = cc
has_signature-true event d e = cc

function_or_method-signature : (t : FuncType) → function_or_method t ≡ true → has_signature t ≡ true
function_or_method-signature function h = refl
function_or_method-signature method h = refl
function_or_method-signature constructor h = cc
function_or_method-signature destructor h = cc
function_or_method-signature event h = cc

Fits-Placed :
    {N : Type 0} (t : FuncType) (b v : Bool) (ty : ParamType N)
    → is_destructor t ≡ false
    → Fits t ty
    → InStruct b ty
    → (keeps_vcl_value ty ≡ true → v ≡ true)
    → Placed t b v ty
Fits-Placed t b v (context is_mut) d f s k = tt
Fits-Placed t b v (workspace is_mut) d f s k = tt
Fits-Placed t b v self_type d f s k = f
Fits-Placed t b v event_param d f s k = f
Fits-Placed t b v (name_param i) d f s k = f.0
Fits-Placed t b v per_task_mut d f s k = has_signature-true t d f
Fits-Placed t b v per_task_ref d f s k = has_signature-true t d f
Fits-Placed t b v per_task_ref_cell d f s k = has_signature-true t d f
Fits-Placed t b v per_vcl_ref d f s k = function_or_method-signature t f
Fits-Placed t b v per_vcl_mut d f s k = k refl
Fits-Placed t b v fetch_filters_param d f s k = k refl
Fits-Placed t b v delivery_filters_param d f s k = k refl
Fits-Placed t b v (value i) d f s k = (has_signature-true t d (f.0), s)

-- No parameter of an event handler is optional.
no_optional_in_event :
    {N : Type 0} (t : FuncType) (args : List (ParamTypeInfo N))
    → is_event t ≡ true
    → AllFit t args
    → any_optional args ≡ false
no_optional_in_event t [] e f = refl
no_optional_in_event t (a ∷ rest) e (f, g) =
    ap (λ c. c || any_optional rest) (not_optional a.ty f) ∙ no_optional_in_event t rest e g
  where
    not_optional : {N : Type 0} (ty : ParamType N) → Fits t ty → is_optional_value ty ≡ false
    not_optional (value i) f = cc
    not_optional (context is_mut) f = refl
    not_optional (workspace is_mut) f = refl
    not_optional self_type f = refl
    not_optional event_param f = refl
    not_optional (name_param i) f = refl
    not_optional per_task_mut f = refl
    not_optional per_task_ref f = refl
    not_optional per_task_ref_cell f = refl
    not_optional per_vcl_ref f = refl
    not_optional per_vcl_mut f = refl
    not_optional fetch_filters_param f = refl
    not_optional delivery_filters_param f = refl

pub fits-HasPlace :
    {N : Type 0} (t : FuncType) (args : List (ParamTypeInfo N))
    → is_destructor t ≡ false
    → AllFit t args
    → HasPlace t (any_optional args)
fits-HasPlace function args d f = inl refl
fits-HasPlace constructor args d f = inl refl
fits-HasPlace method args d f = inl refl
fits-HasPlace event args d f = inr (refl, no_optional_in_event event args refl f)
fits-HasPlace destructor args d f = cc

-- A parameter that keeps a value per VCL is counted.
kept-counted :
    {N : Type 0} (v : Bool) (args : List (ParamTypeInfo N)) (a : ParamTypeInfo N)
    → (ltb 0 (count_if keeps_vcl (a ∷ args)) ≡ true → v ≡ true)
    → (keeps_vcl_value a.ty ≡ true → v ≡ true) × (ltb 0 (count_if keeps_vcl args) ≡ true → v ≡ true)
kept-counted v args a h = (λ e. h (ground (arith, e)), λ e. h (ground (arith, e)))

module _ {N : Type 0} (to_string : Value N → String) (info : FuncInfo N) (shared : SharedTypes)
    (v : Bool) (d : is_destructor info.func_type ≡ false) where
  pub fits-AllPlaced :
      (args : List (ParamTypeInfo N))
      → AllFit info.func_type args
      → AllInStruct info.has_optional_args args
      → (ltb 0 (count_if keeps_vcl args) ≡ true → v ≡ true)
      → AllPlaced to_string info shared v args
  fits-AllPlaced [] f s k = tt
  fits-AllPlaced (a ∷ rest) (f, g) (s, u) k =
      let (first, more) = kept-counted v rest a k in
      (
        Fits-Placed info.func_type info.has_optional_args v a.ty d f s first,
        fits-AllPlaced rest g u more,
      )
