-- ===== src/Macros/Arguments/Fits.antt =====
-- Each parameter that is accepted fits the kind of its function, and its default fits its type.
use Prim.Native.String.{String}
use varnish_rs.Prelude.{
  ◌≡◌, refl, Bool, true, false, ◌||◌, Option, none, some, List, if◌then◌else◌, [], ◌∷◌, arith,
}
use varnish_rs.Outcome.{Result, ok, err, panic}
use varnish_rs.Macros.Types.{FuncType, ParamTy, must_be_optional, NamesAgree}
use varnish_rs.Macros.Output.{is_event, is_constructor}
use varnish_rs.Macros.Attributes.{
  Attribute, Lit, str_lit, c_str_lit, int_lit, float_lit, bool_lit, other_lit, AttributeMeta,
  meta_path, meta_list, name_value, Value, null, string_value, flag_number, number, ParamError,
  is_text, is_i64, is_f64, is_bool, default_value, default_of, required_of, expected_number,
  expected_text, remove_attr, literal, nested_meta, default_at, required_at, get_arg_opts,
  get_required_attr,
}
use varnish_rs.Macros.Params.{
  ParamKind, regular, optional, required, ParamType, context, workspace, self_type, event_param,
  name_param, per_task_mut, per_task_ref, per_task_ref_cell, per_vcl_ref, per_vcl_mut,
  fetch_filters_param, delivery_filters_param, value, constructor_or_event, function_or_method,
}
use varnish_rs.Macros.Arguments.{is_method}
use varnish_rs.Macros.Arguments.Rules.{AllOk}

-- A parameter without `Option` is of a type that need not have it; a required one is of a type
-- that may be null.
abbrev pub KindFits : ParamKind → ParamTy → Type 0
KindFits regular ty = must_be_optional ty ≡ false
KindFits optional ty = Unit {0}
KindFits required ty = (must_be_optional ty || is_text ty) ≡ true

-- A default is a text for a string, a number for an integer or float, 0 or 1 for a Boolean.
abbrev pub DefaultFits : {N : Type 0} → ParamTy → Value N → Type 0
DefaultFits ty null = Unit {0}
DefaultFits ty (string_value s) = is_text ty ≡ true
DefaultFits ty (flag_number b) = is_bool ty ≡ true
DefaultFits ty (number n) = (is_i64 ty || is_f64 ty) ≡ true

abbrev pub Fits : {N : Type 0} → FuncType → ParamType N → Type 0
Fits t (context is_mut) = Unit {0}
Fits t (workspace is_mut) = Unit {0}
Fits t self_type = is_method t ≡ true
Fits t event_param = is_event t ≡ true
Fits t (name_param i) = (is_constructor t ≡ true) × (is_text i.ty_info ≡ true)
Fits t per_task_mut = is_event t ≡ false
Fits t per_task_ref = is_event t ≡ false
Fits t per_task_ref_cell = is_event t ≡ false
Fits t per_vcl_ref = function_or_method t ≡ true
Fits t per_vcl_mut = constructor_or_event t ≡ true
Fits t fetch_filters_param = constructor_or_event t ≡ true
Fits t delivery_filters_param = constructor_or_event t ≡ true
Fits t (value i) =
    (is_event t ≡ false)
    × KindFits i.kind i.ty_info
    × DefaultFits i.ty_info i.default
    × NamesAgree i.ty_info

||-left : (a b : Bool) → a ≡ true → (a || b) ≡ true
||-left true b h = refl
||-left false b h = ground (arith, h)

||-right : (a b : Bool) → b ≡ true → (a || b) ≡ true
||-right true b h = refl
||-right false b h = h

module _ {N : Type 0} (from_str : String → Option N) where
  AllOk-guarded :
      (Q : Value N → Type 0) (b : Bool) (r : Result ParamError (Value N)) (e : ParamError)
      → (b ≡ true → AllOk Q r)
      → AllOk Q (if b then r else err e)
  unfolding AllOk
  AllOk-guarded Q true r e p = p refl
  AllOk-guarded Q false r e p = tt

  expected_number-Fits :
      (ty : ParamTy) (o : Option N)
      → (is_i64 ty || is_f64 ty) ≡ true
      → AllOk (DefaultFits ty) (expected_number from_str o)
  unfolding AllOk
  expected_number-Fits ty none h = tt
  expected_number-Fits ty (some n) h = h

  expected_text-Fits :
      (ty : ParamTy) (o : Option String)
      → is_text ty ≡ true
      → AllOk (DefaultFits ty) (expected_text from_str o)
  unfolding AllOk
  expected_text-Fits ty none h = tt
  expected_text-Fits ty (some v) h = h

  default_value-Fits :
      (ty : ParamTy) (lit : Lit) → AllOk (DefaultFits ty) (default_value from_str ty lit)
  unfolding AllOk default_value
  default_value-Fits ty (str_lit v) = AllOk-guarded (DefaultFits ty) (is_text ty) _ _ (λ h. h)
  default_value-Fits ty (c_str_lit v) =
      AllOk-guarded (DefaultFits ty) (is_text ty) _ _ (expected_text-Fits ty v)
  default_value-Fits ty (int_lit v) =
      AllOk-guarded (DefaultFits ty) (is_i64 ty) _ _
        (λ h. expected_number-Fits ty (from_str v) (||-left (is_i64 ty) (is_f64 ty) h))
  default_value-Fits ty (float_lit v) =
      AllOk-guarded (DefaultFits ty) (is_f64 ty) _ _
        (λ h. expected_number-Fits ty (from_str v) (||-right (is_i64 ty) (is_f64 ty) h))
  default_value-Fits ty (bool_lit v) = AllOk-guarded (DefaultFits ty) (is_bool ty) _ _ (λ h. h)
  default_value-Fits ty other_lit = tt

  default_of-Fits :
      (ty : ParamTy) (m : AttributeMeta) → AllOk (DefaultFits ty) (default_of from_str ty m)
  unfolding AllOk default_of
  default_of-Fits ty (meta_path b) = tt
  default_of-Fits ty name_value = tt
  default_of-Fits ty (meta_list none) = tt
  default_of-Fits ty (meta_list (some [])) = tt
  default_of-Fits ty (meta_list (some (literal lit ∷ []))) = default_value-Fits ty lit
  default_of-Fits ty (meta_list (some (literal lit ∷ _ ∷ _))) = tt
  default_of-Fits ty (meta_list (some (nested_meta ∷ _))) = tt

  default_at-Fits :
      (ty : ParamTy) (a : Option Attribute) → AllOk (DefaultFits ty) (default_at from_str ty a)
  unfolding AllOk
  default_at-Fits ty none = tt
  default_at-Fits ty (some a) = default_of-Fits ty a.meta

  pub get_arg_opts-Fits :
      (ty : ParamTy) (attrs : List Attribute)
      → AllOk (DefaultFits ty) (get_arg_opts from_str ty attrs).0
  unfolding get_arg_opts
  get_arg_opts-Fits ty attrs = default_at-Fits ty (remove_attr "default" attrs).0

-- The type of a parameter that a literal can be the default of.
abbrev pub LitFits : ParamTy → Lit → Type 0
LitFits ty (str_lit v) = is_text ty ≡ true
LitFits ty (c_str_lit v) = is_text ty ≡ true
LitFits ty (int_lit v) = is_i64 ty ≡ true
LitFits ty (float_lit v) = is_f64 ty ≡ true
LitFits ty (bool_lit v) = is_bool ty ≡ true
LitFits ty other_lit = ⊥

-- The value of a literal.
abbrev pub ValueOf : {N : Type 0} → (String → Option N) → Lit → Value N → Type 0
ValueOf from_str (str_lit v) r = r ≡ string_value v
ValueOf from_str (c_str_lit v) r = (s : String) × (v ≡ some s) × (r ≡ string_value s)
ValueOf {N = N} from_str (int_lit v) r = (n : N) × (from_str v ≡ some n) × (r ≡ number n)
ValueOf {N = N} from_str (float_lit v) r = (n : N) × (from_str v ≡ some n) × (r ≡ number n)
ValueOf from_str (bool_lit v) r = r ≡ flag_number v
ValueOf from_str other_lit r = ⊥

-- The attribute is a list of one literal, of the type of the parameter, and the value is its value.
abbrev pub GivesDefault :
    {N : Type 0} → (String → Option N) → ParamTy → AttributeMeta → Value N → Type 0
GivesDefault from_str ty m r =
    (lit : Lit) × (m ≡ meta_list (some (literal lit ∷ [])))
    × LitFits ty lit
    × ValueOf from_str lit r

module _ {N : Type 0} (from_str : String → Option N) where
  number_of :
      (P : Type 0) (o : Option N)
      → P
      → AllOk (λ r. P × ((n : N) × (o ≡ some n) × (r ≡ number n))) (expected_number from_str o)
  unfolding AllOk
  number_of P none p = tt
  number_of P (some n) p = (p, (n, refl, refl))

  text_of :
      (P : Type 0) (o : Option String)
      → P
      → AllOk
          (λ r. P × ((s : String) × (o ≡ some s) × (r ≡ string_value s)))
          (expected_text from_str o)
  unfolding AllOk
  text_of P none p = tt
  text_of P (some s) p = (p, (s, refl, refl))

  default_value-LitFits :
      (ty : ParamTy) (lit : Lit)
      → AllOk (λ r. LitFits ty lit × ValueOf from_str lit r) (default_value from_str ty lit)
  unfolding AllOk default_value
  default_value-LitFits ty (str_lit v) = AllOk-guarded from_str _ (is_text ty) _ _ (λ h. (h, refl))
  default_value-LitFits ty (c_str_lit v) =
      AllOk-guarded from_str _ (is_text ty) _ _ (λ h. text_of _ v h)
  default_value-LitFits ty (int_lit v) =
      AllOk-guarded from_str _ (is_i64 ty) _ _ (λ h. number_of _ (from_str v) h)
  default_value-LitFits ty (float_lit v) =
      AllOk-guarded from_str _ (is_f64 ty) _ _ (λ h. number_of _ (from_str v) h)
  default_value-LitFits ty (bool_lit v) = AllOk-guarded from_str _ (is_bool ty) _ _ (λ h. (h, refl))
  default_value-LitFits ty other_lit = tt

  AllOk-map :
      {A : Type 0} (P Q : A → Type 0) (r : Result ParamError A)
      → ((a : A) → P a → Q a)
      → AllOk P r
      → AllOk Q r
  unfolding AllOk
  AllOk-map P Q (ok a) k h = k a h
  AllOk-map P Q (err e) k h = tt
  AllOk-map P Q panic k h = tt

  pub default_of-GivesDefault :
      (ty : ParamTy) (m : AttributeMeta)
      → AllOk (GivesDefault from_str ty m) (default_of from_str ty m)
  unfolding AllOk default_of
  default_of-GivesDefault ty (meta_path b) = tt
  default_of-GivesDefault ty name_value = tt
  default_of-GivesDefault ty (meta_list none) = tt
  default_of-GivesDefault ty (meta_list (some [])) = tt
  default_of-GivesDefault ty (meta_list (some (literal lit ∷ []))) =
      AllOk-map (λ r. LitFits ty lit × ValueOf from_str lit r)
        (GivesDefault from_str ty (meta_list (some (literal lit ∷ []))))
        (default_value from_str ty lit) (λ r (h, v). (lit, refl, h, v))
        (default_value-LitFits ty lit)
  default_of-GivesDefault ty (meta_list (some (literal lit ∷ _ ∷ _))) = tt
  default_of-GivesDefault ty (meta_list (some (nested_meta ∷ _))) = tt

required_of-ok : (m : AttributeMeta) → AllOk (λ b. Unit {0}) (required_of m)
unfolding AllOk
required_of-ok (meta_path true) = tt
required_of-ok (meta_path false) = tt
required_of-ok (meta_list _) = tt
required_of-ok name_value = tt

required_at-ok : (a : Option Attribute) → AllOk (λ b. Unit {0}) (required_at a)
unfolding AllOk
required_at-ok none = tt
required_at-ok (some a) = required_of-ok a.meta

pub get_required_attr-ok :
    (attrs : List Attribute) → AllOk (λ b. Unit {0}) (get_required_attr attrs).0
unfolding get_required_attr
get_required_attr-ok attrs = required_at-ok (remove_attr "required" attrs).0
