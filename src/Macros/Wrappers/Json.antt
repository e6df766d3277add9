-- ===== src/Macros/Wrappers/Json.antt =====
-- An argument in the JSON, and what the C compiler sees of it.
use Prim.Native.String.{String, ◌++◌ as cat}
use text.Mathlib.Text.{starts_with}
use mathlib.Core.List.{append_assoc, append-nil}
use varnish_rs.Prelude.{
  ◌≡◌, refl, sym, ap, ◌∙◌, Bool, true, false, List, [], ◌∷◌, ◌++◌, if◌then◌else◌,
}
use varnish_rs.Macros.Attributes.{Value, null, string_value, flag_number, number}
use varnish_rs.Macros.Wrappers.{
  JsonCell, json_text, json_true, WrapTy, valid_flag, FuncProcessor, decl, add_decl, add_text,
  add_field_text, add_json, field_text, valid_name, arg_to_json,
}

-- The C type of an argument whose type in the JSON is the text.
abbrev pub c_of_vcc : String → String
c_of_vcc vcc = if starts_with vcc "PRIV_" then "struct vmod_priv *" else cat "VCL_" vcc

abbrev flagged : List JsonCell → Bool
flagged [] = false
flagged (json_true ∷ cells) = true
flagged (c ∷ cells) = flagged cells

abbrev flag_text : Bool → String → List String
flag_text true name = field_text "char" (valid_name name) ∷ []
flag_text false name = []

-- What the C compiler sees of a published argument: fields of the struct, or a type.
abbrev c_side : Bool → List JsonCell → List String
c_side true (json_text vcc ∷ json_text name ∷ cells) =
    flag_text (flagged cells) name ++ field_text (c_of_vcc vcc) name ∷ []
c_side false (json_text vcc ∷ cells) = c_of_vcc vcc ∷ []
c_side _ _ = []

abbrev pub c_sides : Bool → List (List JsonCell) → List String
c_sides b [] = []
c_sides b (j ∷ js) = c_side b j ++ c_sides b js

abbrev pub pick : {A : Type 0} → Bool → A → A → A
pick true a c = a
pick false a c = c

abbrev pub Published : Bool → FuncProcessor → Type 0
Published b p = c_sides b p.args_json ≡ pick b p.cproto_opt_arg_decl p.cproto_wrapper_args

c_sides-snoc :
    (b : Bool) (js : List (List JsonCell)) (j : List JsonCell)
    → c_sides b (js ++ j ∷ []) ≡ c_sides b js ++ c_side b j
c_sides-snoc b [] j = append-nil (c_side b j)
c_sides-snoc b (x ∷ js) j =
    ap (λ (l : List String). c_side b x ++ l) (c_sides-snoc b js j)
    ∙ sym (append_assoc (c_side b x) (c_sides b js) (c_side b j))

added :
    (b : Bool) (js : List (List JsonCell)) (j : List JsonCell) (l m : List String)
    → c_sides b js ≡ l
    → c_side b j ≡ m
    → c_sides b (js ++ j ∷ []) ≡ l ++ m
added b js j l m e f =
    c_sides-snoc b js j
    ∙ ap (λ (k : List String). k ++ c_side b j) e
    ∙ ap (λ (k : List String). l ++ k) f

abbrev c_entry : Bool → Bool → String → String → List String
c_entry true opt ctype name = flag_text opt name ++ field_text ctype name ∷ []
c_entry false opt ctype name = ctype ∷ []

module _ {N : Type 0} (to_string : Value N → String) where
  arg_to_json-c_side :
      (b opt : Bool) (name vcc : String) (default : Value N)
      → c_side b (arg_to_json to_string name opt vcc default) ≡ c_entry b opt (c_of_vcc vcc) name
  unfolding arg_to_json
  arg_to_json-c_side true true name vcc null = refl
  arg_to_json-c_side true true name vcc (string_value s) = refl
  arg_to_json-c_side true true name vcc (flag_number n) = refl
  arg_to_json-c_side true true name vcc (number n) = refl
  arg_to_json-c_side true false name vcc null = refl
  arg_to_json-c_side true false name vcc (string_value s) = refl
  arg_to_json-c_side true false name vcc (flag_number n) = refl
  arg_to_json-c_side true false name vcc (number n) = refl
  arg_to_json-c_side false true name vcc default = refl
  arg_to_json-c_side false false name vcc null = refl
  arg_to_json-c_side false false name vcc (string_value s) = refl
  arg_to_json-c_side false false name vcc (flag_number n) = refl
  arg_to_json-c_side false false name vcc (number n) = refl

  -- An argument that is declared, with its JSON.
  pub plain-Published :
      (s b : Bool) (name vcc ctype : String) (default : Value N) (ty : WrapTy) (p : FuncProcessor)
      → c_of_vcc vcc ≡ ctype
      → Published b p
      → Published b (
          add_json
            (arg_to_json to_string name false vcc default)
            (add_text b ctype name (add_decl s b (decl name ty) p)))
  plain-Published s true name vcc ctype default ty p e h = by_kind s
    where
      grown :
          c_sides true (p.args_json ++ arg_to_json to_string name false vcc default ∷ [])
          ≡ p.cproto_opt_arg_decl ++ field_text ctype name ∷ []
      grown = added true p.args_json _ p.cproto_opt_arg_decl (field_text ctype name ∷ []) h (
          arg_to_json-c_side true false name vcc default
          ∙ ap (λ (c : String). field_text c name ∷ []) e)

      by_kind :
          (s : Bool)
          → Published true (
              add_json
                (arg_to_json to_string name false vcc default)
                (add_text true ctype name (add_decl s true (decl name ty) p)))
      by_kind true = grown
      by_kind false = grown
  plain-Published s false name vcc ctype default ty p e h = by_kind s
    where
      grown :
          c_sides false (p.args_json ++ arg_to_json to_string name false vcc default ∷ [])
          ≡ p.cproto_wrapper_args ++ ctype ∷ []
      grown =
          added false p.args_json _ p.cproto_wrapper_args (ctype ∷ []) h
            (arg_to_json-c_side false false name vcc default ∙ ap (λ (c : String). c ∷ []) e)

      by_kind :
          (s : Bool)
          → Published false (
              add_json
                (arg_to_json to_string name false vcc default)
                (add_text false ctype name (add_decl s false (decl name ty) p)))
      by_kind true = grown
      by_kind false = grown

  -- One with a flag, in a struct.
  pub flagged-Published :
      (s b : Bool) (name vcc ctype : String) (default : Value N) (ty : WrapTy) (p : FuncProcessor)
      → b ≡ true
      → c_of_vcc vcc ≡ ctype
      → Published b p
      → Published b (
          add_json (arg_to_json to_string name true vcc default) (
            add_text b ctype name (
              add_decl s b (decl name ty) (
                add_field_text "char"
                  (valid_name name)
                  (add_decl s b (decl (valid_name name) valid_flag) p)))))
  flagged-Published s false name vcc ctype default ty p f e h = cc
  flagged-Published s true name vcc ctype default ty p f e h = by_kind s
    where
      flag : String
      flag = field_text "char" (valid_name name)

      grown :
          c_sides true (p.args_json ++ arg_to_json to_string name true vcc default ∷ [])
          ≡ (p.cproto_opt_arg_decl ++ flag ∷ []) ++ field_text ctype name ∷ []
      grown =
          added true p.args_json _ p.cproto_opt_arg_decl (flag ∷ field_text ctype name ∷ []) h (
            arg_to_json-c_side true true name vcc default
            ∙ ap (λ (c : String). flag ∷ field_text c name ∷ []) e)
          ∙ sym (append_assoc p.cproto_opt_arg_decl (flag ∷ []) (field_text ctype name ∷ []))

      by_kind :
          (s : Bool)
          → Published true (
              add_json (arg_to_json to_string name true vcc default) (
                add_text true ctype name (
                  add_decl s true (decl name ty) (
                    add_field_text "char"
                      (valid_name name)
                      (add_decl s true (decl (valid_name name) valid_flag) p)))))
      by_kind true = grown
      by_kind false = grown
