-- ===== src/Macros/Attributes.antt =====
-- varnish-macros/src/parser_args.rs and varnish-macros/src/parser_utils.rs: the attributes of an
-- argument.
use Prim.Native.String.{String}
use text.Mathlib.Text.{◌==◌ as str_eq}
use varnish_rs.Prelude.{
  ℕ, ◌+◌, Bool, true, false, ◌||◌, Option, none, some, List, [], ◌∷◌, if◌then◌else◌, swap_remove,
}
use varnish_rs.Outcome.{Result, ok, err, panic, Fallible}
use varnish_rs.Macros.Types.{ParamTy, str, c_str, bool, i64, f64}

-- The text of an integer or float literal is as in the source. The bytes of a C string literal may
-- not be UTF-8.
pub data Lit : Type 0 where
  str_lit : String → Lit
  c_str_lit : Option String → Lit
  int_lit : String → Lit
  float_lit : String → Lit
  bool_lit : Bool → Lit
  other_lit : Lit

pub data Nested : Type 0 where
  literal : Lit → Nested
  nested_meta : Nested

-- A path says whether its last segment has no arguments; a list has what its tokens parse to.
pub data AttributeMeta : Type 0 where
  meta_path : Bool → AttributeMeta
  meta_list : Option (List Nested) → AttributeMeta
  name_value : AttributeMeta

-- The name is the identifier that the path consists of, if it does.
pub record Attribute : Type 0 where
  pub name : Option String
  pub meta : AttributeMeta

-- The special parameters, which a function has at most once.
pub data Special : Type 0 where
  ctx_or_ws shared_per_task shared_per_vcl event_kind vcl_name : Special
  fetch_filters delivery_filters : Special

-- The errors of parsing an argument.
pub data ParamError : Type 0 where
  too_many_attributes : ParamError
  twice : Special → ParamError
  misplaced : Special → ParamError
  not_in_events : ParamError
  per_task_type vcl_name_type : ParamError
  shared_type_shape : Bool → ParamError
  not_a_ref_cell : ParamError
  shared_type_differs : String → ParamError
  not_parsed_again : String → ParamError
  unsupported : ParamError
  must_be_option : ParamError
  required_without_option required_type required_has_params : ParamError
  default_not_a_list default_not_parsed default_not_a_literal : ParamError
  default_type default_unrecognized : ParamError
  self_first self_not_allowed : ParamError
  pattern : ParamError

-- `serde_json::Value`, as far as a default value goes, over the type of a parsed number.
pub data Value (N : Type 0) : Type 0 where
  null : Value N
  string_value : String → Value N
  flag_number : Bool → Value N
  number : N → Value N

abbrev names : String → Option String → Bool
names name none = false
names name (some ident) = str_eq ident name

abbrev position_from : ℕ → String → List Attribute → Option ℕ
position_from i name [] = none
position_from i name (a ∷ attrs) =
    if names name a.name then some i else position_from (i + 1) name attrs

abbrev pub has_attr : List Attribute → String → Bool
has_attr [] name = false
has_attr (a ∷ attrs) name = names name a.name || has_attr attrs name

abbrev removed_at :
    List Attribute → Option (Attribute × List Attribute) → Option Attribute × List Attribute
removed_at attrs none = (none, attrs)
removed_at attrs (some (a, rest)) = (some a, rest)

unfoldable pub remove_attr : String → List Attribute → Option Attribute × List Attribute
remove_attr name attrs = elim (position_from 0 name attrs) [
  | none ↦ (none, attrs)
  | some idx ↦ removed_at attrs (swap_remove idx attrs)
]

-- An operation on the attributes of an argument.
abbrev pub OnAttributes : Type 0 → Type 0
OnAttributes A = Fallible ParamError (List Attribute) A

abbrev pub is_text : ParamTy → Bool
is_text str = true
is_text c_str = true
is_text _ = false

abbrev pub is_i64 : ParamTy → Bool
is_i64 i64 = true
is_i64 _ = false

abbrev pub is_f64 : ParamTy → Bool
is_f64 f64 = true
is_f64 _ = false

abbrev pub is_bool : ParamTy → Bool
is_bool bool = true
is_bool _ = false

-- `from_str` reads a number in JSON.
module _ {N : Type 0} (from_str : String → Option N) where
  abbrev pub expected_number : Option N → Result ParamError (Value N)
  expected_number none = panic
  expected_number (some n) = ok (number n)

  abbrev pub expected_text : Option String → Result ParamError (Value N)
  expected_text none = panic
  expected_text (some s) = ok (string_value s)

  unfoldable pub default_value : ParamTy → Lit → Result ParamError (Value N)
  default_value arg_type (str_lit v) =
      if is_text arg_type then ok (string_value v) else err default_type
  default_value arg_type (c_str_lit v) =
      if is_text arg_type then expected_text v else err default_type
  default_value arg_type (int_lit v) =
      if is_i64 arg_type then expected_number (from_str v) else err default_type
  default_value arg_type (float_lit v) =
      if is_f64 arg_type then expected_number (from_str v) else err default_type
  default_value arg_type (bool_lit v) =
      if is_bool arg_type then ok (flag_number v) else err default_type
  default_value arg_type other_lit = err default_unrecognized

  unfoldable pub default_of : ParamTy → AttributeMeta → Result ParamError (Value N)
  unfolding default_value
  default_of arg_type (meta_path _) = err default_not_a_list
  default_of arg_type name_value = err default_not_a_list
  default_of arg_type (meta_list none) = err default_not_parsed
  default_of arg_type (meta_list (some (literal lit ∷ []))) = default_value arg_type lit
  default_of arg_type (meta_list (some _)) = err default_not_a_literal

  abbrev pub default_at : ParamTy → Option Attribute → Result ParamError (Value N)
  default_at arg_type none = ok null
  default_at arg_type (some a) = default_of arg_type a.meta

  unfoldable pub get_arg_opts : ParamTy → OnAttributes (Value N)
  unfolding remove_attr
  get_arg_opts arg_type attrs =
      let (removed, rest) = remove_attr "default" attrs in (default_at arg_type removed, rest)

abbrev pub required_of : AttributeMeta → Result ParamError Bool
required_of (meta_path true) = ok true
required_of _ = err required_has_params

abbrev pub required_at : Option Attribute → Result ParamError Bool
required_at none = ok false
required_at (some a) = required_of a.meta

unfoldable pub get_required_attr : OnAttributes Bool
unfolding remove_attr
get_required_attr attrs =
    let (removed, rest) = remove_attr "required" attrs in (required_at removed, rest)
