-- ===== src/Macros/Output.antt =====
-- varnish-macros/src/model.rs and varnish-macros/src/parser_args.rs: the type that a function
-- returns.
pub mod Laws
use Prim.Native.Char.{Char, code}
use Prim.Native.String.append
use Prim.Native.String.{String, [], ◌∷◌, ◌++◌, slice, len}
use text.Mathlib.Text.{◌==◌ as str_eq, starts_with}
use varnish_rs.Prelude.{
  ℕ, ◌≡◌, refl, sym, ap, Bool, true, false, not, ◌&&◌, ◌||◌, leb, ◌==◌, Option, none, some,
  if◌then◌else◌, arith,
}
use varnish_rs.Outcome.{Result, ok, err}
use varnish_rs.Macros.Syntax.{
  Ty, tuple, none_left, path, reference, slice as slice_of, one_more, other, and_then, as_simple_ty,
  as_option_type,
}
use varnish_rs.Macros.Types.{
  FuncType, function, constructor, destructor, method, event, ParamTy, sub, blob, vcl_type, acl,
  bool, str, try_parse, to_vcc_type, to_c_type, without_prefix, or_else, All, All-if, All-and_then,
  All-or_else,
}

pub data OutputTy : Type 0 where
  default : OutputTy
  self_type : OutputTy
  param_type : ParamTy → OutputTy
  string : OutputTy
  vcl : String → OutputTy

unfoldable pub output_vcc_type : OutputTy → String
unfolding to_vcc_type
output_vcc_type default = "VOID"
output_vcc_type self_type = "VOID"
output_vcc_type (param_type ty) = to_vcc_type ty
output_vcc_type string = "STRING"
output_vcc_type (vcl ty) = without_prefix ty

unfoldable pub output_c_type : OutputTy → String
unfolding to_c_type
output_c_type default = "VCL_VOID"
output_c_type self_type = "VCL_VOID"
output_c_type (param_type ty) = to_c_type ty
output_c_type string = "VCL_STRING"
output_c_type (vcl ty) = ty

unfoldable pub requires_unsafe : OutputTy → Bool
requires_unsafe (vcl ty) = true
requires_unsafe (param_type (vcl_type ty)) = true
requires_unsafe _ = false

-- `is_ascii_uppercase(&v) || v == '_'`
abbrev upper_or_underscore : Char → Bool
upper_or_underscore c = (leb 65 (code c) && leb (code c) 90) || (code c == 95)

abbrev all_chars : (Char → Bool) → String → Bool
all_chars test [] = true
all_chars test (c ∷ s) = test c && all_chars test s

abbrev raw_vcl : String → Option OutputTy
raw_vcl ident =
    if starts_with ident "VCL_" && all_chars upper_or_underscore ident
    then some (vcl ident)
    else none

abbrev is_blob : ParamTy → Bool
is_blob blob = true
is_blob _ = false

abbrev not_blob : ParamTy → Option OutputTy
not_blob ty = if not (is_blob ty) then some (param_type ty) else none

abbrev string_or_self : String → Option OutputTy
string_or_self ident =
    if str_eq ident "String"
    then some string
    else if str_eq ident "Self"
    then some self_type
    else none

abbrev only_string : String → Option OutputTy
only_string ident = if str_eq ident "String" then some string else none

abbrev optional : Ty → Option OutputTy
unfolding try_parse
optional inner =
    or_else (and_then (as_simple_ty inner) only_string) (and_then (try_parse inner) not_blob)

abbrev unit_type : Ty → Option OutputTy
unit_type (tuple none_left) = some default
unit_type _ = none

unfoldable pub try_parse_output : Ty → Option OutputTy
unfolding try_parse
try_parse_output ty = or_else (and_then (as_simple_ty ty) raw_vcl) (
    or_else (and_then (try_parse ty) not_blob) (
      or_else (and_then (as_simple_ty ty) string_or_self)
        (or_else (and_then (as_option_type ty) optional) (unit_type ty))))

-- The failures of `OutputTy::parse`.
pub data OutputError : Type 0 where
  subroutine_in_option not_supported event_returns self_outside_constructor : OutputError

abbrev optional_subroutine : Option Ty → Bool
unfolding try_parse
optional_subroutine none = false
optional_subroutine (some inner) = elim (try_parse inner) [ some sub ↦ true | _ ↦ false ]

abbrev pub is_event : FuncType → Bool
is_event event = true
is_event _ = false

abbrev pub is_constructor : FuncType → Bool
is_constructor constructor = true
is_constructor _ = false

abbrev is_default : OutputTy → Bool
is_default default = true
is_default _ = false

abbrev is_self : OutputTy → Bool
is_self self_type = true
is_self _ = false

abbrev pub OutputResult : Type 0
OutputResult = Result OutputError OutputTy

abbrev checked : FuncType → Option OutputTy → OutputResult
checked func_type none = err not_supported
checked func_type (some ret_ty) =
    if is_event func_type && not (is_default ret_ty)
    then err event_returns
    else if not (is_constructor func_type) && is_self ret_ty
    then err self_outside_constructor
    else ok ret_ty

unfoldable pub parse_output : Ty → FuncType → OutputResult
unfolding try_parse_output
parse_output ty func_type =
    if optional_subroutine (as_option_type ty)
    then err subroutine_in_option
    else checked func_type (try_parse_output ty)
