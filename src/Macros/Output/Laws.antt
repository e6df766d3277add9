-- ===== src/Macros/Output/Laws.antt =====
-- The rules that a parsed return type keeps.
use Prim.Native.String.{String, ◌++◌}
use text.Mathlib.Text.{◌==◌ as str_eq, starts_with}
use varnish_rs.Prelude.{
  ◌≡◌, refl, sym, ap, Bool, true, false, not, ◌&&◌, Option, none, some, if◌then◌else◌, arith,
}
use varnish_rs.Outcome.{ok, err, panic}
use varnish_rs.Macros.Syntax.{
  Ty, tuple, none_left, path, reference, slice as slice_of, one_more, other, and_then, as_simple_ty,
  as_option_type,
}
use varnish_rs.Macros.Types.{
  FuncType, ParamTy, try_parse, without_prefix, All, All-if, All-guard, All-through, All-some,
  All-and_then, All-or_else, try_parse-NamesAgree, NamesAgree,
}
use varnish_rs.Macros.Output.{
  OutputTy, self_type, param_type, string, vcl, OutputResult, subroutine_in_option, event_returns,
  self_outside_constructor, output_c_type, output_vcc_type, is_event, is_constructor, is_default,
  is_self, is_blob, not_blob, string_or_self, only_string, optional, unit_type, raw_vcl,
  upper_or_underscore, all_chars, try_parse_output, parse_output, checked, optional_subroutine,
}
use text.Mathlib.TextEquality.{starts_with_iff}
use text.Mathlib.TextPositions.{slice-append_right, len-append}
use mathlib.Core.Path.{subst}

-- Behind the text "VCL_" stands what `ty[4..]` gives.
without_prefix_lem : (s : String) → starts_with s "VCL_" ≡ true → s ≡ "VCL_" ++ without_prefix s
without_prefix_lem s h =
    let (rest, e) = (starts_with_iff s "VCL_").0 h in
    subst (λ s. s ≡ "VCL_" ++ without_prefix s) e
      (ap ("VCL_" ++◌) (sym (rw (← len-append "VCL_" rest) at (slice-append_right "VCL_" rest))))

&&-left : (a b : Bool) → (a && b) ≡ true → a ≡ true
&&-left true b h = refl
&&-left false b h = h

-- A result is not a byte slice, and its names agree.
abbrev Sound : OutputTy → Type 0
Sound (param_type ty) = (not (is_blob ty) ≡ true) × NamesAgree ty
Sound o = output_c_type o ≡ "VCL_" ++ output_vcc_type o

raw_vcl-Sound : (ident : String) → All Sound (raw_vcl ident)
unfolding output_c_type output_vcc_type
raw_vcl-Sound ident =
    All-guard Sound (starts_with ident "VCL_" && all_chars upper_or_underscore ident) (vcl ident)
      (λ h. without_prefix_lem ident (&&-left (starts_with ident "VCL_") _ h))

not_blob-Sound : (ty : ParamTy) → NamesAgree ty → All Sound (not_blob ty)
not_blob-Sound ty agree = All-guard Sound (not (is_blob ty)) (param_type ty) (λ h. (h, agree))

string_or_self-Sound : (ident : String) → All Sound (string_or_self ident)
unfolding output_c_type output_vcc_type
string_or_self-Sound ident =
    All-if Sound (str_eq ident "String") _ _ (All-some Sound string refl)
      (All-guard Sound (str_eq ident "Self") self_type (λ h. refl))

optional-Sound : (ty : Ty) → All Sound (optional ty)
unfolding optional output_c_type output_vcc_type
optional-Sound ty =
    All-or_else Sound (and_then (as_simple_ty ty) only_string) (and_then (try_parse ty) not_blob)
      (All-and_then Sound (as_simple_ty ty) only_string
        (λ ident. All-guard Sound (str_eq ident "String") string (λ h. refl)))
      (All-through Sound NamesAgree (try_parse ty) not_blob (try_parse-NamesAgree ty)
        not_blob-Sound)

unit_type-Sound : (ty : Ty) → All Sound (unit_type ty)
unfolding All output_c_type output_vcc_type
unit_type-Sound (tuple none_left) = refl
unit_type-Sound (tuple (one_more t ts)) = tt
unit_type-Sound (path _ _ _) = tt
unit_type-Sound (reference _ _) = tt
unit_type-Sound (slice_of _) = tt
unit_type-Sound other = tt

try_parse_output-Sound : (ty : Ty) → All Sound (try_parse_output ty)
unfolding try_parse_output
try_parse_output-Sound ty =
    let simple = as_simple_ty ty in
    All-or_else Sound (and_then simple raw_vcl) _ (All-and_then Sound simple raw_vcl raw_vcl-Sound)
      (All-or_else Sound (and_then (try_parse ty) not_blob) _
        (All-through Sound NamesAgree (try_parse ty) not_blob (try_parse-NamesAgree ty)
          not_blob-Sound)
        (All-or_else Sound (and_then simple string_or_self) _
          (All-and_then Sound simple string_or_self string_or_self-Sound)
          (All-or_else Sound (and_then (as_option_type ty) optional) (unit_type ty)
            (All-and_then Sound (as_option_type ty) optional optional-Sound) (unit_type-Sound ty))))

-- What a result of each kind of function may be.
abbrev pub KeepsRules : FuncType → OutputResult → Type 0
KeepsRules func_type (err e) = Unit {0}
KeepsRules func_type panic = Unit {0}
KeepsRules func_type (ok o) =
    Sound o
    × (is_event func_type ≡ true → is_default o ≡ true)
    × (is_self o ≡ true → is_constructor func_type ≡ true)

-- What the two tests leave for a result.
after_tests :
    (P : OutputResult → Type 0) (ev de co se : Bool) (o : OutputTy)
    → P (err event_returns)
    → P (err self_outside_constructor)
    → ((ev ≡ true → de ≡ true) → (se ≡ true → co ≡ true) → P (ok o))
    → P (
        if ev && not de
        then err event_returns
        else if not co && se
        then err self_outside_constructor
        else ok o)
after_tests P true false co se o p q r = p
after_tests P true true false true o p q r = q
after_tests P true true false false o p q r = r (λ h. refl) (λ h. h)
after_tests P true true true se o p q r = r (λ h. refl) (λ h. refl)
after_tests P false de false true o p q r = q
after_tests P false de false false o p q r = r (λ h. ground (arith, h)) (λ h. h)
after_tests P false de true se o p q r = r (λ h. ground (arith, h)) (λ h. refl)

rules_by_tests :
    (func_type : FuncType) (o : OutputTy)
    → Sound o
    → KeepsRules func_type (checked func_type (some o))
rules_by_tests func_type o sound =
    after_tests (KeepsRules func_type) (is_event func_type) (is_default o)
      (is_constructor func_type) (is_self o) o tt tt (λ h k. (sound, h, k))

checked-KeepsRules :
    (func_type : FuncType) (o : Option OutputTy)
    → All Sound o
    → KeepsRules func_type (checked func_type o)
unfolding All
checked-KeepsRules func_type none all = tt
checked-KeepsRules func_type (some o) sound = rules_by_tests func_type o sound

-- Whatever type a function returns, a result that is accepted is not a byte slice, an event function
-- returns nothing, only a constructor returns `Self`, and the C name of the result is its VCC name
-- behind "VCL_".
pub parse_output_lem :
    (ty : Ty) (func_type : FuncType) → KeepsRules func_type (parse_output ty func_type)
unfolding parse_output
parse_output_lem ty func_type = by_cases (optional_subroutine (as_option_type ty))
  where
    by_cases :
        (b : Bool)
        → KeepsRules func_type
            (if b then err subroutine_in_option else checked func_type (try_parse_output ty))
    by_cases true = tt
    by_cases false = checked-KeepsRules func_type (try_parse_output ty) (try_parse_output-Sound ty)
