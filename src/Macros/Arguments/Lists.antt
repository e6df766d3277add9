-- ===== src/Macros/Arguments/Lists.antt =====
-- The parameters that the parser makes of a whole list of arguments.
use Prim.Native.String.{String}
use mathlib.Core.Path.{subst}
use varnish_rs.Prelude.{Bool, ℕ, ◌+◌, ◌≡◌, refl, Option, List, [], ◌∷◌}
use varnish_rs.Outcome.{Result, ok, err, panic}
use varnish_rs.Macros.Syntax.{Ty}
use varnish_rs.Macros.Types.{FuncType, ParamTy}
use varnish_rs.Macros.Attributes.{Attribute, AttributeMeta, ParamError, default_of}
use varnish_rs.Macros.Params.{Parsing, SharedTypes, new_status}
use varnish_rs.Macros.Arguments.{FnArg, ParamTypeInfo, parse_arg, parse_args, add_arg}
use varnish_rs.Macros.Arguments.Rules.{AllOk, Holds, Yields}
use varnish_rs.Macros.Arguments.Fits.{Fits, GivesDefault, default_of-GivesDefault}
use varnish_rs.Macros.Arguments.Accepted.{parse_arg-Fits}

abbrev pub AllFit : {N : Type 0} → FuncType → List (ParamTypeInfo N) → Type 0
AllFit t [] = Unit {0}
AllFit t (p ∷ ps) = Fits t p.ty × AllFit t ps

module _ {N : Type 0} (from_str : String → Option N) (to_text : Ty → String)
    (parses : String → Bool) (t : FuncType) where
  abbrev pub ParamsFit : List (ParamTypeInfo N) × List ParamError → Type 0
  ParamsFit r = AllFit t r.0

  add_arg-Fits :
      (o : Result ParamError (ParamTypeInfo N)) (s : Parsing)
      (rest : Result ParamError (List (ParamTypeInfo N) × List ParamError) × Parsing)
      → s.status.func_type ≡ t
      → AllOk (λ p. Fits t p.ty) o
      → Holds t ParamsFit rest
      → Holds t ParamsFit (add_arg from_str to_text parses o s rest)
  unfolding AllOk
  add_arg-Fits panic s rest h p q = (h, tt)
  add_arg-Fits (err e) s (ok (params, errors), u) h p q = q
  add_arg-Fits (ok a) s (ok (params, errors), u) h p (k, q) = (k, (p, q))
  add_arg-Fits (err e) s (err f, u) h p q = q
  add_arg-Fits (ok a) s (err f, u) h p q = q
  add_arg-Fits (err e) s (panic, u) h p q = q
  add_arg-Fits (ok a) s (panic, u) h p q = q

  pub parse_args-Fits :
      (idx : ℕ) (args : List FnArg)
      → Yields t ParamsFit (parse_args from_str to_text parses idx args)
  unfolding AllOk parse_args
  parse_args-Fits idx [] s h = (h, tt)
  parse_args-Fits idx (arg ∷ args) s h =
      let first = parse_arg from_str to_text parses idx arg s in
      let (kept, fits) = parse_arg-Fits from_str to_text parses t idx arg s h in
      add_arg-Fits first.0 first.1 (parse_args from_str to_text parses (idx + 1) args first.1) kept
        fits (parse_args-Fits (idx + 1) args first.1 kept)

-- For a function of any kind and any list of arguments, every parameter that the parser accepts is
-- one that this kind of function may have, is optional if its type must be, is required only if
-- its type allows it, and has a type whose C name is its VCC name behind "VCL_". A text, a Boolean
-- or a number is the default only of a type of texts, of Booleans or of numbers; an attribute gives
-- a default only as a list of one literal, which is a string for a text, an integer for `i64`, a
-- float for `f64` or a Boolean for `bool`, and the default is the value of that literal.
pub parse_args_lem :
    {N : Type 0} (from_str : String → Option N) (to_text : Ty → String) (parses : String → Bool)
    (t : FuncType) (shared : SharedTypes) (attrs : List Attribute) (args : List FnArg)
    (params : List (ParamTypeInfo N)) (errors : List ParamError)
    → (parse_args from_str to_text parses 0 args
        (record { status = new_status t; shared = shared; attrs = attrs })).0
      ≡ ok (params, errors)
    → AllFit t params
      × ((ty : ParamTy) (m : AttributeMeta)
          → AllOk (GivesDefault from_str ty m) (default_of from_str ty m))
unfolding AllOk
parse_args_lem from_str to_text parses t shared attrs args params errors e = (
  subst (AllOk (λ r. AllFit t r.0)) e
      (parse_args-Fits from_str to_text parses t 0 args
        (record { status = new_status t; shared = shared; attrs = attrs }) refl).1,
  default_of-GivesDefault from_str,
)
