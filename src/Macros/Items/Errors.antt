-- ===== src/Macros/Items/Errors.antt =====
-- A function that fails has an error to report.
use Prim.Native.String.{String}
use varnish_rs.Prelude.{◌≡◌, refl, Bool, false, Option, List, [], ◌∷◌}
use varnish_rs.Outcome.{Result, ok, err, panic}
use varnish_rs.Macros.Syntax.{Ty}
use varnish_rs.Macros.Types.{FuncType}
use varnish_rs.Macros.Output.{OutputTy, OutputResult}
use varnish_rs.Macros.Attributes.{ParamError}
use varnish_rs.Macros.Params.{SharedTypes}
use varnish_rs.Macros.Arguments.{ParamTypeInfo}
use varnish_rs.Macros.Arguments.Rules.{AllOk}
use varnish_rs.Macros.Functions.{
  FuncError, Signature, FuncAttributes, sig_returns_self, func_type_of, output_of, is_empty,
  conclude, with_args, args_of, with_output, parse_func,
}
use varnish_rs.Macros.Functions.Laws.{Accepted, parse_func_lem}

-- `P` holds of what is accepted, and what is not has an error.
abbrev pub Judged : {A : Type 0} → (A → Type 0) → Result (List FuncError) A → Type 0
Judged P (ok a) = P a
Judged P (err es) = is_empty es ≡ false
Judged P panic = Unit {0}

abbrev Any : {A : Type 0} → A → Type 0
Any a = Unit {0}

pub conclude-Judged :
    {A : Type 0} (P : A → Type 0) (es : List FuncError) (a : A)
    → (is_empty es ≡ Bool.true → P a)
    → Judged P (conclude es a)
conclude-Judged P [] a h = h refl
conclude-Judged P (e ∷ es) a h = refl

AllOk-Judged :
    {A : Type 0} (P : A → Type 0) (r : Result (List FuncError) A)
    → AllOk P r
    → Judged Any r
    → Judged P r
unfolding AllOk
AllOk-Judged P (ok a) h k = h
AllOk-Judged P (err es) h k = k
AllOk-Judged P panic h k = tt

module _ {N : Type 0} (from_str : String → Option N) (to_text : Ty → String)
    (parses : String → Bool) (sig : Signature) where
  with_args-Judged :
      (t : FuncType) (restrict : List String) (rename : Option String) (errors : List FuncError)
      (o : OutputTy) (out_result : Bool)
      (parsed : Result ParamError (List (ParamTypeInfo N) × List ParamError))
      → Judged Any
          (with_args from_str to_text parses sig t restrict rename errors o out_result parsed)
  with_args-Judged t restrict rename errors o out_result panic = tt
  with_args-Judged t restrict rename errors o out_result (err e) = refl
  with_args-Judged t restrict rename errors o out_result (ok (args, arg_errors)) =
      conclude-Judged Any _ _ (λ e. tt)

  with_output-Judged :
      (t : FuncType) (restrict : List String) (rename : Option String) (errors : List FuncError)
      (shared : SharedTypes) (r : OutputResult × Bool)
      → Judged Any (with_output from_str to_text parses sig t restrict rename errors shared r).0
  with_output-Judged t restrict rename errors shared (err e, out_result) = refl
  with_output-Judged t restrict rename errors shared (panic, out_result) = tt
  with_output-Judged t restrict rename errors shared (ok o, out_result) =
      with_args-Judged t restrict rename errors o out_result
        (args_of from_str to_text parses t shared sig.inputs).0

  pub parse_func-Judged :
      (attrs : FuncAttributes) (is_object : Bool) (shared : SharedTypes)
      → Judged
          (Accepted sig attrs is_object)
          (parse_func from_str to_text parses sig attrs is_object shared).0
  parse_func-Judged attrs is_object shared =
      AllOk-Judged (Accepted sig attrs is_object) _
        (parse_func_lem from_str to_text parses sig attrs is_object shared) fails
    where
      fails : Judged Any (parse_func from_str to_text parses sig attrs is_object shared).0
      fails =
          unfold parse_func in
          with_output-Judged (func_type_of attrs.has_event is_object (sig_returns_self sig)) _ _ _
            shared
            (output_of sig.return_type
              (func_type_of attrs.has_event is_object (sig_returns_self sig)))
