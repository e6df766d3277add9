-- ===== src/Macros/Arguments/Rules.antt =====
-- What the steps of parsing an argument of a function of one kind guarantee of their answers.
use varnish_rs.Prelude.{◌≡◌, refl, sym, ◌∙◌, Bool, true, false, not, if◌then◌else◌}
use mathlib.Core.Path.{subst}
use varnish_rs.Outcome.{Result, ok, err, panic, pure, fail, and_then, ◌>>=◌}
use varnish_rs.Macros.Types.{FuncType}
use varnish_rs.Macros.Output.{is_event}
use varnish_rs.Macros.Attributes.{
  ParamError, twice, Special, ctx_or_ws, shared_per_task, shared_per_vcl, event_kind, vcl_name,
  fetch_filters, delivery_filters, OnAttributes,
}
use varnish_rs.Macros.Params.{
  FuncStatus, Parsing, Parser, fail_if, unique, only_in, not_in_event, kind_of_function,
  on_attributes, remove, mark, has,
}

unfoldable pub AllOk : {E A : Type 0} → (A → Type 0) → Result E A → Type 0
AllOk Q (ok a) = Q a
AllOk Q (err e) = Unit
AllOk Q panic = Unit

abbrev pub Holds : {A : Type 0} → FuncType → (A → Type 0) → Result ParamError A × Parsing → Type 0
Holds t Q o = (o.1.status.func_type ≡ t) × AllOk Q o.0

-- From a state where the function has the kind, it still has it, and an answer keeps the predicate.
abbrev pub Yields : {A : Type 0} → FuncType → (A → Type 0) → Parser A → Type 0
Yields t Q m = (s : Parsing) → s.status.func_type ≡ t → Holds t Q (m s)

module _ {A : Type 0} (t : FuncType) (Q : A → Type 0) where
  pub Yields-pure : (a : A) → Q a → Yields t Q (pure a)
  unfolding AllOk
  Yields-pure a q s h = (h, q)

  pub Yields-fail : (e : ParamError) → Yields t Q (fail e)
  unfolding AllOk
  Yields-fail e s h = (h, tt)

  pub Yields-if :
      (b : Bool) (m n : Parser A)
      → (b ≡ true → Yields t Q m)
      → (b ≡ false → Yields t Q n)
      → Yields t Q (if b then m else n)
  Yields-if true m n p q = p refl
  Yields-if false m n p q = q refl

  pub Yields-bind :
      {B : Type 0} (R : B → Type 0) (m : Parser B) (f : B → Parser A)
      → Yields t R m
      → ((b : B) → R b → Yields t Q (f b))
      → Yields t Q (m >>= f)
  unfolding AllOk
  Yields-bind {B = B} R m f p q s h = after (m s) (p s h)
    where
      after : (o : Result ParamError B × Parsing) → Holds t R o → Holds t Q (and_then f o)
      after (ok b, s') (k, r) = q b r s' k
      after (err e, s') (k, r) = (k, tt)
      after (panic, s') (k, r) = (k, tt)

pub Yields-weaken :
    {A : Type 0} (t : FuncType) (Q R : A → Type 0) (m : Parser A)
    → ((a : A) → Q a → R a)
    → Yields t Q m
    → Yields t R m
unfolding AllOk
Yields-weaken {A = A} t Q R m f p s h = ((p s h).0, weaker (m s).0 (p s h).1)
  where
    weaker : (o : Result ParamError A) → AllOk Q o → AllOk R o
    weaker (ok a) q = f a q
    weaker (err e) q = tt
    weaker panic q = tt

mark-func_type : (c : Special) (s : FuncStatus) → (mark c s).func_type ≡ s.func_type
mark-func_type ctx_or_ws s = refl
mark-func_type shared_per_task s = refl
mark-func_type shared_per_vcl s = refl
mark-func_type event_kind s = refl
mark-func_type vcl_name s = refl
mark-func_type fetch_filters s = refl
mark-func_type delivery_filters s = refl

not-true : (b : Bool) → not b ≡ false → b ≡ true
not-true true h = refl
not-true false h = sym h

module _ (t : FuncType) where
  pub fail_if-Yields : (b : Bool) (e : ParamError) → Yields t (λ u. b ≡ false) (fail_if b e)
  unfolding AllOk
  fail_if-Yields true e s h = (h, tt)
  fail_if-Yields false e s h = (h, refl)

  pub kind_of_function-Yields : Yields t (λ u. u ≡ t) kind_of_function
  unfolding AllOk
  kind_of_function-Yields s h = (h, h)

  pub unique-Yields : (c : Special) → Yields t (λ u. Unit {0}) (unique c)
  unfolding AllOk unique
  unique-Yields c s h = by_cases (has c s.status)
    where
      by_cases :
          (b : Bool)
          → Holds t
              (λ u. Unit {0})
              (if b then (err (twice c), s) else (ok tt, record s { status = mark c s.status }))
      by_cases true = (h, tt)
      by_cases false = (mark-func_type c s.status ∙ h, tt)

  pub not_in_event-Yields : (e : ParamError) → Yields t (λ u. is_event t ≡ false) (not_in_event e)
  unfolding not_in_event
  not_in_event-Yields e =
      Yields-bind t (λ u. is_event t ≡ false) (λ u. u ≡ t) kind_of_function
        (λ u. fail_if (is_event u) e) kind_of_function-Yields
        (λ u same.
          subst (λ u. Yields t (λ v. is_event t ≡ false) (fail_if (is_event u) e)) (sym same)
            (fail_if-Yields (is_event t) e))

  pub only_in-Yields :
      (allowed : FuncType → Bool) (e : ParamError)
      → Yields t (λ u. allowed t ≡ true) (only_in allowed e)
  unfolding only_in
  only_in-Yields allowed e =
      Yields-bind t (λ u. allowed t ≡ true) (λ u. u ≡ t) kind_of_function
        (λ u. fail_if (not (allowed u)) e) kind_of_function-Yields
        (λ u same.
          subst (λ u. Yields t (λ v. allowed t ≡ true) (fail_if (not (allowed u)) e)) (sym same)
            (Yields-weaken t (λ v. not (allowed t) ≡ false) (λ v. allowed t ≡ true)
              (fail_if (not (allowed t)) e) (λ v h. not-true (allowed t) h)
              (fail_if-Yields (not (allowed t)) e)))

  pub on_attributes-Yields :
      {A : Type 0} (Q : A → Type 0) (m : OnAttributes A)
      → ((attrs : _) → AllOk Q (m attrs).0)
      → Yields t Q (on_attributes m)
  on_attributes-Yields Q m p s h = (h, p s.attrs)

  pub remove-Yields : (name : _) → Yields t (λ b. Unit {0}) (remove name)
  unfolding AllOk remove
  remove-Yields name s h = (h, tt)
