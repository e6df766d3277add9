-- ===== src/Outcome.antt =====
-- varnish-sys/src/vcl/error.rs: `VclError` and `VclResult`, and the outcome of code that may also
-- panic. What was written before an error or a panic stays written, so the state comes back
-- beside the outcome.
use varnish_rs.Prelude.{ℕ, List, Bool, if◌then◌else◌}

abbrev pub Bytes : Type 0
Bytes = List ℕ

-- The messages of the errors that the modelled code creates from a literal `c"..."`.
pub data Message : Type 0 where
  zero_bytes null_byte no_header_slot : Message

pub data VclError : Type 0 where
  string : Bytes → VclError
  c_str : Message → VclError
  ws_out_of_memory : ℕ → VclError
  utf8_error : VclError

pub data Result {ℓ} (E : Type 0) (A : Type ℓ) : Type ℓ where
  ok : A → Result E A
  err : E → Result E A
  panic : Result E A

abbrev pub Outcome {ℓ} : Type ℓ → Type ℓ
Outcome A = Result VclError A

-- A stateful operation that may fail with errors of a type, and one that may fail with a `VclError`.
abbrev pub Fallible {ℓ} : Type 0 → Type ℓ → Type ℓ → Type ℓ
Fallible E S A = S → Result E A × S

abbrev pub Exec {ℓ} : Type ℓ → Type ℓ → Type ℓ
Exec S A = S → Outcome A × S

-- Leaves the state alone.
abbrev pub answer {ℓ} : {E : Type 0} {S A : Type ℓ} → Result E A → Fallible E S A
answer o s = (o, s)

abbrev pub pure {ℓ} : {E : Type 0} {S A : Type ℓ} → A → Fallible E S A
pure a = answer (ok a)

abbrev pub fail {ℓ} : {E : Type 0} {S A : Type ℓ} → E → Fallible E S A
fail e = answer (err e)

abbrev pub panics {ℓ} : {E : Type 0} {S A : Type ℓ} → Fallible E S A
panics = answer panic

-- Reads a part of the state.
abbrev pub gets {ℓ} : {E : Type 0} {S A : Type ℓ} → (S → A) → Fallible E S A
gets part s = (ok (part s), s)

-- The operator `?`: an error or a panic ends the function in the state that it has reached.
abbrev pub and_then {ℓ} :
    {E : Type 0} {S A B : Type ℓ} → (A → Fallible E S B) → Result E A × S → Result E B × S
and_then next (ok a, s) = next a s
and_then next (err e, s) = (err e, s)
and_then next (panic, s) = (panic, s)

infixl 10 ◌>>=◌ ◌>>◌
abbrev pub ◌>>=◌ {ℓ} :
    {E : Type 0} {S A B : Type ℓ} → Fallible E S A → (A → Fallible E S B) → Fallible E S B
(first >>= next) s = and_then next (first s)

abbrev pub ◌>>◌ {ℓ} :
    {E : Type 0} {S A B : Type ℓ} → Fallible E S A → Fallible E S B → Fallible E S B
first >> second = first >>= λ _. second

-- Rust's `assert!`.
abbrev pub assert {ℓ} : {E : Type 0} {S : Type ℓ} → Bool → S → Result E (Unit {ℓ}) × S
assert b s = (if b then ok tt else panic, s)
