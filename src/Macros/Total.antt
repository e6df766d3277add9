-- ===== src/Macros/Total.antt =====
-- Results of the generator that are there: `Total P o` says that `o` is no panic, and `P` of its value.
use varnish_rs.Prelude.{◌≡◌, Bool, true, false, Option, none, some, if◌then◌else◌}
use varnish_rs.Macros.Syntax.{and_then}

abbrev pub Total : {A : Type 0} → (A → Type 0) → Option A → Type 0
Total P none = ⊥
Total P (some a) = P a

pub Total-if :
    {A : Type 0} (P : A → Type 0) (b : Bool) (a : A)
    → b ≡ true
    → P a
    → Total P (if b then some a else none)
Total-if P true a e h = h
Total-if P false a e h = cc

pub Total-and_then :
    {A B : Type 0} (P : A → Type 0) (Q : B → Type 0) (o : Option A) (f : A → Option B)
    → Total P o
    → ((a : A) → P a → Total Q (f a))
    → Total Q (and_then o f)
Total-and_then P Q none f h k = elim h [ ]
Total-and_then P Q (some a) f h k = k a h

-- What follows from the step that made a value.
abbrev pub Made : {A : Type 0} → (A → Type 0) → Option A → Type 0
Made P none = Unit {0}
Made P (some a) = P a

pub Made-and_then :
    {A B : Type 0} (P : A → Type 0) (Q : B → Type 0) (o : Option A) (f : A → Option B)
    → Made P o
    → ((a : A) → P a → Made Q (f a))
    → Made Q (and_then o f)
Made-and_then P Q none f h k = tt
Made-and_then P Q (some a) f h k = k a h

pub Made-if :
    {A : Type 0} (P : A → Type 0) (b : Bool) (a : A) → P a → Made P (if b then some a else none)
Made-if P true a h = h
Made-if P false a h = tt

pub Total-Made :
    {A : Type 0} (P Q : A → Type 0) (o : Option A) → Total P o → Made Q o → Total (λ a. P a × Q a) o
Total-Made P Q none h k = h
Total-Made P Q (some a) h k = (h, k)

pub Total-both :
    {A : Type 0} (P Q : A → Type 0) (o : Option A)
    → Total P o
    → Total Q o
    → Total (λ a. P a × Q a) o
Total-both P Q none h k = h
Total-both P Q (some a) h k = (h, k)
