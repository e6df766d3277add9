-- ===== src/Macros/Types.antt =====
-- varnish-macros/src/model.rs: the kinds of functions, parameters and results, and their names in
-- VCL and in C. varnish-macros/src/parser_args.rs: which Rust type is which parameter type.
use Prim.Native.String.{String, ◌++◌, slice, len}
use text.Mathlib.Text.{◌==◌ as str_eq, starts_with}
use varnish_rs.Prelude.{◌≡◌, refl, Bool, true, false, Option, none, some, if◌then◌else◌}
use varnish_rs.Macros.Syntax.{
  Ty, and_then, as_simple_ty, as_one_gen_arg, as_ref_ty, as_slice_ty, as_option_type,
  GenericArgument, of_type, lifetime, of_other,
}

pub data FuncType : Type 0 where
  function constructor destructor method event : FuncType

pub data ParamTy : Type 0 where
  acl bool backend_ref blob duration f64 i64 system_time probe probe_cow : ParamTy
  socket_addr str c_str sub : ParamTy
  vcl_type : String → ParamTy

unfoldable pub func_vcc_type : FuncType → String
func_vcc_type function = "$FUNC"
func_vcc_type constructor = "$INIT"
func_vcc_type destructor = "$FINI"
func_vcc_type method = "$METHOD"
func_vcc_type event = "$EVENT"

-- `ty[4..]`
abbrev pub without_prefix : String → String
without_prefix ty = slice ty 4 (len ty)

unfoldable pub to_vcc_type : ParamTy → String
to_vcc_type acl = "ACL"
to_vcc_type bool = "BOOL"
to_vcc_type backend_ref = "BACKEND"
to_vcc_type blob = "BLOB"
to_vcc_type duration = "DURATION"
to_vcc_type f64 = "REAL"
to_vcc_type i64 = "INT"
to_vcc_type system_time = "TIME"
to_vcc_type probe = "PROBE"
to_vcc_type probe_cow = "PROBE"
to_vcc_type socket_addr = "IP"
to_vcc_type str = "STRING"
to_vcc_type c_str = "STRING"
to_vcc_type sub = "SUB"
to_vcc_type (vcl_type ty) = without_prefix ty

unfoldable pub to_c_type : ParamTy → String
to_c_type acl = "VCL_ACL"
to_c_type bool = "VCL_BOOL"
to_c_type backend_ref = "VCL_BACKEND"
to_c_type blob = "VCL_BLOB"
to_c_type duration = "VCL_DURATION"
to_c_type f64 = "VCL_REAL"
to_c_type i64 = "VCL_INT"
to_c_type system_time = "VCL_TIME"
to_c_type probe = "VCL_PROBE"
to_c_type probe_cow = "VCL_PROBE"
to_c_type socket_addr = "VCL_IP"
to_c_type str = "VCL_STRING"
to_c_type c_str = "VCL_STRING"
to_c_type sub = "VCL_SUB"
to_c_type (vcl_type ty) = ty

unfoldable pub must_be_optional : ParamTy → Bool
must_be_optional backend_ref = true
must_be_optional probe = true
must_be_optional probe_cow = true
must_be_optional socket_addr = true
must_be_optional _ = false

unfoldable pub use_try_from : ParamTy → Bool
use_try_from str = true
use_try_from _ = false

-- The arms on a simple type.
unfoldable pub from_ident : String → Option ParamTy
from_ident ident =
    if str_eq ident "Acl"
    then some acl
    else if str_eq ident "bool"
    then some bool
    else if str_eq ident "BackendRef"
    then some backend_ref
    else if str_eq ident "Duration"
    then some duration
    else if str_eq ident "f64"
    then some f64
    else if str_eq ident "i64"
    then some i64
    else if str_eq ident "SystemTime"
    then some system_time
    else if str_eq ident "Probe"
    then some probe
    else if str_eq ident "SocketAddr"
    then some socket_addr
    else if str_eq ident "VCL_ACL"
    then some (vcl_type "VCL_ACL")
    else if str_eq ident "VCL_BACKEND"
    then some (vcl_type "VCL_BACKEND")
    else if str_eq ident "VCL_BLOB"
    then some (vcl_type "VCL_BLOB")
    else if str_eq ident "VCL_SUB"
    then some (vcl_type "VCL_SUB")
    else if str_eq ident "Subroutine"
    then some sub
    else none

abbrev cow_probe : Option GenericArgument → Option ParamTy
cow_probe (some lifetime) = some probe_cow
cow_probe _ = none

abbrev text_ref : String → Option ParamTy
text_ref ident =
    if str_eq ident "str" then some str else if str_eq ident "CStr" then some c_str else none

abbrev byte_slice : String → Option ParamTy
byte_slice ident = if str_eq ident "u8" then some blob else none

-- The first of two answers.
abbrev pub or_else {ℓ} : {A : Type ℓ} → Option A → Option A → Option A
or_else (some a) o = some a
or_else none o = o

unfoldable pub try_parse : Ty → Option ParamTy
try_parse ty = or_else (and_then (as_simple_ty ty) from_ident) (
    or_else (cow_probe (as_one_gen_arg ty "CowProbe")) (
      or_else (and_then (and_then (as_ref_ty ty) as_simple_ty) text_ref)
        (and_then (and_then (and_then (as_ref_ty ty) as_slice_ty) as_simple_ty) byte_slice)))

unfoldable pub try_parse_or_optional : Ty → Option (Bool × ParamTy)
try_parse_or_optional ty = elim (and_then (as_option_type ty) try_parse) [
  | some t ↦ some (true, t)
  | none ↦ and_then (try_parse ty) (λ t. some (false, t))
]

-- The C name is the VCC name behind "VCL_", and the VCC name is not that of private data.
abbrev pub NamesAgree : ParamTy → Type 0
NamesAgree t =
    (to_c_type t ≡ "VCL_" ++ to_vcc_type t) × (starts_with (to_vcc_type t) "PRIV_" ≡ false)

unfoldable pub All {ℓ κ} : {A : Type ℓ} → (A → Type κ) → Option A → Type κ
All P none = Unit
All P (some a) = P a

module _ {ℓ κ} {A : Type ℓ} where
  pub All-none : (P : A → Type κ) → All P none
  unfolding All
  All-none P = tt

  pub All-some : (P : A → Type κ) (a : A) → P a → All P (some a)
  unfolding All
  All-some P a p = p

  pub All-if :
      (P : A → Type κ) (b : Bool) (x y : Option A) → All P x → All P y → All P (if b then x else y)
  All-if P true x y p q = p
  All-if P false x y p q = q

  -- A guarded answer.
  pub All-guard :
      (P : A → Type κ) (b : Bool) (a : A) → (b ≡ true → P a) → All P (if b then some a else none)
  unfolding All
  All-guard P true a p = p refl
  All-guard P false a p = tt

  pub All-and_then {μ} :
      (P : A → Type κ) {B : Type μ} (o : Option B) (f : B → Option A)
      → ((b : B) → All P (f b))
      → All P (and_then o f)
  All-and_then P none f p = All-none P
  All-and_then P (some b) f p = p b

  -- As `All-and_then`, with what is known of the first answer.
  pub All-through {μ ν} :
      (P : A → Type κ) {B : Type μ} (Q : B → Type ν) (o : Option B) (f : B → Option A)
      → All Q o
      → ((b : B) → Q b → All P (f b))
      → All P (and_then o f)
  unfolding All
  All-through P Q none f q p = tt
  All-through P Q (some b) f q p = p b q

  pub All-or_else : (P : A → Type κ) (x y : Option A) → All P x → All P y → All P (or_else x y)
  All-or_else P none y p q = q
  All-or_else P (some a) y p q = p

-- One arm, where the names agree by computation, and the arms behind it.
arm :
    (b : Bool) (t : ParamTy) (rest : Option ParamTy)
    → NamesAgree t
    → All NamesAgree rest
    → All NamesAgree (if b then some t else rest)
arm b t rest agree others = All-if NamesAgree b _ _ (All-some NamesAgree t agree) others

from_ident-NamesAgree : (ident : String) → All NamesAgree (from_ident ident)
unfolding from_ident to_c_type to_vcc_type
from_ident-NamesAgree ident =
    (arm (str_eq ident "Acl") acl _ (refl, refl)
      (arm (str_eq ident "bool") bool _ (refl, refl)
        (arm (str_eq ident "BackendRef") backend_ref _ (refl, refl)
          (arm (str_eq ident "Duration") duration _ (refl, refl)
            (arm (str_eq ident "f64") f64 _ (refl, refl)
              (arm (str_eq ident "i64") i64 _ (refl, refl)
                (arm (str_eq ident "SystemTime") system_time _ (refl, refl)
                  (arm (str_eq ident "Probe") probe _ (refl, refl)
                    (arm (str_eq ident "SocketAddr") socket_addr _ (refl, refl)
                      (arm (str_eq ident "VCL_ACL") (vcl_type "VCL_ACL") _ (refl, refl)
                        (arm (str_eq ident "VCL_BACKEND") (vcl_type "VCL_BACKEND") _ (refl, refl)
                          (arm (str_eq ident "VCL_BLOB") (vcl_type "VCL_BLOB") _ (refl, refl)
                            (arm (str_eq ident "VCL_SUB") (vcl_type "VCL_SUB") _ (refl, refl)
                              (arm (str_eq ident "Subroutine") sub _ (refl, refl)
                                (All-none NamesAgree)))))))))))))))

cow_probe-NamesAgree : (a : Option GenericArgument) → All NamesAgree (cow_probe a)
unfolding All to_c_type to_vcc_type
cow_probe-NamesAgree none = tt
cow_probe-NamesAgree (some (of_type t)) = tt
cow_probe-NamesAgree (some lifetime) = (refl, refl)
cow_probe-NamesAgree (some of_other) = tt

text_ref-NamesAgree : (ident : String) → All NamesAgree (text_ref ident)
unfolding to_c_type to_vcc_type
text_ref-NamesAgree ident =
    arm (str_eq ident "str") str _ (refl, refl)
      (arm (str_eq ident "CStr") c_str _ (refl, refl) (All-none NamesAgree))

byte_slice-NamesAgree : (ident : String) → All NamesAgree (byte_slice ident)
unfolding to_c_type to_vcc_type
byte_slice-NamesAgree ident = arm (str_eq ident "u8") blob _ (refl, refl) (All-none NamesAgree)

-- The C name of every parameter type that the parser makes is its VCC name behind "VCL_", and its
-- VCC name does not start with "PRIV_".
pub try_parse-NamesAgree : (ty : Ty) → All NamesAgree (try_parse ty)
unfolding try_parse
try_parse-NamesAgree ty =
    let simple = as_simple_ty ty in
    let text = and_then (as_ref_ty ty) as_simple_ty in
    let bytes = and_then (and_then (as_ref_ty ty) as_slice_ty) as_simple_ty in
    All-or_else NamesAgree (and_then simple from_ident) _
      (All-and_then NamesAgree simple from_ident from_ident-NamesAgree)
      (All-or_else NamesAgree (cow_probe (as_one_gen_arg ty "CowProbe")) _
        (cow_probe-NamesAgree (as_one_gen_arg ty "CowProbe"))
        (All-or_else NamesAgree (and_then text text_ref) (and_then bytes byte_slice)
          (All-and_then NamesAgree text text_ref text_ref-NamesAgree)
          (All-and_then NamesAgree bytes byte_slice byte_slice-NamesAgree)))

pub try_parse_or_optional-NamesAgree :
    (ty : Ty) → All (λ r. NamesAgree (r.1)) (try_parse_or_optional ty)
unfolding try_parse_or_optional All
try_parse_or_optional-NamesAgree ty =
    in_option (and_then (as_option_type ty) try_parse)
      (All-and_then NamesAgree (as_option_type ty) try_parse try_parse-NamesAgree)
  where
    Both : Bool × ParamTy → Type 0
    Both r = NamesAgree (r.1)

    in_option :
        (o : Option ParamTy)
        → All NamesAgree o
        → All Both (elim o [
          | some t ↦ some (true, t)
          | none ↦ and_then (try_parse ty) (λ t. some (false, t))
        ])
    in_option (some t) h = h
    in_option none h =
        All-through Both NamesAgree (try_parse ty) (λ t. some (false, t)) (try_parse-NamesAgree ty)
          (λ t agree. All-some Both (false, t) agree)
