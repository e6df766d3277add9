-- ===== src/Macros/Syntax.antt =====
-- varnish-macros/src/parser_utils.rs: the shapes of types that the macros recognise. The data types
-- are the part of `syn::Type` that this code looks at.
use Prim.Native.String.{String}
use text.Mathlib.Text.{◌==◌ as str_eq}
use varnish_rs.Prelude.{Bool, true, false, Option, none, some, if◌then◌else◌}

-- A path has a qualified self or not, and a leading `::` or not. A generic argument is a type, a
-- lifetime or something else.
mutual
  pub data Ty : Type 0 where
    path : Bool → Bool → Segments → Ty
    reference : Bool → Ty → Ty
    slice : Ty → Ty
    tuple : Tys → Ty
    other : Ty

  pub data Tys : Type 0 where
    none_left : Tys
    one_more : Ty → Tys → Tys

  pub data Segments : Type 0 where
    last : String → PathArguments → Segments
    segment : String → PathArguments → Segments → Segments

  pub data PathArguments : Type 0 where
    no_arguments : PathArguments
    angle_bracketed : Generics → PathArguments
    parenthesized : PathArguments

  pub data Generics : Type 0 where
    empty : Generics
    generic : GenericArgument → Generics → Generics

  pub data GenericArgument : Type 0 where
    of_type : Ty → GenericArgument
    lifetime : GenericArgument
    of_other : GenericArgument

-- `Option::and_then`
abbrev pub and_then {ℓ κ} : {A : Type ℓ} {B : Type κ} → Option A → (A → Option B) → Option B
and_then none f = none
and_then (some a) f = f a

-- `segments.last()`
abbrev pub last_segment : Segments → String × PathArguments
last_segment (last ident arguments) = (ident, arguments)
last_segment (segment _ _ rest) = last_segment rest

abbrev only_argument : PathArguments → Option GenericArgument
only_argument (angle_bracketed (generic a empty)) = some a
only_argument _ = none

unfoldable pub as_one_gen_arg : Ty → String → Option GenericArgument
as_one_gen_arg (path _ _ segments) name =
    let (ident, arguments) = last_segment segments in
    if str_eq ident name then only_argument arguments else none
as_one_gen_arg _ name = none

abbrev type_argument : GenericArgument → Option Ty
type_argument (of_type t) = some t
type_argument _ = none

unfoldable pub as_one_gen_type : Ty → String → Option Ty
unfolding as_one_gen_arg
as_one_gen_type ty name = and_then (as_one_gen_arg ty name) type_argument

unfoldable pub as_option_type : Ty → Option Ty
unfolding as_one_gen_type
as_option_type ty = as_one_gen_type ty "Option"

unfoldable pub as_box_type : Ty → Option Ty
unfolding as_one_gen_type
as_box_type ty = as_one_gen_type ty "Box"

unfoldable pub as_ref_cell_type : Ty → Option Ty
unfolding as_one_gen_type
as_ref_cell_type ty = as_one_gen_type ty "RefCell"

abbrev first_of_two : PathArguments → Option Ty
first_of_two (angle_bracketed (generic a (generic _ empty))) = type_argument a
first_of_two _ = none

unfoldable pub as_result_type : Ty → Option Ty
as_result_type (path _ _ segments) =
    let (ident, arguments) = last_segment segments in
    if str_eq ident "Result" then first_of_two arguments else none
as_result_type _ = none

unfoldable pub as_ref_ty : Ty → Option Ty
as_ref_ty (reference false elem) = some elem
as_ref_ty _ = none

unfoldable pub as_ref_mut_ty : Ty → Option Ty
as_ref_mut_ty (reference true elem) = some elem
as_ref_mut_ty _ = none

unfoldable pub as_slice_ty : Ty → Option Ty
as_slice_ty (slice elem) = some elem
as_slice_ty _ = none

-- `get_ident`: one segment with no arguments, and no leading `::`.
unfoldable pub as_simple_ty : Ty → Option String
as_simple_ty (path false false (last ident no_arguments)) = some ident
as_simple_ty _ = none
