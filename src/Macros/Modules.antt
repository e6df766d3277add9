-- ===== src/Macros/Modules.antt =====
-- varnish-macros/src/parser.rs and varnish-macros/src/model.rs: a whole module and its validation.
pub mod Validity
use Prim.Native.String.{String}
use varnish_rs.Prelude.{
  ℕ, ◌+◌, Bool, true, false, ◌&&◌, Option, none, some, List, [], ◌∷◌, ◌++◌, if◌then◌else◌, ltb,
  ◌==◌,
}
use varnish_rs.Macros.Output.{is_event}
use varnish_rs.Macros.Params.{ParamType, per_vcl_mut, per_vcl_ref}
use varnish_rs.Macros.Arguments.{ParamTypeInfo}
use varnish_rs.Macros.Functions.{
  FuncInfo, FuncError, two_events, nothing_found, shared_not_initialized, collision, contains,
  is_empty, when,
}

pub record ObjInfo (N : Type 0) : Type 0 where
  pub obj_ident : String
  pub constructors : List (FuncInfo N)
  pub destructor_func : FuncInfo N
  pub obj_funcs : List (FuncInfo N)

pub record VmodInfo (N : Type 0) : Type 0 where
  pub funcs : List (FuncInfo N)
  pub objects : List (ObjInfo N)

abbrev name_or : Option String → String → String
name_or none ident = ident
name_or (some name) ident = name

abbrev pub count_if : {A : Type 0} → (A → Bool) → List A → ℕ
count_if test [] = 0
count_if test (x ∷ xs) = (if test x then 1 else 0) + count_if test xs

-- `seen_vcl_names` holds the names met so far.
abbrev pub collisions : List String → List String → List FuncError
collisions seen [] = []
collisions seen (name ∷ names) =
    when (contains seen name) (collision name) ++ collisions (name ∷ seen) names

module _ {N : Type 0} where
  unfoldable pub vcl_ident : FuncInfo N → String
  vcl_ident f = name_or f.vcl_name f.ident

  abbrev pub vcl_idents : List (FuncInfo N) → List String
  unfolding vcl_ident
  vcl_idents [] = []
  vcl_idents (f ∷ fs) = vcl_ident f ∷ vcl_idents fs

  abbrev funcs_of : List (ObjInfo N) → List (FuncInfo N)
  funcs_of [] = []
  funcs_of (o ∷ os) = (o.constructors ++ o.obj_funcs ++ o.destructor_func ∷ []) ++ funcs_of os

  unfoldable pub iter_all_funcs : VmodInfo N → List (FuncInfo N)
  iter_all_funcs info = info.funcs ++ funcs_of info.objects

  abbrev pub constructors_of : List (ObjInfo N) → List (FuncInfo N)
  constructors_of [] = []
  constructors_of (o ∷ os) = o.constructors ++ constructors_of os

  unfoldable pub count_funcs : (FuncInfo N → Bool) → VmodInfo N → ℕ
  count_funcs test info = count_if test (iter_all_funcs info)

  abbrev count_args_of : (ParamTypeInfo N → Bool) → List (FuncInfo N) → ℕ
  count_args_of test [] = 0
  count_args_of test (f ∷ fs) = count_if test f.args + count_args_of test fs

  unfoldable pub count_args : (ParamTypeInfo N → Bool) → VmodInfo N → ℕ
  count_args test info = count_args_of test (iter_all_funcs info)

  abbrev pub is_per_vcl_mut : ParamTypeInfo N → Bool
  is_per_vcl_mut p = elim p.ty [ per_vcl_mut ↦ true | _ ↦ false ]

  abbrev pub is_per_vcl_ref : ParamTypeInfo N → Bool
  is_per_vcl_ref p = elim p.ty [ per_vcl_ref ↦ true | _ ↦ false ]

  unfoldable pub validate : VmodInfo N → List FuncError → List FuncError
  validate info errors =
      let found =
        errors
        ++ when (ltb 1 (count_funcs (λ f. is_event f.func_type) info)) two_events
        ++ collisions [] (vcl_idents info.funcs ++ vcl_idents (constructors_of info.objects))
        ++ when (ltb 0 (count_args is_per_vcl_ref info) && (count_args is_per_vcl_mut info == 0))
            shared_not_initialized in
      found ++ when (is_empty info.funcs && (is_empty info.objects && is_empty found)) nothing_found
