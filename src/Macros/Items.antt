-- ===== src/Macros/Items.antt =====
-- varnish-macros/src/parser.rs: `ObjInfo::parse` and `VmodInfo::parse`.
pub mod Errors
pub mod Gives
pub mod Accepted
use Prim.Native.String.{String}
use varnish_rs.Prelude.{
  Bool, true, false, ◌&&◌, Option, none, some, List, [], ◌∷◌, ◌++◌, if◌then◌else◌,
}
use varnish_rs.Outcome.{Result, ok, err, panic}
use varnish_rs.Macros.Syntax.{Ty, as_simple_ty}
use varnish_rs.Macros.Types.{FuncType}
use varnish_rs.Macros.Output.{default, is_constructor}
use varnish_rs.Macros.Types.{destructor}
use varnish_rs.Macros.Params.{SharedTypes}
use varnish_rs.Macros.Functions.{
  FuncError, trait_impl, generic_impl, not_a_simple_type, rename_on_impl, no_constructor,
  not_allowed, ItemKind, Signature, FuncAttributes, FuncInfo, parse_func, conclude, is_empty, when,
}
use varnish_rs.Macros.Modules.{ObjInfo, VmodInfo, validate}

-- A function of an `impl` block, or another item of it, which is ignored.
pub data ImplItem : Type 0 where
  impl_fn : Signature → FuncAttributes → ImplItem
  impl_other : ImplItem

-- The part of `syn::ItemImpl` that the parser looks at.
pub record ImplBlock : Type 0 where
  pub is_trait : Bool
  pub has_generics : Bool
  pub has_rename : Bool
  pub self_ty : Ty
  pub items : List ImplItem

pub data Item : Type 0 where
  fn_item : Signature → FuncAttributes → Item
  impl_item : ImplBlock → Item
  use_item : Item
  refused : ItemKind → Item

-- What is gathered from the items of a block, and from those of a module.
pub record Methods (N : Type 0) : Type 0 where
  pub constructors : List (FuncInfo N)
  pub methods : List (FuncInfo N)
  pub errors : List FuncError

pub record Gathered (N : Type 0) : Type 0 where
  pub funcs : List (FuncInfo N)
  pub objects : List (ObjInfo N)
  pub errors : List FuncError

-- Only one error for the head of a block.
abbrev pub head_errors : ImplBlock → Option String → List FuncError
head_errors b none =
    if b.is_trait
    then trait_impl ∷ []
    else if b.has_generics
    then generic_impl ∷ []
    else not_a_simple_type ∷ []
head_errors b (some ident) =
    if b.is_trait then trait_impl ∷ [] else when b.has_generics generic_impl

-- A module without a body has no items.
abbrev pub items_of : Option (List Item) → List Item
items_of none = []
items_of (some items) = items

module _ {N : Type 0} where
  abbrev pub no_methods : Methods N
  no_methods = record { constructors = []; methods = []; errors = [] }

  abbrev pub nothing : Gathered N
  nothing = record { funcs = []; objects = []; errors = [] }

  abbrev pub sorted : Bool → FuncInfo N → Methods N → Methods N
  sorted true f m = record m { constructors = f ∷ m.constructors }
  sorted false f m = record m { methods = f ∷ m.methods }

  -- `on_err`: a function that fails leaves its errors.
  abbrev pub with_method :
      Result (List FuncError) (FuncInfo N)
      → Result (List FuncError) (Methods N)
      → Result (List FuncError) (Methods N)
  with_method (ok f) (ok m) = ok (sorted (is_constructor f.func_type) f m)
  with_method (err es) (ok m) = ok (record m { errors = es ++ m.errors })
  with_method panic m = panic
  with_method _ (err es) = err es
  with_method _ panic = panic

  abbrev pub with_func :
      Result (List FuncError) (FuncInfo N)
      → Result (List FuncError) (Gathered N)
      → Result (List FuncError) (Gathered N)
  with_func (ok f) (ok g) = ok (record g { funcs = f ∷ g.funcs })
  with_func (err es) (ok g) = ok (record g { errors = es ++ g.errors })
  with_func panic g = panic
  with_func _ (err es) = err es
  with_func _ panic = panic

  abbrev pub with_object :
      Result (List FuncError) (ObjInfo N)
      → Result (List FuncError) (Gathered N)
      → Result (List FuncError) (Gathered N)
  with_object (ok o) (ok g) = ok (record g { objects = o ∷ g.objects })
  with_object (err es) (ok g) = ok (record g { errors = es ++ g.errors })
  with_object panic g = panic
  with_object _ (err es) = err es
  with_object _ panic = panic

  abbrev pub with_error :
      FuncError → Result (List FuncError) (Gathered N) → Result (List FuncError) (Gathered N)
  with_error e (ok g) = ok (record g { errors = e ∷ g.errors })
  with_error e (err es) = err es
  with_error e panic = panic

  abbrev pub fini : FuncInfo N
  fini = record {
    func_type = destructor;
    ident = "_fini";
    vcl_name = none;
    has_optional_args = false;
    args = [];
    output_ty = default;
    out_result = false;
    restrict = [];
  }

  -- `expect` on the name of the object, which is needed only where there is no error.
  abbrev pub object_named :
      List FuncError → Option String → Methods N → Result (List FuncError) (ObjInfo N)
  object_named (e ∷ es) ident m = err (e ∷ es)
  object_named [] none m = panic
  object_named [] (some ident) m = ok (record {
    obj_ident = ident;
    constructors = m.constructors;
    destructor_func = fini;
    obj_funcs = m.methods;
  })

  abbrev pub object_of :
      ImplBlock
      → Option String
      → Result (List FuncError) (Methods N)
      → Result (List FuncError) (ObjInfo N)
  object_of b ident (ok m) =
      object_named
        (head_errors b ident
          ++ when b.has_rename rename_on_impl
          ++ m.errors
          ++ when (is_empty m.constructors) no_constructor)
        ident m
  object_of b ident (err es) = err es
  object_of b ident panic = panic

  unfoldable pub module_of :
      Result (List FuncError) (Gathered N) → Result (List FuncError) (VmodInfo N)
  unfolding validate
  module_of (ok g) =
      let info : VmodInfo N = record { funcs = g.funcs; objects = g.objects } in
      conclude (validate info g.errors) info
  module_of (err es) = err es
  module_of panic = panic

module _ {N : Type 0} (from_str : String → Option N) (to_text : Ty → String)
    (parses : String → Bool) where
  unfoldable pub parse_methods :
      List ImplItem → SharedTypes → Result (List FuncError) (Methods N) × SharedTypes
  parse_methods [] shared = (ok no_methods, shared)
  parse_methods (impl_other ∷ rest) shared = parse_methods rest shared
  parse_methods (impl_fn sig attrs ∷ rest) shared =
      let (f, s) = parse_func from_str to_text parses sig attrs true shared in
      let (more, u) = parse_methods rest s in (with_method f more, u)

  unfoldable pub parse_obj :
      ImplBlock → SharedTypes → Result (List FuncError) (ObjInfo N) × SharedTypes
  unfolding as_simple_ty
  parse_obj b shared =
      let (m, s) = parse_methods b.items shared in (object_of b (as_simple_ty b.self_ty) m, s)

  unfoldable pub parse_items :
      List Item → SharedTypes → Result (List FuncError) (Gathered N) × SharedTypes
  parse_items [] shared = (ok nothing, shared)
  parse_items (fn_item sig attrs ∷ rest) shared =
      let (f, s) = parse_func from_str to_text parses sig attrs false shared in
      let (more, u) = parse_items rest s in (with_func f more, u)
  parse_items (impl_item b ∷ rest) shared =
      let (o, s) = parse_obj b shared in
      let (more, u) = parse_items rest s in (with_object o more, u)
  parse_items (use_item ∷ rest) shared = parse_items rest shared
  parse_items (refused kind ∷ rest) shared =
      let (more, u) = parse_items rest shared in (with_error (not_allowed kind) more, u)

  unfoldable pub parse_module : Option (List Item) → Result (List FuncError) (VmodInfo N)
  unfolding module_of
  parse_module content =
      module_of
        (parse_items (items_of content)
          (record { shared_per_task_ty = none; shared_per_vcl_ty = none })).0
