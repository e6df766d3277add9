-- ===== src/Macros/Items/Gives.antt =====
-- What items give, with the errors that are gathered.
use Prim.Native.String.{String}
use varnish_rs.Prelude.{
  ◌≡◌, refl, Bool, true, false, Option, none, some, List, [], ◌∷◌, ◌++◌, if◌then◌else◌,
}
use varnish_rs.Outcome.{Result, ok, err, panic}
use varnish_rs.Macros.Syntax.{as_simple_ty}
use varnish_rs.Macros.Output.{is_constructor}
use varnish_rs.Macros.Functions.{
  FuncError, trait_impl, generic_impl, not_a_simple_type, rename_on_impl, no_constructor,
  not_allowed, ItemKind, Signature, FuncAttributes, FuncInfo, is_empty, when,
}
use varnish_rs.Macros.Functions.Laws.{Accepted, Empty, append-Empty, when-false}
use varnish_rs.Macros.Modules.{ObjInfo}
use varnish_rs.Macros.Items.Errors.{Judged}
use varnish_rs.Macros.Items.{
  ImplItem, impl_fn, impl_other, ImplBlock, Item, fn_item, impl_item, use_item, refused, Methods,
  Gathered, sorted, with_method, with_func, with_object, with_error, head_errors, object_named,
  object_of,
}

-- The functions of a block give the constructors and the methods, in their order.
pub data MethodsGive {N : Type 0}
    : List ImplItem → List (FuncInfo N) → List (FuncInfo N) → Type 0 where
  no_items : MethodsGive [] [] []
  ignored :
      {items : List ImplItem} {cs ms : List (FuncInfo N)}
      → MethodsGive items cs ms
      → MethodsGive (impl_other ∷ items) cs ms
  makes_constructor :
      {sig : Signature} {attrs : FuncAttributes} {f : FuncInfo N} {items : List ImplItem}
      {cs ms : List (FuncInfo N)}
      → Accepted sig attrs true f
      → is_constructor f.func_type ≡ true
      → MethodsGive items cs ms
      → MethodsGive (impl_fn sig attrs ∷ items) (f ∷ cs) ms
  makes_method :
      {sig : Signature} {attrs : FuncAttributes} {f : FuncInfo N} {items : List ImplItem}
      {cs ms : List (FuncInfo N)}
      → Accepted sig attrs true f
      → is_constructor f.func_type ≡ false
      → MethodsGive items cs ms
      → MethodsGive (impl_fn sig attrs ∷ items) cs (f ∷ ms)

-- An accepted block is no `impl` of a trait, has no generics and no other name, is for a simple
-- type, and has a constructor.
abbrev pub ObjectFrom : {N : Type 0} → ImplBlock → ObjInfo N → Type 0
ObjectFrom b o =
    (b.is_trait ≡ false)
    × (b.has_generics ≡ false)
    × (b.has_rename ≡ false)
    × (as_simple_ty b.self_ty ≡ some o.obj_ident)
    × MethodsGive b.items o.constructors o.obj_funcs
    × (is_empty o.constructors ≡ false)

-- The items of a module give its functions and its objects, in their order.
pub data ItemsGive {N : Type 0} : List Item → List (FuncInfo N) → List (ObjInfo N) → Type 0 where
  no_more : ItemsGive [] [] []
  makes_func :
      {sig : Signature} {attrs : FuncAttributes} {f : FuncInfo N} {items : List Item}
      {fs : List (FuncInfo N)} {os : List (ObjInfo N)}
      → Accepted sig attrs false f
      → ItemsGive items fs os
      → ItemsGive (fn_item sig attrs ∷ items) (f ∷ fs) os
  makes_object :
      {b : ImplBlock} {o : ObjInfo N} {items : List Item} {fs : List (FuncInfo N)}
      {os : List (ObjInfo N)}
      → ObjectFrom b o
      → ItemsGive items fs os
      → ItemsGive (impl_item b ∷ items) fs (o ∷ os)
  uses :
      {items : List Item} {fs : List (FuncInfo N)} {os : List (ObjInfo N)}
      → ItemsGive items fs os
      → ItemsGive (use_item ∷ items) fs os

-- Where no error was gathered.
abbrev pub MethodsFrom : {N : Type 0} → List ImplItem → Methods N → Type 0
MethodsFrom items m = Empty m.errors → MethodsGive items m.constructors m.methods

abbrev pub GatheredFrom : {N : Type 0} → List Item → Gathered N → Type 0
GatheredFrom items g = Empty g.errors → ItemsGive items g.funcs g.objects

-- Errors that are added are not none.
some_errors : {X : Type 0} (es more : List FuncError) → is_empty es ≡ false → Empty (es ++ more) → X
some_errors es more e nil = let (none_there, _) = append-Empty es more nil in cc

head_errors-none :
    (is_trait has_generics : Bool)
    → Empty (if is_trait then trait_impl ∷ [] else when has_generics generic_impl)
    → (is_trait ≡ false) × (has_generics ≡ false)
head_errors-none true g e = cc
head_errors-none false g e = (refl, when-false g generic_impl e)

nameless :
    (is_trait has_generics : Bool)
    → Empty (
        if is_trait
        then trait_impl ∷ []
        else if has_generics
        then generic_impl ∷ []
        else not_a_simple_type ∷ [])
    → ⊥
nameless true g e = cc
nameless false true e = cc
nameless false false e = cc

module _ {N : Type 0} where
  pub with_method-From :
      (sig : Signature) (attrs : FuncAttributes) (items : List ImplItem)
      (r : Result (List FuncError) (FuncInfo N)) (more : Result (List FuncError) (Methods N))
      → Judged (Accepted sig attrs true) r
      → Judged (MethodsFrom items) more
      → Judged (MethodsFrom (impl_fn sig attrs ∷ items)) (with_method r more)
  with_method-From sig attrs items (ok f) (ok m) a h = by_kind (is_constructor f.func_type) refl
    where
      by_kind :
          (b : Bool)
          → is_constructor f.func_type ≡ b
          → MethodsFrom (impl_fn sig attrs ∷ items) (sorted b f m)
      by_kind true e nil = makes_constructor a e (h nil)
      by_kind false e nil = makes_method a e (h nil)
  with_method-From sig attrs items (err es) (ok m) a h = λ nil. some_errors es m.errors a nil
  with_method-From sig attrs items panic more a h = tt
  with_method-From sig attrs items (ok f) (err es) a h = h
  with_method-From sig attrs items (err f) (err es) a h = h
  with_method-From sig attrs items (ok f) panic a h = tt
  with_method-From sig attrs items (err f) panic a h = tt

  pub with_func-From :
      (sig : Signature) (attrs : FuncAttributes) (items : List Item)
      (r : Result (List FuncError) (FuncInfo N)) (more : Result (List FuncError) (Gathered N))
      → Judged (Accepted sig attrs false) r
      → Judged (GatheredFrom items) more
      → Judged (GatheredFrom (fn_item sig attrs ∷ items)) (with_func r more)
  with_func-From sig attrs items (ok f) (ok g) a h = λ nil. makes_func a (h nil)
  with_func-From sig attrs items (err es) (ok g) a h = λ nil. some_errors es g.errors a nil
  with_func-From sig attrs items panic more a h = tt
  with_func-From sig attrs items (ok f) (err es) a h = h
  with_func-From sig attrs items (err f) (err es) a h = h
  with_func-From sig attrs items (ok f) panic a h = tt
  with_func-From sig attrs items (err f) panic a h = tt

  pub with_object-From :
      (b : ImplBlock) (items : List Item) (r : Result (List FuncError) (ObjInfo N))
      (more : Result (List FuncError) (Gathered N))
      → Judged (ObjectFrom b) r
      → Judged (GatheredFrom items) more
      → Judged (GatheredFrom (impl_item b ∷ items)) (with_object r more)
  with_object-From b items (ok o) (ok g) a h = λ nil. makes_object a (h nil)
  with_object-From b items (err es) (ok g) a h = λ nil. some_errors es g.errors a nil
  with_object-From b items panic more a h = tt
  with_object-From b items (ok o) (err es) a h = h
  with_object-From b items (err f) (err es) a h = h
  with_object-From b items (ok o) panic a h = tt
  with_object-From b items (err f) panic a h = tt

  pub with_error-From :
      (kind : ItemKind) (items : List Item) (more : Result (List FuncError) (Gathered N))
      → Judged (GatheredFrom items) more
      → Judged (GatheredFrom (refused kind ∷ items)) (with_error (not_allowed kind) more)
  with_error-From kind items (ok g) h = λ nil. some_errors (not_allowed kind ∷ []) g.errors refl nil
  with_error-From kind items (err es) h = h
  with_error-From kind items panic h = tt

  named-From :
      (b : ImplBlock) (ident : String) (m : Methods N) (es : List FuncError)
      → (Empty es → Judged (ObjectFrom b) (object_named [] (some ident) m))
      → Judged (ObjectFrom b) (object_named es (some ident) m)
  named-From b ident m [] h = h refl
  named-From b ident m (e ∷ es) h = refl

  unnamed-From :
      (b : ImplBlock) (m : Methods N) (es : List FuncError)
      → (Empty es → ⊥)
      → Judged (ObjectFrom b) (object_named es none m)
  unnamed-From b m [] h = elim (h refl) [ ]
  unnamed-From b m (e ∷ es) h = refl

  pub object_of-From :
      (b : ImplBlock) (ident : Option String) (r : Result (List FuncError) (Methods N))
      → as_simple_ty b.self_ty ≡ ident
      → Judged (MethodsFrom b.items) r
      → Judged (ObjectFrom b) (object_of b ident r)
  object_of-From b ident (err es) e h = h
  object_of-From b ident panic e h = tt
  object_of-From b none (ok m) e h =
      let renamed = when b.has_rename rename_on_impl in
      let unmade = when (is_empty m.constructors) no_constructor in
      unnamed-From b m (head_errors b none ++ renamed ++ m.errors ++ unmade) (λ nil.
        let (three, _) = append-Empty (head_errors b none ++ renamed ++ m.errors) unmade nil in
        let (two, _) = append-Empty (head_errors b none ++ renamed) m.errors three in
        let (one, _) = append-Empty (head_errors b none) renamed two in
        nameless b.is_trait b.has_generics one)
  object_of-From b (some ident) (ok m) e h =
      let renamed = when b.has_rename rename_on_impl in
      let unmade = when (is_empty m.constructors) no_constructor in
      let head = head_errors b (some ident) in
      named-From b ident m (head ++ renamed ++ m.errors ++ unmade) (λ nil.
        let (three, w) = append-Empty (head ++ renamed ++ m.errors) unmade nil in
        let (two, x) = append-Empty (head ++ renamed) m.errors three in
        let (one, y) = append-Empty head renamed two in
        let (no_trait, plain) = head_errors-none b.is_trait b.has_generics one in
        (
          no_trait,
          plain,
          when-false b.has_rename rename_on_impl y,
          e,
          h x,
          when-false (is_empty m.constructors) no_constructor w,
        ))
