-- ===== src/Macros/Items/Accepted.antt =====
-- What is known of a module that the parser accepts.
use Prim.Native.String.{String}
use varnish_rs.Prelude.{◌≤◌, ◌<◌, refl, Bool, true, false, Option, List, [], ◌∷◌, ◌++◌}
use varnish_rs.Outcome.{Result, ok, err, panic}
use varnish_rs.Macros.Syntax.{Ty, as_simple_ty}
use varnish_rs.Macros.Output.{is_event}
use varnish_rs.Macros.Params.{SharedTypes}
use varnish_rs.Macros.Functions.{FuncError, parse_func}
use varnish_rs.Macros.Modules.{
  VmodInfo, vcl_idents, constructors_of, count_funcs, count_args, is_per_vcl_mut, is_per_vcl_ref,
}
use varnish_rs.Macros.Modules.Validity.{Different, validate_lem}
use varnish_rs.Macros.Items.Errors.{Judged, conclude-Judged, parse_func-Judged}
use varnish_rs.Macros.Items.{
  ImplItem, impl_fn, impl_other, ImplBlock, Item, fn_item, impl_item, use_item, refused, Methods,
  Gathered, module_of, parse_methods, parse_obj, parse_items, items_of, parse_module,
}
use varnish_rs.Macros.Items.Gives.{
  no_items, ignored, ObjectFrom, ItemsGive, no_more, uses, MethodsFrom, GatheredFrom,
  with_method-From, with_func-From, with_object-From, with_error-From, object_of-From,
}

-- The functions and the objects of an accepted module are made of its items.
abbrev pub ModuleFrom : {N : Type 0} → List Item → VmodInfo N → Type 0
ModuleFrom items info =
    ItemsGive items info.funcs info.objects
    × (count_funcs (λ f. is_event f.func_type) info ≤ 1)
    × Different [] (vcl_idents info.funcs ++ vcl_idents (constructors_of info.objects))
    × (0 < count_args is_per_vcl_ref info → 0 < count_args is_per_vcl_mut info)

module _ {N : Type 0} (from_str : String → Option N) (to_text : Ty → String)
    (parses : String → Bool) where
  parse_methods-From :
      (items : List ImplItem) (shared : SharedTypes)
      → Judged (MethodsFrom items) (parse_methods from_str to_text parses items shared).0
  unfolding parse_methods
  parse_methods-From [] shared = λ nil. no_items
  parse_methods-From (impl_other ∷ rest) shared = ignore _ (parse_methods-From rest shared)
    where
      ignore :
          (r : Result (List FuncError) (Methods N))
          → Judged (MethodsFrom rest) r
          → Judged (MethodsFrom (impl_other ∷ rest)) r
      ignore (ok m) h = λ nil. ignored (h nil)
      ignore (err es) h = h
      ignore panic h = tt
  parse_methods-From (impl_fn sig attrs ∷ rest) shared =
      let f = parse_func from_str to_text parses sig attrs true shared in
      with_method-From sig attrs rest (f.0) _
        (parse_func-Judged from_str to_text parses sig attrs true shared)
        (parse_methods-From rest (f.1))

  parse_obj-From :
      (b : ImplBlock) (shared : SharedTypes)
      → Judged (ObjectFrom b) (parse_obj from_str to_text parses b shared).0
  unfolding parse_obj
  parse_obj-From b shared =
      object_of-From b (as_simple_ty b.self_ty) _ refl (parse_methods-From b.items shared)

  parse_items-From :
      (items : List Item) (shared : SharedTypes)
      → Judged (GatheredFrom items) (parse_items from_str to_text parses items shared).0
  unfolding parse_items
  parse_items-From [] shared = λ nil. no_more
  parse_items-From (fn_item sig attrs ∷ rest) shared =
      let f = parse_func from_str to_text parses sig attrs false shared in
      with_func-From sig attrs rest (f.0) _
        (parse_func-Judged from_str to_text parses sig attrs false shared)
        (parse_items-From rest (f.1))
  parse_items-From (impl_item b ∷ rest) shared =
      let o = parse_obj from_str to_text parses b shared in
      with_object-From b rest (o.0) _ (parse_obj-From b shared) (parse_items-From rest (o.1))
  parse_items-From (use_item ∷ rest) shared = used _ (parse_items-From rest shared)
    where
      used :
          (r : Result (List FuncError) (Gathered N))
          → Judged (GatheredFrom rest) r
          → Judged (GatheredFrom (use_item ∷ rest)) r
      used (ok g) h = λ nil. uses (h nil)
      used (err es) h = h
      used panic h = tt
  parse_items-From (refused kind ∷ rest) shared =
      with_error-From kind rest _ (parse_items-From rest shared)

  module_of-From :
      (items : List Item) (r : Result (List FuncError) (Gathered N))
      → Judged (GatheredFrom items) r
      → Judged (ModuleFrom items) (module_of r)
  unfolding module_of
  module_of-From items (err es) h = h
  module_of-From items panic h = tt
  module_of-From items (ok g) h = conclude-Judged (ModuleFrom items) _ _ (λ nil.
      let info : VmodInfo N = record { funcs = g.funcs; objects = g.objects } in
      let (before, events, names, init) = validate_lem info g.errors nil in
      (h before, events, names, init))

  -- A module that is accepted has nothing but functions, `impl` blocks and `use` lines, which give its
  -- functions and objects in their order: each function and method is accepted by the rules of its
  -- kind, and each block is no `impl` of a trait, has no generics and no other name, is for the
  -- simple type that names its object, and has a constructor. The module has at most one event
  -- handler; the VCL names of its functions and constructors differ; and if a function reads the
  -- value shared per VCL, another one may set it. A module that is refused has an error to report.
  pub parse_module_lem :
      (content : Option (List Item))
      → Judged (ModuleFrom (items_of content)) (parse_module from_str to_text parses content)
  unfolding parse_module
  parse_module_lem content =
      module_of-From (items_of content) _ (parse_items-From (items_of content) _)
