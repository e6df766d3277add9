-- ===== src/Macros/Wrappers/InScope.antt =====
-- What is gathered for a function that the parser accepts, and that generating it ends.
use Prim.Native.String.{String}
use mathlib.Core.Path.{subst}
use varnish_rs.Prelude.{
  ◌≡◌, sym, ap, ◌∙◌, Bool, true, false, Option, none, some, List, [], ◌∷◌, if◌then◌else◌, ltb,
}
use varnish_rs.Macros.Types.{FuncType, function, constructor, destructor, method, event}
use varnish_rs.Macros.Attributes.{Value}
use varnish_rs.Macros.Params.{SharedTypes}
use varnish_rs.Macros.Functions.{FuncInfo, Signature, FuncAttributes, sig_returns_self}
use varnish_rs.Macros.Functions.Laws.{Accepted}
use varnish_rs.Macros.Syntax.{and_then}
use varnish_rs.Macros.Names.{Names, wrapper_fn_name, fn_name, c_fn_name, f_fn_name, typedef_name}
use varnish_rs.Macros.Modules.{count_if}
use varnish_rs.Macros.Total.{Total, Total-and_then, Total-Made, Total-both}
use varnish_rs.Macros.Wrappers.{FuncProcessor, or_unit}
use varnish_rs.Macros.Wrappers.Prototype.{
  no_steps, gather, opt_struct_name, keeps_vcl, use_shared_per_vcl, gen_cproto, proto_texts,
  json_func,
}
use varnish_rs.Macros.Wrappers.Body.{gen_callback_fn}
use varnish_rs.Macros.Wrappers.Generate.{
  Generated, are_idents, to_idents, called_idents, gathered_idents, output_idents, with_wrapper,
  finish, init, from_info,
}
use varnish_rs.Macros.Wrappers.Agreement.{any_optional-AllInStruct}
use varnish_rs.Macros.Wrappers.Signatures.{HasObject, HasFunction, Any, joined-Total}
use varnish_rs.Macros.Wrappers.Closed.{Scoped}
use varnish_rs.Macros.Wrappers.Whole.{is_destructor, HasPlace, gather-Scoped}
use varnish_rs.Macros.Wrappers.Kept.{Keeps, gather-Keeps}
use varnish_rs.Macros.Wrappers.Callbacks.{fits-HasPlace, fits-AllPlaced}
use varnish_rs.Macros.Wrappers.Calls.{InScope, accepted_kind, gen_callback_fn-InScope}

counted-use_shared_per_vcl :
    {N : Type 0} (info : FuncInfo N)
    → ltb 0 (count_if keeps_vcl info.args) ≡ true
    → use_shared_per_vcl info ≡ true
unfolding use_shared_per_vcl
counted-use_shared_per_vcl info h = h

fn_name-Total :
    (f : Option (FuncType × String))
    → HasFunction f
    → Total Any (elim f [ none ↦ none | some f ↦ some (c_fn_name f) ])
fn_name-Total none h = h
fn_name-Total (some f) h = tt

to_idents-Total :
    {A : Type 0} (is_ident : String → Bool) (P : A → Type 0) (l : List String) (r : Option A)
    → are_idents is_ident l ≡ true
    → Total P r
    → Total P (to_idents is_ident l r)
to_idents-Total is_ident P l r e h = by_test (are_idents is_ident l) e
  where
    by_test : (b : Bool) → b ≡ true → Total P (if b then r else none)
    by_test true e = h
    by_test false e = cc

module _ {N : Type 0} (info : FuncInfo N) (p : FuncProcessor) where
  proto_texts-Total :
      (t : FuncType) (td : Option String) (f : String)
      → Total Any td
      → Total Any (proto_texts info t td f p)
  unfolding proto_texts
  proto_texts-Total event td f h = tt
  proto_texts-Total function none f h = elim h [ ]
  proto_texts-Total constructor none f h = elim h [ ]
  proto_texts-Total destructor none f h = elim h [ ]
  proto_texts-Total method none f h = elim h [ ]
  proto_texts-Total function (some td) f h = tt
  proto_texts-Total constructor (some td) f h = tt
  proto_texts-Total destructor (some td) f h = tt
  proto_texts-Total method (some td) f h = tt

  gen_cproto-Total : HasFunction p.names.func → Total Any (gen_cproto info p)
  unfolding gen_cproto f_fn_name typedef_name
  gen_cproto-Total h =
      Total-and_then Any Any (f_fn_name p.names) _ (joined-Total "f" p.names.object p.names.func h)
        (λ f u.
          proto_texts-Total info.func_type (typedef_name p.names) f
            (joined-Total _ p.names.object p.names.func h))

  json_func-Total : HasFunction p.names.func → Total Any (json_func info p)
  unfolding json_func f_fn_name
  json_func-Total h =
      Total-and_then Any Any (f_fn_name p.names) _ (joined-Total "f" p.names.object p.names.func h)
        (λ f u.
          Total-and_then Any Any (fn_name p.names) _ (fn_name-Total p.names.func h) (λ name v. tt))

  -- What is true of the processor and of its wrapper is true of the result.
  with_wrapper-Total :
      (is_ident : String → Bool) (P : FuncProcessor → Type 0) (name : String)
      → are_idents is_ident (called_idents info.func_type p.names) ≡ true
      → HasFunction p.names.func
      → P p
      → Total InScope (gen_callback_fn info p)
      → Total
          (λ g. InScope g.wrapper_function_body × P g.processor)
          (with_wrapper info is_ident p name)
  unfolding with_wrapper
  with_wrapper-Total is_ident P name called f h body =
      let Good : Generated → Type 0 = λ g. InScope g.wrapper_function_body × P g.processor in
      to_idents-Total is_ident Good (called_idents info.func_type p.names) _ called (
        Total-and_then InScope Good (gen_callback_fn info p) _ body (λ w in_scope.
          Total-and_then Any Good (gen_cproto info p) _ (gen_cproto-Total f) (λ c u.
            Total-and_then Any Good (json_func info p) _ (json_func-Total f)
              (λ j v. (in_scope, h)))))

-- What `to_ident` and `format_ident!` get are identifiers.
abbrev pub HasIdents : {N : Type 0} → (String → Bool) → FuncInfo N → Names → Type 0
HasIdents is_ident info names =
    Total (λ ty. are_idents is_ident (gathered_idents info names ty) ≡ true)
      (opt_struct_name info.has_optional_args names)
    × Total (λ name. are_idents is_ident (name ∷ []) ≡ true) (wrapper_fn_name names)
    × (are_idents is_ident (output_idents info) ≡ true)
    × (are_idents is_ident (called_idents info.func_type names) ≡ true)

module _ {N : Type 0} (to_string : Value N → String) (parses is_ident : String → Bool)
    (shared : SharedTypes) (names : Names) (info : FuncInfo N) (sig : Signature)
    (attrs : FuncAttributes) (is_object : Bool) (accepted : Accepted sig attrs is_object info)
    (o : HasObject info.func_type names.object) (f : HasFunction names.func)
    (e : parses (or_unit shared.shared_per_task_ty) ≡ true)
    (g : parses (or_unit shared.shared_per_vcl_ty) ≡ true)
    (idents : HasIdents is_ident info names) where
  abbrev pub ScopedAs : FuncProcessor → Type 0
  ScopedAs p =
      Scoped info.func_type info.has_optional_args (use_shared_per_vcl info) p × Keeps names p

  pub gather-ScopedAs :
      (ty : String) → Total ScopedAs (gather to_string parses info shared (no_steps names ty))
  gather-ScopedAs ty =
      let (_, _, kind, fit, _, _, valid, _, opt) = accepted in
      let t = info.func_type in
      let v = use_shared_per_vcl info in
      let d : is_destructor t ≡ false =
        ap is_destructor kind ∙ accepted_kind attrs.has_event is_object (sig_returns_self sig) in
      let place : HasPlace t info.has_optional_args =
        subst (HasPlace t) (sym opt) (fits-HasPlace t info.args d fit) in
      let placed =
        fits-AllPlaced to_string info shared v d info.args fit
          (any_optional-AllInStruct info.has_optional_args info.args (λ h. opt ∙ h))
          (counted-use_shared_per_vcl info) in
      Total-Made (Scoped t info.has_optional_args v) (Keeps names)
        (gather to_string parses info shared (no_steps names ty))
        (gather-Scoped to_string parses info shared names ty d o place e g placed)
        (gather-Keeps names to_string info shared parses ty)

  -- Of a processor that is in scope, and whose names are kept.
  finish-Total :
      (P : FuncProcessor → Type 0) (p : FuncProcessor)
      → ScopedAs p
      → P p
      → Total (λ g. InScope g.wrapper_function_body × P g.processor) (finish info is_ident p)
  unfolding finish
  finish-Total P p (h, k) holds =
      let (_, _, kind, _, _, _, valid, _, _) = accepted in
      let (_, wrapper, output, called) = idents in
      let Good : Generated → Type 0 = λ r. InScope r.wrapper_function_body × P r.processor in
      let same : names ≡ p.names = sym k in
      let d : is_destructor info.func_type ≡ false =
        ap is_destructor kind ∙ accepted_kind attrs.has_event is_object (sig_returns_self sig) in
      let has_f = subst (λ (n : Names). HasFunction n.func) same f in
      let has_o = subst (λ (n : Names). HasObject info.func_type n.object) same o in
      let body = gen_callback_fn-InScope info (use_shared_per_vcl info) p d valid has_o has_f h in
      let callable =
        subst (λ (n : Names). are_idents is_ident (called_idents info.func_type n) ≡ true) same
          called in
      let named =
        subst
          (λ (n : Names).
            Total (λ name. are_idents is_ident (name ∷ []) ≡ true) (wrapper_fn_name n))
          same wrapper in
      to_idents-Total is_ident Good (output_idents info) _ output (
        Total-and_then (λ name. are_idents is_ident (name ∷ []) ≡ true) Good
          (wrapper_fn_name p.names) _ named
          (λ name i.
            to_idents-Total is_ident Good (name ∷ []) (with_wrapper info is_ident p name) i
              (with_wrapper-Total info p is_ident P name callable has_f holds body)))

  -- What `gather` gives holds of the result.
  pub generated-Total :
      (P : FuncProcessor → Type 0)
      → ((ty : String) → Total P (gather to_string parses info shared (no_steps names ty)))
      → Total
          (λ g. InScope g.wrapper_function_body × P g.processor)
          (from_info info is_ident to_string parses shared names)
  unfolding from_info init
  generated-Total P gathered =
      let (first, _, _, _) = idents in
      let Good : Generated → Type 0 = λ r. InScope r.wrapper_function_body × P r.processor in
      Total-and_then (λ ty. are_idents is_ident (gathered_idents info names ty) ≡ true) Good
        (opt_struct_name info.has_optional_args names) _ first
        (λ ty i.
          let made = gather to_string parses info shared (no_steps names ty) in
          to_idents-Total is_ident Good (gathered_idents info names ty)
            (and_then made (finish info is_ident)) i
            (Total-and_then (λ p. ScopedAs p × P p) Good made (finish info is_ident)
              (Total-both ScopedAs P made (gather-ScopedAs ty) (gathered ty))
              (λ p (s, h). finish-Total P p s h)))
