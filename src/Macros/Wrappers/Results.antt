-- ===== src/Macros/Wrappers/Results.antt =====
-- What is generated for a function that the parser accepts, and when that panics.
use Prim.Native.String.{String}
use varnish_rs.Prelude.{◌≡◌, ap, ◌∙◌, Bool, true, false, Option, none, some}
use varnish_rs.Macros.Attributes.{Value}
use varnish_rs.Macros.Output.{is_event}
use varnish_rs.Macros.Params.{SharedTypes}
use varnish_rs.Macros.Functions.{FuncInfo, Signature, FuncAttributes, sig_returns_self}
use varnish_rs.Macros.Functions.Laws.{Accepted}
use varnish_rs.Macros.Names.{Names}
use varnish_rs.Macros.Total.{Total, Total-both}
use varnish_rs.Macros.Wrappers.{FuncProcessor, or_unit}
use varnish_rs.Macros.Wrappers.Prototype.{no_steps, gather, prototype_args}
use varnish_rs.Macros.Wrappers.Generate.{Generated, from_info}
use varnish_rs.Macros.Wrappers.Agreement.{type_texts, field_texts, any_optional-AllInStruct, Agrees}
use varnish_rs.Macros.Wrappers.Signatures.{HasObject, HasFunction, gather-Agrees}
use varnish_rs.Macros.Wrappers.Json.{Published}
use varnish_rs.Macros.Wrappers.Published.{gather-Published, fits-AllNamed}
use varnish_rs.Macros.Wrappers.Whole.{is_destructor}
use varnish_rs.Macros.Wrappers.Callbacks.{has_signature-true}
use varnish_rs.Macros.Wrappers.Calls.{InScope, accepted_kind}
use varnish_rs.Macros.Wrappers.InScope.{HasIdents, generated-Total, ScopedAs, gather-ScopedAs}

-- The signature of the wrapper and the C prototype, the struct of optional arguments in both.
abbrev pub SameTypes : {N : Type 0} → FuncInfo N → FuncProcessor → Type 0
SameTypes info p =
    (type_texts p.names.module_name p.wrap_fn_arg_decl ≡ prototype_args info p)
    × (field_texts p.names.module_name p.opt_args_arg_decl ≡ p.cproto_opt_arg_decl)

Agrees-SameTypes :
    {N : Type 0} (info : FuncInfo N) (p : FuncProcessor)
    → Agrees info.has_optional_args p
    → SameTypes info p
unfolding prototype_args
Agrees-SameTypes info p h = h

Total-map :
    {A : Type 0} (P Q : A → Type 0) (o : Option A) → ((a : A) → P a → Q a) → Total P o → Total Q o
Total-map P Q none h k = k
Total-map P Q (some a) h k = h a k

module _ {N : Type 0} (to_string : Value N → String) (parses is_ident : String → Bool)
    (shared : SharedTypes) (names : Names) (info : FuncInfo N) where
  abbrev result : Option Generated
  result = from_info info is_ident to_string parses shared names

  module _ (sig : Signature) (attrs : FuncAttributes) (is_object : Bool)
      (accepted : Accepted sig attrs is_object info) (o : HasObject info.func_type names.object)
      (f : HasFunction names.func) (e : parses (or_unit shared.shared_per_task_ty) ≡ true)
      (g : parses (or_unit shared.shared_per_vcl_ty) ≡ true)
      (idents : HasIdents is_ident info names) where
    gathered :
        is_event info.func_type ≡ false
        → (ty : String)
        → Total
            (λ p. Agrees info.has_optional_args p × Published info.has_optional_args p)
            (gather to_string parses info shared (no_steps names ty))
    gathered plain ty =
        let b = info.has_optional_args in
        let (_, _, kind, fit, _, _, _, _, opt) = accepted in
        let d : is_destructor info.func_type ≡ false =
          ap is_destructor kind ∙ accepted_kind attrs.has_event is_object (sig_returns_self sig) in
        let in_struct = any_optional-AllInStruct b info.args (λ h. opt ∙ h) in
        Total-both (Agrees b) (Published b)
          (gather to_string parses info shared (no_steps names ty))
          (gather-Agrees to_string parses info shared names ty
            (has_signature-true info.func_type d plain) o e g in_struct)
          (gather-Published to_string parses info shared names ty o e g
            (fits-AllNamed info.func_type info.args plain fit) in_struct)

    abbrev Good : (FuncProcessor → Type 0) → Generated → Type 0
    Good P r = InScope r.wrapper_function_body × P r.processor

    -- For a function that the parser accepts, with its name and the name of its object, with shared
    -- types that parse again, and where each text that becomes an identifier is one: generating it
    -- does not panic, and every variable that its wrapper uses is in scope where it is used: in each
    -- step before the call, in the call and its arguments, and in each step after it; a `Ctx` is
    -- made if an argument, the conversion of the value or an error needs it.
    pub gen_callback_fn_lem : Total (λ r. InScope r.wrapper_function_body) result
    gen_callback_fn_lem =
        let scoped =
          ScopedAs to_string parses is_ident shared names info sig attrs is_object accepted o f e g
            idents in
        Total-map (Good scoped) (λ r. InScope r.wrapper_function_body) result (λ r (h, k). h)
          (generated-Total to_string parses is_ident shared names info sig attrs is_object accepted
            o f e g idents scoped
            (gather-ScopedAs to_string parses is_ident shared names info sig attrs is_object
              accepted o f e g idents))

    -- What holds of the processor of a function that is no event handler.
    abbrev Both : FuncProcessor → Type 0
    Both p = Agrees info.has_optional_args p × Published info.has_optional_args p

    plain-Total : is_event info.func_type ≡ false → Total (Good Both) result
    plain-Total plain =
        generated-Total to_string parses is_ident shared names info sig attrs is_object accepted o f
          e g idents Both (gathered plain)

    -- For a function that the parser accepts and that is no event handler, with its name and the
    -- name of its object, with shared types that parse again, and where each text that becomes an
    -- identifier is one: generating it does not panic, its C prototype lists exactly the C types of
    -- the arguments of its Rust wrapper, in their order, and the C struct of optional arguments has
    -- the fields of the Rust struct, with their names and types.
    pub from_info_lem :
        is_event info.func_type ≡ false → Total (λ r. SameTypes info r.processor) result
    from_info_lem plain =
        Total-map (Good Both) (λ r. SameTypes info r.processor) result
          (λ r (h, (agrees, k)). Agrees-SameTypes info r.processor agrees) (plain-Total plain)

    -- For a function that the parser accepts and that is no event handler, with its name and the
    -- name of its object, with shared types that parse again, and where each text that becomes an
    -- identifier is one: generating it does not panic, and the arguments that its JSON lists are, in
    -- their order, the fields of the C struct of optional arguments, each flag before its value, or
    -- without such a struct the types in the C prototype; private data has the type
    -- `struct vmod_priv *`, a value the type with its name behind "VCL_".
    pub args_json_lem :
        is_event info.func_type ≡ false
        → Total (λ r. Published info.has_optional_args r.processor) result
    args_json_lem plain =
        Total-map (Good Both) (λ r. Published info.has_optional_args r.processor) result
          (λ r (h, (agrees, published)). published) (plain-Total plain)
