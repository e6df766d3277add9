-- ===== src/Macros/Wrappers/Closed.antt =====
-- The steps of the generator keep every variable of a wrapper in scope.
use Prim.Native.String.{String}
use mathlib.Core.Path.{subst}
use mathlib.Core.List.{append_assoc, append-nil}
use varnish_rs.Prelude.{◌≡◌, refl, sym, Bool, true, false, List, [], ◌∷◌, ◌++◌, if◌then◌else◌}
use varnish_rs.Macros.Types.{FuncType}
use varnish_rs.Macros.Output.{is_event, is_constructor}
use varnish_rs.Macros.Arguments.{is_method}
use varnish_rs.Macros.Wrappers.{
  ArgDecl, WrapTy, in_args, direct, PreCall, CallVar, AfterCall, FuncProcessor, decl, pre,
  call_with, after, needs_ctx, add_decl, add_text,
}
use varnish_rs.Macros.Wrappers.Scopes.{
  args_bound, per_vcl_bound, Scope, declares, bound_in, SourceOk, PreOk, CallOk, AfterOk, Grows,
  declares-append, declares-last, bound_in-append, PreOk-Grows, AfterOk-Grows, CallOk-Grows,
}

-- Each step is in scope behind the steps before it.
abbrev pub PresOk : List ArgDecl → List ArgDecl → List PreCall → List PreCall → Type 0
PresOk args fields seen [] = Unit {0}
PresOk args fields seen (c ∷ cs) =
    PreOk (record { args = args; fields = fields; seen = seen }) c
    × PresOk args fields (seen ++ c ∷ []) cs

abbrev pub CallsOk : Bool → Scope → List CallVar → Type 0
CallsOk ctx s [] = Unit {0}
CallsOk ctx s (v ∷ vs) = CallOk ctx s v × CallsOk ctx s vs

abbrev pub AftersOk : Scope → List AfterCall → Type 0
AftersOk s [] = Unit {0}
AftersOk s (a ∷ rest) = AfterOk s a × AftersOk s rest

abbrev pub scope_of : FuncProcessor → Scope
scope_of p = record {
  args = p.wrap_fn_arg_decl;
  fields = p.opt_args_arg_decl;
  seen = p.func_pre_call;
}

-- What the kind of a function brings, whether its arguments are in a struct, and whether it keeps
-- a value per VCL.
pub record Base (t : FuncType) (b v : Bool) (s : Scope) : Type 0 where
  pub has_ctx : declares "__ctx" s.args ≡ true
  pub has_place : is_constructor t ≡ true → declares "__objp" s.args ≡ true
  pub has_vp : is_event t ≡ true → declares "__vp" s.args ≡ true
  pub has_event : is_event t ≡ true → declares "__ev" s.args ≡ true
  pub has_name : is_constructor t ≡ true → declares "__vcl_name" s.args ≡ true
  pub has_object : is_method t ≡ true → declares "__obj" s.args ≡ true
  pub has_args : b ≡ true → bound_in args_bound s.seen ≡ true
  pub has_per_vcl : v ≡ true → bound_in per_vcl_bound s.seen ≡ true

abbrev pub Scoped : FuncType → Bool → Bool → FuncProcessor → Type 0
Scoped t b v p =
    PresOk p.wrap_fn_arg_decl p.opt_args_arg_decl [] p.func_pre_call
    × CallsOk p.func_needs_ctx (scope_of p) p.func_call_vars
    × AftersOk (scope_of p) p.func_always_after_call
    × Base t b v (scope_of p)

Base-Grows : (t : FuncType) (b v : Bool) {s s' : Scope} → Grows s s' → Base t b v s → Base t b v s'
Base-Grows t b v g h = record {
  has_ctx = g.args_grow "__ctx" h.has_ctx;
  has_place = λ e. g.args_grow "__objp" (h.has_place e);
  has_vp = λ e. g.args_grow "__vp" (h.has_vp e);
  has_event = λ e. g.args_grow "__ev" (h.has_event e);
  has_name = λ e. g.args_grow "__vcl_name" (h.has_name e);
  has_object = λ e. g.args_grow "__obj" (h.has_object e);
  has_args = λ e. g.seen_grow args_bound (h.has_args e);
  has_per_vcl = λ e. g.seen_grow per_vcl_bound (h.has_per_vcl e);
}

-- The steps before the call, where more is declared.
PresOk-Grows :
    (ds es ds' es' : List ArgDecl) (seen cs : List PreCall)
    → ((x : String) → declares x ds ≡ true → declares x ds' ≡ true)
    → ((x : String) → declares x es ≡ true → declares x es' ≡ true)
    → PresOk ds es seen cs
    → PresOk ds' es' seen cs
PresOk-Grows ds es ds' es' seen [] f g h = tt
PresOk-Grows ds es ds' es' seen (c ∷ cs) f g (h, k) =
    let grown : Grows (record { args = ds; fields = es; seen = seen })
        (record { args = ds'; fields = es'; seen = seen }) =
      record { args_grow = f; fields_grow = g; seen_grow = λ kind e. e } in
    (PreOk-Grows grown c h, PresOk-Grows ds es ds' es' (seen ++ c ∷ []) cs f g k)

PresOk-snoc :
    (ds es : List ArgDecl) (seen cs : List PreCall) (c : PreCall)
    → PresOk ds es seen cs
    → PreOk (record { args = ds; fields = es; seen = seen ++ cs }) c
    → PresOk ds es seen (cs ++ c ∷ [])
PresOk-snoc ds es seen [] c h k =
    (subst (λ l. PreOk (record { args = ds; fields = es; seen = l }) c) (append-nil seen) k, tt)
PresOk-snoc ds es seen (d ∷ cs) c (h, i) k = (
  h,
  PresOk-snoc ds es (seen ++ d ∷ []) cs c i (
      subst (λ l. PreOk (record { args = ds; fields = es; seen = l }) c)
        (sym (append_assoc seen (d ∷ []) cs)) k),
)

pub CallsOk-Grows :
    (ctx ctx' : Bool) {s s' : Scope} (vs : List CallVar)
    → Grows s s'
    → (ctx ≡ true → ctx' ≡ true)
    → CallsOk ctx s vs
    → CallsOk ctx' s' vs
CallsOk-Grows ctx ctx' [] g c h = tt
CallsOk-Grows ctx ctx' (v ∷ vs) g c (h, k) =
    (CallOk-Grows g ctx ctx' c v h, CallsOk-Grows ctx ctx' vs g c k)

CallsOk-snoc :
    (ctx : Bool) (s : Scope) (vs : List CallVar) (v : CallVar)
    → CallsOk ctx s vs
    → CallOk ctx s v
    → CallsOk ctx s (vs ++ v ∷ [])
CallsOk-snoc ctx s [] v h k = (k, tt)
CallsOk-snoc ctx s (w ∷ vs) v (h, i) k = (h, CallsOk-snoc ctx s vs v i k)

AftersOk-Grows : {s s' : Scope} (l : List AfterCall) → Grows s s' → AftersOk s l → AftersOk s' l
AftersOk-Grows [] g h = tt
AftersOk-Grows (a ∷ l) g (h, k) = (AfterOk-Grows g a h, AftersOk-Grows l g k)

AftersOk-snoc :
    (s : Scope) (l : List AfterCall) (a : AfterCall)
    → AftersOk s l
    → AfterOk s a
    → AftersOk s (l ++ a ∷ [])
AftersOk-snoc s [] a h k = (k, tt)
AftersOk-snoc s (c ∷ l) a (h, i) k = (h, AftersOk-snoc s l a i k)

module _ (t : FuncType) (b v : Bool) where
  pub call_with-Scoped :
      (p : FuncProcessor) (x : CallVar)
      → Scoped t b v p
      → CallOk p.func_needs_ctx (scope_of p) x
      → Scoped t b v (call_with x p)
  call_with-Scoped p x (h, i, j, k) ok =
      (h, CallsOk-snoc p.func_needs_ctx (scope_of p) p.func_call_vars x i ok, j, k)

  pub after-Scoped :
      (p : FuncProcessor) (a : AfterCall)
      → Scoped t b v p
      → AfterOk (scope_of p) a
      → Scoped t b v (after a p)
  after-Scoped p a (h, i, j, k) ok =
      (h, i, AftersOk-snoc (scope_of p) p.func_always_after_call a j ok, k)

  -- Nothing is lost where a scope grows.
  grown-Scoped :
      (p : FuncProcessor) (ds es : List ArgDecl) (cs : List PreCall)
      → Grows (scope_of p) (record { args = ds; fields = es; seen = cs })
      → PresOk ds es [] cs
      → Scoped t b v p
      → Scoped t b v
          (record p { wrap_fn_arg_decl = ds; opt_args_arg_decl = es; func_pre_call = cs })
  grown-Scoped p ds es cs g pres (h, i, j, k) = (
    pres,
    CallsOk-Grows p.func_needs_ctx p.func_needs_ctx p.func_call_vars g (λ e. e) i,
    AftersOk-Grows p.func_always_after_call g j,
    Base-Grows t b v g k,
  )

  pub pre-Grows : (p : FuncProcessor) (c : PreCall) → Grows (scope_of p) (scope_of (pre c p))
  pre-Grows p c = record {
    args_grow = λ x e. e;
    fields_grow = λ x e. e;
    seen_grow = λ k. bound_in-append k p.func_pre_call (c ∷ []);
  }

  pub pre-Scoped :
      (p : FuncProcessor) (c : PreCall)
      → Scoped t b v p
      → PreOk (scope_of p) c
      → Scoped t b v (pre c p)
  pre-Scoped p c h ok =
      grown-Scoped p p.wrap_fn_arg_decl p.opt_args_arg_decl (p.func_pre_call ++ c ∷ [])
        (pre-Grows p c)
        (PresOk-snoc p.wrap_fn_arg_decl p.opt_args_arg_decl [] p.func_pre_call c (h.0) ok) h

  pub needs_ctx-Scoped : (p : FuncProcessor) → Scoped t b v p → Scoped t b v (needs_ctx p)
  needs_ctx-Scoped p (h, i, j, k) =
      let same : Grows (scope_of p) (scope_of p) = record {
        args_grow = λ x e. e;
        fields_grow = λ x e. e;
        seen_grow = λ x e. e;
      } in
      (h, CallsOk-Grows p.func_needs_ctx true p.func_call_vars same (λ e. refl) i, j, k)

  -- A declaration, as a field of the struct or as an argument, with its text in the prototype.
  pub declared-Scoped :
      (s : Bool) (d : ArgDecl) (p : FuncProcessor)
      → Scoped t b v p
      → Scoped t b v (add_decl s b d p)
  declared-Scoped s d p h = by_kind s b
    where
      by_kind : (s c : Bool) → Scoped t b v (add_decl s c d p)
      by_kind true true =
          let grown : Grows (scope_of p) (scope_of (add_decl true true d p)) = record {
            args_grow = λ x e. e;
            fields_grow = λ x. declares-append x p.opt_args_arg_decl (d ∷ []);
            seen_grow = λ x e. e;
          } in
          grown-Scoped p p.wrap_fn_arg_decl (p.opt_args_arg_decl ++ d ∷ []) p.func_pre_call grown
            (PresOk-Grows p.wrap_fn_arg_decl p.opt_args_arg_decl _ _ [] p.func_pre_call (λ x e. e)
              grown.fields_grow (h.0))
            h
      by_kind true false =
          let grown : Grows (scope_of p) (scope_of (add_decl true false d p)) = record {
            args_grow = λ x. declares-append x p.wrap_fn_arg_decl (d ∷ []);
            fields_grow = λ x e. e;
            seen_grow = λ x e. e;
          } in
          grown-Scoped p (p.wrap_fn_arg_decl ++ d ∷ []) p.opt_args_arg_decl p.func_pre_call grown
            (PresOk-Grows p.wrap_fn_arg_decl p.opt_args_arg_decl _ _ [] p.func_pre_call
              grown.args_grow (λ x e. e) (h.0))
            h
      by_kind false c = h

  pub text-Scoped :
      (c : Bool) (ctype name : String) (p : FuncProcessor)
      → Scoped t b v p
      → Scoped t b v (add_text c ctype name p)
  text-Scoped true ctype name p h = h
  text-Scoped false ctype name p h = h

  -- What has just been declared is the source of a value.
  pub get_arg_value-SourceOk :
      (c : Bool) (ctype name : String) (ty : WrapTy) (p : FuncProcessor)
      → (c ≡ true → bound_in args_bound p.func_pre_call ≡ true)
      → SourceOk
          (scope_of (add_text c ctype name (add_decl true c (decl name ty) p)))
          (if c then in_args name else direct name)
  get_arg_value-SourceOk true ctype name ty p h =
      (h refl, declares-last name p.opt_args_arg_decl (decl name ty) refl)
  get_arg_value-SourceOk false ctype name ty p h =
      declares-last name p.wrap_fn_arg_decl (decl name ty) refl
