-- ===== src/Macros/Wrappers/Calls.antt =====
-- Which wrappers have every variable in scope, and that the body keeps the scope of the processor.
use Prim.Native.String.{String}
use mathlib.Core.Path.{subst}
use varnish_rs.Prelude.{
  ◌≡◌, refl, sym, Bool, true, false, ◌||◌, Option, none, some, List, [], ◌∷◌, if◌then◌else◌,
}
use varnish_rs.Macros.Types.{FuncType, function, constructor, destructor, method, event}
use varnish_rs.Macros.Arguments.{is_method}
use varnish_rs.Macros.Params.{is_some}
use varnish_rs.Macros.Functions.{FuncInfo, func_type_of}
use varnish_rs.Macros.Functions.Laws.{AllValid}
use varnish_rs.Macros.Syntax.{and_then}
use varnish_rs.Macros.Names.{wrapper_fn_name, user_name}
use varnish_rs.Macros.Total.{Total, Total-and_then}
use varnish_rs.Macros.Wrappers.{FuncProcessor}
use varnish_rs.Macros.Wrappers.Body.{
  Wrapper, UserCall, Callee, associated, on_object, free, gen_callback_fn, gen_restrict_check,
  masks, user_call, wrapper_of, fn_callable_name, callable_in, converts, needs_conversion,
  func_may_fail, if_failing, ErrorValue, is_boxed, on_error_of, conversion_of, error_value,
}
use varnish_rs.Macros.Wrappers.Signatures.{HasObject, HasFunction, Any, joined-Total}
use varnish_rs.Macros.Wrappers.Scopes.{Scope, Grows, declares, ||-second}
use varnish_rs.Macros.Wrappers.Closed.{
  PresOk, CallsOk, AftersOk, Base, Scoped, scope_of, CallsOk-Grows,
}
use varnish_rs.Macros.Wrappers.Whole.{is_destructor}

abbrev pub inside : Wrapper → Scope
inside w = record { args = w.args; fields = w.opt_struct; seen = w.pre_call }

abbrev pub CalleeOk : Scope → Callee → Type 0
CalleeOk s (on_object name) = declares "__obj" s.args ≡ true
CalleeOk s (associated obj name) = Unit {0}
CalleeOk s (free name) = Unit {0}

-- The call, whose value may be converted in the workspace of the `Ctx` and boxed into `__objp`.
abbrev pub UserCallOk : Bool → Scope → Option UserCall → Type 0
UserCallOk ctx s none = Unit {0}
UserCallOk ctx s (some c) =
    CallsOk ctx s c.vars
    × CalleeOk s c.callee
    × (c.boxed ≡ true → declares "__objp" s.args ≡ true)
    × (needs_conversion c.conversion ≡ true → ctx ≡ true)

-- The check of scopes and the `Ctx` read `__ctx`; an error is given to the `Ctx`.
abbrev pub InScope : Wrapper → Type 0
InScope w =
    (declares "__ctx" w.args ≡ true)
    × PresOk w.args w.opt_struct [] w.pre_call
    × UserCallOk w.create_ctx (inside w) w.call
    × (is_some w.on_error ≡ true → w.create_ctx ≡ true)
    × AftersOk (inside w) w.always_after

masks-Total : (scopes : List String) → AllValid scopes → Total Any (masks scopes)
masks-Total [] f = tt
masks-Total (x ∷ rest) (f, g) =
    subst (λ c. Total Any (if c then and_then (masks rest) (λ l. some (x ∷ l)) else none)) (sym f)
      (Total-and_then Any Any (masks rest) _ (masks-Total rest g) (λ l u. tt))

gen_restrict_check-Total :
    {N : Type 0} (info : FuncInfo N) (t : FuncType)
    → AllValid info.restrict
    → Total Any (gen_restrict_check info t)
unfolding gen_restrict_check
gen_restrict_check-Total info function f = masks-Total info.restrict f
gen_restrict_check-Total info constructor f = masks-Total info.restrict f
gen_restrict_check-Total info method f = masks-Total info.restrict f
gen_restrict_check-Total info destructor f = tt
gen_restrict_check-Total info event f = tt

||-first : (a b : Bool) → a ≡ true → (a || b) ≡ true
||-first true b h = refl
||-first false b h = cc

pub accepted_kind :
    (has_event is_object returns_self : Bool)
    → is_destructor (func_type_of has_event is_object returns_self) ≡ false
unfolding func_type_of
accepted_kind true o s = refl
accepted_kind false true true = refl
accepted_kind false true false = refl
accepted_kind false false s = refl

if_failing-true : (b : Bool) (e : ErrorValue) → is_some (if_failing b e) ≡ true → b ≡ true
if_failing-true true e h = refl
if_failing-true false e h = cc

callable_in-CalleeOk :
    (t : FuncType) (s : Scope) (o : Option String) (f : Option (FuncType × String))
    → HasObject t o
    → HasFunction f
    → (is_method t ≡ true → declares "__obj" s.args ≡ true)
    → Total (CalleeOk s) (callable_in t o (user_name f))
callable_in-CalleeOk t s o none h k m = elim k [ ]
callable_in-CalleeOk function s o (some f) h k m = tt
callable_in-CalleeOk event s o (some f) h k m = tt
callable_in-CalleeOk destructor s o (some f) h k m = tt
callable_in-CalleeOk method s o (some f) h k m = m refl
callable_in-CalleeOk constructor s none (some f) h k m = elim h [ ]
callable_in-CalleeOk constructor s (some obj) (some f) h k m = tt

module _ {N : Type 0} (info : FuncInfo N) (v : Bool) where
  abbrev t : FuncType
  t = info.func_type

  abbrev b : Bool
  b = info.has_optional_args

  -- The call that is made of a processor, with any `Ctx` that is there if it is needed.
  abbrev CallFits : FuncProcessor → Option UserCall → Type 0
  CallFits p call =
      (ctx : Bool)
      → (p.func_needs_ctx ≡ true → ctx ≡ true)
      → (converts call ≡ true → ctx ≡ true)
      → UserCallOk ctx (scope_of p) call

  same_scope : (p : FuncProcessor) → Grows (scope_of p) (scope_of p)
  same_scope p = record { args_grow = λ x e. e; fields_grow = λ x e. e; seen_grow = λ x e. e }

  boxed-place :
      (t : FuncType) (s : Scope)
      → Base t b v s
      → is_boxed t ≡ true
      → declares "__objp" s.args ≡ true
  boxed-place constructor s h e = h.has_place refl
  boxed-place function s h e = cc
  boxed-place destructor s h e = cc
  boxed-place method s h e = cc
  boxed-place event s h e = cc

  called-CallFits :
      (t : FuncType) (p : FuncProcessor) (callee : Callee)
      → Scoped t b v p
      → CalleeOk (scope_of p) callee
      → CallFits p (
          some (record {
            callee = callee;
            vars = p.func_call_vars;
            question = info.out_result;
            conversion = conversion_of info t;
            boxed = is_boxed t;
          }))
  called-CallFits t p callee h ok ctx need convert = (
    CallsOk-Grows p.func_needs_ctx ctx p.func_call_vars (same_scope p) need (h.1),
    ok,
    boxed-place t (scope_of p) (h.3),
    convert,
  )

  user_call-CallFits :
      (t : FuncType) (p : FuncProcessor)
      → is_destructor t ≡ false
      → Total (CalleeOk (scope_of p)) (fn_callable_name p.names t)
      → Scoped t b v p
      → Total (CallFits p) (user_call info t p)
  unfolding user_call
  user_call-CallFits destructor p d callee h = cc
  user_call-CallFits function p d callee h =
      Total-and_then (CalleeOk (scope_of p)) (CallFits p) (fn_callable_name p.names function) _
        callee (λ c. called-CallFits function p c h)
  user_call-CallFits constructor p d callee h =
      Total-and_then (CalleeOk (scope_of p)) (CallFits p) (fn_callable_name p.names constructor) _
        callee (λ c. called-CallFits constructor p c h)
  user_call-CallFits method p d callee h =
      Total-and_then (CalleeOk (scope_of p)) (CallFits p) (fn_callable_name p.names method) _ callee
        (λ c. called-CallFits method p c h)
  user_call-CallFits event p d callee h =
      Total-and_then (CalleeOk (scope_of p)) (CallFits p) (fn_callable_name p.names event) _ callee
        (λ c. called-CallFits event p c h)

  wrapper_of-InScope :
      (p : FuncProcessor) (scopes : List String) (name : String) (call : Option UserCall)
      → Scoped t b v p
      → CallFits p call
      → InScope (wrapper_of info p scopes name call)
  unfolding wrapper_of on_error_of
  wrapper_of-InScope p scopes name call (h, i, j, k) fits =
      let fails = func_may_fail info in
      (
        k.has_ctx,
        h,
        fits (p.func_needs_ctx || converts call || fails)
            (λ e.
              ||-first (p.func_needs_ctx || converts call) fails
                (||-first p.func_needs_ctx (converts call) e))
            (λ e.
              ||-first (p.func_needs_ctx || converts call) fails
                (||-second p.func_needs_ctx (converts call) e)),
        λ e.
            ||-second (p.func_needs_ctx || converts call) fails
              (if_failing-true fails (error_value info t) e),
        j,
      )

  pub gen_callback_fn-InScope :
      (p : FuncProcessor)
      → is_destructor t ≡ false
      → AllValid info.restrict
      → HasObject t p.names.object
      → HasFunction p.names.func
      → Scoped t b v p
      → Total InScope (gen_callback_fn info p)
  unfolding gen_callback_fn fn_callable_name wrapper_fn_name
  gen_callback_fn-InScope p d valid o f h =
      Total-and_then Any InScope (gen_restrict_check info t) _
        (gen_restrict_check-Total info t valid)
        (λ scopes u.
          Total-and_then Any InScope (wrapper_fn_name p.names) _
            (joined-Total "vmod_c" p.names.object p.names.func f)
            (λ name w.
              Total-and_then (CallFits p) InScope (user_call info t p) _
                (user_call-CallFits t p d
                  (callable_in-CalleeOk t (scope_of p) p.names.object p.names.func o f
                    (h.3.has_object))
                  h)
                (λ call. wrapper_of-InScope p scopes name call h)))
