-- ===== src/Macros/Wrappers/Scopes.antt =====
-- Which variables the steps of a wrapper use, and what is in scope there.
use Prim.Native.String.{String}
use text.Mathlib.Text.{◌==◌ as str_eq}
use text.Mathlib.TextPositions.{eq_refl}
use varnish_rs.Prelude.{◌≡◌, refl, ap, ◌∙◌, Bool, true, false, ◌||◌, List, [], ◌∷◌, ◌++◌}
use varnish_rs.Macros.Wrappers.{
  ArgDecl, Source, in_args, direct, PreCall, drop_object, args_ref, object_ref, take_per_vcl,
  take_task, init_ref_cell, CallVar, ctx_var, ws_var, event_var, name_value, task_ref, vcl_ref,
  task_object, task_cell, vcl_data, delivery, fetch, plain_value, checked_value, AfterCall,
  put_per_vcl, put_task,
}

-- The variables that the steps before the call bind.
pub data Bound : Type 0 where
  args_bound object_bound per_vcl_bound task_bound cell_bound : Bound

abbrev pub binds : Bound → PreCall → Bool
binds args_bound args_ref = true
binds object_bound object_ref = true
binds per_vcl_bound (take_per_vcl s ty) = true
binds task_bound (take_task s) = true
binds cell_bound (init_ref_cell s ty) = true
binds _ _ = false

-- The arguments of the wrapper, the fields of `__args`, and the steps that come before.
pub record Scope : Type 0 where
  pub args : List ArgDecl
  pub fields : List ArgDecl
  pub seen : List PreCall

abbrev pub declares : String → List ArgDecl → Bool
declares x [] = false
declares x (d ∷ ds) = str_eq d.name x || declares x ds

abbrev pub bound_in : Bound → List PreCall → Bool
bound_in k [] = false
bound_in k (c ∷ cs) = binds k c || bound_in k cs

abbrev pub SourceOk : Scope → Source → Type 0
SourceOk s (direct x) = declares x s.args ≡ true
SourceOk s (in_args x) = (bound_in args_bound s.seen ≡ true) × (declares x s.fields ≡ true)

abbrev pub PreOk : Scope → PreCall → Type 0
PreOk s drop_object = declares "__objp" s.args ≡ true
PreOk s args_ref = declares "__args" s.args ≡ true
PreOk s object_ref = declares "__obj" s.args ≡ true
PreOk s (take_per_vcl source ty) = SourceOk s source
PreOk s (take_task source) = SourceOk s source
PreOk s (init_ref_cell source ty) = SourceOk s source

-- With the `Ctx` that the wrapper makes, if it makes one.
abbrev pub CallOk : Bool → Scope → CallVar → Type 0
CallOk ctx s (ctx_var is_mut) = ctx ≡ true
CallOk ctx s (ws_var is_mut) = ctx ≡ true
CallOk ctx s event_var = declares "__ev" s.args ≡ true
CallOk ctx s (name_value fallible) = declares "__vcl_name" s.args ≡ true
CallOk ctx s (task_ref source) = SourceOk s source
CallOk ctx s (vcl_ref source) = SourceOk s source
CallOk ctx s task_object = bound_in task_bound s.seen ≡ true
CallOk ctx s task_cell = bound_in cell_bound s.seen ≡ true
CallOk ctx s vcl_data = bound_in per_vcl_bound s.seen ≡ true
CallOk ctx s delivery = (ctx ≡ true) × (bound_in per_vcl_bound s.seen ≡ true)
CallOk ctx s fetch = (ctx ≡ true) × (bound_in per_vcl_bound s.seen ≡ true)
CallOk ctx s (plain_value source fallible) = SourceOk s source
CallOk ctx s (checked_value flag source fallible) =
    (bound_in args_bound s.seen ≡ true) × (declares flag s.fields ≡ true) × SourceOk s source

abbrev pub AfterOk : Scope → AfterCall → Type 0
AfterOk s (put_per_vcl source) = (bound_in per_vcl_bound s.seen ≡ true) × SourceOk s source
AfterOk s (put_task source) = (bound_in task_bound s.seen ≡ true) × SourceOk s source

-- Whatever is in scope stays in scope.
pub record Grows (s s' : Scope) : Type 0 where
  pub args_grow : (x : String) → declares x s.args ≡ true → declares x s'.args ≡ true
  pub fields_grow : (x : String) → declares x s.fields ≡ true → declares x s'.fields ≡ true
  pub seen_grow : (k : Bound) → bound_in k s.seen ≡ true → bound_in k s'.seen ≡ true

||-grows : (a b c : Bool) → (b ≡ true → c ≡ true) → (a || b) ≡ true → (a || c) ≡ true
||-grows true b c f h = refl
||-grows false b c f h = f h

pub ||-second : (a b : Bool) → b ≡ true → (a || b) ≡ true
||-second true b h = refl
||-second false b h = h

pub declares-append :
    (x : String) (ds es : List ArgDecl) → declares x ds ≡ true → declares x (ds ++ es) ≡ true
declares-append x [] es h = cc
declares-append x (d ∷ ds) es h =
    ||-grows (str_eq d.name x) (declares x ds) (declares x (ds ++ es)) (declares-append x ds es) h

pub declares-last :
    (x : String) (ds : List ArgDecl) (d : ArgDecl) → d.name ≡ x → declares x (ds ++ d ∷ []) ≡ true
declares-last x [] d e = ap (λ b. b || false) (ap (λ y. str_eq y x) e ∙ eq_refl x)
declares-last x (c ∷ ds) d e = ||-second (str_eq c.name x) _ (declares-last x ds d e)

pub bound_in-append :
    (k : Bound) (cs ds : List PreCall) → bound_in k cs ≡ true → bound_in k (cs ++ ds) ≡ true
bound_in-append k [] ds h = cc
bound_in-append k (c ∷ cs) ds h =
    ||-grows (binds k c) (bound_in k cs) (bound_in k (cs ++ ds)) (bound_in-append k cs ds) h

pub bound_in-last :
    (k : Bound) (cs : List PreCall) (c : PreCall)
    → binds k c ≡ true
    → bound_in k (cs ++ c ∷ []) ≡ true
bound_in-last k [] c e = ap (λ b. b || false) e
bound_in-last k (d ∷ cs) c e = ||-second (binds k d) _ (bound_in-last k cs c e)

module _ {s s' : Scope} (g : Grows s s') where
  pub SourceOk-Grows : (source : Source) → SourceOk s source → SourceOk s' source
  SourceOk-Grows (direct x) h = g.args_grow x h
  SourceOk-Grows (in_args x) (a, f) = (g.seen_grow args_bound a, g.fields_grow x f)

  pub PreOk-Grows : (c : PreCall) → PreOk s c → PreOk s' c
  PreOk-Grows drop_object h = g.args_grow "__objp" h
  PreOk-Grows args_ref h = g.args_grow "__args" h
  PreOk-Grows object_ref h = g.args_grow "__obj" h
  PreOk-Grows (take_per_vcl source ty) h = SourceOk-Grows source h
  PreOk-Grows (take_task source) h = SourceOk-Grows source h
  PreOk-Grows (init_ref_cell source ty) h = SourceOk-Grows source h

  pub AfterOk-Grows : (a : AfterCall) → AfterOk s a → AfterOk s' a
  AfterOk-Grows (put_per_vcl source) (k, h) = (g.seen_grow per_vcl_bound k, SourceOk-Grows source h)
  AfterOk-Grows (put_task source) (k, h) = (g.seen_grow task_bound k, SourceOk-Grows source h)

  pub CallOk-Grows :
      (ctx ctx' : Bool)
      → (ctx ≡ true → ctx' ≡ true)
      → (v : CallVar) → CallOk ctx s v
      → CallOk ctx' s' v
  CallOk-Grows ctx ctx' c (ctx_var is_mut) h = c h
  CallOk-Grows ctx ctx' c (ws_var is_mut) h = c h
  CallOk-Grows ctx ctx' c event_var h = g.args_grow "__ev" h
  CallOk-Grows ctx ctx' c (name_value fallible) h = g.args_grow "__vcl_name" h
  CallOk-Grows ctx ctx' c (task_ref source) h = SourceOk-Grows source h
  CallOk-Grows ctx ctx' c (vcl_ref source) h = SourceOk-Grows source h
  CallOk-Grows ctx ctx' c task_object h = g.seen_grow task_bound h
  CallOk-Grows ctx ctx' c task_cell h = g.seen_grow cell_bound h
  CallOk-Grows ctx ctx' c vcl_data h = g.seen_grow per_vcl_bound h
  CallOk-Grows ctx ctx' c delivery (e, h) = (c e, g.seen_grow per_vcl_bound h)
  CallOk-Grows ctx ctx' c fetch (e, h) = (c e, g.seen_grow per_vcl_bound h)
  CallOk-Grows ctx ctx' c (plain_value source fallible) h = SourceOk-Grows source h
  CallOk-Grows ctx ctx' c (checked_value flag source fallible) (a, f, h) =
      (g.seen_grow args_bound a, g.fields_grow flag f, SourceOk-Grows source h)
