-- ===== src/Macros/Wrappers/Whole.antt =====
-- Whole wrappers: `from_info` and `gen_callback_fn` together.
use Prim.Native.String.{String}
use mathlib.Core.Path.{subst}
use varnish_rs.Prelude.{
  ◌≡◌, refl, sym, Bool, true, false, Option, none, some, [], ◌∷◌, ◌++◌, ◌⊎◌, inl, inr,
  if◌then◌else◌,
}
use varnish_rs.Macros.Types.{FuncType, function, constructor, destructor, method, event}
use varnish_rs.Macros.Attributes.{Value}
use varnish_rs.Macros.Output.{is_event, is_constructor}
use varnish_rs.Macros.Params.{SharedTypes}
use varnish_rs.Macros.Arguments.{is_method}
use varnish_rs.Macros.Functions.{FuncInfo}
use varnish_rs.Macros.Names.{Names}
use varnish_rs.Macros.Total.{Total, Total-if, Total-and_then}
use varnish_rs.Macros.Wrappers.{
  FuncProcessor, PreCall, decl, priv_mut, args_ptr, args_ref, take_per_vcl, put_per_vcl, pre,
  declare, after, in_args, direct, get_arg_value, plain_json, add_cproto_arg, add_wrapper_arg,
  has_signature, or_unit,
}
use varnish_rs.Macros.Wrappers.Prototype.{
  no_steps, kind_args, optional_args, add_per_vcl, per_vcl_arg, gather, use_shared_per_vcl,
}
use varnish_rs.Macros.Wrappers.Signatures.{HasObject}
use varnish_rs.Macros.Wrappers.Scopes.{
  args_bound, per_vcl_bound, Scope, declares, bound_in, SourceOk, bound_in-last, declares-last,
  SourceOk-Grows,
}
use varnish_rs.Macros.Wrappers.Closed.{
  scope_of, Base, Scoped, pre-Scoped, pre-Grows, after-Scoped, declared-Scoped,
}
use varnish_rs.Macros.Wrappers.Variables.{
  declare-Scoped, declare-SourceOk, AllPlaced, params-Scoped,
}

abbrev pub is_destructor : FuncType → Bool
is_destructor destructor = true
is_destructor _ = false

abbrev DeclaredIn : String → Scope → Type 0
DeclaredIn x s = declares x s.args ≡ true

start-Base :
    (t : FuncType) (s : Scope)
    → DeclaredIn "__ctx" s
    → (is_constructor t ≡ true → DeclaredIn "__objp" s × DeclaredIn "__vcl_name" s)
    → (is_event t ≡ true → DeclaredIn "__vp" s × DeclaredIn "__ev" s)
    → (is_method t ≡ true → DeclaredIn "__obj" s)
    → Base t false false s
start-Base t s c n e o = record {
  has_ctx = c;
  has_place = λ h. (n h).0;
  has_vp = λ h. (e h).0;
  has_event = λ h. (e h).1;
  has_name = λ h. (n h).1;
  has_object = o;
  has_args = λ h. cc;
  has_per_vcl = λ h. cc;
}

kind_args-Scoped :
    (t : FuncType) (o : Option String) (names : Names) (ty : String)
    → is_destructor t ≡ false
    → HasObject t o
    → Total (Scoped t false false) (kind_args t o (no_steps names ty))
kind_args-Scoped function none names ty d h =
    (tt, tt, tt, start-Base function _ refl (λ e. cc) (λ e. cc) (λ e. cc))
kind_args-Scoped function (some obj) names ty d h =
    (tt, tt, tt, start-Base function _ refl (λ e. cc) (λ e. cc) (λ e. cc))
kind_args-Scoped event none names ty d h =
    (tt, tt, tt, start-Base event _ refl (λ e. cc) (λ e. (refl, refl)) (λ e. cc))
kind_args-Scoped event (some obj) names ty d h =
    (tt, tt, tt, start-Base event _ refl (λ e. cc) (λ e. (refl, refl)) (λ e. cc))
kind_args-Scoped constructor (some obj) names ty d h =
    (tt, tt, tt, start-Base constructor _ refl (λ e. (refl, refl)) (λ e. cc) (λ e. cc))
kind_args-Scoped method (some obj) names ty d h =
    (tt, tt, tt, start-Base method _ refl (λ e. cc) (λ e. cc) (λ e. refl))
kind_args-Scoped constructor none names ty d h = elim h [ ]
kind_args-Scoped method none names ty d h = elim h [ ]
kind_args-Scoped destructor o names ty d h = cc

-- The same scope with one more promise.
with_args :
    (t : FuncType) (s : Scope)
    → Base t false false s
    → bound_in args_bound s.seen ≡ true
    → Base t true false s
with_args t s h a = record {
  has_ctx = h.has_ctx;
  has_place = h.has_place;
  has_vp = h.has_vp;
  has_event = h.has_event;
  has_name = h.has_name;
  has_object = h.has_object;
  has_args = λ e. a;
  has_per_vcl = h.has_per_vcl;
}

with_per_vcl :
    (t : FuncType) (b : Bool) (s : Scope)
    → Base t b false s
    → bound_in per_vcl_bound s.seen ≡ true
    → Base t b true s
with_per_vcl t b s h a = record {
  has_ctx = h.has_ctx;
  has_place = h.has_place;
  has_vp = h.has_vp;
  has_event = h.has_event;
  has_name = h.has_name;
  has_object = h.has_object;
  has_args = h.has_args;
  has_per_vcl = λ e. a;
}

optional_args-Scoped :
    (t : FuncType) (b : Bool) (p : FuncProcessor)
    → Scoped t false false p
    → Scoped t b false (optional_args b p)
optional_args-Scoped t true p h =
    let d = decl "__args" (args_ptr p.opt_args_ty_name) in
    let (x, y, z, w) =
      pre-Scoped t false false (declare d p) args_ref (declared-Scoped t false false true d p h)
        (declares-last "__args" p.wrap_fn_arg_decl d refl) in
    (x, y, z, with_args t _ w (bound_in-last args_bound p.func_pre_call args_ref refl))
optional_args-Scoped t false p h = h

-- Arguments of its own, or those of an event handler, which are no struct.
abbrev pub HasPlace : FuncType → Bool → Type 0
HasPlace t b = (has_signature t ≡ true) ⊎ ((is_event t ≡ true) × (b ≡ false))

module _ {N : Type 0} (to_string : Value N → String) (parses : String → Bool) (info : FuncInfo N)
    (shared : SharedTypes) where
  abbrev t : FuncType
  t = info.func_type

  abbrev b : Bool
  b = info.has_optional_args

  vp-SourceOk :
      (p : FuncProcessor)
      → HasPlace t b
      → Scoped t b false p
      → SourceOk
          (scope_of (
            add_cproto_arg info "struct vmod_priv *" "__vp"
              (add_wrapper_arg info (decl "__vp" priv_mut) p)))
          (get_arg_value info "__vp")
  vp-SourceOk p (inl callable) h =
      declare-SourceOk to_string info shared false "struct vmod_priv *" "__vp" priv_mut p callable h
  vp-SourceOk p (inr (e, no_struct)) h =
      let q =
        add_cproto_arg info "struct vmod_priv *" "__vp"
          (add_wrapper_arg info (decl "__vp" priv_mut) p) in
      let declared : Scoped t b false q =
        declare-Scoped to_string info shared false "struct vmod_priv *" "__vp" priv_mut p h in
      subst (λ c. SourceOk (scope_of q) (if c then in_args "__vp" else direct "__vp"))
        (sym no_struct) (declared.3.has_vp e)

  per_vcl-Scoped :
      (used : Bool) (p : FuncProcessor)
      → parses (or_unit shared.shared_per_vcl_ty) ≡ true
      → HasPlace t b
      → Scoped t b false p
      → Total (Scoped t b used) (per_vcl_arg to_string parses info shared used p)
  unfolding per_vcl_arg add_per_vcl plain_json
  per_vcl-Scoped false p e o h = h
  per_vcl-Scoped true p e o h =
      Total-if (Scoped t b true) (parses (or_unit shared.shared_per_vcl_ty))
        (add_per_vcl to_string parses info shared p) e made
    where
      q : FuncProcessor
      q = plain_json to_string "__vp" "PRIV_VCL" (
          add_cproto_arg info "struct vmod_priv *" "__vp"
            (add_wrapper_arg info (decl "__vp" priv_mut) p))

      taking : PreCall
      taking = take_per_vcl (get_arg_value info "__vp") (or_unit shared.shared_per_vcl_ty)

      known : SourceOk (scope_of q) (get_arg_value info "__vp")
      known = vp-SourceOk p o h

      bound : bound_in per_vcl_bound (q.func_pre_call ++ taking ∷ []) ≡ true
      bound = bound_in-last per_vcl_bound q.func_pre_call taking refl

      released : Scoped t b false (after (put_per_vcl (get_arg_value info "__vp")) (pre taking q))
      released =
          after-Scoped t b false (pre taking q) (put_per_vcl (get_arg_value info "__vp"))
            (pre-Scoped t b false q taking
              (declare-Scoped to_string info shared false "struct vmod_priv *" "__vp" priv_mut p h)
              known)
            (bound, SourceOk-Grows (pre-Grows t b false q taking) (get_arg_value info "__vp") known)

      made : Scoped t b true (add_per_vcl to_string parses info shared p)
      made = (released.0, released.1, released.2, with_per_vcl t b _ (released.3) bound)

  pub gather-Scoped :
      (names : Names) (ty : String)
      → is_destructor t ≡ false
      → HasObject t names.object
      → HasPlace t b
      → parses (or_unit shared.shared_per_task_ty) ≡ true
      → parses (or_unit shared.shared_per_vcl_ty) ≡ true
      → AllPlaced to_string info shared (use_shared_per_vcl info) info.args
      → Total
          (Scoped t b (use_shared_per_vcl info))
          (gather to_string parses info shared (no_steps names ty))
  unfolding gather
  gather-Scoped names ty d o place e f fits =
      let v = use_shared_per_vcl info in
      Total-and_then (Scoped t false false) (Scoped t b v)
        (kind_args t names.object (no_steps names ty)) _
        (kind_args-Scoped t names.object names ty d o)
        (λ q h.
          Total-and_then (Scoped t b v) (Scoped t b v) _ _
            (per_vcl-Scoped v (optional_args b q) f place (optional_args-Scoped t b q h))
            (λ r k. params-Scoped to_string info shared v parses info.args r e fits k))
