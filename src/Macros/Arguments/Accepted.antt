-- ===== src/Macros/Arguments/Accepted.antt =====
-- The parameters that the parser of arguments accepts, over all its branches, and over a list of
-- arguments.
use Prim.Native.String.{String}
use varnish_rs.Prelude.{
  ℕ, ◌==◌, ◌≡◌, Bool, true, false, not, ◌&&◌, ◌||◌, Option, none, some, if◌then◌else◌, ltb, ◌+◌,
  arith,
}
use varnish_rs.Outcome.{pure, fail, ◌>>=◌, ◌>>◌}
use varnish_rs.Macros.Syntax.{Ty, and_then, as_simple_ty, as_ref_ty, as_ref_mut_ty}
use varnish_rs.Macros.Types.{
  FuncType, ParamTy, try_parse_or_optional, must_be_optional, All, NamesAgree,
  try_parse_or_optional-NamesAgree,
}
use varnish_rs.Macros.Output.{is_event}
use varnish_rs.Macros.Attributes.{
  Value, Special, ctx_or_ws, event_kind, fetch_filters, delivery_filters, misplaced, not_in_events,
  unsupported, must_be_option, required_without_option, required_type, too_many_attributes,
  self_first, self_not_allowed, pattern, is_text, get_arg_opts, get_required_attr,
}
use varnish_rs.Macros.Params.{
  Parser, ParamType, self_type, event_param, fetch_filters_param, delivery_filters_param, value,
  fail_if, unique, not_in_event, constructor_or_event, on_attributes, remove,
}
use varnish_rs.Macros.Arguments.{
  FnArg, receiver, typed, is_method, ParamTypeInfo, parse_param, plain_param, kind_of,
}
use varnish_rs.Macros.Arguments.Rules.{
  AllOk, Yields, Yields-pure, Yields-fail, Yields-if, Yields-bind, fail_if-Yields, unique-Yields,
  not_in_event-Yields, on_attributes-Yields, remove-Yields,
}
use varnish_rs.Macros.Arguments.{
  per_task_param, per_vcl_param, vcl_name_param, event_param_of, context_or_workspace,
  ctx_or_ws_param, filters_param, value_of, supported, value_param, simple_is, is_ctx_or_ws,
}
use varnish_rs.Macros.Arguments.Fits.{
  KindFits, DefaultFits, Fits, get_arg_opts-Fits, get_required_attr-ok,
}
use varnish_rs.Macros.Arguments.Kinds.{
  Any, after, checked, with_kind, per_task_param-Fits, per_vcl_param-Fits, vcl_name_param-Fits,
  only_once-Fits,
}
use varnish_rs.Macros.Arguments.{count_attrs, with_name, receiver_for, of_typed, parse_arg}

module _ {N : Type 0} (from_str : String → Option N) (to_text : Ty → String)
    (parses : String → Bool) (t : FuncType) where
  ctx_or_ws_param-Fits :
      (is_ctx is_mut : Bool)
      → Yields t (Fits t) (ctx_or_ws_param from_str to_text parses is_ctx is_mut)
  unfolding ctx_or_ws_param
  ctx_or_ws_param-Fits is_ctx is_mut =
      after from_str to_text parses t (Fits t) (unique ctx_or_ws)
        (pure (context_or_workspace is_ctx is_mut)) (unique-Yields t ctx_or_ws)
        (Yields-pure t (Fits t) (context_or_workspace is_ctx is_mut) (fits is_ctx))
    where
      fits : (b : Bool) → Fits t (context_or_workspace b is_mut {N = N})
      fits true = tt
      fits false = tt

  KindFits-kind_of :
      (opt has_required : Bool) (ty : ParamTy)
      → (not opt && must_be_optional ty) ≡ false
      → (has_required && not opt) ≡ false
      → (has_required && (not (must_be_optional ty) && not (is_text ty))) ≡ false
      → KindFits (kind_of has_required opt) ty
  KindFits-kind_of true true ty a b c = ground (arith, a, b, c)
  KindFits-kind_of true false ty a b c = tt
  KindFits-kind_of false true ty a b c = ground (arith, a, b, c)
  KindFits-kind_of false false ty a b c = a

  value_of-Fits :
      (opt : Bool) (ty : ParamTy)
      → NamesAgree ty
      → is_event t ≡ false
      → Yields t (Fits t) (value_of from_str to_text parses (opt, ty))
  value_of-Fits opt ty agree e =
      checked' (fail_if (not opt && must_be_optional ty) must_be_option) _
        (fail_if-Yields t (not opt && must_be_optional ty) must_be_option)
        (λ a.
          Yields-bind t (Fits t) (DefaultFits ty) (on_attributes (get_arg_opts from_str ty))
            (λ v. with_default v)
            (on_attributes-Yields t (DefaultFits ty) (get_arg_opts from_str ty)
              (get_arg_opts-Fits from_str ty))
            (λ v d.
              Yields-bind t (Fits t) Any (on_attributes get_required_attr) (last v)
                (on_attributes-Yields t Any get_required_attr get_required_attr-ok)
                (λ r h.
                  checked' (fail_if (r && not opt) required_without_option) _
                    (fail_if-Yields t (r && not opt) required_without_option)
                    (λ b.
                      checked' (fail_if (wrong r) required_type) (pure (made v r))
                        (fail_if-Yields t (wrong r) required_type)
                        (λ c.
                          Yields-pure t (Fits t) (made v r)
                            (e, KindFits-kind_of opt r ty a b c, d, agree))))))
    where
      checked' :
          {P : Type 0} (m : Parser (Unit {0})) (n : Parser (ParamType N))
          → Yields t (λ u. P) m
          → (P → Yields t (Fits t) n)
          → Yields t (Fits t) (m >> n)
      checked' = checked from_str to_text parses t (Fits t)

      wrong : Bool → Bool
      wrong r = r && (not (must_be_optional ty) && not (is_text ty))

      made : Value N → Bool → ParamType N
      made v r = value (record { kind = kind_of r opt; default = v; ty_info = ty })

      last : Value N → Bool → Parser (ParamType N)
      last v r =
          fail_if (r && not opt) required_without_option
          >> (fail_if (wrong r) required_type >> pure (made v r))

      with_default : Value N → Parser (ParamType N)
      with_default v = on_attributes get_required_attr >>= last v

  supported-Fits :
      (o : Option (Bool × ParamTy))
      → All (λ r. NamesAgree (r.1)) o
      → is_event t ≡ false
      → Yields t (Fits t) (supported from_str to_text parses o)
  unfolding All
  supported-Fits none h e = Yields-fail t (Fits t) unsupported
  supported-Fits (some (opt, ty)) h e = value_of-Fits opt ty h e

  value_param-Fits : (ty : Ty) → Yields t (Fits t) (value_param from_str to_text parses ty)
  unfolding value_param
  value_param-Fits ty =
      checked from_str to_text parses t (Fits t) (not_in_event not_in_events)
        (supported from_str to_text parses (try_parse_or_optional ty))
        (not_in_event-Yields t not_in_events)
        (supported-Fits (try_parse_or_optional ty) (try_parse_or_optional-NamesAgree ty))

  filters_param-Fits :
      (c : Special) (p : ParamType N)
      → (constructor_or_event t ≡ true → Fits t p)
      → Yields t (Fits t) (filters_param from_str to_text parses c p)
  unfolding filters_param
  filters_param-Fits c p fits =
      only_once-Fits from_str to_text parses t constructor_or_event (misplaced c) c p fits

  event_param_of-Fits : Yields t (Fits t) (event_param_of from_str to_text parses)
  unfolding event_param_of
  event_param_of-Fits =
      only_once-Fits from_str to_text parses t is_event (misplaced event_kind) event_kind
        event_param (λ h. h)

  plain_param-Fits : (ty : Ty) → Yields t (Fits t) (plain_param from_str to_text parses ty)
  unfolding plain_param
  plain_param-Fits ty =
      let by_ref = and_then (as_ref_ty ty) as_simple_ty in
      let by_mut = and_then (as_ref_mut_ty ty) as_simple_ty in
      either' (simple_is "Event" (as_simple_ty ty)) _ _ event_param_of-Fits (
        either' (is_ctx_or_ws from_str to_text parses by_ref) _ _
          (ctx_or_ws_param-Fits (simple_is "Ctx" by_ref) false)
          (either' (is_ctx_or_ws from_str to_text parses by_mut) _ _
            (ctx_or_ws_param-Fits (simple_is "Ctx" by_mut) true)
            (either' (simple_is "FetchFilters" by_mut) _ _
              (filters_param-Fits fetch_filters fetch_filters_param (λ h. h))
              (either' (simple_is "DeliveryFilters" by_mut) _ _
                (filters_param-Fits delivery_filters delivery_filters_param (λ h. h))
                (value_param-Fits ty)))))
    where
      either' :
          (b : Bool) (m n : Parser (ParamType N))
          → Yields t (Fits t) m
          → Yields t (Fits t) n
          → Yields t (Fits t) (if b then m else n)
      either' b m n p q = Yields-if t (Fits t) b m n (λ h. p) (λ h. q)

  after_any :
      {A B : Type 0} (Q : B → Type 0) (m : Parser A) (f : A → Parser B)
      → Yields t Any m
      → ((a : A) → Yields t Q (f a))
      → Yields t Q (m >>= f)
  after_any Q m f p q = Yields-bind t Q Any m f p (λ a r. q a)

  pub parse_param-Fits : (ty : Ty) → Yields t (Fits t) (parse_param from_str to_text parses ty)
  unfolding parse_param AllOk
  parse_param-Fits ty =
      after_any (Fits t) (count_attrs from_str to_text parses) counted (λ s h. (h, tt))
        (λ n.
          after_any (Fits t) (remove "shared_per_task") (per_task n)
            (remove-Yields t "shared_per_task")
            (λ a.
              after_any (Fits t) (remove "shared_per_vcl") (per_vcl n a)
                (remove-Yields t "shared_per_vcl")
                (λ b.
                  after_any (Fits t) (remove "vcl_name") (vcl n a b) (remove-Yields t "vcl_name")
                    (λ c.
                      after_any (Fits t) (count_attrs from_str to_text parses) (left n a b c)
                        (λ s h. (h, tt))
                        (λ m.
                          checked from_str to_text parses t (Fits t) (few n m) (branch a b c)
                            (fail_if-Yields t (ltb (m + 1) n) too_many_attributes)
                            (λ h. branch-Fits a b c))))))
    where
      few : ℕ → ℕ → Parser (Unit {0})
      few n m = fail_if (ltb (m + 1) n) too_many_attributes

      by_name : Bool → Parser (ParamType N)
      by_name c =
          if c
          then vcl_name_param from_str to_text parses ty
          else plain_param from_str to_text parses ty

      by_vcl : Bool → Bool → Parser (ParamType N)
      by_vcl b c = if b then per_vcl_param from_str to_text parses ty else by_name c

      branch : Bool → Bool → Bool → Parser (ParamType N)
      branch a b c = if a then per_task_param from_str to_text parses ty else by_vcl b c

      left : ℕ → Bool → Bool → Bool → ℕ → Parser (ParamType N)
      left n a b c m = few n m >> branch a b c

      vcl : ℕ → Bool → Bool → Bool → Parser (ParamType N)
      vcl n a b c = count_attrs from_str to_text parses >>= left n a b c

      per_vcl : ℕ → Bool → Bool → Parser (ParamType N)
      per_vcl n a b = remove "vcl_name" >>= vcl n a b

      per_task : ℕ → Bool → Parser (ParamType N)
      per_task n a = remove "shared_per_vcl" >>= per_vcl n a

      counted : ℕ → Parser (ParamType N)
      counted n = remove "shared_per_task" >>= per_task n

      branch-Fits : (a b c : Bool) → Yields t (Fits t) (branch a b c)
      branch-Fits a b c =
          Yields-if t (Fits t) a (per_task_param from_str to_text parses ty) (by_vcl b c)
            (λ h. per_task_param-Fits from_str to_text parses t ty)
            (λ h.
              Yields-if t (Fits t) b (per_vcl_param from_str to_text parses ty) (by_name c)
                (λ h. per_vcl_param-Fits from_str to_text parses t ty)
                (λ h.
                  Yields-if t (Fits t) c (vcl_name_param from_str to_text parses ty)
                    (plain_param from_str to_text parses ty)
                    (λ h. vcl_name_param-Fits from_str to_text parses t ty)
                    (λ h. plain_param-Fits ty)))

  abbrev pub ArgFits : ParamTypeInfo N → Type 0
  ArgFits p = Fits t p.ty

  receiver_for-Fits :
      (idx : ℕ) (plain : Bool) → Yields t ArgFits (receiver_for from_str to_text parses idx plain t)
  receiver_for-Fits idx plain =
      Yields-if t ArgFits (is_method t) first (fail self_not_allowed)
        (λ m.
          Yields-if t ArgFits (not (idx == 0) || not plain) (fail self_first) (pure itself)
            (λ h. Yields-fail t ArgFits self_first) (λ h. Yields-pure t ArgFits itself m))
        (λ h. Yields-fail t ArgFits self_not_allowed)
    where
      itself : ParamTypeInfo N
      itself = record { ident = "self"; ty = self_type }

      first : Parser (ParamTypeInfo N)
      first = if not (idx == 0) || not plain then fail self_first else pure itself

  with_name-Fits :
      (ident : Option String) (p : ParamType N)
      → Fits t p
      → Yields t ArgFits (with_name from_str to_text parses ident p)
  with_name-Fits none p h = Yields-fail t ArgFits pattern
  with_name-Fits (some ident) p h = Yields-pure t ArgFits (record { ident = ident; ty = p }) h

  of_typed-Fits :
      (ident : Option String) (ty : Ty)
      → Yields t ArgFits (of_typed from_str to_text parses ident ty)
  unfolding of_typed
  of_typed-Fits ident ty =
      Yields-bind t ArgFits (Fits t) (parse_param from_str to_text parses ty)
        (with_name from_str to_text parses ident) (parse_param-Fits ty) (with_name-Fits ident)

  pub parse_arg-Fits :
      (idx : ℕ) (arg : FnArg) → Yields t ArgFits (parse_arg from_str to_text parses idx arg)
  unfolding parse_arg
  parse_arg-Fits idx (receiver plain attrs) s h =
      with_kind from_str to_text parses t ArgFits (receiver_for from_str to_text parses idx plain)
        (receiver_for-Fits idx plain) (record s { attrs = attrs }) h
  parse_arg-Fits idx (typed ident ty attrs) s h =
      of_typed-Fits ident ty (record s { attrs = attrs }) h
