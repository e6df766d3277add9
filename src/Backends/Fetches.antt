-- ===== src/Backends/Fetches.antt =====
-- varnish-sys/src/vcl/backend/backend_main.rs: how a fetch starts and what is left of it.
use varnish_rs.Prelude.{
  ◌+◌, ◌^◌, ◌<◌, ℕ, zero, suc, negsuc, lt→ltb, ◌≡◌, refl, sym, ap, ◌≢◌, ◌⊎◌, inl, inr, true, false,
  Option, none, some, ◌==◌, ne→==, Bool-cases, ℤ, pos, if◌then◌else◌, length, arith,
}
use mathlib.Core.Path.{subst}
use varnish_rs.Outcome.{Result, Outcome, ok, err, panic, and_then}
use varnish_rs.Boxes.{Boxes, one_made, one_dropped}
use varnish_rs.Workspace.Contract.{IsIdle}
use varnish_rs.Http.{Http}
use varnish_rs.Backends.{
  BusyObj, HttpConn, Varnishd, VclBackend, bs_none, bs_chunked, bs_length, body_of, code_of,
  drop_box, conn_of, connect, set_htc, with_filter, prepare, answered, wrap_gethdrs, wrap_finish,
  wrap_getip,
}
use varnish_rs.Backends.Steps.{IsVarnishd, IsReady, Answers, with_filter-Answers, prepare-Answers}

module _ {T : Type 0} (vd : Varnishd) (be : VclBackend T) (v : IsVarnishd vd) where
  -- The boxes when the response, if there is one, is in a box.
  abbrev pub boxed : Option T → Boxes → Boxes
  boxed none boxes = boxes
  boxed (some t) boxes = one_made boxes

  -- The connection for a response.
  abbrev pub conn_for : Option T → HttpConn T
  conn_for none = conn_of vd be (bs_none, pos 0) none
  conn_for (some t) = conn_of vd be (body_of (be.len t)) (some t)

  -- The length that a response gives: chunks without one, no body for 0, and else a body of that
  -- length, which an `isize` holds below 2 ^ 63.
  abbrev pub Sized : Option ℕ → HttpConn T → Type 0
  Sized none htc = (htc.body_status ≡ bs_chunked) × (htc.content_length ≡ negsuc 0)
  Sized (some l) htc =
      (l ≡ 0 → (htc.body_status ≡ bs_none) × (htc.content_length ≡ pos 0))
      × (0 < l → htc.body_status ≡ bs_length)
      × (0 < l → l < 2 ^ 63 → htc.content_length ≡ pos l)

  -- A connection has its response, and no body without one.
  abbrev pub Describes : Option T → HttpConn T → Type 0
  Describes none htc = (htc.response ≡ none) × Sized (some 0) htc
  Describes (some t) htc = (htc.response ≡ some t) × Sized (be.len t) htc

  body_of-Sized : (t : T) (len : Option ℕ) → Sized len (conn_of vd be (body_of len) (some t))
  body_of-Sized t none = (refl, refl)
  body_of-Sized t (some zero) =
      (λ e. (refl, refl), λ p. absurd (omega (arith, p)), λ p. absurd (omega (arith, p)))
  body_of-Sized t (some (suc l)) =
      (λ e. absurd (omega (arith, e)), λ p. refl, λ p q. rw (lt→ltb (suc l) (2 ^ 63) q))

  conn_for-Describes : (res : Option T) → Describes res (conn_for res)
  conn_for-Describes none =
      (refl, (λ e. (refl, refl), λ p. absurd (omega (arith, p)), λ p. absurd (omega (arith, p))))
  conn_for-Describes (some t) = (refl, body_of-Sized t (be.len t))

  -- The connection is in place, finishing drops all that was made, and asking for the address of
  -- the response panics.
  abbrev pub Connected : Boxes → Option T → BusyObj T → Type 0
  Connected boxes res b =
      ((htc : HttpConn T) × (b.htc ≡ some htc) × Describes res htc)
      × (wrap_getip vd be b ≡ panic)
      × ((b' : BusyObj T) × (wrap_finish vd be b ≡ (ok tt, b'))
          × (b'.htc ≡ none)
          × (b'.boxes.made + boxes.dropped ≡ b'.boxes.dropped + boxes.made))

  -- There is no connection; of a response at most one box is made, and none is dropped.
  abbrev pub NotConnected : Boxes → Option T → BusyObj T → Type 0
  NotConnected boxes res b = (b.htc ≡ none) × ((b.boxes ≡ boxes) ⊎ (b.boxes ≡ boxed res boxes))

  abbrev pub Ends : Boxes → Option T → ℤ → BusyObj T → Type 0
  Ends boxes res code b =
      ((code ≡ pos 0) × Connected boxes res b) ⊎ ((code ≢ pos 0) × NotConnected boxes res b)

  -- A result with its status.
  abbrev pub EndsAs : Boxes → Option T → Outcome ℤ × BusyObj T → Type 0
  EndsAs boxes res result =
      (code : ℤ) × (b : BusyObj T) × (result ≡ (ok code, b)) × Ends boxes res code b

  abbrev BalancedFrom : Boxes → Boxes → Type 0
  BalancedFrom boxes boxes' = boxes'.made + boxes.dropped ≡ boxes'.dropped + boxes.made

  balanced :
      (boxes : Boxes) (res : Option T) → BalancedFrom boxes (drop_box vd be res (boxed res boxes))
  balanced boxes none = omega arith
  balanced boxes (some t) = omega arith

  -- The magic number of a connection is not the one that is asked for.
  getip_panics :
      (b : BusyObj T) (htc : HttpConn T)
      → b.htc ≡ some htc
      → htc.magic ≡ vd.http_conn_magic
      → wrap_getip vd be b ≡ panic
  unfolding wrap_getip
  getip_panics b htc at magic =
      let other : (htc.magic == vd.busyobj_magic) ≡ false =
        rw magic (ne→== vd.http_conn_magic vd.busyobj_magic v.magics_differ) in
      elim (Bool-cases (b.magic == vd.busyobj_magic)) [ inl p ↦ rw (p, at, other) | inr p ↦ rw p ]

  connected :
      (boxes : Boxes) (res : Option T) (b : BusyObj T)
      → b.htc ≡ some (conn_for res)
      → b.boxes ≡ boxed res boxes
      → b.director_valid ≡ true
      → Connected boxes res b
  unfolding wrap_finish
  connected boxes none b at same valid = (
    (conn_for none, at, conn_for-Describes none),
    getip_panics b (conn_for none) at refl,
    (record b { htc = none }, rw (valid, at), refl, rw same (balanced boxes none)),
  )
  connected boxes (some t) b at same valid = (
    (conn_for (some t), at, conn_for-Describes (some t)),
    getip_panics b (conn_for (some t)) at refl,
    (
      record b { htc = none; boxes = one_dropped b.boxes },
      rw (valid, at),
      refl,
      rw same (balanced boxes (some t)),
    ),
  )

  -- Behind the filter, the connection is put in place, unless a step has ended the fetch.
  filtered-EndsAs :
      (boxes : Boxes) (t : T) (x : Result ℤ (Unit {0}) × BusyObj T)
      → Answers vd be v (one_made boxes) x
      → EndsAs boxes (some t) (code_of (and_then (λ _. set_htc vd be (conn_for (some t))) x))
  filtered-EndsAs boxes t (ok u, b) (p, r) = (
    pos 0,
    record b { htc = some (conn_for (some t)) },
    refl,
    inl (
      refl,
      connected boxes (some t) (record b { htc = some (conn_for (some t)) }) refl r.boxes_eq
          r.valid,
    ),
  )
  filtered-EndsAs boxes t (err code, b) (p, r) =
      (code, b, refl, inr (p, (r.htc_eq, inr r.boxes_eq)))
  filtered-EndsAs boxes t (panic, b) (z, r) = absurd z

  connect-EndsAs :
      (boxes : Boxes) (res : Option T) (b : BusyObj T)
      → length be.type_name + 1 < 2 ^ 32
      → IsReady vd be v boxes b
      → EndsAs boxes res (code_of (connect vd be res b))
  unfolding connect
  connect-EndsAs boxes none b short r = (
    pos 0,
    record b { htc = some (conn_for none) },
    refl,
    inl (
      refl,
      connected boxes none (record b { htc = some (conn_for none) }) refl r.boxes_eq r.valid,
    ),
  )
  connect-EndsAs boxes (some t) b short r =
      let start = record b { boxes = one_made b.boxes } in
      let ready : IsReady vd be v (one_made boxes) start = record {
        idle = r.idle;
        proto_slot = r.proto_slot;
        htc_eq = r.htc_eq;
        boxes_eq = ap one_made r.boxes_eq;
        valid = r.valid;
      } in
      let body = (body_of (be.len t)).0 in
      filtered-EndsAs boxes t (with_filter vd be body start)
        (with_filter-Answers vd be v (one_made boxes) body start short ready)

  prepared-EndsAs :
      (boxes : Boxes) (res : Option T) (x : Result ℤ (Unit {0}) × BusyObj T)
      → length be.type_name + 1 < 2 ^ 32
      → Answers vd be v boxes x
      → EndsAs boxes res (code_of (and_then (λ _. connect vd be res) x))
  prepared-EndsAs boxes res (ok u, b) short (p, r) = connect-EndsAs boxes res b short r
  prepared-EndsAs boxes res (err code, b) short (p, r) =
      (code, b, refl, inr (p, (r.htc_eq, inl r.boxes_eq)))
  prepared-EndsAs boxes res (panic, b) short (z, r) = absurd z

  -- What the start of a fetch does, by the answer of the vmod.
  abbrev pub Starts : BusyObj T → Outcome (Option T) × Http → Outcome ℤ × BusyObj T → Type 0
  Starts b (ok res, h) result = EndsAs b.boxes res result
  Starts b (err e, h) result =
      (b' : BusyObj T) × (result ≡ (ok (pos 1), b')) × (b'.htc ≡ none) × (b'.boxes ≡ b.boxes)
  Starts b (panic, h) result = result ≡ (panic, record b { beresp = h })

  -- The headers that the vmod leaves with a response can take a protocol.
  abbrev pub TakesProto : Outcome (Option T) × Http → Type 0
  TakesProto (ok res, h) = IsIdle h.ws × (vd.ix.proto < h.nhd)
  TakesProto _ = Unit {0}

  answered-Starts :
      (b : BusyObj T) (x : Outcome (Option T) × Http)
      → length be.type_name + 1 < 2 ^ 32
      → b.htc ≡ none
      → b.director_valid ≡ true
      → TakesProto x
      → Starts b x (answered vd be x b)
  answered-Starts b (ok res, h) short at valid (idle, slot) =
      let start = record b { beresp = h } in
      let ready : IsReady vd be v b.boxes start = record {
        idle = idle;
        proto_slot = slot;
        htc_eq = at;
        boxes_eq = refl;
        valid = valid;
      } in
      prepared-EndsAs b.boxes res (prepare vd be start) short
        (prepare-Answers vd be v b.boxes start ready)
  answered-Starts b (err e, h) short at valid p = (_, refl, at, refl)
  answered-Starts b (panic, h) short at valid p = refl

  -- Without a connection before it, for a valid director whose type has a name below 2 ^ 32 - 1
  -- bytes and a vmod that leaves an idle workspace and a slot for the protocol: a fetch panics only
  -- if the vmod does. An error of the vmod has the status 1. With the status 0 the connection has
  -- the response, is chunked if the response has no length, has no body for the length 0 and no
  -- response, and else has the length of the response, as a number below 2 ^ 63; finishing drops
  -- the box and the connection, and asking for the address panics. With another status there is no connection, and no box is dropped.
  pub wrap_gethdrs_lem :
      (b : BusyObj T)
      → length be.type_name + 1 < 2 ^ 32
      → b.htc ≡ none
      → b.director_valid ≡ true
      → TakesProto (be.get_response b.beresp)
      → Starts b (be.get_response b.beresp) (wrap_gethdrs vd be b)
  unfolding wrap_gethdrs
  wrap_gethdrs_lem b short at valid p =
      let answer = answered vd be (be.get_response b.beresp) b in
      let gate : wrap_gethdrs vd be b ≡ answer = ap (λ t. if t then answer else (panic, b)) valid in
      subst (Starts b (be.get_response b.beresp)) (sym gate)
        (answered-Starts b (be.get_response b.beresp) short at valid p)
