-- ===== src/Backends/Steps.antt =====
-- varnish-sys/src/vcl/backend/backend_main.rs: the steps of `wrap_gethdrs` neither panic nor touch
-- the connection.
use varnish_rs.Prelude.{
  ℕ, suc, ◌+◌, ◌^◌, ◌≤◌, ◌<◌, ◌≡◌, refl, ◌≢◌, inl, inr, Bool, true, false, Option, none, some,
  lt→ltb, ne→==, le-cases, Bool-cases, ℤ, pos, negsuc, length, arith,
}
use varnish_rs.Outcome.{Bytes, Result, Outcome, ok, err, panic, and_then}
use varnish_rs.Memory.{null}
use varnish_rs.Boxes.{Boxes}
use varnish_rs.Workspace.{Ws, Txt, copy_bytes_with_null}
use varnish_rs.Workspace.Allocator.{round_up}
use varnish_rs.Workspace.Contract.{IsIdle, IsRuntime}
use varnish_rs.Workspace.Text.{CopiesText, text_of, copy_bytes_with_null_lem}
use varnish_rs.Http.{Http, http_version, change_header, set_proto, put_slot}
use varnish_rs.Http.Lookup.{status, proto}
use varnish_rs.Backends.{
  BusyObj, Varnishd, VclBackend, BodyStatus, Step, Report, no_workspace, vfp_refused, report,
  is_none, proto_or_fail, copy_or_fail, pushed_or_fail, default_status, default_proto, ws_alloc,
  push_vfp, with_filter, prepare,
}

-- What the fetch relies on in varnishd: the contract of its allocator, that its functions leave the
-- workspace of the headers idle and keep their number, that its structs have a size, and that the
-- magic numbers of different structs differ.
pub record IsVarnishd (vd : Varnishd) : Type 0 where
  pub laws : IsRuntime vd.rt
  pub status_idle : (n : ℕ) (h : Http) → IsIdle h.ws → IsIdle (vd.set_status n h).ws
  pub status_nhd : (n : ℕ) (h : Http) → (vd.set_status n h).nhd ≡ h.nhd
  pub push_idle : (h : Http) → IsIdle h.ws → IsIdle (vd.vfp_push h).1.ws
  pub push_nhd : (h : Http) → (vd.vfp_push h).1.nhd ≡ h.nhd
  pub http_conn_sized : 0 < vd.http_conn_size
  pub vfp_sized : 0 < vd.vfp_size
  pub magics_differ : vd.http_conn_magic ≢ vd.busyobj_magic

pub IsIdle-advanced :
    (w : Ws) (n : ℕ)
    → IsIdle w
    → 0 < n
    → w.f + round_up n ≤ w.e
    → IsIdle (record w { f = w.f + round_up n })
IsIdle-advanced w n i p room = record {
  ws = record {
    magic_ok = i.ws.magic_ok;
    base = i.ws.base;
    lower = omega (arith, i.ws.lower);
    upper = room;
    f_aligned = omega (arith, i.ws.f_aligned);
    e_aligned = i.ws.e_aligned;
    fits = i.ws.fits;
    address = i.ws.address;
  };
  free = i.free;
}

module _ {T : Type 0} (vd : Varnishd) (be : VclBackend T) (v : IsVarnishd vd) where
  -- The headers can take a protocol, no connection is there, and the boxes are these.
  pub record IsReady (boxes : Boxes) (b : BusyObj T) : Type 0 where
    pub idle : IsIdle b.beresp.ws
    pub proto_slot : vd.ix.proto < b.beresp.nhd
    pub htc_eq : b.htc ≡ none
    pub boxes_eq : b.boxes ≡ boxes
    pub valid : b.director_valid ≡ true

  -- A step that ends early has a status, which is not 0, and does not panic.
  abbrev pub IsAnswer : {A : Type 0} → Result ℤ A → Type 0
  IsAnswer (ok a) = Unit {0}
  IsAnswer (err code) = code ≢ pos 0
  IsAnswer panic = ⊥

  abbrev pub Answers : {A : Type 0} → Boxes → Result ℤ A × BusyObj T → Type 0
  Answers boxes (r, b) = IsAnswer r × IsReady boxes b

  pub Answers-then :
      {A B : Type 0} (boxes : Boxes) (next : A → Step T B) (x : Result ℤ A × BusyObj T)
      → Answers boxes x
      → ((a : A) (b : BusyObj T) → IsReady boxes b → Answers boxes (next a b))
      → Answers boxes (and_then next x)
  Answers-then boxes next (ok a, b) (u, r) h = h a b r
  Answers-then boxes next (err code, b) p h = p
  Answers-then boxes next (panic, b) (z, r) h = absurd z

  failed : (n : ℕ) → pos (suc n) ≢ pos 0
  failed n e = cc e

  failed_below : (n : ℕ) → negsuc n ≢ pos 0
  failed_below n e = cc e

  with_headers :
      (boxes : Boxes) (b : BusyObj T) (h : Http) (filtered : Bool)
      → IsReady boxes b
      → IsIdle h.ws
      → h.nhd ≡ b.beresp.nhd
      → IsReady boxes (record b { beresp = h; filtered = filtered })
  with_headers boxes b h filtered r idle same = record {
    idle = idle;
    proto_slot = omega (arith, same, r.proto_slot);
    htc_eq = r.htc_eq;
    boxes_eq = r.boxes_eq;
    valid = r.valid;
  }

  reported :
      (boxes : Boxes) (b : BusyObj T) (x : Report) → IsReady boxes b → IsReady boxes (report x b)
  reported boxes b x r = record {
    idle = r.idle;
    proto_slot = r.proto_slot;
    htc_eq = r.htc_eq;
    boxes_eq = r.boxes_eq;
    valid = r.valid;
  }

  ws_alloc-Answers :
      (boxes : Boxes) (n : ℕ) (b : BusyObj T)
      → 0 < n
      → IsReady boxes b
      → Answers boxes (ws_alloc vd be n b)
  ws_alloc-Answers boxes n b p r = elim (le-cases (b.beresp.ws.f + round_up n) b.beresp.ws.e) [
    | inl room ↦
        let w = record b.beresp.ws { f = b.beresp.ws.f + round_up n } in
        rw
          (
            v.laws.alloc_room n b.beresp.ws r.idle p room,
            ne→== b.beresp.ws.f null (omega (arith, r.idle.ws.base, r.idle.ws.lower)),
          )
          (
            tt,
            with_headers boxes b (record b.beresp { ws = w }) b.filtered r
                (IsIdle-advanced b.beresp.ws n r.idle p room) refl,
          )
    | inr full ↦
        rw (v.laws.alloc_full n b.beresp.ws r.idle p full)
          (failed_below 0, reported boxes b no_workspace r)
  ]

  copied-Answers :
      (boxes : Boxes) (b : BusyObj T) (o : Outcome Txt × Ws) (source : Option Bytes)
      → IsReady boxes b
      → CopiesText b.beresp.ws o source
      → Answers boxes (copy_or_fail o b)
  copied-Answers boxes b o none r e = rw e (failed_below 0, reported boxes b no_workspace r)
  copied-Answers boxes b o (some text) r (inl (room, (t, w, e, x))) =
      rw e (tt, with_headers boxes b (record b.beresp { ws = w }) b.filtered r x.extends.idle refl)
  copied-Answers boxes b o (some text) r (inr (full, e)) =
      rw e (failed_below 0, reported boxes b no_workspace r)

  pushed-Answers :
      (boxes : Boxes) (b : BusyObj T) (x : Bool × Http)
      → IsReady boxes b
      → IsIdle x.1.ws
      → x.1.nhd ≡ b.beresp.nhd
      → Answers boxes (pushed_or_fail x b)
  pushed-Answers boxes b (true, h) r idle same = (tt, with_headers boxes b h true r idle same)
  pushed-Answers boxes b (false, h) r idle same = (
    failed_below 0,
    reported boxes (record b { beresp = h }) vfp_refused
        (with_headers boxes b h b.filtered r idle same),
  )

  pub push_vfp-Answers :
      (boxes : Boxes) (b : BusyObj T)
      → length be.type_name + 1 < 2 ^ 32
      → IsReady boxes b
      → Answers boxes (push_vfp vd be b)
  unfolding push_vfp
  push_vfp-Answers boxes b short r =
      Answers-then boxes _ (ws_alloc vd be vd.vfp_size b)
        (ws_alloc-Answers boxes vd.vfp_size b v.vfp_sized r)
        (λ u b1 r1.
          Answers-then boxes _
            (copy_or_fail (copy_bytes_with_null vd.rt be.type_name b1.beresp.ws) b1)
            (copied-Answers boxes b1 (copy_bytes_with_null vd.rt be.type_name b1.beresp.ws)
              (text_of be.type_name) r1
              (copy_bytes_with_null_lem vd.rt v.laws be.type_name b1.beresp.ws r1.idle short))
            (λ u b2 r2.
              pushed-Answers boxes b2 (vd.vfp_push b2.beresp) r2 (v.push_idle b2.beresp r2.idle)
                (v.push_nhd b2.beresp)))

  pub with_filter-Answers :
      (boxes : Boxes) (body : BodyStatus) (b : BusyObj T)
      → length be.type_name + 1 < 2 ^ 32
      → IsReady boxes b
      → Answers boxes (with_filter vd be body b)
  with_filter-Answers boxes BodyStatus.bs_none b short r = (tt, r)
  with_filter-Answers boxes BodyStatus.bs_chunked b short r = push_vfp-Answers boxes b short r
  with_filter-Answers boxes BodyStatus.bs_length b short r = push_vfp-Answers boxes b short r

  default_status-Answers :
      (boxes : Boxes) (b : BusyObj T) → IsReady boxes b → Answers boxes (default_status vd be b)
  default_status-Answers boxes b r = elim (Bool-cases (is_none (status vd.ix b.beresp))) [
    | inl missing ↦ rw missing (
      tt,
      with_headers boxes b (vd.set_status 200 b.beresp) b.filtered r
          (v.status_idle 200 b.beresp r.idle) (v.status_nhd 200 b.beresp),
    )
    | inr given ↦ rw given (tt, r)
  ]

  abbrev http_1_1 : Bytes
  http_1_1 = http_version 1 1

  -- What `set_proto` makes of the copy of its text.
  abbrev proto_stored : Http → Outcome Txt × Ws → Outcome (Unit {0}) × Http
  proto_stored h (o, w) =
      and_then (λ text. put_slot vd.ix.proto (record { hd = text; hdf = 0 }))
        (o, record h { protover = 11; ws = w })

  set_proto-stored :
      (h : Http)
      → vd.ix.proto < h.nhd
      → set_proto vd.rt vd.ix http_1_1 h ≡ proto_stored h (copy_bytes_with_null vd.rt http_1_1 h.ws)
  unfolding set_proto change_header
  set_proto-stored h p = rw (lt→ltb vd.ix.proto h.nhd p)

  stored-Answers :
      (boxes : Boxes) (b : BusyObj T) (o : Outcome Txt × Ws) (source : Option Bytes)
      → IsReady boxes b
      → CopiesText b.beresp.ws o source
      → Answers boxes (proto_or_fail (proto_stored b.beresp o) b)
  stored-Answers boxes b o none r e = rw e (
    failed 0,
    reported boxes (record b { beresp = record b.beresp { protover = 11 } }) _
        (with_headers boxes b (record b.beresp { protover = 11 }) b.filtered r r.idle refl),
  )
  stored-Answers boxes b o (some text) r (inl (room, (t, w, e, x))) =
      let h = (proto_stored b.beresp (ok t, w)).1 in
      rw e (tt, with_headers boxes b h b.filtered r x.extends.idle refl)
  stored-Answers boxes b o (some text) r (inr (full, e)) = rw e (
    failed 0,
    reported boxes (record b { beresp = record b.beresp { protover = 11 } }) _
        (with_headers boxes b (record b.beresp { protover = 11 }) b.filtered r r.idle refl),
  )

  default_proto-Answers :
      (boxes : Boxes) (b : BusyObj T) → IsReady boxes b → Answers boxes (default_proto vd be b)
  default_proto-Answers boxes b r = elim (Bool-cases (is_none (proto vd.ix b.beresp))) [
    | inl missing ↦
        rw (missing, set_proto-stored b.beresp r.proto_slot)
          (stored-Answers boxes b (copy_bytes_with_null vd.rt http_1_1 b.beresp.ws)
            (text_of http_1_1) r
            (copy_bytes_with_null_lem vd.rt v.laws http_1_1 b.beresp.ws r.idle (omega arith)))
    | inr given ↦ rw given (tt, r)
  ]

  pub prepare-Answers :
      (boxes : Boxes) (b : BusyObj T) → IsReady boxes b → Answers boxes (prepare vd be b)
  unfolding prepare
  prepare-Answers boxes b r =
      Answers-then boxes _ (default_status vd be b) (default_status-Answers boxes b r) (λ u b1 r1.
        Answers-then boxes _ (default_proto vd be b1) (default_proto-Answers boxes b1 r1)
          (λ u b2 r2. ws_alloc-Answers boxes vd.http_conn_size b2 v.http_conn_sized r2))
