-- ===== src/Backends/Leaks.antt =====
-- varnish-sys/src/vcl/backend/backend_main.rs: a fetch that fails behind its box.
use varnish_rs.Prelude.{
  ℕ, ◌+◌, ◌≤◌, ◌<◌, ◌≡◌, refl, ap, ◌∙◌, ◌≢◌, true, false, none, some, ne→==, negsuc, if◌then◌else◌,
  arith,
}
use varnish_rs.Outcome.{ok, err, panic, and_then}
use varnish_rs.Memory.{null}
use varnish_rs.Boxes.{one_made}
use varnish_rs.Workspace.Allocator.{round_up}
use varnish_rs.Workspace.Contract.{IsIdle}
use varnish_rs.Http.{Http}
use varnish_rs.Http.Lookup.{status, proto}
use varnish_rs.Backends.{
  BusyObj, Varnishd, VclBackend, BodyStatus, bs_none, bs_chunked, bs_length, no_workspace, is_none,
  body_of, report, code_of, answered, ws_alloc, push_vfp, with_filter, set_htc, conn_of, prepare,
  connect, wrap_gethdrs, wrap_finish,
}
use varnish_rs.Backends.Steps.{IsVarnishd, IsIdle-advanced}

module _ {T : Type 0} (vd : Varnishd) (be : VclBackend T) (v : IsVarnishd vd) where
  ws_alloc-room :
      (n : ℕ) (b : BusyObj T)
      → 0 < n
      → IsIdle b.beresp.ws
      → b.beresp.ws.f + round_up n ≤ b.beresp.ws.e
      → ws_alloc vd be n b ≡ (
        ok tt,
        record b {
          beresp = record b.beresp { ws = record b.beresp.ws { f = b.beresp.ws.f + round_up n } };
        },
      )
  ws_alloc-room n b p i room = rw (
    v.laws.alloc_room n b.beresp.ws i p room,
    ne→== b.beresp.ws.f null (omega (arith, i.ws.base, i.ws.lower)),
  )

  ws_alloc-full :
      (n : ℕ) (b : BusyObj T)
      → 0 < n
      → IsIdle b.beresp.ws
      → b.beresp.ws.e < b.beresp.ws.f + round_up n
      → ws_alloc vd be n b ≡ (err (negsuc 0), report no_workspace b)
  ws_alloc-full n b p i full = rw (v.laws.alloc_full n b.beresp.ws i p full)

  -- A body that is not empty needs the filter.
  with_filter-full :
      (body : BodyStatus) (b : BusyObj T)
      → body ≢ bs_none
      → IsIdle b.beresp.ws
      → b.beresp.ws.e < b.beresp.ws.f + round_up vd.vfp_size
      → with_filter vd be body b ≡ (err (negsuc 0), report no_workspace b)
  unfolding push_vfp
  with_filter-full bs_none b ne i full = absurd (ne refl)
  with_filter-full bs_chunked b ne i full =
      ap (and_then _) (ws_alloc-full vd.vfp_size b v.vfp_sized i full)
  with_filter-full bs_length b ne i full =
      ap (and_then _) (ws_alloc-full vd.vfp_size b v.vfp_sized i full)

  prepare-room :
      (b : BusyObj T)
      → IsIdle b.beresp.ws
      → is_none (status vd.ix b.beresp) ≡ false
      → is_none (proto vd.ix b.beresp) ≡ false
      → b.beresp.ws.f + round_up vd.http_conn_size ≤ b.beresp.ws.e
      → prepare vd be b ≡ (
        ok tt,
        record b {
          beresp = record b.beresp {
            ws = record b.beresp.ws { f = b.beresp.ws.f + round_up vd.http_conn_size };
          };
        },
      )
  unfolding prepare
  prepare-room b i has_status has_proto room =
      rw (has_status, has_proto) (ws_alloc-room vd.http_conn_size b v.http_conn_sized i room)

  -- For a response with a body, status and protocol, in a workspace with room for the connection
  -- and none for the filter: the fetch fails with the status -1, the box of the response is made,
  -- no connection refers to it, and finishing does not drop it.
  pub wrap_gethdrs_leaks :
      (b : BusyObj T) (t : T) (h : Http)
      → b.director_valid ≡ true
      → b.htc ≡ none
      → be.get_response b.beresp ≡ (ok (some t), h)
      → is_none (status vd.ix h) ≡ false
      → is_none (proto vd.ix h) ≡ false
      → (body_of (be.len t)).0 ≢ bs_none
      → IsIdle h.ws
      → h.ws.f + round_up vd.http_conn_size ≤ h.ws.e
      → h.ws.e < h.ws.f + round_up vd.http_conn_size + round_up vd.vfp_size
      → (b' : BusyObj T) × (wrap_gethdrs vd be b ≡ (ok (negsuc 0), b'))
        × (b'.boxes ≡ one_made b.boxes)
        × (b'.htc ≡ none)
        × (wrap_finish vd be b' ≡ (ok tt, b'))
  unfolding wrap_gethdrs connect wrap_finish
  wrap_gethdrs_leaks b t h valid at answer has_status has_proto body i room full =
      let start = record b { beresp = h } in
      let w = record h.ws { f = h.ws.f + round_up vd.http_conn_size } in
      let prepared = record b { beresp = record h { ws = w } } in
      let boxed = record prepared { boxes = one_made b.boxes } in
      let kind = (body_of (be.len t)).0 in
      let conn = set_htc vd be (conn_of vd be (body_of (be.len t)) (some t)) in
      let idle : IsIdle w = IsIdle-advanced h.ws vd.http_conn_size i v.http_conn_sized room in
      let b' = report no_workspace boxed in
      let gate : wrap_gethdrs vd be b ≡ answered vd be (be.get_response b.beresp) b =
        ap (λ t. if t then answered vd be (be.get_response b.beresp) b else (panic, b)) valid in
      (
        b',
        gate
            ∙ ap (λ x. answered vd be x b) answer
            ∙ ap (λ x. code_of (and_then (λ _. connect vd be (some t)) x))
                (prepare-room start i has_status has_proto room)
            ∙ ap (λ x. code_of (and_then (λ _. conn) x))
                (with_filter-full kind boxed body idle full),
        refl,
        at,
        rw (valid, at),
      )
