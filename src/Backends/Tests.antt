-- ===== src/Backends/Tests.antt =====
-- A fetch from a backend that serves bytes, and instances of the theorems on fetches.
use varnish_rs.Prelude.{
  ℕ, ◌≡◌, refl, true, false, none, some, [], ◌∷◌, pos, negsuc, length, take, drop, arith,
}
use varnish_rs.Outcome.{Bytes, ok}
use varnish_rs.Memory.{read}
use varnish_rs.Workspace.Allocator.{test_runtime}
use varnish_rs.Workspace.Contract.{position, test_runtime-IsRuntime, fresh_ws, fresh_ws-IsIdle}
use varnish_rs.HeaderText.{to_slice}
use varnish_rs.Http.{Slot, Http}
use varnish_rs.Http.Lookup.{field, status, proto}
use varnish_rs.Processors.{vfp_ok, vfp_end}
use varnish_rs.Backends.{
  BusyObj, Varnishd, VclBackend, bs_length, wrap_gethdrs, wrap_finish, vfp_pull,
}
use varnish_rs.Backends.Steps.{IsVarnishd}
use varnish_rs.Backends.Fetches.{EndsAs, wrap_gethdrs_lem}
use varnish_rs.Backends.Leaks.{wrap_gethdrs_leaks}

abbrev vd : Varnishd
vd = record {
  rt = test_runtime position;
  ix = record { method = 0; url = 1; proto = 2; status = 3; reason = 4; first = 5; unset = 6 };
  set_status = λ n h. record h { logtag = n };
  vfp_push = λ h. (true, h);
  http_conn_size = 16;
  vfp_size = 24;
  http_conn_magic = 7;
  busyobj_magic = 9;
}

vd-IsVarnishd : IsVarnishd vd
vd-IsVarnishd = record {
  laws = test_runtime-IsRuntime;
  status_idle = λ n h i. i;
  status_nhd = λ n h. refl;
  push_idle = λ h i. i;
  push_nhd = λ h. refl;
  http_conn_sized = omega arith;
  vfp_sized = omega arith;
  magics_differ = λ e. omega (arith, e);
}

abbrev served : Bytes
served = 5 ∷ 6 ∷ 7 ∷ []

abbrev server : VclBackend Bytes
server = record {
  type_name = b'b' ∷ b'e' ∷ [];
  get_response = λ h. (ok (some served), h);
  len = λ t. some (length t);
  read = λ buf t. (ok (length (take (length buf) t)), take (length buf) t, drop (length buf) t);
  get_ip = λ t. ok none;
}

-- Every slot has an empty text.
abbrev empty_slot : Slot
empty_slot = record { hd = record { b = 8; e = 8 }; hdf = 0 }

abbrev headers : ℕ → Http
headers size = record {
  nhd = 5;
  shd = 6;
  slots = empty_slot ∷ empty_slot ∷ empty_slot ∷ empty_slot ∷ empty_slot ∷ empty_slot ∷ [];
  protover = 11;
  logtag = 20;
  ws = fresh_ws 64 size (λ a. 0);
  log = [];
}

abbrev fetch : ℕ → BusyObj Bytes
fetch size = record {
  magic = 9;
  director_valid = true;
  beresp = headers size;
  htc = none;
  filtered = false;
  reports = [];
  boxes = record { made = 0; dropped = 0 };
}

wrap_gethdrs_lem_example :
    EndsAs vd server vd-IsVarnishd
      (record { made = 0; dropped = 0 })
      (some served)
      (wrap_gethdrs vd server (fetch 640))
wrap_gethdrs_lem_example =
    wrap_gethdrs_lem vd server vd-IsVarnishd (fetch 640) (omega arith) refl refl (
      fresh_ws-IsIdle 64 640 (λ a. 0) (omega arith) (omega arith) (omega arith) (omega arith),
      omega arith,
    )

wrap_gethdrs_leaks_example :
    (b' : BusyObj Bytes) × (wrap_gethdrs vd server (fetch 36) ≡ (ok (negsuc 0), b'))
    × (b'.boxes ≡ record { made = 1; dropped = 0 })
    × (b'.htc ≡ none)
    × (wrap_finish vd server b' ≡ (ok tt, b'))
unfolding status proto field to_slice read
wrap_gethdrs_leaks_example =
    wrap_gethdrs_leaks vd server vd-IsVarnishd (fetch 36) served (headers 36) refl refl refl refl
      refl (λ e. absurd (cc e))
      (fresh_ws-IsIdle 64 36 (λ a. 0) (omega arith) (omega arith) (omega arith) (omega arith))
      (omega arith) (omega arith)

-- The body goes out in pieces of the buffer, and then ends.
abbrev connected : Bytes → BusyObj Bytes
connected rest = record (fetch 36) {
  htc =
      some (record {
        magic = 7;
        content_length = pos 3;
        body_status = bs_length;
        response = some rest;
      });
}

pull_piece :
    vfp_pull vd server (0 ∷ 0 ∷ []) (connected served)
    ≡ (ok (vfp_ok, pos 2, 5 ∷ 6 ∷ []), connected (7 ∷ []))
unfolding vfp_pull
pull_piece = refl

pull_end : (vfp_pull vd server (0 ∷ 0 ∷ []) (connected [])).0 ≡ ok (vfp_end, pos 0, [])
unfolding vfp_pull
pull_end = refl
