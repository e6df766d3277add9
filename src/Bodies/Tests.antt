-- ===== src/Bodies/Tests.antt =====
-- Copies of bodies, and an instance of their theorem.
use varnish_rs.Prelude.{
  ℕ, true, false, ◌≡◌, refl, Option, none, some, List, [], ◌∷◌, ℤ, pos, negsuc,
}
use varnish_rs.Outcome.{Bytes, ok, err}
use varnish_rs.Bodies.{
  BodyState, body_error, chunked, taken, ReqBody, BereqBody, BodyCtx, unavailable, backend_stream,
  writer_failed, Iterators, req_body_state, req_body,
}
use varnish_rs.Bodies.Copies.{feed, in_backend, req_body_lem}

-- A writer that has no room for a third byte.
abbrev short : Bytes → Bytes → Option ℕ × Bytes
short buf [] = (none, buf)
short [] (a ∷ w) = (none, a ∷ w)
short (x ∷ []) (a ∷ []) = (none, a ∷ x ∷ [])
short buf (a ∷ w) = (some 28, a ∷ w)

abbrev chunks : List (Option Bytes)
chunks = some (b'a' ∷ []) ∷ none ∷ some [] ∷ some (b'b' ∷ []) ∷ []

abbrev too_long : List (Option Bytes)
too_long = some (b'a' ∷ []) ∷ some (b'b' ∷ b'c' ∷ []) ∷ some (b'd' ∷ []) ∷ []

abbrev iterators : ℤ → BodyState → List (Option Bytes) → Iterators Bytes ℕ
iterators rv after body = record {
  write_all = short;
  vrb_iterate = λ callback s. (rv, after, feed callback body s);
  obj_iterate = λ callback s. feed callback body s;
}

abbrev request : ReqBody
request = record { status = chunked; doclose = false }

abbrev fetch : BereqBody
fetch = record { bereq_body = false; req = some request; no_retry = false; err_code = 0 }

abbrev in_client : BodyCtx
in_client = record { bo = none; req = some request }

copied_in_client : req_body (iterators (pos 0) taken chunks) in_client [] ≡ (
  ok true,
  record in_client { req = some (record request { status = taken }) },
  b'a' ∷ b'b' ∷ [],
)
unfolding req_body req_body_state
copied_in_client = refl

cached_in_backend :
    (req_body
      (iterators (negsuc 0) taken chunks)
      (record { bo = some (record fetch { bereq_body = true }); req = none })
      []).0
    ≡ ok true
unfolding req_body req_body_state
cached_in_backend = refl

stream_breaks :
    (req_body
      (iterators (negsuc 0) body_error chunks)
      (record { bo = some fetch; req = none })
      []).0
    ≡ err backend_stream
unfolding req_body req_body_state
stream_breaks = refl

outside :
    (req_body (iterators (pos 0) taken chunks) (record { bo = none; req = none }) []).0
    ≡ err unavailable
unfolding req_body req_body_state
outside = refl

-- The writer fails at the second chunk: its error is kept, and the client is not closed.
req_body_lem_example :
    req_body (iterators (negsuc 0) body_error too_long) (in_backend fetch request none) [] ≡ (
      err (writer_failed 28),
      record {
        bo =
            some (record fetch {
              req = some (record request { status = body_error });
              no_retry = true;
            });
        req = none;
      },
      b'a' ∷ [],
    )
req_body_lem_example =
    req_body_lem (iterators (negsuc 0) body_error too_long) chunked body_error false fetch none []
      (negsuc 0) too_long refl refl
