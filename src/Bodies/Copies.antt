-- ===== src/Bodies/Copies.antt =====
-- varnish-sys/src/vcl/ctx.rs: a streamed body in a backend, with the documented behaviour of
-- `VRB_Iterate` as a hypothesis.
use varnish_rs.Prelude.{
  ℕ, zero, suc, Bool, true, false, ◌≡◌, refl, ap, ◌∙◌, Option, none, some, List, [], ◌∷◌, ℤ, pos,
  negsuc,
}
use varnish_rs.Outcome.{Bytes, Result, ok, err}
use varnish_rs.Bodies.{
  BodyState, no_body, body_error, chunked, with_length, eof, taken, cached, ReqBody, BereqBody,
  BodyCtx, BodyError, backend_stream, writer_failed, BodyWriterState, Iterators, write_body_iterate,
  wrote, fresh_writer, resolve_iterate_result, noted, from_backend, req_body_state, req_body,
}

-- A status that is read from the client's connection.
abbrev pub reads_connection : BodyState → Bool
reads_connection no_body = false
reads_connection cached = false
reads_connection _ = true

abbrev pub go_on : {S : Type 0} → (S → S) → ℕ × S → S
go_on rest (zero, s) = rest s
go_on rest (suc n, s) = s

-- Calls a callback on chunks in order until it gives a number that is not 0.
abbrev pub feed : {S : Type 0} → (Option Bytes → S → ℕ × S) → List (Option Bytes) → S → S
feed callback [] s = s
feed callback (b ∷ bs) s = go_on (feed callback bs) (callback b s)

abbrev pub unless_failed : {W E : Type 0} → (W → Option E × W) → Option E × W → Option E × W
unless_failed rest (none, w) = rest w
unless_failed rest (some e, w) = (some e, w)

-- Writes the chunks that hold a byte, up to the first error.
abbrev pub copy_all :
    {W E : Type 0} → (Bytes → W → Option E × W) → List (Option Bytes) → W → Option E × W
copy_all write_all [] w = (none, w)
copy_all write_all (none ∷ bs) w = copy_all write_all bs w
copy_all write_all (some [] ∷ bs) w = copy_all write_all bs w
copy_all write_all (some (x ∷ b) ∷ bs) w =
    unless_failed (copy_all write_all bs) (write_all (x ∷ b) w)

abbrev as_state : {W E : Type 0} → Option E × W → BodyWriterState W E
as_state (error, writer) = record { writer = writer; error = error }

abbrev pub in_backend : BereqBody → ReqBody → Option ReqBody → BodyCtx
in_backend bo req other = record {
  bo = some (record bo { bereq_body = false; req = some req });
  req = other;
}

-- The writer's error comes first, then a number below 0.
abbrev pub result_of_copy : {E : Type 0} → ℤ → Option E → Result (BodyError E) Bool
result_of_copy rv (some e) = err (writer_failed e)
result_of_copy (negsuc n) none = err backend_stream
result_of_copy (pos n) none = ok true

-- The request has its new status; only a body that is cached by then can be sent again; and the
-- client is at fault if its body is broken and the writer has not failed.
abbrev pub fetch_after : {E : Type 0} → BodyState → Option E → ReqBody → BereqBody → BereqBody
fetch_after cached error req bo = record bo { req = some (record req { status = cached }) }
fetch_after body_error none req bo = record bo {
  req = some (record { status = body_error; doclose = true });
  no_retry = true;
  err_code = 400;
}
fetch_after after error req bo = record bo {
  req = some (record req { status = after });
  no_retry = true;
}

abbrev pub after_copy :
    {W E : Type 0}
    → ℤ
    → BodyState
    → Option E × W
    → ReqBody
    → BereqBody
    → Option ReqBody
    → Result (BodyError E) Bool × BodyCtx × W
after_copy rv after (error, w) req bo other = (
  result_of_copy rv error,
  record {
    bo = some (fetch_after after error req (record bo { bereq_body = false; req = some req }));
    req = other;
  },
  w,
)

module _ {W E : Type 0} (it : Iterators W E) where
  go_on-wrote :
      (bs : List (Option Bytes)) (r : Option E × W)
      → ((w : W)
          → feed (write_body_iterate it) bs (fresh_writer it w)
            ≡ as_state (copy_all it.write_all bs w))
      → (w : W)
      → go_on (feed (write_body_iterate it) bs) (wrote it r (fresh_writer it w))
        ≡ as_state (unless_failed (copy_all it.write_all bs) r)
  go_on-wrote bs (none, v) rest w = rest v
  go_on-wrote bs (some e, v) rest w = refl

  feed-copy_all :
      (bs : List (Option Bytes)) (w : W)
      → feed (write_body_iterate it) bs (fresh_writer it w) ≡ as_state (copy_all it.write_all bs w)
  feed-copy_all [] w = refl
  feed-copy_all (none ∷ bs) w = feed-copy_all bs w
  feed-copy_all (some [] ∷ bs) w = feed-copy_all bs w
  feed-copy_all (some (x ∷ b) ∷ bs) w = go_on-wrote bs (it.write_all (x ∷ b) w) (feed-copy_all bs) w

  resolve_iterate_result_lem :
      (rv : ℤ) (error : Option E)
      → resolve_iterate_result it rv error backend_stream ≡ result_of_copy rv error
  resolve_iterate_result_lem rv (some e) = refl
  resolve_iterate_result_lem (negsuc n) none = refl
  resolve_iterate_result_lem (pos n) none = refl

  noted_lem :
      (after : BodyState) (error : Option E) (req : ReqBody) (bo : BereqBody)
      → noted it after error req bo ≡ fetch_after after error req bo
  noted_lem no_body none req bo = refl
  noted_lem no_body (some e) req bo = refl
  noted_lem body_error none req bo = refl
  noted_lem body_error (some e) req bo = refl
  noted_lem chunked none req bo = refl
  noted_lem chunked (some e) req bo = refl
  noted_lem with_length none req bo = refl
  noted_lem with_length (some e) req bo = refl
  noted_lem eof none req bo = refl
  noted_lem eof (some e) req bo = refl
  noted_lem taken none req bo = refl
  noted_lem taken (some e) req bo = refl
  noted_lem cached none req bo = refl
  noted_lem cached (some e) req bo = refl

  from_backend_lem :
      (rv : ℤ) (after : BodyState) (r : Option E × W) (req : ReqBody) (bo : BereqBody)
      (other : Option ReqBody)
      → from_backend it
          (rv, after, as_state r)
          req
          (record bo { bereq_body = false; req = some req })
          (in_backend bo req other)
        ≡ after_copy rv after r req bo other
  from_backend_lem rv after (error, w) req bo other =
      ap
        (λ result. (
          result,
          record {
            bo = some (noted it after error req (record bo { bereq_body = false; req = some req }));
            req = other;
          },
          w,
        ))
        (resolve_iterate_result_lem rv error)
      ∙ ap (λ f. (result_of_copy rv error, record { bo = some f; req = other }, w))
          (noted_lem after error req (record bo { bereq_body = false; req = some req }))

  streamed :
      (status : BodyState) (doclose : Bool) (bo : BereqBody) (other : Option ReqBody) (w : W)
      → reads_connection status ≡ true
      → let req : ReqBody = record { status = status; doclose = doclose } in
        req_body it (in_backend bo req other) w
        ≡ from_backend it
            (it.vrb_iterate (write_body_iterate it) (fresh_writer it w))
            req
            (record bo { bereq_body = false; req = some req })
            (in_backend bo req other)
  unfolding req_body req_body_state
  streamed no_body doclose bo other w live = cc live
  streamed body_error doclose bo other w live = refl
  streamed chunked doclose bo other w live = refl
  streamed with_length doclose bo other w live = refl
  streamed eof doclose bo other w live = refl
  streamed taken doclose bo other w live = refl
  streamed cached doclose bo other w live = cc live

  -- In a backend with a body that is read from the client, where `VRB_Iterate` calls the callback on
  -- some chunks in order until it fails: the writer has been given the chunks that hold a byte up to
  -- its first error. The answer is that error, or else the stream's if the number of `VRB_Iterate`
  -- is below 0, or else true. The request has the status `VRB_Iterate` left, a retry is ruled out
  -- unless that is `cached`, and the client is closed with a 400 exactly if it is an error and the
  -- writer has not failed.
  pub req_body_lem :
      (status after : BodyState) (doclose : Bool) (bo : BereqBody) (other : Option ReqBody) (w : W)
      (rv : ℤ) (chunks : List (Option Bytes))
      → reads_connection status ≡ true
      → it.vrb_iterate (write_body_iterate it) (fresh_writer it w)
        ≡ (rv, after, feed (write_body_iterate it) chunks (fresh_writer it w))
      → let req : ReqBody = record { status = status; doclose = doclose } in
        req_body it (in_backend bo req other) w
        ≡ after_copy rv after (copy_all it.write_all chunks w) req bo other
  req_body_lem status after doclose bo other w rv chunks live law =
      let req : ReqBody = record { status = status; doclose = doclose } in
      let leave : ℤ × BodyState × BodyWriterState W E → Result (BodyError E) Bool × BodyCtx × W =
        λ r.
          from_backend it r req (record bo { bereq_body = false; req = some req })
            (in_backend bo req other) in
      streamed status doclose bo other w live
      ∙ ap leave law
      ∙ ap (λ s. leave (rv, after, s)) (feed-copy_all chunks w)
      ∙ from_backend_lem rv after (copy_all it.write_all chunks w) req bo other
