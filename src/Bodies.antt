-- ===== src/Bodies.antt =====
-- varnish-sys/src/vcl/ctx.rs: `req_body_state` and `req_body`, which copies the body of a request
-- into a writer by a callback of varnishd.
pub mod Copies
mod Tests
use varnish_rs.Prelude.{
  ℕ, zero, suc, Bool, true, false, not, ◌&&◌, Option, none, some, List, [], ◌∷◌, ◌==◌, ℤ, pos,
  negsuc, if◌then◌else◌,
}
use varnish_rs.Outcome.{Bytes, Result, ok, err, panic}

pub data BodyState : Type 0 where
  no_body body_error chunked with_length eof taken cached : BodyState

abbrev pub is_cached : BodyState → Bool
is_cached cached = true
is_cached _ = false

abbrev pub is_error : BodyState → Bool
is_error body_error = true
is_error _ = false

-- The parts of `ffi::req` and `ffi::busyobj` that are used.
pub record ReqBody : Type 0 where
  pub status : BodyState
  pub doclose : Bool

pub record BereqBody : Type 0 where
  pub bereq_body : Bool
  pub req : Option ReqBody
  pub no_retry : Bool
  pub err_code : ℕ

-- The context: a busyobj in a backend, and a request in a client.
pub record BodyCtx : Type 0 where
  pub bo : Option BereqBody
  pub req : Option ReqBody

-- The errors, where the writer's is kept.
pub data BodyError (E : Type 0) : Type 0 where
  unavailable client_stream backend_stream : BodyError E
  writer_failed : E → BodyError E

abbrev pub live_state : Option ReqBody → BodyState
live_state none = no_body
live_state (some req) = req.status

abbrev pub state_in :
    {E : Type 0} → Option BereqBody → Option ReqBody → Result (BodyError E) BodyState
state_in (some bo) req = ok (if bo.bereq_body then cached else live_state bo.req)
state_in none (some req) = ok req.status
state_in none none = err unavailable

unfoldable pub req_body_state : {E : Type 0} → BodyCtx → Result (BodyError E) BodyState
req_body_state c = state_in c.bo c.req

-- A writer with its state and its errors.
pub record BodyWriterState (W E : Type 0) : Type 0 where
  pub writer : W
  pub error : Option E

-- What varnishd iterates over: it calls the callback, and gives a number and the status in which it
-- leaves the request. `ObjIterate` gives a number that is not used.
pub record Iterators (W E : Type 0) : Type 0 where
  pub write_all : Bytes → W → Option E × W
  pub vrb_iterate :
      (Option Bytes → BodyWriterState W E → ℕ × BodyWriterState W E)
      → BodyWriterState W E
      → ℤ × BodyState × BodyWriterState W E
  pub obj_iterate :
      (Option Bytes → BodyWriterState W E → ℕ × BodyWriterState W E)
      → BodyWriterState W E
      → BodyWriterState W E

module _ {W E : Type 0} (it : Iterators W E) where
  abbrev pub wrote : Option E × W → BodyWriterState W E → ℕ × BodyWriterState W E
  wrote (none, w) s = (0, record s { writer = w })
  wrote (some e, w) s = (1, record { writer = w; error = some e })

  -- The buffer is none if its pointer is null.
  abbrev pub write_body_iterate : Option Bytes → BodyWriterState W E → ℕ × BodyWriterState W E
  write_body_iterate none s = (0, s)
  write_body_iterate (some []) s = (0, s)
  write_body_iterate (some (x ∷ buf)) s = wrote (it.write_all (x ∷ buf) s.writer) s

  abbrev pub failed_stream : ℤ → BodyError E → Result (BodyError E) Bool
  failed_stream (pos n) stream_err = ok true
  failed_stream (negsuc n) stream_err = err stream_err

  abbrev pub resolve_iterate_result : ℤ → Option E → BodyError E → Result (BodyError E) Bool
  resolve_iterate_result rv (some e) stream_err = err (writer_failed e)
  resolve_iterate_result rv none stream_err = failed_stream rv stream_err

  abbrev pub fresh_writer : W → BodyWriterState W E
  fresh_writer w = record { writer = w; error = none }

  -- In a client, from `VRB_Iterate`.
  abbrev pub from_client :
      ℤ × BodyState × BodyWriterState W E
      → ReqBody
      → BodyCtx
      → Result (BodyError E) Bool × BodyCtx × W
  from_client (rv, after, s) req c = (
    resolve_iterate_result rv s.error client_stream,
    record c { req = some (record req { status = after }) },
    s.writer,
  )

  abbrev pub read_client : Option ReqBody → BodyCtx → W → Result (BodyError E) Bool × BodyCtx × W
  read_client none c w = (err unavailable, c, w)
  read_client (some req) c w =
      from_client (it.vrb_iterate write_body_iterate (fresh_writer w)) req c

  -- In a backend with a cached body, from `ObjIterate`.
  abbrev pub only_writer_fails : Option E → Result (BodyError E) Bool
  only_writer_fails none = ok true
  only_writer_fails (some e) = err (writer_failed e)

  abbrev pub read_cached : BodyCtx → W → Result (BodyError E) Bool × BodyCtx × W
  read_cached c w =
      let s = it.obj_iterate write_body_iterate (fresh_writer w) in
      (only_writer_fails s.error, c, s.writer)

  abbrev pub is_some : Option E → Bool
  is_some none = false
  is_some (some e) = true

  -- What is noted of a streamed body: no retry, and a failure of the client that the writer did not
  -- cause.
  abbrev pub noted : BodyState → Option E → ReqBody → BereqBody → BereqBody
  noted after error req bo =
      let broken = not (is_some error) && is_error after in
      record bo {
        req = some (record req { status = after; doclose = if broken then true else req.doclose });
        no_retry = if is_cached after then bo.no_retry else true;
        err_code = if broken then 400 else bo.err_code;
      }

  abbrev pub from_backend :
      ℤ × BodyState × BodyWriterState W E
      → ReqBody
      → BereqBody
      → BodyCtx
      → Result (BodyError E) Bool × BodyCtx × W
  from_backend (rv, after, s) req bo c = (
    resolve_iterate_result rv s.error backend_stream,
    record c { bo = some (noted after s.error req bo) },
    s.writer,
  )

  -- Without a request the state is `no_body`, which has been returned before.
  abbrev pub read_streamed :
      Option ReqBody → BereqBody → BodyCtx → W → Result (BodyError E) Bool × BodyCtx × W
  read_streamed none bo c w = (panic, c, w)
  read_streamed (some req) bo c w =
      from_backend (it.vrb_iterate write_body_iterate (fresh_writer w)) req bo c

  abbrev pub read_body :
      Option BereqBody → BodyState → BodyCtx → W → Result (BodyError E) Bool × BodyCtx × W
  read_body none state c w = read_client c.req c w
  read_body (some bo) cached c w = read_cached c w
  read_body (some bo) state c w = read_streamed bo.req bo c w

  abbrev pub with_state :
      Result (BodyError E) BodyState → BodyCtx → W → Result (BodyError E) Bool × BodyCtx × W
  with_state (err e) c w = (err e, c, w)
  with_state panic c w = (panic, c, w)
  with_state (ok no_body) c w = (ok false, c, w)
  with_state (ok state) c w = read_body c.bo state c w

  unfoldable pub req_body : BodyCtx → W → Result (BodyError E) Bool × BodyCtx × W
  unfolding req_body_state
  req_body c w = with_state (req_body_state c) c w
