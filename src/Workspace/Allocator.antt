-- ===== src/Workspace/Allocator.antt =====
-- varnish-sys/src/vcl/ws.rs: the allocator that stands in for varnishd's under `cfg(test)`, and
-- `TestWS`.
use varnish_rs.Prelude.{
  ℕ, ◌+◌, ◌-◌, ◌*◌, ◌/◌, ◌%◌, ◌^◌, not, ◌&&◌, Option, ltb, leb, ◌==◌, if◌then◌else◌,
}
use varnish_rs.Outcome.{Bytes, Exec, pure, panics, gets, ◌>>=◌, ◌>>◌, assert}
use varnish_rs.Memory.{Memory, null}
use varnish_rs.Workspace.{Ws, ws_magic, Runtime, validate_ws}

-- `align_of::<*const c_void>()`
abbrev pub ws_align : ℕ
ws_align = 8

abbrev pub div_ceil : ℕ → ℕ → ℕ
div_ceil a b = (a + (b - 1)) / b

abbrev pub round_up : ℕ → ℕ
round_up n = div_ceil n ws_align * ws_align

-- `offset_from` is signed: a negative offset is below every size.
unfoldable pub test_alloc : ℕ → Exec Ws ℕ
unfolding validate_ws
test_alloc size = do
  validate_ws
  assert (ltb 0 size)
  w ← gets (λ w. w)
  if ltb w.e (w.f + round_up size) then pure null else do
    λ w'. pure tt (record w' { f = w.f + round_up size })
    assert (w.f % ws_align == 0)
    pure w.f

unfoldable pub test_reserve_all : Exec Ws ℕ
unfolding validate_ws
test_reserve_all = do
  validate_ws
  w ← gets (λ w. w)
  assert (w.r == null)
  λ w'. pure tt (record w' { r = w.e })
  if leb w.f w.e && ltb (w.e - w.f) (2 ^ 32) then pure (w.e - w.f) else panics

unfoldable pub test_release : ℕ → Exec Ws Unit
unfolding validate_ws
test_release size = do
  validate_ws
  w ← gets (λ w. w)
  assert (leb (w.f + size) w.e)
  assert (leb (w.f + size) w.r)
  assert (not (w.r == null))
  λ w'. pure tt (record w' { f = w.f + round_up size })
  assert ((w.f + round_up size) % ws_align == 0)
  λ w'. pure tt (record w' { r = null })

abbrev pub test_runtime : (ℕ → Bytes → Option ℕ) → Runtime
test_runtime memchr = record {
  alloc = test_alloc;
  reserve_all = test_reserve_all;
  release = test_release;
  memchr = memchr;
}

-- `space` is the address at which the allocation of `TestWS` starts.
unfoldable pub test_ws : ℕ → ℕ → Memory → Exec (Unit {0}) Ws
test_ws space sz mem = do
  assert (space % ws_align == 0)
  assert ((space + sz / ws_align * ws_align) % ws_align == 0)
  pure (record {
    magic = ws_magic;
    s = space;
    f = space;
    r = null;
    e = space + sz / ws_align * ws_align;
    mem = mem;
  })
