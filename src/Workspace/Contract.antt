-- ===== src/Workspace/Contract.antt =====
-- What the allocator of a workspace promises, and that the allocator of
-- varnish-sys/src/vcl/ws.rs for tests keeps the promise.
use varnish_rs.Prelude.{
  ℕ, suc, ◌+◌, ◌-◌, ◌%◌, ◌^◌, ◌≤◌, ◌<◌, ◌≡◌, refl, ◌∙◌, ◌⊎◌, inl, inr, Option, none, some, [], ◌∷◌,
  ◌==◌, if◌then◌else◌, ◌*◌, ◌/◌, eq→==, le→leb, lt→ltb, arith,
}
use varnish_rs.Outcome.{Bytes, ok}
use varnish_rs.Memory.{Memory, null}
use varnish_rs.Workspace.{Ws, ws_magic, Runtime}
use varnish_rs.Workspace.Allocator.{
  ws_align, round_up, test_alloc, test_reserve_all, test_release, test_runtime,
}

-- The bounds of a workspace, which fits in 32 bits.
pub record IsWs (w : Ws) : Type 0 where
  pub magic_ok : w.magic ≡ ws_magic
  pub base : 0 < w.s
  pub lower : w.s ≤ w.f
  pub upper : w.f ≤ w.e
  pub f_aligned : w.f % 8 ≡ 0
  pub e_aligned : w.e % 8 ≡ 0
  pub fits : w.e < w.s + 2 ^ 32
  pub address : w.e < 2 ^ 63

pub record IsIdle (w : Ws) : Type 0 where
  pub ws : IsWs w
  pub free : w.r ≡ null

pub record IsReserved (w : Ws) : Type 0 where
  pub ws : IsWs w
  pub taken : w.r ≡ w.e

-- The index of the first `c`.
unfoldable pub position : ℕ → Bytes → Option ℕ
position c [] = none
position c (b ∷ bs) =
    if b == c then some 0 else elim (position c bs) [ none ↦ none | some i ↦ some (suc i) ]

-- The documented behaviour of the allocator and of memchr.
pub record IsRuntime (rt : Runtime) : Type 0 where
  pub alloc_room :
      (n : ℕ) (w : Ws)
      → IsIdle w
      → 0 < n
      → w.f + round_up n ≤ w.e
      → rt.alloc n w ≡ (ok w.f, record w { f = w.f + round_up n })
  pub alloc_full :
      (n : ℕ) (w : Ws) → IsIdle w → 0 < n → w.e < w.f + round_up n → rt.alloc n w ≡ (ok null, w)
  pub reserve_idle : (w : Ws) → IsIdle w → rt.reserve_all w ≡ (ok (w.e - w.f), record w { r = w.e })
  pub release_reserved :
      (n : ℕ) (w : Ws)
      → IsReserved w
      → w.f + n ≤ w.e
      → rt.release n w ≡ (ok tt, record w { f = w.f + round_up n; r = null })
  pub memchr_first : (c : ℕ) (bs : Bytes) → rt.memchr c bs ≡ position c bs

test_alloc_room :
    (n : ℕ) (w : Ws)
    → IsIdle w
    → 0 < n
    → w.f + round_up n ≤ w.e
    → test_alloc n w ≡ (ok w.f, record w { f = w.f + round_up n })
unfolding test_alloc
test_alloc_room n w i p h = ground arith

test_alloc_full :
    (n : ℕ) (w : Ws) → IsIdle w → 0 < n → w.e < w.f + round_up n → test_alloc n w ≡ (ok null, w)
unfolding test_alloc
test_alloc_full n w i p h = ground arith

test_reserve_idle :
    (w : Ws) → IsIdle w → test_reserve_all w ≡ (ok (w.e - w.f), record w { r = w.e })
unfolding test_reserve_all
test_reserve_idle w i = rw (
  eq→== w.magic ws_magic i.ws.magic_ok,
  eq→== w.r null i.free,
  le→leb w.f w.e i.ws.upper,
  lt→ltb (w.e - w.f) (2 ^ 32) (omega (arith, i.ws.lower, i.ws.fits)),
)

test_release_reserved :
    (n : ℕ) (w : Ws)
    → IsReserved w
    → w.f + n ≤ w.e
    → test_release n w ≡ (ok tt, record w { f = w.f + round_up n; r = null })
unfolding test_release
test_release_reserved n w i h = ground arith

-- The allocator for tests keeps the contract, with a search that returns the first index.
pub test_runtime-IsRuntime : IsRuntime (test_runtime position)
test_runtime-IsRuntime = record {
  alloc_room = test_alloc_room;
  alloc_full = test_alloc_full;
  reserve_idle = test_reserve_idle;
  release_reserved = test_release_reserved;
  memchr_first = λ c bs. refl;
}

-- What every operation of a `Workspace` may do: take free bytes and write in what it took.
pub record Extends (w w' : Ws) : Type 0 where
  pub idle : IsIdle w'
  pub s_eq : w'.s ≡ w.s
  pub e_eq : w'.e ≡ w.e
  pub grows : w.f ≤ w'.f
  pub keeps : (a : ℕ) → (a < w.f) ⊎ (w'.f ≤ a) → w'.mem a ≡ w.mem a

pub Extends-refl : {w : Ws} → IsIdle w → Extends w w
Extends-refl i = record {
  idle = i;
  s_eq = refl;
  e_eq = refl;
  grows = omega arith;
  keeps = λ a h. refl;
}

pub Extends-trans : {u v w : Ws} → Extends u v → Extends v w → Extends u w
Extends-trans {u} {v} {w} x y = record {
  idle = y.idle;
  s_eq = y.s_eq ∙ x.s_eq;
  e_eq = y.e_eq ∙ x.e_eq;
  grows = omega arith;
  keeps = λ a h. elim h [
    | inl below ↦ y.keeps a (inl (omega arith)) ∙ x.keeps a (inl below)
    | inr above ↦ y.keeps a (inr above) ∙ x.keeps a (inr (omega arith))
  ];
}

-- The workspace that `test_ws` makes.
abbrev pub fresh_ws : ℕ → ℕ → Memory → Ws
fresh_ws space sz mem = record {
  magic = ws_magic;
  s = space;
  f = space;
  r = null;
  e = space + sz / ws_align * ws_align;
  mem = mem;
}

pub fresh_ws-IsIdle :
    (space sz : ℕ) (mem : Memory)
    → 0 < space
    → space % 8 ≡ 0
    → sz < 2 ^ 32
    → space + sz < 2 ^ 63
    → IsIdle (fresh_ws space sz mem)
fresh_ws-IsIdle space sz mem p d q a = record {
  ws = record {
    magic_ok = refl;
    base = p;
    lower = omega arith;
    upper = omega arith;
    f_aligned = d;
    e_aligned = omega arith;
    fits = omega arith;
    address = omega arith;
  };
  free = refl;
}
