-- ===== src/Workspace/Allocations.antt =====
-- varnish-sys/src/vcl/ws.rs: what `Workspace` allocates and copies, against any allocator that
-- keeps the contract.
use varnish_rs.Prelude.{
  ℕ, ◌+◌, ◌%◌, ◌^◌, ◌≤◌, ◌<◌, ◌≡◌, refl, inl, inr, length, eq→==, ne→==, arith,
}
use varnish_rs.Outcome.{Bytes, ok, err, ws_out_of_memory}
use varnish_rs.Memory.{null, write, write_outside}
use varnish_rs.Workspace.{Ws, ws_magic, Runtime, alloc, allocate}
use varnish_rs.Workspace.Allocator.{round_up}
use varnish_rs.Workspace.Contract.{IsIdle, IsRuntime, Extends}

-- The workspace with `n` more bytes taken, and `bs` written at their start.
abbrev pub placed : Ws → ℕ → Bytes → Ws
placed w n bs = record w { f = w.f + round_up n; mem = write w.mem w.f bs }

pub Extends-placed :
    (w : Ws) (n : ℕ) (bs : Bytes)
    → IsIdle w
    → length bs ≤ n
    → w.f + round_up n ≤ w.e
    → Extends w (placed w n bs)
Extends-placed w n bs i h room = record {
  idle = record {
    ws = record {
      magic_ok = i.ws.magic_ok;
      base = i.ws.base;
      lower = omega arith;
      upper = room;
      f_aligned = omega arith;
      e_aligned = i.ws.e_aligned;
      fits = i.ws.fits;
      address = i.ws.address;
    };
    free = i.free;
  };
  s_eq = refl;
  e_eq = refl;
  grows = omega arith;
  keeps = λ a away. elim away [
    | inl below ↦ write_outside w.mem w.f bs a (inl below)
    | inr above ↦ write_outside w.mem w.f bs a (inr (omega arith))
  ];
}

module _ (rt : Runtime) (laws : IsRuntime rt) where
  pub alloc-room :
      (n : ℕ) (w : Ws)
      → IsIdle w
      → 0 < n
      → n < 2 ^ 32
      → w.f + round_up n ≤ w.e
      → alloc rt n w ≡ (ok w.f, record w { f = w.f + round_up n })
  unfolding alloc
  alloc-room n w i p b room =
      let e : n % 2 ^ 32 ≡ n = omega arith in
      rw (eq→== w.magic ws_magic i.ws.magic_ok, e) (laws.alloc_room n w i p room)

  pub alloc-full :
      (n : ℕ) (w : Ws)
      → IsIdle w
      → 0 < n
      → n < 2 ^ 32
      → w.e < w.f + round_up n
      → alloc rt n w ≡ (ok null, w)
  unfolding alloc
  alloc-full n w i p b full =
      let e : n % 2 ^ 32 ≡ n = omega arith in
      rw (eq→== w.magic ws_magic i.ws.magic_ok, e) (laws.alloc_full n w i p full)

  pub allocate-room :
      (n : ℕ) (w : Ws)
      → IsIdle w
      → 0 < n
      → n < 2 ^ 32
      → w.f + round_up n ≤ w.e
      → allocate rt n w ≡ (ok (record { ptr = w.f; len = n }), record w { f = w.f + round_up n })
  unfolding allocate
  allocate-room n w i p b room =
      rw (alloc-room n w i p b room, ne→== w.f null (omega (arith, i.ws.base, i.ws.lower)))

  pub allocate-full :
      (n : ℕ) (w : Ws)
      → IsIdle w
      → 0 < n
      → n < 2 ^ 32
      → w.e < w.f + round_up n
      → allocate rt n w ≡ (err (ws_out_of_memory n), w)
  unfolding allocate
  allocate-full n w i p b full = rw (alloc-full n w i p b full)

  -- For a size of 2 ^ 32 + n bytes with n above 0, the cast to 32 bits drops the high part: an
  -- idle workspace with room for n bytes hands out a slice that is said to be of the whole size
  -- and ends behind the workspace, while only n bytes, rounded up, are taken.
  pub allocate_truncates :
      (n : ℕ) (w : Ws)
      → IsIdle w
      → 0 < n
      → n < 2 ^ 32
      → w.f + round_up n ≤ w.e
      → (allocate rt (2 ^ 32 + n) w
          ≡ (ok (record { ptr = w.f; len = 2 ^ 32 + n }), record w { f = w.f + round_up n }))
        × (w.e < w.f + (2 ^ 32 + n))
  unfolding allocate alloc
  allocate_truncates n w i p b room =
      let e : (2 ^ 32 + n) % 2 ^ 32 ≡ n = omega arith in
      (
        rw (
          eq→== w.magic ws_magic i.ws.magic_ok,
          e,
          laws.alloc_room n w i p room,
          ne→== w.f null (omega (arith, i.ws.base, i.ws.lower)),
        ),
        omega (arith, i.ws.fits, i.ws.lower),
      )
