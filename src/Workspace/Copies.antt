-- ===== src/Workspace/Copies.antt =====
-- varnish-sys/src/vcl/ws.rs: what `Workspace` copies, against any allocator that keeps the
-- contract.
use varnish_rs.Prelude.{
  ℕ, zero, suc, ◌+◌, ◌^◌, ◌≤◌, ◌<◌, ◌≡◌, refl, ap, ◌≢◌, ◌⊎◌, inl, inr, length, ne→==, arith,
}
use varnish_rs.Outcome.{Bytes, Outcome, ok, err, ws_out_of_memory}
use varnish_rs.Memory.{null, read, read-write}
use varnish_rs.Workspace.{
  Ws, Runtime, Slice, replicate_zero, allocate_zeroed, copy_value, copy_bytes,
}
use varnish_rs.Workspace.Allocator.{round_up}
use varnish_rs.Workspace.Contract.{IsIdle, IsRuntime, Extends}
use varnish_rs.Workspace.Allocations.{
  placed, Extends-placed, alloc-room, alloc-full, allocate-room, allocate-full,
}

-- `buf` is a new part of the workspace that holds `bs`.
pub record Holds (w : Ws) (buf : Slice) (bs : Bytes) (w' : Ws) : Type 0 where
  pub extends : Extends w w'
  pub starts : w.f ≤ buf.ptr
  pub ends : buf.ptr + buf.len ≤ w'.f
  pub non_null : buf.ptr ≢ null
  pub len_eq : buf.len ≡ length bs
  pub content : read w'.mem buf.ptr buf.len ≡ bs

abbrev slice_at : ℕ → ℕ → Slice
slice_at p n = record { ptr = p; len = n }

Holds-placed :
    (w : Ws) (bs : Bytes)
    → IsIdle w
    → w.f + round_up (length bs) ≤ w.e
    → Holds w (slice_at w.f (length bs)) bs (placed w (length bs) bs)
Holds-placed w bs i room = record {
  extends = Extends-placed w (length bs) bs i (omega arith) room;
  starts = omega arith;
  ends = omega arith;
  non_null = omega (arith, i.ws.base, i.ws.lower);
  len_eq = refl;
  content = read-write w.mem w.f bs;
}

-- What an allocating operation on `n` bytes does in `w`.
abbrev pub AllocatesOr : Ws → ℕ → (Outcome Slice × Ws) → (Slice → Ws → Type 0) → Type 0
AllocatesOr w n result Good =
    ((w.f + round_up n ≤ w.e) × ((buf : Slice) × (w' : Ws) × (result ≡ (ok buf, w')) × Good buf w'))
    ⊎ ((w.e < w.f + round_up n) × (result ≡ (err (ws_out_of_memory n), w)))

length-replicate_zero : (n : ℕ) → length (replicate_zero n) ≡ n
length-replicate_zero zero = refl
length-replicate_zero (suc n) = ap suc (length-replicate_zero n)

-- To split on whether `n` bytes fit.
pub room-cases : (w : Ws) (n : ℕ) → (w.f + round_up n ≤ w.e) ⊎ (w.e < w.f + round_up n)
room-cases w n = ground arith

module _ (rt : Runtime) (laws : IsRuntime rt) where
  pub copy_bytes-room :
      (src : Bytes) (w : Ws)
      → IsIdle w
      → 0 < length src
      → length src < 2 ^ 32
      → w.f + round_up (length src) ≤ w.e
      → copy_bytes rt src w ≡ (ok (slice_at w.f (length src)), placed w (length src) src)
  unfolding copy_bytes
  copy_bytes-room src w i p b room =
      rw (ne→== (length src) 0 (omega arith), allocate-room rt laws (length src) w i p b room)

  pub copy_bytes-full :
      (src : Bytes) (w : Ws)
      → IsIdle w
      → 0 < length src
      → length src < 2 ^ 32
      → w.e < w.f + round_up (length src)
      → copy_bytes rt src w ≡ (err (ws_out_of_memory (length src)), w)
  unfolding copy_bytes
  copy_bytes-full src w i p b full =
      rw (ne→== (length src) 0 (omega arith), allocate-full rt laws (length src) w i p b full)

  -- A non-empty source below 2 ^ 32 bytes is copied to a new part of an idle workspace if its
  -- size, rounded up to eight, fits, and no other byte of the workspace or outside it changes; if
  -- it does not fit, the error names the size and nothing changes.
  pub copy_bytes_lem :
      (src : Bytes) (w : Ws)
      → IsIdle w
      → 0 < length src
      → length src < 2 ^ 32
      → AllocatesOr w (length src) (copy_bytes rt src w) (λ buf w'. Holds w buf src w')
  copy_bytes_lem src w i p b = elim (room-cases w (length src)) [
    | inl room ↦ inl (
      room,
      (
        slice_at w.f (length src),
        placed w (length src) src,
        copy_bytes-room src w i p b room,
        Holds-placed w src i room,
      ),
    )
    | inr full ↦ inr (full, copy_bytes-full src w i p b full)
  ]

  -- An allocation of a size between 1 and 2 ^ 32 - 1 with zeroing: as for a copy, with zeros.
  pub allocate_zeroed_lem :
      (size : ℕ) (w : Ws)
      → IsIdle w
      → 0 < size
      → size < 2 ^ 32
      → AllocatesOr w size
          (allocate_zeroed rt size w)
          (λ buf w'. Holds w buf (replicate_zero size) w')
  unfolding allocate_zeroed
  allocate_zeroed_lem size w i p b = elim (room-cases w size) [
    | inl room ↦
        let e = length-replicate_zero size in
        inl (
          room,
          (
            slice_at w.f size,
            placed w size (replicate_zero size),
            rw (allocate-room rt laws size w i p b room),
            rw e at (Holds-placed w (replicate_zero size) i (rw e room)),
          ),
        )
    | inr full ↦ inr (full, rw (allocate-full rt laws size w i p b full))
  ]

  pub copy_value-room :
      (value : Bytes) (w : Ws)
      → IsIdle w
      → 0 < length value
      → length value < 2 ^ 32
      → w.f + round_up (length value) ≤ w.e
      → copy_value rt value w ≡ (ok w.f, placed w (length value) value)
  unfolding copy_value
  copy_value-room value w i p b room = rw (
    ne→== (length value) 0 (omega arith),
    alloc-room rt laws (length value) w i p b room,
    ne→== w.f null (omega (arith, i.ws.base, i.ws.lower)),
  )

  pub copy_value-full :
      (value : Bytes) (w : Ws)
      → IsIdle w
      → 0 < length value
      → length value < 2 ^ 32
      → w.e < w.f + round_up (length value)
      → copy_value rt value w ≡ (err (ws_out_of_memory (length value)), w)
  unfolding copy_value
  copy_value-full value w i p b full =
      rw (ne→== (length value) 0 (omega arith), alloc-full rt laws (length value) w i p b full)
