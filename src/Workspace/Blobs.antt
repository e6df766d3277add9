-- ===== src/Workspace/Blobs.antt =====
-- varnish-sys/src/vcl/ws.rs: `copy_blob`, the copy of bytes together with the struct that
-- describes it.
use varnish_rs.Prelude.{ℕ, ◌+◌, ◌^◌, ◌≤◌, ◌<◌, ◌≡◌, ◌∙◌, ◌⊎◌, inl, inr, length, le-cases, arith}
use varnish_rs.Outcome.{Bytes, ok, err, ws_out_of_memory}
use varnish_rs.Memory.{read, read-write, read-write_disjoint}
use varnish_rs.Workspace.{Ws, Runtime, copy_blob}
use varnish_rs.Workspace.Allocator.{round_up}
use varnish_rs.Workspace.Contract.{IsIdle, IsRuntime, Extends, Extends-trans}
use varnish_rs.Workspace.Allocations.{placed, Extends-placed}
use varnish_rs.Workspace.Copies.{
  copy_bytes-room, copy_bytes-full, copy_value-room, copy_value-full, room-cases,
}

-- The struct at `blob` describes `len` bytes at `bytes`, which are `value`.
pub record HoldsBlob (image : ℕ → ℕ → Bytes) (value : Bytes) (w : Ws) (blob : ℕ) (w' : Ws)
    : Type 0 where
  pub bytes : ℕ
  pub extends : Extends w w'
  pub content : read w'.mem bytes (length value) ≡ value
  pub struct : read w'.mem blob (length (image bytes (length value))) ≡ image bytes (length value)
  pub apart : bytes + length value ≤ blob

module _ (rt : Runtime) (laws : IsRuntime rt) (image : ℕ → ℕ → Bytes)
    (size : (p n : ℕ) → length (image p n) ≡ 24) where
  -- What is left of `w` after the copy of the bytes.
  abbrev copied : Ws → Bytes → Ws
  copied w value = placed w (length value) value

  copy_blob-room :
      (value : Bytes) (w : Ws)
      → IsIdle w
      → 0 < length value
      → length value < 2 ^ 32
      → w.f + round_up (length value) + 24 ≤ w.e
      → (blob : ℕ) × (w' : Ws) × (copy_blob rt image value w ≡ (ok blob, w'))
        × HoldsBlob image value w blob w'
  unfolding copy_blob
  copy_blob-room value w i p b room =
      let img = image w.f (length value) in
      let v = copied w value in
      let n : length img ≡ 24 = size w.f (length value) in
      let first = Extends-placed w (length value) value i (omega arith) (omega arith) in
      let second = Extends-placed v (length img) img first.idle (omega arith) (omega arith) in
      (
        v.f,
        placed v (length img) img,
        rw (copy_bytes-room rt laws value w i p b (omega arith))
            (copy_value-room rt laws img v first.idle (omega arith) (omega arith) (omega arith)),
        record {
          bytes = w.f;
          extends = Extends-trans first second;
          content =
              read-write_disjoint v.mem v.f img w.f (length value) (inl (omega arith))
              ∙ read-write w.mem w.f value;
          struct = read-write v.mem v.f img;
          apart = omega arith;
        },
      )

  copy_blob-half :
      (value : Bytes) (w : Ws)
      → IsIdle w
      → 0 < length value
      → length value < 2 ^ 32
      → w.f + round_up (length value) ≤ w.e
      → w.e < w.f + round_up (length value) + 24
      → copy_blob rt image value w ≡ (err (ws_out_of_memory 24), copied w value)
  unfolding copy_blob
  copy_blob-half value w i p b room full =
      let img = image w.f (length value) in
      let n : length img ≡ 24 = size w.f (length value) in
      let first = Extends-placed w (length value) value i (omega arith) (omega arith) in
      rw (copy_bytes-room rt laws value w i p b room) (
        rw n at (
          copy_value-full rt laws img (copied w value) first.idle (omega arith) (omega arith)
            (omega arith)))

  -- A non-empty value below 2 ^ 32 bytes in an idle workspace, with a struct of 24 bytes: if both
  -- fit, the returned pointer is that of a struct which describes a copy of the value; if only
  -- the value fits, the copy is made and then the error names 24 bytes; if the value does not
  -- fit, the error names its size and nothing changes.
  pub copy_blob_lem :
      (value : Bytes) (w : Ws)
      → IsIdle w
      → 0 < length value
      → length value < 2 ^ 32
      → ((w.f + round_up (length value) + 24 ≤ w.e)
          × ((blob : ℕ) × (w' : Ws) × (copy_blob rt image value w ≡ (ok blob, w'))
              × HoldsBlob image value w blob w'))
        ⊎ ((w.e < w.f + round_up (length value) + 24)
            × (w.f + round_up (length value) ≤ w.e)
            × (copy_blob rt image value w ≡ (err (ws_out_of_memory 24), copied w value)))
        ⊎ ((w.e < w.f + round_up (length value))
            × (copy_blob rt image value w ≡ (err (ws_out_of_memory (length value)), w)))
  unfolding copy_blob
  copy_blob_lem value w i p b = elim (room-cases w (length value)) [
    | inr full ↦ inr (inr (full, rw (copy_bytes-full rt laws value w i p b full)))
    | inl room ↦ elim (le-cases (w.f + round_up (length value) + 24) w.e) [
      | inl both ↦ inl (both, copy_blob-room value w i p b both)
      | inr half ↦ inr (inl (half, room, copy_blob-half value w i p b room half))
    ]
  ]
