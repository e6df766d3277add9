-- ===== src/Workspace/Tests.antt =====
-- Runs of `Workspace` over the allocator for tests, and instances of its theorems.
use varnish_rs.Prelude.{ℕ, ◌+◌, ◌^◌, ◌≤◌, ◌<◌, ◌≡◌, refl, ◌⊎◌, [], ◌∷◌, arith}
use varnish_rs.Outcome.{Bytes, ok, err, panic, ws_out_of_memory, c_str, null_byte, zero_bytes}
use varnish_rs.Memory.{Memory, null}
use varnish_rs.Workspace.{
  Ws, Runtime, alloc, allocate, copy_bytes, copy_blob, copy_bytes_with_null, copy_txt,
  replicate_zero,
}
use varnish_rs.Workspace.Allocator.{test_runtime, test_alloc, test_ws, test_release}
use varnish_rs.Workspace.Contract.{
  IsIdle, position, test_runtime-IsRuntime, fresh_ws, fresh_ws-IsIdle,
}
use varnish_rs.Workspace.Allocations.{placed, allocate_truncates}
use varnish_rs.Workspace.Copies.{Holds, AllocatesOr, copy_bytes_lem}
use varnish_rs.Workspace.Blobs.{HoldsBlob, copy_blob_lem}
use varnish_rs.Workspace.Text.{CopiesText, text_of, copy_bytes_with_null_lem}

abbrev memory : Memory
memory a = 7

abbrev small : Ws
small = fresh_ws 64 36 memory

abbrev rt : Runtime
rt = test_runtime position

abbrev hi : Bytes
hi = b'h' ∷ b'i' ∷ []

small-IsIdle : IsIdle small
small-IsIdle = fresh_ws-IsIdle 64 36 memory (omega arith) (omega arith) (omega arith) (omega arith)

-- 36 bytes round down to 32: four allocations of 7 bytes, and no fifth.
four_words : (test_ws 64 36 memory tt).0 ≡ ok small
unfolding test_ws
four_words = refl

alloc_full : (alloc rt 1 (record small { f = 96 })).0 ≡ ok null
unfolding alloc test_alloc
alloc_full = refl

copy_hi : (copy_bytes_with_null rt hi small).0 ≡ ok (record { b = 64; e = 66 })
unfolding copy_bytes_with_null allocate alloc test_alloc position
copy_hi = refl

copy_with_nul : (copy_bytes_with_null rt (b'h' ∷ 0 ∷ []) small).0 ≡ ok (record { b = 64; e = 65 })
unfolding copy_bytes_with_null copy_txt copy_bytes allocate alloc test_alloc position
copy_with_nul = refl

refuse_nul : (copy_bytes_with_null rt (0 ∷ b'h' ∷ []) small).0 ≡ err (c_str null_byte)
unfolding copy_bytes_with_null position
refuse_nul = refl

copy_nothing : (copy_bytes rt [] small).0 ≡ err (c_str zero_bytes)
unfolding copy_bytes
copy_nothing = refl

release_too_much : (test_release 33 (record small { r = 96 })).0 ≡ panic
unfolding test_release
release_too_much = refl

copy_bytes_lem_example :
    AllocatesOr small 2 (copy_bytes rt hi small) (λ buf w'. Holds small buf hi w')
copy_bytes_lem_example =
    copy_bytes_lem rt test_runtime-IsRuntime hi small small-IsIdle (omega arith) (omega arith)

copy_bytes_with_null_lem_example : CopiesText small (copy_bytes_with_null rt hi small) (text_of hi)
copy_bytes_with_null_lem_example =
    copy_bytes_with_null_lem rt test_runtime-IsRuntime hi small small-IsIdle (omega arith)

allocate_truncates_example :
    (allocate rt (2 ^ 32 + 8) small
      ≡ (ok (record { ptr = 64; len = 2 ^ 32 + 8 }), record small { f = 72 }))
    × (96 < 64 + (2 ^ 32 + 8))
allocate_truncates_example =
    allocate_truncates rt test_runtime-IsRuntime 8 small small-IsIdle (omega arith) (omega arith)
      (omega arith)

-- A `vrt_blob` of 24 bytes: the pointer, the length and padding.
abbrev blob_image : ℕ → ℕ → Bytes
blob_image p n = p ∷ n ∷ replicate_zero 22

copy_blob_lem_example :
    ((64 + 8 + 24 ≤ 96)
      × ((blob : ℕ) × (w' : Ws) × (copy_blob rt blob_image hi small ≡ (ok blob, w'))
          × HoldsBlob blob_image hi small blob w'))
    ⊎ ((96 < 64 + 8 + 24)
        × (64 + 8 ≤ 96)
        × (copy_blob rt blob_image hi small ≡ (err (ws_out_of_memory 24), placed small 2 hi)))
    ⊎ ((96 < 64 + 8) × (copy_blob rt blob_image hi small ≡ (err (ws_out_of_memory 2), small)))
copy_blob_lem_example =
    copy_blob_lem rt test_runtime-IsRuntime blob_image (λ p n. refl) hi small small-IsIdle
      (omega arith) (omega arith)
