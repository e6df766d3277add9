-- ===== src/WsBuffer/Tests.antt =====
-- Runs of `WsBuffer` over the allocator for tests, and instances of its theorems.
use varnish_rs.Prelude.{ℕ, ◌+◌, ◌*◌, ◌-◌, ◌≤◌, ◌<◌, ◌≡◌, refl, ◌⊎◌, [], ◌∷◌, take, arith}
use varnish_rs.Outcome.{Bytes, ok, err, panic, ws_out_of_memory}
use varnish_rs.Workspace.{Ws, Runtime, Slice, replicate_zero}
use varnish_rs.Workspace.Allocator.{test_runtime, test_reserve_all}
use varnish_rs.Workspace.Contract.{
  IsIdle, IsReserved, position, test_runtime-IsRuntime, fresh_ws, fresh_ws-IsIdle,
}
use varnish_rs.WsBuffer.{
  WsBuffer, last_suffix, builder, new, as_ref, remaining, extend_from_slice, write_some, finish_str,
  finish_blob, finish_temp, byte, str_suffix, blob_suffix, no_suffix,
}
use varnish_rs.WsBuffer.Create.{IsBuffer, required, new_lem}
use varnish_rs.WsBuffer.Fill.{Appends, extend_from_slice_lem, write_some_lem}
use varnish_rs.WsBuffer.Results.{
  byte-IsLayout, blob_suffix-IsSuffix, FinishedStr, FinishedBlob, FinishedTemp, finish_str_lem,
  finish_blob_lem, finish_temp_lem,
}

abbrev ws : Ws
ws = fresh_ws 64 160 (λ a. 7)

abbrev rt : Runtime
rt = test_runtime position

abbrev hi : Bytes
hi = b'h' ∷ b'i' ∷ []

ws-IsIdle : IsIdle ws
ws-IsIdle = fresh_ws-IsIdle 64 160 (λ a. 7) (omega arith) (omega arith) (omega arith) (omega arith)

-- The buffers of a workspace of 160 bytes, before anything is written.
abbrev buffer : ℕ → WsBuffer
buffer n = record { ws = record ws { r = 224 }; start_items = 64; unused = 64; unused_len = n }

str_builder : (builder rt byte str_suffix ws).0 ≡ ok (buffer 159)
unfolding builder new test_reserve_all last_suffix
str_builder = refl

blob_builder : (builder rt byte blob_suffix ws).0 ≡ ok (buffer 136)
unfolding builder new test_reserve_all last_suffix
blob_builder = refl

-- After the error the workspace is still reserved: a second try panics.
second_try_panics :
    (builder rt byte blob_suffix (builder rt byte blob_suffix (record ws { f = 216 })).1).0 ≡ panic
unfolding builder new test_reserve_all last_suffix
second_try_panics = refl

abbrev written : WsBuffer
written = record {
  ws = record ws { r = 224; mem = λ a. 1 };
  start_items = 64;
  unused = 66;
  unused_len = 157;
}

written-IsReserved : IsReserved written.ws
written-IsReserved = omega arith

str_IsBuffer : IsBuffer byte str_suffix written
str_IsBuffer = record {
  count = 2;
  last = 223;
  reserved = written-IsReserved;
  start_at = refl;
  unused_at = refl;
  room = omega arith;
  last_aligned = refl;
  last_fits = omega arith;
}

abbrev blob_written : WsBuffer
blob_written = record written { unused_len = 134 }

blob_IsBuffer : IsBuffer byte blob_suffix blob_written
blob_IsBuffer = record {
  count = 2;
  last = 200;
  reserved = written-IsReserved;
  start_at = refl;
  unused_at = refl;
  room = omega arith;
  last_aligned = refl;
  last_fits = omega arith;
}

temp_IsBuffer : IsBuffer byte no_suffix written
temp_IsBuffer = record {
  count = 2;
  last = 223;
  reserved = written-IsReserved;
  start_at = refl;
  unused_at = refl;
  room = omega arith;
  last_aligned = refl;
  last_fits = omega arith;
}

new_lem_example :
    ((required byte blob_suffix ws ≤ 224 - 64)
      × ((b : WsBuffer) × (new rt byte blob_suffix ws ≡ (ok b, record ws { r = 224 }))
          × IsBuffer byte blob_suffix b
          × (as_ref byte b ≡ [])
          × (last_suffix blob_suffix 224 < b.start_items + (remaining b + 1) * 1)))
    ⊎ ((224 - 64 < required byte blob_suffix ws)
        × (new rt byte blob_suffix ws
            ≡ (err (ws_out_of_memory (required byte blob_suffix ws)), record ws { r = 224 })))
new_lem_example =
    new_lem byte blob_suffix byte-IsLayout blob_suffix-IsSuffix ws ws-IsIdle (omega arith) rt
      test_runtime-IsRuntime

extend_from_slice_lem_example :
    ((2 ≤ remaining written)
      × ((b' : WsBuffer) × (extend_from_slice byte hi written ≡ (ok tt, b'))
          × Appends byte str_suffix written hi b'))
    ⊎ ((remaining written < 2)
        × (extend_from_slice byte hi written ≡ (err (ws_out_of_memory 2), written)))
extend_from_slice_lem_example =
    extend_from_slice_lem byte str_suffix byte-IsLayout written str_IsBuffer hi

write_some_lem_example :
    (b' : WsBuffer) × (n : ℕ) × (write_some byte hi written ≡ (ok n, b'))
    × Appends byte str_suffix written (take n hi) b'
    × (n ≤ 2)
    × ((n ≡ 2) ⊎ (remaining b' ≡ 0))
write_some_lem_example = write_some_lem byte str_suffix byte-IsLayout written str_IsBuffer hi

finish_str_lem_example :
    (p : ℕ) × (b' : WsBuffer) × (finish_str rt written ≡ (ok p, b')) × FinishedStr written p b'
finish_str_lem_example = finish_str_lem rt test_runtime-IsRuntime written str_IsBuffer

abbrev blob_image : ℕ → ℕ → Bytes
blob_image p n = p ∷ n ∷ replicate_zero 22

finish_blob_lem_example :
    (p : ℕ) × (b' : WsBuffer) × (finish_blob blob_image rt blob_written ≡ (ok p, b'))
    × FinishedBlob blob_image blob_written p b'
finish_blob_lem_example =
    finish_blob_lem rt test_runtime-IsRuntime blob_image (λ p n. refl) blob_written blob_IsBuffer

finish_temp_lem_example :
    (p : Slice) × (b' : WsBuffer) × (finish_temp byte rt written ≡ (ok p, b'))
    × FinishedTemp byte written p b'
finish_temp_lem_example =
    finish_temp_lem rt test_runtime-IsRuntime byte byte-IsLayout written temp_IsBuffer
