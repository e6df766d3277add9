-- ===== src/WsBuffer.antt =====
-- varnish-sys/src/vcl/ws_str_buffer.rs: `WsBuffer`, the free region of a workspace as a vector
-- with room for a suffix, and the builders of varnish-sys/src/vcl/ws.rs.
pub mod Align
pub mod Create
pub mod Items
pub mod Fill
pub mod Finish
pub mod Results
mod Tests
use varnish_rs.Prelude.{
  ℕ, zero, suc, ◌+◌, ◌-◌, ◌*◌, ◌/◌, ◌%◌, ◌^◌, ◌≤◌, ◌<◌, ◌≡◌, Bool, true, false, List, [], ◌∷◌, ◌++◌,
  map, ltb, leb, ◌==◌, if◌then◌else◌, length, take, ◌&&◌,
}
use varnish_rs.Outcome.{
  Bytes, ws_out_of_memory, Exec, Outcome, pure, fail, panics, gets, ◌>>=◌, ◌>>◌, assert,
}
use varnish_rs.Memory.{Memory, null, write, read}
use varnish_rs.Workspace.{Ws, Runtime, Slice, validate_ws}
use mathlib.Core.List.{flat_map}

-- A type that is stored in memory: its size, its alignment and its byte image.
pub record Layout (A : Type 0) : Type 0 where
  pub size : ℕ
  pub align : ℕ
  pub to_bytes : A → Bytes
  pub of_bytes : Bytes → A

-- The size and the alignment of the suffix.
pub record Suffix : Type 0 where
  pub size : ℕ
  pub align : ℕ

pub record WsBuffer : Type 0 where
  pub ws : Ws
  pub start_items : ℕ
  pub unused : ℕ
  pub unused_len : ℕ

-- `pointer::align_offset`
abbrev pub align_offset : ℕ → ℕ → ℕ
align_offset p a = (a - p % a) % a

-- `pointer::sub` on 64-bit addresses
abbrev pub ptr_sub : ℕ → ℕ → ℕ
ptr_sub p n = (p + 2 ^ 64 - n) % 2 ^ 64

-- The last place at which the suffix fits before `stop`, rounded down to its alignment.
unfoldable pub last_suffix : Suffix → ℕ → ℕ
last_suffix sfx stop = let p = ptr_sub stop sfx.size in ptr_sub p (p % sfx.align)

abbrev pub on_ws : {A : Type 0} → Exec Ws A → Exec WsBuffer A
on_ws m b = let (r, w) = m b.ws in (r, record b { ws = w })

unfoldable pub get_suffix_ptr : Suffix → WsBuffer → ℕ
get_suffix_ptr sfx b = b.unused + align_offset b.unused sfx.align

unfoldable pub remaining : WsBuffer → ℕ
remaining b = b.unused_len

module _ {A : Type 0} (item : Layout A) where
  unfoldable pub calc_len : ℕ → ℕ → ℕ
  calc_len start buffer = (buffer - start) / item.size

  unfoldable pub len : WsBuffer → ℕ
  unfolding calc_len
  len b = calc_len b.start_items b.unused

  unfoldable pub is_empty : WsBuffer → Bool
  is_empty b = len b == 0

  -- The `n` items from address `p` on.
  unfoldable pub items : Memory → ℕ → ℕ → List A
  items m p zero = []
  items m p (suc n) = item.of_bytes (read m p item.size) ∷ items m (p + item.size) n

  unfoldable pub as_ref : WsBuffer → List A
  as_ref b = items b.ws.mem b.start_items (len b)

  -- The bytes of the items of a slice.
  unfoldable pub image : List A → Bytes
  image [] = []
  image (x ∷ xs) = item.to_bytes x ++ image xs

  -- Copies items to the start of the unused part and moves that start.
  abbrev pub advance : List A → Exec WsBuffer Unit
  advance xs b = pure tt (record b {
    ws = record (b.ws) { mem = write b.ws.mem b.unused (image xs) };
    unused = b.unused + length xs * item.size;
    unused_len = b.unused_len - length xs;
  })

  unfoldable pub push : A → Exec WsBuffer Unit
  push x = do
    b ← gets (λ b. b)
    if b.unused_len == 0 then fail (ws_out_of_memory 1) else advance (x ∷ [])

  unfoldable pub extend_from_slice : List A → Exec WsBuffer Unit
  extend_from_slice slice = do
    b ← gets (λ b. b)
    if ltb b.unused_len (length slice)
        then fail (ws_out_of_memory (length slice))
        else advance slice

  -- `Write::write` for a slice: as much as fits.
  unfoldable pub write_some : List A → Exec WsBuffer ℕ
  write_some src = do
    b ← gets (λ b. b)
    let amt = if ltb b.unused_len (length src) then b.unused_len else length src
    advance (take amt src)
    pure amt

module _ {A : Type 0} (rt : Runtime) (item : Layout A) (sfx : Suffix) where
  unfoldable pub new : Exec Ws WsBuffer
  new = do
    reserved_space ← rt.reserve_all
    w ← gets (λ w. w)
    let raw_start = w.f
    let items_align = align_offset raw_start item.align
    let stop = raw_start + reserved_space
    let suffix_ptr = last_suffix sfx stop
    assert (suffix_ptr % sfx.align == 0)
    assert (leb suffix_ptr stop)
    let suffix_size = stop - suffix_ptr
    let items_start = raw_start + items_align
    assert (items_start % item.align == 0)
    let required = items_align + (if ltb 0 sfx.size then suffix_size else item.size)
    if ltb reserved_space required
        then fail (ws_out_of_memory required)
        else pure (record {
          ws = w;
          start_items = items_start;
          unused = items_start;
          unused_len = (reserved_space - items_align - suffix_size) / item.size;
        })

  -- `vcl_string_builder`, `vcl_blob_builder` and `slice_builder`
  unfoldable pub builder : Exec Ws WsBuffer
  unfolding validate_ws
  builder = do validate_ws; new

module _ (rt : Runtime) (sfx : Suffix) where
  -- The bytes to keep, which must fit in 32 bits.
  preserve_bytes : Bool → Exec WsBuffer ℕ
  unfolding get_suffix_ptr
  preserve_bytes false b = pure 0 b
  preserve_bytes true b =
      let used = get_suffix_ptr sfx b - b.ws.f + sfx.size in
      if leb b.ws.f (get_suffix_ptr sfx b) && ltb used (2 ^ 32) then pure used b else panics b

  unfoldable pub release : Bool → Exec WsBuffer Unit
  unfolding preserve_bytes
  release preserve = do
    start ← gets (λ b. b.start_items)
    λ b. pure tt (record b { start_items = null })
    if start == null then pure tt else do n ← preserve_bytes preserve; on_ws (rt.release n)

  unfoldable pub drop : Exec WsBuffer Unit
  unfolding release
  drop = release false

abbrev pub byte : Layout ℕ
byte = record {
  size = 1;
  align = 1;
  to_bytes = λ b. b ∷ [];
  of_bytes = λ bs. elim bs [ [] ↦ 0 | b ∷ _ ↦ b ];
}

abbrev pub str_suffix : Suffix
str_suffix = record { size = 1; align = 1 }

abbrev pub blob_suffix : Suffix
blob_suffix = record { size = 24; align = 8 }

abbrev pub no_suffix : Suffix
no_suffix = record { size = 0; align = 1 }

abbrev pub poke : ℕ → Bytes → Exec WsBuffer Unit
poke p bs b = pure tt (record b { ws = record (b.ws) { mem = write b.ws.mem p bs } })

-- The three `finish` take the buffer, so it is dropped on return.
unfoldable pub finish_str : Runtime → Exec WsBuffer ℕ
unfolding release drop
finish_str rt = do
  b ← gets (λ b. b)
  poke b.unused (0 ∷ [])
  result ← gets (λ b. b.ws.f)
  release rt str_suffix true
  drop rt str_suffix
  pure result

-- The first argument gives the byte image of a `vrt_blob`.
unfoldable pub finish_blob : (ℕ → ℕ → Bytes) → Runtime → Exec WsBuffer ℕ
unfolding release drop get_suffix_ptr len
finish_blob vrt_blob rt = do
  b ← gets (λ b. b)
  let suffix_ptr = get_suffix_ptr blob_suffix b
  poke suffix_ptr (vrt_blob b.start_items (len byte b))
  release rt blob_suffix true
  drop rt blob_suffix
  pure suffix_ptr

-- The length of the slice counts items.
unfoldable pub finish_temp : {A : Type 0} → Layout A → Runtime → Exec WsBuffer Slice
unfolding release drop len
finish_temp item rt = do
  b ← gets (λ b. b)
  let slice : Slice = record { ptr = b.start_items; len = len item b }
  release rt no_suffix true
  drop rt no_suffix
  pure slice
