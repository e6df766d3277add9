-- ===== src/Workspace.antt =====
-- varnish-sys/src/vcl/ws.rs: the workspace allocator's methods on `ffi::ws`, as an interface, and
-- `Workspace` over it. varnish-sys/src/validate.rs: `validate_ws`. varnish-sys/src/txt.rs: the
-- construction of a `txt`. The state is the C struct together with the memory of the process.
pub mod Allocator
pub mod Contract
pub mod Allocations
pub mod Blobs
pub mod Copies
pub mod Text
mod Tests
use varnish_rs.Prelude.{
  ℕ, zero, suc, ◌+◌, ◌-◌, ◌*◌, ◌%◌, ◌^◌, Bool, Option, none, some, List, [], ◌∷◌, ltb, ◌==◌,
  if◌then◌else◌, length,
}
use varnish_rs.Outcome.{
  Bytes, zero_bytes, null_byte, c_str, ws_out_of_memory, Exec, pure, fail, panics, ◌>>=◌, ◌>>◌,
  assert,
}
use varnish_rs.Memory.{Memory, null, write}

-- `ffi::ws`: the bounds `s` and `e`, the first free byte `f`, the reservation `r` (or null).
pub record Ws : Type 0 where
  pub magic : ℕ
  pub s : ℕ
  pub f : ℕ
  pub r : ℕ
  pub e : ℕ
  pub mem : Memory

abbrev pub ws_magic : ℕ
ws_magic = 905626964

-- What `Workspace` calls: the allocator of varnishd (or its stand-in), and the crate memchr.
pub record Runtime : Type 0 where
  pub alloc : ℕ → Exec Ws ℕ
  pub reserve_all : Exec Ws ℕ
  pub release : ℕ → Exec Ws Unit
  pub memchr : ℕ → Bytes → Option ℕ

pub record Slice : Type 0 where
  pub ptr : ℕ
  pub len : ℕ

-- `txt`: the first byte and the byte behind the last.
pub record Txt : Type 0 where
  pub b : ℕ
  pub e : ℕ

unfoldable pub validate_ws : Exec Ws Unit
validate_ws w = assert (w.magic == ws_magic) w

abbrev pub store : ℕ → Bytes → Exec Ws Unit
store p bs w = pure tt (record w { mem = write w.mem p bs })

-- `NonZeroUsize as u32`
abbrev pub as_u32 : ℕ → ℕ
as_u32 n = n % 2 ^ 32

abbrev pub replicate_zero : ℕ → Bytes
replicate_zero zero = []
replicate_zero (suc n) = 0 ∷ replicate_zero n

unfoldable pub txt_from_bytes : Slice → Txt
txt_from_bytes buf = record { b = buf.ptr; e = buf.ptr + buf.len }

-- `from_cstr` takes the bytes before the NUL.
unfoldable pub bytes_with_nul_to_txt : Slice → Txt
unfolding txt_from_bytes
bytes_with_nul_to_txt buf = txt_from_bytes (record buf { len = buf.len - 1 })

module _ (rt : Runtime) where
  unfoldable pub alloc : ℕ → Exec Ws ℕ
  unfolding validate_ws
  alloc size = do validate_ws; rt.alloc (as_u32 size)

  unfoldable pub allocate : ℕ → Exec Ws Slice
  allocate size = do
    ptr ← alloc size
    if ptr == null then fail (ws_out_of_memory size) else pure (record { ptr = ptr; len = size })

  unfoldable pub allocate_zeroed : ℕ → Exec Ws Slice
  allocate_zeroed size = do buf ← allocate size; store buf.ptr (replicate_zero buf.len); pure buf

  -- The value is given by its byte image.
  unfoldable pub copy_value : Bytes → Exec Ws ℕ
  copy_value value = if length value == 0 then panics else do
    val ← alloc (length value)
    if val == null then fail (ws_out_of_memory (length value)) else do store val value; pure val

  unfoldable pub copy_bytes : Bytes → Exec Ws Slice
  copy_bytes src =
      if length src == 0
      then fail (c_str zero_bytes)
      else do dest ← allocate (length src); store dest.ptr src; pure dest

  -- The argument `vrt_blob` gives the byte image of the struct for a pointer and a length.
  unfoldable pub copy_blob : (ℕ → ℕ → Bytes) → Bytes → Exec Ws ℕ
  copy_blob vrt_blob value = do buf ← copy_bytes value; copy_value (vrt_blob buf.ptr buf.len)

  -- The argument is `to_bytes_with_nul()` of a `CStr`.
  unfoldable pub copy_txt : Bytes → Exec Ws Txt
  unfolding bytes_with_nul_to_txt
  copy_txt value = do dest ← copy_bytes value; pure (bytes_with_nul_to_txt dest)

  unfoldable pub copy_cstr : Bytes → Exec Ws ℕ
  copy_cstr value = do t ← copy_txt value; pure t.b

  -- The arm of `copy_bytes_with_null` without a NUL in the source.
  copy_and_terminate : Bytes → Exec Ws Txt
  unfolding bytes_with_nul_to_txt
  copy_and_terminate src = do
    dest ← allocate (length src + 1)
    store dest.ptr src
    store (dest.ptr + length src) (0 ∷ [])
    pure (bytes_with_nul_to_txt dest)

  unfoldable pub copy_bytes_with_null : Bytes → Exec Ws Txt
  unfolding copy_and_terminate
  copy_bytes_with_null src = elim (rt.memchr 0 src) [
    | some pos ↦ if pos + 1 == length src then copy_txt src else fail (c_str null_byte)
    | none ↦ copy_and_terminate src
  ]
