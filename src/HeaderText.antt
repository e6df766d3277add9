-- ===== src/HeaderText.antt =====
-- varnish-sys/src/txt.rs and varnish-sys/src/vcl/str_or_bytes.rs: a header as text in memory, and
-- the functions of Rust's `str` and slices that they use.
mod Tests
use varnish_rs.Prelude.{
  ℕ, zero, suc, ◌+◌, ◌-◌, ◌%◌, ◌^◌, Bool, true, false, not, ◌&&◌, ◌||◌, Option, none, some, List,
  [], ◌∷◌, leb, ltb, ◌==◌, if◌then◌else◌, drop, take,
}
use varnish_rs.Outcome.{Bytes, Outcome, ok, panic}
use varnish_rs.Memory.{Memory, null, read}
use varnish_rs.Workspace.{Txt}

abbrev within : ℕ → ℕ → ℕ → Bool
within lo hi b = leb lo b && leb b hi

-- What the first byte of a character asks for: whether it may start one, how many bytes follow,
-- and the range of the first of those.
abbrev lead_byte : ℕ → Bool × ℕ × ℕ × ℕ
lead_byte b =
    if ltb b 0x80
    then (true, 0, 0, 0)
    else if within 0xc2 0xdf b
    then (true, 1, 0x80, 0xbf)
    else if b == 0xe0
    then (true, 2, 0xa0, 0xbf)
    else if b == 0xed
    then (true, 2, 0x80, 0x9f)
    else if within 0xe1 0xef b
    then (true, 2, 0x80, 0xbf)
    else if b == 0xf0
    then (true, 3, 0x90, 0xbf)
    else if within 0xf1 0xf3 b
    then (true, 3, 0x80, 0xbf)
    else if b == 0xf4
    then (true, 3, 0x80, 0x8f)
    else (false, 0, 0, 0)

-- The bytes are the rest of a text, with so many bytes of a character to come.
utf8_from : ℕ → ℕ → ℕ → Bytes → Bool
utf8_from zero lo hi [] = true
utf8_from (suc n) lo hi [] = false
utf8_from zero lo hi (b ∷ bs) =
    let (starts, n, first, last) = lead_byte b in starts && utf8_from n first last bs
utf8_from (suc n) lo hi (b ∷ bs) = within lo hi b && utf8_from n 0x80 0xbf bs

-- `from_utf8` succeeds.
unfoldable pub is_utf8 : Bytes → Bool
unfolding utf8_from
is_utf8 bs = utf8_from 0 0 0 bs

pub data StrOrBytes : Type 0 where
  utf8 : Bytes → StrOrBytes
  bytes : Bytes → StrOrBytes

-- `From<&[u8]>`
unfoldable pub from_slice : Bytes → StrOrBytes
from_slice value = if is_utf8 value then utf8 value else bytes value

-- `AsRef<[u8]>`
abbrev pub as_bytes : StrOrBytes → Bytes
as_bytes (utf8 s) = s
as_bytes (bytes b) = b

-- `to_ascii_lowercase` of a byte, and `eq_ignore_ascii_case`.
abbrev pub lower : ℕ → ℕ
lower b = if within b'A' b'Z' b then b + 32 else b

unfoldable pub eq_ignore_ascii_case : Bytes → Bytes → Bool
eq_ignore_ascii_case [] [] = true
eq_ignore_ascii_case (a ∷ as') (b ∷ bs) = lower a == lower b && eq_ignore_ascii_case as' bs
eq_ignore_ascii_case _ _ = false

-- Space, tab, line feed, form feed and carriage return.
abbrev pub is_ascii_whitespace : ℕ → Bool
is_ascii_whitespace b = b == 32 || (b == 9 || (b == 10 || (b == 12 || b == 13)))

unfoldable pub trim_ascii_start : Bytes → Bytes
trim_ascii_start [] = []
trim_ascii_start (b ∷ bs) = if is_ascii_whitespace b then trim_ascii_start bs else b ∷ bs

unfoldable pub starts_with : Bytes → Bytes → Bool
starts_with [] bs = true
starts_with (p ∷ ps) [] = false
starts_with (p ∷ ps) (b ∷ bs) = p == b && starts_with ps bs

-- Equality of texts.
abbrev pub same_bytes : Bytes → Bytes → Bool
same_bytes [] [] = true
same_bytes (a ∷ as') (b ∷ bs) = a == b && same_bytes as' bs
same_bytes _ _ = false

-- The parts before and behind the first colon.
abbrev pub behind_byte : ℕ → Option (Bytes × Bytes) → Option (Bytes × Bytes)
behind_byte b none = none
behind_byte b (some (key, value)) = some (b ∷ key, value)

unfoldable pub split_at_colon : Bytes → Option (Bytes × Bytes)
split_at_colon [] = none
split_at_colon (b ∷ bs) = if b == b':' then some ([], bs) else behind_byte b (split_at_colon bs)

-- `offset_from` as a `usize`.
abbrev pub offset_from : ℕ → ℕ → ℕ
offset_from e b = (e + 2 ^ 64 - b) % 2 ^ 64

-- `to_slice`: a null text is no slice.
unfoldable pub to_slice : Memory → Txt → Option Bytes
to_slice mem t = if t.b == null then none else some (read mem t.b (offset_from t.e t.b))

-- A header without a colon, or with a name that is not UTF-8, is a panic.
abbrev pub key_value : Option (Bytes × Bytes) → Outcome (Option (Bytes × StrOrBytes))
key_value none = panic
key_value (some (key, value)) =
    if is_utf8 key then ok (some (key, from_slice (trim_ascii_start value))) else panic

abbrev pub parse_slice : Option Bytes → Outcome (Option (Bytes × StrOrBytes))
parse_slice none = ok none
parse_slice (some slice) = key_value (split_at_colon slice)

unfoldable pub parse_header : Memory → Txt → Outcome (Option (Bytes × StrOrBytes))
unfolding to_slice split_at_colon
parse_header mem t = parse_slice (to_slice mem t)
