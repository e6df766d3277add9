-- ===== src/HeaderText/Tests.antt =====
-- Runs of the parser of headers.
use varnish_rs.Prelude.{◌≡◌, refl, true, false, none, some, [], ◌∷◌, get_or}
use varnish_rs.Outcome.{Bytes, ok, panic}
use varnish_rs.Memory.{Memory, read}
use varnish_rs.HeaderText.{
  utf8, bytes, is_utf8, from_slice, eq_ignore_ascii_case, to_slice, split_at_colon,
  trim_ascii_start, parse_header,
}

abbrev at_zero : Bytes → Memory
at_zero bs a = get_or bs a 7

-- `xA:` with white space and a value.
parse_spaces :
    parse_header (at_zero (0 ∷ b'A' ∷ b':' ∷ 9 ∷ b' ' ∷ b'1' ∷ [])) (record { b = 1; e = 6 })
    ≡ ok (some (b'A' ∷ [], utf8 (b'1' ∷ [])))
unfolding parse_header to_slice read split_at_colon trim_ascii_start is_utf8 from_slice
parse_spaces = refl

parse_without_colon : parse_header (at_zero (0 ∷ b'A' ∷ [])) (record { b = 1; e = 2 }) ≡ panic
unfolding parse_header to_slice read split_at_colon
parse_without_colon = refl

parse_null : parse_header (at_zero []) (record { b = 0; e = 9 }) ≡ ok none
unfolding parse_header to_slice
parse_null = refl

-- `é`, an overlong slash, a surrogate and the last code point.
two_bytes : is_utf8 (0xc3 ∷ 0xa9 ∷ []) ≡ true
unfolding is_utf8
two_bytes = refl

overlong : is_utf8 (0xc0 ∷ 0xaf ∷ []) ≡ false
unfolding is_utf8
overlong = refl

surrogate : is_utf8 (0xed ∷ 0xa0 ∷ 0x80 ∷ []) ≡ false
unfolding is_utf8
surrogate = refl

last_code_point : is_utf8 (0xf4 ∷ 0x8f ∷ 0xbf ∷ 0xbf ∷ []) ≡ true
unfolding is_utf8
last_code_point = refl

keep_bytes : from_slice (0xff ∷ []) ≡ bytes (0xff ∷ [])
unfolding from_slice is_utf8
keep_bytes = refl

same_name : eq_ignore_ascii_case (b'E' ∷ b'T' ∷ b'a' ∷ []) (b'e' ∷ b't' ∷ b'A' ∷ []) ≡ true
unfolding eq_ignore_ascii_case
same_name = refl
