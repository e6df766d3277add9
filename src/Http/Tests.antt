-- ===== src/Http/Tests.antt =====
-- Runs of `HttpHeaders`, and instances of its theorems.
use varnish_rs.Prelude.{
  ℕ, ◌+◌, ◌<◌, ◌≡◌, refl, ◌⊎◌, inl, inr, ltb, if◌then◌else◌, get_or, ◌-◌, some, List, [], ◌∷◌, ◌++◌,
  arith,
}
use mathlib.Core.Path.{subst}
use varnish_rs.Outcome.{Bytes, ok, err, c_str, no_header_slot}
use varnish_rs.Memory.{Memory, read}
use varnish_rs.Workspace.{Ws, Runtime}
use varnish_rs.Workspace.Allocator.{test_runtime}
use varnish_rs.Workspace.Contract.{
  IsRuntime, position, test_runtime-IsRuntime, fresh_ws, fresh_ws-IsIdle,
}
use varnish_rs.Workspace.Text.{text_of}
use varnish_rs.HeaderText.{
  StrOrBytes, utf8, from_slice, is_utf8, eq_ignore_ascii_case, trim_ascii_start, split_at_colon,
  to_slice, parse_header,
}
use varnish_rs.Http.{Slot, Http, HdrIndex, set_header_raw, set_header, unset_header, change_header}
use varnish_rs.Http.Lookup.{header}
use varnish_rs.Http.State.{Row, IsHttp}
use varnish_rs.Http.Find.{lookup, header_lem}
use varnish_rs.Http.Set.{AppendsHeader, set_header_raw_lem}
use varnish_rs.Http.Unset.{unset_header_lem}
use varnish_rs.Http.Rounds.{remaining, unset_log}
use varnish_rs.Http.RoundTrip.{OthersKept, header_text, set_header-header}
use varnish_rs.Http.Special.{ReplacesField, change_header_lem}
use varnish_rs.Http.Etag.{etag_name, weaken_etag}
use varnish_rs.Http.Weaken.{WeakensEtag, IsTag, weaken_etag_lem}

abbrev ix : HdrIndex
ix = record { method = 0; url = 1; proto = 2; status = 3; reason = 4; first = 5; unset = 6 }

abbrev rt : Runtime
rt = test_runtime position

abbrev laws : IsRuntime rt
laws = test_runtime-IsRuntime

abbrev text_slot : ℕ → ℕ → Slot
text_slot b n = record { hd = record { b = b; e = b + n }; hdf = 0 }

-- `Host: a` and `ETag: x`
abbrev host_text : Bytes
host_text = b'H' ∷ b'o' ∷ b's' ∷ b't' ∷ b':' ∷ b' ' ∷ b'a' ∷ []

abbrev tag_text : Bytes
tag_text = b'e' ∷ b't' ∷ b'a' ∷ b'g' ∷ b':' ∷ b' ' ∷ b'x' ∷ []

abbrev host : Bytes
host = b'h' ∷ b'o' ∷ b's' ∷ b't' ∷ []

abbrev memory : Memory
memory a = if ltb a 300 then get_or host_text (a - 200) 7 else get_or tag_text (a - 300) 7

abbrev special : List Slot
special = text_slot 0 0 ∷ text_slot 0 0 ∷ text_slot 0 0 ∷ text_slot 0 0 ∷ text_slot 0 0 ∷ []

abbrev host_row : Row
host_row = record {
  slot = text_slot 200 7;
  name = b'H' ∷ b'o' ∷ b's' ∷ b't' ∷ [];
  value = utf8 (b'a' ∷ []);
}

abbrev tag_row : Row
tag_row = record {
  slot = text_slot 300 7;
  name = b'e' ∷ b't' ∷ b'a' ∷ b'g' ∷ [];
  value = utf8 (b'x' ∷ []);
}

abbrev rows : List Row
rows = tag_row ∷ host_row ∷ []

abbrev small : Ws
small = fresh_ws 64 36 memory

abbrev object : Http
object = record {
  nhd = 7;
  shd = 8;
  slots = special ++ (text_slot 300 7 ∷ text_slot 200 7 ∷ text_slot 0 0 ∷ []);
  protover = 11;
  logtag = 20;
  ws = small;
  log = [];
}

object-IsHttp : IsHttp ix special rows object
unfolding parse_header to_slice split_at_colon from_slice is_utf8 trim_ascii_start read
object-IsHttp = record {
  idle = fresh_ws-IsIdle 64 36 memory (omega arith) (omega arith) (omega arith) (omega arith);
  free = text_slot 0 0 ∷ [];
  split = refl;
  special_eq = refl;
  nhd_eq = refl;
  shd_eq = refl;
  small = omega arith;
  headers = (
    (inr (omega arith, omega arith, inr (omega arith)), refl),
    ((inr (omega arith, omega arith, inr (omega arith)), refl), tt),
  );
  specials = (inl refl, (inl refl, (inl refl, (inl refl, (inl refl, tt)))));
}

header_lem_example : header ix host object ≡ ok (lookup host rows)
header_lem_example = header_lem ix special rows object host object-IsHttp

find_host : lookup host rows ≡ some (utf8 (b'a' ∷ []))
unfolding eq_ignore_ascii_case
find_host = refl

unset_header_lem_example :
    (h' : Http) × (unset_header ix etag_name object ≡ (ok tt, h'))
    × IsHttp ix special (remaining etag_name rows) h'
    × (h'.ws ≡ small)
    × (h'.shd ≡ 8)
    × (h'.log ≡ [] ++ unset_log ix etag_name 20 rows)
unset_header_lem_example = unset_header_lem ix special rows object etag_name object-IsHttp

-- `Via` and `1`, and the source of the header.
abbrev via : Bytes
via = b'V' ∷ b'i' ∷ b'a' ∷ []

abbrev via_text : Bytes
via_text = header_text via (b'1' ∷ [])

via_text-whole : text_of via_text ≡ some via_text
unfolding text_of
via_text-whole = refl

set_header_raw_lem_example :
    ((object.nhd ≡ object.shd)
      × (set_header_raw rt ix via_text object ≡ (err (c_str no_header_slot), object)))
    ⊎ ((7 < 8)
        × AppendsHeader rt ix laws special rows object object-IsHttp via
            (b' ' ∷ b'1' ∷ [])
            (text_of via_text)
            (set_header_raw rt ix via_text object))
unfolding text_of split_at_colon is_utf8
set_header_raw_lem_example =
    set_header_raw_lem rt ix laws special rows object object-IsHttp via_text via (b' ' ∷ b'1' ∷ [])
      (omega arith)
      (λ text e.
        let same : via_text ≡ text = cc (e, via_text-whole) in
        subst (λ t. split_at_colon t ≡ some (via, b' ' ∷ b'1' ∷ [])) same refl)
      refl

set_header-header_example :
    (h' : Http) × (set_header rt ix via (b'1' ∷ []) object ≡ (ok tt, h'))
    × (header ix via h' ≡ ok (some (from_slice (b'1' ∷ []))))
    × OthersKept ix via object h'
unfolding split_at_colon is_utf8 eq_ignore_ascii_case trim_ascii_start
set_header-header_example =
    set_header-header rt ix laws special rows object object-IsHttp via (b'1' ∷ []) refl refl
      via_text-whole (omega arith) (omega arith) (omega arith) refl

change_header_lem_example :
    ReplacesField rt ix laws special rows object object-IsHttp 1
      (omega arith)
      (text_of (b'/' ∷ []))
      (change_header rt ix 1 (b'/' ∷ []) object)
change_header_lem_example =
    change_header_lem rt ix laws special rows object object-IsHttp 1 (omega arith) (b'/' ∷ [])
      (omega arith)

found-IsTag :
    (etag : StrOrBytes)
    → lookup etag_name rows ≡ some etag
    → IsTag rt ix laws special rows object object-IsHttp etag
unfolding eq_ignore_ascii_case text_of
found-IsTag etag e =
    let same : utf8 (b'x' ∷ []) ≡ etag = cc e in
    subst (IsTag rt ix laws special rows object object-IsHttp) same (refl, omega arith)

weaken_etag_lem_example :
    WeakensEtag rt ix laws special rows object object-IsHttp
      (lookup etag_name rows)
      (weaken_etag rt ix object)
weaken_etag_lem_example = weaken_etag_lem rt ix laws special rows object object-IsHttp found-IsTag
