-- ===== src/Http/Lookup.antt =====
-- varnish-sys/src/vcl/http.rs: the functions of `HttpHeaders` that read, and its iterator.
use varnish_rs.Prelude.{ℕ, Option, none, some, List, [], ◌∷◌, leb, if◌then◌else◌, take, drop}
use varnish_rs.Outcome.{Bytes, Outcome, ok, err, panic}
use varnish_rs.Memory.{Memory}
use varnish_rs.HeaderText.{StrOrBytes, from_slice, eq_ignore_ascii_case, to_slice, parse_header}
use varnish_rs.Http.{Slot, Http, HdrIndex, hd_at}

-- One call of `next`: a slot with a null text is skipped.
abbrev pub found_or :
    List Slot
    → Outcome (Option (Bytes × StrOrBytes))
    → Outcome (Option ((Bytes × StrOrBytes) × List Slot))
    → Outcome (Option ((Bytes × StrOrBytes) × List Slot))
found_or rest (ok (some hdr)) others = ok (some (hdr, rest))
found_or rest (ok none) others = others
found_or rest (err e) others = err e
found_or rest panic others = panic

unfoldable pub next : Memory → List Slot → Outcome (Option ((Bytes × StrOrBytes) × List Slot))
unfolding parse_header
next mem [] = ok none
next mem (slot ∷ slots) =
    let others = next mem slots in found_or slots (parse_header mem slot.hd) others

-- `find` on the iterator, with the value of what it finds.
abbrev pub value_or :
    Bytes
    → Outcome (Option (Bytes × StrOrBytes))
    → Outcome (Option StrOrBytes)
    → Outcome (Option StrOrBytes)
value_or name (ok (some (n, value))) others =
    if eq_ignore_ascii_case name n then ok (some value) else others
value_or name (ok none) others = others
value_or name (err e) others = err e
value_or name panic others = panic

unfoldable pub find_value : Bytes → Memory → List Slot → Outcome (Option StrOrBytes)
unfolding parse_header
find_value name mem [] = ok none
find_value name mem (slot ∷ slots) =
    let others = find_value name mem slots in value_or name (parse_header mem slot.hd) others

module _ (ix : HdrIndex) where
  unfoldable pub field : ℕ → Http → Option StrOrBytes
  unfolding to_slice from_slice
  field idx h = if leb h.nhd idx then none else elim (to_slice h.ws.mem (hd_at h.slots idx)) [
    | none ↦ none
    | some s ↦ some (from_slice s)
  ]

  -- `method`, `url`, `proto`, `status` and `reason` are the fields at their indices.
  unfoldable pub method : Http → Option StrOrBytes
  method = field ix.method

  unfoldable pub url : Http → Option StrOrBytes
  url = field ix.url

  unfoldable pub proto : Http → Option StrOrBytes
  proto = field ix.proto

  unfoldable pub status : Http → Option StrOrBytes
  status = field ix.status

  unfoldable pub reason : Http → Option StrOrBytes
  reason = field ix.reason

  -- `iter`: the slots that the cursor has still to pass.
  abbrev pub iter : Http → List Slot
  iter h = drop ix.first (take h.nhd h.slots)

  unfoldable pub header : Bytes → Http → Outcome (Option StrOrBytes)
  unfolding find_value
  header name h = find_value name h.ws.mem (iter h)
