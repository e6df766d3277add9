-- ===== src/Http.antt =====
-- varnish-sys/src/vcl/http.rs: `HttpHeaders`, the slots of an HTTP object of varnishd, with the
-- workspace that holds new texts and the log of the calls of `VSLbt`.
pub mod Lookup
pub mod Etag
pub mod State
pub mod Find
pub mod Set
pub mod Rounds
pub mod Unset
pub mod Names
pub mod Special
pub mod RoundTrip
pub mod Weaken
mod Tests
use varnish_rs.Prelude.{
  ℕ, zero, suc, ◌+◌, ◌-◌, ◌%◌, ◌^◌, Bool, true, false, not, Option, none, some, List, [], ◌∷◌, ◌++◌,
  leb, ltb, ◌==◌, if◌then◌else◌, length, get_elem?, set, take, drop,
}
use varnish_rs.Outcome.{
  Bytes, Outcome, Result, ok, err, panic, no_header_slot, c_str, Exec, pure, fail, panics, gets,
  answer, ◌>>=◌, ◌>>◌, assert,
}
use varnish_rs.Memory.{Memory}
use varnish_rs.Workspace.{Ws, Txt, Runtime, copy_bytes_with_null}
use varnish_rs.HeaderText.{
  StrOrBytes, as_bytes, from_slice, eq_ignore_ascii_case, same_bytes, starts_with, to_slice,
  parse_header,
}

-- What stands at one index of the arrays `hd` and `hdf`.
pub record Slot : Type 0 where
  pub hd : Txt
  pub hdf : ℕ

-- `ffi::http`. The log has the tag and the text of each record.
pub record Http : Type 0 where
  pub nhd : ℕ
  pub shd : ℕ
  pub slots : List Slot
  pub protover : ℕ
  pub logtag : ℕ
  pub ws : Ws
  pub log : List (ℕ × Txt)

-- The indices of the special slots in the C headers of varnishd: `HTTP_HDR_METHOD` and so on.
pub record HdrIndex : Type 0 where
  pub method : ℕ
  pub url : ℕ
  pub proto : ℕ
  pub status : ℕ
  pub reason : ℕ
  pub first : ℕ
  pub unset : ℕ

-- An operation of the workspace that the object points to.
abbrev pub on_ws : {A : Type 0} → Exec Ws A → Exec Http A
on_ws m h = ((m h.ws).0, record h { ws = (m h.ws).1 })

abbrev pub put_slot : ℕ → Slot → Exec Http (Unit {0})
put_slot idx slot h = (ok tt, record h { slots = set h.slots idx slot })

abbrev pub set_nhd : ℕ → Exec Http (Unit {0})
set_nhd n h = (ok tt, record h { nhd = n })

-- `VSLbt`
abbrev pub vslbt : ℕ → Txt → Http → Http
vslbt tag t h = record h { log = h.log ++ (tag, t) ∷ [] }

-- The text of a slot; an index behind the arrays is not read by the source.
abbrev pub hd_of : Option Slot → Txt
hd_of none = record { b = 0; e = 0 }
hd_of (some slot) = slot.hd

abbrev pub hd_at : List Slot → ℕ → Txt
hd_at slots idx = hd_of (get_elem? slots idx)

-- A tag is a `u32`.
abbrev pub tag_of : ℕ → ℕ → ℕ
tag_of logtag offset = (logtag + offset) % 2 ^ 32

abbrev pub as_u16 : ℕ → ℕ
as_u16 n = n % 2 ^ 16

-- The version that `set_proto` stores.
abbrev pub http_version : ℕ → ℕ → Bytes
http_version major minor =
    b'H' ∷ b'T' ∷ b'T' ∷ b'P' ∷ b'/' ∷ (b'0' + major) ∷ b'.' ∷ (b'0' + minor) ∷ []

abbrev pub protover_of : Bytes → ℕ
protover_of value =
    if same_bytes value (http_version 0 9)
    then 9
    else if same_bytes value (http_version 1 0)
    then 10
    else if same_bytes value (http_version 1 1)
    then 11
    else if same_bytes value (http_version 2 0)
    then 20
    else 0

abbrev pub set_protover : ℕ → Exec Http (Unit {0})
set_protover v h = (ok tt, record h { protover = v })

-- What follows `change_header` in `set_header_raw`: a record in the log, or the slot given back.
abbrev pub logged_or_restored : ℕ → ℕ → Outcome (Unit {0}) × Http → Outcome (Unit {0}) × Http
logged_or_restored first idx (ok u, h) = (ok u, vslbt (tag_of h.logtag first) (hd_at h.slots idx) h)
logged_or_restored first idx (err e, h) = (err e, record h { nhd = h.nhd - 1 })
logged_or_restored first idx (panic, h) = (panic, h)

module _ (rt : Runtime) (ix : HdrIndex) where
  unfoldable pub change_header : ℕ → Bytes → Exec Http (Unit {0})
  change_header idx value = do
    nhd ← gets (λ h. h.nhd)
    assert (ltb idx nhd)
    text ← on_ws (copy_bytes_with_null rt value)
    put_slot idx (record { hd = text; hdf = 0 })

  -- With the number of the slot that is taken.
  abbrev pub in_new_slot : ℕ → Bytes → Exec Http (Unit {0})
  in_new_slot idx raw h =
      logged_or_restored ix.first idx (change_header idx raw (record h { nhd = h.nhd + 1 }))

  unfoldable pub set_header_raw : Bytes → Exec Http (Unit {0})
  unfolding change_header
  set_header_raw raw = do
    nhd ← gets (λ h. h.nhd)
    shd ← gets (λ h. h.shd)
    assert (leb nhd shd)
    if nhd == shd then fail (c_str no_header_slot) else in_new_slot nhd raw

  -- `format!("{name}: {value}")`
  unfoldable pub set_header : Bytes → Bytes → Exec Http (Unit {0})
  unfolding set_header_raw
  set_header name value = set_header_raw (name ++ b':' ∷ b' ' ∷ value)

  unfoldable pub set_url : Bytes → Exec Http (Unit {0})
  set_url value = change_header ix.url value

  unfoldable pub set_reason : Bytes → Exec Http (Unit {0})
  set_reason value = change_header ix.reason value

  unfoldable pub set_proto : Bytes → Exec Http (Unit {0})
  set_proto value = do set_protover (protover_of value); change_header ix.proto value

module _ (ix : HdrIndex) where
  -- One header of the loop in `unset_header`, with its parts, and the first empty place.
  abbrev pub unset_one : Bytes → ℕ → ℕ → Slot → Outcome (Option (Bytes × StrOrBytes)) → Exec Http ℕ
  unset_one name idx idx_empty slot (ok (some (n, value))) h =
      if eq_ignore_ascii_case name n
      then (ok idx_empty, vslbt (tag_of h.logtag (ix.unset + ix.method)) slot.hd h)
      else if idx == idx_empty
      then (ok (idx_empty + 1), h)
      else (ok (idx_empty + 1), record h { slots = set h.slots (ix.first + idx_empty) slot })
  unset_one name idx idx_empty slot _ h = (panic, h)

  abbrev pub unset_at : Bytes → ℕ → ℕ → Option Slot → Exec Http ℕ
  unset_at name idx idx_empty none h = (panic, h)
  unset_at name idx idx_empty (some slot) h =
      unset_one name idx idx_empty slot (parse_header h.ws.mem slot.hd) h

  -- The loop, with the headers left. It reads the arrays that it writes.
  unfoldable pub unset_loop : Bytes → ℕ → ℕ → ℕ → Exec Http ℕ
  unset_loop name zero idx idx_empty h = (ok idx_empty, h)
  unset_loop name (suc left) idx idx_empty h =
      (unset_at name idx idx_empty (get_elem? h.slots (ix.first + idx))
          >>= unset_loop name left (suc idx))
        h

  -- The slice from the first header panics if there are fewer slots.
  unfoldable pub unset_header : Bytes → Exec Http (Unit {0})
  unfolding unset_loop
  unset_header name = do
    nhd ← gets (λ h. h.nhd)
    assert (leb ix.first nhd)
    idx_empty ← unset_loop name (nhd - ix.first) 0 0
    set_nhd (ix.first + as_u16 idx_empty)
