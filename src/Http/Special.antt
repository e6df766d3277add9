-- ===== src/Http/Special.antt =====
-- varnish-sys/src/vcl/http.rs: `change_header` on a special slot, as `set_url`, `set_reason` and
-- `set_proto` use it, and `field` after it.
use varnish_rs.Prelude.{
  ℕ, zero, suc, ◌+◌, ◌^◌, ◌≤◌, ◌<◌, ◌≡◌, refl, sym, ap, ◌∙◌, ◌⊎◌, inl, inr, Option, none, some,
  List, [], ◌∷◌, ◌++◌, length, length-set, get_elem?, set, ne→==, lt→ltb, lt→leb, arith,
}
use varnish_rs.Outcome.{Bytes, ok, err, Outcome, c_str, null_byte, ws_out_of_memory, and_then}
use varnish_rs.Memory.{null}
use varnish_rs.Workspace.{Ws, Txt, Runtime, copy_bytes_with_null}
use varnish_rs.Workspace.Allocator.{round_up}
use varnish_rs.Workspace.Contract.{IsRuntime}
use varnish_rs.Workspace.Text.{HoldsText, CopiesText, text_of, copy_bytes_with_null_lem}
use varnish_rs.HeaderText.{from_slice, to_slice, offset_from}
use varnish_rs.Http.{Slot, Http, HdrIndex, put_slot, change_header}
use varnish_rs.Http.Lookup.{field}
use varnish_rs.Http.State.{
  Row, slots_of, AllStay, AllHave-Extends, AllStay-Extends, Stays, IsHttp, offset_from-eq,
}

set-left :
    (xs ys : List Slot) (i : ℕ) (z : Slot) → i < length xs → set (xs ++ ys) i z ≡ set xs i z ++ ys
set-left [] ys i z p = absurd (omega (arith, p))
set-left (x ∷ xs) ys zero z p = refl
set-left (x ∷ xs) ys (suc i) z p = ap (◌∷◌ x) (set-left xs ys i z (omega (arith, p)))

get_elem?-set :
    (xs ys : List Slot) (i : ℕ) (z : Slot) → i < length xs → get_elem? (set xs i z ++ ys) i ≡ some z
get_elem?-set [] ys i z p = absurd (omega (arith, p))
get_elem?-set (x ∷ xs) ys zero z p = refl
get_elem?-set (x ∷ xs) ys (suc i) z p = get_elem?-set xs ys i z (omega (arith, p))

AllStay-set :
    (w : Ws) (xs : List Slot) (i : ℕ) (z : Slot)
    → AllStay w xs
    → Stays w z.hd
    → AllStay w (set xs i z)
AllStay-set w [] i z h p = h
AllStay-set w (x ∷ xs) zero z (h, hs) p = (p, hs)
AllStay-set w (x ∷ xs) (suc i) z (h, hs) p = (h, AllStay-set w xs i z hs p)

module _ (rt : Runtime) (ix : HdrIndex) (laws : IsRuntime rt) (special : List Slot)
    (rows : List Row) (h : Http) (v : IsHttp ix special rows h) (idx : ℕ) (p : idx < ix.first) where
  -- Only the text of one special slot changes.
  abbrev pub Replaced : Bytes → Outcome (Unit {0}) × Http → Type 0
  Replaced text result =
      (t : Txt) × (h' : Http) × (result ≡ (ok tt, h'))
      × HoldsText text h.ws t h'.ws
      × IsHttp ix (set special idx (record { hd = t; hdf = 0 })) rows h'
      × (field ix idx h' ≡ some (from_slice text))

  abbrev pub ReplacesField : Option Bytes → Outcome (Unit {0}) × Http → Type 0
  ReplacesField none result = result ≡ (err (c_str null_byte), h)
  ReplacesField (some text) result =
      ((h.ws.f + round_up (length text + 1) ≤ h.ws.e) × Replaced text result)
      ⊎ ((h.ws.e < h.ws.f + round_up (length text + 1))
          × (result ≡ (err (ws_out_of_memory (length text + 1)), h)))

  abbrev slot_for : Txt → Slot
  slot_for t = record { hd = t; hdf = 0 }

  abbrev replaced : Txt → Ws → Http
  replaced t w = record h { slots = set h.slots idx (slot_for t); ws = w }

  slots-replaced :
      (t : Txt)
      → set h.slots idx (slot_for t) ≡ set special idx (slot_for t) ++ (slots_of rows ++ v.free)
  slots-replaced t =
      rw v.split (
        set-left special (slots_of rows ++ v.free) idx (slot_for t)
          (omega (arith, p, v.special_eq)))

  HoldsText-Stays :
      (text : Bytes) (t : Txt) (w : Ws)
      → HoldsText text h.ws t w
      → (t.b ≤ t.e) × (t.e < 2 ^ 64) × (t.e ≤ w.f)
  HoldsText-Stays text t w x =
      let upper : w.f ≤ w.e = x.extends.idle.ws.upper in
      let address : w.e < 2 ^ 63 = x.extends.idle.ws.address in
      (omega (arith, x.len_eq), omega (arith, x.ends, upper, address), omega (arith, x.ends))

  replaced-IsHttp :
      (text : Bytes) (t : Txt) (w : Ws)
      → HoldsText text h.ws t w
      → IsHttp ix (set special idx (slot_for t)) rows (replaced t w)
  replaced-IsHttp text t w x =
      let (order, bound, below) = HoldsText-Stays text t w x in
      let special' = set special idx (slot_for t) in
      record {
        idle = x.extends.idle;
        free = v.free;
        split = slots-replaced t;
        special_eq = length-set special idx (slot_for t) ∙ v.special_eq;
        nhd_eq = v.nhd_eq;
        shd_eq = v.shd_eq ∙ sym (length-set h.slots idx (slot_for t));
        small = v.small;
        headers = AllHave-Extends h.ws w rows x.extends v.headers;
        specials =
            AllStay-set w special idx (slot_for t)
              (AllStay-Extends h.ws w special x.extends v.specials) (inr (order, bound, inl below));
      }

  field-replaced :
      (text : Bytes) (t : Txt) (w : Ws)
      → HoldsText text h.ws t w
      → field ix idx (replaced t w) ≡ some (from_slice text)
  unfolding field to_slice
  field-replaced text t w x =
      let (order, bound, below) = HoldsText-Stays text t w x in
      let size : offset_from t.e t.b ≡ length text =
        offset_from-eq t.e t.b order bound ∙ omega (arith, x.len_eq) in
      let inside : idx < h.nhd = omega (arith, p, v.nhd_eq) in
      rw (
        lt→leb h.nhd idx inside,
        slots-replaced t,
        get_elem?-set special (slots_of rows ++ v.free) idx (slot_for t)
            (omega (arith, p, v.special_eq)),
        ne→== t.b null x.non_null,
        size,
        x.content,
      )

  -- What `change_header` does with the outcome of the copy.
  abbrev after_copy : Outcome Txt × Ws → Outcome (Unit {0}) × Http
  after_copy (o, w) = and_then (λ text. put_slot idx (slot_for text)) (o, record h { ws = w })

  -- With the index of a special slot and a value below 2 ^ 32 - 1 bytes: the text of the value is
  -- copied into the workspace and read back from that slot, and every other slot and header stays;
  -- a NUL before the end of the value or a full workspace is an error that changes nothing.
  pub change_header_lem :
      (value : Bytes)
      → length value + 1 < 2 ^ 32
      → ReplacesField (text_of value) (change_header rt ix idx value h)
  unfolding change_header
  change_header_lem value short =
      let inside : idx < h.nhd = omega (arith, p, v.nhd_eq) in
      rw (lt→ltb idx h.nhd inside)
        (go (text_of value) (copy_bytes_with_null_lem rt laws value h.ws v.idle short))
    where
      copied : Outcome Txt × Ws
      copied = copy_bytes_with_null rt value h.ws

      go :
          (source : Option Bytes)
          → CopiesText h.ws copied source
          → ReplacesField source (after_copy copied)
      go none e = ap after_copy e
      go (some text) (inl (room, (t, w, e, x))) = inl (
        room,
        (
          t,
          replaced t w,
          ap after_copy e,
          x,
          replaced-IsHttp text t w x,
          field-replaced text t w x,
        ),
      )
      go (some text) (inr (full, e)) = inr (full, ap after_copy e)
