-- ===== src/Http/Set.antt =====
-- varnish-sys/src/vcl/http.rs: `set_header_raw` and `set_header` append a header.
use varnish_rs.Prelude.{
  suc, ◌+◌, ◌-◌, ◌^◌, ◌≤◌, ◌<◌, ◌≡◌, refl, sym, ap, ◌∙◌, ◌⊎◌, inl, inr, true, Option, none, some,
  List, [], ◌∷◌, ◌++◌, length, length-append, set, get_elem?-append, set-append, ne→==, eq→==,
  le→leb, lt→ltb, le-cases, arith,
}
use mathlib.Core.Path.{subst}
use mathlib.Core.List.{append_assoc}
use varnish_rs.Outcome.{
  Bytes, ok, err, Outcome, c_str, null_byte, no_header_slot, ws_out_of_memory, and_then,
}
use varnish_rs.Memory.{null}
use varnish_rs.Workspace.{Ws, Txt, Runtime, copy_bytes_with_null}
use varnish_rs.Workspace.Allocator.{round_up}
use varnish_rs.Workspace.Contract.{IsRuntime}
use varnish_rs.Workspace.Text.{HoldsText, CopiesText, text_of, copy_bytes_with_null_lem}
use varnish_rs.HeaderText.{
  from_slice, is_utf8, trim_ascii_start, split_at_colon, to_slice, parse_header, offset_from,
}
use varnish_rs.Http.{
  Slot, Http, HdrIndex, tag_of, hd_of, hd_at, put_slot, logged_or_restored, change_header,
  set_header_raw,
}
use varnish_rs.Http.State.{
  Row, slots_of, slots_of-append, length-slots_of, HasHeader, AllHave-append, AllHave-Extends,
  AllStay-Extends, IsHttp, offset_from-eq,
}

-- The header that a text stands for, in a slot of its own.
abbrev pub new_row : Txt → Bytes → Bytes → Row
new_row t key value = record {
  slot = record { hd = t; hdf = 0 };
  name = key;
  value = from_slice (trim_ascii_start value);
}

HoldsText-HasHeader :
    (text key value : Bytes) (w w' : Ws) (t : Txt)
    → HoldsText text w t w'
    → split_at_colon text ≡ some (key, value)
    → is_utf8 key ≡ true
    → HasHeader w' (new_row t key value)
unfolding parse_header to_slice
HoldsText-HasHeader text key value w w' t x at u =
    let upper : w'.f ≤ w'.e = x.extends.idle.ws.upper in
    let address : w'.e < 2 ^ 63 = x.extends.idle.ws.address in
    let order : t.b ≤ t.e = omega (arith, x.len_eq) in
    let bound : t.e < 2 ^ 64 = omega (arith, x.ends, upper, address) in
    let size : offset_from t.e t.b ≡ length text =
      offset_from-eq t.e t.b order bound ∙ omega (arith, x.len_eq) in
    (
      inr (order, bound, inl (omega (arith, x.ends))),
      rw (ne→== t.b null x.non_null, size, x.content, at, u),
    )

module _ (rt : Runtime) (ix : HdrIndex) (laws : IsRuntime rt) (special : List Slot)
    (rows : List Row) (h : Http) (v : IsHttp ix special rows h) where
  -- The first free slot has the text, and the object has all the old headers and the new one.
  abbrev pub Appended : Bytes → Bytes → Bytes → Outcome (Unit {0}) × Http → Type 0
  Appended text key value result =
      (t : Txt) × (h' : Http) × (result ≡ (ok tt, h'))
      × HoldsText text h.ws t h'.ws
      × IsHttp ix special (rows ++ new_row t key value ∷ []) h'
      × (h'.shd ≡ h.shd)
      × (h'.log ≡ h.log ++ (tag_of h.logtag ix.first, t) ∷ [])

  -- What appending a header does, by the text that its source stands for.
  abbrev pub AppendsHeader : Bytes → Bytes → Option Bytes → Outcome (Unit {0}) × Http → Type 0
  AppendsHeader key value none result = result ≡ (err (c_str null_byte), h)
  AppendsHeader key value (some text) result =
      ((h.ws.f + round_up (length text + 1) ≤ h.ws.e) × Appended text key value result)
      ⊎ ((h.ws.e < h.ws.f + round_up (length text + 1))
          × (result ≡ (err (ws_out_of_memory (length text + 1)), h)))

  -- The state that the new text leaves, when a slot is free.
  module _ (g : Slot) (free : List Slot) (e : v.free ≡ g ∷ free) where
    abbrev before : List Slot
    before = special ++ slots_of rows

    length-before : length before ≡ h.nhd
    length-before =
        length-append special (slots_of rows)
        ∙ omega (arith, v.special_eq, v.nhd_eq, length-slots_of rows)

    slots-before : h.slots ≡ before ++ g ∷ free
    slots-before = v.split ∙ rw e (sym (append_assoc special (slots_of rows) (g ∷ free)))

    abbrev placed_at : Txt → Ws → Http
    placed_at t w = record h {
      nhd = h.nhd + 1;
      slots = set h.slots h.nhd (record { hd = t; hdf = 0 });
      ws = w;
      log = h.log ++ (tag_of h.logtag ix.first, t) ∷ [];
    }

    slots-placed_at :
        (t : Txt)
        → set h.slots h.nhd (record { hd = t; hdf = 0 })
          ≡ before ++ record { hd = t; hdf = 0 } ∷ free
    slots-placed_at t =
        rw (slots-before, sym length-before) (set-append before g free (record { hd = t; hdf = 0 }))

    hd_at-placed_at : (t : Txt) → hd_at (set h.slots h.nhd (record { hd = t; hdf = 0 })) h.nhd ≡ t
    hd_at-placed_at t =
        rw (slots-placed_at t, sym length-before)
          (ap hd_of (get_elem?-append before (record { hd = t; hdf = 0 }) free))

    logged :
        (t : Txt) (w : Ws)
        → logged_or_restored ix.first h.nhd (
          ok tt,
          record h {
            nhd = h.nhd + 1;
            slots = set h.slots h.nhd (record { hd = t; hdf = 0 });
            ws = w;
          },
        )
          ≡ (ok tt, placed_at t w)
    logged t w =
        ap
          (λ u. (
            ok tt,
            record h {
              nhd = h.nhd + 1;
              slots = set h.slots h.nhd (record { hd = t; hdf = 0 });
              ws = w;
              log = h.log ++ (tag_of h.logtag ix.first, u) ∷ [];
            },
          ))
          (hd_at-placed_at t)

    placed_at-IsHttp :
        (text key value : Bytes) (t : Txt) (w : Ws)
        → HoldsText text h.ws t w
        → split_at_colon text ≡ some (key, value)
        → is_utf8 key ≡ true
        → IsHttp ix special (rows ++ new_row t key value ∷ []) (placed_at t w)
    placed_at-IsHttp text key value t w x at u =
        let r = new_row t key value in
        let size : length h.slots ≡ length before + suc (length free) =
          ap length slots-before ∙ length-append before (g ∷ free) in
        let size' : length (before ++ r.slot ∷ free) ≡ length before + suc (length free) =
          length-append before (r.slot ∷ free) in
        record {
          idle = x.extends.idle;
          free = free;
          split =
              slots-placed_at t
              ∙ append_assoc special (slots_of rows) (r.slot ∷ free)
              ∙ ap (special ++◌) (
                  sym (append_assoc (slots_of rows) (r.slot ∷ []) free)
                  ∙ ap (λ l. l ++ free) (sym (slots_of-append rows (r ∷ []))));
          special_eq = v.special_eq;
          nhd_eq = omega (arith, v.nhd_eq, length-append rows (r ∷ []));
          shd_eq = v.shd_eq ∙ size ∙ sym size' ∙ ap length (sym (slots-placed_at t));
          small = v.small;
          headers =
              AllHave-append w rows (r ∷ []) (AllHave-Extends h.ws w rows x.extends v.headers)
                (HoldsText-HasHeader text key value h.ws w t x at u, tt);
          specials = AllStay-Extends h.ws w special x.extends v.specials;
        }

    -- What `set_header_raw` does with the outcome of the copy.
    abbrev after_copy : Outcome Txt × Ws → Outcome (Unit {0}) × Http
    after_copy (o, w) = logged_or_restored ix.first h.nhd (
        and_then (λ text. put_slot h.nhd (record { hd = text; hdf = 0 }))
          (o, record h { nhd = h.nhd + 1; ws = w }))

    after_copy-AppendsHeader :
        (o : Outcome Txt × Ws) (source : Option Bytes) (key value : Bytes)
        → ((text : Bytes) → source ≡ some text → split_at_colon text ≡ some (key, value))
        → is_utf8 key ≡ true
        → CopiesText h.ws o source
        → AppendsHeader key value source (after_copy o)
    after_copy-AppendsHeader o none key value at u p =
        let back : h.nhd + 1 - 1 ≡ h.nhd = omega arith in
        ap after_copy p ∙ ap (λ n. (err (c_str null_byte), record h { nhd = n })) back
    after_copy-AppendsHeader o (some text) key value at u (inl (room, (t, w, p, x))) = inl (
      room,
      (
        t,
        placed_at t w,
        ap after_copy p ∙ logged t w,
        x,
        placed_at-IsHttp text key value t w x (at text refl) u,
        refl,
        refl,
      ),
    )
    after_copy-AppendsHeader o (some text) key value at u (inr (full, p)) =
        let back : h.nhd + 1 - 1 ≡ h.nhd = omega arith in
        inr (
          full,
          ap after_copy p
              ∙ ap (λ n. (err (ws_out_of_memory (length text + 1)), record h { nhd = n })) back,
        )

    set_header_raw-after_copy :
        (raw : Bytes)
        → h.nhd < h.shd
        → set_header_raw rt ix raw h ≡ after_copy (copy_bytes_with_null rt raw h.ws)
    unfolding set_header_raw change_header
    set_header_raw-after_copy raw p =
        let below : h.nhd < h.nhd + 1 = omega arith in
        rw (
          le→leb h.nhd h.shd (omega arith),
          ne→== h.nhd h.shd (omega arith),
          lt→ltb h.nhd (h.nhd + 1) below,
        )

  -- A slot is free when not all are taken.
  free_slot : h.nhd < h.shd → (g : Slot) × (free : List Slot) × (v.free ≡ g ∷ free)
  free_slot p = go v.free (v.shd_eq ∙ ap length v.split)
    where
      go :
          (free : List Slot)
          → h.shd ≡ length (special ++ (slots_of rows ++ free))
          → (g : Slot) × (rest : List Slot) × (free ≡ g ∷ rest)
      go (g ∷ rest) n = (g, rest, refl)
      go [] n = absurd (
          omega (
            arith,
            p,
            n,
            v.special_eq,
            v.nhd_eq,
            length-slots_of rows,
            length-append special (slots_of rows ++ []),
            length-append (slots_of rows) [],
          ))

  -- Appending a header to a well-formed object, from a source below 2 ^ 32 - 1 bytes whose text, if
  -- it has one, has a colon behind a UTF-8 name: with no free slot, with a NUL in the source or
  -- without room it is an error that changes nothing; otherwise the header comes behind the old
  -- ones, which stay, and is logged.
  pub set_header_raw_lem :
      (raw key value : Bytes)
      → length raw + 1 < 2 ^ 32
      → ((text : Bytes) → text_of raw ≡ some text → split_at_colon text ≡ some (key, value))
      → is_utf8 key ≡ true
      → ((h.nhd ≡ h.shd) × (set_header_raw rt ix raw h ≡ (err (c_str no_header_slot), h)))
        ⊎ ((h.nhd < h.shd) × AppendsHeader key value (text_of raw) (set_header_raw rt ix raw h))
  unfolding set_header_raw
  set_header_raw_lem raw key value short at u = elim (le-cases h.shd h.nhd) [
    | inl full ↦
        let most : h.nhd ≤ h.shd = omega (
          arith,
          v.nhd_eq,
          v.shd_eq,
          ap length v.split,
          v.special_eq,
          length-slots_of rows,
          length-append special (slots_of rows ++ v.free),
          length-append (slots_of rows) v.free,
        ) in
        let all : h.nhd ≡ h.shd = omega arith in
        inl (all, rw (le→leb h.nhd h.shd most, eq→== h.nhd h.shd all))
    | inr room ↦
        let (g, free, e) = free_slot room in
        inr (
          room,
          subst (AppendsHeader key value (text_of raw))
              (sym (set_header_raw-after_copy g free e raw room))
              (after_copy-AppendsHeader g free e (copy_bytes_with_null rt raw h.ws) (text_of raw)
                key value at u (copy_bytes_with_null_lem rt laws raw h.ws v.idle short)),
        )
  ]
