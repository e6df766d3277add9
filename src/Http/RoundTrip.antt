-- ===== src/Http/RoundTrip.antt =====
-- varnish-sys/src/vcl/http.rs: a header that `set_header` writes is the one that `header` reads.
use varnish_rs.Prelude.{
  ◌+◌, ◌^◌, ◌≤◌, ◌<◌, ◌≡◌, refl, sym, ap, ◌∙◌, inl, inr, true, false, none, some, List, [], ◌∷◌,
  ◌++◌, ◌==◌, if◌then◌else◌, length, Bool-cases, Option-cases, arith,
}
use mathlib.Core.Path.{subst}
use varnish_rs.Outcome.{Bytes, ok, Outcome}
use varnish_rs.Workspace.{Txt, Runtime}
use varnish_rs.Workspace.Allocator.{round_up}
use varnish_rs.Workspace.Contract.{IsRuntime}
use varnish_rs.Workspace.Text.{text_of}
use varnish_rs.HeaderText.{
  from_slice, is_utf8, trim_ascii_start, split_at_colon, behind_byte, eq_ignore_ascii_case,
}
use varnish_rs.Http.{Slot, Http, HdrIndex, set_header_raw, set_header}
use varnish_rs.Http.Lookup.{header}
use varnish_rs.Http.State.{Row, IsHttp}
use varnish_rs.Http.Find.{lookup, header_lem}
use varnish_rs.Http.Set.{new_row, AppendsHeader, set_header_raw_lem}
use varnish_rs.Http.Names.{eq_ignore_ascii_case_refl, lookup-append, lookup-append_other}

-- The source of the text that `set_header` writes.
abbrev pub header_text : Bytes → Bytes → Bytes
header_text name value = name ++ b':' ∷ b' ' ∷ value

pub split_at_colon-name :
    (name rest : Bytes)
    → split_at_colon name ≡ none
    → split_at_colon (name ++ b':' ∷ rest) ≡ some (name, rest)
unfolding split_at_colon
split_at_colon-name [] rest e = refl
split_at_colon-name (b ∷ name) rest e = elim (Bool-cases (b == b':')) [
  | inl p ↦
      let found : some ([], name) ≡ none =
        ap (λ t. if t then some ([], name) else behind_byte b (split_at_colon name)) (sym p) ∙ e in
      absurd (cc found)
  | inr p ↦
      let later : behind_byte b (split_at_colon name) ≡ none =
        ap (λ t. if t then some ([], name) else behind_byte b (split_at_colon name)) (sym p) ∙ e in
      elim (Option-cases (split_at_colon name)) [
        | inl q ↦ rw (p, split_at_colon-name name rest q)
        | inr (parts, q) ↦
            let found : behind_byte b (some parts) ≡ none = ap (behind_byte b) (sym q) ∙ later in
            absurd (cc found)
      ]
]

-- The headers of other names read as before.
abbrev pub OthersKept : HdrIndex → Bytes → Http → Http → Type 0
OthersKept ix name h h' =
    (other : Bytes)
    → eq_ignore_ascii_case other name ≡ false
    → header ix other h' ≡ header ix other h

module _ (rt : Runtime) (ix : HdrIndex) (laws : IsRuntime rt) (special : List Slot)
    (rows : List Row) (h : Http) (v : IsHttp ix special rows h) where
  -- A header appended to headers without its name is found, and no other changes.
  pub Appended-header :
      (t : Txt) (key value : Bytes) (h' : Http)
      → lookup key rows ≡ none
      → IsHttp ix special (rows ++ new_row t key value ∷ []) h'
      → (header ix key h' ≡ ok (some (from_slice (trim_ascii_start value))))
        × OthersKept ix key h h'
  Appended-header t key value h' missing v' =
      let r = new_row t key value in
      (
        header_lem ix special (rows ++ r ∷ []) h' key v'
            ∙ ap ok (lookup-append key rows r missing (eq_ignore_ascii_case_refl key)),
        λ other ne.
            header_lem ix special (rows ++ r ∷ []) h' other v'
            ∙ ap ok (lookup-append_other other rows r ne)
            ∙ sym (header_lem ix special rows h other v),
      )

  with_room :
      {result : Outcome (Unit {0}) × Http} (key text value : Bytes)
      → AppendsHeader rt ix laws special rows h v key value (some text) result
      → h.ws.f + round_up (length text + 1) ≤ h.ws.e
      → lookup key rows ≡ none
      → (h' : Http) × (result ≡ (ok tt, h'))
        × (header ix key h' ≡ ok (some (from_slice (trim_ascii_start value))))
        × OthersKept ix key h h'
  with_room key text value (inl (_, (t, h', run, _, v', _, _))) room missing =
      let (found, others) = Appended-header t key value h' missing v' in (h', run, found, others)
  with_room key text value (inr (full, _)) room missing = absurd (omega (arith, full, room))

  -- A header that the object does not have, written with free slots and room in the workspace, is
  -- read back without the white space before its value, and every other name reads as before. The
  -- name has no colon and is UTF-8, and the text has no NUL and less than 2 ^ 32 bytes.
  pub set_header-header :
      (name value : Bytes)
      → is_utf8 name ≡ true
      → split_at_colon name ≡ none
      → text_of (header_text name value) ≡ some (header_text name value)
      → length (header_text name value) + 1 < 2 ^ 32
      → h.nhd < h.shd
      → h.ws.f + round_up (length (header_text name value) + 1) ≤ h.ws.e
      → lookup name rows ≡ none
      → (h' : Http) × (set_header rt ix name value h ≡ (ok tt, h'))
        × (header ix name h' ≡ ok (some (from_slice (trim_ascii_start value))))
        × OthersKept ix name h h'
  unfolding set_header trim_ascii_start
  set_header-header name value u plain whole short slot room missing =
      let text = header_text name value in
      let at : (s : Bytes) → text_of text ≡ some s → split_at_colon s ≡ some (name, b' ' ∷ value) =
        λ s e.
          let same : text ≡ s = cc (e, whole) in
          subst (λ s. split_at_colon s ≡ some (name, b' ' ∷ value)) same
            (split_at_colon-name name (b' ' ∷ value) plain) in
      elim (set_header_raw_lem rt ix laws special rows h v text name (b' ' ∷ value) short at u) [
        | inl (full, _) ↦ absurd (omega (arith, full, slot))
        | inr (_, done) ↦
            with_room name text (b' ' ∷ value)
              (subst
                (λ o.
                  AppendsHeader rt ix laws special rows h v name (b' ' ∷ value) o
                    (set_header_raw rt ix text h))
                whole done)
              room missing
      ]
