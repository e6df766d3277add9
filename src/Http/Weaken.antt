-- ===== src/Http/Weaken.antt =====
-- varnish-sys/src/vcl/http.rs: `weaken_etag` on every branch.
use varnish_rs.Prelude.{
  ◌+◌, ◌^◌, ◌≤◌, ◌<◌, ◌≡◌, refl, sym, ap, ◌∙◌, ◌⊎◌, inl, inr, true, false, Option, none, some, List,
  [], ◌∷◌, ◌++◌, if◌then◌else◌, length, length-append, Bool-cases, arith,
}
use mathlib.Core.Path.{subst}
use varnish_rs.Outcome.{Bytes, ok, err, Outcome, and_then, ws_out_of_memory}
use varnish_rs.Workspace.{Runtime}
use varnish_rs.Workspace.Allocator.{round_up}
use varnish_rs.Workspace.Contract.{IsRuntime}
use varnish_rs.Workspace.Text.{text_of, text_of-cons}
use varnish_rs.HeaderText.{
  StrOrBytes, as_bytes, from_slice, is_utf8, starts_with, trim_ascii_start, split_at_colon,
  eq_ignore_ascii_case,
}
use varnish_rs.Http.{Slot, Http, HdrIndex, set_header_raw}
use varnish_rs.Http.Lookup.{header}
use varnish_rs.Http.State.{Row, slots_of, length-slots_of, IsHttp}
use varnish_rs.Http.Find.{lookup, header_lem}
use varnish_rs.Http.Set.{AppendsHeader, set_header_raw_lem}
use varnish_rs.Http.Unset.{unset_header_lem, length-remaining}
use varnish_rs.Http.Rounds.{remaining}
use varnish_rs.Http.Etag.{etag_name, weak_prefix, weaken, weaken_etag}
use varnish_rs.Http.Names.{lookup-remaining, lookup-remaining_other}
use varnish_rs.Http.RoundTrip.{OthersKept, Appended-header, split_at_colon-name}

-- The weak form of a tag.
abbrev pub weak : StrOrBytes → Bytes
weak etag = weak_prefix ++ as_bytes etag

abbrev pub etag_text : StrOrBytes → Bytes
etag_text etag = etag_name ++ b':' ∷ b' ' ∷ weak etag

-- A header found is one header more than remain without its name.
remaining-found :
    (name : Bytes) (rows : List Row) (value : StrOrBytes)
    → lookup name rows ≡ some value
    → length (remaining name rows) < length rows
remaining-found name [] value e = absurd (cc e)
remaining-found name (r ∷ rows) value e = elim (Bool-cases (eq_ignore_ascii_case name r.name)) [
  | inl p ↦ rw p (omega (arith, length-remaining name rows))
  | inr p ↦
      let later : lookup name rows ≡ some value =
        ap (λ t. if t then some r.value else lookup name rows) (sym p) ∙ e in
      rw p (omega (arith, remaining-found name rows value later))
]

module _ (rt : Runtime) (ix : HdrIndex) (laws : IsRuntime rt) (special : List Slot)
    (rows : List Row) (h : Http) (v : IsHttp ix special rows h) where
  -- A strong tag becomes weak if the workspace has room; if it has not, the tag is gone.
  abbrev pub StrongWeakened : StrOrBytes → Outcome (Unit {0}) × Http → Type 0
  StrongWeakened etag result =
      ((h' : Http) × (h.ws.f + round_up (length (etag_text etag) + 1) ≤ h.ws.e)
        × (result ≡ (ok tt, h'))
        × (header ix etag_name h' ≡ ok (some (from_slice (weak etag))))
        × OthersKept ix etag_name h h')
      ⊎ ((h' : Http) × (h.ws.e < h.ws.f + round_up (length (etag_text etag) + 1))
          × (result ≡ (err (ws_out_of_memory (length (etag_text etag) + 1)), h'))
          × (header ix etag_name h' ≡ ok none)
          × OthersKept ix etag_name h h')

  abbrev pub WeakensEtag : Option StrOrBytes → Outcome (Unit {0}) × Http → Type 0
  WeakensEtag none result = result ≡ (ok tt, h)
  WeakensEtag (some etag) result =
      ((starts_with weak_prefix (as_bytes etag) ≡ true) × (result ≡ (ok tt, h)))
      ⊎ ((starts_with weak_prefix (as_bytes etag) ≡ false) × StrongWeakened etag result)

  -- The text of a tag that a header can hold.
  abbrev pub IsTag : StrOrBytes → Type 0
  IsTag etag =
      (text_of (as_bytes etag) ≡ some (as_bytes etag)) × (length (as_bytes etag) + 9 < 2 ^ 32)

  plain_name : split_at_colon etag_name ≡ none
  unfolding split_at_colon
  plain_name = refl

  utf8_name : is_utf8 etag_name ≡ true
  unfolding is_utf8
  utf8_name = refl

  etag_text-whole :
      (etag : StrOrBytes) → IsTag etag → text_of (etag_text etag) ≡ some (etag_text etag)
  etag_text-whole etag (whole, short) = text_of-cons b'E' _ (omega arith) (
      text_of-cons b'T' _ (omega arith) (
        text_of-cons b'a' _ (omega arith) (
          text_of-cons b'g' _ (omega arith) (
            text_of-cons b':' _ (omega arith) (
              text_of-cons b' ' _ (omega arith)
                (text_of-cons b'W' _ (omega arith) (text_of-cons b'/' _ (omega arith) whole)))))))

  by_room :
      {result : Outcome (Unit {0}) × Http} (etag : StrOrBytes)
      → lookup etag_name rows ≡ none
      → AppendsHeader rt ix laws special rows h v etag_name
          (b' ' ∷ weak etag)
          (some (etag_text etag))
          result
      → StrongWeakened etag result
  unfolding trim_ascii_start
  by_room etag missing (inl (room, (t, h', run, _, v', _, _))) =
      let (found, others) =
        Appended-header rt ix laws special rows h v t etag_name (b' ' ∷ weak etag) h' missing v' in
      inl (h', room, run, found, others)
  by_room etag missing (inr (full, run)) =
      inr (h, full, run, header_lem ix special rows h etag_name v ∙ ap ok missing, λ other ne. refl)

  -- Appending the weak tag to headers without a tag.
  append_tag-StrongWeakened :
      (etag : StrOrBytes)
      → IsTag etag
      → lookup etag_name rows ≡ none
      → h.nhd < h.shd
      → StrongWeakened etag (set_header_raw rt ix (etag_text etag) h)
  unfolding trim_ascii_start
  append_tag-StrongWeakened etag tag missing slot =
      let text = etag_text etag in
      let value = b' ' ∷ weak etag in
      let full_text = etag_text-whole etag tag in
      let at : (s : Bytes) → text_of text ≡ some s → split_at_colon s ≡ some (etag_name, value) =
        λ s e.
          let same : text ≡ s = cc (e, full_text) in
          subst (λ s. split_at_colon s ≡ some (etag_name, value)) same
            (split_at_colon-name etag_name value plain_name) in
      let small : length text + 1 < 2 ^ 32 = omega (arith, tag.1) in
      elim (set_header_raw_lem rt ix laws special rows h v text etag_name value small at
        utf8_name) [
          | inl (full, _) ↦ absurd (omega (arith, full, slot))
          | inr (_, done) ↦ by_room etag missing (
              subst
                (λ o.
                  AppendsHeader rt ix laws special rows h v etag_name value o
                    (set_header_raw rt ix text h))
                full_text done)
        ]

module _ (rt : Runtime) (ix : HdrIndex) (laws : IsRuntime rt) (special : List Slot)
    (rows : List Row) (h : Http) (v : IsHttp ix special rows h) where
  missing-weaken : weaken rt ix none h ≡ (ok tt, h)
  unfolding weaken
  missing-weaken = refl

  weak-weaken :
      (etag : StrOrBytes)
      → starts_with weak_prefix (as_bytes etag) ≡ true
      → weaken rt ix (some etag) h ≡ (ok tt, h)
  unfolding weaken
  weak-weaken etag p = rw p

  -- From a state with the same workspace and the same other headers.
  seen_from :
      {result result' : Outcome (Unit {0}) × Http} (etag : StrOrBytes) (rows1 : List Row)
      (h1 : Http) (v1 : IsHttp ix special rows1 h1)
      → h1.ws ≡ h.ws
      → OthersKept ix etag_name h h1
      → result' ≡ result
      → StrongWeakened rt ix laws special rows1 h1 v1 etag result
      → StrongWeakened rt ix laws special rows h v etag result'
  seen_from etag rows1 h1 v1 same kept run (inl (h', room, done, found, others)) = inl (
    h',
    subst (λ w. w.f + round_up (length (etag_text etag) + 1) ≤ w.e) same room,
    run ∙ done,
    found,
    λ other ne. others other ne ∙ kept other ne,
  )
  seen_from etag rows1 h1 v1 same kept run (inr (h', full, done, found, others)) = inr (
    h',
    subst (λ w. w.e < w.f + round_up (length (etag_text etag) + 1)) same full,
    run ∙ done,
    found,
    λ other ne. others other ne ∙ kept other ne,
  )

  -- The tag that is gone leaves a slot, and all other headers.
  strong-weaken :
      (etag : StrOrBytes)
      → lookup etag_name rows ≡ some etag
      → IsTag rt ix laws special rows h v etag
      → starts_with weak_prefix (as_bytes etag) ≡ false
      → StrongWeakened rt ix laws special rows h v etag (weaken rt ix (some etag) h)
  unfolding weaken
  strong-weaken etag found tag strong =
      let (h1, gone, v1, same_ws, same_shd, _) = unset_header_lem ix special rows h etag_name v in
      let fewer = remaining-found etag_name rows etag found in
      let slot : h1.nhd < h1.shd = omega (
        arith,
        fewer,
        v1.nhd_eq,
        v.nhd_eq,
        same_shd,
        v.shd_eq,
        ap length v.split,
        v.special_eq,
        length-slots_of rows,
        length-append special (slots_of rows ++ v.free),
        length-append (slots_of rows) v.free,
      ) in
      let kept : OthersKept ix etag_name h h1 = λ other ne.
        header_lem ix special (remaining etag_name rows) h1 other v1
        ∙ ap ok (lookup-remaining_other etag_name other rows ne)
        ∙ sym (header_lem ix special rows h other v) in
      let next = and_then (λ _. set_header_raw rt ix (etag_text etag)) in
      rw strong (
        seen_from etag (remaining etag_name rows) h1 v1 same_ws kept (ap next gone) (
          append_tag-StrongWeakened rt ix laws special (remaining etag_name rows) h1 v1 etag tag
            (lookup-remaining etag_name rows) slot))

  -- On a well-formed object whose tag, if it has one, has no NUL and is below 2 ^ 32 - 9 bytes: with
  -- no tag or a weak one nothing changes; a strong one is replaced by its weak form if the workspace
  -- has room, and if it has not, the error leaves the object without a tag; headers of other names
  -- read as before.
  pub weaken_etag_lem :
      ((etag : StrOrBytes)
        → lookup etag_name rows ≡ some etag
        → IsTag rt ix laws special rows h v etag)
      → WeakensEtag rt ix laws special rows h v (lookup etag_name rows) (weaken_etag rt ix h)
  unfolding weaken_etag
  weaken_etag_lem tags =
      rw (header_lem ix special rows h etag_name v) (go (lookup etag_name rows) refl)
    where
      go :
          (found : Option StrOrBytes)
          → lookup etag_name rows ≡ found
          → WeakensEtag rt ix laws special rows h v found (weaken rt ix found h)
      go none e = missing-weaken
      go (some etag) e = elim (Bool-cases (starts_with weak_prefix (as_bytes etag))) [
        | inl p ↦ inl (p, weak-weaken etag p)
        | inr p ↦ inr (p, strong-weaken etag e (tags etag e) p)
      ]
