-- ===== src/Probes/RoundTrip.antt =====
-- varnish-sys/src/vcl/probe.rs: what comes back of a probe that is given to varnishd.
use varnish_rs.Prelude.{
  ℕ, zero, suc, ◌+◌, ◌^◌, ◌≤◌, ◌<◌, ◌≡◌, refl, sym, ap, ◌∙◌, ◌≢◌, inl, inr, true, false, none, some,
  [], ◌∷◌, ◌==◌, ne→==, eq→==, Bool-cases, Option-cases, if◌then◌else◌, length, arith,
}
use mathlib.Core.Path.{subst}
use varnish_rs.Outcome.{Bytes, ok, and_then, pure, ◌>>=◌, ◌>>◌}
use varnish_rs.Memory.{Memory, null, read, write, read-write, read-write_disjoint}
use varnish_rs.Workspace.{Ws, Txt, Runtime, store, copy_value, copy_bytes_with_null}
use varnish_rs.Workspace.Allocator.{round_up}
use varnish_rs.Workspace.Contract.{IsIdle, IsRuntime}
use varnish_rs.Workspace.Allocations.{placed, Extends-placed}
use varnish_rs.Workspace.Copies.{copy_value-room}
use varnish_rs.Workspace.Text.{HoldsText, CopiesText, text_of, prepend, copy_bytes_with_null_lem}
use varnish_rs.HeaderText.{is_utf8}
use varnish_rs.Probes.{
  Request, url, text, Probe, VrtBackendProbe, ProbeLayout, c_str_at, struct_of, set_request,
  str_into_vcl, into_vcl_probe, from_str, from_struct, from_vcl_probe, named,
}

-- What is assumed of Rust's library and of the struct: its bytes are as many as its size and give
-- the struct back, and text that is UTF-8 is not replaced.
pub record IsLayout {D F : Type 0} (layout : ProbeLayout D F) : Type 0 where
  pub sized : 0 < layout.size
  pub small : layout.size < 2 ^ 32
  pub image_size : (p : VrtBackendProbe F) → length (layout.image p) ≡ layout.size
  pub decode-image : (p : VrtBackendProbe F) → layout.decode (layout.image p) ≡ p
  pub lossy_keeps : (bs : Bytes) → is_utf8 bs ≡ true → layout.lossy bs ≡ bs

-- No byte of a text that is copied as it is is a NUL.
text_of-head : (b : ℕ) (bs : Bytes) → text_of (b ∷ bs) ≡ some (b ∷ bs) → (b == 0) ≡ false
unfolding text_of
text_of-head b [] e = elim (Bool-cases (b == 0)) [
  | inl z ↦
      let no : some [] ≡ some (b ∷ []) =
        ap (λ t. if t then some [] else some (b ∷ [])) (sym z) ∙ e in
      absurd (cc no)
  | inr nz ↦ nz
]
text_of-head b (c ∷ bs) e = elim (Bool-cases (b == 0)) [
  | inl z ↦
      let no : none ≡ some (b ∷ c ∷ bs) =
        ap (λ t. if t then none else prepend b (text_of (c ∷ bs))) (sym z) ∙ e in
      absurd (cc no)
  | inr nz ↦ nz
]

text_of-tail : (b : ℕ) (bs : Bytes) → text_of (b ∷ bs) ≡ some (b ∷ bs) → text_of bs ≡ some bs
unfolding text_of
text_of-tail b [] e = refl
text_of-tail b (c ∷ bs) e =
    let kept : prepend b (text_of (c ∷ bs)) ≡ some (b ∷ c ∷ bs) =
      ap (λ t. if t then none else prepend b (text_of (c ∷ bs))) (sym (text_of-head b (c ∷ bs) e))
      ∙ e in
    elim (Option-cases (text_of (c ∷ bs))) [
      | inl missing ↦
          let no : none ≡ some (b ∷ c ∷ bs) = ap (prepend b) (sym missing) ∙ kept in absurd (cc no)
      | inr (t, found) ↦
          let both : some (b ∷ t) ≡ some (b ∷ c ∷ bs) = ap (prepend b) (sym found) ∙ kept in
          let same : t ≡ c ∷ bs = cc both in found ∙ ap some same
    ]

-- A text with a NUL behind it is found, if it is looked for in more bytes than it has.
c_str_at-text :
    (bs : Bytes) (most : ℕ) (mem : Memory) (p : ℕ)
    → text_of bs ≡ some bs
    → length bs < most
    → read mem p (length bs) ≡ bs
    → read mem (p + length bs) 1 ≡ 0 ∷ []
    → c_str_at most mem p ≡ some bs
unfolding c_str_at read
c_str_at-text bs zero mem p whole n content ends = absurd (omega (arith, n))
c_str_at-text [] (suc most) mem p whole n content ends =
    let at : p + 0 ≡ p = omega arith in
    let nul : read mem p 1 ≡ 0 ∷ [] = ap (λ q. read mem q 1) (sym at) ∙ ends in
    let zero_byte : mem p ≡ 0 = cc nul in rw (eq→== (mem p) 0 zero_byte)
c_str_at-text (b ∷ bs) (suc most) mem p whole n content ends =
    let first : mem p ≡ b = cc content in
    let others : read mem (suc p) (length bs) ≡ bs = cc content in
    let at : p + suc (length bs) ≡ suc p + length bs = omega arith in
    let nul : read mem (suc p + length bs) 1 ≡ 0 ∷ [] = ap (λ q. read mem q 1) (sym at) ∙ ends in
    let rest =
      c_str_at-text bs most mem (suc p) (text_of-tail b bs whole) (omega (arith, n)) others nul in
    rw (first, text_of-head b bs whole, rest) (ap (λ x. some (x ∷ bs)) first)

module _ {D F : Type 0} (layout : ProbeLayout D F) (ok_layout : IsLayout layout) (rt : Runtime)
    (laws : IsRuntime rt) where
  -- A text of a struct that stands in memory before it.
  from_str-text :
      (most : ℕ) (mem : Memory) (t : Txt) (s : Bytes)
      → t.b ≢ null
      → is_utf8 s ≡ true
      → text_of s ≡ some s
      → length s < most
      → read mem t.b (length s) ≡ s
      → read mem (t.b + length s) 1 ≡ 0 ∷ []
      → from_str layout most mem t.b ≡ some s
  from_str-text most mem t s ne u whole n content ends = rw (
    ne→== t.b null ne,
    c_str_at-text s most mem t.b whole n content ends,
    ok_layout.lossy_keeps s u,
  )

  -- A struct at the front of the free bytes, and a text behind it, whose address the struct gets.
  module _ (w : Ws) (i : IsIdle w) (pr : VrtBackendProbe F) (s : Bytes)
      (set : ℕ → VrtBackendProbe F) (whole : text_of s ≡ some s) (short : length s + 1 < 2 ^ 32)
      (room : w.f + round_up layout.size + round_up (length s + 1) ≤ w.e) where
    abbrev first : Ws
    first = placed w (length (layout.image pr)) (layout.image pr)

    copied : copy_value rt (layout.image pr) w ≡ (ok w.f, first)
    copied =
        let n = ok_layout.image_size pr in
        copy_value-room rt laws (layout.image pr) w i (omega (arith, n, ok_layout.sized))
          (omega (arith, n, ok_layout.small)) (rw n (omega (arith, room)))

    first-IsIdle : IsIdle first
    first-IsIdle =
        let n = ok_layout.image_size pr in
        (Extends-placed w (length (layout.image pr)) (layout.image pr) i (omega arith)
          (rw n (omega (arith, room)))).idle

    text_copied :
        (t : Txt) × (w2 : Ws) × (copy_bytes_with_null rt s first ≡ (ok t, w2))
        × HoldsText s first t w2
    text_copied =
        elim (subst (CopiesText first (copy_bytes_with_null rt s first)) whole
          (copy_bytes_with_null_lem rt laws s first first-IsIdle short)) [
            | inl (r, (t, w2, run, x)) ↦ (t, w2, run, x)
            | inr (full, run) ↦
                absurd (omega (arith, full, room, ap round_up (ok_layout.image_size pr)))
          ]

    abbrev stored : Ws → Txt → Ws
    stored w2 t = record w2 { mem = write w2.mem w.f (layout.image (set t.b)) }

    struct-stored :
        (w2 : Ws) (t : Txt) → layout.decode (read (stored w2 t).mem w.f layout.size) ≡ set t.b
    struct-stored w2 t =
        let n = ok_layout.image_size (set t.b) in
        let back : read (stored w2 t).mem w.f layout.size ≡ layout.image (set t.b) =
          ap (read (stored w2 t).mem w.f) (sym n)
          ∙ read-write w2.mem w.f (layout.image (set t.b)) in
        ap layout.decode back ∙ ok_layout.decode-image (set t.b)

    -- The struct is written in front of the text.
    behind_struct :
        (w2 : Ws) (t : Txt) (q n : ℕ) → first.f ≤ q → read (stored w2 t).mem q n ≡ read w2.mem q n
    behind_struct w2 t q n p =
        let size = ok_layout.image_size (set t.b) in
        let size' = ok_layout.image_size pr in
        let after : w.f + length (layout.image (set t.b)) ≤ q = omega (arith, p, size, size') in
        read-write_disjoint w2.mem w.f (layout.image (set t.b)) q n (inr after)

    -- What is left in memory when the struct has the address of the text.
    abbrev Landed : Type 0
    Landed =
        (t : Txt) × (w' : Ws) × (t.b ≢ null)
        × ((str_into_vcl rt s >>= λ str. (store w.f (layout.image (set str)) >> pure w.f)) first
            ≡ (ok w.f, w'))
        × (layout.decode (read w'.mem w.f layout.size) ≡ set t.b)
        × (read w'.mem t.b (length s) ≡ s)
        × (read w'.mem (t.b + length s) 1 ≡ 0 ∷ [])

    landed : Landed
    landed =
        let (t, w2, run, x) = text_copied in
        let nul : read w2.mem (t.b + length s) 1 ≡ 0 ∷ [] =
          ap (λ q. read w2.mem q 1) (sym x.len_eq) ∙ x.terminated in
        (
          t,
          stored w2 t,
          x.non_null,
          ap
              (λ o.
                and_then (λ str. (store w.f (layout.image (set str)) >> pure w.f))
                  (and_then (λ t. pure t.b) o))
              run,
          struct-stored w2 t,
          behind_struct w2 t t.b (length s) x.starts ∙ x.content,
          behind_struct w2 t (t.b + length s) 1 (omega (arith, x.starts)) ∙ nul,
        )

  -- A struct with one text read back.
  from_struct-url :
      (most : ℕ) (mem : Memory) (p : ℕ) (src : Probe D) (s : Bytes)
      → p ≢ null
      → from_str layout most mem p ≡ some s
      → layout.from_dur (layout.into_dur src.timeout) ≡ src.timeout
      → layout.from_dur (layout.into_dur src.interval) ≡ src.interval
      → src.request ≡ url s
      → from_struct layout most mem (record (struct_of layout src) { url = p })
        ≡ ok (some (record src { threshold = 0 }))
  from_struct-url most mem p src s ne found timeout interval e =
      let pr = record (struct_of layout src) { url = p } in
      let step : from_struct layout most mem pr ≡ named layout pr url (from_str layout most mem p) =
        rw (ne→== p null ne) in
      let last : named layout pr url (some s) ≡ ok (some (record src { threshold = 0 })) =
        rw (timeout, interval, e) in
      step ∙ ap (named layout pr url) found ∙ last

  -- A struct with one text read back.
  from_struct-text :
      (most : ℕ) (mem : Memory) (p : ℕ) (src : Probe D) (s : Bytes)
      → p ≢ null
      → from_str layout most mem p ≡ some s
      → layout.from_dur (layout.into_dur src.timeout) ≡ src.timeout
      → layout.from_dur (layout.into_dur src.interval) ≡ src.interval
      → src.request ≡ text s
      → from_struct layout most mem (record (struct_of layout src) { request = p })
        ≡ ok (some (record src { threshold = 0 }))
  from_struct-text most mem p src s ne found timeout interval e =
      let pr = record (struct_of layout src) { request = p } in
      let step : from_struct layout most mem pr
          ≡ named layout pr text (from_str layout most mem p) =
        rw (ne→== p null ne) in
      let last : named layout pr text (some s) ≡ ok (some (record src { threshold = 0 })) =
        rw (timeout, interval, e) in
      step ∙ ap (named layout pr text) found ∙ last

  abbrev text_in : Request → Bytes
  text_in (url s) = s
  text_in (text s) = s

  -- A probe whose text is UTF-8 and has no NUL, with room for its struct and its text in an idle
  -- workspace, and durations that the conversions keep: given to varnishd and read back, it is the
  -- same, but for its threshold, which is 0.
  pub into_vcl_probe-from_vcl_probe :
      (src : Probe D) (w : Ws) (most : ℕ)
      → IsIdle w
      → is_utf8 (text_in src.request) ≡ true
      → text_of (text_in src.request) ≡ some (text_in src.request)
      → length (text_in src.request) + 1 < 2 ^ 32
      → length (text_in src.request) < most
      → layout.from_dur (layout.into_dur src.timeout) ≡ src.timeout
      → layout.from_dur (layout.into_dur src.interval) ≡ src.interval
      → w.f + round_up layout.size + round_up (length (text_in src.request) + 1) ≤ w.e
      → (p : ℕ) × (w' : Ws) × (into_vcl_probe layout rt src w ≡ (ok p, w'))
        × (from_vcl_probe layout most w'.mem p ≡ ok (some (record src { threshold = 0 })))
  unfolding into_vcl_probe from_vcl_probe
  into_vcl_probe-from_vcl_probe src w most i u whole short n timeout interval room =
      go src.request refl
    where
      go :
          (q : Request)
          → src.request ≡ q
          → (p : ℕ) × (w' : Ws) × (into_vcl_probe layout rt src w ≡ (ok p, w'))
            × (from_vcl_probe layout most w'.mem p ≡ ok (some (record src { threshold = 0 })))
      go (url s) e =
          let pr = struct_of layout src in
          let set : ℕ → VrtBackendProbe F = λ str. record pr { url = str } in
          let whole' : text_of s ≡ some s =
            subst (λ q. text_of (text_in q) ≡ some (text_in q)) e whole in
          let short' : length s + 1 < 2 ^ 32 =
            subst (λ q. length (text_in q) + 1 < 2 ^ 32) e short in
          let room' : w.f + round_up layout.size + round_up (length s + 1) ≤ w.e =
            subst (λ q. w.f + round_up layout.size + round_up (length (text_in q) + 1) ≤ w.e) e
              room in
          let (t, w', ne, run, struct, content, nul) = landed w i pr s set whole' short' room' in
          let found =
            from_str-text most w'.mem t s ne (subst (λ q. is_utf8 (text_in q) ≡ true) e u) whole'
              (subst (λ q. length (text_in q) < most) e n) content nul in
          (
            w.f,
            w',
            ap (and_then (λ p. set_request layout rt pr p src.request))
                  (copied w i pr s set whole' short' room')
                ∙ ap (λ q. set_request layout rt pr w.f q (first w i pr s set whole' short' room'))
                    e
                ∙ run,
            rw (ne→== w.f null (omega (arith, i.ws.base, i.ws.lower))) (
                ap (from_struct layout most w'.mem) struct
                ∙ from_struct-url most w'.mem t.b src s ne found timeout interval e),
          )
      go (text s) e =
          let pr = struct_of layout src in
          let set : ℕ → VrtBackendProbe F = λ str. record pr { request = str } in
          let whole' : text_of s ≡ some s =
            subst (λ q. text_of (text_in q) ≡ some (text_in q)) e whole in
          let short' : length s + 1 < 2 ^ 32 =
            subst (λ q. length (text_in q) + 1 < 2 ^ 32) e short in
          let room' : w.f + round_up layout.size + round_up (length s + 1) ≤ w.e =
            subst (λ q. w.f + round_up layout.size + round_up (length (text_in q) + 1) ≤ w.e) e
              room in
          let (t, w', ne, run, struct, content, nul) = landed w i pr s set whole' short' room' in
          let found =
            from_str-text most w'.mem t s ne (subst (λ q. is_utf8 (text_in q) ≡ true) e u) whole'
              (subst (λ q. length (text_in q) < most) e n) content nul in
          (
            w.f,
            w',
            ap (and_then (λ p. set_request layout rt pr p src.request))
                  (copied w i pr s set whole' short' room')
                ∙ ap (λ q. set_request layout rt pr w.f q (first w i pr s set whole' short' room'))
                    e
                ∙ run,
            rw (ne→== w.f null (omega (arith, i.ws.base, i.ws.lower))) (
                ap (from_struct layout most w'.mem) struct
                ∙ from_struct-text most w'.mem t.b src s ne found timeout interval e),
          )
