-- ===== src/Workspace/Text.antt =====
-- varnish-sys/src/vcl/ws.rs: `copy_bytes_with_null`, the copy of a text with its NUL.
use varnish_rs.Prelude.{
  ℕ, suc, ◌+◌, ◌-◌, ◌^◌, ◌≤◌, ◌<◌, ◌≡◌, refl, sym, ap, ◌∙◌, ◌≢◌, ◌⊎◌, inl, inr, Option, none, some,
  [], ◌∷◌, ◌++◌, ◌==◌, if◌then◌else◌, length, length-append, eq→==, ne→==, le-cases, Bool-cases,
  arith,
}
use mathlib.Core.Path.{subst}
use varnish_rs.Outcome.{Bytes, Outcome, ok, err, null_byte, c_str, ws_out_of_memory}
use varnish_rs.Memory.{
  null, write, read, write_outside, read-write, read-write_disjoint, read-write_prefix,
  read-write_suffix,
}
use varnish_rs.Workspace.{Ws, Runtime, Txt, copy_txt, copy_and_terminate, copy_bytes_with_null}
use varnish_rs.Workspace.Allocator.{round_up}
use varnish_rs.Workspace.Contract.{IsIdle, IsRuntime, Extends, position}
use varnish_rs.Workspace.Allocations.{placed, Extends-placed, allocate-room, allocate-full}
use varnish_rs.Workspace.Copies.{copy_bytes-room, copy_bytes-full}

-- The text that a source stands for: one NUL at its end is dropped, any other NUL is refused.
abbrev pub prepend : ℕ → Option Bytes → Option Bytes
prepend b none = none
prepend b (some t) = some (b ∷ t)

unfoldable pub text_of : Bytes → Option Bytes
text_of [] = some []
text_of (b ∷ []) = if b == 0 then some [] else some (b ∷ [])
text_of (b ∷ c ∷ bs) = if b == 0 then none else prepend b (text_of (c ∷ bs))

pub text_of-cons : (b : ℕ) (t : Bytes) → b ≢ 0 → text_of t ≡ some t → text_of (b ∷ t) ≡ some (b ∷ t)
unfolding text_of
text_of-cons b [] ne e = ground arith
text_of-cons b (c ∷ t) ne e = rw (ne→== b 0 ne) (ap (prepend b) e)

-- What the search for a NUL says of a source, by its answer.
abbrev Found : Bytes → Option ℕ → Type 0
Found src none = text_of src ≡ some src
Found src (some i) =
    ((i + 1 ≡ length src) × ((t : Bytes) × (src ≡ t ++ 0 ∷ []) × (text_of src ≡ some t)))
    ⊎ ((i + 1 ≢ length src) × (text_of src ≡ none))

abbrev next : Option ℕ → Option ℕ
next none = none
next (some i) = some (suc i)

Found-cons :
    (b c : ℕ) (bs : Bytes) (o : Option ℕ) → b ≢ 0 → Found (c ∷ bs) o → Found (b ∷ c ∷ bs) (next o)
unfolding text_of
Found-cons b c bs none ne h = ground arith
Found-cons b c bs (some i) ne (inl (n, (t, s, e))) =
    inl (omega arith, (b ∷ t, ap (◌∷◌ b) s, ground arith))
Found-cons b c bs (some i) ne (inr (n, e)) = inr (ground arith, ground arith)

position-next : (b : ℕ) (bs : Bytes) → b ≢ 0 → position 0 (b ∷ bs) ≡ next (position 0 bs)
unfolding position
position-next b bs ne = ground arith

position-Found : (src : Bytes) → Found src (position 0 src)
unfolding position text_of
position-Found [] = refl
position-Found (b ∷ []) = elim (Bool-cases (b == 0)) [
  | inl z ↦ rw z (inl (refl, ([], ground arith, ground arith)))
  | inr nz ↦ rw nz (ground arith)
]
position-Found (b ∷ c ∷ bs) = elim (Bool-cases (b == 0)) [
  | inl z ↦ rw z (inr (omega arith, ground arith))
  | inr nz ↦
      subst (Found (b ∷ c ∷ bs)) (sym (position-next b (c ∷ bs) (ground arith)))
        (Found-cons b c bs (position 0 (c ∷ bs)) (ground arith) (position-Found (c ∷ bs)))
]

-- `t` is a new text in the workspace, with its NUL behind it.
pub record HoldsText (text : Bytes) (w : Ws) (t : Txt) (w' : Ws) : Type 0 where
  pub extends : Extends w w'
  pub starts : w.f ≤ t.b
  pub ends : t.e < w'.f
  pub non_null : t.b ≢ null
  pub len_eq : t.e ≡ t.b + length text
  pub content : read w'.mem t.b (length text) ≡ text
  pub terminated : read w'.mem t.e 1 ≡ 0 ∷ []

abbrev text_at : Ws → Bytes → Txt
text_at w text = record { b = w.f; e = w.f + length text }

-- The source ends in its NUL: it is copied whole.
HoldsText-placed :
    (text : Bytes) (w : Ws)
    → IsIdle w
    → w.f + round_up (length text + 1) ≤ w.e
    → HoldsText text w (text_at w text) (placed w (length text + 1) (text ++ 0 ∷ []))
HoldsText-placed text w i room =
    let n : length (text ++ 0 ∷ []) ≡ length text + 1 = length-append text (0 ∷ []) in
    record {
      extends = Extends-placed w (length text + 1) (text ++ 0 ∷ []) i (omega arith) room;
      starts = omega arith;
      ends = omega arith;
      non_null = omega (arith, i.ws.base, i.ws.lower);
      len_eq = refl;
      content = read-write_prefix w.mem w.f text (0 ∷ []);
      terminated = read-write_suffix w.mem w.f text (0 ∷ []);
    }

-- The source has no NUL: the text and the NUL are written one after the other.
abbrev twice_placed : Ws → Bytes → Ws
twice_placed w text = record w {
  f = w.f + round_up (length text + 1);
  mem = write (write w.mem w.f text) (w.f + length text) (0 ∷ []);
}

HoldsText-twice_placed :
    (text : Bytes) (w : Ws)
    → IsIdle w
    → w.f + round_up (length text + 1) ≤ w.e
    → HoldsText text w (text_at w text) (twice_placed w text)
HoldsText-twice_placed text w i room =
    let m = write w.mem w.f text in
    let first = Extends-placed w (length text + 1) text i (omega arith) room in
    record {
      extends = record {
        idle = record {
          ws = record {
            magic_ok = i.ws.magic_ok;
            base = i.ws.base;
            lower = omega arith;
            upper = room;
            f_aligned = omega arith;
            e_aligned = i.ws.e_aligned;
            fits = i.ws.fits;
            address = i.ws.address;
          };
          free = i.free;
        };
        s_eq = refl;
        e_eq = refl;
        grows = omega arith;
        keeps = λ a away.
            write_outside m (w.f + length text) (0 ∷ []) a
              (elim away [ inl below ↦ inl (omega arith) | inr above ↦ inr (omega arith) ])
            ∙ first.keeps a away;
      };
      starts = omega arith;
      ends = omega arith;
      non_null = omega (arith, i.ws.base, i.ws.lower);
      len_eq = refl;
      content =
          read-write_disjoint m (w.f + length text) (0 ∷ []) w.f (length text) (inl (omega arith))
          ∙ read-write w.mem w.f text;
      terminated = read-write m (w.f + length text) (0 ∷ []);
    }

-- What the copy of a source that stands for `text`, or for no text, does in `w`.
abbrev pub CopiesText : Ws → (Outcome Txt × Ws) → Option Bytes → Type 0
CopiesText w result none = result ≡ (err (c_str null_byte), w)
CopiesText w result (some text) =
    ((w.f + round_up (length text + 1) ≤ w.e)
      × ((t : Txt) × (w' : Ws) × (result ≡ (ok t, w')) × HoldsText text w t w'))
    ⊎ ((w.e < w.f + round_up (length text + 1))
        × (result ≡ (err (ws_out_of_memory (length text + 1)), w)))

module _ (rt : Runtime) (laws : IsRuntime rt) where
  copy_txt-CopiesText :
      (text : Bytes) (w : Ws)
      → IsIdle w
      → length text + 1 < 2 ^ 32
      → CopiesText w (copy_txt rt (text ++ 0 ∷ []) w) (some text)
  unfolding copy_txt
  copy_txt-CopiesText text w i b =
      let src = text ++ 0 ∷ [] in
      let n : length src ≡ length text + 1 = length-append text (0 ∷ []) in
      elim (le-cases (w.f + round_up (length text + 1)) w.e) [
        | inl room ↦
            let e : length text + 1 - 1 ≡ length text = omega arith in
            inl (
              room,
              (
                text_at w text,
                placed w (length text + 1) src,
                rw (copy_bytes-room rt laws src w i (omega arith) (omega arith) (omega arith))
                    (rw (n, e)),
                HoldsText-placed text w i room,
              ),
            )
        | inr full ↦ inr (
          full,
          rw (copy_bytes-full rt laws src w i (omega arith) (omega arith) (omega arith)) (rw n),
        )
      ]

  copy_and_terminate-CopiesText :
      (text : Bytes) (w : Ws)
      → IsIdle w
      → length text + 1 < 2 ^ 32
      → CopiesText w (copy_and_terminate rt text w) (some text)
  unfolding copy_and_terminate
  copy_and_terminate-CopiesText text w i b =
      let e : length text + 1 - 1 ≡ length text = omega arith in
      elim (le-cases (w.f + round_up (length text + 1)) w.e) [
        | inl room ↦ inl (
          room,
          (
            text_at w text,
            twice_placed w text,
            rw (allocate-room rt laws (length text + 1) w i (omega arith) b room) (rw e),
            HoldsText-twice_placed text w i room,
          ),
        )
        | inr full ↦
            inr (full, rw (allocate-full rt laws (length text + 1) w i (omega arith) b full))
      ]

  by_search :
      (src : Bytes) (w : Ws) (o : Option ℕ)
      → IsIdle w
      → length src + 1 < 2 ^ 32
      → rt.memchr 0 src ≡ o
      → Found src o
      → CopiesText w (copy_bytes_with_null rt src w) (text_of src)
  unfolding copy_bytes_with_null
  by_search src w none i b m h =
      rw (h, m, copy_bytes_with_null) (copy_and_terminate-CopiesText src w i b)
  by_search src w (some pos) i b m (inl (n, (t, s, h))) =
      let e : length (t ++ 0 ∷ []) ≡ length t + 1 = length-append t (0 ∷ []) in
      let e' : length src ≡ length (t ++ 0 ∷ []) = ap length s in
      rw (h, m, eq→== (pos + 1) (length src) n, s, copy_bytes_with_null)
        (copy_txt-CopiesText t w i (omega arith))
  by_search src w (some pos) i b m (inr (n, h)) =
      rw (h, m, ne→== (pos + 1) (length src) n, copy_bytes_with_null)

  -- A source below 2 ^ 32 - 1 bytes in an idle workspace: with a NUL before its last byte it is
  -- refused and nothing changes. Otherwise its text, without a NUL at its end, is copied to a new
  -- part of the workspace with a NUL behind it, if text and NUL fit, and no other byte changes;
  -- if they do not fit, the error names their size and nothing changes.
  pub copy_bytes_with_null_lem :
      (src : Bytes) (w : Ws)
      → IsIdle w
      → length src + 1 < 2 ^ 32
      → CopiesText w (copy_bytes_with_null rt src w) (text_of src)
  copy_bytes_with_null_lem src w i b =
      by_search src w (position 0 src) i b (laws.memchr_first 0 src) (position-Found src)
