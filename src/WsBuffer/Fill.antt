-- ===== src/WsBuffer/Fill.antt =====
-- varnish-sys/src/vcl/ws_str_buffer.rs: `push`, `extend_from_slice` and `write` append to the
-- items of a `WsBuffer`.
use varnish_rs.Prelude.{
  ℕ, ◌+◌, ◌-◌, ◌*◌, ◌≤◌, ◌<◌, ◌≡◌, refl, ap, ◌∙◌, arith, ◌⊎◌, inl, inr, le-cases, List, [], ◌∷◌,
  ◌++◌, length, length-take, take, take_whole, le→ltb, lt→ltb, eq→==, ne→==,
}
use mathlib.Core.Path.{ap₂}
use varnish_rs.Outcome.{ok, err, ws_out_of_memory}
use varnish_rs.Memory.{write, write_outside}
use varnish_rs.WsBuffer.{
  Layout, Suffix, WsBuffer, image, as_ref, remaining, advance, push, extend_from_slice, write_some,
}
use varnish_rs.WsBuffer.Create.{IsLayout, IsBuffer}
use varnish_rs.WsBuffer.Items.{len-eq-count, length-image, items-cong, items-append, items-write}

module _ {A : Type 0} (item : Layout A) (sfx : Suffix) where
  -- `b'` is `b` with `xs` behind its items.
  pub record Appends (b : WsBuffer) (xs : List A) (b' : WsBuffer) : Type 0 where
    pub valid : IsBuffer item sfx b'
    pub contents : as_ref item b' ≡ as_ref item b ++ xs
    pub capacity : remaining b' + length xs ≡ remaining b
    pub same_start : b'.start_items ≡ b.start_items
    pub same_free : b'.ws.f ≡ b.ws.f
    pub keeps :
        (a : ℕ) → (a < b.unused) ⊎ (b.unused + length xs * item.size ≤ a) → b'.ws.mem a ≡ b.ws.mem a

  abbrev advanced : WsBuffer → List A → WsBuffer
  advanced b xs = (advance item xs b).1

  module _ (il : IsLayout item) (b : WsBuffer) (v : IsBuffer item sfx b) where
    advanced-IsBuffer : (xs : List A) → length xs ≤ b.unused_len → IsBuffer item sfx (advanced b xs)
    advanced-IsBuffer xs fits = record {
      count = v.count + length xs;
      last = v.last;
      reserved = record {
        ws = record {
          magic_ok = v.reserved.ws.magic_ok;
          base = v.reserved.ws.base;
          lower = v.reserved.ws.lower;
          upper = v.reserved.ws.upper;
          f_aligned = v.reserved.ws.f_aligned;
          e_aligned = v.reserved.ws.e_aligned;
          fits = v.reserved.ws.fits;
          address = v.reserved.ws.address;
        };
        taken = v.reserved.taken;
      };
      start_at = v.start_at;
      unused_at = omega (arith, v.unused_at);
      room =
          let n : b.unused_len ≡ b.unused_len - length xs + length xs = omega arith in
          omega (arith, v.room, ap (λ (k : ℕ). k * item.size) n);
      last_aligned = v.last_aligned;
      last_fits = v.last_fits;
    }

    as_ref-advanced :
        (xs : List A) (fits : length xs ≤ b.unused_len)
        → as_ref item (advanced b xs) ≡ as_ref item b ++ xs
    unfolding as_ref image advanced-IsBuffer
    as_ref-advanced xs fits =
        let m = write b.ws.mem b.unused (image item xs) in
        let n = len-eq-count item il (advanced b xs) (advanced-IsBuffer xs fits) in
        let k = len-eq-count item il b v in
        rw (n, k)
          (items-append item il m b.start_items v.count (length xs)
            ∙ ap₂ ◌++◌
                (items-cong item il b.ws.mem m b.start_items v.count (λ a x y.
                  write_outside b.ws.mem b.unused (image item xs) a
                    (inl (omega (arith, v.unused_at)))))
                (rw (← v.unused_at) (items-write item il b.ws.mem b.unused xs)))

    pub Appends-advanced : (xs : List A) → length xs ≤ b.unused_len → Appends b xs (advanced b xs)
    unfolding remaining
    Appends-advanced xs fits = record {
      valid = advanced-IsBuffer xs fits;
      contents = as_ref-advanced xs fits;
      capacity = omega arith;
      same_start = refl;
      same_free = refl;
      keeps = λ a away. write_outside b.ws.mem b.unused (image item xs) a (elim away [
        | inl below ↦ inl below
        | inr above ↦ inr (omega (arith, length-image item il xs))
      ]);
    }

    -- On a well-formed buffer a slice that fits is appended whole, the buffer stays well-formed
    -- and no other byte changes; a slice that does not fit gives an error that names its length,
    -- and nothing changes.
    pub extend_from_slice_lem :
        (slice : List A)
        → ((length slice ≤ remaining b)
            × ((b' : WsBuffer) × (extend_from_slice item slice b ≡ (ok tt, b'))
                × Appends b slice b'))
          ⊎ ((remaining b < length slice)
              × (extend_from_slice item slice b ≡ (err (ws_out_of_memory (length slice)), b)))
    unfolding extend_from_slice remaining
    extend_from_slice_lem slice = elim (le-cases (length slice) b.unused_len) [
      | inl fits ↦ inl (
        fits,
        (
          advanced b slice,
          rw (le→ltb b.unused_len (length slice) fits),
          Appends-advanced slice fits,
        ),
      )
      | inr full ↦ inr (full, rw (lt→ltb b.unused_len (length slice) full))
    ]

    -- A push on a well-formed buffer appends one item if any room is left, and is an error that
    -- changes nothing otherwise.
    pub push_lem :
        (x : A)
        → ((0 < remaining b)
            × ((b' : WsBuffer) × (push item x b ≡ (ok tt, b')) × Appends b (x ∷ []) b'))
          ⊎ ((remaining b ≡ 0) × (push item x b ≡ (err (ws_out_of_memory 1), b)))
    unfolding push remaining
    push_lem x = elim (le-cases b.unused_len 0) [
      | inl full ↦ inr (omega arith, rw (eq→== b.unused_len 0 (omega arith)))
      | inr room ↦ inl (
        room,
        (
          advanced b (x ∷ []),
          rw (ne→== b.unused_len 0 (omega arith)),
          Appends-advanced (x ∷ []) room,
        ),
      )
    ]

    -- A write on a well-formed buffer never fails: it appends the longest prefix that fits, and
    -- returns its length.
    pub write_some_lem :
        (src : List A)
        → (b' : WsBuffer) × (n : ℕ) × (write_some item src b ≡ (ok n, b'))
          × Appends b (take n src) b'
          × (n ≤ length src)
          × ((n ≡ length src) ⊎ (remaining b' ≡ 0))
    unfolding write_some remaining
    write_some_lem src = elim (le-cases (length src) b.unused_len) [
      | inl fits ↦
          let t : take (length src) src ≡ src = take_whole src in
          (
            advanced b (take (length src) src),
            length src,
            rw (le→ltb b.unused_len (length src) fits),
            Appends-advanced (take (length src) src) (omega (arith, length-take (length src) src)),
            omega arith,
            inl refl,
          )
      | inr full ↦ (
        advanced b (take b.unused_len src),
        b.unused_len,
        rw (lt→ltb b.unused_len (length src) full),
        Appends-advanced (take b.unused_len src) (omega (arith, length-take b.unused_len src)),
        omega arith,
        inr (omega (arith, length-take b.unused_len src)),
      )
    ]
