-- ===== src/WsBuffer/Items.antt =====
-- varnish-sys/src/vcl/ws_str_buffer.rs: the items of a `WsBuffer` in memory.
use native.Mathlib.Nat.{add-mul-div_left, zero-div}
use mathlib.Core.Path.{ap₂}
use varnish_rs.Prelude.{
  ℕ, zero, suc, ◌+◌, ◌-◌, ◌*◌, ◌≤◌, ◌<◌, ◌≡◌, refl, ap, ◌∙◌, arith, List, [], ◌∷◌, ◌++◌, length,
  length-append,
}
use varnish_rs.Memory.{Memory, write, read, read-cong, read-write_prefix, write_after}
use varnish_rs.WsBuffer.{Layout, Suffix, WsBuffer, len, calc_len, items, image}
use varnish_rs.WsBuffer.Create.{IsLayout, IsBuffer}

module _ {A : Type 0} (item : Layout A) (il : IsLayout item) where
  pub len-eq-count : {sfx : Suffix} (b : WsBuffer) (v : IsBuffer item sfx b) → len item b ≡ v.count
  unfolding len calc_len
  len-eq-count b v =
      let e : b.unused - b.start_items ≡ 0 + item.size * v.count = omega (arith, v.unused_at) in
      rw e (add-mul-div_left 0 v.count il.size_pos ∙ rw zero-div (omega arith))

  pub length-image : (xs : List A) → length (image item xs) ≡ length xs * item.size
  unfolding image
  length-image [] = omega arith
  length-image (x ∷ xs) =
      omega
        (arith, length-append (item.to_bytes x) (image item xs), il.image_size x, length-image xs)

  pub items-cong :
      (m m' : Memory) (p n : ℕ)
      → ((a : ℕ) → p ≤ a → a < p + n * item.size → m' a ≡ m a)
      → items item m' p n ≡ items item m p n
  unfolding items
  items-cong m m' p zero h = refl
  items-cong m m' p (suc n) h =
      ap₂ (λ bs xs. item.of_bytes bs ∷ xs)
        (read-cong m m' p item.size (λ a x y. h a x (omega arith)))
        (items-cong m m' (p + item.size) n (λ a x y. h a (omega arith) (omega arith)))

  pub items-append :
      (m : Memory) (p a b : ℕ)
      → items item m p (a + b) ≡ items item m p a ++ items item m (p + a * item.size) b
  unfolding items
  items-append m p zero b =
      let e : 0 + b ≡ b = omega arith in let f : p + 0 * item.size ≡ p = omega arith in rw (e, f)
  items-append m p (suc a) b =
      let e : suc a + b ≡ suc (a + b) = omega arith in
      let f : p + suc a * item.size ≡ p + item.size + a * item.size = omega arith in
      rw (e, f) (ap (◌∷◌ (item.of_bytes (read m p item.size))) (items-append m (p + item.size) a b))

  -- Items whose images were written are read back.
  pub items-write :
      (m : Memory) (p : ℕ) (xs : List A) → items item (write m p (image item xs)) p (length xs) ≡ xs
  unfolding items image
  items-write m p [] = refl
  items-write m p (x ∷ xs) =
      let n : length (item.to_bytes x) ≡ item.size = il.image_size x in
      ap₂ ◌∷◌
        (ap item.of_bytes (rw n at (read-write_prefix m p (item.to_bytes x) (image item xs)))
          ∙ il.reads_back x)
        (items-cong (write m (p + item.size) (image item xs))
            (write m p (item.to_bytes x ++ image item xs)) (p + item.size) (length xs)
            (λ a h _. rw n at (write_after m p (item.to_bytes x) (image item xs) a (omega arith)))
          ∙ items-write m (p + item.size) xs)
