-- ===== src/WsBuffer/Align.antt =====
-- varnish-sys/src/vcl/ws_str_buffer.rs: the alignment arithmetic of `WsBuffer`.
use native.Mathlib.Nat.{
  mod-lt, mod-eq_of_lt, mod-add-div', mul-le-mul_right, mod_self, add-mod_right,
}
use varnish_rs.Prelude.{
  ℕ, zero, suc, ◌+◌, ◌-◌, ◌*◌, ◌/◌, ◌%◌, ◌^◌, ◌≤◌, ◌<◌, ◌≡◌, ◌∙◌, arith, ◌⊎◌, inl, inr, le-cases,
}
use varnish_rs.WsBuffer.{Suffix, align_offset, ptr_sub, last_suffix}

ptr_sub-eq : (p n : ℕ) → n ≤ p → p < 2 ^ 64 → ptr_sub p n ≡ p - n
ptr_sub-eq p n h b = omega arith

pub mul-mod : (k a : ℕ) → (k * a) % a ≡ 0
mul-mod zero a = omega arith
mul-mod (suc k) a =
    let e : suc k * a ≡ k * a + a = omega arith in rw e (add-mod_right (k * a) a ∙ mul-mod k a)

-- The next multiple of `a`: `p` itself, or the one above its quotient.
abbrev NextMultiple : ℕ → ℕ → Type 0
NextMultiple p a =
    ((p % a ≡ 0) × (p + align_offset p a ≡ p / a * a) × (p ≡ p / a * a))
    ⊎ ((p + align_offset p a ≡ suc (p / a) * a) × (p / a * a < p))

align_up-NextMultiple : (p a : ℕ) → 0 < a → NextMultiple p a
align_up-NextMultiple p a h =
    let d : p % a + p / a * a ≡ p = mod-add-div' p a in
    let lt : p % a < a = mod-lt p h in
    elim (le-cases (p % a) 0) [
      | inl z ↦
          let r : p % a ≡ 0 = omega arith in
          let whole : a - p % a ≡ a = omega arith in
          let e : align_offset p a ≡ 0 = rw whole (mod_self a) in inl (r, omega arith, omega arith)
      | inr pos ↦
          let e : align_offset p a ≡ a - p % a = mod-eq_of_lt (omega arith) in
          inr (omega arith, omega arith)
    ]

pub align_up-aligned : (p a : ℕ) → 0 < a → (p + align_offset p a) % a ≡ 0
align_up-aligned p a h = elim (align_up-NextMultiple p a h) [
  | inl (r, e, m) ↦ rw e (mul-mod (p / a) a)
  | inr (e, m) ↦ rw e (mul-mod (suc (p / a)) a)
]

-- Rounding up never passes an aligned address.
pub align_up-le : (p a q : ℕ) → 0 < a → p ≤ q → q % a ≡ 0 → p + align_offset p a ≤ q
align_up-le p a q h le al = elim (align_up-NextMultiple p a h) [
  | inl (r, e, m) ↦ omega arith
  | inr (e, m) ↦
      let d : q % a + q / a * a ≡ q = mod-add-div' q a in
      elim (le-cases (suc (p / a)) (q / a)) [
        | inl above ↦ omega (arith, mul-le-mul_right a above)
        | inr below ↦
            let b : q / a ≤ p / a = omega arith in absurd (omega (arith, mul-le-mul_right a b))
      ]
]

round_down-aligned : (p a : ℕ) → (p - p % a) % a ≡ 0
round_down-aligned p a =
    let d : p % a + p / a * a ≡ p = mod-add-div' p a in
    let e : p - p % a ≡ p / a * a = omega arith in rw e (mul-mod (p / a) a)

module _ (sfx : Suffix) (stop : ℕ) (pos : 0 < sfx.align) (fits : sfx.size ≤ stop)
    (bound : stop < 2 ^ 64) where
  last_suffix-eq : last_suffix sfx stop ≡ stop - sfx.size - (stop - sfx.size) % sfx.align
  unfolding last_suffix
  last_suffix-eq =
      let p = stop - sfx.size in
      let e : ptr_sub stop sfx.size ≡ p = ptr_sub-eq stop sfx.size fits bound in
      let r : p % sfx.align ≤ p = omega (arith, mod-add-div' p sfx.align) in
      rw e (ptr_sub-eq p (p % sfx.align) r (omega arith))

  pub last_suffix-aligned : last_suffix sfx stop % sfx.align ≡ 0
  last_suffix-aligned = rw last_suffix-eq (round_down-aligned (stop - sfx.size) sfx.align)

  pub last_suffix-fits : last_suffix sfx stop + sfx.size ≤ stop
  last_suffix-fits = omega (arith, last_suffix-eq, mod-add-div' (stop - sfx.size) sfx.align)

  pub last_suffix-latest : stop < last_suffix sfx stop + sfx.size + sfx.align
  last_suffix-latest = omega (
    arith,
    last_suffix-eq,
    mod-add-div' (stop - sfx.size) sfx.align,
    mod-lt (stop - sfx.size) pos,
  )
