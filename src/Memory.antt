-- ===== src/Memory.antt =====
-- Byte memory: what `copy_from_slice`, `ptr::write`, `copy_nonoverlapping` and
-- `slice::from_raw_parts` do. An address is a number, and 0 is the null pointer.
use varnish_rs.Prelude.{
  ℕ, zero, suc, ◌+◌, ◌-◌, ◌≤◌, ◌<◌, ◌≡◌, refl, ap, ◌∙◌, ◌⊎◌, inl, inr, [], ◌∷◌, ◌++◌, ltb,
  if◌then◌else◌, get_or, length, arith,
}
use varnish_rs.Outcome.{Bytes}
use mathlib.Core.Path.{ap₂}

abbrev pub Memory : Type 0
Memory = ℕ → ℕ

abbrev pub null : ℕ
null = 0

-- Copies the bytes to the addresses from `p` on.
pub write : Memory → ℕ → Bytes → Memory
write m p bs a = if ltb a p then m a else get_or bs (a - p) (m a)

-- The slice of `n` bytes at `p`.
unfoldable pub read : Memory → ℕ → ℕ → Bytes
read m p zero = []
read m p (suc n) = m p ∷ read m (suc p) n

pub length-read : (m : Memory) (p n : ℕ) → length (read m p n) ≡ n
unfolding read
length-read m p zero = refl
length-read m p (suc n) = ap suc (length-read m (suc p) n)

pub read-cong :
    (m m' : Memory) (p n : ℕ)
    → ((a : ℕ) → p ≤ a → a < p + n → m' a ≡ m a)
    → read m' p n ≡ read m p n
unfolding read
read-cong m m' p zero h = refl
read-cong m m' p (suc n) h =
    ap₂ ◌∷◌ (h p (omega arith) (omega arith))
      (read-cong m m' (suc p) n (λ a x y. h a (omega arith) (omega arith)))

pub read-append : (m : Memory) (p a b : ℕ) → read m p (a + b) ≡ read m p a ++ read m (p + a) b
unfolding read
read-append m p zero b =
    let e : 0 + b ≡ b = omega arith in let f : p + 0 ≡ p = omega arith in rw (e, f)
read-append m p (suc a) b =
    let e : suc a + b ≡ suc (a + b) = omega arith in
    let f : p + suc a ≡ suc p + a = omega arith in
    rw (e, f) (ap (◌∷◌ (m p)) (read-append m (suc p) a b))

get_or_beyond : (bs : Bytes) (i d : ℕ) → length bs ≤ i → get_or bs i d ≡ d
get_or_beyond [] i d h = refl
get_or_beyond (b ∷ bs) zero d h = absurd (omega arith)
get_or_beyond (b ∷ bs) (suc i) d h = get_or_beyond bs i d (omega arith)

-- A write changes nothing outside its range.
pub write_outside :
    (m : Memory) (p : ℕ) (bs : Bytes) (a : ℕ) → (a < p) ⊎ (p + length bs ≤ a) → write m p bs a ≡ m a
unfolding write
write_outside m p bs a (inl h) = ground arith
write_outside m p bs a (inr h) = ground (arith, get_or_beyond bs (a - p) (m a))

write_head : (m : Memory) (p b : ℕ) (bs : Bytes) → write m p (b ∷ bs) p ≡ b
unfolding write
write_head m p b bs = let e : p - p ≡ 0 = omega arith in rw e (ground arith)

write_tail :
    (m : Memory) (p b : ℕ) (bs : Bytes) (a : ℕ)
    → suc p ≤ a
    → write m p (b ∷ bs) a ≡ write m (suc p) bs a
unfolding write
write_tail m p b bs a h = let e : a - p ≡ suc (a - suc p) = omega arith in rw e (ground arith)

-- What was written is read back.
pub read-write : (m : Memory) (p : ℕ) (bs : Bytes) → read (write m p bs) p (length bs) ≡ bs
unfolding read
read-write m p [] = refl
read-write m p (b ∷ bs) = ap₂ ◌∷◌ (write_head m p b bs) (
    read-cong (write m (suc p) bs) (write m p (b ∷ bs)) (suc p) (length bs)
      (λ a x y. write_tail m p b bs a x)
    ∙ read-write m (suc p) bs)

-- A write leaves every slice that it does not meet.
pub read-write_disjoint :
    (m : Memory) (p : ℕ) (bs : Bytes) (q n : ℕ)
    → (q + n ≤ p) ⊎ (p + length bs ≤ q)
    → read (write m p bs) q n ≡ read m q n
read-write_disjoint m p bs q n (inl h) =
    read-cong m (write m p bs) q n (λ a x y. write_outside m p bs a (inl (omega arith)))
read-write_disjoint m p bs q n (inr h) =
    read-cong m (write m p bs) q n (λ a x y. write_outside m p bs a (inr (omega arith)))

get_or_prefix : (xs ys : Bytes) (i d : ℕ) → i < length xs → get_or (xs ++ ys) i d ≡ get_or xs i d
get_or_prefix [] ys i d h = elim h [ ]
get_or_prefix (x ∷ xs) ys zero d h = refl
get_or_prefix (x ∷ xs) ys (suc i) d h = get_or_prefix xs ys i d (omega arith)

get_or_suffix :
    (xs ys : Bytes) (i d : ℕ) → length xs ≤ i → get_or (xs ++ ys) i d ≡ get_or ys (i - length xs) d
get_or_suffix [] ys i d h = let e : i - 0 ≡ i = omega arith in rw e
get_or_suffix (x ∷ xs) ys zero d h = absurd (omega arith)
get_or_suffix (x ∷ xs) ys (suc i) d h =
    let e : suc i - suc (length xs) ≡ i - length xs = omega arith in
    rw e (get_or_suffix xs ys i d (omega arith))

-- The two parts of what was written are read back one by one.
pub read-write_prefix :
    (m : Memory) (p : ℕ) (xs ys : Bytes) → read (write m p (xs ++ ys)) p (length xs) ≡ xs
unfolding write
read-write_prefix m p xs ys =
    read-cong (write m p xs) (write m p (xs ++ ys)) p (length xs)
      (λ a x y. ground (arith, get_or_prefix xs ys (a - p) (m a)))
    ∙ read-write m p xs

pub write_after :
    (m : Memory) (p : ℕ) (xs ys : Bytes) (a : ℕ)
    → p + length xs ≤ a
    → write m p (xs ++ ys) a ≡ write m (p + length xs) ys a
unfolding write
write_after m p xs ys a x =
    let e : a - p - length xs ≡ a - (p + length xs) = omega arith in
    ground (arith, get_or_suffix xs ys (a - p) (m a), e)

pub read-write_suffix :
    (m : Memory) (p : ℕ) (xs ys : Bytes)
    → read (write m p (xs ++ ys)) (p + length xs) (length ys) ≡ ys
read-write_suffix m p xs ys =
    read-cong (write m (p + length xs) ys) (write m p (xs ++ ys)) (p + length xs) (length ys)
      (λ a x y. write_after m p xs ys a x)
    ∙ read-write m (p + length xs) ys
