-- ===== src/Http/State.antt =====
-- What the slots of an HTTP object stand for: the special slots, the headers with their parts, and
-- the free slots.
use varnish_rs.Prelude.{
  ℕ, suc, ◌+◌, ◌-◌, ◌^◌, ◌≤◌, ◌<◌, ◌≡◌, refl, sym, ap, ◌∙◌, ◌⊎◌, inl, inr, none, some, List, [],
  ◌∷◌, ◌++◌, ◌==◌, if◌then◌else◌, length, take, take-append, drop-append, length-append, eq→==,
  arith,
}
use mathlib.Core.List.{append_assoc}
use varnish_rs.Outcome.{Bytes, ok}
use varnish_rs.Memory.{null, read-cong}
use varnish_rs.Workspace.{Ws, Txt}
use varnish_rs.Workspace.Contract.{IsIdle, Extends}
use varnish_rs.HeaderText.{StrOrBytes, offset_from, to_slice, parse_slice, parse_header}
use varnish_rs.Http.{Slot, Http, HdrIndex}
use varnish_rs.Http.Lookup.{iter}

-- A slot and the header in it.
pub record Row : Type 0 where
  pub slot : Slot
  pub name : Bytes
  pub value : StrOrBytes

abbrev pub slots_of : List Row → List Slot
slots_of [] = []
slots_of (r ∷ rows) = r.slot ∷ slots_of rows

pub slots_of-append : (xs ys : List Row) → slots_of (xs ++ ys) ≡ slots_of xs ++ slots_of ys
slots_of-append [] ys = refl
slots_of-append (x ∷ xs) ys = ap (◌∷◌ x.slot) (slots_of-append xs ys)

pub length-slots_of : (rows : List Row) → length (slots_of rows) ≡ length rows
length-slots_of [] = refl
length-slots_of (r ∷ rows) = ap suc (length-slots_of rows)

-- The bytes of the text stay when the workspace gives out more: it is null, or its bytes stand
-- before the free bytes or behind the workspace.
abbrev pub Stays : Ws → Txt → Type 0
Stays w t = (t.b ≡ null) ⊎ ((t.b ≤ t.e) × (t.e < 2 ^ 64) × ((t.e ≤ w.f) ⊎ (w.e ≤ t.b)))

abbrev pub AllStay : Ws → List Slot → Type 0
AllStay w [] = Unit {0}
AllStay w (s ∷ slots) = Stays w s.hd × AllStay w slots

-- The slot of a row has the row's header.
abbrev pub HasHeader : Ws → Row → Type 0
HasHeader w r = Stays w r.slot.hd × (parse_header w.mem r.slot.hd ≡ ok (some (r.name, r.value)))

abbrev pub AllHave : Ws → List Row → Type 0
AllHave w [] = Unit {0}
AllHave w (r ∷ rows) = HasHeader w r × AllHave w rows

pub AllHave-append :
    (w : Ws) (xs ys : List Row) → AllHave w xs → AllHave w ys → AllHave w (xs ++ ys)
AllHave-append w [] ys p q = q
AllHave-append w (x ∷ xs) ys (p, ps) q = (p, AllHave-append w xs ys ps q)

-- The object has `special` slots, then the headers `rows`, then free slots.
pub record IsHttp (ix : HdrIndex) (special : List Slot) (rows : List Row) (h : Http) : Type 0 where
  pub idle : IsIdle h.ws
  pub free : List Slot
  pub split : h.slots ≡ special ++ (slots_of rows ++ free)
  pub special_eq : length special ≡ ix.first
  pub nhd_eq : h.nhd ≡ ix.first + length rows
  pub shd_eq : h.shd ≡ length h.slots
  pub small : h.shd < 2 ^ 16
  pub headers : AllHave h.ws rows
  pub specials : AllStay h.ws special

pub offset_from-eq : (e b : ℕ) → b ≤ e → e < 2 ^ 64 → offset_from e b ≡ e - b
offset_from-eq e b p q = omega arith

to_slice-Stays :
    (w w' : Ws) (t : Txt) → Extends w w' → Stays w t → to_slice w'.mem t ≡ to_slice w.mem t
unfolding to_slice
to_slice-Stays w w' t x (inl z) = rw (eq→== t.b null z)
to_slice-Stays w w' t x (inr (p, q, away)) =
    ap (λ (s : Bytes). if t.b == null then none else some s)
      (rw (offset_from-eq t.e t.b p q)
        (read-cong w.mem w'.mem t.b (t.e - t.b) (λ a lo hi. x.keeps a (side a lo hi away))))
  where
    side :
        (a : ℕ)
        → t.b ≤ a
        → a < t.b + (t.e - t.b)
        → (t.e ≤ w.f) ⊎ (w.e ≤ t.b)
        → (a < w.f) ⊎ (w'.f ≤ a)
    side a lo hi (inl below) = inl (omega arith)
    side a lo hi (inr above) = inr (omega (arith, x.idle.ws.upper, x.e_eq))

pub Stays-Extends : (w w' : Ws) (t : Txt) → Extends w w' → Stays w t → Stays w' t
Stays-Extends w w' t x (inl z) = inl z
Stays-Extends w w' t x (inr (p, q, inl below)) = inr (p, q, inl (omega (arith, x.grows)))
Stays-Extends w w' t x (inr (p, q, inr above)) = inr (p, q, inr (omega (arith, x.e_eq)))

pub AllStay-Extends :
    (w w' : Ws) (slots : List Slot) → Extends w w' → AllStay w slots → AllStay w' slots
AllStay-Extends w w' [] x h = tt
AllStay-Extends w w' (s ∷ slots) x (p, ps) =
    (Stays-Extends w w' s.hd x p, AllStay-Extends w w' slots x ps)

pub AllHave-Extends :
    (w w' : Ws) (rows : List Row) → Extends w w' → AllHave w rows → AllHave w' rows
unfolding parse_header
AllHave-Extends w w' [] x h = tt
AllHave-Extends w w' (r ∷ rows) x ((p, e), ps) = (
  (Stays-Extends w w' r.slot.hd x p, ap parse_slice (to_slice-Stays w w' r.slot.hd x p) ∙ e),
  AllHave-Extends w w' rows x ps,
)

-- The iterator passes the slots of the headers.
pub iter-IsHttp :
    {ix : HdrIndex} {special : List Slot} {rows : List Row} (h : Http)
    → IsHttp ix special rows h
    → iter ix h ≡ slots_of rows
iter-IsHttp {ix} {special} {rows} h v =
    let joined : length (special ++ slots_of rows) ≡ h.nhd =
      length-append special (slots_of rows)
      ∙ omega (arith, v.special_eq, v.nhd_eq, length-slots_of rows) in
    let whole : h.slots ≡ (special ++ slots_of rows) ++ v.free =
      v.split ∙ sym (append_assoc special (slots_of rows) v.free) in
    let taken : take h.nhd h.slots ≡ special ++ slots_of rows =
      rw (whole, sym joined) (take-append (special ++ slots_of rows) v.free) in
    rw (taken, sym v.special_eq) (drop-append special (slots_of rows))
