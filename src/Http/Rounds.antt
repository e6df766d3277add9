-- ===== src/Http/Rounds.antt =====
-- varnish-sys/src/vcl/http.rs: one round of the loop in `unset_header`, by what it meets.
use varnish_rs.Prelude.{
  ℕ, ◌+◌, ◌≡◌, sym, ap, ◌∙◌, ◌≢◌, Bool, true, false, not, some, List, [], ◌∷◌, ◌++◌, if◌then◌else◌,
  length, length-append, get_elem?, set, get_elem?-append, set-append, filterb, ne→==, eq→==, arith,
}
use mathlib.Core.List.{append_assoc}
use varnish_rs.Outcome.{Bytes, ok}
use varnish_rs.Workspace.{Txt}
use varnish_rs.HeaderText.{eq_ignore_ascii_case}
use varnish_rs.Http.{Slot, Http, HdrIndex, vslbt, tag_of, unset_at}
use varnish_rs.Http.State.{Row, HasHeader}

abbrev pub keeps : Bytes → Row → Bool
keeps name r = not (eq_ignore_ascii_case name r.name)

-- The headers of another name.
abbrev pub remaining : Bytes → List Row → List Row
remaining name rows = filterb (keeps name) rows

module _ (ix : HdrIndex) (name : Bytes) where
  -- The records of the headers that go.
  abbrev pub unset_log : ℕ → List Row → List (ℕ × Txt)
  unset_log logtag [] = []
  unset_log logtag (r ∷ rows) =
      (if keeps name r then [] else (tag_of logtag (ix.unset + ix.method), r.slot.hd) ∷ [])
      ++ unset_log logtag rows

  pub get-at :
      (special kept gap : List Slot) (s : Slot) (more : List Slot) (idx : ℕ)
      → length special ≡ ix.first
      → idx ≡ length kept + length gap
      → get_elem? (special ++ (kept ++ (gap ++ s ∷ more))) (ix.first + idx) ≡ some s
  get-at special kept gap s more idx f i =
      let before = special ++ (kept ++ gap) in
      let whole : special ++ (kept ++ (gap ++ s ∷ more)) ≡ before ++ s ∷ more =
        ap (special ++◌) (sym (append_assoc kept gap (s ∷ more)))
        ∙ sym (append_assoc special (kept ++ gap) (s ∷ more)) in
      let n : ix.first + idx ≡ length before =
        omega (arith, f, i, length-append special (kept ++ gap), length-append kept gap) in
      rw (whole, n) (get_elem?-append before s more)

  -- The gap loses its first place and ends where the header stood.
  pub set-at :
      (special kept gap : List Slot) (g s : Slot) (more : List Slot)
      → length special ≡ ix.first
      → set (special ++ (kept ++ (g ∷ gap ++ s ∷ more))) (ix.first + length kept) s
        ≡ special ++ ((kept ++ s ∷ []) ++ ((gap ++ s ∷ []) ++ more))
  set-at special kept gap g s more f =
      let before = special ++ kept in
      let whole : special ++ (kept ++ (g ∷ gap ++ s ∷ more)) ≡ before ++ g ∷ (gap ++ s ∷ more) =
        sym (append_assoc special kept (g ∷ (gap ++ s ∷ more))) in
      let n : ix.first + length kept ≡ length before =
        omega (arith, f, length-append special kept) in
      rw (whole, n) (set-append before g (gap ++ s ∷ more) s)
      ∙ append_assoc special kept (s ∷ (gap ++ s ∷ more))
      ∙ ap (special ++◌) (sym (append_assoc kept (s ∷ []) (gap ++ s ∷ more)))
      ∙ ap (λ l. special ++ ((kept ++ s ∷ []) ++ l)) (sym (append_assoc gap (s ∷ []) more))

  pub step-drop :
      (r : Row) (h : Http) (idx k : ℕ)
      → get_elem? h.slots (ix.first + idx) ≡ some r.slot
      → HasHeader h.ws r
      → eq_ignore_ascii_case name r.name ≡ true
      → unset_at ix name idx k (get_elem? h.slots (ix.first + idx)) h
        ≡ (ok k, vslbt (tag_of h.logtag (ix.unset + ix.method)) r.slot.hd h)
  step-drop r h idx k at (s, e) same = rw (at, e, same)

  pub step-keep :
      (r : Row) (h : Http) (idx k : ℕ)
      → get_elem? h.slots (ix.first + idx) ≡ some r.slot
      → HasHeader h.ws r
      → eq_ignore_ascii_case name r.name ≡ false
      → idx ≡ k
      → unset_at ix name idx k (get_elem? h.slots (ix.first + idx)) h ≡ (ok (k + 1), h)
  step-keep r h idx k at (s, e) other same = rw (at, e, other, eq→== idx k same)

  pub step-move :
      (r : Row) (h : Http) (idx k : ℕ)
      → get_elem? h.slots (ix.first + idx) ≡ some r.slot
      → HasHeader h.ws r
      → eq_ignore_ascii_case name r.name ≡ false
      → idx ≢ k
      → unset_at ix name idx k (get_elem? h.slots (ix.first + idx)) h
        ≡ (ok (k + 1), record h { slots = set h.slots (ix.first + k) r.slot })
  step-move r h idx k at (s, e) other ne = rw (at, e, other, ne→== idx k ne)
