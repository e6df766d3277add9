-- ===== src/Http/Unset.antt =====
-- varnish-sys/src/vcl/http.rs: `unset_header` moves the headers that stay over those that go.
use varnish_rs.Prelude.{
  ℕ, suc, ◌+◌, ◌-◌, ◌^◌, ◌≤◌, ◌<◌, ◌≡◌, refl, sym, ap, ◌∙◌, inl, inr, true, false, List, [], ◌∷◌,
  ◌++◌, length, length-append, Bool-cases, le→leb, arith,
}
use mathlib.Core.List.{append_assoc, append-nil}
use varnish_rs.Outcome.{Bytes, ok, Outcome, and_then}
use varnish_rs.Workspace.{Ws, Txt}
use varnish_rs.HeaderText.{eq_ignore_ascii_case}
use varnish_rs.Http.{Slot, Http, HdrIndex, tag_of, as_u16, unset_loop, unset_header, set_nhd}
use varnish_rs.Http.State.{Row, slots_of, length-slots_of, AllHave, HasHeader, IsHttp}
use varnish_rs.Http.Rounds.{remaining, unset_log, get-at, set-at, step-drop, step-keep, step-move}

module _ (ix : HdrIndex) (name : Bytes) where
  abbrev arranged : Http → List Slot → List (ℕ × Txt) → Http
  arranged h slots log = record h { slots = slots; log = log }

  module _ (h : Http) (special free : List Slot) (f : length special ≡ ix.first) where
    abbrev reached : ℕ → List Slot → List Slot → List (ℕ × Txt) → Outcome ℕ × Http
    reached n kept gap log = (ok n, arranged h (special ++ (kept ++ (gap ++ free))) log)

    -- What is left of the loop does, from a state with the places `gap` free.
    abbrev Arranges : List Row → List Slot → List Slot → List (ℕ × Txt) → ℕ → ℕ → Type 0
    Arranges todo kept gap log idx k =
        (gap' : List Slot) × (unset_loop ix name (length todo) idx k
            (arranged h (special ++ (kept ++ (gap ++ (slots_of todo ++ free)))) log)
          ≡ reached (k + length (remaining name todo)) (kept ++ slots_of (remaining name todo)) gap'
              (log ++ unset_log ix name h.logtag todo))
        × (length gap' + length (remaining name todo) ≡ length gap + length todo)

    module _ (r : Row) (todo : List Row) (kept gap : List Slot) (log : List (ℕ × Txt)) (idx k : ℕ)
        (i : idx ≡ length kept + length gap) (e : k ≡ length kept) (has : HasHeader h.ws r) where
      abbrev more : List Slot
      more = slots_of todo ++ free

      abbrev start : Http
      start = arranged h (special ++ (kept ++ (gap ++ r.slot ∷ more))) log

      -- The rest of the loop, behind its first round.
      abbrev continue_loop : Outcome ℕ × Http → Outcome ℕ × Http
      continue_loop = and_then (unset_loop ix name (length todo) (suc idx))

      Arranges-drop :
          eq_ignore_ascii_case name r.name ≡ true
          → Arranges todo kept
              (gap ++ r.slot ∷ [])
              (log ++ (tag_of h.logtag (ix.unset + ix.method), r.slot.hd) ∷ [])
              (suc idx)
              k
          → Arranges (r ∷ todo) kept gap log idx k
      unfolding unset_loop
      Arranges-drop same (gap', rest, n) =
          let record_of : List (ℕ × Txt) =
            (tag_of h.logtag (ix.unset + ix.method), r.slot.hd) ∷ [] in
          let moved : length (gap ++ r.slot ∷ []) ≡ length gap + 1 =
            length-append gap (r.slot ∷ []) in
          (
            gap',
            rw same (
                ap continue_loop (
                  step-drop ix name r start idx k
                    (get-at ix name special kept gap r.slot more idx f i) has same)
                ∙ ap
                    (λ l.
                      unset_loop ix name (length todo) (suc idx) k
                        (arranged h (special ++ (kept ++ l)) (log ++ record_of)))
                    (sym (append_assoc gap (r.slot ∷ []) more))
                ∙ rest
                ∙ ap
                    (reached (k + length (remaining name todo))
                      (kept ++ slots_of (remaining name todo)) gap')
                    (append_assoc log record_of (unset_log ix name h.logtag todo))),
            rw same (omega (arith, n, moved)),
          )

      -- The result of the rest, in the words of the whole.
      one_more_kept :
          (gap' : List Slot)
          → eq_ignore_ascii_case name r.name ≡ false
          → reached
              (k + 1 + length (remaining name todo))
              ((kept ++ r.slot ∷ []) ++ slots_of (remaining name todo))
              gap'
              (log ++ unset_log ix name h.logtag todo)
            ≡ reached
                (k + length (remaining name (r ∷ todo)))
                (kept ++ slots_of (remaining name (r ∷ todo)))
                gap'
                (log ++ unset_log ix name h.logtag (r ∷ todo))
      one_more_kept gap' other =
          let count : k + 1 + length (remaining name todo)
              ≡ k + suc (length (remaining name todo)) =
            omega arith in
          rw (other, append_assoc kept (r.slot ∷ []) (slots_of (remaining name todo)), count)

    one_more_counted :
        (gap' gap : List Slot) (r : Row) (todo : List Row) (n : ℕ)
        → eq_ignore_ascii_case name r.name ≡ false
        → length gap' + length (remaining name todo) ≡ length gap + length todo
        → length gap ≡ n
        → length gap' + length (remaining name (r ∷ todo)) ≡ n + length (r ∷ todo)
    one_more_counted gap' gap r todo n other total e = rw other (omega (arith, total, e))

    Arranges-keep :
        (r : Row) (todo : List Row) (kept gap : List Slot) (log : List (ℕ × Txt)) (idx k : ℕ)
        → idx ≡ length kept + length gap
        → k ≡ length kept
        → HasHeader h.ws r
        → eq_ignore_ascii_case name r.name ≡ false
        → ((gap' : List Slot)
            → length gap' ≡ length gap
            → Arranges todo (kept ++ r.slot ∷ []) gap' log (suc idx) (k + 1))
        → Arranges (r ∷ todo) kept gap log idx k
    unfolding unset_loop
    Arranges-keep r todo kept [] log idx k i e has other rest =
        let (gap', done, n) = rest [] refl in
        let more = slots_of todo ++ free in
        let at = start r todo kept [] log idx k i e has in
        let next = continue_loop r todo kept [] log idx k i e has in
        (
          gap',
          ap next (
                step-keep ix name r at idx k (get-at ix name special kept [] r.slot more idx f i)
                  has other (omega arith))
              ∙ ap
                  (λ l.
                    unset_loop ix name (length todo) (suc idx) (k + 1)
                      (arranged h (special ++ l) log))
                  (sym (append_assoc kept (r.slot ∷ []) more))
              ∙ done
              ∙ one_more_kept r todo kept [] log idx k i e has gap' other,
          one_more_counted gap' [] r todo 0 other n refl,
        )
    Arranges-keep r todo kept (g ∷ gap) log idx k i e has other rest =
        let same_size : length (gap ++ r.slot ∷ []) ≡ length (g ∷ gap) =
          length-append gap (r.slot ∷ []) ∙ omega arith in
        let (gap', done, n) = rest (gap ++ r.slot ∷ []) same_size in
        let more = slots_of todo ++ free in
        let at = start r todo kept (g ∷ gap) log idx k i e has in
        let next = continue_loop r todo kept (g ∷ gap) log idx k i e has in
        let moved = set-at ix name special kept gap g r.slot more f in
        (
          gap',
          ap next (
                step-move ix name r at idx k
                  (get-at ix name special kept (g ∷ gap) r.slot more idx f i) has other
                  (omega arith))
              ∙ ap
                  (λ slots.
                    unset_loop ix name (length todo) (suc idx) (k + 1) (arranged h slots log))
                  (rw e moved)
              ∙ done
              ∙ one_more_kept r todo kept (g ∷ gap) log idx k i e has gap' other,
          one_more_counted gap' (gap ++ r.slot ∷ []) r todo (suc (length gap)) other n same_size,
        )

    unset_loop-Arranges :
        (todo : List Row) (kept gap : List Slot) (log : List (ℕ × Txt)) (idx k : ℕ)
        → idx ≡ length kept + length gap
        → k ≡ length kept
        → AllHave h.ws todo
        → Arranges todo kept gap log idx k
    unfolding unset_loop
    unset_loop-Arranges [] kept gap log idx k i e have =
        let n : k ≡ k + 0 = omega arith in
        (
          gap,
          ap (λ n. (ok n, arranged h (special ++ (kept ++ (gap ++ free))) log)) n
              ∙ ap (λ l. reached (k + 0) l gap log) (sym (append-nil kept))
              ∙ ap (reached (k + 0) (kept ++ []) gap) (sym (append-nil log)),
          refl,
        )
    unset_loop-Arranges (r ∷ todo) kept gap log idx k i e (has, have) =
        elim (Bool-cases (eq_ignore_ascii_case name r.name)) [
          | inl same ↦ Arranges-drop r todo kept gap log idx k i e has same (
              unset_loop-Arranges todo kept (gap ++ r.slot ∷ [])
                (log ++ (tag_of h.logtag (ix.unset + ix.method), r.slot.hd) ∷ []) (suc idx) k
                (omega (arith, length-append gap (r.slot ∷ []))) e have)
          | inr other ↦ Arranges-keep r todo kept gap log idx k i e has other (λ gap' n.
              unset_loop-Arranges todo (kept ++ r.slot ∷ []) gap' log (suc idx) (k + 1)
                (omega (arith, length-append kept (r.slot ∷ [])))
                (omega (arith, length-append kept (r.slot ∷ []))) have)
        ]

pub length-remaining : (name : Bytes) (rows : List Row) → length (remaining name rows) ≤ length rows
length-remaining name [] = omega arith
length-remaining name (r ∷ rows) = ground (arith, length-remaining name rows)

remaining-AllHave :
    (name : Bytes) (w : Ws) (rows : List Row) → AllHave w rows → AllHave w (remaining name rows)
remaining-AllHave name w [] h = tt
remaining-AllHave name w (r ∷ rows) (p, ps) = elim (Bool-cases (eq_ignore_ascii_case name r.name)) [
  | inl same ↦ rw same (remaining-AllHave name w rows ps)
  | inr other ↦ rw other (p, remaining-AllHave name w rows ps)
]

module _ (ix : HdrIndex) (special : List Slot) (rows : List Row) (h : Http) (name : Bytes) where
  -- Unsetting a name succeeds: exactly the headers of another name remain, in their order, the
  -- special slots and the workspace stay as they are, and each header that goes is logged.
  pub unset_header_lem :
      IsHttp ix special rows h
      → (h' : Http) × (unset_header ix name h ≡ (ok tt, h'))
        × IsHttp ix special (remaining name rows) h'
        × (h'.ws ≡ h.ws)
        × (h'.shd ≡ h.shd)
        × (h'.log ≡ h.log ++ unset_log ix name h.logtag rows)
  unfolding unset_header
  unset_header_lem v =
      let (gap, done, n) =
        unset_loop-Arranges ix name h special v.free v.special_eq rows [] [] h.log 0 0 refl refl
          v.headers in
      let k = length (remaining name rows) in
      let total : length h.slots ≡ ix.first + (length rows + length v.free) =
        ap length v.split
        ∙ omega (
          arith,
          v.special_eq,
          length-append special (slots_of rows ++ v.free),
          length-append (slots_of rows) v.free,
          length-slots_of rows,
        ) in
      let size : ix.first + (length rows + length v.free)
          ≡ length (special ++ (slots_of (remaining name rows) ++ (gap ++ v.free))) =
        omega (
          arith,
          n,
          v.special_eq,
          length-append special (slots_of (remaining name rows) ++ (gap ++ v.free)),
          length-append (slots_of (remaining name rows)) (gap ++ v.free),
          length-append gap v.free,
          length-slots_of (remaining name rows),
        ) in
      let few : k < 2 ^ 16 = omega (arith, v.small, v.shd_eq, total, length-remaining name rows) in
      let h' = record h {
        nhd = ix.first + k;
        slots = special ++ (slots_of (remaining name rows) ++ (gap ++ v.free));
        log = h.log ++ unset_log ix name h.logtag rows;
      } in
      let finish : Outcome ℕ × Http → Outcome (Unit {0}) × Http =
        and_then (λ idx_empty. set_nhd (ix.first + as_u16 idx_empty)) in
      let enough : ix.first ≤ h.nhd = omega (arith, v.nhd_eq) in
      let left : h.nhd - ix.first ≡ length rows = omega (arith, v.nhd_eq) in
      let kept : as_u16 (0 + k) ≡ k = omega (arith, few) in
      (
        h',
        rw (le→leb ix.first h.nhd enough, left)
            (ap
                (λ slots.
                  finish (unset_loop ix name (length rows) 0 0 (record h { slots = slots })))
                v.split
              ∙ ap finish done
              ∙ ap (λ m. (ok tt, record h' { nhd = ix.first + m })) kept),
        record {
          idle = v.idle;
          free = gap ++ v.free;
          split = refl;
          special_eq = v.special_eq;
          nhd_eq = refl;
          shd_eq = v.shd_eq ∙ total ∙ size;
          small = v.small;
          headers = remaining-AllHave name h.ws rows v.headers;
          specials = v.specials;
        },
        refl,
        refl,
        refl,
      )
