-- ===== src/Directors/Balance.antt =====
-- varnish-sys/src/vcl/backend/backend_ref.rs: over any sequence of references made, cloned and
-- dropped, varnishd counts exactly the references held.
use varnish_rs.Prelude.{
  ℕ, suc, ◌+◌, ◌-◌, ◌%◌, ◌^◌, ◌<◌, ◌≡◌, refl, sym, ap, ◌∙◌, inl, inr, true, false, Option, none,
  some, List, ◌∷◌, ◌++◌, ◌==◌, Bool-cases, arith,
}
use mathlib.Core.Path.{subst}
use varnish_rs.Outcome.{Outcome, ok, err, panic, and_then}
use varnish_rs.Memory.{null}
use varnish_rs.Directors.{
  Vcldir, Directors, set_vdir, BackendRef, refcounted_to, Vrt, expected, new, clone, drop,
}
use varnish_rs.Directors.Counts.{
  IsVrt, held, held-append, held-away, held-here, held-plain, new_lem, IsTracked, set_vdir-at,
  AllHeld-set, AllHeld-append, AllHeld-split, IsCounted-set, IsCounted-free,
}

module _ (vrt : Vrt) (laws : IsVrt vrt) (base : ℕ → ℕ) where
  -- No count is at its largest 32 bit number.
  abbrev pub HasRoom : Directors → Type 0
  HasRoom d = (a : ℕ) (v : Vcldir) → (d a).vdir ≡ some v → v.refcnt + 1 < 2 ^ 32

  one_more :
      (bep : ℕ) (v : Vcldir) (d : Directors) (refs : List BackendRef)
      → IsTracked vrt laws base d refs
      → HasRoom d
      → (d bep).vdir ≡ some v
      → v.norefcnt ≡ false
      → (v.refcnt + 1) % 2 ^ 32 ≡ base bep + held bep (refcounted_to bep ∷ refs)
  one_more bep v d refs s room at counted =
      omega
        (arith, room bep v at, s.counted bep v at counted, held-here (refcounted_to bep) refs refl)

  new-IsTracked :
      (bep : ℕ) (r : BackendRef) (d d' : Directors) (refs : List BackendRef)
      → IsTracked vrt laws base d refs
      → HasRoom d
      → new vrt bep d ≡ (ok (some r), d')
      → IsTracked vrt laws base d' (r ∷ refs)
  new-IsTracked bep r d d' refs s room run = elim (new_lem vrt laws base bep d) [
    | inl (z, e) ↦ absurd (cc (run, e))
    | inr other ↦ elim other [
      | inl e ↦ absurd (cc (run, e))
      | inr (v, at, ne, how) ↦ elim how [
        | inl (free, e) ↦
            let r_eq : refcounted_to bep ≡ r = cc (run, e) in
            let d_eq : d ≡ d' = ap (λ x. x.1) (sym e ∙ run) in
            subst (λ x. IsTracked vrt laws base x (r ∷ refs)) d_eq
              (subst (λ x. IsTracked vrt laws base d (x ∷ refs)) r_eq
                (record {
                  counted =
                      IsCounted-free vrt laws base bep v d refs (refcounted_to bep ∷ refs) at free
                        s.counted (λ b o. held-away b (refcounted_to bep) refs o);
                  held = (λ c. (v, at), s.held);
                }))
        | inr (counted, e) ↦
            let r_eq : refcounted_to bep ≡ r = cc (run, e) in
            let d_eq : set_vdir bep (record v { refcnt = (v.refcnt + 1) % 2 ^ 32 }) d ≡ d' =
              ap (λ x. x.1) (sym e ∙ run) in
            subst (λ x. IsTracked vrt laws base x (r ∷ refs)) d_eq
              (subst
                (λ x.
                  IsTracked vrt laws base
                    (set_vdir bep (record v { refcnt = (v.refcnt + 1) % 2 ^ 32 }) d) (x ∷ refs))
                r_eq
                (record {
                  counted =
                      IsCounted-set vrt laws base bep ((v.refcnt + 1) % 2 ^ 32) v d refs
                        (refcounted_to bep ∷ refs) s.counted
                        (one_more bep v d refs s room at counted)
                        (λ b o. held-away b (refcounted_to bep) refs o);
                  held = (
                    λ c. (_, set_vdir-at vrt laws base bep _ d),
                    AllHeld-set vrt laws base bep _ d refs s.held,
                  );
                }))
      ]
    ]
  ]

  dropped_plain :
      (r : BackendRef) (d : Directors)
      → (r.bep == null) ≡ false
      → r.refcounted ≡ false
      → drop vrt r d ≡ (ok tt, d)
  unfolding drop
  dropped_plain r d nz plain = rw (nz, plain)

  dropped_counted :
      (r : BackendRef) (d : Directors)
      → (r.bep == null) ≡ false
      → r.refcounted ≡ true
      → drop vrt r d ≡ (ok tt, vrt.assign_null r.bep d)
  unfolding drop
  dropped_counted r d nz counts = rw (nz, counts)

  given_back-IsTracked :
      (r : BackendRef) (d : Directors) (xs ys : List BackendRef)
      → ((a : ℕ) → 0 < base a)
      → IsTracked vrt laws base d (xs ++ r ∷ ys)
      → r.refcounted ≡ true
      → IsTracked vrt laws base (vrt.assign_null r.bep d) (xs ++ ys)
  given_back-IsTracked r d xs ys positive s counts =
      let (held_xs, (held_r, held_ys)) = AllHeld-split vrt laws base d xs (r ∷ ys) s.held in
      let kept = AllHeld-append vrt laws base d xs ys held_xs held_ys in
      let (v, at) = held_r counts in
      let away : (b : ℕ) → (b == r.bep) ≡ false → held b (xs ++ ys) ≡ held b (xs ++ r ∷ ys) =
        λ b ne.
          held-append b xs ys
          ∙ ap (held b xs +◌) (sym (held-away b r ys ne))
          ∙ sym (held-append b xs (r ∷ ys)) in
      elim (Bool-cases v.norefcnt) [
        | inl free ↦ rw (laws.no_count r.bep d v at free) (record {
          counted =
              IsCounted-free vrt laws base r.bep v d (xs ++ r ∷ ys) (xs ++ ys) at free s.counted
                away;
          held = kept;
        })
        | inr counted ↦
            let many : v.refcnt ≡ suc (base r.bep + held r.bep (xs ++ ys)) = omega (
              arith,
              s.counted r.bep v at counted,
              held-append r.bep xs (r ∷ ys),
              held-append r.bep xs ys,
              held-here r ys counts,
            ) in
            let others : 1 < v.refcnt = omega (arith, many, positive r.bep) in
            rw (laws.gives_back r.bep d v at counted others) (record {
              counted =
                  IsCounted-set vrt laws base r.bep (v.refcnt - 1) v d (xs ++ r ∷ ys) (xs ++ ys)
                    s.counted (omega (arith, many)) away;
              held = AllHeld-set vrt laws base r.bep _ d (xs ++ ys) kept;
            })
      ]

  drop-IsTracked :
      (r : BackendRef) (d d' : Directors) (xs ys : List BackendRef)
      → ((a : ℕ) → 0 < base a)
      → IsTracked vrt laws base d (xs ++ r ∷ ys)
      → drop vrt r d ≡ (ok tt, d')
      → IsTracked vrt laws base d' (xs ++ ys)
  unfolding drop
  drop-IsTracked r d d' xs ys positive s run =
      let (held_xs, (held_r, held_ys)) = AllHeld-split vrt laws base d xs (r ∷ ys) s.held in
      let kept = AllHeld-append vrt laws base d xs ys held_xs held_ys in
      let away : (b : ℕ) → held b (r ∷ ys) ≡ held b ys → held b (xs ++ ys) ≡ held b (xs ++ r ∷ ys) =
        λ b e. held-append b xs ys ∙ ap (held b xs +◌) (sym e) ∙ sym (held-append b xs (r ∷ ys)) in
      elim (Bool-cases (r.bep == null)) [
        | inl z ↦
            let no : (panic, d) ≡ (ok tt, d') = sym (rw z (refl {a = (panic, d)})) ∙ run in
            absurd (cc no)
        | inr nz ↦ elim (Bool-cases r.refcounted) [
          | inr plain ↦
              let d_eq : d ≡ d' = ap (λ x. x.1) (sym (dropped_plain r d nz plain) ∙ run) in
              subst (λ x. IsTracked vrt laws base x (xs ++ ys)) d_eq
                (record {
                  counted = λ a v at c.
                      s.counted a v at c ∙ ap (base a +◌) (sym (away a (held-plain a r ys plain)));
                  held = kept;
                })
          | inl counts ↦
              let d_eq : vrt.assign_null r.bep d ≡ d' =
                ap (λ x. x.1) (sym (dropped_counted r d nz counts) ∙ run) in
              subst (λ x. IsTracked vrt laws base x (xs ++ ys)) d_eq
                (given_back-IsTracked r d xs ys positive s counts)
        ]
      ]

  -- One operation of a vmod on the references that it holds.
  pub data Step : Directors → List BackendRef → Directors → List BackendRef → Type 0 where
    make :
        {d d' : Directors} {refs : List BackendRef} (bep : ℕ) (r : BackendRef)
        → HasRoom d
        → new vrt bep d ≡ (ok (some r), d')
        → Step d refs d' (r ∷ refs)
    copy :
        {d d' : Directors} {refs : List BackendRef} (r r' : BackendRef)
        → HasRoom d
        → clone vrt r d ≡ (ok r', d')
        → Step d refs d' (r' ∷ refs)
    release :
        {d d' : Directors} (xs ys : List BackendRef) (r : BackendRef)
        → drop vrt r d ≡ (ok tt, d')
        → Step d (xs ++ r ∷ ys) d' (xs ++ ys)

  pub data Reach (d : Directors) (refs : List BackendRef)
      : Directors → List BackendRef → Type 0 where
    start : Reach d refs d refs
    next_step :
        {d1 d2 : Directors} {refs1 refs2 : List BackendRef}
        → Reach d refs d1 refs1
        → Step d1 refs1 d2 refs2
        → Reach d refs d2 refs2

  expected-some :
      (x : Outcome (Option BackendRef) × Directors) (r : BackendRef) (d : Directors)
      → and_then (expected vrt) x ≡ (ok r, d)
      → x ≡ (ok (some r), d)
  expected-some (ok (some r'), d') r d e = cc e
  expected-some (ok none, d') r d e = absurd (cc e)
  expected-some (err x, d') r d e = absurd (cc e)
  expected-some (panic, d') r d e = absurd (cc e)

  clone-new :
      (r r' : BackendRef) (d d' : Directors)
      → clone vrt r d ≡ (ok r', d')
      → new vrt r.bep d ≡ (ok (some r'), d')
  unfolding clone
  clone-new r r' d d' run = expected-some (new vrt r.bep d) r' d' run

  Step-IsTracked :
      {d d' : Directors} {refs refs' : List BackendRef}
      → ((a : ℕ) → 0 < base a)
      → Step d refs d' refs'
      → IsTracked vrt laws base d refs
      → IsTracked vrt laws base d' refs'
  Step-IsTracked {d} {d'} {refs} positive (make bep r room run) s =
      new-IsTracked bep r d d' refs s room run
  Step-IsTracked {d} {d'} {refs} positive (copy r r' room run) s =
      new-IsTracked r.bep r' d d' refs s room (clone-new r r' d d' run)
  Step-IsTracked {d} {d'} positive (release xs ys r run) s =
      drop-IsTracked r d d' xs ys positive s run

  -- If others hold every director at least once, and no count reaches 2 ^ 32 - 1: over any sequence
  -- of references made, cloned and dropped, the count of every director that has one is that of the
  -- others plus the references that are held.
  pub Reach-IsTracked :
      {d : Directors} {refs : List BackendRef} {d' : Directors} {refs' : List BackendRef}
      → ((a : ℕ) → 0 < base a)
      → IsTracked vrt laws base d refs
      → Reach d refs d' refs'
      → IsTracked vrt laws base d' refs'
  Reach-IsTracked positive s start = s
  Reach-IsTracked positive s (next_step before step) =
      Step-IsTracked positive step (Reach-IsTracked positive s before)
