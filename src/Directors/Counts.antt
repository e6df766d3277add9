-- ===== src/Directors/Counts.antt =====
-- varnish-sys/src/vcl/backend/backend_ref.rs: varnishd counts exactly the references held.
use varnish_rs.Prelude.{
  ℕ, suc, ◌+◌, ◌-◌, ◌%◌, ◌^◌, ◌<◌, ◌≡◌, refl, sym, ap, ◌∙◌, ◌≢◌, ◌⊎◌, inl, inr, true, false, ◌&&◌,
  Option, none, some, List, [], ◌∷◌, ◌++◌, ltb, ◌==◌, ==_iff, ne→==, eq→==, Bool-cases,
  Option-cases, if◌then◌else◌, arith,
}
use varnish_rs.Outcome.{Outcome, ok, panic}
use varnish_rs.Memory.{null}
use varnish_rs.Directors.{Vcldir, Directors, set_vdir, BackendRef, refcounted_to, Vrt, new}

-- The documented behaviour of `VRT_Assign_Backend` with a null source, while others hold the
-- director too: it gives one reference back, if the director has a count.
pub record IsVrt (vrt : Vrt) : Type 0 where
  pub gives_back :
      (a : ℕ) (d : Directors) (v : Vcldir)
      → (d a).vdir ≡ some v
      → v.norefcnt ≡ false
      → 1 < v.refcnt
      → vrt.assign_null a d ≡ set_vdir a (record v { refcnt = v.refcnt - 1 }) d
  pub no_count :
      (a : ℕ) (d : Directors) (v : Vcldir)
      → (d a).vdir ≡ some v
      → v.norefcnt ≡ true
      → vrt.assign_null a d ≡ d

-- The references with a count that point to a director.
abbrev pub held : ℕ → List BackendRef → ℕ
held a [] = 0
held a (r ∷ refs) = (if r.refcounted && (r.bep == a) then 1 else 0) + held a refs

pub held-append : (a : ℕ) (xs ys : List BackendRef) → held a (xs ++ ys) ≡ held a xs + held a ys
held-append a [] ys = omega arith
held-append a (r ∷ xs) ys = omega (arith, held-append a xs ys)

pub held-away :
    (b : ℕ) (r : BackendRef) (refs : List BackendRef)
    → (b == r.bep) ≡ false
    → held b (r ∷ refs) ≡ held b refs
held-away b r refs ne =
    let other : (r.bep == b) ≡ false =
      ne→== r.bep b (λ e. absurd (cc (ne, eq→== b r.bep (sym e)))) in
    elim (Bool-cases r.refcounted) [
      | inl c ↦ rw (c, other) (omega arith)
      | inr c ↦ rw c (omega arith)
    ]

pub held-here :
    (r : BackendRef) (refs : List BackendRef)
    → r.refcounted ≡ true
    → held r.bep (r ∷ refs) ≡ suc (held r.bep refs)
held-here r refs c = rw (c, eq→== r.bep r.bep refl) (omega arith)

pub held-plain :
    (b : ℕ) (r : BackendRef) (refs : List BackendRef)
    → r.refcounted ≡ false
    → held b (r ∷ refs) ≡ held b refs
held-plain b r refs c = rw c (omega arith)

module _ (vrt : Vrt) (laws : IsVrt vrt) (base : ℕ → ℕ) where
  -- Each director with a count has, on top of the references of others, those that are held.
  abbrev pub IsCounted : Directors → List BackendRef → Type 0
  IsCounted d refs =
      (a : ℕ) (v : Vcldir)
      → (d a).vdir ≡ some v
      → v.norefcnt ≡ false
      → v.refcnt ≡ base a + held a refs

  -- What `new` does.
  abbrev pub News : ℕ → Directors → Outcome (Option BackendRef) × Directors → Type 0
  News bep d result =
      ((bep ≡ null) × (result ≡ (ok none, d)))
      ⊎ ((result ≡ (panic, d))
          ⊎ ((v : Vcldir) × ((d bep).vdir ≡ some v)
              × (bep ≢ null)
              × (((v.norefcnt ≡ true) × (result ≡ (ok (some (refcounted_to bep)), d)))
                  ⊎ ((v.norefcnt ≡ false)
                      × (result ≡ (
                        ok (some (refcounted_to bep)),
                        set_vdir bep (record v { refcnt = (v.refcnt + 1) % 2 ^ 32 }) d,
                      ))))))

  pub new_lem : (bep : ℕ) (d : Directors) → News bep d (new vrt bep d)
  unfolding new
  new_lem bep d = elim (Bool-cases (bep == null)) [
    | inl z ↦ inl ((==_iff bep null).0 z, rw z)
    | inr nz ↦ inr (elim (Bool-cases ((d bep).magic == vrt.director_magic)) [
      | inr bad ↦ inl (rw (nz, bad))
      | inl good ↦ elim (Option-cases (d bep).vdir) [
        | inl missing ↦ inl (rw (nz, good, missing))
        | inr (v, at) ↦ elim (Bool-cases (v.magic == vrt.vcldir_magic)) [
          | inr bad ↦ inl (rw (nz, good, at, bad))
          | inl fine ↦ elim (Bool-cases v.norefcnt) [
            | inl free ↦ inr (
              v,
              at,
              λ e. absurd (cc (nz, eq→== bep null e)),
              inl (free, rw (nz, good, at, fine, free)),
            )
            | inr counted ↦ elim (Bool-cases (ltb 0 v.refcnt)) [
              | inl held ↦ inr (
                v,
                at,
                λ e. absurd (cc (nz, eq→== bep null e)),
                inr (counted, rw (nz, good, at, fine, counted, held)),
              )
              | inr none_left ↦ inl (rw (nz, good, at, fine, counted, none_left))
            ]
          ]
        ]
      ]
    ])
  ]

  -- Every reference with a count points to a director with a `vdir`.
  abbrev pub AllHeld : Directors → List BackendRef → Type 0
  AllHeld d [] = Unit {0}
  AllHeld d (r ∷ refs) =
      (r.refcounted ≡ true → (v : Vcldir) × ((d r.bep).vdir ≡ some v)) × AllHeld d refs

  pub record IsTracked (d : Directors) (refs : List BackendRef) : Type 0 where
    pub counted : IsCounted d refs
    pub held : AllHeld d refs

  pub set_vdir-at : (a : ℕ) (v : Vcldir) (d : Directors) → (set_vdir a v d a).vdir ≡ some v
  set_vdir-at a v d = rw (eq→== a a refl)

  set_vdir-away : (a b : ℕ) (v : Vcldir) (d : Directors) → (b == a) ≡ false → set_vdir a v d b ≡ d b
  set_vdir-away a b v d ne = rw ne

  pub AllHeld-set :
      (a : ℕ) (v : Vcldir) (d : Directors) (refs : List BackendRef)
      → AllHeld d refs
      → AllHeld (set_vdir a v d) refs
  AllHeld-set a v d [] h = tt
  AllHeld-set a v d (r ∷ refs) (h, hs) = (
    λ c. elim (Bool-cases (r.bep == a)) [ inl same ↦ (v, rw same) | inr other ↦ rw other (h c) ],
    AllHeld-set a v d refs hs,
  )

  pub AllHeld-append :
      (d : Directors) (xs ys : List BackendRef) → AllHeld d xs → AllHeld d ys → AllHeld d (xs ++ ys)
  AllHeld-append d [] ys p q = q
  AllHeld-append d (x ∷ xs) ys (p, ps) q = (p, AllHeld-append d xs ys ps q)

  pub AllHeld-split :
      (d : Directors) (xs ys : List BackendRef) → AllHeld d (xs ++ ys) → AllHeld d xs × AllHeld d ys
  AllHeld-split d [] ys h = (tt, h)
  AllHeld-split d (x ∷ xs) ys (p, h) = let (ps, q) = AllHeld-split d xs ys h in ((p, ps), q)

  -- A count that changes as the references do.
  pub IsCounted-set :
      (a n : ℕ) (v : Vcldir) (d : Directors) (refs refs' : List BackendRef)
      → IsCounted d refs
      → n ≡ base a + held a refs'
      → ((b : ℕ) → (b == a) ≡ false → held b refs' ≡ held b refs)
      → IsCounted (set_vdir a (record v { refcnt = n }) d) refs'
  IsCounted-set a n v d refs refs' c here away b w at count = elim (Bool-cases (b == a)) [
    | inl same ↦
        let e : b ≡ a = (==_iff b a).0 same in
        let found : some (record v { refcnt = n }) ≡ some w =
          sym (rw same (refl {a = some (record v { refcnt = n })})) ∙ at in
        let inj : record v { refcnt = n } ≡ w = cc found in
        sym (ap (λ x. x.refcnt) inj) ∙ here ∙ ap (λ x. base x + held x refs') (sym e)
    | inr other ↦
        let old : (d b).vdir ≡ some w =
          ap (λ x. x.vdir) (sym (set_vdir-away a b (record v { refcnt = n }) d other)) ∙ at in
        c b w old count ∙ ap (base b +◌) (sym (away b other))
  ]

  -- A director without a count may get and lose references.
  pub IsCounted-free :
      (a : ℕ) (v : Vcldir) (d : Directors) (refs refs' : List BackendRef)
      → (d a).vdir ≡ some v
      → v.norefcnt ≡ true
      → IsCounted d refs
      → ((b : ℕ) → (b == a) ≡ false → held b refs' ≡ held b refs)
      → IsCounted d refs'
  IsCounted-free a v d refs refs' at free c away b w at' count = elim (Bool-cases (b == a)) [
    | inl same ↦
        let e : b ≡ a = (==_iff b a).0 same in
        let found : some w ≡ some v = sym at' ∙ ap (λ x. (d x).vdir) e ∙ at in
        let inj : w ≡ v = cc found in
        let clash : false ≡ true = sym count ∙ ap (λ x. x.norefcnt) inj ∙ free in absurd (cc clash)
    | inr other ↦ c b w at' count ∙ ap (base b +◌) (sym (away b other))
  ]
