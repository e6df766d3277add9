-- ===== src/Directors/Tests.antt =====
-- Runs of references to directors, and instances of their theorems.
use varnish_rs.Prelude.{
  ℕ, ◌-◌, ◌≡◌, refl, sym, ap, ◌∙◌, true, false, Option, none, some, [], ◌∷◌, if◌then◌else◌, negsuc,
  arith,
}
use varnish_rs.Outcome.{ok}
use varnish_rs.Directors.{
  Vcldir, Directors, set_vdir, refcounted_to, Vrt, new, drop, wrap_director_resolve,
  wrap_director_healthy, wrap_director_list, report_json,
}
use varnish_rs.Directors.Counts.{IsVrt, IsTracked}
use varnish_rs.Directors.Balance.{HasRoom, start, next_step, make, Reach-IsTracked}

abbrev given_back : ℕ → Option Vcldir → Directors → Directors
given_back a none d = d
given_back a (some v) d =
    if v.norefcnt then d else set_vdir a (record v { refcnt = v.refcnt - 1 }) d

abbrev vrt : Vrt
vrt = record {
  director_magic = 3;
  vcldir_magic = 4;
  assign_null = λ a d. given_back a (d a).vdir d;
}

vrt-IsVrt : IsVrt vrt
vrt-IsVrt = record {
  gives_back = λ a d v at counted others. rw (at, counted);
  no_count = λ a d v at free. rw (at, free);
}

-- Every director has so many references.
abbrev directors : ℕ → Directors
directors n a = record {
  magic = 3;
  vdir = some (record { magic = 4; norefcnt = false; refcnt = n });
}

has_one : (a : ℕ) (v : Vcldir) → (directors 1 a).vdir ≡ some v → v.refcnt ≡ 1
has_one a v at =
    let one : record { magic = 4; norefcnt = false; refcnt = 1 } ≡ v = cc at in
    sym (ap (λ x. x.refcnt) one)

directors-IsTracked : IsTracked vrt vrt-IsVrt (λ a. 1) (directors 1) []
directors-IsTracked = record { counted = λ a v at c. has_one a v at ∙ omega arith; held = tt }

new_counts : (new vrt 8 (directors 1)).0 ≡ ok (some (refcounted_to 8))
unfolding new
new_counts = refl

new_null : new vrt 0 (directors 1) ≡ (ok none, directors 1)
unfolding new
new_null = refl

-- The answer of a director is given back without its reference.
resolve_releases :
    ((wrap_director_resolve vrt (λ d. (ok (some (refcounted_to 8)), d)) (directors 2)).1 8).vdir
    ≡ some (record { magic = 4; norefcnt = false; refcnt = 1 })
unfolding wrap_director_resolve drop
resolve_releases = refl

time_before_1970 : wrap_director_healthy (true, negsuc 0) (some 5) ≡ (true, some 5)
unfolding wrap_director_healthy
time_before_1970 = refl

list_as_json : wrap_director_list 0 1 ≡ report_json
unfolding wrap_director_list
list_as_json = refl

few : HasRoom vrt vrt-IsVrt (λ a. 1) (directors 1)
few a v at = omega (arith, has_one a v at)

new_runs : new vrt 8 (directors 1) ≡ (ok (some (refcounted_to 8)), (new vrt 8 (directors 1)).1)
unfolding new
new_runs = refl

Reach-IsTracked_example :
    IsTracked vrt vrt-IsVrt (λ a. 1) (new vrt 8 (directors 1)).1 (refcounted_to 8 ∷ [])
Reach-IsTracked_example =
    Reach-IsTracked vrt vrt-IsVrt (λ a. 1) (λ a. omega arith) directors-IsTracked
      (next_step start (make 8 (refcounted_to 8) few new_runs))
