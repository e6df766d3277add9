-- ===== src/Directors.antt =====
-- varnish-sys/src/vcl/backend/backend_ref.rs and varnish-sys/src/vcl/backend/director.rs:
-- `BackendRef`, which counts its references in varnishd, and the callbacks of a director.
pub mod Counts
pub mod Balance
mod Tests
use varnish_rs.Prelude.{
  ℕ, zero, suc, ◌+◌, ◌%◌, ◌^◌, Bool, true, false, not, Option, none, some, ltb, ◌==◌, ℤ, pos,
  negsuc, if◌then◌else◌,
}
use varnish_rs.Outcome.{
  Outcome, ok, err, panic, Exec, pure, panics, assert, gets, and_then, ◌>>=◌, ◌>>◌,
}
use varnish_rs.Memory.{null}

-- `ffi::vcldir`, with the flag `VDIR_FLG_NOREFCNT`.
pub record Vcldir : Type 0 where
  pub magic : ℕ
  pub norefcnt : Bool
  pub refcnt : ℕ

-- `ffi::director`, with a null or a valid `vdir`.
pub record Director : Type 0 where
  pub magic : ℕ
  pub vdir : Option Vcldir

-- The directors of varnishd by their addresses.
abbrev pub Directors : Type 0
Directors = ℕ → Director

abbrev pub set_vdir : ℕ → Vcldir → Directors → Directors
set_vdir a v d x = if x == a then record (d a) { vdir = some v } else d x

pub record BackendRef : Type 0 where
  pub refcounted : Bool
  pub bep : ℕ

abbrev pub refcounted_to : ℕ → BackendRef
refcounted_to bep = record { refcounted = true; bep = bep }

-- varnishd: its magic numbers, and `VRT_Assign_Backend` with a null source.
pub record Vrt : Type 0 where
  pub director_magic : ℕ
  pub vcldir_magic : ℕ
  pub assign_null : ℕ → Directors → Directors

module _ (vrt : Vrt) where
  -- The count of a director is raised; it is a 32 bit number.
  abbrev pub referenced : ℕ → Vcldir → Exec Directors (Option BackendRef)
  referenced bep v = if v.norefcnt then pure (some (refcounted_to bep)) else do
    assert (ltb 0 v.refcnt)
    λ d. (
      ok (some (refcounted_to bep)),
      set_vdir bep (record v { refcnt = (v.refcnt + 1) % 2 ^ 32 }) d,
    )

  abbrev pub with_vdir : ℕ → Option Vcldir → Exec Directors (Option BackendRef)
  with_vdir bep none = panics
  with_vdir bep (some v) = do assert (v.magic == vrt.vcldir_magic); referenced bep v

  unfoldable pub new : ℕ → Exec Directors (Option BackendRef)
  new bep d =
      if bep == null
      then (ok none, d)
      else (assert ((d bep).magic == vrt.director_magic) >> with_vdir bep (d bep).vdir) d

  -- `expect` on a reference that is none is a panic.
  abbrev pub expected : Option BackendRef → Exec Directors BackendRef
  expected none = panics
  expected (some r) = pure r

  unfoldable pub clone : BackendRef → Exec Directors BackendRef
  unfolding new
  clone r = do copy ← new r.bep; expected copy

  -- Of a reference.
  unfoldable pub drop : BackendRef → Exec Directors (Unit {0})
  drop r d =
      if r.bep == null
      then (panic, d)
      else (ok tt, if r.refcounted then vrt.assign_null r.bep d else d)

  -- The pointer is given back, and the reference is dropped.
  abbrev pub pointer_of : Option BackendRef → Exec Directors ℕ
  pointer_of none d = (ok null, d)
  pointer_of (some r) d = and_then (λ u. pure r.bep) (drop r d)

  -- Over `resolve` of the director's type.
  unfoldable pub wrap_director_resolve : Exec Directors (Option BackendRef) → Exec Directors ℕ
  unfolding drop
  wrap_director_resolve resolve = do found ← resolve; pointer_of found

-- This takes no reference.
abbrev pub new_without_refcount : ℕ → Option BackendRef
new_without_refcount bep =
    if bep == null then none else some (record { refcounted = false; bep = bep })

-- The time of a probe in seconds from 1970 on; one before is not converted.
abbrev pub vcl_time : ℤ → Option ℕ
vcl_time (pos n) = some n
vcl_time (negsuc n) = none

abbrev pub stored_time : Option ℕ → ℤ → Option ℕ
stored_time none when = none
stored_time (some old) when = elim (vcl_time when) [ none ↦ some old | some t ↦ some t ]

-- The answer, with the time behind `changed`, if that is not null.
unfoldable pub wrap_director_healthy : Bool × ℤ → Option ℕ → Bool × Option ℕ
wrap_director_healthy (healthy, last_changed) changed = (healthy, stored_time changed last_changed)

-- The four reports of a director.
pub data ReportKind : Type 0 where
  report report_details report_json report_details_json : ReportKind

abbrev pub list_kind : Bool → Bool → ReportKind
list_kind true true = report_details_json
list_kind true false = report_json
list_kind false true = report_details
list_kind false false = report

-- Which report is written for the arguments `detailed` and `json`.
unfoldable pub wrap_director_list : ℕ → ℕ → ReportKind
wrap_director_list detailed json = list_kind (not (json == 0)) (not (detailed == 0))
