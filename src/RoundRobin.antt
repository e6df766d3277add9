-- ===== src/RoundRobin.antt =====
-- examples/vmod_round_robin/src/lib.rs: the round-robin director. A backend is a value of any
-- type; its probe is what `BackendRef::probe` answers during one call of the director.
pub mod Resolve
pub mod Rotation
pub mod Health
mod Tests
use varnish_rs.Prelude.{
  ℕ, zero, suc, ◌+◌, ◌%◌, Bool, true, false, ◌||◌, Option, none, some, List, [], ◌∷◌, ◌++◌, ltb,
  ◌==◌, if◌then◌else◌, length, get_elem?,
}
use varnish_rs.Outcome.{Outcome, ok, err, panic, VclError, string, Bytes}

-- `ProbeResult`, with the time as a number.
pub record ProbeResult : Type 0 where
  pub healthy : Bool
  pub last_changed : ℕ

pub record RoundRobinState (B : Type 0) : Type 0 where
  pub backends : List B
  pub current : ℕ

-- `max` on times, and the closure that `probe` folds with.
abbrev pub merge : ProbeResult → ProbeResult → ProbeResult
merge acc p = record {
  healthy = acc.healthy || p.healthy;
  last_changed = if ltb acc.last_changed p.last_changed then p.last_changed else acc.last_changed;
}

module _ {B : Type 0} where
  -- `new` makes this state.
  abbrev pub initial : RoundRobinState B
  initial = record { backends = []; current = 0 }

  -- The message of the error for a null backend is the argument.
  unfoldable pub add_backend :
      Bytes → Option B → RoundRobinState B → Outcome (Unit {0}) × RoundRobinState B
  add_backend message none s = (err (string message), s)
  add_backend message (some backend) s = (ok tt, record s { backends = s.backends ++ backend ∷ [] })

  unfoldable pub count : RoundRobinState B → ℕ
  count s = length s.backends

  module _ (probe_of : B → ProbeResult) where
    -- The loop of `resolve` from round `i` on, with `rounds` rounds left.
    resolve_loop : ℕ → ℕ → ℕ → RoundRobinState B → Outcome (Option B) × RoundRobinState B
    resolve_loop start_idx zero i s = (ok none, s)
    resolve_loop start_idx (suc rounds) i s =
        let idx = (start_idx + i) % length s.backends in
        let rest = resolve_loop start_idx rounds (i + 1) s in
        elim (get_elem? s.backends idx) [
          | none ↦ (panic, s)
          | some backend ↦
              if (probe_of backend).healthy
              then (ok (some backend), record s { current = idx + 1 })
              else rest
        ]

    unfoldable pub resolve : RoundRobinState B → Outcome (Option B) × RoundRobinState B
    unfolding resolve_loop
    resolve s =
        if length s.backends == 0
        then (ok none, s)
        else resolve_loop (s.current % length s.backends) (length s.backends) 0 s

    -- The fold of `probe`, from an accumulator.
    fold_probes : ProbeResult → List B → ProbeResult
    fold_probes acc [] = acc
    fold_probes acc (b ∷ bs) = fold_probes (merge acc (probe_of b)) bs

    unfoldable pub probe : RoundRobinState B → ProbeResult
    unfolding fold_probes
    probe s = fold_probes (record { healthy = false; last_changed = 0 }) s.backends

    -- The fold of `health_stats`, whose second part is not used.
    fold_count : ℕ → List B → ℕ
    fold_count acc [] = acc
    fold_count acc (b ∷ bs) = fold_count (acc + (if (probe_of b).healthy then 1 else 0)) bs

    -- The number of healthy backends, the number of all, and whether the status is "healthy".
    unfoldable pub health_stats : RoundRobinState B → ℕ × ℕ × Bool
    unfolding fold_count
    health_stats s =
        let healthy_count = fold_count 0 s.backends in
        (healthy_count, length s.backends, ltb 0 healthy_count)
