-- ===== src/RoundRobin/Tests.antt =====
-- Runs of the round-robin director, and instances of its theorems.
use varnish_rs.Prelude.{ℕ, ◌<◌, ◌≡◌, refl, ◌↔◌, ◌⊎◌, true, not, some, none, [], ◌∷◌, ◌==◌, length}
use varnish_rs.Outcome.{ok}
use varnish_rs.RoundRobin.{ProbeResult, RoundRobinState, resolve, probe, health_stats}
use varnish_rs.RoundRobin.Resolve.{Picks, resolve_lem}
use varnish_rs.RoundRobin.Rotation.{turns, resolve-turns}
use varnish_rs.RoundRobin.Health.{probe-resolve}

-- Backend 2 is sick.
abbrev probe_of : ℕ → ProbeResult
probe_of b = record { healthy = not (b == 2); last_changed = b }

abbrev all_healthy : ℕ → ProbeResult
all_healthy b = record { healthy = true; last_changed = b }

abbrev state : RoundRobinState ℕ
state = record { backends = 1 ∷ 2 ∷ 3 ∷ []; current = 1 }

resolve_skips : resolve probe_of state ≡ (ok (some 3), record state { current = 3 })
unfolding resolve
resolve_skips = refl

stats : health_stats probe_of state ≡ (2, 3, true)
unfolding health_stats
stats = refl

resolve_lem_example :
    ((state.backends ≡ []) × (resolve probe_of state ≡ (ok none, state)))
    ⊎ ((0 < length state.backends) × Picks probe_of state 0 3 (resolve probe_of state))
resolve_lem_example = resolve_lem probe_of state

resolve-turns_example : (resolve all_healthy (turns all_healthy 4 state)).0 ≡ ok (some 3)
resolve-turns_example = resolve-turns all_healthy 4 state 3 (λ b. refl) refl

probe-resolve_example :
    ((probe probe_of state).healthy ≡ true) ↔ ((b : ℕ) × ((resolve probe_of state).0 ≡ ok (some b)))
probe-resolve_example = probe-resolve probe_of state
