-- ===== src/Health/Scheduler/Model.antt =====
-- Health/Scheduler/Model: a description of each step by the hysteresis alone.
use whyrouted.Prelude.{
  ◌+◌, String, Bool, true, false, not, ◌&&◌, leb, Option, none, some, List, [], ◌∷◌, if◌then◌else◌,
  ◌≡◌,
}
use whyrouted.Types.{
  ReplicaHealth, healthy, unhealthy, unknown, is_healthy, is_unhealthy, ReplicaState,
  ReplicaRuntime,
}
use whyrouted.Health.Scheduler.{HealthResult, Hysteresis, HealthTransition, Thresholds}

-- One probe, seen from the hysteresis: `M` successes in a row make a replica healthy, `N` failures
-- in a row make it unhealthy.
unfoldable pub probed : Thresholds → Bool → Hysteresis → Hysteresis
probed opts true h =
    let n = h.consec_successes + 1 in
    record {
      health =
          if not (is_healthy h.health) && leb opts.healthy_threshold n then healthy else h.health;
      consec_failures = 0;
      consec_successes = n;
    }
probed opts false h =
    let n = h.consec_failures + 1 in
    record {
      health =
          if not (is_unhealthy h.health) && leb opts.unhealthy_threshold n
          then unhealthy
          else h.health;
      consec_failures = n;
      consec_successes = 0;
    }

-- A request-driven ejection of a replica that is not unhealthy yet.
unfoldable pub ejected : Thresholds → Hysteresis → Hysteresis
ejected opts h = if is_unhealthy h.health then h else (record {
  health = unhealthy;
  consec_failures = opts.unhealthy_threshold;
  consec_successes = 0;
})

-- The runtime shows the same health and counters as the hysteresis.
pub record Mirrors (h : Hysteresis) (r : ReplicaRuntime) : Type 0 where
  pub health : r.health ≡ h.health
  pub failures : r.consec_failures ≡ h.consec_failures
  pub successes : r.consec_successes ≡ h.consec_successes

-- The health changes that a step reports.
abbrev pub is_same_health : ReplicaHealth → ReplicaHealth → Bool
is_same_health healthy healthy = true
is_same_health unhealthy unhealthy = true
is_same_health unknown unknown = true
is_same_health _ _ = false

unfoldable pub moves :
    {R : Type 0}
    → String
    → ReplicaHealth
    → ReplicaHealth
    → String
    → Option R
    → List (HealthTransition R)
moves id from to at reason =
    if is_same_health from to
    then []
    else record { replica_id = id; from = from; to = to; at = at; reason = reason } ∷ []

-- The runtime after a probe.
unfoldable pub seen : Hysteresis → HealthResult → String → ReplicaRuntime
seen h result at = record {
  health = h.health;
  in_flight = if result.alive then result.in_flight else 0;
  latency_ms = if result.alive then some result.latency_ms else none;
  consec_failures = h.consec_failures;
  consec_successes = h.consec_successes;
  last_checked_at = some at;
}

abbrev pub set_runtime : ReplicaRuntime → ReplicaState → ReplicaState
set_runtime x r = record r { runtime = x }
