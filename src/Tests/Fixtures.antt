-- ===== src/Tests/Fixtures.antt =====
-- Values that the tests share: a fleet of three replicas.
use whyrouted.Prelude.{ℕ, String, Option, none, some, List, [], ◌∷◌}
use whyrouted.Types.{
  ReplicaHealth, healthy, unhealthy, Replica, ReplicaRuntime, ReplicaAdmin, active, drained,
  ReplicaState,
}
use whyrouted.Registry.{Registry}

abbrev pub replica_at : String → Replica
replica_at id = record { id = id; url = "http://127.0.0.1:8001" }

abbrev pub runtime_at : ReplicaHealth → ℕ → Option ℕ → ReplicaRuntime
runtime_at health load latency = record {
  health = health;
  in_flight = load;
  latency_ms = latency;
  consec_failures = 0;
  consec_successes = 2;
  last_checked_at = some "2026-01-01T00:00:00.000Z";
}

abbrev pub state_at : String → ReplicaHealth → ReplicaAdmin → ℕ → Option ℕ → ReplicaState
state_at id health admin load latency = record {
  replica = replica_at id;
  runtime = runtime_at health load latency;
  admin = admin;
}

abbrev pub busy : ReplicaState
busy = state_at "replica-1" healthy active 5 (some 4)

abbrev pub idle : ReplicaState
idle = state_at "replica-2" healthy active 1 (some 30)

abbrev pub parked : ReplicaState
parked = state_at "replica-3" unhealthy drained 0 none

abbrev pub fleet : List ReplicaState
fleet = busy ∷ idle ∷ parked ∷ []

abbrev pub fleet_registry : Registry
fleet_registry = record { replicas = fleet }
