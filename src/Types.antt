-- ===== src/Types.antt =====
-- src/types.ts: what a replica is, what its health and live stats look like, and a snapshot of the
-- fleet. In-flight counts and latencies are natural numbers; `null` is `none`.
use whyrouted.Prelude.{ℕ, String, Bool, true, false, Option, none, List}

pub data ReplicaHealth : Type 0 where
  healthy unhealthy unknown : ReplicaHealth

pub record Replica : Type 0 where
  pub id : String
  pub url : String

pub record ReplicaRuntime : Type 0 where
  pub health : ReplicaHealth
  pub in_flight : ℕ
  pub latency_ms : Option ℕ
  pub consec_failures : ℕ
  pub consec_successes : ℕ
  pub last_checked_at : Option String

pub data ReplicaAdmin : Type 0 where
  active drained : ReplicaAdmin

-- `ReplicaState extends Replica`: `s.id` and `s.url` are those of `s.replica`.
pub record ReplicaState : Type 0 where
  pub replica : Replica
  pub open replica use *
  pub runtime : ReplicaRuntime
  pub admin : ReplicaAdmin

pub record RegistrySnapshot : Type 0 where
  pub generated_at : String
  pub replicas : List ReplicaState

abbrev pub initial_runtime : ReplicaRuntime
initial_runtime = record {
  health = unknown;
  in_flight = 0;
  latency_ms = none;
  consec_failures = 0;
  consec_successes = 0;
  last_checked_at = none;
}

-- The tests `=== "healthy"`, `=== "unhealthy"` and `=== "drained"`.
abbrev pub is_healthy : ReplicaHealth → Bool
is_healthy healthy = true
is_healthy _ = false

abbrev pub is_unhealthy : ReplicaHealth → Bool
is_unhealthy unhealthy = true
is_unhealthy _ = false

abbrev pub is_drained : ReplicaAdmin → Bool
is_drained drained = true
is_drained active = false
