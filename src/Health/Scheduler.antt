-- ===== src/Health/Scheduler.antt =====
-- src/health/scheduler.ts: the hysteresis state machine of each replica and what it writes to the
-- registry. `eject` and the part of `pollOne` after its `await` run without interruption, so each is
-- one step; the probe's result and the clock are arguments. The calls of `onTransition` are kept as a
-- list. A step that throws keeps what it had written before.
pub mod Reports
pub mod Model
pub mod Writes
pub mod Laws
pub mod Invariant
pub mod Streaks
pub mod Recovery
pub mod Sweep
use whyrouted.Prelude.{
  ℕ, ◌+◌, String, str_eq, Bool, true, false, not, ◌&&◌, leb, Option, none, some, List, [], ◌∷◌,
  ◌++◌, if◌then◌else◌, ok, throw, Result,
}
use whyrouted.Types.{ReplicaHealth, healthy, unhealthy, unknown, is_healthy, is_unhealthy}
use whyrouted.Registry.{Registry, RegistryError, RuntimePatch, update_runtime, set_health}

-- src/adapter/types.ts, `HealthResult`.
pub record HealthResult : Type 0 where
  pub alive : Bool
  pub latency_ms : ℕ
  pub in_flight : ℕ

pub record Hysteresis : Type 0 where
  pub health : ReplicaHealth
  pub consec_failures : ℕ
  pub consec_successes : ℕ

-- `R` is the type of the reasons that callers of `eject` give.
pub record HealthTransition (R : Type 0) : Type 0 where
  pub replica_id : String
  pub from : ReplicaHealth
  pub to : ReplicaHealth
  pub at : String
  pub reason : Option R

pub record Thresholds : Type 0 where
  pub unhealthy_threshold : ℕ
  pub healthy_threshold : ℕ

pub record Scheduler (R : Type 0) : Type 0 where
  pub hysteresis : List (String × Hysteresis)
  pub sink : Registry
  pub transitions : List (HealthTransition R)

pub data SchedulerError : Type 0 where
  cannot_eject : String → SchedulerError
  sink_error : RegistryError → SchedulerError

pub data Outcome (S : Type 0) : Type 0 where
  done : S → Outcome S
  threw : SchedulerError → S → Outcome S

infixl 5 ◌>>=◌
abbrev pub ◌>>=◌ : {S : Type 0} → Outcome S → (S → Outcome S) → Outcome S
done s >>= f = f s
threw e s >>= f = threw e s

abbrev pub state_of : {S : Type 0} → Outcome S → S
state_of (done s) = s
state_of (threw e s) = s

-- `Map.get` and `Map.set`; a key that is set again keeps its place.
module _ {A : Type 0} where
  unfoldable pub get : String → List (String × A) → Option A
  get id [] = none
  get id ((k, a) ∷ m) = if str_eq k id then some a else get id m

  unfoldable pub put : String → A → List (String × A) → List (String × A)
  put id a [] = (id, a) ∷ []
  put id a ((k, b) ∷ m) = if str_eq k id then (k, a) ∷ m else (k, b) ∷ put id a m

abbrev pub fresh : Hysteresis
fresh = record { health = unknown; consec_failures = 0; consec_successes = 0 }

-- The loop of the constructor.
unfoldable pub init_from : List String → List (String × Hysteresis) → List (String × Hysteresis)
init_from [] m = m
init_from (id ∷ ids) m = init_from ids (put id fresh m)

-- What `eject` writes of the runtime: the counters alone.
abbrev pub counters_patch : ℕ → ℕ → RuntimePatch
counters_patch failures successes = record {
  health = none;
  in_flight = none;
  latency_ms = none;
  consec_failures = some failures;
  consec_successes = some successes;
  last_checked_at = none;
}

abbrev pub probe_patch : ℕ → Option ℕ → ℕ → ℕ → String → RuntimePatch
probe_patch in_flight latency failures successes at = record {
  health = none;
  in_flight = some in_flight;
  latency_ms = some latency;
  consec_failures = some failures;
  consec_successes = some successes;
  last_checked_at = some (some at);
}

module _ {R : Type 0} where
  unfoldable pub init : List String → Registry → Scheduler R
  unfolding init_from put
  init ids sink = record { hysteresis = init_from ids []; sink = sink; transitions = [] }

  abbrev pub lifted : Scheduler R → Result RegistryError Registry → Outcome (Scheduler R)
  lifted s (ok sink) = done (record s { sink = sink })
  lifted s (throw e) = threw (sink_error e) s

  -- `this.opts.sink.updateRuntime(id, patch)` and `this.opts.sink.setHealth(id, health)`.
  unfoldable pub write_runtime : String → RuntimePatch → Scheduler R → Outcome (Scheduler R)
  write_runtime id patch s = lifted s (update_runtime s.sink id patch)

  unfoldable pub write_health : String → ReplicaHealth → Scheduler R → Outcome (Scheduler R)
  write_health id health s = lifted s (set_health s.sink id health)

  -- An assignment to the fields of the entry that `this.hysteresis.get(id)` returned.
  abbrev pub store : String → Hysteresis → Scheduler R → Scheduler R
  store id h s = record s { hysteresis = put id h s.hysteresis }

  abbrev pub emit : HealthTransition R → Scheduler R → Outcome (Scheduler R)
  emit t s = done (record s { transitions = s.transitions ++ t ∷ [] })

  eject_found :
      Thresholds → String → R → String → Scheduler R → Option Hysteresis → Outcome (Scheduler R)
  eject_found opts id reason now s none = threw (cannot_eject id) s
  eject_found opts id reason now s (some h) =
      if is_unhealthy h.health
      then done s
      else (write_runtime id (counters_patch opts.unhealthy_threshold 0) (
            store id
              (record {
                health = unhealthy;
                consec_failures = opts.unhealthy_threshold;
                consec_successes = 0;
              })
              s)
          >>= write_health id unhealthy
          >>= emit (record {
            replica_id = id;
            from = h.health;
            to = unhealthy;
            at = now;
            reason = some reason;
          }))

  unfoldable pub eject : Thresholds → String → R → String → Scheduler R → Outcome (Scheduler R)
  unfolding eject_found
  eject opts id reason now s = eject_found opts id reason now s (get id s.hysteresis)

  pub transition :
      String → Hysteresis → ReplicaHealth → String → Scheduler R → Outcome (Scheduler R)
  transition id h to at s =
      write_health id to (store id (record h { health = to }) s)
      >>= emit (record { replica_id = id; from = h.health; to = to; at = at; reason = none })

  -- `pollOne` after the probe. `h` is the entry with the counters already advanced.
  after_success :
      Thresholds → String → HealthResult → String → Hysteresis → Scheduler R → Outcome (Scheduler R)
  after_success opts id result at h s =
      write_runtime id
        (probe_patch result.in_flight (some result.latency_ms) 0 h.consec_successes at)
        (store id h s)
      >>= λ s'.
          if not (is_healthy h.health) && leb opts.healthy_threshold h.consec_successes
          then transition id h healthy at s'
          else done s'

  after_failure : Thresholds → String → String → Hysteresis → Scheduler R → Outcome (Scheduler R)
  after_failure opts id at h s =
      write_runtime id (probe_patch 0 none h.consec_failures 0 at) (store id h s) >>= λ s'.
      if not (is_unhealthy h.health) && leb opts.unhealthy_threshold h.consec_failures
      then transition id h unhealthy at s'
      else done s'

  poll_found :
      Thresholds
      → String
      → HealthResult
      → String
      → Scheduler R
      → Option Hysteresis
      → Outcome (Scheduler R)
  poll_found opts id result at s none = done s
  poll_found opts id result at s (some h) =
      if result.alive
      then after_success opts id result at
          (record h { consec_failures = 0; consec_successes = h.consec_successes + 1 }) s
      else after_failure opts id at
          (record h { consec_failures = h.consec_failures + 1; consec_successes = 0 }) s

  unfoldable pub poll_one :
      Thresholds → String → HealthResult → String → Scheduler R → Outcome (Scheduler R)
  unfolding poll_found after_success after_failure transition
  poll_one opts id result at s = poll_found opts id result at s (get id s.hysteresis)
