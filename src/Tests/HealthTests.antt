-- ===== src/Tests/HealthTests.antt =====
-- The health scheduler: a replica that fails, is ejected and comes back.
use whyrouted.Prelude.{
  Bool-cases, str_eq, inl, inr, ◌<◌, ◌≤◌, String, true, false, none, some, List, [], ◌∷◌, ◌≡◌, refl,
  arith,
}
use whyrouted.Types.{healthy, unhealthy, drained}
use whyrouted.Registry.{Registry, find, fresh_state}
use whyrouted.Health.Scheduler.{
  HealthResult, Hysteresis, Thresholds, Scheduler, done, ◌>>=◌, get, init, poll_one, eject,
}
use whyrouted.Health.Scheduler.Model.{probed, Mirrors, seen, moves, set_runtime}
use whyrouted.Health.Scheduler.Laws.{Changes, poll_one_lem}
use whyrouted.Health.Scheduler.Invariant.{
  Event, probes, ejects, admins, run, IsPositive, IsValid, IsTracked, init-run-IsValid,
}
use whyrouted.Health.Scheduler.Streaks.{repeat, NoSuccessStreak, NoFailureStreak}
use whyrouted.Health.Scheduler.Recovery.{
  Probe, results, polls, Shows, polls-hysteresis, eject-recovers,
}
use whyrouted.Health.Scheduler.Sweep
use whyrouted.Health.Scheduler.Sweep.{
  sweeps-Bounded, Bounded, at_first, starts, fires, fails, gives_up,
}
use whyrouted.Tests.Fixtures.{busy, fleet_registry, replica_at}

abbrev opts : Thresholds
opts = record { unhealthy_threshold = 3; healthy_threshold = 2 }

abbrev up : Hysteresis
up = record { health = healthy; consec_failures = 0; consec_successes = 2 }

abbrev down : Hysteresis
down = record { health = unhealthy; consec_failures = 3; consec_successes = 0 }

abbrev watched : Scheduler String
watched = record { hysteresis = ("replica-1", up) ∷ []; sink = fleet_registry; transitions = [] }

abbrev answer : HealthResult
answer = record { alive = true; latency_ms = 7; in_flight = 2 }

watched_held : get "replica-1" watched.hysteresis ≡ some up
unfolding get
watched_held = refl

busy_found : find "replica-1" fleet_registry.replicas ≡ some busy
unfolding find
busy_found = refl

busy_mirror : Mirrors up busy.runtime
busy_mirror = record { health = refl; failures = refl; successes = refl }

poll_one_lem_example :
    (let h = probed opts true up in
      (t : Scheduler String) × (poll_one opts "replica-1" answer "t1" watched ≡ done t)
      × Changes "replica-1" h
          (set_runtime (seen h answer "t1"))
          (moves "replica-1" healthy h.health "t1" none)
          watched
          t)
poll_one_lem_example =
    poll_one_lem opts "replica-1" "t1" watched up busy watched_held busy_found busy_mirror answer

abbrev new_registry : Registry
new_registry = record { replicas = fresh_state (replica_at "replica-1") ∷ [] }

opts_positive : IsPositive opts
opts_positive = record { failures = omega arith; successes = omega arith }

abbrev events : List (Event String)
events =
    probes "replica-1" answer "t1"
    ∷ admins "replica-1" drained
    ∷ ejects "replica-1" "request failed: connection" "t2"
    ∷ []

init-run-IsValid_example : IsValid opts (run opts (init ("replica-1" ∷ []) new_registry) events)
unfolding find
init-run-IsValid_example =
    init-run-IsValid opts ("replica-1" ∷ []) new_registry events opts_positive
      ((fresh_state (replica_at "replica-1"), refl, refl), tt)

abbrev failure : HealthResult
failure = record { alive = false; latency_ms = 200; in_flight = 0 }

watched_mirrors :
    (id : String) (h : Hysteresis)
    → get id watched.hysteresis ≡ some h
    → IsTracked opts fleet_registry id h
unfolding get find
watched_mirrors id h e = elim (Bool-cases (str_eq "replica-1" id)) [
  | inl one ↦ (
    busy,
    rw one,
    ground arith,
    (λ p. ground arith, λ p. ground arith, λ p. (ground arith, ground arith)),
  )
  | inr other ↦ absurd (ground arith)
]

abbrev blips : List Probe
blips = (failure, "t1") ∷ (failure, "t2") ∷ (answer, "t3") ∷ []

polls-hysteresis_example :
    (t : Scheduler String) × (polls opts "replica-1" blips watched ≡ done t)
    × (healthy ≡ unhealthy
        → NoSuccessStreak 2 2 (results blips)
        → Shows opts "replica-1" t unhealthy)
    × (healthy ≡ healthy → NoFailureStreak 3 0 (results blips) → Shows opts "replica-1" t healthy)
    × (results blips ≡ repeat 2 true → Shows opts "replica-1" t healthy)
    × (results blips ≡ repeat 3 false → Shows opts "replica-1" t unhealthy)
polls-hysteresis_example =
    polls-hysteresis opts "replica-1" opts_positive blips watched up watched_mirrors watched_held

abbrev two_up : List Probe
two_up = (answer, "t2") ∷ (answer, "t3") ∷ []

eject-recovers_example :
    (t : Scheduler String) × ((eject opts "replica-1" "request failed: timeout" "t1" watched
        >>= polls opts "replica-1" two_up)
      ≡ done t)
    × (2 < 2 → Shows opts "replica-1" t unhealthy)
    × (2 ≤ 2 → Shows opts "replica-1" t healthy)
eject-recovers_example =
    eject-recovers opts "replica-1" opts_positive "request failed: timeout" "t1" 2 two_up watched up
      watched_mirrors watched_held (λ e. cc) refl

abbrev pair_ids : List String
pair_ids = "replica-1" ∷ "replica-2" ∷ []

-- A probe of the first sweep rejects while the other is pending, and the timer fires again.
abbrev one_rejected : Sweep.Sweeper
one_rejected = Sweep.rejects "replica-1" (Sweep.start pair_ids Sweep.idle)

rejection_seen :
    (one_rejected.polling ≡ true)
    × (one_rejected.rejected ≡ true)
    × ((Sweep.settle one_rejected).timer ≡ true)
unfolding Sweep.rejects Sweep.start Sweep.poll_all Sweep.settle
rejection_seen = (refl, refl, refl)

sweep_started : (Sweep.start pair_ids Sweep.idle).polling ≡ true
unfolding Sweep.start Sweep.poll_all
sweep_started = refl

sweeps-Bounded_example : Bounded pair_ids 1 (Sweep.poll_all pair_ids (Sweep.settle one_rejected))
sweeps-Bounded_example =
    let (polling, rejected, timer) = rejection_seen in
    sweeps-Bounded pair_ids 1 (Sweep.poll_all pair_ids (Sweep.settle one_rejected))
      (fires (gives_up (fails (starts at_first) "replica-1" sweep_started) polling rejected) timer)
