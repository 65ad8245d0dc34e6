-- ===== src/Tests/MainTests.antt =====
-- The program of the empty environment: started, and then run through a few events.
use whyrouted.Prelude.{
  ℕ, suc, ◌+◌, ◌*◌, ◌/◌, ◌≤◌, ◌==◌, Bool, arith, All, String, true, none, List, [], ◌∷◌, map, ok,
  ◌≡◌, refl, length,
}
use whyrouted.Adapter.{timeout, request_error}
use whyrouted.Config.{
  pos, default_config, validate, pushed, Env, load_config, read_int, read_number, read_strategy,
  fleet_replicas,
}
use whyrouted.Api.Route.{responded, rejected, Stamp}
use whyrouted.Traffic.{Event, requested, answered, probed, set_strategy, run, idle}
use whyrouted.Traffic.Accounts.{IsSound}
use whyrouted.Traffic.Log.{by_checks}
use whyrouted.Traffic.Failovers.{all_owed}
use whyrouted.Main.{Program, start_up, launch_fleet}
use whyrouted.Main.Startup.{IsInOrder, fleet_ids, start_up-IsInOrder}
use whyrouted.Main.Launch.{served_as, HasOwnPort, launch_fleet_lem}
use whyrouted.Main.Reach.{
  reachable, EndsAt, probe_until, wait_until_reachable, wait_until_reachable-EndsAt,
}
use whyrouted.Main.Running.{settings_of, running-IsSound, running-by_checks}

abbrev unset : Env
unset name = none

load_unset : load_config unset ≡ ok default_config
unfolding load_config validate read_int read_number read_strategy pushed
load_unset = refl

validate_default : validate default_config ≡ ok default_config
unfolding validate pushed
validate_default = refl

abbrev same : String → String
same host = host

abbrev pub stamp : Stamp
stamp = record {
  eject_at = "t1";
  event_id = "e1";
  event_at = "t2";
  decision_id = "d1";
  decision_at = "t3";
}

-- Two requests go out at once. The first one's replica times out, so it goes round again, past a probe
-- that fails and a change of the strategy; then both are answered.
abbrev events : List (Event String)
events =
    requested "request-1" stamp
    ∷ requested "request-2" stamp
    ∷ answered 0 stamp
        (rejected (request_error (record { kind = timeout; message = "late"; status = none })))
    ∷ probed "replica-2" (record { alive = true; latency_ms = 4; in_flight = 1 }) "t4" "e2"
    ∷ set_strategy "round_robin"
    ∷ answered 0 stamp (responded "second" 12)
    ∷ answered 0 stamp (responded "first" 15)
    ∷ []

start_up-IsInOrder_example :
    (p : Program) × (start_up same default_config ≡ ok p) × IsInOrder default_config p
start_up-IsInOrder_example = start_up-IsInOrder same unset default_config load_unset

launch_fleet_lem_example :
    (map served_as (launch_fleet default_config) ≡ fleet_replicas default_config)
    × All (HasOwnPort default_config) (launch_fleet default_config)
    × (default_config.fleet_size ≡ pos (length (launch_fleet default_config)))
launch_fleet_lem_example = launch_fleet_lem default_config validate_default

running-IsSound_example :
    (p : Program) × (start_up same default_config ≡ ok p)
    × IsSound (settings_of p) (fleet_ids default_config) (run (settings_of p) (idle p.world) events)
running-IsSound_example = running-IsSound same unset default_config events load_unset

running-by_checks_example :
    (p : Program) × (start_up same default_config ≡ ok p)
    × (by_checks (run (settings_of p) (idle p.world) events).world.failovers
        ≡ all_owed (settings_of p) (idle p.world) events)
running-by_checks_example = running-by_checks same unset default_config events load_unset

-- A replica that answers the third probe, over a clock that each probe and the sleep after it move by 60 ms.
abbrev third_answers : ℕ → Bool
third_answers n = n == 2

abbrev ticks : ℕ → ℕ
ticks n = 60 * n

ticks_later : (n : ℕ) → ticks n + 50 ≤ ticks (n + 1)
ticks_later n = omega arith

wait_until_reachable-EndsAt_example :
    EndsAt third_answers ticks 5000 0
      (wait_until_reachable third_answers ticks (suc (suc (5000 / 50))) 0 5000)
wait_until_reachable-EndsAt_example =
    wait_until_reachable-EndsAt third_answers ticks ticks_later 0 5000 (omega arith)

third_probe : wait_until_reachable third_answers ticks 102 0 5000 ≡ reachable 2
unfolding wait_until_reachable probe_until
third_probe = refl
