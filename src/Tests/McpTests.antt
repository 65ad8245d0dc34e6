-- ===== src/Tests/McpTests.antt =====
-- The tools, and the simulated replica that they break.
use whyrouted.Prelude.{
  ◌↔◌, ℕ, ◌+◌, ◌*◌, ◌<◌, ◌≤◌, length, filter, String, str_eq, true, false, Option, none, some, List,
  [], ◌∷◌, ◌≡◌, ◌≢◌, ◌⊎◌, refl, arith, Result, ok, Memᴰ, if◌then◌else◌,
}
use whyrouted.Types.{drained, ReplicaState, healthy}
use whyrouted.Registry.{Registry, find, set_admin, with_admin}
use whyrouted.Registry.Laws as RegistryLaws
use whyrouted.Registry.Runs.{Call, sets_health, run}
use whyrouted.Routing.Weights.{units, nan, ScoringWeights, least_loaded}
use whyrouted.Routing.Config.{ConfigError, RoutingConfig}
use whyrouted.Routing.Engine.{Capture, picked, route}
use whyrouted.Health.Scheduler.{get}
use whyrouted.Decisions.{Decision}
use whyrouted.Replica.{
  post_admin, Server, new_server, FaultMode, kill, fail_infer, revive, FaultState, Posted, answered,
  health, HealthAnswer, unavailable, infer_start, Started, rejected, running, infer_end, admin,
  report, inject,
}
use whyrouted.Replica as Replica
use whyrouted.Mcp.Action.{applied, failed, unknown_replica}
use whyrouted.Mcp.Actions.{
  admin_state, admin_notes, no_replica, set_replica_admin, drain_replica, set_routing_strategy,
  set_scoring_weights,
}
use whyrouted.Mcp.Actions.Laws.{set_replica_admin_lem}
use whyrouted.Mcp.Actions.Drain.{drained-stays_out}
use whyrouted.Mcp.Actions.Refusals.{KeepsOnRefusal, refused-keeps}
use whyrouted.Mcp.Faults.{
  note, is_known, simulate_failure, IsServedBy, IsFaulted, simulate_failure_lem,
}
use whyrouted.Mcp.Dispatch.{failover_log, ToolOutput, data_read}
use whyrouted.Mcp.Aggregate.{or_zero, p95, percent, nearest_rank, aggregate}
use whyrouted.Mcp.Aggregate.Percentile.{count_le, count_lt, nearest_rank_lem}
use whyrouted.Mcp.Aggregate.Laws.{is_served, is_served_by, latencies_of, sample_size, aggregate_lem}
use whyrouted.Mcp.Auth.{
  bearer_matches, bearer_group, bearer_letters, after_scheme, has_line_end, bearer_matches_iff,
}
use whyrouted.Tests.Fixtures.{fleet_registry, fleet}

set_replica_admin_lem_example :
    ((find "replica-1" fleet ≡ none)
      × (set_replica_admin fleet_registry "replica-1" drained
          ≡ (ok (failed unknown_replica (no_replica "replica-1")), fleet_registry)))
    ⊎ ((r : ReplicaState) × (next : Registry) × (find "replica-1" fleet ≡ some r)
        × (set_admin fleet_registry "replica-1" drained ≡ ok next)
        × (set_replica_admin fleet_registry "replica-1" drained ≡ (
          ok (
              applied
                (some (admin_state fleet_registry "replica-1" r))
                (admin_state next "replica-1" (with_admin drained r))
                (admin_notes drained (admin_state next "replica-1" (with_admin drained r)))),
          next,
        )))
set_replica_admin_lem_example = set_replica_admin_lem fleet_registry "replica-1" drained

fleet-IsValid : RegistryLaws.IsValid fleet_registry
unfolding find
fleet-IsValid = (refl, (refl, (refl, tt)))

abbrev weights : ScoringWeights
weights = record { load_weight = units 1; latency_weight = units 1 }

abbrev config : RoutingConfig
config = record { strategy_name = least_loaded; weights = weights }

abbrev empty_capture : Capture
empty_capture = record { strategy = least_loaded; candidates = []; excluded = [] }

abbrev recovery : List Call
recovery = sets_health "replica-1" healthy ∷ []

drained-stays_out_example :
    (route none config (run (drain_replica fleet_registry "replica-1").1 recovery).replicas none).0
    ≢ picked "replica-1" empty_capture
drained-stays_out_example =
    drained-stays_out fleet_registry "replica-1" fleet-IsValid recovery (tt, tt) none config none
      empty_capture

abbrev any_text : ConfigError → String
any_text e = "refused"

abbrev bad_weights : ScoringWeights
bad_weights = record { load_weight = nan; latency_weight = units 1 }

refused-keeps_example :
    KeepsOnRefusal
      (λ a b. false)
      "t1"
      fleet_registry
      (set_replica_admin fleet_registry "replica-9" drained)
    × KeepsOnRefusal (λ a b. false) "t1" config (set_routing_strategy any_text config "random")
    × KeepsOnRefusal (λ a b. false) "t1" config (set_scoring_weights any_text config bad_weights)
refused-keeps_example =
    refused-keeps "t1" (λ a b. false) (λ a b. false) (λ a b. false) any_text fleet_registry config
      "replica-9" "random" drained bad_weights

abbrev urls : List (String × String)
urls = ("replica-1", "http://127.0.0.1:8001") ∷ []

abbrev path_at : String → String
path_at url =
    if str_eq url "http://127.0.0.1:8001/admin/kill"
    then "/admin/kill"
    else if str_eq url "http://127.0.0.1:8001/admin/fail-infer"
    then "/admin/fail-infer"
    else "/admin/revive"

abbrev post : String → Posted
post url = (post_admin (path_at url) new_server).0

post-IsServedBy : IsServedBy post "http://127.0.0.1:8001" new_server
post-IsServedBy kill = refl
post-IsServedBy fail_infer = refl
post-IsServedBy revive = refl

url_known : get "replica-1" urls ≡ some "http://127.0.0.1:8001"
unfolding get
url_known = refl

abbrev quote : String → String
quote text = text

replica_known : is_known quote fleet_registry (some (inject urls post)) "replica-1" ≡ true
replica_known = refl

simulate_failure_lem_example :
    let s' = (post_admin (Replica.admin_path fail_infer) new_server).1 in
    (simulate_failure quote fleet_registry (some (inject urls post)) "replica-1" (some "fail_infer")
      ≡ ok (
          applied none
            (record { killed = s'.killed; infer_failing = s'.infer_failing })
            (note fail_infer ∷ [])))
    × IsFaulted fail_infer new_server s'
simulate_failure_lem_example =
    simulate_failure_lem quote fleet_registry urls post "replica-1" "http://127.0.0.1:8001"
      new_server fail_infer url_known post-IsServedBy replica_known

abbrev one_call : Server
one_call = record { in_flight = 1; killed = false; infer_failing = false }

one_call_running : infer_start new_server ≡ running one_call
unfolding infer_start
one_call_running = refl

abbrev read : Result String (ToolOutput ℕ)
read = ok (data_read 3 failover_log [])

abbrev sample : List ℕ
sample = 4 ∷ 7 ∷ 9 ∷ []

nearest_rank_lem_example :
    (v : ℕ) × (nearest_rank sample p95 ≡ some v)
    × Memᴰ v sample
    × (percent p95 * length sample ≤ 100 * count_le v sample)
    × (100 * count_lt v sample < percent p95 * length sample)
nearest_rank_lem_example =
    nearest_rank_lem sample p95 ((refl, (refl, tt)), ((refl, tt), (tt, tt))) (omega arith)

abbrev decision : Option String → Option ℕ → Decision
decision chosen latency = record {
  id = "d";
  request_id = "r";
  at = "t1";
  rounds = [];
  chosen_replica_id = chosen;
  latency_ms = latency;
}

abbrev decisions : List Decision
decisions = decision (some "replica-1") (some 4) ∷ decision none none ∷ []

aggregate_lem_example :
    (let a = aggregate decisions "t0" "t2" in
      (a.total ≡ 2)
      × (a.served ≡ length (filter is_served decisions))
      × (a.served + a.failed ≡ a.total)
      × (or_zero (get "replica-1" a.served_by_replica)
          ≡ length (filter (is_served_by "replica-1") decisions))
      × (sample_size a ≡ length (latencies_of decisions)))
aggregate_lem_example = aggregate_lem decisions "t0" "t2" "replica-1"

bearer_accepted : bearer_matches quote (some "BEARER abc") "abc" ≡ true
unfolding bearer_matches after_scheme has_line_end bearer_group
bearer_accepted = refl

bearer_matches_iff_example : (bearer_matches quote (some "Bearer abc") "abcd" ≡ true) ↔ (
    (¬ (◌≡◌ {A = String} "abcd" ""))
    × (has_line_end "abcd" ≡ false)
    × (after_scheme bearer_letters "Bearer abc" ≡ some "abcd"))
bearer_matches_iff_example = bearer_matches_iff quote "Bearer abc" "abcd" (λ a b e. e)
