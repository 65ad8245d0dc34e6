-- ===== src/Routing/Engine.antt =====
-- src/routing/engine.ts: one `route()` call over a snapshot of the registry. The engine's state is
-- the strategy instance it holds, if any; a call gives the result and the instance it leaves.
pub mod Pool
pub mod Laws
pub mod Partition
pub mod Rounds
use whyrouted.Prelude.{
  String, str_eq, Bool, true, false, not, ◌&&◌, ◌||◌, Option, none, some, List, [], ◌∷◌, ◌++◌, map,
  any, filter, if◌then◌else◌,
}
use whyrouted.Types.{ReplicaState, is_healthy, is_drained}
use whyrouted.Routing.Weights.{StrategyName, round_robin, least_loaded, latency_weighted}
use whyrouted.Routing.Score.{CandidateScore, ExcludedCandidate, unhealthy, already_tried, drained}
use whyrouted.Routing.Config.{RoutingConfig}
use whyrouted.Routing.Strategies.Dispatch.{RoutingStrategy, create_strategy, pick, score}

pub record Capture : Type 0 where
  pub strategy : StrategyName
  pub candidates : List CandidateScore
  pub excluded : List ExcludedCandidate

pub data RouteError : Type 0 where
  no_healthy_replicas no_routable_replica : RouteError

pub data RouteResult : Type 0 where
  picked : String → Capture → RouteResult
  failed : RouteError → Capture → RouteResult

abbrev pub is_same_name : StrategyName → StrategyName → Bool
is_same_name round_robin round_robin = true
is_same_name least_loaded least_loaded = true
is_same_name latency_weighted latency_weighted = true
is_same_name _ _ = false

-- The instance is kept while the configured name is its own.
unfoldable pub strategy_for : Option RoutingStrategy → StrategyName → RoutingStrategy
strategy_for none name = create_strategy name
strategy_for (some s) name = if is_same_name s.name name then s else create_strategy name

abbrev pub is_candidate : ReplicaState → Bool
is_candidate r = not (is_drained r.admin) && is_healthy r.runtime.health

abbrev pub is_filtered : ReplicaState → Bool
is_filtered r = is_drained r.admin || not (is_healthy r.runtime.health)

abbrev pub filtered_entry : ReplicaState → ExcludedCandidate
filtered_entry r = record {
  replica_id = r.id;
  reason = if is_drained r.admin then drained else unhealthy;
}

abbrev pub tried_entry : ReplicaState → ExcludedCandidate
tried_entry r = record { replica_id = r.id; reason = already_tried }

abbrev pub includes : List String → String → Bool
includes ids id = any (λ x. str_eq x id) ids

-- `exclude !== undefined && exclude.includes(id)`
abbrev pub is_tried : Option (List String) → ReplicaState → Bool
is_tried none r = false
is_tried (some exclude) r = includes exclude r.id

-- The loop that fills `excluded` and `pool`.
pub split_pool :
    Option (List String)
    → List ExcludedCandidate
    → List ReplicaState
    → List ReplicaState
    → List ExcludedCandidate × List ReplicaState
split_pool exclude excluded pool [] = (excluded, pool)
split_pool exclude excluded pool (r ∷ rs) =
    let tried = is_tried exclude r in
    split_pool exclude (if tried then excluded ++ tried_entry r ∷ [] else excluded)
      (if tried then pool else pool ++ r ∷ []) rs

abbrev result_of : Option String → Capture → RouteResult
result_of none capture = failed no_routable_replica capture
result_of (some id) capture = picked id capture

-- From the filled pool on. `score` runs on an empty pool too, and then nothing is picked.
pub route_pool :
    RoutingStrategy
    → RoutingConfig
    → List ExcludedCandidate
    → List ReplicaState
    → RouteResult × RoutingStrategy
route_pool s config excluded [] = (
  failed no_routable_replica
      (record { strategy = s.name; candidates = score s [] config.weights; excluded = excluded }),
  s,
)
route_pool s config excluded (r ∷ rs) =
    let pool = r ∷ rs in
    let capture : Capture = record {
      strategy = s.name;
      candidates = score s pool config.weights;
      excluded = excluded;
    } in
    let (id, next) = pick s pool config.weights in (result_of id capture, next)

route_healthy :
    Option RoutingStrategy
    → RoutingConfig
    → Option (List String)
    → List ExcludedCandidate
    → List ReplicaState
    → RouteResult × Option RoutingStrategy
route_healthy active config exclude excluded [] = (
  failed no_healthy_replicas
      (record { strategy = config.strategy_name; candidates = []; excluded = excluded }),
  active,
)
route_healthy active config exclude excluded (r ∷ rs) =
    let (all_excluded, pool) = split_pool exclude excluded [] (r ∷ rs) in
    let (result, next) =
      route_pool (strategy_for active config.strategy_name) config all_excluded pool in
    (result, some next)

unfoldable pub route :
    Option RoutingStrategy
    → RoutingConfig
    → List ReplicaState
    → Option (List String)
    → RouteResult × Option RoutingStrategy
unfolding route_healthy route_pool split_pool
route active config snapshot exclude =
    route_healthy active config exclude (map filtered_entry (filter is_filtered snapshot))
      (filter is_candidate snapshot)
