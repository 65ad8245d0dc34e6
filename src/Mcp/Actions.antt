-- ===== src/Mcp/Actions.antt =====
-- src/mcp/tools/: the actions on the registry (replica-admin.ts, drain-replica.ts, restore-replica.ts) and
-- on the routing config (set-routing-strategy.ts, set-scoring-weights.ts). A handler gives what it
-- returned or threw and the state it leaves. The text of a config error is an argument, since it
-- prints a value with JSON.stringify.
pub mod Laws
pub mod Drain
pub mod Refusals
use whyrouted.Prelude.{
  ℕ, ◌==◌, String, str_append, Bool, true, false, not, ◌&&◌, Option, none, some, List, [], ◌∷◌,
  ◌++◌, filter, length, if◌then◌else◌, Result, ok, throw,
}
use whyrouted.Types.{
  ReplicaAdmin, active, drained, ReplicaHealth, healthy, unhealthy, unknown, ReplicaState,
  is_healthy, is_drained,
}
use whyrouted.Registry.{
  Registry, RegistryError, already_registered, not_registered, find, set_admin,
}
use whyrouted.Routing.Weights.{
  ScoringWeights, StrategyName, latency_weighted, least_loaded, round_robin,
}
use whyrouted.Routing.Config.{
  ConfigError, unknown_strategy, RoutingConfig, name_text, strategy_named, assert_valid_weights,
  set_strategy_name, set_weights,
}
use whyrouted.Mcp.Action.{ActionOutput, applied, failed, unknown_replica, invalid_input}

pub record ReplicaAdminState : Type 0 where
  pub replica_id : String
  pub admin : ReplicaAdmin
  pub health : ReplicaHealth
  pub routable : Bool
  pub routable_replicas : ℕ

abbrev pub is_routable : ReplicaState → Bool
is_routable r = not (is_drained r.admin) && is_healthy r.runtime.health

abbrev pub admin_state : Registry → String → ReplicaState → ReplicaAdminState
admin_state store id r = record {
  replica_id = id;
  admin = r.admin;
  health = r.runtime.health;
  routable = is_routable r;
  routable_replicas = length (filter is_routable store.replicas);
}

abbrev state_found : Registry → String → Option ReplicaState → Option ReplicaAdminState
state_found store id none = none
state_found store id (some r) = some (admin_state store id r)

unfoldable pub state_of : Registry → String → Option ReplicaAdminState
state_of store id = state_found store id (find id store.replicas)

abbrev health_text : ReplicaHealth → String
health_text healthy = "healthy"
health_text unhealthy = "unhealthy"
health_text unknown = "unknown"

unfoldable pub admin_notes : ReplicaAdmin → ReplicaAdminState → List String
admin_notes drained after =
    if after.routable_replicas == 0
    then "no replica is routable now: requests will fail until one is restored" ∷ []
    else []
admin_notes active after =
    if is_healthy after.health
    then []
    else str_append "still not routable: the replica is "
        (str_append (health_text after.health) ", and restoring clears only the drain")
      ∷ []

abbrev registry_message : RegistryError → String
registry_message (already_registered id) =
    str_append "replica \"" (str_append id "\" is already registered")
registry_message (not_registered id) =
    str_append "replica \"" (str_append id "\" is not registered")

-- What a handler gives: its result, and the state it leaves.
abbrev pub Handled : Type 0 → Type 0 → Type 0
Handled S T = Result String (ActionOutput S) × T

abbrev after_read :
    Registry
    → String
    → ReplicaAdmin
    → ReplicaAdminState
    → Option ReplicaAdminState
    → Handled ReplicaAdminState Registry
after_read next id target before none = (
  throw (str_append "replica \"" (str_append id "\" vanished from the registry during the update")),
  next,
)
after_read next id target before (some after) =
    (ok (applied (some before) after (admin_notes target after)), next)

abbrev after_write :
    Registry
    → String
    → ReplicaAdmin
    → ReplicaAdminState
    → Result RegistryError Registry
    → Handled ReplicaAdminState Registry
after_write store id target before (throw e) = (throw (registry_message e), store)
after_write store id target before (ok next) = after_read next id target before (state_of next id)

abbrev pub no_replica : String → String
no_replica id = str_append "no replica with id \"" (str_append id "\" is registered")

abbrev set_found :
    Registry → String → ReplicaAdmin → Option ReplicaAdminState → Handled ReplicaAdminState Registry
set_found store id target none = (ok (failed unknown_replica (no_replica id)), store)
set_found store id target (some before) =
    after_write store id target before (set_admin store id target)

unfoldable pub set_replica_admin :
    Registry → String → ReplicaAdmin → Handled ReplicaAdminState Registry
set_replica_admin store id target = set_found store id target (state_of store id)

unfoldable pub drain_replica : Registry → String → Handled ReplicaAdminState Registry
drain_replica store id = set_replica_admin store id drained

unfoldable pub restore_replica : Registry → String → Handled ReplicaAdminState Registry
restore_replica store id = set_replica_admin store id active

-- A setter in a handler: what it throws, the wrapper catches.
module _ (message : ConfigError → String) where
  abbrev strategy_written :
      RoutingConfig → Result ConfigError RoutingConfig → Handled StrategyName RoutingConfig
  strategy_written c (throw e) = (throw (message e), c)
  strategy_written c (ok next) = (ok (applied (some c.strategy_name) next.strategy_name []), next)

  abbrev strategy_checked :
      RoutingConfig → String → Option StrategyName → Handled StrategyName RoutingConfig
  strategy_checked c name none = (ok (failed invalid_input (message (unknown_strategy name))), c)
  strategy_checked c name (some s) = strategy_written c (set_strategy_name c name)

  unfoldable pub set_routing_strategy : RoutingConfig → String → Handled StrategyName RoutingConfig
  set_routing_strategy c name = strategy_checked c name (strategy_named name)

  unfoldable pub weight_notes : StrategyName → List String
  weight_notes latency_weighted = []
  weight_notes least_loaded =
      "the active strategy is least-loaded, which does not use scoring weights: they are stored but have no effect until latency-weighted is active"
      ∷ []
  weight_notes round_robin =
      "the active strategy is round-robin, which does not use scoring weights: they are stored but have no effect until latency-weighted is active"
      ∷ []

  abbrev weights_written :
      RoutingConfig → Result ConfigError RoutingConfig → Handled ScoringWeights RoutingConfig
  weights_written c (throw e) = (throw (message e), c)
  weights_written c (ok next) =
      (ok (applied (some c.weights) next.weights (weight_notes next.strategy_name)), next)

  abbrev weights_checked :
      RoutingConfig
      → ScoringWeights
      → Result ConfigError (Unit {0})
      → Handled ScoringWeights RoutingConfig
  weights_checked c next (throw e) = (ok (failed invalid_input (message e)), c)
  weights_checked c next (ok u) = weights_written c (set_weights c next)

  unfoldable pub set_scoring_weights :
      RoutingConfig → ScoringWeights → Handled ScoringWeights RoutingConfig
  set_scoring_weights c next = weights_checked c next (assert_valid_weights next)
