-- ===== src/Mcp/Actions/Laws.antt =====
-- Mcp/Actions/Laws: what each action reports is what it did.
use whyrouted.Prelude.{
  String, str_eq_refl, none, some, [], ok, ◌≡◌, ◌≢◌, arith, ◌⊎◌, inl, inr, Option-cases,
}
use whyrouted.Types.{ReplicaAdmin, ReplicaState, healthy}
use whyrouted.Registry.{Registry, find, set_admin, with_admin}
use whyrouted.Registry.Laws.{update-Updates}
use whyrouted.Health.Scheduler.{counters_patch}
use whyrouted.Routing.Weights.{ScoringWeights, StrategyName}
use whyrouted.Routing.Config.{
  ConfigError, unknown_strategy, bad_load_weight, bad_latency_weight, RoutingConfig, name_text,
  strategy_named, set_weights,
}
use whyrouted.Routing.Config.Laws.{
  IsValidWeights, assert_valid_weights_lem, strategy_named-name_text, name_text_of_named,
  set_strategy_name_lem,
}
use whyrouted.Mcp.Action.{applied, failed, unknown_replica, invalid_input}
use whyrouted.Mcp.Actions.{
  admin_state, state_of, admin_notes, no_replica, set_replica_admin, set_routing_strategy,
  set_scoring_weights, weight_notes,
}

-- An admin action on an unregistered id is declined and writes nothing. On a registered one it makes
-- the one write and reports the replica before it and, read back from the registry, after it: with
-- the target intent, and the health as it was.
pub set_replica_admin_lem :
    (store : Registry) (id : String) (target : ReplicaAdmin)
    → ((find id store.replicas ≡ none)
        × (set_replica_admin store id target
            ≡ (ok (failed unknown_replica (no_replica id)), store)))
      ⊎ ((r : ReplicaState) × (next : Registry) × (find id store.replicas ≡ some r)
          × (set_admin store id target ≡ ok next)
          × (set_replica_admin store id target ≡ (
            ok (
                applied
                  (some (admin_state store id r))
                  (admin_state next id (with_admin target r))
                  (admin_notes target (admin_state next id (with_admin target r)))),
            next,
          )))
unfolding set_replica_admin state_of
set_replica_admin_lem store id target =
    elim (update-Updates store id (counters_patch 0 0) healthy target).2 [
      | inl (e, w) ↦ inl (e, rw e)
      | inr (next, w, _, law) ↦ elim (Option-cases (find id store.replicas)) [
        | inl e ↦ absurd (unfold set_admin in (ground (arith, e, w)))
        | inr (r, e) ↦
            let there : find id next.replicas ≡ some (with_admin target r) =
              ground (arith, law id, str_eq_refl id) in
            inr (r, next, e, w, rw (e, w, there))
      ]
    ]

-- `set_routing_strategy` sets each of the three names, keeps the weights, and reports the name before
-- and after; any other text is declined and nothing is written.
pub set_routing_strategy_lem :
    (message : ConfigError → String) (c : RoutingConfig) (name : String)
    → ((s : StrategyName) × (name ≡ name_text s)
        × (set_routing_strategy message c name ≡ (
          ok (applied (some c.strategy_name) s []),
          record { strategy_name = s; weights = c.weights },
        )))
      ⊎ (((s : StrategyName) → name ≢ name_text s)
          × ((reason : String) × (set_routing_strategy message c name
                ≡ (ok (failed invalid_input reason), c))))
unfolding set_routing_strategy
set_routing_strategy_lem message c name = elim (Option-cases (strategy_named name)) [
  | inl e ↦
      inr (
        (λ s q. ground (arith, strategy_named-name_text s)),
        (message (unknown_strategy name), rw e),
      )
  | inr (s, e) ↦ inl (
    s,
    name_text_of_named name s e,
    ground (arith, name_text_of_named name s e, (set_strategy_name_lem c).0 s),
  )
]

-- `set_scoring_weights` stores finite weights that are not negative and reports those before and
-- after, with a note unless the active strategy reads them; other weights are declined and nothing is
-- written.
pub set_scoring_weights_lem :
    (message : ConfigError → String) (c : RoutingConfig) (next : ScoringWeights)
    → (IsValidWeights next
        × (set_scoring_weights message c next ≡ (
          ok (applied (some c.weights) next (weight_notes message c.strategy_name)),
          record { strategy_name = c.strategy_name; weights = next },
        )))
      ⊎ ((¬ IsValidWeights next)
          × ((reason : String) × (set_scoring_weights message c next
                ≡ (ok (failed invalid_input reason), c))))
unfolding set_scoring_weights set_weights
set_scoring_weights_lem message c next = elim (assert_valid_weights_lem next) [
  | inl (v, e) ↦ inl (v, ground (arith, e))
  | inr (inl (n, e)) ↦ inr (λ v. n v.0, (message (bad_load_weight next.load_weight), rw e))
  | inr (inr (_, n, e)) ↦ inr (λ v. n v.1, (message (bad_latency_weight next.latency_weight), rw e))
]
