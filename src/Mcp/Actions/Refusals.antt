-- ===== src/Mcp/Actions/Refusals.antt =====
-- Mcp/Actions/Refusals: the wrapper over the actions. A refused action has written nothing, and `changed`
-- tells whether one that succeeded has.
use whyrouted.Prelude.{String, Bool, ◌≡◌, ap, subst, inl, inr}
use whyrouted.Types.{ReplicaAdmin}
use whyrouted.Registry.{Registry}
use whyrouted.Routing.Weights.{ScoringWeights, StrategyName}
use whyrouted.Routing.Config.{ConfigError, RoutingConfig}
use whyrouted.Mcp.Action.{ActionResult, refused, perform_action}
use whyrouted.Mcp.Actions.{
  ReplicaAdminState, Handled, set_replica_admin, set_routing_strategy, set_scoring_weights,
}
use whyrouted.Mcp.Actions.Laws.{
  set_replica_admin_lem, set_routing_strategy_lem, set_scoring_weights_lem,
}

-- The wrapped action was refused, whatever the reason.
abbrev pub IsRefused : {S : Type 0} → ActionResult S → Type 0
IsRefused (refused code reason) = Unit
IsRefused _ = ⊥

-- A refused action left the state `old`.
abbrev pub KeepsOnRefusal : {S T : Type 0} → (S → S → Bool) → String → T → Handled S T → Type 0
KeepsOnRefusal equal now old out = IsRefused (perform_action equal now out.0) → out.1 ≡ old

module _ (now : String) where
  -- Draining, restoring, setting the strategy and setting the weights: an action that is refused has
  -- changed neither the registry nor the routing config.
  pub refused-keeps :
      (same_admin : ReplicaAdminState → ReplicaAdminState → Bool)
      (same_name : StrategyName → StrategyName → Bool)
      (same_weights : ScoringWeights → ScoringWeights → Bool) (message : ConfigError → String)
      (store : Registry) (c : RoutingConfig) (id name : String) (target : ReplicaAdmin)
      (next : ScoringWeights)
      → KeepsOnRefusal same_admin now store (set_replica_admin store id target)
        × KeepsOnRefusal same_name now c (set_routing_strategy message c name)
        × KeepsOnRefusal same_weights now c (set_scoring_weights message c next)
  unfolding perform_action
  refused-keeps same_admin same_name same_weights message store c id name target next = (
    elim (set_replica_admin_lem store id target) [
      | inl (_, e) ↦ λ h. ap (λ (o : Handled ReplicaAdminState Registry). o.1) e
      | inr (r, new, _, _, e) ↦ λ h. absurd (
          subst
            (λ (o : Handled ReplicaAdminState Registry).
              IsRefused (perform_action same_admin now o.0))
            e h)
    ],
    elim (set_routing_strategy_lem message c name) [
      | inr (_, (_, e)) ↦ λ h. ap (λ (o : Handled StrategyName RoutingConfig). o.1) e
      | inl (s, _, e) ↦ λ h. absurd (
          subst
            (λ (o : Handled StrategyName RoutingConfig).
              IsRefused (perform_action same_name now o.0))
            e h)
    ],
    elim (set_scoring_weights_lem message c next) [
      | inr (_, (_, e)) ↦ λ h. ap (λ (o : Handled ScoringWeights RoutingConfig). o.1) e
      | inl (_, e) ↦ λ h. absurd (
          subst
            (λ (o : Handled ScoringWeights RoutingConfig).
              IsRefused (perform_action same_weights now o.0))
            e h)
    ],
  )
