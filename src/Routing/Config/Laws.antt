-- ===== src/Routing/Config/Laws.antt =====
-- Routing/Config/Laws: the holder never has an invalid weight, and what each setter changes.
use whyrouted.Prelude.{
  String, str_eq_iff, true, false, some, Result, ok, throw, ◌≡◌, ◌≢◌, refl, arith, ◌⊎◌, inl, inr,
  List, [], ◌∷◌, Bool-cases, Option-cases,
}
use whyrouted.Routing.Weights.{
  Number, units, value, ScoringWeights, StrategyName, round_robin, least_loaded, latency_weighted,
}
use whyrouted.Routing.Config.{
  ConfigError, unknown_strategy, bad_load_weight, bad_latency_weight, is_valid_weight,
  assert_valid_weights, name_text, strategy_named, assert_valid_strategy_name, RoutingConfig,
  create_routing_config, set_strategy_name, set_weights,
}

-- Finite and at least 0: a number of units.
abbrev pub IsUnits : Number → Type 0
IsUnits v = v ≡ units (value v)

abbrev pub IsValidWeights : ScoringWeights → Type 0
IsValidWeights w = IsUnits w.load_weight × IsUnits w.latency_weight

valid-IsUnits : (v : Number) → is_valid_weight v ≡ true → IsUnits v
valid-IsUnits v h = ground arith

invalid-not_IsUnits : (v : Number) → is_valid_weight v ≡ false → ¬ IsUnits v
invalid-not_IsUnits v h = ground arith

-- The check passes exactly when both weights are finite and not negative; otherwise it throws, and
-- names `loadWeight` if that one is at fault, whatever the other is.
pub assert_valid_weights_lem :
    (w : ScoringWeights)
    → (IsValidWeights w × (assert_valid_weights w ≡ ok tt))
      ⊎ ((¬ IsUnits w.load_weight)
          × (assert_valid_weights w ≡ throw (bad_load_weight w.load_weight)))
      ⊎ (IsUnits w.load_weight
          × (¬ IsUnits w.latency_weight)
          × (assert_valid_weights w ≡ throw (bad_latency_weight w.latency_weight)))
unfolding assert_valid_weights
assert_valid_weights_lem w = elim (Bool-cases (is_valid_weight w.load_weight)) [
  | inr e ↦ inr (inl (invalid-not_IsUnits w.load_weight e, rw e))
  | inl e ↦ elim (Bool-cases (is_valid_weight w.latency_weight)) [
    | inr f ↦
        inr (inr (valid-IsUnits w.load_weight e, invalid-not_IsUnits w.latency_weight f, rw (e, f)))
    | inl f ↦ inl ((valid-IsUnits w.load_weight e, valid-IsUnits w.latency_weight f), rw (e, f))
  ]
]

pub strategy_named-name_text : (s : StrategyName) → strategy_named (name_text s) ≡ some s
unfolding strategy_named
strategy_named-name_text round_robin = refl
strategy_named-name_text least_loaded = refl
strategy_named-name_text latency_weighted = refl

pub name_text_of_named :
    (name : String) (s : StrategyName) → strategy_named name ≡ some s → name ≡ name_text s
unfolding strategy_named
name_text_of_named name s h = ground (
  arith,
  str_eq_iff name "round-robin",
  str_eq_iff name "least-loaded",
  str_eq_iff name "latency-weighted",
)

-- `setStrategyName` accepts exactly the three names, keeps the weights, and is read back as set;
-- on any other text it throws.
pub set_strategy_name_lem :
    (c : RoutingConfig)
    → ((s : StrategyName)
        → set_strategy_name c (name_text s)
          ≡ ok (record { strategy_name = s; weights = c.weights }))
      × ((name : String)
          → ((s : StrategyName) → name ≢ name_text s)
          → set_strategy_name c name ≡ throw (unknown_strategy name))
unfolding set_strategy_name assert_valid_strategy_name
set_strategy_name_lem c = (
  λ s. rw (strategy_named-name_text s),
  λ name other. elim (Option-cases (strategy_named name)) [
    | inl e ↦ rw e
    | inr (s, e) ↦ absurd (other s (name_text_of_named name s e))
  ],
)

pub data Write : Type 0 where
  strategy : String → Write
  weights : ScoringWeights → Write

abbrev pub after : RoutingConfig → Result ConfigError RoutingConfig → RoutingConfig
after c (ok next) = next
after c (throw e) = c

-- Any sequence of writes; one that throws leaves the holder as it was.
unfoldable pub writes : RoutingConfig → List Write → RoutingConfig
writes c [] = c
writes c (strategy name ∷ ws) = writes (after c (set_strategy_name c name)) ws
writes c (weights w ∷ ws) = writes (after c (set_weights c w)) ws

set_strategy_name-IsValidWeights :
    (c : RoutingConfig) (name : String)
    → IsValidWeights c.weights
    → IsValidWeights (after c (set_strategy_name c name)).weights
unfolding set_strategy_name assert_valid_strategy_name
set_strategy_name-IsValidWeights c name v = ground arith

set_weights-IsValidWeights :
    (c : RoutingConfig) (w : ScoringWeights)
    → IsValidWeights c.weights
    → IsValidWeights (after c (set_weights c w)).weights
unfolding set_weights
set_weights-IsValidWeights c w v = elim (assert_valid_weights_lem w) [
  | inl (h, e) ↦ rw (e, set_weights) h
  | inr (inl (_, e)) ↦ rw (e, set_weights) v
  | inr (inr (_, _, e)) ↦ rw (e, set_weights) v
]

writes-IsValidWeights :
    (c : RoutingConfig) (ws : List Write)
    → IsValidWeights c.weights
    → IsValidWeights (writes c ws).weights
unfolding writes
writes-IsValidWeights c [] v = v
writes-IsValidWeights c (strategy name ∷ ws) v =
    writes-IsValidWeights (after c (set_strategy_name c name)) ws
      (set_strategy_name-IsValidWeights c name v)
writes-IsValidWeights c (weights w ∷ ws) v =
    writes-IsValidWeights (after c (set_weights c w)) ws (set_weights-IsValidWeights c w v)

create-IsValidWeights :
    (name : String) (w : ScoringWeights) (c : RoutingConfig)
    → create_routing_config name w ≡ ok c
    → IsValidWeights c.weights
unfolding create_routing_config assert_valid_strategy_name
create-IsValidWeights name w c h = ground (arith, assert_valid_weights_lem w)

-- A holder that was created has valid weights, and keeps valid weights through any writes.
pub created-IsValidWeights :
    (name : String) (w : ScoringWeights) (c : RoutingConfig) (ws : List Write)
    → create_routing_config name w ≡ ok c
    → IsValidWeights (writes c ws).weights
created-IsValidWeights name w c ws h = writes-IsValidWeights c ws (create-IsValidWeights name w c h)
