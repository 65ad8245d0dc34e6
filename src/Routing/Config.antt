-- ===== src/Routing/Config.antt =====
-- src/routing/config.ts: the live holder of the active strategy name and the scoring weights. A name
-- off the wire is a text; `STRATEGY_NAMES` is the domain of `strategy_named`.
pub mod Laws
use whyrouted.Prelude.{
  String, str_eq, Bool, true, not, ◌&&◌, Option, none, some, Result, ok, throw, ◌>>=◌,
  if◌then◌else◌,
}
use whyrouted.Routing.Weights.{
  Number, is_finite, is_negative, ScoringWeights, StrategyName, round_robin, least_loaded,
  latency_weighted,
}

pub data ConfigError : Type 0 where
  unknown_strategy : String → ConfigError
  bad_load_weight bad_latency_weight : Number → ConfigError

abbrev pub is_valid_weight : Number → Bool
is_valid_weight v = is_finite v && not (is_negative v)

-- The loop over the two weights, `loadWeight` first.
unfoldable pub assert_valid_weights : ScoringWeights → Result ConfigError (Unit {0})
assert_valid_weights w =
    if not (is_valid_weight w.load_weight)
    then throw (bad_load_weight w.load_weight)
    else if not (is_valid_weight w.latency_weight)
    then throw (bad_latency_weight w.latency_weight)
    else ok tt

abbrev pub name_text : StrategyName → String
name_text round_robin = "round-robin"
name_text least_loaded = "least-loaded"
name_text latency_weighted = "latency-weighted"

unfoldable pub strategy_named : String → Option StrategyName
strategy_named name =
    if str_eq name "round-robin"
    then some round_robin
    else if str_eq name "least-loaded"
    then some least_loaded
    else if str_eq name "latency-weighted"
    then some latency_weighted
    else none

abbrev name_or_throw : Option StrategyName → String → Result ConfigError StrategyName
name_or_throw none name = throw (unknown_strategy name)
name_or_throw (some s) name = ok s

unfoldable pub assert_valid_strategy_name : String → Result ConfigError StrategyName
assert_valid_strategy_name name = name_or_throw (strategy_named name) name

pub record RoutingConfig : Type 0 where
  pub strategy_name : StrategyName
  pub weights : ScoringWeights

unfoldable pub create_routing_config : String → ScoringWeights → Result ConfigError RoutingConfig
create_routing_config strategy weights = do
  name ← assert_valid_strategy_name strategy
  _ ← assert_valid_weights weights
  ok (record { strategy_name = name; weights = weights })

-- A setter gives the holder that it leaves.
unfoldable pub set_strategy_name : RoutingConfig → String → Result ConfigError RoutingConfig
set_strategy_name c name = do
  s ← assert_valid_strategy_name name
  ok (record c { strategy_name = s })

unfoldable pub set_weights : RoutingConfig → ScoringWeights → Result ConfigError RoutingConfig
set_weights c next = do _ ← assert_valid_weights next; ok (record c { weights = next })
