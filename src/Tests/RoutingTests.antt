-- ===== src/Tests/RoutingTests.antt =====
-- The strategies, the config holder and the engine.
use whyrouted.Prelude.{
  ℕ, zero, suc, str_eq_iff, ◌<◌, String, Option, none, some, List, [], ◌∷◌, ◌≡◌, ◌⊎◌, refl, arith,
  get_elem?, Memᴰ, All,
}
use whyrouted.Routing.Weights.{round_robin, nan, units, below, ScoringWeights, latency_weighted}
use whyrouted.Routing.Config.{
  assert_valid_weights, create_routing_config, RoutingConfig, strategy_named,
  assert_valid_strategy_name,
}
use whyrouted.Routing.Config.Laws as ConfigLaws
use whyrouted.Routing.Config.Laws.{
  IsUnits, IsValidWeights, assert_valid_weights_lem, set_strategy_name_lem, created-IsValidWeights,
  writes, strategy,
}
use whyrouted.Routing.Strategies.LeastLoaded
use whyrouted.Routing.Strategies.LatencyWeighted
use whyrouted.Routing.Strategies.RoundRobin
use whyrouted.Routing.Strategies.Dispatch
use whyrouted.Routing.Engine.{Capture, RouteResult, picked, route, strategy_for}
use whyrouted.Routing.Engine.Pool.{pool, excluded}
use whyrouted.Routing.Engine.Laws.{
  decided, nothing_healthy, NothingHealthy, IsPool, IsInstance, route_lem, IsEligible, route-picks,
  route_total,
}
use whyrouted.Routing.Engine.Partition.{IsExplained, excluded-IsExplained}
use whyrouted.Routing.Engine.Rounds.{rounds, at_cursor, cycling, rounds_fair}
use whyrouted.Tests.Fixtures.{fleet, busy, idle}

abbrev even_weights : ScoringWeights
even_weights = record { load_weight = units 1; latency_weight = units 1 }

abbrev by_latency : RoutingConfig
by_latency = record { strategy_name = latency_weighted; weights = even_weights }

engine : Unit {0}
unfolding route strategy_for Dispatch.pick Dispatch.score Dispatch.create_strategy RoundRobin.pick
    RoundRobin.score LeastLoaded.pick LeastLoaded.score LatencyWeighted.pick LatencyWeighted.score
engine = tt

-- The busy replica answers faster: 5 + 4 is less than 1 + 30.
least_loaded_pick : LeastLoaded.pick fleet ≡ some "replica-3"
unfolding LeastLoaded.pick
least_loaded_pick = refl

latency_weighted_pick : LatencyWeighted.pick fleet even_weights ≡ some "replica-1"
unfolding LatencyWeighted.pick
latency_weighted_pick = refl

abbrev round : RouteResult
round = (route none by_latency fleet (some ("replica-1" ∷ []))).0

abbrev report : Capture
report = record {
  strategy = latency_weighted;
  candidates = Dispatch.score (strategy_for none latency_weighted) (idle ∷ []) even_weights;
  excluded = excluded (some ("replica-1" ∷ [])) fleet;
}

round_picks : round ≡ picked "replica-2" report
unfolding engine
round_picks = refl

pick-IsLowest_example :
    Dispatch.IsLowest "replica-1"
      (Dispatch.score (Dispatch.create_strategy latency_weighted) fleet even_weights)
unfolding engine
pick-IsLowest_example =
    Dispatch.pick-IsLowest (Dispatch.create_strategy latency_weighted) fleet even_weights
      "replica-1" refl

pair_distinct : RoundRobin.HasDistinctIds (busy ∷ idle ∷ [])
pair_distinct zero zero c d p q e = refl
pair_distinct zero (suc zero) c d p q e = ground (arith, str_eq_iff "replica-1" "replica-2")
pair_distinct zero (suc (suc j)) c d p q e = cc
pair_distinct (suc zero) zero c d p q e = ground (arith, str_eq_iff "replica-2" "replica-1")
pair_distinct (suc zero) (suc zero) c d p q e = refl
pair_distinct (suc zero) (suc (suc j)) c d p q e = cc
pair_distinct (suc (suc i)) j c d p q e = cc

abbrev odd_weights : ScoringWeights
odd_weights = record { load_weight = below 2; latency_weight = nan }

created-IsValidWeights_example :
    IsValidWeights
      (writes by_latency (ConfigLaws.weights odd_weights ∷ strategy "round-robin" ∷ [])).weights
unfolding create_routing_config assert_valid_strategy_name strategy_named assert_valid_weights
created-IsValidWeights_example =
    created-IsValidWeights "latency-weighted" even_weights by_latency
      (ConfigLaws.weights odd_weights ∷ strategy "round-robin" ∷ []) refl

abbrev tried_first : Option (List String)
tried_first = some ("replica-1" ∷ [])

abbrev held_other : Option Dispatch.RoutingStrategy
held_other = some (record { name = round_robin; cursor = 5 })

route_lem_example :
    (NothingHealthy tried_first fleet
      × (route held_other by_latency fleet tried_first
          ≡ nothing_healthy held_other by_latency (excluded tried_first fleet)))
    ⊎ ((¬ NothingHealthy tried_first fleet)
        × IsPool tried_first fleet (pool tried_first fleet)
        × (s : Dispatch.RoutingStrategy) × IsInstance held_other latency_weighted s
        × (route held_other by_latency fleet tried_first
            ≡ decided held_other by_latency s
                (pool tried_first fleet)
                (excluded tried_first fleet)))
route_lem_example = route_lem tried_first fleet held_other by_latency

route-picks_example :
    IsEligible fleet tried_first "replica-2" × Dispatch.IsLowest "replica-2" report.candidates
route-picks_example = route-picks tried_first fleet none by_latency "replica-2" report round_picks

abbrev idle_eligible : IsEligible fleet tried_first "replica-2"
idle_eligible = record {
  replica = idle;
  listed = Memᴰ.tail (Memᴰ.head refl);
  same_id = refl;
  is_active = refl;
  is_healthy = refl;
  untried = refl;
}

route_total_example :
    (picked_id : String) × (capture : Capture) × ((route none by_latency fleet tried_first).0
      ≡ picked picked_id capture)
route_total_example = route_total tried_first fleet none by_latency "replica-2" idle_eligible refl

excluded-IsExplained_example : All (IsExplained tried_first fleet) (excluded tried_first fleet)
excluded-IsExplained_example = excluded-IsExplained tried_first fleet

rounds_fair_example :
    (let out = rounds 2 (at_cursor even_weights fleet 7) (cycling even_weights fleet) fleet in
      (s : ℕ) × (s < 2)
      × (get_elem? out s ≡ some (some "replica-2"))
      × ((j : ℕ) → j < 2 → get_elem? out j ≡ some (some "replica-2") → j ≡ s))
rounds_fair_example = rounds_fair even_weights fleet 7 1 idle pair_distinct refl
