-- ===== src/Routing/Engine/Rounds.antt =====
-- Routing/Engine/Rounds: the strategy instance lives on from round to round.
use whyrouted.Prelude.{
  ℕ, zero, suc, ◌<◌, String, not, Option, none, some, List, [], ◌∷◌, length, get_elem?, filter, ◌≡◌,
  refl, sym, ap, ◌∙◌, inl, inr,
}
use whyrouted.Types.{ReplicaState}
use whyrouted.Routing.Weights.{ScoringWeights, round_robin}
use whyrouted.Routing.Config.{RoutingConfig}
use whyrouted.Routing.Strategies.Dispatch.{RoutingStrategy, pick-round_robin}
use whyrouted.Routing.Strategies.RoundRobin
use whyrouted.Routing.Engine.{
  Capture, result_of, RouteResult, picked, failed, route, strategy_for, is_tried,
}
use whyrouted.Routing.Engine.Pool.{pool}
use whyrouted.Routing.Engine.Laws.{route_cases}

abbrev pub picked_id : RouteResult → Option String
picked_id (picked id capture) = some id
picked_id (failed e capture) = none

-- Rounds in a row over one snapshot, with nothing excluded: the ids picked.
unfoldable pub rounds :
    ℕ → Option RoutingStrategy → RoutingConfig → List ReplicaState → List (Option String)
rounds zero held config snapshot = []
rounds (suc k) held config snapshot =
    let (result, next) = route held config snapshot none in
    picked_id result ∷ rounds k next config snapshot

picked_id-result_of : (o : Option String) (c : Capture) → picked_id (result_of o c) ≡ o
picked_id-result_of none c = refl
picked_id-result_of (some id) c = refl

cons-ne-nil : {c : ReplicaState} {cs : List ReplicaState} → ¬ (c ∷ cs ≡ [])
cons-ne-nil e = cc

module _ (w : ScoringWeights) (snapshot : List ReplicaState) where
  abbrev pub cycling : RoutingConfig
  cycling = record { strategy_name = round_robin; weights = w }

  abbrev pub at_cursor : ℕ → Option RoutingStrategy
  at_cursor n = some (record { name = round_robin; cursor = n })

  route-cycling :
      (n : ℕ) (c : ReplicaState) (cs : List ReplicaState)
      → pool none snapshot ≡ c ∷ cs
      → (picked_id (route (at_cursor n) cycling snapshot none).0 ≡ (RoundRobin.pick n (c ∷ cs)).0)
        × ((route (at_cursor n) cycling snapshot none).1 ≡ at_cursor (RoundRobin.pick n (c ∷ cs)).1)
  unfolding strategy_for
  route-cycling n c cs e = elim (route_cases (at_cursor n) cycling snapshot none) [
    | inl (empty, _) ↦ absurd (cons-ne-nil (sym e ∙ ap (filter (λ r. not (is_tried none r))) empty))
    | inr (_, q) ↦ rw (q, e, pick-round_robin n (c ∷ cs) w) (picked_id-result_of _ _, refl)
  ]

  rounds-picks :
      (k n : ℕ) (c : ReplicaState) (cs : List ReplicaState)
      → pool none snapshot ≡ c ∷ cs
      → rounds k (at_cursor n) cycling snapshot ≡ RoundRobin.picks k n (c ∷ cs)
  unfolding rounds RoundRobin.picks
  rounds-picks zero n c cs e = refl
  rounds-picks (suc k) n c cs e =
      let (p, q) = route-cycling n c cs e in
      rw (p, q) (rw (rounds-picks k (RoundRobin.pick n (c ∷ cs)).1 c cs e))

  -- Under round-robin, over a snapshot that stays as it is and with nothing excluded, the rounds from
  -- any cursor pick each replica of the pool, whose ids differ, exactly once in as many rounds as the
  -- pool has replicas.
  pub rounds_fair :
      (n i : ℕ) (d : ReplicaState)
      → RoundRobin.HasDistinctIds (pool none snapshot)
      → get_elem? (pool none snapshot) i ≡ some d
      → let out = rounds (length (pool none snapshot)) (at_cursor n) cycling snapshot in
        (s : ℕ) × (s < length (pool none snapshot))
        × (get_elem? out s ≡ some (some d.id))
        × ((j : ℕ) → j < length (pool none snapshot) → get_elem? out j ≡ some (some d.id) → j ≡ s)
  rounds_fair n i d distinct h = go (pool none snapshot) refl distinct h
    where
      go :
          (cs : List ReplicaState)
          → pool none snapshot ≡ cs
          → RoundRobin.HasDistinctIds cs
          → get_elem? cs i ≡ some d
          → let out = rounds (length (pool none snapshot)) (at_cursor n) cycling snapshot in
            (s : ℕ) × (s < length (pool none snapshot))
            × (get_elem? out s ≡ some (some d.id))
            × ((j : ℕ)
                → j < length (pool none snapshot)
                → get_elem? out j ≡ some (some d.id)
                → j ≡ s)
      go [] e k p = cc
      go (c ∷ cs) e k p =
          let (entry, _, _, small, hit, only) = RoundRobin.score-picks n i (c ∷ cs) d k p in
          rw (e, rounds-picks (length (c ∷ cs)) n c cs e) (entry.score, small, hit, only)
