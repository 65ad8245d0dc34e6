-- ===== src/Routing/Strategies/Dispatch.antt =====
-- src/routing/strategies/index.ts and the `RoutingStrategy` interface of src/routing/types.ts.
-- `createStrategy` throws on a name that is not in its table; a `StrategyName` always is.
use whyrouted.Prelude.{
  ℕ, ◌≤◌, String, Option, none, some, List, [], ◌∷◌, ◌≡◌, refl, sym, ap, arith, Memᴰ, All, inl, inr,
  filter-mem,
}
use whyrouted.Prelude.{subst, mem-filter, true}
use whyrouted.Types.{ReplicaState}
use whyrouted.Routing.Weights.{
  ScoringWeights, StrategyName, round_robin, least_loaded, latency_weighted,
}
use whyrouted.Routing.Score.{CandidateScore}
use whyrouted.Routing.Strategies.RoundRobin
use whyrouted.Routing.Strategies.LeastLoaded
use whyrouted.Routing.Strategies.LatencyWeighted

-- An instance; the cursor is read by round-robin alone.
pub record RoutingStrategy : Type 0 where
  pub name : StrategyName
  pub cursor : ℕ

unfoldable pub create_strategy : StrategyName → RoutingStrategy
create_strategy name = record { name = name; cursor = 0 }

pick_by : StrategyName → ℕ → List ReplicaState → ScoringWeights → Option String × ℕ
pick_by round_robin cursor cs w = RoundRobin.pick cursor cs
pick_by least_loaded cursor cs w = (LeastLoaded.pick cs, cursor)
pick_by latency_weighted cursor cs w = (LatencyWeighted.pick cs w, cursor)

-- The picked id, and the instance afterwards.
unfoldable pub pick :
    RoutingStrategy → List ReplicaState → ScoringWeights → Option String × RoutingStrategy
unfolding pick_by
pick s cs w = let (id, next) = pick_by s.name s.cursor cs w in (id, record s { cursor = next })

score_by : StrategyName → ℕ → List ReplicaState → ScoringWeights → List CandidateScore
score_by round_robin cursor cs w = RoundRobin.score cursor cs
score_by least_loaded cursor cs w = LeastLoaded.score cs
score_by latency_weighted cursor cs w = LatencyWeighted.score cs w

unfoldable pub score : RoutingStrategy → List ReplicaState → ScoringWeights → List CandidateScore
unfolding score_by
score s cs w = score_by s.name s.cursor cs w

-- `id` is that of a candidate.
abbrev pub IsAmong : String → List ReplicaState → Type 0
IsAmong id cs = (c : ReplicaState) × Memᴰ c cs × (c.id ≡ id)

-- `id` has the lowest of the scores.
abbrev pub IsLowest : String → List CandidateScore → Type 0
IsLowest id scores =
    (e : CandidateScore) × Memᴰ e scores × (e.replica_id ≡ id) × All (λ x. e.score ≤ x.score) scores

pick_by-IsAmong :
    (name : StrategyName) (cursor : ℕ) (cs : List ReplicaState) (w : ScoringWeights) (id : String)
    → (pick_by name cursor cs w).0 ≡ some id
    → IsAmong id cs
unfolding pick_by
pick_by-IsAmong round_robin cursor cs w id h = RoundRobin.pick-mem cursor cs id h
pick_by-IsAmong least_loaded cursor cs w id h = elim (LeastLoaded.pick-IsBest cs) [
  | inl (_, e) ↦ cc
  | inr (r, e, best) ↦ (r, best.listed, cc)
]
pick_by-IsAmong latency_weighted cursor cs w id h =
    elim (LatencyWeighted.pick-IsBest-scoreable w cs) [
      | inl (_, e) ↦ cc
      | inr (r, e, best) ↦ (r, (filter-mem LatencyWeighted.has_latency cs best.listed).0, cc)
    ]

-- A strategy picks one of the candidates.
pub pick-IsAmong :
    (s : RoutingStrategy) (cs : List ReplicaState) (w : ScoringWeights) (id : String)
    → (pick s cs w).0 ≡ some id
    → IsAmong id cs
unfolding pick
pick-IsAmong s cs w id h = pick_by-IsAmong s.name s.cursor cs w id h

pick_by-IsLowest :
    (name : StrategyName) (cursor : ℕ) (cs : List ReplicaState) (w : ScoringWeights) (id : String)
    → (pick_by name cursor cs w).0 ≡ some id
    → IsLowest id (score_by name cursor cs w)
unfolding pick_by score_by
pick_by-IsLowest round_robin cursor cs w id h = RoundRobin.pick-score cursor cs id h
pick_by-IsLowest least_loaded cursor [] w id h = unfold LeastLoaded.pick in cc
pick_by-IsLowest least_loaded cursor (c ∷ cs) w id h =
    let (e, m, p, low) = LeastLoaded.pick-score c cs in (e, m, cc, low)
pick_by-IsLowest latency_weighted cursor cs w id h =
    let (e, m, p, low) = LatencyWeighted.pick-score w cs id h in (e, m, sym p, low)

-- Whatever the strategy, `score` on the same instance gives the candidate that `pick` returns the
-- lowest score.
pub pick-IsLowest :
    (s : RoutingStrategy) (cs : List ReplicaState) (w : ScoringWeights) (id : String)
    → (pick s cs w).0 ≡ some id
    → IsLowest id (score s cs w)
unfolding pick score
pick-IsLowest s cs w id h = pick_by-IsLowest s.name s.cursor cs w id h

pick_by-nil :
    (name : StrategyName) (cursor : ℕ) (w : ScoringWeights)
    → pick_by name cursor [] w ≡ (none, cursor)
unfolding pick_by RoundRobin.pick LeastLoaded.pick LatencyWeighted.pick
pick_by-nil round_robin cursor w = refl
pick_by-nil least_loaded cursor w = refl
pick_by-nil latency_weighted cursor w = refl

-- From no candidates nothing is picked, and the instance is as it was.
pub pick-nil : (s : RoutingStrategy) (w : ScoringWeights) → pick s [] w ≡ (none, s)
unfolding pick
pick-nil s w = ground (arith, pick_by-nil s.name s.cursor w)

-- Round-robin and least-loaded pick from any candidates; latency-weighted needs one with a latency.
abbrev pub IsPickable : StrategyName → ReplicaState → Type 0
IsPickable latency_weighted c = LatencyWeighted.has_latency c ≡ true
IsPickable _ c = Unit

pick_by_total :
    (name : StrategyName) (cursor : ℕ) (cs : List ReplicaState) (w : ScoringWeights)
    {c : ReplicaState}
    → Memᴰ c cs
    → IsPickable name c
    → (id : String) × ((pick_by name cursor cs w).0 ≡ some id)
unfolding pick_by
pick_by_total round_robin cursor [] w m h = elim m [ ]
pick_by_total round_robin cursor (d ∷ cs) w m h =
    let (e, _, p) = RoundRobin.pick_lem cursor d cs in (e.id, ap (λ (q : Option String × ℕ). q.0) p)
pick_by_total least_loaded cursor cs w m h = elim (LeastLoaded.pick-IsBest cs) [
  | inl (e, _) ↦ elim (subst (Memᴰ _) e m) [ ]
  | inr (r, e, _) ↦ (r.id, e)
]
pick_by_total latency_weighted cursor cs w m h = elim (LatencyWeighted.pick-IsBest-scoreable w cs) [
  | inl (e, _) ↦ elim (subst (Memᴰ _) e (mem-filter LatencyWeighted.has_latency cs m h)) [ ]
  | inr (r, e, _) ↦ (r.id, e)
]

-- With a pickable candidate a strategy picks.
pub pick_total :
    (s : RoutingStrategy) (cs : List ReplicaState) (w : ScoringWeights) {c : ReplicaState}
    → Memᴰ c cs
    → IsPickable s.name c
    → (id : String) × ((pick s cs w).0 ≡ some id)
unfolding pick
pick_total s cs w m h = pick_by_total s.name s.cursor cs w m h

-- A pick keeps the name.
pub pick-name :
    (s : RoutingStrategy) (cs : List ReplicaState) (w : ScoringWeights)
    → (pick s cs w).1.name ≡ s.name
unfolding pick
pick-name s cs w = refl

pub pick-round_robin :
    (n : ℕ) (cs : List ReplicaState) (w : ScoringWeights)
    → pick (record { name = round_robin; cursor = n }) cs w
      ≡ ((RoundRobin.pick n cs).0, record { name = round_robin; cursor = (RoundRobin.pick n cs).1 })
unfolding pick pick_by
pick-round_robin n cs w = refl
