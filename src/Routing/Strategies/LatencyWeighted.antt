-- ===== src/Routing/Strategies/LatencyWeighted.antt =====
-- src/routing/strategies/latency-weighted.ts.
use whyrouted.Prelude.{
  ℕ, ◌+◌, ◌*◌, ◌≤◌, String, str_lt, Option, none, some, List, [], ◌∷◌, map, ◌≡◌, refl, ap, ◌⊎◌, inl,
  inr, Memᴰ, All, Bool, true, false, ltb, ◌==◌, ◌||◌, ◌&&◌, if◌then◌else◌, filter, filter-mem,
  mem-filter, Bool-cases,
}
use whyrouted.Prelude.{subst}
use whyrouted.Types.{ReplicaState}
use whyrouted.Routing.Weights.{ScoringWeights, value}
use whyrouted.Routing.Score.{CandidateScore, score_entry}
use whyrouted.Routing.Strategies.Ranking.{
  better, best_of, IsBest, best_of-IsBest, IsBest-unique, IsBest-least, mem-map,
}

-- `null` counts as 0 in a product; `pick` and `score` never come to it.
abbrev latency_or_zero : Option ℕ → ℕ
latency_or_zero none = 0
latency_or_zero (some ms) = ms

unfoldable pub score_of : ScoringWeights → ReplicaState → ℕ
score_of w c =
    value w.load_weight * c.runtime.in_flight
    + value w.latency_weight * latency_or_zero c.runtime.latency_ms

abbrev pub has_latency : ReplicaState → Bool
has_latency c = elim c.runtime.latency_ms [ none ↦ false | some ms ↦ true ]

abbrev pub scoreable : List ReplicaState → List ReplicaState
scoreable cs = filter has_latency cs

-- The loop, with the best candidate so far and its score.
pick_from : ScoringWeights → ReplicaState → ℕ → List ReplicaState → ReplicaState
pick_from w best best_score [] = best
pick_from w best best_score (c ∷ cs) =
    let candidate_score = score_of w c in
    let is_better =
      ltb candidate_score best_score || candidate_score == best_score && str_lt c.id best.id in
    pick_from w (if is_better then c else best) (if is_better then candidate_score else best_score)
      cs

pick_scoreable : ScoringWeights → List ReplicaState → Option String
pick_scoreable w [] = none
pick_scoreable w (c ∷ cs) = some (pick_from w c (score_of w c) cs).id

unfoldable pub pick : List ReplicaState → ScoringWeights → Option String
unfolding pick_scoreable pick_from score_of
pick cs w = pick_scoreable w (scoreable cs)

unfoldable pub score : List ReplicaState → ScoringWeights → List CandidateScore
score cs w = map (λ c. score_entry c (score_of w c)) (scoreable cs)

module _ (w : ScoringWeights) where
  pick_from-best_of :
      (best : ReplicaState) (cs : List ReplicaState)
      → pick_from w best (score_of w best) cs ≡ best_of (score_of w) best cs
  unfolding pick_from best_of better
  pick_from-best_of best [] = refl
  pick_from-best_of best (c ∷ cs) = elim (Bool-cases (better (score_of w) c best)) [
    | inl e ↦ rw (e) (pick_from-best_of c cs)
    | inr e ↦ rw (e) (pick_from-best_of best cs)
  ]

  pick_scoreable-IsBest :
      (cs : List ReplicaState)
      → ((cs ≡ []) × (pick_scoreable w cs ≡ none))
        ⊎ ((r : ReplicaState) × (pick_scoreable w cs ≡ some r.id) × IsBest (score_of w) cs r)
  unfolding pick_scoreable
  pick_scoreable-IsBest [] = inl (refl, refl)
  pick_scoreable-IsBest (c ∷ cs) = inr (
    best_of (score_of w) c cs,
    ap (λ (r : ReplicaState). some r.id) (pick_from-best_of c cs),
    best_of-IsBest (score_of w) c cs,
  )

  -- Nothing is picked exactly when no candidate has a latency; otherwise the pick is, among the
  -- candidates with a latency, the one of the lowest weighted score, and the lowest id among those.
  pub pick-IsBest-scoreable :
      (cs : List ReplicaState)
      → ((scoreable cs ≡ []) × (pick cs w ≡ none))
        ⊎ ((r : ReplicaState) × (pick cs w ≡ some r.id) × IsBest (score_of w) (scoreable cs) r)
  unfolding pick
  pick-IsBest-scoreable cs = pick_scoreable-IsBest (scoreable cs)

  -- When something is picked, `score` gives it the lowest score, and scores only candidates with a
  -- latency.
  pub pick-score :
      (cs : List ReplicaState) (id : String)
      → pick cs w ≡ some id
      → (e : CandidateScore) × Memᴰ e (score cs w)
        × (id ≡ e.replica_id)
        × All (λ x. e.score ≤ x.score) (score cs w)
  unfolding score
  pick-score cs id h = elim (pick-IsBest-scoreable cs) [
    | inl (_, e) ↦ cc
    | inr (r, e, best) ↦ (
      score_entry r (score_of w r),
      mem-map _ best.listed,
      cc,
      IsBest-least (score_of w) (scoreable cs) r best.least,
    )
  ]

  pick_scoreable_order :
      (cs ds : List ReplicaState)
      → ((x : ReplicaState) → Memᴰ x cs → Memᴰ x ds)
      → ((x : ReplicaState) → Memᴰ x ds → Memᴰ x cs)
      → pick_scoreable w cs ≡ pick_scoreable w ds
  pick_scoreable_order cs ds into back = elim (pick_scoreable-IsBest cs) [
    | inl (e, p) ↦ elim (pick_scoreable-IsBest ds) [
      | inl (_, q) ↦ cc
      | inr (r, _, best) ↦ elim (subst (λ l. Memᴰ r l) e (back r best.listed)) [ ]
    ]
    | inr (r, p, best) ↦ elim (pick_scoreable-IsBest ds) [
      | inl (e, _) ↦ elim (subst (λ l. Memᴰ r l) e (into r best.listed)) [ ]
      | inr (s, q, best') ↦ let e = IsBest-unique (score_of w) cs ds into back best best' in cc
    ]
  ]

  -- The pick does not depend on the order of the candidates.
  pub pick_order_scoreable :
      (cs ds : List ReplicaState)
      → ((x : ReplicaState) → Memᴰ x cs → Memᴰ x ds)
      → ((x : ReplicaState) → Memᴰ x ds → Memᴰ x cs)
      → pick cs w ≡ pick ds w
  unfolding pick
  pick_order_scoreable cs ds into back =
      pick_scoreable_order (scoreable cs) (scoreable ds) (keep cs ds into) (keep ds cs back)
    where
      keep :
          (xs ys : List ReplicaState)
          → ((x : ReplicaState) → Memᴰ x xs → Memᴰ x ys)
          → (x : ReplicaState) → Memᴰ x (scoreable xs)
          → Memᴰ x (scoreable ys)
      keep xs ys h x m =
          let (n, q) = filter-mem has_latency xs m in mem-filter has_latency ys (h x n) q
