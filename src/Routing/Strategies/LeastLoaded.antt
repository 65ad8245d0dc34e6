-- ===== src/Routing/Strategies/LeastLoaded.antt =====
-- src/routing/strategies/least-loaded.ts.
use whyrouted.Prelude.{
  ℕ, ◌≤◌, String, Option, none, some, List, [], ◌∷◌, map, ◌≡◌, refl, ap, ◌⊎◌, inl, inr, Memᴰ, All,
}
use whyrouted.Types.{ReplicaState}
use whyrouted.Routing.Score.{CandidateScore, score_entry}
use whyrouted.Routing.Strategies.Ranking.{
  best_of, IsBest, best_of-IsBest, IsBest-unique, IsBest-least, mem-map,
}

abbrev pub in_flight : ReplicaState → ℕ
in_flight c = c.runtime.in_flight

unfoldable pub pick : List ReplicaState → Option String
unfolding best_of
pick [] = none
pick (c ∷ cs) = some (best_of in_flight c cs).id

unfoldable pub score : List ReplicaState → List CandidateScore
score cs = map (λ c. score_entry c (in_flight c)) cs

-- Nothing is picked from no candidates only; otherwise the pick is the candidate with the fewest
-- requests in flight, and the lowest id among those.
pub pick-IsBest :
    (cs : List ReplicaState)
    → ((cs ≡ []) × (pick cs ≡ none))
      ⊎ ((r : ReplicaState) × (pick cs ≡ some r.id) × IsBest in_flight cs r)
unfolding pick
pick-IsBest [] = inl (refl, refl)
pick-IsBest (c ∷ cs) = inr (best_of in_flight c cs, refl, best_of-IsBest in_flight c cs)

-- The pick does not depend on the order of the candidates.
pub pick_order :
    (cs ds : List ReplicaState)
    → ((x : ReplicaState) → Memᴰ x cs → Memᴰ x ds)
    → ((x : ReplicaState) → Memᴰ x ds → Memᴰ x cs)
    → pick cs ≡ pick ds
unfolding pick
pick_order [] [] into back = refl
pick_order [] (d ∷ ds) into back = elim (back d (Memᴰ.head refl)) [ ]
pick_order (c ∷ cs) [] into back = elim (into c (Memᴰ.head refl)) [ ]
pick_order (c ∷ cs) (d ∷ ds) into back = ap some (
    IsBest-unique in_flight (c ∷ cs) (d ∷ ds) into back (best_of-IsBest in_flight c cs)
      (best_of-IsBest in_flight d ds))

-- `score` gives the picked candidate the lowest score.
pub pick-score :
    (c : ReplicaState) (cs : List ReplicaState)
    → (e : CandidateScore) × Memᴰ e (score (c ∷ cs))
      × (pick (c ∷ cs) ≡ some e.replica_id)
      × All (λ x. e.score ≤ x.score) (score (c ∷ cs))
unfolding pick score
pick-score c cs =
    let best = best_of-IsBest in_flight c cs in
    let r = best_of in_flight c cs in
    (
      score_entry r (in_flight r),
      mem-map (λ x. score_entry x (in_flight x)) best.listed,
      refl,
      IsBest-least in_flight (c ∷ cs) r best.least,
    )
