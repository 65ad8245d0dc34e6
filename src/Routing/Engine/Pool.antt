-- ===== src/Routing/Engine/Pool.antt =====
-- Routing/Engine/Pool: the candidates of a round and the replicas left out, as plain filters of the
-- snapshot.
use whyrouted.Prelude.{
  String, not, Option, List, [], ◌∷◌, ◌++◌, map, filter, ◌≡◌, ◌∙◌, arith, Bool-cases, inl, inr,
  append_assoc, append-nil,
}
use whyrouted.Types.{ReplicaState}
use whyrouted.Routing.Score.{ExcludedCandidate}
use whyrouted.Routing.Engine.{
  is_candidate, is_filtered, is_tried, filtered_entry, tried_entry, split_pool,
}

-- What the strategy sees: active, healthy and not tried before.
abbrev pub pool : Option (List String) → List ReplicaState → List ReplicaState
pool exclude snapshot = filter (λ r. not (is_tried exclude r)) (filter is_candidate snapshot)

abbrev pub excluded : Option (List String) → List ReplicaState → List ExcludedCandidate
excluded exclude snapshot =
    map filtered_entry (filter is_filtered snapshot)
    ++ map tried_entry (filter (is_tried exclude) (filter is_candidate snapshot))

pub split_pool_lem :
    (exclude : Option (List String)) (out : List ExcludedCandidate) (acc rs : List ReplicaState)
    → split_pool exclude out acc rs ≡ (
      out ++ map tried_entry (filter (is_tried exclude) rs),
      acc ++ filter (λ r. not (is_tried exclude r)) rs,
    )
unfolding split_pool
split_pool_lem exclude out acc [] = ground (arith, append-nil out, append-nil acc)
split_pool_lem exclude out acc (r ∷ rs) = elim (Bool-cases (is_tried exclude r)) [
  | inl e ↦ rw e (split_pool_lem exclude (out ++ tried_entry r ∷ []) acc rs ∙ rw append_assoc)
  | inr e ↦ rw e (split_pool_lem exclude out (acc ++ r ∷ []) rs ∙ rw append_assoc)
]
