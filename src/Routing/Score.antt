-- ===== src/Routing/Score.antt =====
-- src/routing/types.ts: the score of a candidate, and the reasons of an exclusion.
use whyrouted.Prelude.{ℕ, String, Option}
use whyrouted.Types.{ReplicaState}

-- `considered` is the constant `true` and is left out.
pub record CandidateScore : Type 0 where
  pub replica_id : String
  pub in_flight : ℕ
  pub latency_ms : Option ℕ
  pub score : ℕ

pub data ExclusionReason : Type 0 where
  unhealthy already_tried drained : ExclusionReason

pub record ExcludedCandidate : Type 0 where
  pub replica_id : String
  pub reason : ExclusionReason

abbrev pub score_entry : ReplicaState → ℕ → CandidateScore
score_entry c n = record {
  replica_id = c.id;
  in_flight = c.runtime.in_flight;
  latency_ms = c.runtime.latency_ms;
  score = n;
}
