-- ===== src/Decisions.antt =====
-- src/decisions/types.ts and src/decisions/decision-log.ts: the record of each routed request. The log is
-- the list of its decisions as recorded.
pub mod Laws
use whyrouted.Prelude.{ℕ, String, str_eq, Option, List, [], ◌∷◌, ◌++◌, find?}
use whyrouted.Adapter.{ReplicaErrorKind}
use whyrouted.Routing.Weights.{StrategyName}
use whyrouted.Routing.Score.{CandidateScore, ExcludedCandidate}
use whyrouted.Timeline
use whyrouted.Timeline.{Range}

pub record FailureReason : Type 0 where
  pub kind : ReplicaErrorKind
  pub status : Option ℕ

-- `pickedReplicaId` is there exactly when the outcome is `picked`, and is its field.
pub data RoundOutcome : Type 0 where
  picked : String → RoundOutcome
  no_routable_replica no_healthy_replicas : RoundOutcome

pub record DecisionRound : Type 0 where
  pub candidates : List CandidateScore
  pub excluded : List ExcludedCandidate
  pub strategy : StrategyName
  pub outcome : RoundOutcome
  pub failure_reason : Option FailureReason

pub record Decision : Type 0 where
  pub id : String
  pub request_id : String
  pub at : String
  pub rounds : List DecisionRound
  pub chosen_replica_id : Option String
  pub latency_ms : Option ℕ

unfoldable pub record_decision : Decision → List Decision → List Decision
record_decision decision decisions = decisions ++ decision ∷ []

abbrev pub decision_at : Decision → String
decision_at d = d.at

unfoldable pub query : Range → List Decision → List Decision
query range decisions = Timeline.query decision_at range decisions

unfoldable pub get : String → List Decision → Option Decision
get request_id decisions = find? (λ d. str_eq d.request_id request_id) decisions
