-- ===== src/Tests/ExplainTests.antt =====
-- The explanation of a decision with a failed round and a round that served.
use whyrouted.Prelude.{
  suc, ℕ, length, All, String, decimal, sort, none, some, List, [], ◌∷◌, ◌≡◌, refl, ok,
}
use whyrouted.Adapter.{timeout}
use whyrouted.Routing.Weights.{least_loaded}
use whyrouted.Routing.Score.{CandidateScore, unhealthy, already_tried}
use whyrouted.Decisions.{Decision, DecisionRound, picked}
use whyrouted.Mcp.Dispatch.{bad_input}
use whyrouted.Mcp.Explain.{round_line, indexed, joined, explain_decision, explain_routing_decision}
use whyrouted.Mcp.Explain.Laws.{IsGrounded, explain-IsGrounded}

abbrev entry : String → ℕ → CandidateScore
entry id score = record { replica_id = id; in_flight = score; latency_ms = none; score = score }

abbrev failed : DecisionRound
failed = record {
  candidates = entry "b" 5 ∷ entry "a" 2 ∷ [];
  excluded = record { replica_id = "c"; reason = unhealthy } ∷ [];
  strategy = least_loaded;
  outcome = picked "a";
  failure_reason = some (record { kind = timeout; status = none });
}

abbrev served : DecisionRound
served = record {
  candidates = entry "b" 5 ∷ [];
  excluded = record { replica_id = "a"; reason = already_tried } ∷ [];
  strategy = least_loaded;
  outcome = picked "b";
  failure_reason = none;
}

abbrev two_rounds : Decision
two_rounds = record {
  id = "d";
  request_id = "r";
  at = "t1";
  rounds = failed ∷ served ∷ [];
  chosen_replica_id = some "b";
  latency_ms = some 4;
}

explain-IsGrounded_example :
    (length (explain_decision two_rounds) ≡ suc (length two_rounds.rounds))
    × All (IsGrounded two_rounds) (explain_decision two_rounds)
explain-IsGrounded_example = explain-IsGrounded two_rounds

explains_failed :
    (round_line 0 failed).text
    ≡ "Round 1 (least-loaded): picked a (score 2) over b (score 5). Excluded: c (unhealthy). It then failed with timeout."
unfolding round_line decimal sort indexed joined
explains_failed = refl

no_id :
    (trim : String → String) (log : List Decision)
    → trim " " ≡ ""
    → explain_routing_decision trim log " " ≡ ok (bad_input "request_id must be a non-empty string")
unfolding explain_routing_decision
no_id trim log e = rw e
