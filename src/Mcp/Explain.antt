-- ===== src/Mcp/Explain.antt =====
-- src/mcp/tools/explain-routing-decision.ts: the explanation of a recorded decision, each sentence with the
-- paths into the decision that back it. A path such as `rounds[0].candidates[1].score` is a `Cite`.
pub mod Laws
use whyrouted.Prelude.{
  ℕ, zero, suc, ◌+◌, ltb, ◌==◌, String, str_append, str_eq, decimal, Bool, true, false, not, ◌&&◌,
  ◌||◌, Option, none, some, List, [], ◌∷◌, ◌++◌, map, any, filter, find?, sort, length, get_elem?,
  if◌then◌else◌, Result, ok, throw,
}
use whyrouted.Routing.Weights.{StrategyName, round_robin}
use whyrouted.Routing.Config.{name_text}
use whyrouted.Routing.Score.{
  CandidateScore, ExcludedCandidate, ExclusionReason, unhealthy, already_tried, drained,
}
use whyrouted.Api.Route.{kind_text, status_text}
use whyrouted.Decisions.{
  Decision, DecisionRound, FailureReason, RoundOutcome, picked, no_routable_replica,
  no_healthy_replicas, get,
}
use whyrouted.Mcp.Dispatch.{ToolOutput, data_read, found_nothing, bad_input, decision_log}

pub data RoundField : Type 0 where
  outcome strategy candidates picked_replica_id : RoundField
  candidate_id candidate_score : ℕ → RoundField
  excluded_id excluded_reason : ℕ → RoundField
  failure_kind failure_status : RoundField

pub data Cite : Type 0 where
  chosen_replica_id rounds : Cite
  in_round : ℕ → RoundField → Cite

pub record ExplanationLine : Type 0 where
  pub text : String
  pub cites : List Cite

abbrev pub is_there {ℓ} : {A : Type ℓ} → Option A → Bool
is_there none = false
is_there (some a) = true

abbrev pub has_pick : RoundOutcome → Bool
has_pick (picked id) = true
has_pick _ = false

abbrev pub has_status : Option FailureReason → Bool
has_status none = false
has_status (some f) = is_there f.status

-- Whether `resolveCite` gives a value that is not `undefined`.
abbrev pub has_field : DecisionRound → RoundField → Bool
has_field r outcome = true
has_field r strategy = true
has_field r candidates = true
has_field r picked_replica_id = has_pick r.outcome
has_field r (candidate_id j) = is_there (get_elem? r.candidates j)
has_field r (candidate_score j) = is_there (get_elem? r.candidates j)
has_field r (excluded_id k) = is_there (get_elem? r.excluded k)
has_field r (excluded_reason k) = is_there (get_elem? r.excluded k)
has_field r failure_kind = is_there r.failure_reason
has_field r failure_status = has_status r.failure_reason

abbrev pub found_field : RoundField → Option DecisionRound → Bool
found_field f none = false
found_field f (some r) = has_field r f

unfoldable pub resolves : Decision → Cite → Bool
resolves d chosen_replica_id = true
resolves d rounds = true
resolves d (in_round i f) = found_field f (get_elem? d.rounds i)

abbrev texts : List String → String
texts [] = ""
texts (s ∷ ss) = str_append s (texts ss)

-- `.join(", ")`
joined_after : List String → String
joined_after [] = ""
joined_after (s ∷ ss) = str_append ", " (str_append s (joined_after ss))

unfoldable pub joined : List String → String
unfolding joined_after
joined [] = ""
joined (s ∷ ss) = str_append s (joined_after ss)

abbrev plural : ℕ → String → String
plural n word = texts (decimal n ∷ " " ∷ word ∷ (if n == 1 then "" else "s") ∷ [])

unfoldable pub overview_of : Decision → Option String → ExplanationLine
overview_of d none = record {
  text = texts (
      "No replica returned a usable response, after "
      ∷ plural (length d.rounds) "round"
      ∷ "."
      ∷ []);
  cites = chosen_replica_id ∷ rounds ∷ [];
}
overview_of d (some id) = record {
  text = texts ("Served by " ∷ id ∷ " after " ∷ plural (length d.rounds) "round" ∷ "." ∷ []);
  cites = chosen_replica_id ∷ rounds ∷ [];
}

unfoldable pub overview : Decision → ExplanationLine
unfolding overview_of
overview d =
    if length d.rounds == 0
    then record { text = "The record contains no rounds."; cites = rounds ∷ [] }
    else overview_of d d.chosen_replica_id

abbrev reason_text : ExclusionReason → String
reason_text drained = "drained by operator"
reason_text unhealthy = "unhealthy"
reason_text already_tried = "already_tried"

abbrev pub excluded_text : ExcludedCandidate → String
excluded_text e = texts (e.replica_id ∷ " (" ∷ reason_text e.reason ∷ ")" ∷ [])

abbrev excluded_part : List ExcludedCandidate → String
excluded_part [] = ""
excluded_part (e ∷ es) = texts (" Excluded: " ∷ joined (map excluded_text (e ∷ es)) ∷ "." ∷ [])

-- The cites of the excluded candidates from index `k` on.
unfoldable pub excluded_fields : ℕ → List ExcludedCandidate → List RoundField
excluded_fields k [] = []
excluded_fields k (e ∷ es) = excluded_id k ∷ excluded_reason k ∷ excluded_fields (k + 1) es

abbrev failure_text : Option FailureReason → String
failure_text none = ""
failure_text (some f) =
    texts (" It then failed with " ∷ kind_text f.kind ∷ status_text f.status ∷ "." ∷ [])

abbrev pub status_field : Option ℕ → List RoundField
status_field none = []
status_field (some status) = failure_status ∷ []

abbrev pub failure_fields : Option FailureReason → List RoundField
failure_fields none = []
failure_fields (some f) = failure_kind ∷ status_field f.status

abbrev pub Ranked : Type 0
Ranked = CandidateScore × ℕ

unfoldable pub indexed : ℕ → List CandidateScore → List Ranked
indexed j [] = []
indexed j (c ∷ cs) = (c, j) ∷ indexed (j + 1) cs

abbrev pub ranks_before : Ranked → Ranked → Bool
ranks_before a b = ltb a.0.score b.0.score || (a.0.score == b.0.score) && ltb a.1 b.1

abbrev pub ranked : DecisionRound → List Ranked
ranked r = sort ranks_before (indexed 0 r.candidates)

abbrev pub winner : String → DecisionRound → Option Ranked
winner id r = find? (λ (e : Ranked). str_eq e.0.replica_id id) (ranked r)

abbrev pub others : DecisionRound → Option Ranked → List Ranked
others r none = ranked r
others r (some w) = filter (λ (e : Ranked). not (e.1 == w.1)) (ranked r)

abbrev is_rotation : StrategyName → Bool
is_rotation round_robin = true
is_rotation _ = false

abbrev score_word : StrategyName → String
score_word s = if is_rotation s then "rotation position" else "score"

abbrev detail : StrategyName → Ranked → String
detail s e = texts (score_word s ∷ " " ∷ decimal e.0.score ∷ [])

abbrev describe : StrategyName → Ranked → String
describe s e = texts (e.0.replica_id ∷ " (" ∷ detail s e ∷ ")" ∷ [])

abbrev winner_text : StrategyName → Option Ranked → String
winner_text s none = ""
winner_text s (some w) = texts (" (" ∷ detail s w ∷ ")" ∷ [])

abbrev others_text : StrategyName → List Ranked → String
others_text s [] = ""
others_text s (e ∷ es) = texts (
    (if is_rotation s then ", then in rotation:" else " over")
    ∷ " "
    ∷ joined (map (describe s) (e ∷ es))
    ∷ [])

abbrev pub winner_fields : Option Ranked → List RoundField
winner_fields none = []
winner_fields (some w) = candidate_score w.1 ∷ []

unfoldable pub others_fields : List Ranked → List RoundField
others_fields [] = []
others_fields (e ∷ es) = candidate_id e.1 ∷ candidate_score e.1 ∷ others_fields es

abbrev is_drain : ExcludedCandidate → Bool
is_drain e = elim e.reason [ drained ↦ true | _ ↦ false ]

-- The sentence of round `i`, without the label.
abbrev body_text : DecisionRound → RoundOutcome → String
body_text r no_healthy_replicas =
    str_append
      (if any is_drain r.excluded
        then ": no replica was available to route to."
        else ": the registry had no healthy replica.")
      (excluded_part r.excluded)
body_text r no_routable_replica = texts (
    " ("
    ∷ name_text r.strategy
    ∷ "): no replica could be picked; "
    ∷ plural (length r.candidates) "candidate"
    ∷ " scored."
    ∷ excluded_part r.excluded
    ∷ failure_text r.failure_reason
    ∷ [])
body_text r (picked id) =
    let w = winner id r in
    texts (
      " ("
      ∷ name_text r.strategy
      ∷ "): picked "
      ∷ id
      ∷ winner_text r.strategy w
      ∷ others_text r.strategy (others r w)
      ∷ "."
      ∷ excluded_part r.excluded
      ∷ failure_text r.failure_reason
      ∷ [])

abbrev pub fields_of : DecisionRound → RoundOutcome → List RoundField
fields_of r no_healthy_replicas = outcome ∷ excluded_fields 0 r.excluded
fields_of r no_routable_replica =
    strategy ∷ outcome ∷ candidates ∷ excluded_fields 0 r.excluded
    ++ failure_fields r.failure_reason
fields_of r (picked id) =
    let w = winner id r in
    strategy ∷ outcome ∷ picked_replica_id ∷ winner_fields w
    ++ others_fields (others r w)
    ++ excluded_fields 0 r.excluded
    ++ failure_fields r.failure_reason

unfoldable pub round_line : ℕ → DecisionRound → ExplanationLine
round_line i r = record {
  text = texts ("Round " ∷ decimal (i + 1) ∷ body_text r r.outcome ∷ []);
  cites = map (in_round i) (fields_of r r.outcome);
}

unfoldable pub round_lines : ℕ → List DecisionRound → List ExplanationLine
round_lines i [] = []
round_lines i (r ∷ rs) = round_line i r ∷ round_lines (i + 1) rs

unfoldable pub explain_decision : Decision → List ExplanationLine
explain_decision d = overview d ∷ round_lines 0 d.rounds

-- An argument with its `trim`; the data is the decision with its lines.
abbrev explained :
    String → Option Decision → Result String (ToolOutput (Decision × List ExplanationLine))
explained request_id none =
    ok (found_nothing (texts ("no decision recorded for request id \"" ∷ request_id ∷ "\"" ∷ [])))
explained request_id (some d) = ok (data_read (d, explain_decision d) decision_log (d.id ∷ []))

unfoldable pub explain_routing_decision :
    (String → String)
    → List Decision
    → String
    → Result String (ToolOutput (Decision × List ExplanationLine))
explain_routing_decision trim log request_id =
    if str_eq (trim request_id) ""
    then ok (bad_input "request_id must be a non-empty string")
    else explained request_id (get request_id log)
