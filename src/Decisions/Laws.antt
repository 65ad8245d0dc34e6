-- ===== src/Decisions/Laws.antt =====
-- Decisions/Laws: what a query and a lookup return.
use whyrouted.Prelude.{
  String, str_eq, none, some, List, [], ◌∷◌, filter, IsSorted, ◌≡◌, refl, arith, if◌then◌else◌,
}
use mathlib.Core.List.{Perm}
use whyrouted.Timeline
use whyrouted.Timeline.{Range, earlier, within}
use whyrouted.Decisions.{Decision, query, get, record_decision, decision_at}

-- A query returns exactly the recorded decisions whose time is in the range, both bounds included,
-- each as often as it was recorded and in ascending order of time; a log that was recorded in that
-- order is returned in the order of recording.
pub query-IsSorted_decisions :
    (range : Range) (decisions : List Decision)
    → Perm (query range decisions) (filter (within decision_at range) decisions)
      × IsSorted (earlier decision_at) (query range decisions)
      × (IsSorted (earlier decision_at) decisions
          → query range decisions ≡ filter (within decision_at range) decisions)
unfolding query
query-IsSorted_decisions range decisions = (
  Timeline.query-perm decision_at range decisions,
  Timeline.query-IsSorted decision_at range decisions,
  Timeline.query_of_IsSorted decision_at range decisions,
)

-- A decision can be looked up by its request id as soon as it is recorded, unless one of the same
-- request id was recorded before; no other request's lookup changes, and a lookup that found a
-- decision goes on finding the same one.
pub get-record_decision :
    (d : Decision) (decisions : List Decision) (request_id : String)
    → get request_id (record_decision d decisions) ≡ elim (get request_id decisions) [
      | none ↦ if str_eq d.request_id request_id then some d else none
      | some found ↦ some found
    ]
unfolding get record_decision
get-record_decision d [] request_id = refl
get-record_decision d (e ∷ decisions) request_id =
    ground (arith, get-record_decision d decisions request_id)
