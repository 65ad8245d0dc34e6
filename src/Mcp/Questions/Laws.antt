-- ===== src/Mcp/Questions/Laws.antt =====
-- Mcp/Questions/Laws: an answer to a question is computed from what is recorded.
use whyrouted.Prelude.{String, true, some, List, [], ◌∷◌, map, ◌≡◌, ◌≢◌, Memᴰ}
use whyrouted.Decisions.{Decision, get, query}
use whyrouted.Mcp.Dispatch.{ToolOutput}
use whyrouted.Mcp.TimeRange.{TimeReader, Window, RangeSearch, no_range, ranged}
use whyrouted.Mcp.Explain.{explain_decision}
use whyrouted.Mcp.Aggregate.{aggregate}
use whyrouted.Mcp.Questions.{
  QueryData, explained, aggregated, uuids, asks_aggregate, range_of, decision_id,
}

abbrev Output : Type 0
Output = ToolOutput QueryData

module _ {T : Type 0} (x : TimeReader T) (log : List Decision) (question : String) where
  -- The question has one request id and no window, and the answer is the first decision that is
  -- recorded for that id, with its explanation.
  abbrev pub IsLookup : RangeSearch → QueryData → List String → Type 0
  IsLookup found data_of ids =
      (d : Decision) × (uuids question ≡ d.request_id ∷ [])
      × (found ≡ no_range)
      × (get d.request_id log ≡ some d)
      × Memᴰ d log
      × (data_of ≡ explained d (explain_decision d))
      × (ids ≡ d.id ∷ [])

  -- The question has a window, no request id and a word for an aggregate, and the answer is the
  -- aggregate of all that is recorded in the window, which is something.
  abbrev pub IsSummary : RangeSearch → QueryData → List String → Type 0
  IsSummary found data_of ids =
      (window : Window) × (matched : String) × (uuids question ≡ [])
      × (found ≡ ranged window matched)
      × (asks_aggregate question ≡ true)
      × (query (range_of window) log ≢ [])
      × (data_of ≡ aggregated (aggregate (query (range_of window) log) window.from window.to))
      × (ids ≡ map decision_id (query (range_of window) log))
