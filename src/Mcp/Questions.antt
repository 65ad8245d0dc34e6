-- ===== src/Mcp/Questions.antt =====
-- src/mcp/tools/query-decisions.ts: what a question asks for, and the answer from the decision log.
pub mod Laws
use whyrouted.Prelude.{
  ℕ, ltb, String, str_append, str_eq, Bool, true, false, not, ◌&&◌, ◌||◌, Option, none, some, List,
  [], ◌∷◌, map, length, if◌then◌else◌, Result, ok, throw,
}
use whyrouted.Regex.{
  Regex, class, sequence, group, word_boundary, exec, match_all, literal, times, any_of, all_of,
  is_hex, trim, to_lower,
}
use whyrouted.Timeline.{Range}
use whyrouted.Decisions.{Decision, get, query}
use whyrouted.Mcp.Dispatch.{ToolOutput, data_read, found_nothing, bad_input, decision_log}
use whyrouted.Mcp.TimeRange.{TimeReader, Window, RangeSearch, no_range, ranged, misread, find_range}
use whyrouted.Mcp.Explain.{ExplanationLine, explain_decision, is_there}
use whyrouted.Mcp.Aggregate.{AggregateData, aggregate}

pub data QueryData : Type 0 where
  explained : Decision → List ExplanationLine → QueryData
  aggregated : AggregateData → QueryData

abbrev hex : ℕ → Regex
hex n = times n (class is_hex)

abbrev dash : Regex
dash = literal "-"

-- `/\b[0-9a-f]{8}-[0-9a-f]{4}-[0-9a-f]{4}-[0-9a-f]{4}-[0-9a-f]{12}\b/gi`
abbrev pub uuid : Regex
uuid = all_of (
    word_boundary
    ∷ hex 8
    ∷ dash
    ∷ hex 4
    ∷ dash
    ∷ hex 4
    ∷ dash
    ∷ hex 4
    ∷ dash
    ∷ hex 12
    ∷ word_boundary
    ∷ [])

-- `/\b(?:p50|p95|p99|latency|count|how many|failed|failures|per replica)\b/i`
abbrev pub aggregate_word : Regex
aggregate_word = all_of (
    word_boundary
    ∷ any_of (
        literal "p50"
        ∷ literal "p95"
        ∷ literal "p99"
        ∷ literal "latency"
        ∷ literal "count"
        ∷ literal "how many"
        ∷ literal "failed"
        ∷ literal "failures"
        ∷ literal "per replica"
        ∷ [])
    ∷ word_boundary
    ∷ [])

abbrev supported : String
supported =
    "Supported questions: a request id (\"why did request <uuid> go where it did\"), or an aggregate over a time range using p50, p95, p99, latency, count, how many, failed, failures or per replica (\"what was p99 between 3:00 and 3:10\", \"how many requests failed in the last 10 minutes\")."

unfoldable pub uuids : String → List String
uuids question = map to_lower (match_all uuid question)

unfoldable pub asks_aggregate : String → Bool
asks_aggregate question = is_there (exec aggregate_word question)

abbrev pub range_of : Window → Range
range_of window = record { from = some window.from; to = some window.to }

abbrev pub decision_id : Decision → String
decision_id d = d.id

abbrev pub looked_up : String → Option Decision → ToolOutput QueryData
looked_up id none =
    found_nothing (str_append "no decision recorded for request id \"" (str_append id "\""))
looked_up id (some d) = data_read (explained d (explain_decision d)) decision_log (d.id ∷ [])

abbrev pub summed_up : Window → List Decision → ToolOutput QueryData
summed_up window [] = found_nothing (
    str_append "no decisions recorded between "
      (str_append window.from (str_append " and " window.to)))
summed_up window (d ∷ ds) =
    data_read (aggregated (aggregate (d ∷ ds) window.from window.to)) decision_log
      (map decision_id (d ∷ ds))

abbrev unsupported : ToolOutput QueryData
unsupported = bad_input (str_append "unsupported question. " supported)

abbrev ambiguous : ToolOutput QueryData
ambiguous =
    bad_input "ambiguous question: ask about one request id or one time range, not both or several"

-- The question without an id in it.
abbrev pub over_range : List Decision → String → RangeSearch → ToolOutput QueryData
over_range log question no_range = unsupported
over_range log question (misread reason) =
    if asks_aggregate question
    then bad_input (str_append "could not read a time range: " reason)
    else unsupported
over_range log question (ranged window matched) =
    if asks_aggregate question then summed_up window (query (range_of window) log) else unsupported

abbrev pub answer : List Decision → String → List String → RangeSearch → ToolOutput QueryData
answer log question [] found = over_range log question found
answer log question (id ∷ []) no_range = looked_up id (get id log)
answer log question (id ∷ []) (ranged window matched) = ambiguous
answer log question (id ∷ []) (misread reason) = ambiguous
answer log question (id ∷ id2 ∷ ids) found = ambiguous

abbrev pub with_range :
    List Decision → String → Result String RangeSearch → Result String (ToolOutput QueryData)
with_range log question (throw message) = throw message
with_range log question (ok found) = ok (answer log question (uuids question) found)

module _ {T : Type 0} (x : TimeReader T) where
  unfoldable pub query_decisions : List Decision → String → Result String (ToolOutput QueryData)
  query_decisions log question =
      if str_eq (trim question) ""
      then ok
          (bad_input (str_append "natural_language_query must be a non-empty string. " supported))
      else with_range log question (find_range x question)
