-- ===== src/Mcp/History.antt =====
-- src/mcp/tools/get-failover-history.ts: the failover log over a window.
pub mod Laws
use whyrouted.Prelude.{
  ℕ, ◌*◌, ltb, String, str_append, str_eq, str_lt, Bool, true, false, ◌||◌, Option, none, some,
  List, [], ◌∷◌, map, if◌then◌else◌, Result, ok, throw,
}
use whyrouted.Timeline.{Range}
use whyrouted.Events.{FailoverEvent, query}
use whyrouted.Mcp.TimeRange.{
  TimeReader, Refusal, unreadable, range_error, Window, resolve_last, normalize_iso,
}
use whyrouted.Mcp.Dispatch.{ToolOutput, data_read, found_nothing, bad_input, failover_log}

abbrev pub is_given : Option String → Bool
is_given none = false
is_given (some text) = true

-- `range.from > range.to`, where both are there
abbrev pub is_inverted : Option String → Option String → Bool
is_inverted (some from) (some to) = str_lt to from
is_inverted _ _ = false

pub record HistoryArgs : Type 0 where
  pub from : Option String
  pub to : Option String
  pub last : Option String

abbrev pub read_iso : String → String → Option String → Result Refusal (Option String)
read_iso key value none = throw (
    unreadable
      (str_append key (str_append " \"" (str_append value "\" is not an ISO 8601 timestamp"))))
read_iso key value (some iso) = ok (some iso)

abbrev pub bounded :
    Result Refusal (Option String) → Result Refusal (Option String) → Result Refusal Range
bounded (throw reason) b = throw reason
bounded (ok from) (throw reason) = throw reason
bounded (ok from) (ok to) =
    if is_inverted from to
    then throw (unreadable "from is after to")
    else ok (record { from = from; to = to })

abbrev pub event_id : FailoverEvent → String
event_id e = e.id

abbrev describe : Range → String
describe range = elim range.from [
  | none ↦ elim range.to [ none ↦ "in the log" | some to ↦ str_append "up to " to ]
  | some from ↦ elim range.to [
    | none ↦ str_append "since " from
    | some to ↦ str_append "between " (str_append from (str_append " and " to))
  ]
]

abbrev pub found : Range → List FailoverEvent → ToolOutput (Range × List FailoverEvent)
found range [] = found_nothing (str_append "no failover events recorded " (describe range))
found range (e ∷ es) = data_read (range, e ∷ es) failover_log (map event_id (e ∷ es))

abbrev pub history_of :
    List FailoverEvent
    → Result Refusal Range
    → Result String (ToolOutput (Range × List FailoverEvent))
history_of log (throw (unreadable reason)) = ok (bad_input reason)
history_of log (throw range_error) = throw "Invalid time value"
history_of log (ok range) = ok (found range (query range log))

abbrev pub range_of : Result Refusal Window → Result Refusal Range
range_of (throw refusal) = throw refusal
range_of (ok window) = ok (record { from = some window.from; to = some window.to })

module _ {T : Type 0} (x : TimeReader T) where
  abbrev pub read_bound : String → Option String → Result Refusal (Option String)
  read_bound key none = ok none
  read_bound key (some value) = read_iso key value (normalize_iso x value)

  -- The range of `last`, `from` and `to`, or why there is none.
  unfoldable pub read_range : Option String → Option String → Option String → Result Refusal Range
  read_range (some phrase) from to =
      if is_given from || is_given to
      then throw (unreadable "give either last, or from and/or to, not both")
      else range_of (resolve_last x phrase)
  read_range none from to = bounded (read_bound "from" from) (read_bound "to" to)

  unfoldable pub get_failover_history :
      List FailoverEvent → HistoryArgs → Result String (ToolOutput (Range × List FailoverEvent))
  get_failover_history log args = history_of log (read_range args.last args.from args.to)
