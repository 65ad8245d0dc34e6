-- ===== src/Tests/QuestionTests.antt =====
-- Questions about decisions, over a clock that counts milliseconds.
use whyrouted.Prelude.{
  ℕ, ltb, ok, if◌then◌else◌, ◌-◌, ◌+◌, ◌*◌, String, none, [], ◌∷◌, ◌≡◌, refl, arith,
}
use whyrouted.Regex.{exec, trim, to_lower, match_all}
use whyrouted.Decisions.{Decision, get}
use whyrouted.Mcp.Dispatch.{data_read, decision_log}
use whyrouted.Mcp.TimeRange.{
  TimeReader, Window, no_range, ranged, misread, relative, unit_entry, resolve_last, unit_ms,
  find_range, clock_ms,
}
use whyrouted.Mcp.TimeRange.Search.{IsInOrder, find_range-IsInOrder}
use whyrouted.Mcp.Explain.{explain_decision}
use whyrouted.Mcp.Questions.{explained, uuids, query_decisions}

-- Days start at noon here, and a time prints as its hour.
abbrev reader : TimeReader ℕ
reader = record {
  now = 36000000;
  minus = λ t span. t - span;
  to_iso = λ t.
      if ltb t 10800000
      then "before 3"
      else if ltb t 11400000
      then "from 3:00 to 3:10"
      else "after 3:10";
  parse = λ text. none;
  at_time = λ t h m s ms. h * 3600000 + m * 60000 + s * 1000 + ms;
  is_later = λ a b. ltb b a;
}

abbrev between : String
between = "p99 between 3:00 and 3:09"

between_found :
    find_range reader between
    ≡ ok (
        ranged
          (record { from = "from 3:00 to 3:10"; to = "from 3:00 to 3:10" })
          "between 3:00 and 3:09")
unfolding find_range exec clock_ms trim to_lower
between_found = refl

inverted :
    (reason : String) × (find_range reader "count between 3:10 and 3:00" ≡ ok (misread reason))
unfolding find_range exec clock_ms trim to_lower
inverted = (_, refl)

hours_found :
    (window : Window) × (find_range reader "how many in the past 2 hours?"
      ≡ ok (ranged window "past 2 hours"))
unfolding find_range exec resolve_last relative trim unit_ms unit_entry to_lower
hours_found = (_, refl)

abbrev request : String
request = "0a1b2c3d-0000-4000-8000-00000000abcd"

abbrev decision : Decision
decision = record {
  id = "d";
  request_id = request;
  at = "from 3:00 to 3:10";
  rounds = [];
  chosen_replica_id = none;
  latency_ms = none;
}

abbrev question : String
question = "why did 0A1B2C3D-0000-4000-8000-00000000ABCD go there?"

ids_found : uuids question ≡ request ∷ []
unfolding uuids match_all to_lower
ids_found = refl

nothing_ranged : find_range reader question ≡ ok no_range
unfolding find_range exec
nothing_ranged = refl

answered_by_id :
    query_decisions reader (decision ∷ []) question
    ≡ ok (data_read (explained decision (explain_decision decision)) decision_log ("d" ∷ []))
unfolding query_decisions find_range exec uuids match_all to_lower trim get
answered_by_id = refl

find_range-IsInOrder_example :
    IsInOrder reader (record { from = "from 3:00 to 3:10"; to = "from 3:00 to 3:10" })
find_range-IsInOrder_example =
    find_range-IsInOrder reader (λ span. ground arith)
      (record { from = "from 3:00 to 3:10"; to = "from 3:00 to 3:10" }) "between 3:00 and 3:09"
      between between_found
