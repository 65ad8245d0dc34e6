-- ===== src/Tests/HistoryTests.antt =====
-- The failover history of the last ten minutes, with times that are counted in seconds.
use whyrouted.Prelude.{
  ℕ, ltb, ok, throw, if◌then◌else◌, str_eq, str_lt, sort, ◌-◌, ◌+◌, String, none, some, List, [],
  ◌∷◌, map, ◌≡◌, ◌≢◌, ◌⊎◌, refl,
}
use whyrouted.Timeline
use whyrouted.Timeline.{Range}
use whyrouted.Events.{FailoverEvent, ejected, health_check, query}
use whyrouted.Mcp.Dispatch.{data_read, found_nothing, failover_log}
use whyrouted.Regex.{exec, trim, to_lower}
use whyrouted.Mcp.TimeRange.{TimeReader, relative, unit_entry, resolve_last, unit_ms}
use whyrouted.Mcp.History.{HistoryArgs, read_range, event_id, get_failover_history}
use whyrouted.Mcp.History.Laws.{IsDeclined, Reads, get_failover_history_lem}

abbrev stamp : ℕ → String
stamp ms = if ltb ms 500000 then "t1" else "t3"

abbrev ten_minutes : TimeReader ℕ
ten_minutes = record {
  now = 1000000;
  minus = λ t span. t - span;
  to_iso = stamp;
  parse = λ text. if str_eq text "noon" then some 200 else none;
  at_time = λ t h m s ms. t + h + m + s + ms;
  is_later = λ a b. ltb b a;
}

abbrev event : String → String → FailoverEvent
event id at = record {
  id = id;
  replica_id = "a";
  kind = ejected;
  at = at;
  trigger = health_check;
  reason = "3 consecutive failed probes";
  request_id = none;
}

abbrev events : List FailoverEvent
events = event "e0" "t0" ∷ event "e2" "t2" ∷ []

abbrev args : HistoryArgs
args = record { from = none; to = none; last = some "10 minutes" }

history_found :
    get_failover_history ten_minutes events args
    ≡ ok (
        data_read
          (record { from = some "t1"; to = some "t3" }, event "e2" "t2" ∷ [])
          failover_log
          ("e2" ∷ []))
unfolding get_failover_history read_range resolve_last relative exec trim to_lower unit_entry
    unit_ms query Timeline.query sort str_lt
history_found = refl

-- `last` may not name a member of every object: the tool throws.
throws_on_constructor :
    get_failover_history ten_minutes events
      (record { from = none; to = none; last = some "constructor" })
    ≡ throw "Invalid time value"
unfolding get_failover_history read_range resolve_last relative exec trim to_lower unit_entry
    unit_ms
throws_on_constructor = refl

get_failover_history_lem_example :
    ((range : Range) × Reads ten_minutes args.last args.from args.to range
      × (((query range events ≡ [])
            × (reason : String) × (get_failover_history ten_minutes events args
                ≡ ok (found_nothing reason)))
          ⊎ ((query range events ≢ [])
              × (get_failover_history ten_minutes events args
                  ≡ ok (
                      data_read
                        (range, query range events)
                        failover_log
                        (map event_id (query range events)))))))
    ⊎ (((range : Range) → ¬ Reads ten_minutes args.last args.from args.to range)
        × IsDeclined ten_minutes args (get_failover_history ten_minutes events args))
get_failover_history_lem_example = get_failover_history_lem ten_minutes events args
