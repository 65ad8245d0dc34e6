-- ===== src/Events.antt =====
-- src/events/types.ts and src/events/failover-log.ts: the timeline of ejections and recoveries. The log
-- is the list of its events as recorded.
pub mod Laws
use whyrouted.Prelude.{
  ℕ, String, str_append, decimal, Bool, true, false, ◌&&◌, Option, none, some, List, [], ◌∷◌, ◌++◌,
  if◌then◌else◌,
}
use whyrouted.Types.{is_healthy, is_unhealthy}
use whyrouted.Health.Scheduler.{HealthTransition}
use whyrouted.Timeline
use whyrouted.Timeline.{Range}

pub data EventKind : Type 0 where
  ejected recovered : EventKind

pub data Trigger : Type 0 where
  health_check request_failure : Trigger

pub record FailoverEvent : Type 0 where
  pub id : String
  pub replica_id : String
  pub kind : EventKind
  pub at : String
  pub trigger : Trigger
  pub reason : String
  pub request_id : Option String

pub record FailoverLogOptions : Type 0 where
  pub unhealthy_threshold : ℕ
  pub healthy_threshold : ℕ

unfoldable pub record_event : FailoverEvent → List FailoverEvent → List FailoverEvent
record_event event events = events ++ event ∷ []

abbrev pub event_at : FailoverEvent → String
event_at e = e.at

unfoldable pub query : Range → List FailoverEvent → List FailoverEvent
query range events = Timeline.query event_at range events

abbrev pub poll_ejection : FailoverLogOptions → String → HealthTransition String → FailoverEvent
poll_ejection opts id t = record {
  id = id;
  replica_id = t.replica_id;
  kind = ejected;
  at = t.at;
  trigger = health_check;
  reason = str_append (decimal opts.unhealthy_threshold) " consecutive failed probes";
  request_id = none;
}

abbrev pub poll_recovery : FailoverLogOptions → String → HealthTransition String → FailoverEvent
poll_recovery opts id t = record {
  id = id;
  replica_id = t.replica_id;
  kind = recovered;
  at = t.at;
  trigger = health_check;
  reason = str_append (decimal opts.healthy_threshold) " consecutive healthy probes";
  request_id = none;
}

abbrev handle_polled :
    FailoverLogOptions
    → String
    → HealthTransition String
    → Option String
    → List FailoverEvent
    → List FailoverEvent
handle_polled opts id t (some reason) events = events
handle_polled opts id t none events =
    if is_unhealthy t.to
    then events ++ poll_ejection opts id t ∷ []
    else if is_healthy t.to && is_unhealthy t.from
    then events ++ poll_recovery opts id t ∷ []
    else events

-- The result of `makeId` is an argument.
unfoldable pub handle_transition :
    FailoverLogOptions → String → HealthTransition String → List FailoverEvent → List FailoverEvent
handle_transition opts id t events = handle_polled opts id t t.reason events
