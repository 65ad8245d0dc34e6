-- ===== src/Events/Laws.antt =====
-- Events/Laws: what a query returns, and which transitions become events.
use whyrouted.Prelude.{
  String, none, List, filter, IsSorted, ◌≡◌, ◌≢◌, arith, ◌⊎◌, inl, inr, Option-cases,
}
use mathlib.Core.List.{Perm}
use whyrouted.Types.{healthy, unhealthy}
use whyrouted.Health.Scheduler.{HealthTransition}
use whyrouted.Timeline
use whyrouted.Timeline.{Range, earlier, within}
use whyrouted.Events.{
  FailoverEvent, FailoverLogOptions, query, record_event, event_at, handle_transition,
  poll_ejection, poll_recovery,
}

-- A query returns exactly the recorded events whose time is in the range, both bounds included, each
-- as often as it was recorded and in ascending order of time; a log that was recorded in that order
-- is returned in the order of recording.
pub query-IsSorted_events :
    (range : Range) (events : List FailoverEvent)
    → Perm (query range events) (filter (within event_at range) events)
      × IsSorted (earlier event_at) (query range events)
      × (IsSorted (earlier event_at) events
          → query range events ≡ filter (within event_at range) events)
unfolding query
query-IsSorted_events range events = (
  Timeline.query-perm event_at range events,
  Timeline.query-IsSorted event_at range events,
  Timeline.query_of_IsSorted event_at range events,
)

-- A transition that was not caused by `eject` is an ejection when it leads to `unhealthy`, a recovery
-- when it leads from `unhealthy` to `healthy`, and otherwise is not an event; one that `eject` caused
-- is never recorded here, since the retry loop records it.
pub handle_transition_lem :
    (opts : FailoverLogOptions) (id : String) (t : HealthTransition String)
    (events : List FailoverEvent)
    → ((t.reason ≢ none) × (handle_transition opts id t events ≡ events))
      ⊎ ((t.reason ≡ none)
          × ((t.to ≡ unhealthy
                → handle_transition opts id t events
                  ≡ record_event (poll_ejection opts id t) events)
              × (t.to ≡ healthy
                  → t.from ≡ unhealthy
                  → handle_transition opts id t events
                    ≡ record_event (poll_recovery opts id t) events)
              × (t.to ≢ unhealthy
                  → ¬ ((t.to ≡ healthy) × (t.from ≡ unhealthy))
                  → handle_transition opts id t events ≡ events)))
unfolding handle_transition record_event
handle_transition_lem opts id t events = elim (Option-cases t.reason) [
  | inr (reason, e) ↦ inl (λ q. cc, rw e)
  | inl e ↦ inr (e, (λ p. ground arith, λ p q. ground arith, λ p q. ground arith))
]
