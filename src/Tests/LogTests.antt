-- ===== src/Tests/LogTests.antt =====
-- The adapter and the two logs.
use whyrouted.Prelude.{
  ℕ, String, str_append, str_eq, true, none, some, List, [], ◌∷◌, ◌≡◌, ◌⊎◌, refl, ok, throw,
  if◌then◌else◌,
}
use whyrouted.Types.{healthy, unknown}
use whyrouted.Health.Scheduler.{HealthResult, HealthTransition, get}
use whyrouted.Timeline.{Range}
use whyrouted.Adapter.{
  ReplicaRequestError, HttpReplicaAdapter, Fetched, answered, request_error, other_error,
  check_health, send_request, HealthBody, in_flight_of, unknown_replica, is_ok,
}
use whyrouted.Adapter.Laws.{IsResultOf, IsRefused, check_health_lem, send_request_lem}
use whyrouted.Events.{FailoverEvent, FailoverLogOptions, ejected, health_check, handle_transition}
use whyrouted.Decisions
use whyrouted.Decisions.{Decision, record_decision, decision_at}
use whyrouted.Decisions.Laws.{get-record_decision}

abbrev adapter : HttpReplicaAdapter
adapter = record {
  urls = ("replica-1", "http://127.0.0.1:8001") ∷ [];
  health_timeout_ms = 200;
  request_timeout_ms = 2000;
}

abbrev probe_answers : String → Fetched HealthBody
probe_answers url = answered 200 (ok (in_flight_of (some 3)))

abbrev request_answers : String → Fetched String
request_answers url = answered 503 (ok "busy")

check_health_lem_example :
    ((get "replica-9" adapter.urls ≡ none)
      × (check_health adapter probe_answers 5 "replica-9" ≡ throw (unknown_replica "replica-9")))
    ⊎ ((url : String) × (r : HealthResult) × (get "replica-9" adapter.urls ≡ some url)
        × (check_health adapter probe_answers 5 "replica-9" ≡ ok r)
        × IsResultOf adapter 5 (probe_answers (str_append url "/health")) r)
check_health_lem_example = check_health_lem adapter 5 "replica-9" probe_answers

known_url : get "replica-1" adapter.urls ≡ some "http://127.0.0.1:8001"
unfolding get
known_url = refl

send_request_lem_example :
    (let x = request_answers (str_append "http://127.0.0.1:8001" "/infer") in
      let sent = send_request adapter request_answers 5 "replica-1" in
      ((e : ReplicaRequestError) × (sent ≡ throw (request_error e)) × IsRefused x)
      ⊎ ((status : ℕ) × (message : String) × (x ≡ answered status (throw message))
          × (is_ok status ≡ true)
          × (sent ≡ throw (other_error message)))
      ⊎ ((status : ℕ) × (b : String) × (x ≡ answered status (ok b))
          × (is_ok status ≡ true)
          × (sent ≡ ok (record { response = b; latency_ms = 5 }))))
send_request_lem_example =
    send_request_lem adapter 5 "replica-1" "http://127.0.0.1:8001" request_answers known_url

abbrev event : String → FailoverEvent
event at = record {
  id = "e";
  replica_id = "replica-1";
  kind = ejected;
  at = at;
  trigger = health_check;
  reason = "3 consecutive failed probes";
  request_id = none;
}

abbrev events : List FailoverEvent
events = event "t3" ∷ event "t1" ∷ event "t2" ∷ []

abbrev range : Range
range = record { from = some "t2"; to = none }

abbrev opts : FailoverLogOptions
opts = record { unhealthy_threshold = 3; healthy_threshold = 2 }

abbrev first_up : HealthTransition String
first_up = record {
  replica_id = "replica-1";
  from = unknown;
  to = healthy;
  at = "t1";
  reason = none;
}

first_up_unrecorded : handle_transition opts "e" first_up events ≡ events
unfolding handle_transition
first_up_unrecorded = refl

abbrev decision : String → String → Decision
decision request_id at = record {
  id = "d";
  request_id = request_id;
  at = at;
  rounds = [];
  chosen_replica_id = none;
  latency_ms = none;
}

abbrev decisions : List Decision
decisions = decision "r1" "t1" ∷ decision "r2" "t2" ∷ []

get-record_decision_example :
    Decisions.get "r3" (record_decision (decision "r3" "t3") decisions)
    ≡ elim (Decisions.get "r3" decisions) [
      | none ↦ if str_eq "r3" "r3" then some (decision "r3" "t3") else none
      | some found ↦ some found
    ]
get-record_decision_example = get-record_decision (decision "r3" "t3") decisions "r3"
