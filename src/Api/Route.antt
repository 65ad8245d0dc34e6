-- ===== src/Api/Route.antt =====
-- src/api/server.ts, `handleRoute`: the retry loop around one request. The state that requests share is
-- a `World`, whose registry is the scheduler's. A request gives way at one place, its `await` of the
-- adapter; what the rest of the program does meanwhile is a function of the world, and with the answer
-- it is the `Turn` of that attempt. Clock readings and new ids are a `Stamp` of the attempt. `eject`
-- may throw, and then the handler rejects.
pub mod Trace
pub mod Steps
pub mod Laws
pub mod Recorded
pub mod Fleet
use whyrouted.Prelude.{
  ℕ, zero, suc, ◌+◌, ◌==◌, ltb, String, str_append, decimal, Bool, true, false, Option, none, some,
  List, [], ◌∷◌, ◌++◌, length, if◌then◌else◌,
}
use whyrouted.Routing.Weights.{StrategyName}
use whyrouted.Routing.Config.{RoutingConfig}
use whyrouted.Routing.Strategies.Dispatch.{RoutingStrategy}
use whyrouted.Routing.Engine
use whyrouted.Routing.Engine.{Capture, RouteError, RouteResult, route}
use whyrouted.Health.Scheduler.{Scheduler, SchedulerError, Thresholds, Outcome, done, threw, eject}
use whyrouted.Adapter.{
  ReplicaErrorKind, timeout, connection, http_status, ReplicaRequestError, retryable, SendError,
  request_error, other_error,
}
use whyrouted.Events.{FailoverEvent, ejected, request_failure, record_event}
use whyrouted.Decisions.{
  Decision, DecisionRound, FailureReason, RoundOutcome, picked, no_routable_replica,
  no_healthy_replicas, record_decision,
}

pub record RouteAttempt : Type 0 where
  pub replica_id : String
  pub kind : ReplicaErrorKind
  pub status : Option ℕ

pub record World : Type 0 where
  pub scheduler : Scheduler String
  pub held : Option RoutingStrategy
  pub config : RoutingConfig
  pub failovers : List FailoverEvent
  pub decisions : List Decision

-- `B` is the type of a replica's response body.
pub data Answer (B : Type 0) : Type 0 where
  responded : B → ℕ → Answer B
  rejected : SendError → Answer B

pub record Turn (B : Type 0) : Type 0 where
  pub meanwhile : World → World
  pub answer : Answer B

pub record Stamp : Type 0 where
  pub eject_at : String
  pub event_id : String
  pub event_at : String
  pub decision_id : String
  pub decision_at : String

-- What is outside of the handler: its options, the id of the request, and for each attempt, counted
-- from 0, the stamp and the turn of a request to a replica.
pub record Context (B : Type 0) : Type 0 where
  pub thresholds : Thresholds
  pub max_retries : ℕ
  pub request_id : String
  pub stamp : ℕ → Stamp
  pub turn : ℕ → String → Turn B

-- The handler's own accumulators.
pub record Request : Type 0 where
  pub attempts : List RouteAttempt
  pub exclude : List String
  pub rounds : List DecisionRound

abbrev pub new_request : Request
new_request = record { attempts = []; exclude = []; rounds = [] }

-- The four bodies: 200, the two of 503, and 502.
pub data Response (B : Type 0) : Type 0 where
  served : String → StrategyName → B → ℕ → List RouteAttempt → Response B
  unavailable : RouteError → Response B
  all_replicas_failed : List RouteAttempt → Response B
  replica_request_failed : String → String → List RouteAttempt → Response B

pub data Reply (B : Type 0) : Type 0 where
  replied : Response B → World → Reply B
  crashed : SchedulerError → World → Reply B

-- A pass through the loop's body ends the request or goes round again.
pub data Pass (B : Type 0) : Type 0 where
  finished : Reply B → Pass B
  again : Request → World → Pass B

abbrev outcome_of : RouteError → RoundOutcome
outcome_of Engine.no_healthy_replicas = no_healthy_replicas
outcome_of Engine.no_routable_replica = no_routable_replica

unfoldable pub round_for : RouteResult → DecisionRound
round_for (Engine.failed e c) = record {
  candidates = c.candidates;
  excluded = c.excluded;
  strategy = c.strategy;
  outcome = outcome_of e;
  failure_reason = none;
}
round_for (Engine.picked id c) = record {
  candidates = c.candidates;
  excluded = c.excluded;
  strategy = c.strategy;
  outcome = picked id;
  failure_reason = none;
}

abbrev pub failure_of : ReplicaRequestError → FailureReason
failure_of e = record { kind = e.kind; status = e.status }

-- `{ ...roundFor(decision), failureReason }`
abbrev pub failed_round : RouteResult → Option FailureReason → DecisionRound
failed_round decision reason = record (round_for decision) { failure_reason = reason }

abbrev pub attempt_of : String → ReplicaRequestError → RouteAttempt
attempt_of id e = record { replica_id = id; kind = e.kind; status = e.status }

abbrev pub kind_text : ReplicaErrorKind → String
kind_text timeout = "timeout"
kind_text connection = "connection"
kind_text http_status = "http_status"

abbrev pub status_text : Option ℕ → String
status_text none = ""
status_text (some status) = str_append " " (decimal status)

unfoldable pub reason_text : ReplicaRequestError → String
reason_text e = str_append "request failed: " (str_append (kind_text e.kind) (status_text e.status))

-- The reasons for a 502 that the round and the body give.
abbrev stop_reason : SendError → Option FailureReason
stop_reason (request_error e) = some (failure_of e)
stop_reason (other_error message) = none

abbrev detail_of : SendError → String
detail_of (request_error e) = e.message
detail_of (other_error message) = message

module _ {B : Type 0} (x : Context B) where
  abbrev pub decision_for : ℕ → List DecisionRound → Option String → Option ℕ → Decision
  decision_for n rounds chosen latency = record {
    id = (x.stamp n).decision_id;
    request_id = x.request_id;
    at = (x.stamp n).decision_at;
    rounds = rounds;
    chosen_replica_id = chosen;
    latency_ms = latency;
  }

  -- `recordDecision` and the response that follows it.
  unfoldable pub finish :
      ℕ → List DecisionRound → Option String → Option ℕ → Response B → World → Pass B
  finish n rounds chosen latency response w = finished (
      replied response (record w {
        decisions = record_decision (decision_for n rounds chosen latency) w.decisions;
      }))

  abbrev pub event_for : ℕ → String → ReplicaRequestError → FailoverEvent
  event_for n id e = record {
    id = (x.stamp n).event_id;
    replica_id = id;
    kind = ejected;
    at = (x.stamp n).event_at;
    trigger = request_failure;
    reason = reason_text e;
    request_id = some x.request_id;
  }

  unfoldable pub refused : ℕ → Request → World → RouteResult → RouteError → Pass B
  refused n q w decision e =
      finish n (q.rounds ++ round_for decision ∷ []) none none
        (if length q.attempts == 0 then unavailable e else all_replicas_failed q.attempts) w

  -- After the ejection: the accumulators grow, and the request goes round again or gives up.
  unfoldable pub retry : ℕ → Request → RouteResult → String → ReplicaRequestError → World → Pass B
  retry n q decision id e w =
      let w' : World = record w { failovers = record_event (event_for n id e) w.failovers } in
      let attempts = q.attempts ++ attempt_of id e ∷ [] in
      let rounds = q.rounds ++ failed_round decision (some (failure_of e)) ∷ [] in
      if ltb x.max_retries (length attempts)
      then finish n rounds none none (all_replicas_failed attempts) w'
      else again (record { attempts = attempts; exclude = q.exclude ++ id ∷ []; rounds = rounds })
          w'

  unfoldable pub after_eject :
      ℕ
      → Request
      → RouteResult
      → String
      → ReplicaRequestError
      → World
      → Outcome (Scheduler String)
      → Pass B
  after_eject n q decision id e w (done s) = retry n q decision id e (record w { scheduler = s })
  after_eject n q decision id e w (threw error s) =
      finished (crashed error (record w { scheduler = s }))

  unfoldable pub stop : ℕ → Request → World → RouteResult → String → SendError → Pass B
  stop n q w decision id e =
      finish n (q.rounds ++ failed_round decision (stop_reason e) ∷ []) none none
        (replica_request_failed id (detail_of e) q.attempts) w

  abbrev on_request_error :
      ℕ → Request → World → RouteResult → String → ReplicaRequestError → Pass B
  on_request_error n q w decision id e =
      if retryable e
      then after_eject n q decision id e w
          (eject x.thresholds id (reason_text e) (x.stamp n).eject_at w.scheduler)
      else stop n q w decision id (request_error e)

  unfoldable pub on_answer :
      ℕ → Request → World → RouteResult → String → StrategyName → Answer B → Pass B
  on_answer n q w decision id strategy (responded body latency) =
      finish n (q.rounds ++ round_for decision ∷ []) (some id) (some latency)
        (served id strategy body latency q.attempts) w
  on_answer n q w decision id strategy (rejected (request_error e)) =
      on_request_error n q w decision id e
  on_answer n q w decision id strategy (rejected (other_error message)) =
      stop n q w decision id (other_error message)

  unfoldable pub on_decision : ℕ → Request → World → RouteResult → Pass B
  on_decision n q w (Engine.failed e c) = refused n q w (Engine.failed e c) e
  on_decision n q w (Engine.picked id c) =
      let turn = x.turn n id in
      on_answer n q (turn.meanwhile w) (Engine.picked id c) id c.strategy turn.answer

  -- `engine.route({ exclude })` reads the registry that the scheduler writes to.
  unfoldable pub pass : ℕ → Request → World → Pass B
  pass n q w =
      let (decision, next) = route w.held w.config w.scheduler.sink.replicas (some q.exclude) in
      on_decision n q (record w { held = next }) decision

  abbrev pub after_pass : (Request → World → Option (Reply B)) → Pass B → Option (Reply B)
  after_pass rest (finished reply) = some reply
  after_pass rest (again q w) = rest q w

  -- The loop, with fuel; `n` counts its passes.
  unfoldable pub loop : ℕ → ℕ → Request → World → Option (Reply B)
  loop zero n q w = none
  loop (suc fuel) n q w = after_pass (loop fuel (n + 1)) (pass n q w)

  -- At most `maxRetries + 1` passes are made.
  unfoldable pub handle_route : World → Option (Reply B)
  handle_route w = loop (x.max_retries + 1) 0 new_request w
