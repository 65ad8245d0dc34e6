-- ===== src/Api/Route/Recorded.antt =====
-- Api/Route/Recorded: what one request leaves in the two logs, among the entries of all the others. The
-- entries of a request are those with its id.
use whyrouted.Prelude.{
  ℕ, ◌+◌, ltb, ◌==◌, String, str_eq, str_eq_refl, Bool, false, Option, none, some, List, [], ◌∷◌,
  ◌++◌, map, filter, filter-append, append_assoc, append-nil, length, if◌then◌else◌, ◌≡◌, refl, sym,
  ap, ◌∙◌, arith, inl, inr, Bool-cases,
}
use whyrouted.Routing.Weights.{StrategyName}
use whyrouted.Routing.Engine
use whyrouted.Routing.Engine.{Capture, RouteError, RouteResult, route}
use whyrouted.Health.Scheduler.{Scheduler, Outcome, done, threw}
use whyrouted.Adapter.{ReplicaRequestError, retryable, SendError, request_error, other_error}
use whyrouted.Events.{FailoverEvent, EventKind, ejected, Trigger, request_failure, record_event}
use whyrouted.Decisions.{Decision, DecisionRound, record_decision}
use whyrouted.Api.Route.{
  RouteAttempt, World, Answer, responded, rejected, Context, Request, new_request, Response, served,
  unavailable, all_replicas_failed, replica_request_failed, Reply, replied, crashed, Pass, pass,
  handle_route, attempt_of, decision_for, finish, event_for, refused, retry, after_eject, stop,
  on_answer, on_decision,
}
use whyrouted.Api.Route.Trace.{
  attempts_in, Resolved, Retried, PassKeeps, PassKeeps-both, new_request-Retried, loop-induct,
  map-snoc,
}
use whyrouted.Api.Route.Steps.{pass-Keeps}

abbrev pub own_decisions : String → List Decision → List Decision
own_decisions request_id = filter (λ d. str_eq d.request_id request_id)

abbrev pub is_own : String → Option String → Bool
is_own request_id none = false
is_own request_id (some id) = str_eq id request_id

abbrev pub own_failovers : String → List FailoverEvent → List FailoverEvent
own_failovers request_id = filter (λ e. is_own request_id e.request_id)

-- What an event says, apart from its id, its time and the text of its reason.
abbrev pub Said : Type 0
Said = String × EventKind × Trigger

abbrev pub said : List FailoverEvent → List Said
said = map (λ e. (e.replica_id, e.kind, e.trigger))

abbrev pub ejections : List RouteAttempt → List Said
ejections = map (λ a. (a.replica_id, ejected, request_failure))

module _ {B : Type 0} (x : Context B) where
  -- Other requests have other ids: what goes on meanwhile leaves this request's entries alone.
  abbrev pub LeavesOwn : Type 0
  LeavesOwn =
      (n : ℕ) (id : String) (w : World)
      → let w' = (x.turn n id).meanwhile w in
        (own_decisions x.request_id w'.decisions ≡ own_decisions x.request_id w.decisions)
        × (own_failovers x.request_id w'.failovers ≡ own_failovers x.request_id w.failovers)

  -- Exactly one decision was added, and one ejection for each failed attempt of the response.
  abbrev pub Records : World → Reply B → Type 0
  Records w (replied response w') =
      ((d : Decision) × (own_decisions x.request_id w'.decisions
          ≡ own_decisions x.request_id w.decisions ++ d ∷ []))
      × (said (own_failovers x.request_id w'.failovers)
          ≡ said (own_failovers x.request_id w.failovers) ++ ejections (attempts_in response))
  Records w (crashed e w') =
      own_decisions x.request_id w'.decisions ≡ own_decisions x.request_id w.decisions

  -- Before a pass: no decision yet, and one ejection for each attempt so far.
  pub record Logged (start : World) (q : Request) (w : World) : Type 0 where
    pub decisions :
        own_decisions x.request_id w.decisions ≡ own_decisions x.request_id start.decisions
    pub failovers :
        said (own_failovers x.request_id w.failovers)
        ≡ said (own_failovers x.request_id start.failovers) ++ ejections q.attempts

  own-record_decision :
      (d : Decision) (ds : List Decision)
      → d.request_id ≡ x.request_id
      → own_decisions x.request_id (record_decision d ds) ≡ own_decisions x.request_id ds ++ d ∷ []
  unfolding record_decision
  own-record_decision d ds e =
      filter-append (λ (c : Decision). str_eq c.request_id x.request_id) ds (d ∷ [])
      ∙ rw (e, str_eq_refl x.request_id)

  own-record_event :
      (n : ℕ) (id : String) (e : ReplicaRequestError) (es : List FailoverEvent)
      → said (own_failovers x.request_id (record_event (event_for x n id e) es))
        ≡ said (own_failovers x.request_id es) ++ (id, ejected, request_failure) ∷ []
  unfolding record_event
  own-record_event n id e es =
      ap said (filter-append (λ (c : FailoverEvent). is_own x.request_id c.request_id) es _)
      ∙ rw (str_eq_refl x.request_id) (map-snoc _ (own_failovers x.request_id es) _)

  module _ (start : World) (n : ℕ) where
    abbrev Keeps : Pass B → Type 0
    Keeps o = PassKeeps x (λ n q w. Logged start q w) (Records start) n o

    finish-Records :
        (q : Request) (rounds : List DecisionRound) (chosen : Option String) (latency : Option ℕ)
        (response : Response B) (w : World)
        → attempts_in response ≡ q.attempts
        → Logged start q w
        → Keeps (finish x n rounds chosen latency response w)
    unfolding finish
    finish-Records q rounds chosen latency response w e l =
        let d = decision_for x n rounds chosen latency in
        (
          (d, own-record_decision d w.decisions refl ∙ ap (λ o. o ++ d ∷ []) l.decisions),
          rw e l.failovers,
        )

    refused-attempts :
        (attempts : List RouteAttempt) (e : RouteError)
        → attempts_in {B = B}
            (if length attempts == 0 then unavailable e else all_replicas_failed attempts)
          ≡ attempts
    refused-attempts [] e = refl
    refused-attempts (a ∷ attempts) e = ground arith

    refused-Records :
        (q : Request) (w : World) (decision : RouteResult) (e : RouteError)
        → Logged start q w
        → Keeps (refused x n q w decision e)
    unfolding refused
    refused-Records q w decision e l =
        finish-Records q _ none none _ w (refused-attempts q.attempts e) l

    stop-Records :
        (q : Request) (w : World) (decision : RouteResult) (id : String) (e : SendError)
        → Logged start q w
        → Keeps (stop x n q w decision id e)
    unfolding stop
    stop-Records q w decision id e l =
        finish-Records q _ none none (replica_request_failed id _ q.attempts) w refl l

    retry-Records :
        (q : Request) (w : World) (decision : RouteResult) (id : String) (e : ReplicaRequestError)
        → Logged start q w
        → Keeps (retry x n q decision id e w)
    unfolding retry
    retry-Records q w decision id e l =
        let attempts = q.attempts ++ attempt_of id e ∷ [] in
        let q' : Request = record {
          attempts = attempts;
          exclude = q.exclude ++ id ∷ [];
          rounds = _;
        } in
        let w' : World = record w { failovers = record_event (event_for x n id e) w.failovers } in
        let l' : Logged start q' w' = record {
          decisions = l.decisions;
          failovers =
              own-record_event n id e w.failovers
              ∙ ap (λ o. o ++ (id, ejected, request_failure) ∷ []) l.failovers
              ∙ append_assoc (said (own_failovers x.request_id start.failovers))
                  (ejections q.attempts) _
              ∙ ap (λ o. said (own_failovers x.request_id start.failovers) ++ o)
                  (sym (map-snoc _ q.attempts (attempt_of id e)));
        } in
        elim (Bool-cases (ltb x.max_retries (length attempts))) [
          | inl last ↦
              rw last (finish-Records q' _ none none (all_replicas_failed attempts) w' refl l')
          | inr more ↦ rw more l'
        ]

    after_eject-Records :
        (q : Request) (w : World) (decision : RouteResult) (id : String) (e : ReplicaRequestError)
        (o : Outcome (Scheduler String))
        → Logged start q w
        → Keeps (after_eject x n q decision id e w o)
    unfolding after_eject
    after_eject-Records q w decision id e (done s) l =
        retry-Records q (record w { scheduler = s }) decision id e
          (record { decisions = l.decisions; failovers = l.failovers })
    after_eject-Records q w decision id e (threw error s) l = l.decisions

    on_answer-Records :
        (q : Request) (w : World) (decision : RouteResult) (id : String) (strategy : StrategyName)
        (answer : Answer B)
        → Logged start q w
        → Keeps (on_answer x n q w decision id strategy answer)
    unfolding on_answer
    on_answer-Records q w decision id strategy (responded body latency) l =
        finish-Records q _ (some id) (some latency) (served id strategy body latency q.attempts) w
          refl l
    on_answer-Records q w decision id strategy (rejected (request_error e)) l =
        elim (Bool-cases (retryable e)) [
          | inl again_ ↦ rw again_ (after_eject-Records q w decision id e _ l)
          | inr stop_ ↦ rw stop_ (stop-Records q w decision id (request_error e) l)
        ]
    on_answer-Records q w decision id strategy (rejected (other_error message)) l =
        stop-Records q w decision id (other_error message) l

    on_decision-Records :
        (q : Request) (w : World) (decision : RouteResult)
        → LeavesOwn
        → Logged start q w
        → Keeps (on_decision x n q w decision)
    unfolding on_decision
    on_decision-Records q w (Engine.failed e c) quiet l =
        refused-Records q w (Engine.failed e c) e l
    on_decision-Records q w (Engine.picked id c) quiet l =
        let (ds, es) = quiet n id w in
        on_answer-Records q _ (Engine.picked id c) id c.strategy _
          (record { decisions = ds ∙ l.decisions; failovers = ap said es ∙ l.failovers })

  pass-Records :
      (start : World) (n : ℕ) (q : Request) (w : World)
      → LeavesOwn
      → Logged start q w
      → PassKeeps x (λ n q w. Logged start q w) (Records start) n (pass x n q w)
  unfolding pass
  pass-Records start n q w quiet l =
      let (decision, next) = route w.held w.config w.scheduler.sink.replicas (some q.exclude) in
      on_decision-Records start n q (record w { held = next }) decision quiet
        (record { decisions = l.decisions; failovers = l.failovers })

  -- Of the entries with the id of the request, the handler adds exactly one decision and, for each
  -- failed attempt that the response lists, in order, one event: the ejection of that replica by a
  -- request failure. If an ejection throws, no decision is added. The condition is that what goes on
  -- meanwhile leaves the entries with that id alone.
  pub handle_route-Records :
      (w : World)
      → LeavesOwn
      → (reply : Reply B) × (handle_route x w ≡ some reply) × Records w reply
  unfolding handle_route
  handle_route-Records w quiet =
      let (reply, e, (_, h)) =
        loop-induct x (λ n q v. Retried x n q × Logged w q v) (λ r. Resolved x r × Records w r)
          (λ n q v l. l.0.bound)
          (λ n q v l.
            PassKeeps-both x (λ n q v. Retried x n q) (λ n q v. Logged w q v) (Resolved x)
              (Records w) n (pass x n q v) (pass-Keeps x n q l.0 v)
              (pass-Records w n q v quiet l.1))
          (x.max_retries + 1) 0 new_request w (omega arith)
          (new_request-Retried x, record { decisions = refl; failovers = sym (append-nil _) }) in
      (reply, e, h)
