-- ===== src/Api/Route/Steps.antt =====
-- Api/Route/Steps: each pass of the loop keeps the trace of the attempts.
use whyrouted.Prelude.{
  ℕ, ◌+◌, ◌≤◌, ltb, ◌==◌, String, false, Option, none, some, List, [], ◌∷◌, ◌++◌, length, ltb→lt,
  ◌≡◌, refl, sym, ap, ◌∙◌, subst, arith, inl, inr, Bool-cases,
}
use whyrouted.Routing.Strategies.Dispatch.{RoutingStrategy}
use whyrouted.Routing.Engine
use whyrouted.Routing.Engine.{Capture, RouteError, RouteResult, route, includes}
use whyrouted.Routing.Engine.Laws.{route-picks}
use whyrouted.Health.Scheduler.{Scheduler, Outcome, done, threw, eject}
use whyrouted.Adapter.{ReplicaRequestError, retryable, SendError, request_error, other_error}
use whyrouted.Decisions.{DecisionRound, record_decision}
use whyrouted.Api.Route.{
  RouteAttempt, World, Answer, responded, rejected, Context, Request, Response, served, unavailable,
  all_replicas_failed, replica_request_failed, Pass, pass, round_for, failed_round, failure_of,
  attempt_of, reason_text, decision_for, finish, refused, retry, after_eject, stop, on_answer,
  on_decision, outcome_of,
}
use whyrouted.Api.Route.Trace.{
  told, retried, ids, NoRepeat, NoRepeat-append, length-snoc, map-snoc, Explains, attempts_in,
  Resolved, Retried, PassKeeps,
}

module _ {B : Type 0} (x : Context B) where
  abbrev pub Keeps : ℕ → Pass B → Type 0
  Keeps n o = PassKeeps x (λ n q w. Retried x n q) (Resolved x) n o

  -- The trace with the round of one more engine call.
  told-snoc :
      (q : Request) (r : DecisionRound)
      → told q.rounds ≡ retried q.attempts
      → told (q.rounds ++ r ∷ []) ≡ retried q.attempts ++ (r.outcome, r.failure_reason) ∷ []
  told-snoc q r h = map-snoc (λ s. (s.outcome, s.failure_reason)) q.rounds r ∙ rw h

  finish-Resolved :
      (n : ℕ) (rounds : List DecisionRound) (chosen : Option String) (latency : Option ℕ)
      (response : Response B) (w : World)
      → Explains x.max_retries (decision_for x n rounds chosen latency) response
      → length (attempts_in response) ≤ x.max_retries + 1
      → Keeps n (finish x n rounds chosen latency response w)
  unfolding finish record_decision
  finish-Resolved n rounds chosen latency response w h k =
      (w.decisions, decision_for x n rounds chosen latency, refl, refl, h, k)

  module _ (n : ℕ) (q : Request) (t : Retried x n q) where
    short : length q.attempts ≤ x.max_retries + 1
    short = omega (arith, t.count, t.bound)

    pub refused-Keeps :
        (w : World) (e : RouteError) (c : Capture) → Keeps n (refused x n q w (Engine.failed e c) e)
    unfolding refused round_for
    refused-Keeps w e c = go q.attempts refl
      where
        go :
            (l : List RouteAttempt)
            → q.attempts ≡ l
            → Keeps n (refused x n q w (Engine.failed e c) e)
        go [] h =
            let none_yet : length q.attempts ≡ 0 = ap length h in
            let one : told (q.rounds ++ round_for (Engine.failed e c) ∷ [])
                ≡ (outcome_of e, none) ∷ [] =
              told-snoc q _ t.rounds ∙ rw h in
            rw none_yet
              (finish-Resolved n _ none none (unavailable e) w (refl, refl, one) (omega arith))
        go (a ∷ l) h =
            let some_yet : (length q.attempts == 0) ≡ false =
              subst (λ l'. (length l' == 0) ≡ false) (sym h) (ground arith) in
            rw some_yet (
              finish-Resolved n _ none none (all_replicas_failed q.attempts) w
                (
                  refl,
                  refl,
                  (λ e'. cc),
                  subst NoRepeat t.excluded t.distinct,
                  inr (e, told-snoc q _ t.rounds),
                )
                short)

    untried-distinct :
        (id : String) → includes q.exclude id ≡ false → NoRepeat (ids q.attempts ++ id ∷ [])
    untried-distinct id h =
        subst (λ l. NoRepeat (l ++ id ∷ [])) t.excluded (NoRepeat-append q.exclude id t.distinct h)

    stop-Keeps :
        (w : World) (id : String) (c : Capture) (e : SendError)
        → includes q.exclude id ≡ false
        → Keeps n (stop x n q w (Engine.picked id c) id e)
    unfolding stop round_for
    stop-Keeps w id c e h =
        finish-Resolved n _ none none (replica_request_failed id _ q.attempts) w
          (refl, refl, (_, told-snoc q _ t.rounds), untried-distinct id h) short

    retry-Keeps :
        (w : World) (id : String) (c : Capture) (e : ReplicaRequestError)
        → includes q.exclude id ≡ false
        → Keeps n (retry x n q (Engine.picked id c) id e w)
    unfolding retry round_for
    retry-Keeps w id c e h =
        let attempts = q.attempts ++ attempt_of id e ∷ [] in
        let r = failed_round (Engine.picked id c) (some (failure_of e)) in
        let count : length attempts ≡ n + 1 = length-snoc q.attempts _ ∙ ap (λ k. k + 1) t.count in
        let named : ids attempts ≡ ids q.attempts ++ id ∷ [] =
          map-snoc (λ a. a.replica_id) q.attempts _ in
        let distinct : NoRepeat (ids attempts) = rw named (untried-distinct id h) in
        let rounds : told (q.rounds ++ r ∷ []) ≡ retried attempts =
          told-snoc q r t.rounds ∙ sym (map-snoc _ q.attempts (attempt_of id e)) in
        elim (Bool-cases (ltb x.max_retries (length attempts))) [
          | inl last ↦ rw last (
              finish-Resolved n _ none none (all_replicas_failed attempts) _
                (
                  refl,
                  refl,
                  (λ e'. ground (arith, ap length e')),
                  distinct,
                  inl (omega (arith, count, t.bound, ltb→lt x.max_retries _ last), rounds),
                )
                (omega (arith, count, t.bound)))
          | inr more ↦ rw more (record {
            count = count;
            bound = ground (arith, count);
            excluded = ap (λ l. l ++ id ∷ []) t.excluded ∙ sym named;
            rounds = rounds;
            distinct = NoRepeat-append q.exclude id t.distinct h;
          })
        ]

    after_eject-Keeps :
        (w : World) (id : String) (c : Capture) (e : ReplicaRequestError) (at : String)
        → includes q.exclude id ≡ false
        → Keeps n (
            after_eject x n q
              (Engine.picked id c)
              id
              e
              w
              (eject x.thresholds id (reason_text e) at w.scheduler))
    after_eject-Keeps w id c e at h = go (eject x.thresholds id (reason_text e) at w.scheduler) refl
      where
        go :
            (o : Outcome (Scheduler String))
            → eject x.thresholds id (reason_text e) at w.scheduler ≡ o
            → Keeps n (after_eject x n q (Engine.picked id c) id e w o)
        go (done s) k = unfold after_eject in (retry-Keeps (record w { scheduler = s }) id c e h)
        go (threw error s) k = unfold after_eject in ((id, reason_text e, at, w.scheduler, k))

    pub on_answer-Keeps :
        (w : World) (id : String) (c : Capture) (answer : Answer B)
        → includes q.exclude id ≡ false
        → Keeps n (on_answer x n q w (Engine.picked id c) id c.strategy answer)
    unfolding on_answer round_for
    on_answer-Keeps w id c (responded body latency) h =
        finish-Resolved n _ (some id) (some latency) (served id c.strategy body latency q.attempts)
          w (refl, refl, told-snoc q _ t.rounds, untried-distinct id h) short
    on_answer-Keeps w id c (rejected (request_error e)) h = elim (Bool-cases (retryable e)) [
      | inl yes_ ↦ rw yes_ (after_eject-Keeps w id c e (x.stamp n).eject_at h)
      | inr no_ ↦ rw no_ (stop-Keeps w id c (request_error e) h)
    ]
    on_answer-Keeps w id c (rejected (other_error message)) h =
        stop-Keeps w id c (other_error message) h

    pub pass-Keeps : (w : World) → Keeps n (pass x n q w)
    unfolding pass
    pass-Keeps w = go (route w.held w.config w.scheduler.sink.replicas (some q.exclude)) refl
      where
        go :
            (o : RouteResult × Option RoutingStrategy)
            → route w.held w.config w.scheduler.sink.replicas (some q.exclude) ≡ o
            → Keeps n (on_decision x n q (record w { held = o.1 }) o.0)
        go (Engine.failed e c, next) k =
            unfold on_decision in (refused-Keeps (record w { held = next }) e c)
        go (Engine.picked id c, next) k =
            let (eligible, _) =
              route-picks (some q.exclude) w.scheduler.sink.replicas w.held w.config id c
                (ap (λ (o : RouteResult × Option RoutingStrategy). o.0) k) in
            let untried : includes q.exclude id ≡ false =
              subst (λ i. includes q.exclude i ≡ false) eligible.same_id eligible.untried in
            unfold on_decision in
            (on_answer-Keeps ((x.turn n id).meanwhile (record w { held = next })) id c
              (x.turn n id).answer untried)
