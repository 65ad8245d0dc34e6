-- ===== src/Traffic/Failovers.antt =====
-- Traffic/Failovers: an ejection by a request reaches the failover log through `handleRoute`, and not a second
-- time through `onTransition`.
use whyrouted.Prelude.{
  ◌≡◌, sym, ap, append_assoc, arith, Option-cases, str_eq_refl, ℕ, ◌+◌, ltb, String, Option, none,
  some, List, [], ◌∷◌, ◌++◌, append-nil, length, refl, ◌∙◌, inl, inr, Bool-cases,
}
use whyrouted.Routing.Engine
use whyrouted.Routing.Engine.{RouteError, RouteResult}
use whyrouted.Routing.Weights.{StrategyName}
use whyrouted.Routing.Strategies.Dispatch.{RoutingStrategy}
use whyrouted.Decisions.{DecisionRound}
use whyrouted.Adapter.{ReplicaRequestError, retryable, SendError, request_error, other_error}
use whyrouted.Events.{record_event}
use whyrouted.Health.Scheduler.{
  HealthResult, Scheduler, Outcome, done, threw, state_of, get, poll_one,
}
use whyrouted.Health.Scheduler.Model
use whyrouted.Health.Scheduler.Model.{moves}
use whyrouted.Health.Scheduler.Laws.{poll_one_lem}
use whyrouted.Health.Scheduler.Invariant.{IsPositive, poll_unknown}
use whyrouted.Traffic.Accounts.{IsSound}
use whyrouted.Traffic.Sound.{step-IsSound}
use whyrouted.Health.Scheduler.Reports.{Adds, eject-Adds}
use whyrouted.Api.Route.{
  World, Answer, responded, rejected, Context, Stamp, Request, new_request, Response, Reply,
  replied, crashed, Pass, finished, again, finish, refused, retry, after_eject, stop, on_answer,
  reason_text, attempt_of, event_for,
}
use whyrouted.Traffic.{
  Settings, Pending, Traffic, polled, context, ended_with, routed, depart, carried_on, arrive,
  Event, requested, answered, probed, set_replica, set_strategy, set_scoring, picked_out,
  answered_one, step, run, observed,
}
use whyrouted.Traffic.Log.{
  Entry, by_checks, by_checks-append, Grown, IsStill, IsStill-Grown, Grown-trans, HasReason,
  due_for-none, observed-by_checks, changed, changed_held, due_for-moves,
}

module _ {B : Type 0} (x : Context B) where
  -- The world that a pass leaves has grown.
  abbrev Grows : World → Pass B → Type 0
  Grows w (finished (replied response w')) = Grown w w'
  Grows w (finished (crashed e w')) = Grown w w'
  Grows w (again q w') = Grown w w'

  module _ (n : ℕ) (q : Request) (w : World) where
    finish-Grows :
        (v : World) (rounds : List DecisionRound) (chosen : Option String) (latency : Option ℕ)
        (response : Response B)
        → Grown w v
        → Grows w (finish x n rounds chosen latency response v)
    unfolding finish
    finish-Grows v rounds chosen latency response g = record {
      added = g.added;
      grown = g.grown;
      each = g.each;
      kept = g.kept;
    }

    stop-Grows :
        (decision : RouteResult) (id : String) (e : SendError)
        → Grows w (stop x n q w decision id e)
    unfolding stop
    stop-Grows decision id e = finish-Grows w _ none none _ (IsStill-Grown w w (refl, refl))

    retry-Grows :
        (decision : RouteResult) (id : String) (e : ReplicaRequestError) (v : World)
        → Grown w v
        → Grows w (retry x n q decision id e v)
    unfolding retry record_event
    retry-Grows decision id e v g =
        let v' : World = record v { failovers = v.failovers ++ event_for x n id e ∷ [] } in
        let g' : Grown w v' = record {
          added = g.added;
          grown = g.grown;
          each = g.each;
          kept = by_checks-append v.failovers _ ∙ append-nil (by_checks v.failovers) ∙ g.kept;
        } in
        elim (Bool-cases (ltb x.max_retries (length (q.attempts ++ attempt_of id e ∷ [])))) [
          | inl last ↦ rw last (finish-Grows v' _ none none _ g')
          | inr more ↦ rw more g'
        ]

    after_eject-Grows :
        (decision : RouteResult) (id : String) (e : ReplicaRequestError)
        (o : Outcome (Scheduler String))
        → Adds HasReason w.scheduler o
        → Grows w (after_eject x n q decision id e w o)
    unfolding after_eject
    after_eject-Grows decision id e (done s) a =
        retry-Grows decision id e (record w { scheduler = s })
          (record { added = a.added; grown = a.grown; each = a.each; kept = refl })
    after_eject-Grows decision id e (threw error s) a = record {
      added = a.added;
      grown = a.grown;
      each = a.each;
      kept = refl;
    }

    on_answer-Grows :
        (decision : RouteResult) (id : String) (strategy : StrategyName) (answer : Answer B)
        → Grows w (on_answer x n q w decision id strategy answer)
    unfolding on_answer
    on_answer-Grows decision id strategy (responded body latency) =
        finish-Grows w _ (some id) (some latency) _ (IsStill-Grown w w (refl, refl))
    on_answer-Grows decision id strategy (rejected (request_error e)) =
        elim (Bool-cases (retryable e)) [
          | inl again_ ↦ rw again_ (
              after_eject-Grows decision id e _ (
                eject-Adds HasReason x.thresholds id (x.stamp n).eject_at (reason_text e)
                  w.scheduler (λ t r. (reason_text e, r))))
          | inr stop_ ↦ rw stop_ (stop-Grows decision id (request_error e))
        ]
    on_answer-Grows decision id strategy (rejected (other_error message)) =
        stop-Grows decision id (other_error message)

module _ {B : Type 0} (c : Settings) where
  ended_with-Grown :
      (id : String) (stamp : Stamp) (reply : Reply B) (t : Traffic B)
      → Grows (context c id stamp) t.world (finished reply)
      → Grown t.world (ended_with c id reply t).world
  ended_with-Grown id stamp (replied response w) t g = g
  ended_with-Grown id stamp (crashed e w) t g = g

  -- Up to its await a pass touches neither.
  routed-IsStill :
      (id : String) (stamp : Stamp) (n : ℕ) (q : Request) (t : Traffic B)
      (o : RouteResult × Option RoutingStrategy)
      → IsStill t.world (routed c id stamp n q t o).world
  unfolding refused finish
  routed-IsStill id stamp n q t (Engine.picked replica capture, next) = (refl, refl)
  routed-IsStill id stamp n q t (Engine.failed e capture, next) = (refl, refl)

  depart-IsStill :
      (id : String) (stamp : Stamp) (n : ℕ) (q : Request) (t : Traffic B)
      → IsStill t.world (depart c id stamp n q t).world
  unfolding depart
  depart-IsStill id stamp n q t = routed-IsStill id stamp n q t _

  carried_on-Grown :
      (id : String) (stamp : Stamp) (n : ℕ) (o : Pass B) (t : Traffic B)
      → Grows (context c id stamp) t.world o
      → Grown t.world (carried_on c id stamp n o t).world
  carried_on-Grown id stamp n (finished reply) t g = ended_with-Grown id stamp reply t g
  carried_on-Grown id stamp n (again q w) t g =
      Grown-trans t.world w _ g
        (IsStill-Grown w _ (depart-IsStill id stamp (n + 1) q (record t { world = w })))

  arrive-Grown :
      (p : Pending) (stamp : Stamp) (answer : Answer B) (t : Traffic B)
      → Grown t.world (arrive c p stamp answer t).world
  unfolding arrive
  arrive-Grown p stamp answer t = carried_on-Grown p.request_id stamp p.n _ t (
      on_answer-Grows (context c p.request_id stamp) p.n p.request t.world _ p.replica_id
        p.capture.strategy answer)

  answered_one-by_checks :
      (o : Option (Pending × List Pending)) (stamp : Stamp) (answer : Answer B) (t : Traffic B)
      → by_checks (answered_one c o stamp answer t).world.failovers ≡ by_checks t.world.failovers
  answered_one-by_checks none stamp answer t = refl
  answered_one-by_checks (some (p, others)) stamp answer t =
      let t' = arrive c p stamp answer (record t { waiting = others }) in
      let g = arrive-Grown p stamp answer (record t { waiting = others }) in
      observed-by_checks c stamp.event_id t.world t'.world g.added g.grown g.kept
      ∙ ap (by_checks t.world.failovers ++◌) (due_for-none g.added g.each)
      ∙ append-nil (by_checks t.world.failovers)

  -- What one event owes the log from health checks: a probe the change of health that it has made, going by
  -- the scheduler's record of the replica before and after; any other event nothing.
  abbrev owed : Traffic B → Event B → List Entry
  owed t (probed id result at event_id) =
      changed id at (get id t.world.scheduler.hysteresis)
        (get id (step c t (probed id result at event_id)).world.scheduler.hysteresis)
  owed t _ = []

  abbrev pub all_owed : Traffic B → List (Event B) → List Entry
  all_owed t [] = []
  all_owed t (e ∷ es) = owed t e ++ all_owed (step c t e) es

  module _ (fleet : List String) (pos : IsPositive c.thresholds) where
    probed-by_checks :
        (t : Traffic B) (id : String) (result : HealthResult) (at event_id : String)
        → IsSound c fleet t
        → let t' = step c t (probed id result at event_id) in
          by_checks t'.world.failovers
          ≡ by_checks t.world.failovers
            ++ changed id at
                (get id t.world.scheduler.hysteresis)
                (get id t'.world.scheduler.hysteresis)
    unfolding step polled observed
    probed-by_checks t id result at event_id sound =
        let s = t.world.scheduler in
        let w' : World = record t.world {
          scheduler = state_of (poll_one c.thresholds id result at s);
        } in
        elim (Option-cases (get id s.hysteresis)) [
          | inl lost ↦
              let same : state_of (poll_one c.thresholds id result at s) ≡ s =
                ap state_of (poll_unknown c.thresholds id result at s lost) in
              rw lost (
                observed-by_checks c event_id t.world w' []
                  (ap (λ (v : Scheduler String). v.transitions) same
                    ∙ sym (append-nil s.transitions))
                  refl)
          | inr (h, held) ↦
              let (r, found, mirror, _) = sound.watched.in_step id h held in
              let (v, e, changes) =
                poll_one_lem c.thresholds id at s h r held found mirror result in
              let after : state_of (poll_one c.thresholds id result at s) ≡ v = ap state_of e in
              let h' = Model.probed c.thresholds result.alive h in
              let there : get id v.hysteresis ≡ some h' =
                ground (arith, changes.hysteresis id, str_eq_refl id) in
              let ts = moves id h.health h'.health at none in
              observed-by_checks c event_id t.world w' ts
                (ap (λ (u : Scheduler String). u.transitions) after ∙ changes.transitions) refl
              ∙ ap (by_checks t.world.failovers ++◌) (
                  due_for-moves id at h.health h'.health
                  ∙ sym (
                      changed_held id at _ _ h h' held
                        (ap (λ (u : Scheduler String). get id u.hysteresis) after ∙ there)))
        ]

    step-by_checks :
        (t : Traffic B) (e : Event B)
        → IsSound c fleet t
        → by_checks (step c t e).world.failovers ≡ by_checks t.world.failovers ++ owed t e
    unfolding step
    step-by_checks t (requested id stamp) sound =
        ap by_checks (depart-IsStill id stamp 0 new_request t).1
        ∙ sym (append-nil (by_checks t.world.failovers))
    step-by_checks t (answered k stamp answer) sound =
        answered_one-by_checks (picked_out k t.waiting) stamp answer t
        ∙ sym (append-nil (by_checks t.world.failovers))
    step-by_checks t (probed id result at event_id) sound =
        probed-by_checks t id result at event_id sound
    step-by_checks t (set_replica id admin) sound = sym (append-nil (by_checks t.world.failovers))
    step-by_checks t (set_strategy name) sound = sym (append-nil (by_checks t.world.failovers))
    step-by_checks t (set_scoring weights) sound = sym (append-nil (by_checks t.world.failovers))

    pub run-by_checks :
        (es : List (Event B)) (t : Traffic B)
        → IsSound c fleet t
        → by_checks (run c t es).world.failovers ≡ by_checks t.world.failovers ++ all_owed t es
    unfolding run
    run-by_checks [] t sound = sym (append-nil (by_checks t.world.failovers))
    run-by_checks (e ∷ es) t sound =
        run-by_checks es (step c t e) (step-IsSound c fleet pos t e sound)
        ∙ ap (◌++ all_owed (step c t e) es) (step-by_checks t e sound)
        ∙ append_assoc (by_checks t.world.failovers) (owed t e) (all_owed (step c t e) es)
