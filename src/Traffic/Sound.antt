-- ===== src/Traffic/Sound.antt =====
-- Traffic/Sound: every step keeps the router sound.
use whyrouted.Prelude.{
  ℕ, ◌+◌, String, false, Option, some, List, [], ◌∷◌, ◌++◌, All-append, Memᴰ, ◌≡◌, refl, sym, ap,
  ◌∙◌, subst, inl, inr, Option-cases,
}
use whyrouted.Routing.Engine
use whyrouted.Routing.Engine.{Capture, RouteError, RouteResult, route}
use whyrouted.Routing.Engine.Laws.{route-picks}
use whyrouted.Routing.Strategies.Dispatch.{RoutingStrategy}
use whyrouted.Health.Scheduler.{Scheduler}
use whyrouted.Health.Scheduler.Invariant.{IsPositive}
use whyrouted.Api.Route.{
  World, Answer, Stamp, Request, new_request, Reply, replied, crashed, Pass, finished, again,
  refused, on_answer,
}
use whyrouted.Api.Route.Trace.{Resolved, new_request-Retried}
use whyrouted.Api.Route.Steps.{Keeps, refused-Keeps, on_answer-Keeps}
use whyrouted.Api.Route.Fleet.{IsWatched, mem-find}
use whyrouted.Traffic.{
  Settings, Pending, Ended, Traffic, observed, context, ended_with, concluded, routed, depart,
  carried_on, arrive, polled, Event, requested, answered, probed, set_replica, set_strategy,
  set_scoring, picked_out, answered_one, step, run,
}
use whyrouted.Traffic.Steps.{Advances, refused-Advances, on_answer-Advances}
use whyrouted.Traffic.Watched.{poll-IsWatched, admin-IsWatched}
use whyrouted.Traffic.Accounts.{
  Accounts, Accounts-snoc, last_inj, Ready, Ready-Retried, Retried-Ready, IsWaiting, picked_out-All,
  IsSound,
}

module _ {B : Type 0} (c : Settings) (fleet : List String) (pos : IsPositive c.thresholds) where
  ended_with-IsSound :
      (id : String) (stamp : Stamp) (reply : Reply B) (t : Traffic B)
      → IsSound c fleet t
      → Advances (context c id stamp) fleet pos t.world (finished reply)
      → Resolved (context c id stamp) reply
      → IsSound c fleet (ended_with c id reply t)
  ended_with-IsSound id stamp (crashed e w) t s a r = absurd a
  ended_with-IsSound id stamp (replied response w) t s (v, d, e) (before, d', e', own, why, few) =
      let same : d ≡ d' = last_inj t.world.decisions before d d' (sym e ∙ e') in
      let over : Ended B = record { request_id = id; response = some response } in
      record {
        watched = v;
        waiting = s.waiting;
        accounts =
            subst (λ ds. Accounts c.max_retries ds (t.ended ++ over ∷ [])) (sym e)
              (Accounts-snoc c.max_retries t.world.decisions t.ended d over s.accounts (
                subst (λ k. Accounts c.max_retries (k ∷ []) (over ∷ [])) (sym same)
                  (own, (response, refl, why, few), tt)));
      }

  -- A pass up to its await.
  routed-IsSound :
      (id : String) (stamp : Stamp) (n : ℕ) (q : Request) (t : Traffic B)
      (o : RouteResult × Option RoutingStrategy)
      → route t.world.held t.world.config t.world.scheduler.sink.replicas (some q.exclude) ≡ o
      → IsSound c fleet t
      → Ready c id n q
      → IsSound c fleet (routed c id stamp n q t o)
  routed-IsSound id stamp n q t (Engine.picked replica capture, next) k s r =
      let w = t.world in
      let (eligible, _) =
        route-picks (some q.exclude) w.scheduler.sink.replicas w.held w.config replica capture
          (ap (λ (o : RouteResult × Option RoutingStrategy). o.0) k) in
      let (found, there) = mem-find w.scheduler.sink.replicas eligible.replica eligible.listed in
      record {
        watched = s.watched;
        waiting = All-append (IsWaiting c fleet) t.waiting _ s.waiting (
          (
            subst (λ i. Memᴰ i fleet) eligible.same_id (s.watched.registered _ found there),
            subst (λ i. Engine.includes q.exclude i ≡ false) eligible.same_id eligible.untried,
            r,
          ),
          tt,
        );
        accounts = s.accounts;
      }
  routed-IsSound id stamp n q t (Engine.failed e capture, next) k s r =
      let x = context {B = B} c id stamp in
      let w : World = record t.world { held = next } in
      of_pass (refused x n q w (Engine.failed e capture) e)
        (refused-Advances x fleet pos n q w s.watched (Engine.failed e capture) e)
        (refused-Keeps x n q (Ready-Retried c id stamp n q r) w e capture)
    where
      of_pass :
          (o : Pass B)
          → Advances (context c id stamp) fleet pos t.world o
          → Keeps (context c id stamp) n o
          → IsSound c fleet (concluded c id o t)
      of_pass (finished reply) a b = ended_with-IsSound id stamp reply t s a b
      of_pass (again q' w') (v, e') b = record {
        watched = v;
        waiting = s.waiting;
        accounts = subst (λ ds. Accounts c.max_retries ds t.ended) (sym e') s.accounts;
      }

  depart-IsSound :
      (id : String) (stamp : Stamp) (n : ℕ) (q : Request) (t : Traffic B)
      → IsSound c fleet t
      → Ready c id n q
      → IsSound c fleet (depart c id stamp n q t)
  unfolding depart
  depart-IsSound id stamp n q t s r = routed-IsSound id stamp n q t _ refl s r

  -- A pass from its await on.
  arrive-IsSound :
      (p : Pending) (stamp : Stamp) (answer : Answer B) (t : Traffic B)
      → IsSound c fleet t
      → IsWaiting c fleet p
      → IsSound c fleet (arrive c p stamp answer t)
  unfolding arrive
  arrive-IsSound p stamp answer t s (m, untried, r) =
      let x = context {B = B} c p.request_id stamp in
      of_pass
        (on_answer x p.n p.request t.world (Engine.picked p.replica_id p.capture) p.replica_id
          p.capture.strategy answer)
        (on_answer-Advances x fleet pos p.n p.request t.world s.watched
          (Engine.picked p.replica_id p.capture) p.replica_id p.capture.strategy answer m)
        (on_answer-Keeps x p.n p.request (Ready-Retried c p.request_id stamp p.n p.request r)
          t.world p.replica_id p.capture answer untried)
    where
      of_pass :
          (o : Pass B)
          → Advances (context c p.request_id stamp) fleet pos t.world o
          → Keeps (context c p.request_id stamp) p.n o
          → IsSound c fleet (carried_on c p.request_id stamp p.n o t)
      of_pass (finished reply) a b = ended_with-IsSound p.request_id stamp reply t s a b
      of_pass (again q' w') (v, e') b =
          depart-IsSound p.request_id stamp (p.n + 1) q' (record t { world = w' })
            (record {
              watched = v;
              waiting = s.waiting;
              accounts = subst (λ ds. Accounts c.max_retries ds t.ended) (sym e') s.accounts;
            })
            (Retried-Ready c p.request_id stamp (p.n + 1) q' b)

  -- The failover log plays no part.
  observed-IsSound :
      (event_id : String) (w : World) (t : Traffic B)
      → IsSound c fleet t
      → IsSound c fleet (record t { world = observed c event_id w t.world })
  unfolding observed
  observed-IsSound event_id w t s = record {
    watched = s.watched;
    waiting = s.waiting;
    accounts = s.accounts;
  }

  rescheduled-IsSound :
      (t : Traffic B) (s' : Scheduler String)
      → IsSound c fleet t
      → IsWatched c.thresholds fleet s'
      → IsSound c fleet (record t { world = record t.world { scheduler = s' } })
  rescheduled-IsSound t s' s v = record { watched = v; waiting = s.waiting; accounts = s.accounts }

  answered_one-IsSound :
      (t : Traffic B) (k : ℕ) (stamp : Stamp) (answer : Answer B)
      → IsSound c fleet t
      → IsSound c fleet (answered_one c (picked_out k t.waiting) stamp answer t)
  answered_one-IsSound t k stamp answer s = elim (Option-cases (picked_out k t.waiting)) [
    | inl none_there ↦
        subst (λ o. IsSound c fleet (answered_one c o stamp answer t)) (sym none_there) s
    | inr ((p, others), there) ↦
        let (hp, rest) = picked_out-All (IsWaiting c fleet) k t.waiting p others there s.waiting in
        let t' = record t { waiting = others } in
        subst (λ o. IsSound c fleet (answered_one c o stamp answer t)) (sym there)
          (observed-IsSound stamp.event_id t.world (arrive c p stamp answer t') (
            arrive-IsSound p stamp answer t'
              (record { watched = s.watched; waiting = rest; accounts = s.accounts }) hp))
  ]

  pub step-IsSound :
      (t : Traffic B) (e : Event B) → IsSound c fleet t → IsSound c fleet (step c t e)
  unfolding step polled
  step-IsSound t (requested id stamp) s =
      depart-IsSound id stamp 0 new_request t s
        (λ stamp'. new_request-Retried (context {B = Unit {0}} c id stamp'))
  step-IsSound t (answered k stamp answer) s = answered_one-IsSound t k stamp answer s
  step-IsSound t (probed id result at event_id) s = observed-IsSound event_id t.world _ (
      rescheduled-IsSound t _ s
        (poll-IsWatched c.thresholds fleet pos t.world.scheduler s.watched id result at))
  step-IsSound t (set_replica id admin) s =
      rescheduled-IsSound t _ s
        (admin-IsWatched c.thresholds fleet pos t.world.scheduler s.watched id admin)
  step-IsSound t (set_strategy name) s = record {
    watched = s.watched;
    waiting = s.waiting;
    accounts = s.accounts;
  }
  step-IsSound t (set_scoring weights) s = record {
    watched = s.watched;
    waiting = s.waiting;
    accounts = s.accounts;
  }

  pub run-IsSound :
      (es : List (Event B)) (t : Traffic B) → IsSound c fleet t → IsSound c fleet (run c t es)
  unfolding run
  run-IsSound [] t s = s
  run-IsSound (e ∷ es) t s = run-IsSound es (step c t e) (step-IsSound t e s)
