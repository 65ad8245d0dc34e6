-- ===== src/Api/Route/Fleet.antt =====
-- Api/Route/Fleet: over a fleet that the scheduler watches, a request always gets a reply, and leaves the
-- replicas that failed it unhealthy.
use whyrouted.Prelude.{
  ℕ, ◌+◌, ltb, ◌==◌, String, str_eq, str_eq_iff, false, Option, none, some, List, [], ◌∷◌, ◌++◌,
  length, if◌then◌else◌, All, All-append, Memᴰ, ◌≡◌, refl, sym, ap, subst, arith, str_eq_refl, inl,
  inr, Bool-cases, Option-cases,
}
use whyrouted.Types.{ReplicaState, unhealthy}
use whyrouted.Registry.{find}
use whyrouted.Routing.Weights.{StrategyName}
use whyrouted.Routing.Strategies.Dispatch.{RoutingStrategy}
use whyrouted.Routing.Engine
use whyrouted.Routing.Engine.{Capture, RouteError, RouteResult, route}
use whyrouted.Routing.Engine.Laws.{route-picks}
use whyrouted.Health.Scheduler.{Scheduler, Thresholds, Hysteresis, done, get, eject, state_of}
use whyrouted.Health.Scheduler.Model.{ejected}
use whyrouted.Health.Scheduler.Laws.{eject_lem}
use whyrouted.Health.Scheduler.Invariant.{IsValid, IsPositive, step-IsValid, ejects, step}
use whyrouted.Decisions.{DecisionRound}
use whyrouted.Adapter.{ReplicaRequestError, retryable, SendError, request_error, other_error}
use whyrouted.Api.Route.{
  RouteAttempt, World, Answer, responded, rejected, Context, Request, new_request, Response, served,
  unavailable, all_replicas_failed, replica_request_failed, Reply, replied, crashed, Pass, pass,
  handle_route, attempt_of, reason_text, finish, refused, retry, after_eject, stop, on_answer,
  on_decision,
}
use whyrouted.Api.Route.Trace.{
  attempts_in, ids, Resolved, Retried, PassKeeps, PassKeeps-both, new_request-Retried, loop-induct,
  map-snoc,
}
use whyrouted.Api.Route.Steps.{pass-Keeps}

abbrev pub IsDown : Scheduler String → String → Type 0
IsDown s id = (h : Hysteresis) × (get id s.hysteresis ≡ some h) × (h.health ≡ unhealthy)

pub mem-find :
    (rs : List ReplicaState) (r : ReplicaState)
    → Memᴰ r rs
    → (found : ReplicaState) × (find r.id rs ≡ some found)
unfolding find
mem-find [] r m = elim m [ ]
mem-find (s ∷ ss) r m = elim (Bool-cases (str_eq s.id r.id)) [
  | inl e ↦ (s, rw e)
  | inr e ↦ rw e (mem-find ss r (later m e))
]
  where
    later : Memᴰ r (s ∷ ss) → str_eq s.id r.id ≡ false → Memᴰ r ss
    later (Memᴰ.head i) e = absurd (ground (arith, str_eq_iff s.id r.id))
    later (Memᴰ.tail n) e = n

module _ (opts : Thresholds) (fleet : List String) where
  -- The registry holds no other replicas than the fleet, the scheduler was started with each of them,
  -- and it is in step with the registry.
  pub record IsWatched (s : Scheduler String) : Type 0 where
    pub registered :
        (id : String) (r : ReplicaState) → find id s.sink.replicas ≡ some r → Memᴰ id fleet
    pub watched : (id : String) → Memᴰ id fleet → (h : Hysteresis) × (get id s.hysteresis ≡ some h)
    pub in_step : IsValid opts s

  -- An ejection of a replica of the fleet does not throw, and takes down that replica alone.
  pub eject-IsWatched :
      (pos : IsPositive opts) (id reason at : String) (s : Scheduler String)
      → IsWatched s
      → Memᴰ id fleet
      → (t : Scheduler String) × (eject opts id reason at s ≡ done t)
        × IsWatched t
        × IsDown t id
        × ((j : String) → IsDown s j → IsDown t j)
  unfolding ejected
  eject-IsWatched pos id reason at s v m =
      let (h, held) = v.watched id m in
      let (r, found, mirror, _) = v.in_step id h held in
      let (t, e, c) = eject_lem opts id at s h r held found mirror reason in
      (
        t,
        e,
        record {
          registered = λ j k p. elim (Option-cases (find j s.sink.replicas)) [
            | inl none_there ↦ absurd (ground (arith, c.sink j, found, str_eq_iff id j))
            | inr (k', there) ↦ v.registered j k' there
          ];
          watched = λ j n.
              let (k, p) = v.watched j n in
              elim (Bool-cases (str_eq id j)) [
                | inl same ↦ (ejected opts h, ground (arith, c.hysteresis j))
                | inr other ↦ (k, ground (arith, c.hysteresis j))
              ];
          in_step =
              subst (λ o. IsValid opts (state_of o)) e
                (unfold step in (step-IsValid opts pos s v.in_step (ejects id reason at)));
        },
        (ejected opts h, ground (arith, c.hysteresis id, str_eq_refl id), ground arith),
        λ j (k, p, q). elim (Bool-cases (str_eq id j)) [
          | inl same ↦ (ejected opts h, ground (arith, c.hysteresis j), ground arith)
          | inr other ↦ (k, ground (arith, c.hysteresis j), q)
        ],
      )

module _ {B : Type 0} (x : Context B) (fleet : List String) (pos : IsPositive x.thresholds) where
  -- What goes on meanwhile keeps the fleet watched, and ends within the time that an unhealthy replica
  -- needs to recover.
  pub record IsCalm : Type 0 where
    pub watched :
        (n : ℕ) (id : String) (w : World)
        → IsWatched x.thresholds fleet w.scheduler
        → IsWatched x.thresholds fleet ((x.turn n id).meanwhile w).scheduler
    pub down :
        (n : ℕ) (id : String) (w : World) (j : String)
        → IsDown w.scheduler j
        → IsDown ((x.turn n id).meanwhile w).scheduler j

  abbrev pub AreDown : World → List RouteAttempt → Type 0
  AreDown w attempts = All (IsDown w.scheduler) (ids attempts)

  abbrev pub EndsDown : Reply B → Type 0
  EndsDown (replied response w) =
      IsWatched x.thresholds fleet w.scheduler × AreDown w (attempts_in response)
  EndsDown (crashed e w) = ⊥

  abbrev Held : Request → World → Type 0
  Held q w = IsWatched x.thresholds fleet w.scheduler × AreDown w q.attempts

  All-map :
      (P Q : String → Type 0) (xs : List String) → ((a : String) → P a → Q a) → All P xs → All Q xs
  All-map P Q [] f h = tt
  All-map P Q (a ∷ xs) f h = (f a h.0, All-map P Q xs f h.1)

  module _ (n : ℕ) (q : Request) where
    abbrev Keeps : Pass B → Type 0
    Keeps o = PassKeeps x (λ n q w. Held q w) EndsDown n o

    finish-EndsDown :
        (rounds : List DecisionRound) (chosen : Option String) (latency : Option ℕ)
        (response : Response B) (w : World)
        → IsWatched x.thresholds fleet w.scheduler
        → AreDown w (attempts_in response)
        → Keeps (finish x n rounds chosen latency response w)
    unfolding finish
    finish-EndsDown rounds chosen latency response w v d = (v, d)

    refused-attempts :
        (attempts : List RouteAttempt) (e : RouteError)
        → attempts_in {B = B}
            (if length attempts == 0 then unavailable e else all_replicas_failed attempts)
          ≡ attempts
    refused-attempts [] e = refl
    refused-attempts (a ∷ attempts) e = ground arith

    refused-EndsDown :
        (w : World) (decision : RouteResult) (e : RouteError)
        → Held q w
        → Keeps (refused x n q w decision e)
    unfolding refused
    refused-EndsDown w decision e (v, d) =
        finish-EndsDown _ none none _ w v
          (subst (AreDown w) (sym (refused-attempts q.attempts e)) d)

    stop-EndsDown :
        (w : World) (decision : RouteResult) (id : String) (e : SendError)
        → Held q w
        → Keeps (stop x n q w decision id e)
    unfolding stop
    stop-EndsDown w decision id e (v, d) =
        finish-EndsDown _ none none (replica_request_failed id _ q.attempts) w v d

    retry-EndsDown :
        (w : World) (decision : RouteResult) (id : String) (e : ReplicaRequestError)
        → Held q w
        → IsDown w.scheduler id
        → Keeps (retry x n q decision id e w)
    unfolding retry
    retry-EndsDown w decision id e (v, d) down =
        let attempts = q.attempts ++ attempt_of id e ∷ [] in
        let all_down : AreDown w attempts =
          subst (All (IsDown w.scheduler)) (sym (map-snoc _ q.attempts (attempt_of id e)))
            (All-append (IsDown w.scheduler) (ids q.attempts) (id ∷ []) d (down, tt)) in
        elim (Bool-cases (ltb x.max_retries (length attempts))) [
          | inl last ↦
              rw last (finish-EndsDown _ none none (all_replicas_failed attempts) _ v all_down)
          | inr more ↦ rw more (v, all_down)
        ]

    after_eject-EndsDown :
        (w : World) (decision : RouteResult) (id at : String) (e : ReplicaRequestError)
        → Held q w
        → Memᴰ id fleet
        → Keeps (
            after_eject x n q decision id e w
              (eject x.thresholds id (reason_text e) at w.scheduler))
    after_eject-EndsDown w decision id at e (v, d) m =
        let (t, k, v', down, stay) =
          eject-IsWatched x.thresholds fleet pos id (reason_text e) at w.scheduler v m in
        subst (λ o. Keeps (after_eject x n q decision id e w o)) (sym k)
          (unfold after_eject in
            (retry-EndsDown (record w { scheduler = t }) decision id e
              (v', All-map (IsDown w.scheduler) (IsDown t) (ids q.attempts) stay d) down))

    on_answer-EndsDown :
        (w : World) (decision : RouteResult) (id : String) (strategy : StrategyName)
        (answer : Answer B)
        → Held q w
        → Memᴰ id fleet
        → Keeps (on_answer x n q w decision id strategy answer)
    unfolding on_answer
    on_answer-EndsDown w decision id strategy (responded body latency) (v, d) m =
        finish-EndsDown _ (some id) (some latency) (served id strategy body latency q.attempts) w v
          d
    on_answer-EndsDown w decision id strategy (rejected (request_error e)) h m =
        elim (Bool-cases (retryable e)) [
          | inl again_ ↦ rw again_ (after_eject-EndsDown w decision id (x.stamp n).eject_at e h m)
          | inr stop_ ↦ rw stop_ (stop-EndsDown w decision id (request_error e) h)
        ]
    on_answer-EndsDown w decision id strategy (rejected (other_error message)) h m =
        stop-EndsDown w decision id (other_error message) h

    pass-EndsDown : (w : World) → IsCalm → Held q w → Keeps (pass x n q w)
    unfolding pass
    pass-EndsDown w calm (v, d) =
        go (route w.held w.config w.scheduler.sink.replicas (some q.exclude)) refl
      where
        go :
            (o : RouteResult × Option RoutingStrategy)
            → route w.held w.config w.scheduler.sink.replicas (some q.exclude) ≡ o
            → Keeps (on_decision x n q (record w { held = o.1 }) o.0)
        go (Engine.failed e c, next) k =
            unfold on_decision in
            (refused-EndsDown (record w { held = next }) (Engine.failed e c) e (v, d))
        go (Engine.picked id c, next) k =
            let (eligible, _) =
              route-picks (some q.exclude) w.scheduler.sink.replicas w.held w.config id c
                (ap (λ (o : RouteResult × Option RoutingStrategy). o.0) k) in
            let (found, there) =
              mem-find w.scheduler.sink.replicas eligible.replica eligible.listed in
            let m : Memᴰ id fleet =
              subst (λ i. Memᴰ i fleet) eligible.same_id (v.registered _ found there) in
            let w' : World = record w { held = next } in
            unfold on_decision in
            (on_answer-EndsDown ((x.turn n id).meanwhile w') (Engine.picked id c) id c.strategy
              (x.turn n id).answer
              (
                calm.watched n id w' v,
                All-map (IsDown w.scheduler) _ (ids q.attempts) (λ j. calm.down n id w' j) d,
              )
              m)

  -- With thresholds of at least 1, over a fleet that the scheduler watches, and if what goes on meanwhile keeps
  -- the fleet watched and brings no unhealthy replica back: no ejection throws and the handler
  -- replies, with the fleet still watched and each replica that failed the request unhealthy.
  pub handle_route-replies :
      (w : World)
      → IsCalm
      → IsWatched x.thresholds fleet w.scheduler
      → (response : Response B) × (w' : World) × (handle_route x w ≡ some (replied response w'))
        × IsWatched x.thresholds fleet w'.scheduler
        × AreDown w' (attempts_in response)
  unfolding handle_route
  handle_route-replies w calm v =
      let (reply, e, (_, h)) =
        loop-induct x (λ n q v. Retried x n q × Held q v) (λ r. Resolved x r × EndsDown r)
          (λ n q v l. l.0.bound)
          (λ n q v l.
            PassKeeps-both x (λ n q v. Retried x n q) (λ n q v. Held q v) (Resolved x) EndsDown n
              (pass x n q v) (pass-Keeps x n q l.0 v) (pass-EndsDown n q v calm l.1))
          (x.max_retries + 1) 0 new_request w (omega arith) (new_request-Retried x, (v, tt)) in
      go reply e h
    where
      go :
          (reply : Reply B)
          → handle_route x w ≡ some reply
          → EndsDown reply
          → (response : Response B) × (w' : World) × (handle_route x w ≡ some (replied response w'))
            × IsWatched x.thresholds fleet w'.scheduler
            × AreDown w' (attempts_in response)
      go (replied response w') e (v', d) = (response, w', e, v', d)
      go (crashed error w') e h = absurd h
