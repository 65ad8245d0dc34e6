-- ===== src/Traffic/Steps.antt =====
-- Traffic/Steps: what a pass of a request does to the world, on each of its branches.
use whyrouted.Prelude.{
  ℕ, ltb, String, Option, none, some, List, [], ◌∷◌, ◌++◌, length, Memᴰ, ◌≡◌, refl, sym, subst, inl,
  inr, Bool-cases,
}
use whyrouted.Routing.Engine.{RouteError, RouteResult}
use whyrouted.Routing.Weights.{StrategyName}
use whyrouted.Health.Scheduler.{Scheduler, eject}
use whyrouted.Health.Scheduler.Invariant.{IsPositive}
use whyrouted.Decisions.{Decision, DecisionRound, record_decision}
use whyrouted.Adapter.{ReplicaRequestError, retryable, SendError, request_error, other_error}
use whyrouted.Api.Route.{
  World, Answer, responded, rejected, Context, Request, Response, replied, crashed, Pass, finished,
  again, finish, refused, retry, after_eject, stop, on_answer, reason_text, attempt_of,
}
use whyrouted.Api.Route.Fleet.{IsWatched, eject-IsWatched}

module _ {B : Type 0} (x : Context B) (fleet : List String) (pos : IsPositive x.thresholds) where
  -- The fleet is still watched; a pass that ends the request has recorded one decision more, and one
  -- that goes round again none. It does not crash.
  abbrev pub Advances : World → Pass B → Type 0
  Advances w (finished (replied response w')) =
      IsWatched x.thresholds fleet w'.scheduler
      × (d : Decision) × (w'.decisions ≡ w.decisions ++ d ∷ [])
  Advances w (finished (crashed e w')) = ⊥
  Advances w (again q w') = IsWatched x.thresholds fleet w'.scheduler × (w'.decisions ≡ w.decisions)

  module _ (n : ℕ) (q : Request) (w : World) (v : IsWatched x.thresholds fleet w.scheduler) where
    finish-Advances :
        (rounds : List DecisionRound) (chosen : Option String) (latency : Option ℕ)
        (response : Response B)
        → Advances w (finish x n rounds chosen latency response w)
    unfolding finish record_decision
    finish-Advances rounds chosen latency response = (v, _, refl)

    pub refused-Advances :
        (decision : RouteResult) (e : RouteError) → Advances w (refused x n q w decision e)
    unfolding refused
    refused-Advances decision e = finish-Advances _ none none _

    stop-Advances :
        (decision : RouteResult) (id : String) (e : SendError)
        → Advances w (stop x n q w decision id e)
    unfolding stop
    stop-Advances decision id e = finish-Advances _ none none _

    retry-Advances :
        (decision : RouteResult) (id : String) (e : ReplicaRequestError) (s : Scheduler String)
        → IsWatched x.thresholds fleet s
        → Advances w (retry x n q decision id e (record w { scheduler = s }))
    unfolding retry finish record_decision
    retry-Advances decision id e s v' =
        elim (Bool-cases (ltb x.max_retries (length (q.attempts ++ attempt_of id e ∷ [])))) [
          | inl last ↦ rw last (v', _, refl)
          | inr more ↦ rw more (v', refl)
        ]

    after_eject-Advances :
        (decision : RouteResult) (id at : String) (e : ReplicaRequestError)
        → Memᴰ id fleet
        → Advances w (
            after_eject x n q decision id e w
              (eject x.thresholds id (reason_text e) at w.scheduler))
    after_eject-Advances decision id at e m =
        let (t, k, v', _, _) =
          eject-IsWatched x.thresholds fleet pos id (reason_text e) at w.scheduler v m in
        subst (λ o. Advances w (after_eject x n q decision id e w o)) (sym k)
          (unfold after_eject in (retry-Advances decision id e t v'))

    pub on_answer-Advances :
        (decision : RouteResult) (id : String) (strategy : StrategyName) (answer : Answer B)
        → Memᴰ id fleet
        → Advances w (on_answer x n q w decision id strategy answer)
    unfolding on_answer
    on_answer-Advances decision id strategy (responded body latency) m =
        finish-Advances _ (some id) (some latency) _
    on_answer-Advances decision id strategy (rejected (request_error e)) m =
        elim (Bool-cases (retryable e)) [
          | inl again_ ↦ rw again_ (after_eject-Advances decision id (x.stamp n).eject_at e m)
          | inr stop_ ↦ rw stop_ (stop-Advances decision id (request_error e))
        ]
    on_answer-Advances decision id strategy (rejected (other_error message)) m =
        stop-Advances decision id (other_error message)
