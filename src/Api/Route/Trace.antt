-- ===== src/Api/Route/Trace.antt =====
-- Api/Route/Trace: what the attempts of a request tell, and the induction over the passes of its loop.
use whyrouted.Prelude.{
  ℕ, zero, suc, ◌+◌, ◌≤◌, String, str_eq, str_eq_iff, false, ◌||◌, Option, none, some, List, [],
  ◌∷◌, ◌++◌, map, length, ◌≡◌, ◌≢◌, refl, ap, ◌∙◌, arith, ◌⊎◌,
}
use whyrouted.Routing.Engine.{RouteError, includes}
use whyrouted.Decisions.{Decision, DecisionRound, FailureReason, RoundOutcome, picked}
use whyrouted.Health.Scheduler.{Scheduler, threw, eject}
use whyrouted.Api.Route.{
  RouteAttempt, World, Context, Request, new_request, Response, served, unavailable,
  all_replicas_failed, replica_request_failed, Reply, replied, crashed, Pass, finished, again, pass,
  loop, after_pass, outcome_of,
}

abbrev pub Told : Type 0
Told = RoundOutcome × Option FailureReason

-- What the rounds of a decision say of each engine call.
abbrev pub told : List DecisionRound → List Told
told = map (λ r. (r.outcome, r.failure_reason))

-- What rounds say that ended in these attempts.
abbrev pub retried : List RouteAttempt → List Told
retried = map (λ a. (picked a.replica_id, some (record { kind = a.kind; status = a.status })))

abbrev pub ids : List RouteAttempt → List String
ids = map (λ a. a.replica_id)

abbrev pub NoRepeat : List String → Type 0
NoRepeat [] = Unit
NoRepeat (id ∷ rest) = (includes rest id ≡ false) × NoRepeat rest

includes-append :
    (xs : List String) (id new : String)
    → includes (xs ++ new ∷ []) id ≡ (includes xs id || str_eq new id)
includes-append [] id new = ground arith
includes-append (x ∷ xs) id new = ground (arith, includes-append xs id new)

pub NoRepeat-append :
    (xs : List String) (new : String)
    → NoRepeat xs
    → includes xs new ≡ false
    → NoRepeat (xs ++ new ∷ [])
NoRepeat-append [] new h k = (refl, tt)
NoRepeat-append (x ∷ xs) new h k = (
  ground (arith, includes-append xs x new, str_eq_iff x new, str_eq_iff new x),
  NoRepeat-append xs new h.1 (ground arith),
)

pub length-snoc {ℓ} : {A : Type ℓ} (xs : List A) (x : A) → length (xs ++ x ∷ []) ≡ length xs + 1
length-snoc [] x = refl
length-snoc (y ∷ xs) x = omega (arith, length-snoc xs x)

pub map-snoc {ℓ κ} :
    {A : Type ℓ} {B : Type κ} (f : A → B) (xs : List A) (x : A)
    → map f (xs ++ x ∷ []) ≡ map f xs ++ f x ∷ []
map-snoc f [] x = refl
map-snoc f (y ∷ xs) x = ground (arith, map-snoc f xs x)

abbrev pub attempts_in : {B : Type 0} → Response B → List RouteAttempt
attempts_in (served id strategy body latency attempts) = attempts
attempts_in (unavailable e) = []
attempts_in (all_replicas_failed attempts) = attempts
attempts_in (replica_request_failed id detail attempts) = attempts

-- A decision accounts for a response: the failed attempts are its first rounds, in order; a replica is
-- chosen, with its latency, exactly in a 200, and is then the one that answered; and no replica was
-- tried twice. A 503 after failures names them all, after the last retry or a round without a pick.
abbrev pub Explains : {B : Type 0} → ℕ → Decision → Response B → Type 0
Explains max d (served id strategy body latency attempts) =
    (d.chosen_replica_id ≡ some id)
    × (d.latency_ms ≡ some latency)
    × (told d.rounds ≡ retried attempts ++ (picked id, none) ∷ [])
    × NoRepeat (ids attempts ++ id ∷ [])
Explains max d (unavailable e) =
    (d.chosen_replica_id ≡ none)
    × (d.latency_ms ≡ none)
    × (told d.rounds ≡ (outcome_of e, none) ∷ [])
Explains max d (all_replicas_failed attempts) =
    (d.chosen_replica_id ≡ none)
    × (d.latency_ms ≡ none)
    × (attempts ≢ [])
    × NoRepeat (ids attempts)
    × (((length attempts ≡ max + 1) × (told d.rounds ≡ retried attempts))
        ⊎ ((e : RouteError) × (told d.rounds ≡ retried attempts ++ (outcome_of e, none) ∷ [])))
Explains max d (replica_request_failed id detail attempts) =
    (d.chosen_replica_id ≡ none)
    × (d.latency_ms ≡ none)
    × ((r : Option FailureReason) × (told d.rounds ≡ retried attempts ++ (picked id, r) ∷ []))
    × NoRepeat (ids attempts ++ id ∷ [])

module _ {B : Type 0} (x : Context B) where
  -- The handler replied and recorded the decision that accounts for its response, last; or `eject` threw.
  abbrev pub Resolved : Reply B → Type 0
  Resolved (replied response w) =
      (before : List Decision) × (d : Decision) × (w.decisions ≡ before ++ d ∷ [])
      × (d.request_id ≡ x.request_id)
      × Explains x.max_retries d response
      × (length (attempts_in response) ≤ x.max_retries + 1)
  Resolved (crashed e w) =
      (id reason at : String) × (s : Scheduler String) × (eject x.thresholds id reason at s
        ≡ threw e w.scheduler)

  -- Before pass `n`: `n` attempts have failed, each of another replica, and all are excluded now.
  pub record Retried (n : ℕ) (q : Request) : Type 0 where
    pub count : length q.attempts ≡ n
    pub bound : n ≤ x.max_retries
    pub excluded : q.exclude ≡ ids q.attempts
    pub rounds : told q.rounds ≡ retried q.attempts
    pub distinct : NoRepeat q.exclude

  abbrev pub PassKeeps : (ℕ → Request → World → Type 0) → (Reply B → Type 0) → ℕ → Pass B → Type 0
  PassKeeps P Q n (finished reply) = Q reply
  PassKeeps P Q n (again q w) = P (n + 1) q w

  pub PassKeeps-both :
      (P P' : ℕ → Request → World → Type 0) (Q Q' : Reply B → Type 0) (n : ℕ) (o : Pass B)
      → PassKeeps P Q n o
      → PassKeeps P' Q' n o
      → PassKeeps (λ n q w. P n q w × P' n q w) (λ r. Q r × Q' r) n o
  PassKeeps-both P P' Q Q' n (finished reply) k l = (k, l)
  PassKeeps-both P P' Q Q' n (again q w) k l = (k, l)

  pub new_request-Retried : Retried 0 new_request
  new_request-Retried = record {
    count = refl;
    bound = omega arith;
    excluded = refl;
    rounds = refl;
    distinct = tt;
  }

  -- What holds before each pass, and with it at the end; the fuel is enough.
  module _ (P : ℕ → Request → World → Type 0) (Q : Reply B → Type 0)
      (bound : (n : ℕ) (q : Request) (w : World) → P n q w → n ≤ x.max_retries)
      (step : (n : ℕ) (q : Request) (w : World) → P n q w → PassKeeps P Q n (pass x n q w)) where
    pub loop-induct :
        (fuel n : ℕ) (q : Request) (w : World)
        → fuel + n ≡ x.max_retries + 1
        → P n q w
        → (reply : Reply B) × (loop x fuel n q w ≡ some reply) × Q reply
    unfolding loop
    loop-induct zero n q w e p = absurd (omega (arith, bound n q w p))
    loop-induct (suc fuel) n q w e p =
        go (loop-induct fuel (n + 1)) (pass x n q w) refl (step n q w p)
      where
        go :
            ((q' : Request) (w' : World)
              → fuel + (n + 1) ≡ x.max_retries + 1
              → P (n + 1) q' w'
              → (reply : Reply B) × (loop x fuel (n + 1) q' w' ≡ some reply) × Q reply)
            → (o : Pass B) → pass x n q w ≡ o
            → PassKeeps P Q n o
            → (reply : Reply B) × (loop x (suc fuel) n q w ≡ some reply) × Q reply
        go rest (finished reply) h k = (reply, ap (after_pass x (loop x fuel (n + 1))) h, k)
        go rest (again q' w') h k =
            let (reply, e', k') = rest q' w' (omega arith) k in
            (reply, ap (after_pass x (loop x fuel (n + 1))) h ∙ e', k')
