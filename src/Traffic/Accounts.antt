-- ===== src/Traffic/Accounts.antt =====
-- Traffic/Accounts: what holds of the router at any time. No handler crashes, and the decision log accounts
-- for the responses.
use whyrouted.Prelude.{
  ℕ, zero, suc, ◌+◌, ◌≤◌, String, false, some, List, [], ◌∷◌, ◌++◌, length, All, Memᴰ, ◌≡◌, subst,
  arith, inl, inr, Option-cases,
}
use whyrouted.Routing.Engine
use whyrouted.Routing.Engine.{Capture, RouteError, RouteResult, route}
use whyrouted.Decisions.{Decision}
use whyrouted.Api.Route.{Stamp, Request, Response}
use whyrouted.Api.Route.Trace.{attempts_in, Explains, Retried}
use whyrouted.Api.Route.Fleet.{IsWatched}
use whyrouted.Traffic.{Settings, Pending, Ended, Traffic, context, picked_out}

-- The decisions and the requests that are over, one for one and in the same order: each request has a
-- response, its decision explains that response, and it made no more attempts than are allowed.
module _ {B : Type 0} (max : ℕ) where
  abbrev pub Accounts : List Decision → List (Ended B) → Type 0
  Accounts [] [] = Unit
  Accounts (d ∷ ds) (e ∷ es) =
      (d.request_id ≡ e.request_id)
      × ((response : Response B) × (e.response ≡ some response)
          × Explains max d response
          × (length (attempts_in response) ≤ max + 1))
      × Accounts ds es
  Accounts _ _ = ⊥

  pub Accounts-snoc :
      (ds : List Decision) (es : List (Ended B)) (d : Decision) (e : Ended B)
      → Accounts ds es
      → Accounts (d ∷ []) (e ∷ [])
      → Accounts (ds ++ d ∷ []) (es ++ e ∷ [])
  Accounts-snoc [] [] d e h k = k
  Accounts-snoc (d' ∷ ds) (e' ∷ es) d e h k = (h.0, h.1, Accounts-snoc ds es d e h.2 k)
  Accounts-snoc [] (e' ∷ es) d e h k = absurd h
  Accounts-snoc (d' ∷ ds) [] d e h k = absurd h

pub last_inj : (xs ys : List Decision) (a b : Decision) → xs ++ a ∷ [] ≡ ys ++ b ∷ [] → a ≡ b
last_inj [] [] a b h = cc
last_inj [] (y ∷ []) a b h = cc
last_inj [] (y ∷ z ∷ ys) a b h = cc
last_inj (x ∷ []) [] a b h = cc
last_inj (x ∷ z ∷ xs) [] a b h = cc
last_inj (x ∷ xs) (y ∷ ys) a b h = last_inj xs ys a b (cc)

-- Before pass `n` of a request; no part of it depends on the stamp or on the type of the bodies.
abbrev pub Ready : Settings → String → ℕ → Request → Type 0
Ready c id n q = (stamp : Stamp) → Retried (context {B = Unit {0}} c id stamp) n q

pub Ready-Retried :
    {B : Type 0} (c : Settings) (id : String) (stamp : Stamp) (n : ℕ) (q : Request)
    → Ready c id n q
    → Retried (context {B = B} c id stamp) n q
Ready-Retried c id stamp n q r =
    let t = r stamp in
    record {
      count = t.count;
      bound = t.bound;
      excluded = t.excluded;
      rounds = t.rounds;
      distinct = t.distinct;
    }

pub Retried-Ready :
    {B : Type 0} (c : Settings) (id : String) (stamp : Stamp) (n : ℕ) (q : Request)
    → Retried (context {B = B} c id stamp) n q
    → Ready c id n q
Retried-Ready c id stamp n q t = λ stamp'. record {
  count = t.count;
  bound = t.bound;
  excluded = t.excluded;
  rounds = t.rounds;
  distinct = t.distinct;
}

-- The replica that a request waits for is one of the fleet that it had not tried, and the passes before
-- failed, each on another replica.
abbrev pub IsWaiting : Settings → List String → Pending → Type 0
IsWaiting c fleet p =
    Memᴰ p.replica_id fleet
    × (Engine.includes p.request.exclude p.replica_id ≡ false)
    × Ready c p.request_id p.n p.request

pub picked_out-All :
    (P : Pending → Type 0) (k : ℕ) (ps : List Pending) (p : Pending) (others : List Pending)
    → picked_out k ps ≡ some (p, others)
    → All P ps
    → P p × All P others
picked_out-All P k [] p others e h = cc
picked_out-All P zero (x ∷ ps) p others e h =
    let same : x ≡ p = cc in
    let rest : ps ≡ others = cc in (subst P same h.0, subst (All P) rest h.1)
picked_out-All P (suc k) (x ∷ ps) p others e h = elim (Option-cases (picked_out k ps)) [
  | inl none_there ↦ absurd (ground (arith, e, none_there))
  | inr ((y, ys), there) ↦
      let (hy, hys) = picked_out-All P k ps y ys there h.1 in
      let same : y ≡ p = ground (arith, e, there) in
      let rest : x ∷ ys ≡ others = ground (arith, e, there) in
      (subst P same hy, subst (All P) rest (h.0, hys))
]

module _ {B : Type 0} (c : Settings) (fleet : List String) where
  pub record IsSound (t : Traffic B) : Type 0 where
    pub watched : IsWatched c.thresholds fleet t.world.scheduler
    pub waiting : All (IsWaiting c fleet) t.waiting
    pub accounts : Accounts c.max_retries t.world.decisions t.ended
