-- ===== src/Traffic.antt =====
-- The router as it runs (src/api/server.ts with src/main.ts, src/health/scheduler.ts and the tools of src/mcp/
-- that write): requests in flight, probes and operators, in any order. JavaScript runs each piece of code
-- between two awaits without interruption, so such a piece is a step. A request gives way at one
-- place, where it awaits a replica's answer; `depart` runs up to there, and `arrive` on from there.
pub mod Steps
pub mod Watched
pub mod Accounts
pub mod Sound
pub mod Log
pub mod Failovers
use whyrouted.Prelude.{
  ℕ, zero, suc, ◌+◌, String, Option, none, some, List, [], ◌∷◌, ◌++◌, length, Result, ok, throw,
}
use whyrouted.Types.{ReplicaAdmin}
use whyrouted.Registry.{RegistryError, Registry, set_admin}
use whyrouted.Routing.Weights.{ScoringWeights}
use whyrouted.Routing.Config.{RoutingConfig, ConfigError, set_strategy_name, set_weights}
use whyrouted.Routing.Strategies.Dispatch.{RoutingStrategy}
use whyrouted.Routing.Engine
use whyrouted.Routing.Engine.{Capture, RouteResult, route}
use whyrouted.Health.Scheduler.{
  HealthResult, HealthTransition, Scheduler, Thresholds, state_of, poll_one,
}
use whyrouted.Adapter.{other_error}
use whyrouted.Events.{FailoverEvent, FailoverLogOptions, handle_transition}
use whyrouted.Api.Route.{
  World, Answer, rejected, Turn, Stamp, Context, Request, new_request, Response, Reply, replied,
  crashed, Pass, finished, again, refused, on_answer,
}

-- What `main` builds the parts with.
pub record Settings : Type 0 where
  pub thresholds : Thresholds
  pub log_options : FailoverLogOptions
  pub max_retries : ℕ

-- A request that awaits the answer of the replica picked for its pass `n`.
pub record Pending : Type 0 where
  pub request_id : String
  pub n : ℕ
  pub request : Request
  pub replica_id : String
  pub capture : Capture

-- A request that is over. It has no response if its handler threw.
pub record Ended (B : Type 0) : Type 0 where
  pub request_id : String
  pub response : Option (Response B)

pub record Traffic (B : Type 0) : Type 0 where
  pub world : World
  pub waiting : List Pending
  pub ended : List (Ended B)

-- `failoverLog.handleTransition` is called on each transition as it is made.
unfoldable pub noted :
    FailoverLogOptions
    → String
    → List (HealthTransition String)
    → List FailoverEvent
    → List FailoverEvent
noted opts id [] events = events
noted opts id (t ∷ ts) events = noted opts id ts (handle_transition opts id t events)

abbrev pub drop {ℓ} : {A : Type ℓ} → ℕ → List A → List A
drop zero xs = xs
drop (suc n) [] = []
drop (suc n) (x ∷ xs) = drop n xs

-- The transitions that a step has added.
abbrev pub new_transitions : World → World → List (HealthTransition String)
new_transitions w w' = drop (length w.scheduler.transitions) w'.scheduler.transitions

unfoldable pub observed : Settings → String → World → World → World
observed c event_id w w' = record w' {
  failovers = noted c.log_options event_id (new_transitions w w') w'.failovers;
}

unfoldable pub polled : Settings → String → HealthResult → String → World → World
polled c id result at w = record w {
  scheduler = state_of (poll_one c.thresholds id result at w.scheduler);
}

module _ {B : Type 0} (c : Settings) where
  -- One pass sees one stamp, and its answer when it has arrived.
  abbrev pub context : String → Stamp → Context B
  context request_id stamp = record {
    thresholds = c.thresholds;
    max_retries = c.max_retries;
    request_id = request_id;
    stamp = λ n. stamp;
    turn = λ n id. record { meanwhile = λ w. w; answer = rejected (other_error "") };
  }

  abbrev pub ended_with : String → Reply B → Traffic B → Traffic B
  ended_with request_id (replied response w) t = record t {
    world = w;
    ended = t.ended ++ record { request_id = request_id; response = some response } ∷ [];
  }
  ended_with request_id (crashed e w) t = record t {
    world = w;
    ended = t.ended ++ record { request_id = request_id; response = none } ∷ [];
  }

  -- A pass without another pass to come: `refused` ends the request.
  abbrev pub concluded : String → Pass B → Traffic B → Traffic B
  concluded request_id (finished reply) t = ended_with request_id reply t
  concluded request_id (again q w) t = record t { world = w }

  abbrev pub routed :
      String → Stamp → ℕ → Request → Traffic B → RouteResult × Option RoutingStrategy → Traffic B
  routed request_id stamp n q t (Engine.failed e capture, next) =
      let w : World = record t.world { held = next } in
      concluded request_id (refused (context request_id stamp) n q w (Engine.failed e capture) e) t
  routed request_id stamp n q t (Engine.picked id capture, next) = record t {
    world = record t.world { held = next };
    waiting =
        t.waiting
        ++ record {
          request_id = request_id;
          n = n;
          request = q;
          replica_id = id;
          capture = capture;
        }
          ∷ [];
  }

  -- Pass `n` up to its await.
  unfoldable pub depart : String → Stamp → ℕ → Request → Traffic B → Traffic B
  depart request_id stamp n q t =
      routed request_id stamp n q t
        (route t.world.held t.world.config t.world.scheduler.sink.replicas (some q.exclude))

  abbrev pub carried_on : String → Stamp → ℕ → Pass B → Traffic B → Traffic B
  carried_on request_id stamp n (finished reply) t = ended_with request_id reply t
  carried_on request_id stamp n (again q w) t =
      depart request_id stamp (n + 1) q (record t { world = w })

  -- The pass from its await on, and up to the next await where the request goes round again.
  unfoldable pub arrive : Pending → Stamp → Answer B → Traffic B → Traffic B
  arrive p stamp answer t =
      carried_on p.request_id stamp p.n
        (on_answer (context p.request_id stamp) p.n p.request t.world
          (Engine.picked p.replica_id p.capture) p.replica_id p.capture.strategy answer)
        t

abbrev pub kept_or {ℓ} : {A E : Type ℓ} → A → Result E A → A
kept_or old (ok new) = new
kept_or old (throw e) = old

-- What may happen next. An answer comes to the request at a place in the list of those that wait.
pub data Event (B : Type 0) : Type 0 where
  requested : String → Stamp → Event B
  answered : ℕ → Stamp → Answer B → Event B
  probed : String → HealthResult → String → String → Event B
  set_replica : String → ReplicaAdmin → Event B
  set_strategy : String → Event B
  set_scoring : ScoringWeights → Event B

-- The request at a place, and the others.
abbrev pub picked_out {ℓ} : {A : Type ℓ} → ℕ → List A → Option (A × List A)
picked_out k [] = none
picked_out zero (x ∷ xs) = some (x, xs)
picked_out (suc k) (x ∷ xs) = elim (picked_out k xs) [
  | none ↦ none
  | some (y, ys) ↦ some (y, x ∷ ys)
]

module _ {B : Type 0} (c : Settings) where
  abbrev pub answered_one :
      Option (Pending × List Pending) → Stamp → Answer B → Traffic B → Traffic B
  answered_one none stamp answer t = t
  answered_one (some (p, others)) stamp answer t =
      let t' = arrive c p stamp answer (record t { waiting = others }) in
      record t' { world = observed c stamp.event_id t.world t'.world }

  unfoldable pub step : Traffic B → Event B → Traffic B
  step t (requested request_id stamp) = depart c request_id stamp 0 new_request t
  step t (answered k stamp answer) = answered_one (picked_out k t.waiting) stamp answer t
  step t (probed id result at event_id) = record t {
    world = observed c event_id t.world (polled c id result at t.world);
  }
  step t (set_replica id admin) =
      let sink = kept_or t.world.scheduler.sink (set_admin t.world.scheduler.sink id admin) in
      record t { world = record t.world { scheduler = record t.world.scheduler { sink = sink } } }
  step t (set_strategy name) = record t {
    world = record t.world {
      config = kept_or t.world.config (set_strategy_name t.world.config name);
    };
  }
  step t (set_scoring weights) = record t {
    world = record t.world { config = kept_or t.world.config (set_weights t.world.config weights) };
  }

  unfoldable pub run : Traffic B → List (Event B) → Traffic B
  run t [] = t
  run t (e ∷ es) = run (step t e) es

abbrev pub idle : {B : Type 0} → World → Traffic B
idle w = record { world = w; waiting = []; ended = [] }
