-- ===== src/Tests/RouteTests.antt =====
-- One request: the first replica times out and is ejected, the second answers.
use whyrouted.Prelude.{
  ℕ, zero, suc, String, str_eq, str_eq_iff, Option, none, some, List, [], ◌∷◌, ◌≡◌, refl, sym,
  arith, inl, inr, Bool-cases, Memᴰ,
}
use whyrouted.Types.{healthy}
use whyrouted.Registry.{Registry, find, update_runtime, set_health, modify}
use whyrouted.Routing.Weights.{ScoringWeights, units, least_loaded}
use whyrouted.Routing.Strategies.LeastLoaded
use whyrouted.Routing.Strategies.Dispatch
use whyrouted.Routing.Engine.{route, strategy_for}
use whyrouted.Health.Scheduler.{
  Hysteresis, Thresholds, Scheduler, get, put, eject, write_runtime, write_health,
}
use whyrouted.Health.Scheduler.Invariant.{IsPositive, IsValid}
use whyrouted.Adapter.{timeout, ReplicaRequestError, retryable, request_error}
use whyrouted.Events.{record_event}
use whyrouted.Decisions.{record_decision}
use whyrouted.Api.Route.{
  RouteAttempt, World, Answer, responded, rejected, Stamp, Context, Response, served, Reply,
  replied, handle_route, loop, pass, on_decision, on_answer, retry, after_eject, refused, finish,
  round_for, reason_text, stop,
}
use whyrouted.Api.Route.Trace.{Resolved, attempts_in}
use whyrouted.Api.Route.Laws.{handle_route_lem}
use whyrouted.Api.Route.Recorded.{Records, handle_route-Records}
use whyrouted.Api.Route.Fleet.{IsWatched, AreDown, handle_route-replies}
use whyrouted.Tests.Fixtures.{busy, idle}

abbrev pub thresholds : Thresholds
thresholds = record { unhealthy_threshold = 3; healthy_threshold = 3 }

abbrev up : Hysteresis
up = record { health = healthy; consec_failures = 0; consec_successes = 2 }

abbrev pair : Registry
pair = record { replicas = busy ∷ idle ∷ [] }

abbrev scheduler : Scheduler String
scheduler = record {
  hysteresis = ("replica-1", up) ∷ ("replica-2", up) ∷ [];
  sink = pair;
  transitions = [];
}

abbrev even_weights : ScoringWeights
even_weights = record { load_weight = units 1; latency_weight = units 1 }

abbrev pub world : World
world = record {
  scheduler = scheduler;
  held = none;
  config = record { strategy_name = least_loaded; weights = even_weights };
  failovers = [];
  decisions = [];
}

abbrev late : ReplicaRequestError
late = record { kind = timeout; message = "replica did not respond"; status = none }

abbrev answers : ℕ → Answer String
answers zero = rejected (request_error late)
answers (suc n) = responded "hello" 9

abbrev stamp : Stamp
stamp = record {
  eject_at = "t1";
  event_id = "e1";
  event_at = "t1";
  decision_id = "d1";
  decision_at = "t2";
}

abbrev request : Context String
request = record {
  thresholds = thresholds;
  max_retries = 1;
  request_id = "r1";
  stamp = λ n. stamp;
  turn = λ n id. record { meanwhile = λ w. w; answer = answers n };
}

abbrev first_attempt : RouteAttempt
first_attempt = record { replica_id = "replica-2"; kind = timeout; status = none }

abbrev response_of : Option (Reply String) → Option (Response String)
response_of (some (replied response w)) = some response
response_of _ = none

second_answers :
    response_of (handle_route request world)
    ≡ some (served "replica-1" least_loaded "hello" 9 (first_attempt ∷ []))
unfolding handle_route loop pass on_decision on_answer retry after_eject refused finish round_for
    reason_text stop retryable record_event record_decision route strategy_for Dispatch.pick
    Dispatch.score Dispatch.create_strategy LeastLoaded.pick LeastLoaded.score get put eject
    write_runtime write_health find update_runtime set_health modify
second_answers = refl

handle_route_lem_example :
    (reply : Reply String) × (handle_route request world ≡ some reply) × Resolved request reply
handle_route_lem_example = handle_route_lem request world

handle_route-Records_example :
    (reply : Reply String) × (handle_route request world ≡ some reply) × Records request world reply
handle_route-Records_example = handle_route-Records request world (λ n id w. (refl, refl))

thresholds_positive : IsPositive thresholds
thresholds_positive = record { failures = omega arith; successes = omega arith }

abbrev pair_ids : List String
pair_ids = "replica-1" ∷ "replica-2" ∷ []

scheduler-IsValid : IsValid thresholds scheduler
unfolding get find
scheduler-IsValid id h e = elim (Bool-cases (str_eq "replica-1" id)) [
  | inl one ↦ (
    busy,
    rw one,
    ground arith,
    (λ p. ground arith, λ p. ground arith, λ p. (ground arith, ground arith)),
  )
  | inr other ↦ elim (Bool-cases (str_eq "replica-2" id)) [
    | inl two ↦ (
      idle,
      rw (other, two),
      ground arith,
      (λ p. ground arith, λ p. ground arith, λ p. (ground arith, ground arith)),
    )
    | inr neither ↦ absurd (ground arith)
  ]
]

watched_pair :
    (id : String) → Memᴰ id pair_ids → (h : Hysteresis) × (get id scheduler.hysteresis ≡ some h)
unfolding get
watched_pair id (Memᴰ.head e) = (up, ground (arith, str_eq_iff "replica-1" id))
watched_pair id (Memᴰ.tail (Memᴰ.head e)) =
    (up, ground (arith, str_eq_iff "replica-2" id, str_eq_iff "replica-1" id))
watched_pair id (Memᴰ.tail (Memᴰ.tail m)) = elim m [ ]

pair_watched : IsWatched thresholds pair_ids scheduler
unfolding get find
pair_watched = record {
  registered = λ id r e. elim (Bool-cases (str_eq "replica-1" id)) [
    | inl one ↦ Memᴰ.head (sym ((str_eq_iff "replica-1" id).0 one))
    | inr other ↦ elim (Bool-cases (str_eq "replica-2" id)) [
      | inl two ↦ Memᴰ.tail (Memᴰ.head (sym ((str_eq_iff "replica-2" id).0 two)))
      | inr neither ↦ absurd (ground arith)
    ]
  ];
  watched = watched_pair;
  in_step = scheduler-IsValid;
}

handle_route-replies_example :
    (response : Response String) × (w' : World) × (handle_route request world
      ≡ some (replied response w'))
    × IsWatched thresholds pair_ids w'.scheduler
    × AreDown request pair_ids thresholds_positive w' (attempts_in response)
handle_route-replies_example =
    handle_route-replies request pair_ids thresholds_positive world
      (record { watched = λ n id w v. v; down = λ n id w j d. d }) pair_watched
