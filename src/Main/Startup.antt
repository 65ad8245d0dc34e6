-- ===== src/Main/Startup.antt =====
-- Main/Startup: a configuration that `loadConfig` gives starts a program that is in order.
use whyrouted.Prelude.{
  ℕ, zero, suc, ◌+◌, ◌≤◌, ◌<◌, String, str_eq, str_eq_iff, false, none, some, List, [], ◌∷◌, ◌++◌,
  append_assoc, append-nil, str_append, decimal, map, All, Memᴰ, ok, ◌≡◌, ◌⊎◌, refl, sym, ap, ◌∙◌,
  arith, inl, inr, Bool-cases,
}
use whyrouted.Types.{Replica, ReplicaState}
use whyrouted.Registry.{Registry, find, register, empty, fresh_state}
use whyrouted.Registry.Laws.{find-append}
use whyrouted.Routing.Config.{
  RoutingConfig, create_routing_config, name_text, assert_valid_strategy_name, assert_valid_weights,
}
use whyrouted.Routing.Config.Laws.{strategy_named-name_text}
use whyrouted.Health.Scheduler.{Hysteresis, get, put, init_from, init, fresh}
use whyrouted.Health.Scheduler.Writes.{get-put}
use whyrouted.Health.Scheduler.Invariant.{IsNew, IsPositive, init-run-IsValid, run}
use whyrouted.Config.{Config, Env, load_config, natural, fleet_replicas, replicas_from}
use whyrouted.Config.Laws.{IsUsable}
use whyrouted.Config.Load.{IsLoaded, load_config-IsLoaded}
use whyrouted.Config.Ids.{id_at, id_at_inj}
use whyrouted.Adapter.{urls_from, create_adapter}
use whyrouted.Api.Route.Fleet.{IsWatched}
use whyrouted.Main.{
  register_all, thresholds, Program, replica_id, program_of, with_registry, with_routing, start_up,
}

register-new :
    (ss : List ReplicaState) (r : Replica)
    → find r.id ss ≡ none
    → register (record { replicas = ss }) r ≡ ok (record { replicas = ss ++ fresh_state r ∷ [] })
unfolding register
register-new ss r e = ground (arith, e)

register_all-cons :
    (reg next : Registry) (r : Replica) (rs : List Replica)
    → register reg r ≡ ok next
    → register_all reg (r ∷ rs) ≡ register_all next rs
unfolding register_all
register_all-cons reg next r rs e = rw e

id_at_new :
    (i j : ℕ) (ss : List ReplicaState) (r : Replica)
    → i < j
    → r.id ≡ id_at i
    → find r.id ss ≡ none
    → find (id_at j) ss ≡ none
    → find (id_at j) (ss ++ fresh_state r ∷ []) ≡ none
id_at_new i j ss r lt e h k = elim (Bool-cases (str_eq r.id (id_at j))) [
  | inl same ↦ absurd (omega (arith, id_at_inj i j (sym e ∙ (str_eq_iff r.id (id_at j)).0 same)))
  | inr other ↦ find-append (id_at j) ss (fresh_state r) h ∙ rw other k
]

-- Replicas of which none is registered yet are all registered, in order.
register_all-fleet :
    (host : String) (b n i : ℕ) (ss : List ReplicaState)
    → ((j : ℕ) → i ≤ j → find (id_at j) ss ≡ none)
    → register_all (record { replicas = ss }) (replicas_from host b n i)
      ≡ ok (record { replicas = ss ++ map fresh_state (replicas_from host b n i) })
unfolding replicas_from
register_all-fleet host b zero i ss h =
    unfold register_all in ap (λ xs. ok (record { replicas = xs })) (sym (append-nil ss))
register_all-fleet host b (suc n) i ss h =
    let r : Replica = record {
      id = id_at i;
      url = str_append "http://" (str_append host (str_append ":" (decimal (b + i))));
    } in
    let rs = replicas_from host b n (i + 1) in
    let more : Registry = record { replicas = ss ++ fresh_state r ∷ [] } in
    register_all-cons (record { replicas = ss }) more r rs (register-new ss r (h i (omega arith)))
    ∙ register_all-fleet host b n (i + 1) (ss ++ fresh_state r ∷ [])
        (λ j le. id_at_new i j ss r (omega arith) refl (h i (omega arith)) (h j (omega arith)))
    ∙ ap (λ xs. ok (record { replicas = xs }))
        (append_assoc ss (fresh_state r ∷ []) (map fresh_state rs))

fleet-register_all :
    (c : Config)
    → register_all empty (fleet_replicas c)
      ≡ ok (record { replicas = map fresh_state (fleet_replicas c) })
unfolding fleet_replicas
fleet-register_all c =
    register_all-fleet c.host (natural c.base_port) (natural c.fleet_size) 0 []
      (λ j le. unfold find in refl)

-- The config holder takes what `loadConfig` gives.
routing-created :
    (c : Config)
    → IsLoaded c
    → create_routing_config (name_text c.routing_strategy) c.scoring_weights
      ≡ ok (record { strategy_name = c.routing_strategy; weights = c.scoring_weights })
unfolding create_routing_config assert_valid_strategy_name assert_valid_weights
routing-created c l =
    ground (arith, strategy_named-name_text c.routing_strategy, l.load_weight, l.latency_weight)

find-fresh :
    (id : String) (rs : List Replica) (s : ReplicaState)
    → find id (map fresh_state rs) ≡ some s
    → Memᴰ id (map replica_id rs)
unfolding find
find-fresh id [] s h = cc
find-fresh id (r ∷ rs) s h = elim (Bool-cases (str_eq r.id id)) [
  | inl e ↦ Memᴰ.head (sym ((str_eq_iff r.id id).0 e))
  | inr e ↦ Memᴰ.tail (find-fresh id rs s (rw e at h))
]

fresh-find :
    (id : String) (rs : List Replica)
    → Memᴰ id (map replica_id rs)
    → (r : Replica) × (find id (map fresh_state rs) ≡ some (fresh_state r))
unfolding find
fresh-find id [] m = elim m [ ]
fresh-find id (r ∷ rs) m = elim (Bool-cases (str_eq r.id id)) [
  | inl e ↦ (r, rw e)
  | inr e ↦ rw e (fresh-find id rs (later m e))
]
  where
    later :
        Memᴰ id (r.id ∷ map replica_id rs) → str_eq r.id id ≡ false → Memᴰ id (map replica_id rs)
    later (Memᴰ.head i) e = absurd (ground (arith, str_eq_iff r.id id))
    later (Memᴰ.tail n) e = n

get-init_from_mem :
    (id : String) (ids : List String) (m : List (String × Hysteresis))
    → Memᴰ id ids ⊎ ((h : Hysteresis) × (get id m ≡ some h))
    → (h : Hysteresis) × (get id (init_from ids m) ≡ some h)
unfolding init_from
get-init_from_mem id [] m (inl k) = elim k [ ]
get-init_from_mem id [] m (inr h) = h
get-init_from_mem id (i ∷ ids) m k = get-init_from_mem id ids (put i fresh m) (onward k)
  where
    put_there : (i ≡ id) → (h : Hysteresis) × (get id (put i fresh m) ≡ some h)
    put_there e = (fresh, ground (arith, get-put i id fresh m, str_eq_iff i id, e))

    onward :
        Memᴰ id (i ∷ ids) ⊎ ((h : Hysteresis) × (get id m ≡ some h))
        → Memᴰ id ids ⊎ ((h : Hysteresis) × (get id (put i fresh m) ≡ some h))
    onward (inl (Memᴰ.head e)) = inr (put_there (sym e))
    onward (inl (Memᴰ.tail n)) = inl n
    onward (inr (h, e)) = elim (Bool-cases (str_eq i id)) [
      | inl same ↦ inr (put_there ((str_eq_iff i id).0 same))
      | inr other ↦ inr (h, ground (arith, get-put i id fresh m))
    ]

abbrev pub fleet_ids : Config → List String
fleet_ids c = map replica_id (fleet_replicas c)

abbrev fleet_registry : Config → Registry
fleet_registry c = record { replicas = map fresh_state (fleet_replicas c) }

All-of_mem :
    (P : String → Type 0) (ids : List String) → ((i : String) → Memᴰ i ids → P i) → All P ids
All-of_mem P [] f = tt
All-of_mem P (i ∷ ids) f = (f i (Memᴰ.head refl), All-of_mem P ids (λ j m. f j (Memᴰ.tail m)))

thresholds-IsPositive : (c : Config) → IsUsable c → IsPositive (thresholds c)
thresholds-IsPositive c u =
    let (n, e, p) = u.unhealthy_threshold in
    let (m, f, q) = u.healthy_threshold in
    record { failures = rw e (omega arith); successes = rw f (omega arith) }

fleet-IsWatched :
    (c : Config)
    → IsUsable c
    → IsWatched (thresholds c) (fleet_ids c) (init (fleet_ids c) (fleet_registry c))
unfolding init
fleet-IsWatched c u = record {
  registered = λ id s e. find-fresh id (fleet_replicas c) s e;
  watched = λ id m. get-init_from_mem id (fleet_ids c) [] (inl m);
  in_step =
      unfold run in
      (init-run-IsValid {R = String} (thresholds c) (fleet_ids c) (fleet_registry c) []
        (thresholds-IsPositive c u)
        (All-of_mem (IsNew (fleet_registry c)) (fleet_ids c)
          (λ id m. let (r, e) = fresh-find id (fleet_replicas c) m in (fresh_state r, e, refl))));
}

get-urls_from_mem :
    (id : String) (rs : List Replica) (m : List (String × String))
    → Memᴰ id (map replica_id rs) ⊎ ((url : String) × (get id m ≡ some url))
    → (url : String) × (get id (urls_from rs m) ≡ some url)
unfolding urls_from
get-urls_from_mem id [] m (inl k) = elim k [ ]
get-urls_from_mem id [] m (inr h) = h
get-urls_from_mem id (r ∷ rs) m k = get-urls_from_mem id rs (put r.id r.url m) (onward k)
  where
    put_there : (r.id ≡ id) → (url : String) × (get id (put r.id r.url m) ≡ some url)
    put_there e = (r.url, ground (arith, get-put r.id id r.url m, str_eq_iff r.id id, e))

    onward :
        Memᴰ id (r.id ∷ map replica_id rs) ⊎ ((url : String) × (get id m ≡ some url))
        → Memᴰ id (map replica_id rs) ⊎ ((url : String) × (get id (put r.id r.url m) ≡ some url))
    onward (inl (Memᴰ.head e)) = inr (put_there (sym e))
    onward (inl (Memᴰ.tail n)) = inl n
    onward (inr (url, e)) = elim (Bool-cases (str_eq r.id id)) [
      | inl same ↦ inr (put_there ((str_eq_iff r.id id).0 same))
      | inr other ↦ inr (url, ground (arith, get-put r.id id r.url m))
    ]

fleet-urls :
    (c : Config) (timeout : ℕ) (id : String)
    → Memᴰ id (fleet_ids c)
    → (url : String) × (get id (create_adapter (fleet_replicas c) timeout none).urls ≡ some url)
unfolding create_adapter
fleet-urls c timeout id m = get-urls_from_mem id (fleet_replicas c) [] (inl m)

-- The program is in order: every replica of the fleet, and no other, is registered, new and active, the
-- adapter has a URL for each, the scheduler watches them all in step with the registry, the
-- thresholds are at least 1, the router has the strategy and the weights of the configuration, and
-- both logs are empty.
pub record IsInOrder (c : Config) (p : Program) : Type 0 where
  pub fleet : p.world.scheduler.sink.replicas ≡ map fresh_state (fleet_replicas c)
  pub reached :
      (id : String) → Memᴰ id (fleet_ids c) → (url : String) × (get id p.adapter.urls ≡ some url)
  pub watched : IsWatched p.thresholds (fleet_ids c) p.world.scheduler
  pub positive : IsPositive p.thresholds
  pub routing :
      p.world.config ≡ record { strategy_name = c.routing_strategy; weights = c.scoring_weights }
  pub logs : (p.world.failovers ≡ []) × (p.world.decisions ≡ [])

-- Whatever the environment, a configuration that is loaded from it starts a program, without an
-- error, and that program is in order.
pub start_up-IsInOrder :
    (normalized : String → String) (env : Env) (c : Config)
    → load_config env ≡ ok c
    → (p : Program) × (start_up normalized c ≡ ok p) × IsInOrder c p
unfolding start_up
start_up-IsInOrder normalized env c e =
    let l = load_config-IsLoaded env c e in
    let routing : RoutingConfig = record {
      strategy_name = c.routing_strategy;
      weights = c.scoring_weights;
    } in
    (
      program_of normalized c (fleet_registry c) routing,
      ap (with_registry normalized c) (fleet-register_all c)
          ∙ ap (with_routing normalized c (fleet_registry c)) (routing-created c l),
      record {
        fleet = unfold init in refl;
        reached = λ id m. fleet-urls c (natural c.health_timeout_ms) id m;
        watched = fleet-IsWatched c l.usable;
        positive = thresholds-IsPositive c l.usable;
        routing = refl;
        logs = (refl, refl);
      },
    )
