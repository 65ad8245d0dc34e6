-- ===== src/Routing/Engine/Laws.antt =====
-- Routing/Engine/Laws: what a round decides, by a description of it without loops, and what holds of
-- the replica that it picks.
use whyrouted.Prelude.{
  String, str_eq, str_eq_iff, Bool-cases, true, false, not, Option, none, some, List, [], ◌∷◌,
  filter, ◌≡◌, ◌≢◌, ◌↔◌, refl, sym, ap, ◌∙◌, arith, ◌⊎◌, inl, inr, Memᴰ, filter-mem, mem-filter,
  subst, map, ◌++◌, append-nil,
}
use whyrouted.Types.{ReplicaState, active, healthy}
use whyrouted.Routing.Weights.{StrategyName}
use whyrouted.Routing.Config.{RoutingConfig}
use whyrouted.Routing.Score.{ExcludedCandidate}
use whyrouted.Routing.Strategies.Dispatch.{
  RoutingStrategy, create_strategy, pick, score, pick-nil, pick-IsAmong, pick-IsLowest, pick_total,
  IsPickable, IsLowest,
}
use whyrouted.Routing.Engine.{
  includes, is_same_name, Capture, RouteResult, picked, failed, no_healthy_replicas, strategy_for,
  is_candidate, is_tried, result_of, route_pool, route_healthy, route, is_filtered, filtered_entry,
  tried_entry,
}
use whyrouted.Routing.Engine.Pool.{pool, excluded, split_pool_lem}

module _ (held : Option RoutingStrategy) (config : RoutingConfig) where
  -- A round with candidates: the instance picks from the pool.
  abbrev pub decided :
      RoutingStrategy
      → List ReplicaState
      → List ExcludedCandidate
      → RouteResult × Option RoutingStrategy
  decided s cs out =
      let (id, next) = pick s cs config.weights in
      (
        result_of id
            (record { strategy = s.name; candidates = score s cs config.weights; excluded = out }),
        some next,
      )

  route_pool_lem :
      (cs : List ReplicaState) (out : List ExcludedCandidate)
      → (let (result, next) = route_pool (strategy_for held config.strategy_name) config out cs in
          ◌≡◌ {A = RouteResult × Option RoutingStrategy}
            (result, some next)
            (decided (strategy_for held config.strategy_name) cs out))
  unfolding route_pool
  route_pool_lem [] out =
      ground (arith, pick-nil (strategy_for held config.strategy_name) config.weights)
  route_pool_lem (r ∷ rs) out = refl

  abbrev pub nothing_healthy : List ExcludedCandidate → RouteResult × Option RoutingStrategy
  nothing_healthy out = (
    failed no_healthy_replicas
        (record { strategy = config.strategy_name; candidates = []; excluded = out }),
    held,
  )

  route_healthy_lem :
      (exclude : Option (List String)) (front : List ExcludedCandidate) (cs : List ReplicaState)
      → let out = front ++ map tried_entry (filter (is_tried exclude) cs) in
        let r = route_healthy held config exclude front cs in
        ((cs ≡ []) × (r ≡ nothing_healthy out))
        ⊎ ((cs ≢ [])
            × (r
                ≡ decided
                    (strategy_for held config.strategy_name)
                    (filter (λ c. not (is_tried exclude c)) cs)
                    out))
  unfolding route_healthy
  route_healthy_lem exclude front [] =
      inl (refl, ap (λ out. nothing_healthy out) (sym (append-nil front)))
  route_healthy_lem exclude front (c ∷ cs) =
      inr ((λ p. cc), rw (split_pool_lem exclude front [] (c ∷ cs)) (route_pool_lem _ _))

  pub route_cases :
      (snapshot : List ReplicaState) (exclude : Option (List String))
      → let r = route held config snapshot exclude in
        ((filter is_candidate snapshot ≡ []) × (r ≡ nothing_healthy (excluded exclude snapshot)))
        ⊎ ((filter is_candidate snapshot ≢ [])
            × (r
                ≡ decided
                    (strategy_for held config.strategy_name)
                    (pool exclude snapshot)
                    (excluded exclude snapshot)))
  unfolding route
  route_cases snapshot exclude =
      route_healthy_lem exclude (map filtered_entry (filter is_filtered snapshot))
        (filter is_candidate snapshot)

-- The instance of a round: the held one, where there is one of the configured name, and otherwise a new one
-- of that name, which starts from the beginning.
abbrev pub IsInstance : Option RoutingStrategy → StrategyName → RoutingStrategy → Type 0
IsInstance held name s =
    (s.name ≡ name)
    × ((held ≡ some s)
        ⊎ (((old : RoutingStrategy) → held ≡ some old → old.name ≢ name) × (s.cursor ≡ 0)))

strategy_for-IsInstance :
    (held : Option RoutingStrategy) (name : StrategyName)
    → IsInstance held name (strategy_for held name)
unfolding strategy_for create_strategy
strategy_for-IsInstance none name = (refl, inr ((λ old e. cc), refl))
strategy_for-IsInstance (some s) name = elim (Bool-cases (is_same_name s.name name)) [
  | inl same ↦ rw same (ground (arith, same), inl refl)
  | inr other ↦
      rw other
        (refl, inr ((λ old e n. let is : s ≡ old = cc in ground (arith, other, is, n)), refl))
]

-- The ids that a round may pick: those of active healthy replicas that were not tried before.
pub record IsEligible (snapshot : List ReplicaState) (exclude : Option (List String)) (id : String)
    : Type 0 where
  pub replica : ReplicaState
  pub listed : Memᴰ replica snapshot
  pub same_id : replica.id ≡ id
  pub is_active : replica.admin ≡ active
  pub is_healthy : replica.runtime.health ≡ healthy
  pub untried : is_tried exclude replica ≡ false

includes-mem : (ids : List String) (id : String) → Memᴰ id ids → includes ids id ≡ true
includes-mem [] id m = elim m [ ]
includes-mem (x ∷ ids) id (Memᴰ.head e) = ground (arith, e, str_eq_iff x id)
includes-mem (x ∷ ids) id (Memᴰ.tail m) = ground (arith, includes-mem ids id m)

mem-includes : (ids : List String) (id : String) → includes ids id ≡ true → Memᴰ id ids
mem-includes [] id h = cc
mem-includes (x ∷ ids) id h = elim (Bool-cases (str_eq x id)) [
  | inl e ↦ Memᴰ.head (sym ((str_eq_iff x id).0 e))
  | inr e ↦ Memᴰ.tail (mem-includes ids id (rw e at h))
]

is_tried-false :
    (exclude : Option (List String)) (c : ReplicaState) (ids : List String)
    → exclude ≡ some ids
    → is_tried exclude c ≡ false
    → ¬ Memᴰ c.id ids
is_tried-false none c ids e u m = absurd (cc)
is_tried-false (some xs) c ids e u m =
    let same : xs ≡ ids = cc in
    ground (arith, u, includes-mem xs c.id (subst (Memᴰ c.id) (sym same) m))

untried :
    (exclude : Option (List String)) (c : ReplicaState)
    → ((ids : List String) → exclude ≡ some ids → ¬ Memᴰ c.id ids)
    → is_tried exclude c ≡ false
untried none c h = refl
untried (some xs) c h = elim (Bool-cases (includes xs c.id)) [
  | inl e ↦ absurd (h xs refl (mem-includes xs c.id e))
  | inr e ↦ e
]

module _ (exclude : Option (List String)) (snapshot : List ReplicaState) where
  pool-mem :
      {c : ReplicaState}
      → Memᴰ c (pool exclude snapshot)
      → Memᴰ c snapshot
        × (c.admin ≡ active)
        × (c.runtime.health ≡ healthy)
        × (is_tried exclude c ≡ false)
  pool-mem {c} m =
      let (m', untried) = filter-mem (λ r. not (is_tried exclude r)) _ m in
      let (m'', e) = filter-mem is_candidate snapshot m' in
      (m'', ground arith, ground arith, ground arith)

  mem-pool :
      {c : ReplicaState}
      → Memᴰ c snapshot
      → c.admin ≡ active
      → c.runtime.health ≡ healthy
      → is_tried exclude c ≡ false
      → Memᴰ c (pool exclude snapshot)
  mem-pool m a h u =
      mem-filter (λ r. not (is_tried exclude r)) _
        (mem-filter is_candidate snapshot m (ground arith)) (ground arith)

  -- No replica of the snapshot is active and healthy.
  abbrev pub NothingHealthy : Type 0
  NothingHealthy =
      (c : ReplicaState) → Memᴰ c snapshot → c.admin ≡ active → c.runtime.health ≢ healthy

  -- The replicas in the pool of a round are those of the snapshot that are active, healthy and not tried.
  abbrev pub IsPool : List ReplicaState → Type 0
  IsPool cs =
      (c : ReplicaState)
      → Memᴰ c cs ↔ (
          Memᴰ c snapshot
          × (c.admin ≡ active)
          × (c.runtime.health ≡ healthy)
          × ((ids : List String) → exclude ≡ some ids → ¬ Memᴰ c.id ids))

  pool-IsPool : IsPool (pool exclude snapshot)
  pool-IsPool c = (
    λ m. let (n, a, h, u) = pool-mem m in (n, a, h, λ ids e. is_tried-false exclude c ids e u),
    λ (n, a, h, u). mem-pool n a h (untried exclude c u),
  )

  nothing-NothingHealthy : filter is_candidate snapshot ≡ [] → NothingHealthy
  nothing-NothingHealthy e c m a h =
      elim (subst (Memᴰ c) e (mem-filter is_candidate snapshot m (ground arith))) [ ]

  something-mem :
      (cs : List ReplicaState) → filter is_candidate snapshot ≡ cs → cs ≢ [] → ¬ NothingHealthy
  something-mem [] e n h = n refl
  something-mem (c ∷ cs) e n h =
      let (m, p) = filter-mem is_candidate snapshot (subst (Memᴰ c) (sym e) (Memᴰ.head refl)) in
      h c m (ground arith) (ground arith)

  -- One round, whatever the held instance. With no active healthy replica it fails with `no_healthy_replicas`
  -- and the instance stays. Otherwise the round goes by the held instance, if it has the configured
  -- name, or else by a new one of that name: it scores the pool, which are the active healthy
  -- replicas not tried before, and picks from it; the result is its pick, or `no_routable_replica` if
  -- it has none; and the instance as it is after the pick is held from then on. Either way the report
  -- lists the replicas left out.
  pub route_lem :
      (held : Option RoutingStrategy) (config : RoutingConfig)
      → let r = route held config snapshot exclude in
        (NothingHealthy × (r ≡ nothing_healthy held config (excluded exclude snapshot)))
        ⊎ ((¬ NothingHealthy)
            × IsPool (pool exclude snapshot)
            × (s : RoutingStrategy) × IsInstance held config.strategy_name s
            × (r ≡ decided held config s (pool exclude snapshot) (excluded exclude snapshot)))
  route_lem held config = elim (route_cases held config snapshot exclude) [
    | inl (e, q) ↦ inl (nothing-NothingHealthy e, q)
    | inr (n, q) ↦ inr (
      something-mem _ refl n,
      pool-IsPool,
      strategy_for held config.strategy_name,
      strategy_for-IsInstance held config.strategy_name,
      q,
    )
  ]

  module _ (held : Option RoutingStrategy) (config : RoutingConfig) where
    decided-eq-picked :
        {id : String} {capture : Capture}
        → (route held config snapshot exclude).0 ≡ picked id capture
        → ((pick (strategy_for held config.strategy_name) (pool exclude snapshot) config.weights).0
            ≡ some id)
          × (capture.candidates
              ≡ score
                  (strategy_for held config.strategy_name)
                  (pool exclude snapshot)
                  config.weights)
          × (capture.excluded ≡ excluded exclude snapshot)
          × (capture.strategy ≡ (strategy_for held config.strategy_name).name)
    decided-eq-picked {id} {capture} h = elim (route_cases held config snapshot exclude) [
      | inl (_, e) ↦ cc
      | inr (_, e) ↦ ground arith
    ]

    result_of-ne-no_healthy :
        (o : Option String) (c d : Capture) → failed no_healthy_replicas c ≢ result_of o d
    result_of-ne-no_healthy none c d = λ e. cc
    result_of-ne-no_healthy (some id) c d = λ e. cc

    -- A picked replica is eligible, and has the lowest score among the candidates of the round.
    pub route-picks :
        (id : String) (capture : Capture)
        → (route held config snapshot exclude).0 ≡ picked id capture
        → IsEligible snapshot exclude id × IsLowest id capture.candidates
    route-picks id capture h =
        let (p, scores, _, _) = decided-eq-picked h in
        let s = strategy_for held config.strategy_name in
        let (c, m, same) = pick-IsAmong s (pool exclude snapshot) config.weights id p in
        let (listed, is_active, is_healthy, untried) = pool-mem m in
        (
          record {
            replica = c;
            listed = listed;
            same_id = same;
            is_active = is_active;
            is_healthy = is_healthy;
            untried = untried;
          },
          rw scores (pick-IsLowest s (pool exclude snapshot) config.weights id p),
        )

    -- The instance that a round uses has the configured name.
    strategy_for-name : (strategy_for held config.strategy_name).name ≡ config.strategy_name
    unfolding strategy_for create_strategy
    strategy_for-name = ground arith

    -- With an eligible replica that the strategy can pick (for latency-weighted, one with a latency)
    -- the round picks.
    pub route_total :
        (id : String) (e : IsEligible snapshot exclude id)
        → IsPickable config.strategy_name e.replica
        → (picked_id : String) × (capture : Capture) × ((route held config snapshot exclude).0
            ≡ picked picked_id capture)
    route_total id e h =
        let m = mem-pool e.listed e.is_active e.is_healthy e.untried in
        let s = strategy_for held config.strategy_name in
        let (picked_id, p) =
          pick_total s (pool exclude snapshot) config.weights m (rw strategy_for-name h) in
        elim (route_cases held config snapshot exclude) [
          | inl (none_left, _) ↦
              elim (subst (Memᴰ e.replica) (ap (filter (λ r. not (is_tried exclude r))) none_left)
                m) [ ]
          | inr (_, q) ↦ (
            picked_id,
            record {
              strategy = s.name;
              candidates = score s (pool exclude snapshot) config.weights;
              excluded = excluded exclude snapshot;
            },
            rw (q, p),
          )
        ]

    -- `no_healthy_replicas` is the answer exactly when no replica is active and healthy.
    pub no_healthy_iff :
        ((capture : Capture) × ((route held config snapshot exclude).0
            ≡ failed no_healthy_replicas capture))
        ↔ (filter is_candidate snapshot ≡ [])
    no_healthy_iff = elim (route_cases held config snapshot exclude) [
      | inl (e, q) ↦ ((λ _. e), λ _. (_, ap (λ (r : RouteResult × Option RoutingStrategy). r.0) q))
      | inr (n, q) ↦ (
        (λ (c, r). absurd (
            result_of-ne-no_healthy _ c _
              (sym r ∙ ap (λ (x : RouteResult × Option RoutingStrategy). x.0) q))),
        λ e. absurd (n e),
      )
    ]
