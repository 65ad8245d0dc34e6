-- ===== src/Health/Scheduler/Invariant.antt =====
-- Health/Scheduler/Invariant: what holds after any interleaving of probe results, ejections and
-- operator actions on the registry that the scheduler shares.
use whyrouted.Prelude.{
  ◌<◌, String, str_eq, str_eq_iff, Bool, true, false, none, some, List, [], ◌∷◌, ok, throw, Result,
  ◌≡◌, refl, subst, sym, arith, ◌⊎◌, inl, inr, Bool-cases, Option-cases, All, All_of_mem, Memᴰ,
}
use whyrouted.Types.{healthy, unhealthy, unknown, ReplicaState, ReplicaAdmin, initial_runtime}
use whyrouted.Registry.{Registry, RegistryError, find, set_admin, with_admin}
use whyrouted.Registry.Laws.{update-Updates}
use whyrouted.Health.Scheduler.{
  HealthResult, Hysteresis, Thresholds, Scheduler, HealthTransition, cannot_eject, done, threw,
  state_of, get, put, eject, poll_one, fresh, init, init_from, counters_patch,
}
use whyrouted.Health.Scheduler.Model.{probed, ejected, Mirrors, seen}
use whyrouted.Health.Scheduler.Writes.{get-put}
use whyrouted.Health.Scheduler.Laws.{Changes, poll_one_lem, eject_lem}

-- One step of the world around a scheduler: a probe comes back, a request fails, an operator acts.
pub data Event (R : Type 0) : Type 0 where
  probes : String → HealthResult → String → Event R
  ejects : String → R → String → Event R
  admins : String → ReplicaAdmin → Event R

abbrev pub after_admin : {R : Type 0} → Scheduler R → Result RegistryError Registry → Scheduler R
after_admin s (ok sink) = record s { sink = sink }
after_admin s (throw e) = s

-- A step that throws leaves what it had written.
unfoldable pub step : {R : Type 0} → Thresholds → Scheduler R → Event R → Scheduler R
step opts s (probes id result at) = state_of (poll_one opts id result at s)
step opts s (ejects id reason at) = state_of (eject opts id reason at s)
step opts s (admins id admin) = after_admin s (set_admin s.sink id admin)

unfoldable pub run : {R : Type 0} → Thresholds → Scheduler R → List (Event R) → Scheduler R
run opts s [] = s
run opts s (e ∷ es) = run opts (step opts s e) es

-- A healthy replica is short of `N` failures, an unhealthy one of `M` successes, an unknown one of
-- both.
abbrev pub InBand : Thresholds → Hysteresis → Type 0
InBand opts h =
    (h.health ≡ healthy → h.consec_failures < opts.unhealthy_threshold)
    × (h.health ≡ unhealthy → h.consec_successes < opts.healthy_threshold)
    × (h.health ≡ unknown
        → (h.consec_failures < opts.unhealthy_threshold)
          × (h.consec_successes < opts.healthy_threshold))

pub record IsPositive (opts : Thresholds) : Type 0 where
  pub failures : 0 < opts.unhealthy_threshold
  pub successes : 0 < opts.healthy_threshold

-- The registry has the replica, shows its hysteresis, and the counters are in band.
abbrev pub IsTracked : Thresholds → Registry → String → Hysteresis → Type 0
IsTracked opts reg id h =
    (r : ReplicaState) × (find id reg.replicas ≡ some r) × Mirrors h r.runtime × InBand opts h

abbrev pub IsValid : {R : Type 0} → Thresholds → Scheduler R → Type 0
IsValid opts s =
    (id : String) (h : Hysteresis) → get id s.hysteresis ≡ some h → IsTracked opts s.sink id h

probed-InBand :
    (opts : Thresholds) (alive : Bool) (h : Hysteresis)
    → IsPositive opts
    → InBand opts h
    → InBand opts (probed opts alive h)
unfolding probed
probed-InBand opts true h pos (up, down, new) =
    (λ e. ground arith, λ e. ground arith, λ e. ground arith)
probed-InBand opts false h pos (up, down, new) =
    (λ e. ground arith, λ e. ground arith, λ e. ground arith)

ejected-InBand :
    (opts : Thresholds) (h : Hysteresis)
    → IsPositive opts
    → InBand opts h
    → InBand opts (ejected opts h)
unfolding ejected
ejected-InBand opts h pos (up, down, new) =
    (λ e. ground arith, λ e. ground arith, λ e. ground arith)

-- A step on one tracked replica keeps every replica tracked.
Changes-IsValid :
    {R : Type 0} (opts : Thresholds) (id : String) (h : Hysteresis)
    (f : ReplicaState → ReplicaState) (s t : Scheduler R) (r : ReplicaState)
    (ts : List (HealthTransition R))
    → find id s.sink.replicas ≡ some r
    → Mirrors h (f r).runtime
    → InBand opts h
    → IsValid opts s
    → Changes id h f ts s t
    → IsValid opts t
Changes-IsValid opts id h f s t r ts found mirror band v c j k e = elim (Bool-cases (str_eq id j)) [
  | inl same ↦
      let hk : h ≡ k = ground (arith, c.hysteresis j) in
      (
        f r,
        ground (arith, c.sink j, str_eq_iff id j),
        subst (λ x. Mirrors x (f r).runtime) hk mirror,
        subst (InBand opts) hk band,
      )
  | inr other ↦
      let (r', found', m, b) = v j k (ground (arith, c.hysteresis j)) in
      (r', ground (arith, c.sink j), m, b)
]

-- An id that the scheduler does not track: a probe's result is dropped, an ejection throws.
pub poll_unknown :
    {R : Type 0} (opts : Thresholds) (id : String) (result : HealthResult) (at : String)
    (s : Scheduler R)
    → get id s.hysteresis ≡ none
    → poll_one opts id result at s ≡ done s
unfolding poll_one
poll_unknown opts id result at s e = rw e

eject_unknown :
    {R : Type 0} (opts : Thresholds) (id : String) (reason : R) (at : String) (s : Scheduler R)
    → get id s.hysteresis ≡ none
    → eject opts id reason at s ≡ threw (cannot_eject id) s
unfolding eject
eject_unknown opts id reason at s e = rw e

module _ {R : Type 0} (opts : Thresholds) (pos : IsPositive opts) (s : Scheduler R)
    (v : IsValid opts s) where
  -- On a replica that the scheduler tracks no step throws, and every replica stays tracked.
  probes_known :
      (id : String) (h : Hysteresis) (result : HealthResult) (at : String)
      → get id s.hysteresis ≡ some h
      → (t : Scheduler R) × (poll_one opts id result at s ≡ done t) × IsValid opts t
  unfolding seen
  probes_known id h result at held =
      let (r, found, m, b) = v id h held in
      let (t, e, c) = poll_one_lem opts id at s h r held found m result in
      (
        t,
        e,
        Changes-IsValid opts id _ _ s t r _ found
            (record { health = refl; failures = refl; successes = refl })
            (probed-InBand opts result.alive h pos b) v c,
      )

  ejects_known :
      (id : String) (h : Hysteresis) (reason : R) (at : String)
      → get id s.hysteresis ≡ some h
      → (t : Scheduler R) × (eject opts id reason at s ≡ done t) × IsValid opts t
  ejects_known id h reason at held =
      let (r, found, m, b) = v id h held in
      let (t, e, c) = eject_lem opts id at s h r held found m reason in
      (
        t,
        e,
        Changes-IsValid opts id _ _ s t r _ found
            (record { health = refl; failures = refl; successes = refl })
            (ejected-InBand opts h pos b) v c,
      )

  admins-IsValid :
      (id : String) (admin : ReplicaAdmin)
      → IsValid opts (after_admin s (set_admin s.sink id admin))
  admins-IsValid id admin = elim (update-Updates s.sink id (counters_patch 0 0) healthy admin).2 [
    | inl (_, e) ↦ subst (λ o. IsValid opts (after_admin s o)) (sym e) v
    | inr (next, e, _, law) ↦
        subst (λ o. IsValid opts (after_admin s o)) (sym e)
          (λ j k held.
            let (r, found, m, b) = v j k held in
            elim (Bool-cases (str_eq id j)) [
              | inl same ↦ (with_admin admin r, ground (arith, law j), m, b)
              | inr other ↦ (r, ground (arith, law j), m, b)
            ])
  ]

  pub step-IsValid : (e : Event R) → IsValid opts (step opts s e)
  unfolding step
  step-IsValid (probes id result at) = elim (Option-cases (get id s.hysteresis)) [
    | inl e ↦ subst (λ o. IsValid opts (state_of o)) (sym (poll_unknown opts id result at s e)) v
    | inr (h, e) ↦
        let (t, q, w) = probes_known id h result at e in
        subst (λ o. IsValid opts (state_of o)) (sym q) w
  ]
  step-IsValid (ejects id reason at) = elim (Option-cases (get id s.hysteresis)) [
    | inl e ↦ subst (λ o. IsValid opts (state_of o)) (sym (eject_unknown opts id reason at s e)) v
    | inr (h, e) ↦
        let (t, q, w) = ejects_known id h reason at e in
        subst (λ o. IsValid opts (state_of o)) (sym q) w
  ]
  step-IsValid (admins id admin) = admins-IsValid id admin

-- Probe results, ejections and operator actions, in any order, keep the counters in band and the
-- registry in step with the hysteresis: it shows each tracked replica's health and counters.
pub run-IsValid :
    {R : Type 0} (opts : Thresholds) (s : Scheduler R) (es : List (Event R))
    → IsPositive opts
    → IsValid opts s
    → IsValid opts (run opts s es)
unfolding run
run-IsValid opts s [] pos v = v
run-IsValid opts s (e ∷ es) pos v =
    run-IsValid opts (step opts s e) es pos (step-IsValid opts pos s v e)

get-nil : (j : String) (h : Hysteresis) → ¬ (get j [] ≡ some h)
unfolding get
get-nil j h e = cc

pub get-init_from :
    (ids : List String) (m : List (String × Hysteresis)) (j : String) (h : Hysteresis)
    → get j (init_from ids m) ≡ some h
    → (Memᴰ j ids × (h ≡ fresh)) ⊎ (get j m ≡ some h)
unfolding init_from
get-init_from [] m j h e = inr e
get-init_from (id ∷ ids) m j h e = elim (get-init_from ids (put id fresh m) j h e) [
  | inl (k, q) ↦ inl (Memᴰ.tail k, q)
  | inr q ↦ elim (Bool-cases (str_eq id j)) [
    | inl same ↦
        inl (Memᴰ.head (sym ((str_eq_iff id j).0 same)), ground (arith, get-put id j fresh m))
    | inr other ↦ inr (ground (arith, get-put id j fresh m))
  ]
]

-- A registered replica that no probe has reached.
abbrev pub IsNew : Registry → String → Type 0
IsNew reg id = (r : ReplicaState) × (find id reg.replicas ≡ some r) × (r.runtime ≡ initial_runtime)

-- With thresholds of at least 1, a scheduler that is started over registered replicas that no probe has
-- reached is in step with the registry, and stays so through probe results, ejections and operator
-- actions in any order: each tracked replica is registered with the health and the counters of its
-- hysteresis, and the counters are short of the threshold that would move it.
pub init-run-IsValid :
    {R : Type 0} (opts : Thresholds) (ids : List String) (sink : Registry) (es : List (Event R))
    → IsPositive opts
    → All (IsNew sink) ids
    → IsValid opts (run opts (init ids sink) es)
unfolding init
init-run-IsValid {R} opts ids sink es pos new = run-IsValid opts (init ids sink) es pos start
  where
    start : IsValid {R = R} opts (init ids sink)
    start id h held = elim (get-init_from ids [] id h held) [
      | inl (m, e) ↦
          let (r, found, same) = All_of_mem (IsNew sink) ids new m in
          (
            r,
            found,
            ground arith,
            (λ p. ground arith, λ p. ground arith, λ p. (ground arith, ground arith)),
          )
      | inr e ↦ absurd (get-nil id h e)
    ]
