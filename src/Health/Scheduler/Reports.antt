-- ===== src/Health/Scheduler/Reports.antt =====
-- Health/Scheduler/Reports: what an ejection adds to the transitions, whether it throws or not.
use whyrouted.Prelude.{
  All, String, some, List, [], ◌∷◌, ◌++◌, append-nil, Result, ok, throw, ◌≡◌, inl, inr, refl, sym,
  ap, ◌∙◌, Bool-cases, Option-cases,
}
use whyrouted.Types.{ReplicaHealth, unhealthy, is_unhealthy}
use whyrouted.Registry.{Registry, RegistryError, RuntimePatch}
use whyrouted.Health.Scheduler.{
  Hysteresis, HealthTransition, Scheduler, Thresholds, Outcome, ◌>>=◌, done, threw, state_of,
  lifted, emit, store, counters_patch, write_runtime, write_health, eject_found, eject, get,
}

-- What has run so far has reported nothing.
record Quiet {R : Type 0} (base : Scheduler R) (o : Outcome (Scheduler R)) : Type 0 where
  same : (state_of o).transitions ≡ base.transitions

lifted-Quiet :
    {R : Type 0} (base s : Scheduler R) (r : Result RegistryError Registry)
    → s.transitions ≡ base.transitions
    → Quiet base (lifted s r)
lifted-Quiet base s (ok sink) e = record { same = e }
lifted-Quiet base s (throw error) e = record { same = e }

write_runtime-Quiet :
    {R : Type 0} (base s : Scheduler R) (id : String) (patch : RuntimePatch)
    → s.transitions ≡ base.transitions
    → Quiet base (write_runtime id patch s)
unfolding write_runtime
write_runtime-Quiet base s id patch e = lifted-Quiet base s _ e

write_health-Quiet :
    {R : Type 0} (base s : Scheduler R) (id : String) (to : ReplicaHealth)
    → s.transitions ≡ base.transitions
    → Quiet base (write_health id to s)
unfolding write_health
write_health-Quiet base s id to e = lifted-Quiet base s _ e

bind-Quiet :
    {R : Type 0} {base : Scheduler R} (o : Outcome (Scheduler R))
    (f : Scheduler R → Outcome (Scheduler R))
    → Quiet base o
    → ((s : Scheduler R) → s.transitions ≡ base.transitions → Quiet base (f s))
    → Quiet base (o >>= f)
bind-Quiet (done s) f q h = h s q.same
bind-Quiet (threw error s) f q h = record { same = q.same }

module _ {R : Type 0} (P : HealthTransition R → Type 0) where
  -- After the transitions of `base` come others, each with the property.
  pub record Adds (base : Scheduler R) (o : Outcome (Scheduler R)) : Type 0 where
    pub added : List (HealthTransition R)
    pub grown : (state_of o).transitions ≡ base.transitions ++ added
    pub each : All P added

  Quiet-Adds : {base : Scheduler R} {o : Outcome (Scheduler R)} → Quiet base o → Adds base o
  Quiet-Adds {base} q = record {
    added = [];
    grown = q.same ∙ sym (append-nil base.transitions);
    each = tt;
  }

  bind-Adds :
      {base : Scheduler R} (o : Outcome (Scheduler R)) (f : Scheduler R → Outcome (Scheduler R))
      → Quiet base o
      → ((s : Scheduler R) → s.transitions ≡ base.transitions → Adds base (f s))
      → Adds base (o >>= f)
  bind-Adds (done s) f q h = h s q.same
  bind-Adds (threw error s) f q h = Quiet-Adds (record { same = q.same })

  emit-Adds :
      (base s : Scheduler R) (t : HealthTransition R)
      → s.transitions ≡ base.transitions
      → P t
      → Adds base (emit t s)
  emit-Adds base s t e p = record { added = t ∷ []; grown = ap (◌++ t ∷ []) e; each = (p, tt) }

  pub eject-Adds :
      (opts : Thresholds) (id at : String) (reason : R) (s : Scheduler R)
      → ((t : HealthTransition R) → t.reason ≡ some reason → P t)
      → Adds s (eject opts id reason at s)
  unfolding eject eject_found
  eject-Adds opts id at reason s p = elim (Option-cases (get id s.hysteresis)) [
    | inl lost ↦ rw lost (Quiet-Adds (record { same = refl }))
    | inr (h, held) ↦ elim (Bool-cases (is_unhealthy h.health)) [
      | inl down ↦ rw (held, down) (Quiet-Adds (record { same = refl }))
      | inr up ↦
          rw (held, up)
            (let k : Hysteresis = record {
              health = unhealthy;
              consec_failures = opts.unhealthy_threshold;
              consec_successes = 0;
            } in
              let t : HealthTransition R = record {
                replica_id = id;
                from = h.health;
                to = unhealthy;
                at = at;
                reason = some reason;
              } in
              let runtime =
                write_runtime id (counters_patch opts.unhealthy_threshold 0) (store id k s) in
              bind-Adds (runtime >>= write_health id unhealthy) (emit t)
                (bind-Quiet runtime (write_health id unhealthy)
                  (write_runtime-Quiet s (store id k s) id _ refl)
                  (λ s' e. write_health-Quiet s s' id unhealthy e))
                (λ s' e. emit-Adds s s' t e (p t refl)))
    ]
  ]
