-- ===== src/Health/Scheduler/Recovery.antt =====
-- Health/Scheduler/Recovery: a history of probes of one replica, on the scheduler and the registry.
use whyrouted.Prelude.{
  ℕ, ◌≤◌, ◌<◌, String, str_eq_refl, Bool, true, false, some, List, [], ◌∷◌, map, ◌≡◌, ◌≢◌, refl,
  ◌∙◌, subst, arith,
}
use whyrouted.Types.{ReplicaHealth, healthy, unhealthy, ReplicaState}
use whyrouted.Registry.{find}
use whyrouted.Health.Scheduler.{
  HealthResult, Hysteresis, Thresholds, Scheduler, Outcome, done, ◌>>=◌, get, poll_one, eject,
  state_of,
}
use whyrouted.Health.Scheduler.Model.{probed, ejected}
use whyrouted.Health.Scheduler.Laws.{poll_one_lem, eject_lem}
use whyrouted.Health.Scheduler.Invariant.{IsValid, IsPositive, step-IsValid, step, probes, ejects}
use whyrouted.Health.Scheduler.Streaks.{
  probed_all, NoSuccessStreak, NoFailureStreak, stays_unhealthy, stays_healthy, repeat, streak_up,
  streak_down, ejected_recovers,
}

-- A probe's result with the time at which it is handled.
abbrev pub Probe : Type 0
Probe = HealthResult × String

abbrev pub results : List Probe → List Bool
results = map (λ p. p.0.alive)

module _ {R : Type 0} (opts : Thresholds) (id : String) where
  -- Probes of the replica, the oldest first.
  unfoldable pub polls : List Probe → Scheduler R → Outcome (Scheduler R)
  polls [] s = done s
  polls (p ∷ ps) s = poll_one opts id p.0 p.1 s >>= polls ps

  -- The registry shows the replica with this health.
  abbrev pub Shows : Scheduler R → ReplicaHealth → Type 0
  Shows s shown_as =
      (r : ReplicaState) × (find id s.sink.replicas ≡ some r) × (r.runtime.health ≡ shown_as)

  module _ (pos : IsPositive opts) where
    pub polls_lem :
        (ps : List Probe) (s : Scheduler R) (h : Hysteresis)
        → IsValid opts s
        → get id s.hysteresis ≡ some h
        → (t : Scheduler R) × (polls ps s ≡ done t)
          × IsValid opts t
          × (get id t.hysteresis ≡ some (probed_all opts (results ps) h))
    unfolding polls probed_all
    polls_lem [] s h v held = (s, refl, v, held)
    polls_lem (p ∷ ps) s h v held =
        let (r, found, mirror, _) = v id h held in
        let (t, e, c) = poll_one_lem opts id p.1 s h r held found mirror p.0 in
        let held' : get id t.hysteresis ≡ some (probed opts p.0.alive h) =
          c.hysteresis id ∙ rw (str_eq_refl id) in
        let v' : IsValid opts t =
          subst (λ o. IsValid opts (state_of o)) e
            (unfold step in (step-IsValid opts pos s v (probes id p.0 p.1))) in
        let (u, e', v'', held'') = polls_lem ps t (probed opts p.0.alive h) v' held' in
        (u, rw e e', v'', held'')

    shown :
        (s : Scheduler R) (h : Hysteresis) (shown_as : ReplicaHealth)
        → IsValid opts s
        → get id s.hysteresis ≡ some h
        → h.health ≡ shown_as
        → Shows s shown_as
    shown s h shown_as v held e =
        let (r, found, mirror, _) = v id h held in (r, found, mirror.health ∙ e)

    -- With thresholds of at least 1 and a scheduler that is in step with its registry, probes of a
    -- tracked replica do not throw, and the registry shows their outcome: an unhealthy
    -- replica stays unhealthy while no `M` successes come in a row, a healthy one stays healthy while no
    -- `N` failures do, `M` successes in a row make any replica healthy, and `N` failures in a row make
    -- any replica unhealthy.
    pub polls-hysteresis :
        (ps : List Probe) (s : Scheduler R) (h : Hysteresis)
        → IsValid opts s
        → get id s.hysteresis ≡ some h
        → (t : Scheduler R) × (polls ps s ≡ done t)
          × (h.health ≡ unhealthy
              → NoSuccessStreak opts.healthy_threshold h.consec_successes (results ps)
              → Shows t unhealthy)
          × (h.health ≡ healthy
              → NoFailureStreak opts.unhealthy_threshold h.consec_failures (results ps)
              → Shows t healthy)
          × (results ps ≡ repeat opts.healthy_threshold true → Shows t healthy)
          × (results ps ≡ repeat opts.unhealthy_threshold false → Shows t unhealthy)
    polls-hysteresis ps s h v held =
        let (t, e, v', held') = polls_lem ps s h v held in
        (
          t,
          e,
          λ down n. shown t _ unhealthy v' held' (stays_unhealthy opts (results ps) h down n),
          λ up n. shown t _ healthy v' held' (stays_healthy opts (results ps) h up n),
          λ all_up.
              shown t _ healthy v' held'
                (rw all_up (streak_up opts opts.healthy_threshold h pos.successes (omega arith))),
          λ all_down. shown t _ unhealthy v' held' (
              rw all_down (streak_down opts opts.unhealthy_threshold h pos.failures (omega arith))),
        )

    -- With thresholds of at least 1 and a scheduler that is in step with its registry, a tracked replica
    -- that was not unhealthy and that a request has ejected is shown as unhealthy until `M` probes in a row have
    -- passed, and as healthy from then on, however many follow.
    pub eject-recovers :
        (reason : R) (at : String) (k : ℕ) (ps : List Probe) (s : Scheduler R) (h : Hysteresis)
        → IsValid opts s
        → get id s.hysteresis ≡ some h
        → h.health ≢ unhealthy
        → results ps ≡ repeat k true
        → (t : Scheduler R) × ((eject opts id reason at s >>= polls ps) ≡ done t)
          × (k < opts.healthy_threshold → Shows t unhealthy)
          × (opts.healthy_threshold ≤ k → Shows t healthy)
    eject-recovers reason at k ps s h v held up all_up =
        let (r, found, mirror, _) = v id h held in
        let (u, e, c) = eject_lem opts id at s h r held found mirror reason in
        let held' : get id u.hysteresis ≡ some (ejected opts h) =
          c.hysteresis id ∙ rw (str_eq_refl id) in
        let v' : IsValid opts u =
          subst (λ o. IsValid opts (state_of o)) e
            (unfold step in (step-IsValid opts pos s v (ejects id reason at))) in
        let (t, e', v'', held'') = polls_lem ps u (ejected opts h) v' held' in
        let (few, enough) = ejected_recovers opts h k up pos.successes in
        (
          t,
          rw e e',
          λ n. shown t _ unhealthy v'' held'' (rw all_up (few n)),
          λ n. shown t _ healthy v'' held'' (rw all_up (enough n)),
        )
