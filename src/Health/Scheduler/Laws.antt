-- ===== src/Health/Scheduler/Laws.antt =====
-- Health/Scheduler/Laws: each step of the scheduler against its description.
use whyrouted.Prelude.{
  ◌+◌, String, str_eq, str_eq_iff, not, ◌&&◌, leb, none, some, List, ◌++◌, if◌then◌else◌, ◌≡◌, sym,
  ap, ◌∙◌, arith, inl, inr, Bool-cases, append-nil,
}
use whyrouted.Types.{healthy, unhealthy, is_healthy, is_unhealthy, ReplicaState}
use whyrouted.Registry.{find, with_runtime}
use whyrouted.Health.Scheduler.{
  HealthResult, Hysteresis, HealthTransition, Thresholds, Scheduler, done, get, counters_patch,
  probe_patch, eject, poll_one,
}
use whyrouted.Health.Scheduler.Model.{probed, ejected, Mirrors, moves, seen, set_runtime}
use whyrouted.Health.Scheduler.Writes.{Rewrites, Rewrites-agree, finish, settle}

-- What a step on the replica `id` does: its hysteresis becomes `h`, its entry of the registry is
-- changed by `f`, no other replica is touched, and the reported transitions are `ts`.
pub record Changes {R : Type 0} (id : String) (h : Hysteresis) (f : ReplicaState → ReplicaState)
    (ts : List (HealthTransition R)) (s t : Scheduler R) : Type 0 where
  pub hysteresis :
      (j : String) → get j t.hysteresis ≡ (if str_eq id j then some h else get j s.hysteresis)
  pub sink : Rewrites id f s.sink t.sink
  pub transitions : t.transitions ≡ s.transitions ++ ts

module _ {R : Type 0} (opts : Thresholds) (id : String) (at : String) (s : Scheduler R)
    (h : Hysteresis) (r : ReplicaState) (held : get id s.hysteresis ≡ some h)
    (found : find id s.sink.replicas ≡ some r) (mirror : Mirrors h r.runtime) where
  -- A probe of a replica that the scheduler tracks and that is registered, with a runtime in the registry
  -- that shows the health and the counters of its hysteresis, does not throw. It advances the
  -- hysteresis as `probed` says, makes the registry show it with the probe's measurements, or none
  -- after a failure, touches no other replica, and reports a transition exactly when the health
  -- changed.
  pub poll_one_lem :
      (result : HealthResult)
      → let h' = probed opts result.alive h in
        (t : Scheduler R) × (poll_one opts id result at s ≡ done t)
        × Changes id h' (set_runtime (seen h' result at)) (moves id h.health h'.health at none) s t
  unfolding poll_one probed seen moves
  poll_one_lem result = elim (Bool-cases result.alive) [
    | inl up ↦
        let n = h.consec_successes + 1 in
        let move = not (is_healthy h.health) && leb opts.healthy_threshold n in
        let p = probe_patch result.in_flight (some result.latency_ms) 0 n at in
        let (t, e, hs, law, ts) =
          finish id at s r found (record h { consec_failures = 0; consec_successes = n }) p healthy
            move in
        (
          t,
          rw (held, up) e,
          record {
            hysteresis = λ j. rw up (hs j);
            sink = Rewrites-agree id _ _ s.sink t.sink r found (ground (arith, mirror.health)) law;
            transitions = ts ∙ ap (◌++◌ s.transitions) (ground arith);
          },
        )
    | inr down ↦
        let n = h.consec_failures + 1 in
        let move = not (is_unhealthy h.health) && leb opts.unhealthy_threshold n in
        let p = probe_patch 0 none n 0 at in
        let (t, e, hs, law, ts) =
          finish id at s r found (record h { consec_failures = n; consec_successes = 0 }) p
            unhealthy move in
        (
          t,
          rw (held, down) e,
          record {
            hysteresis = λ j. rw down (hs j);
            sink = Rewrites-agree id _ _ s.sink t.sink r found (ground (arith, mirror.health)) law;
            transitions = ts ∙ ap (◌++◌ s.transitions) (ground arith);
          },
        )
  ]

  -- An ejection of a registered replica does not throw. An unhealthy replica is left as it is, and
  -- nothing is reported; any other becomes unhealthy with `N` failures and no successes, the registry
  -- shows that and keeps its measurements, and one transition with the reason is reported.
  pub eject_lem :
      (reason : R)
      → let h' = ejected opts h in
        (t : Scheduler R) × (eject opts id reason at s ≡ done t)
        × Changes id h'
            (with_runtime (λ x. record x {
              health = h'.health;
              consec_failures = h'.consec_failures;
              consec_successes = h'.consec_successes;
            }))
            (moves id h.health h'.health at (some reason))
            s
            t
  unfolding eject ejected moves
  eject_lem reason = elim (Bool-cases (is_unhealthy h.health)) [
    | inl down ↦ (
      s,
      rw (held, down),
      record {
        hysteresis = λ j. ground (arith, held, str_eq_iff id j);
        sink = λ j.
            ground
              (arith, found, str_eq_iff id j, mirror.health, mirror.failures, mirror.successes);
        transitions = sym (append-nil s.transitions) ∙ ap (◌++◌ s.transitions) (ground arith);
      },
    )
    | inr up ↦
        let h' : Hysteresis = record {
          health = unhealthy;
          consec_failures = opts.unhealthy_threshold;
          consec_successes = 0;
        } in
        let tr : HealthTransition R = record {
          replica_id = id;
          from = h.health;
          to = unhealthy;
          at = at;
          reason = some reason;
        } in
        let (t, e, hs, law, ts) =
          settle id s r found h' (counters_patch opts.unhealthy_threshold 0) unhealthy tr in
        (
          t,
          rw (held, up) e,
          record {
            hysteresis = λ j. rw up (hs j);
            sink = Rewrites-agree id _ _ s.sink t.sink r found (ground arith) law;
            transitions = ts ∙ ap (◌++◌ s.transitions) (ground arith);
          },
        )
  ]
