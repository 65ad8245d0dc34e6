-- ===== src/Traffic/Watched.antt =====
-- Traffic/Watched: probes and operators leave the fleet watched.
use whyrouted.Prelude.{
  List, String, str_eq, some, ◌≡◌, sym, subst, arith, inl, inr, Bool-cases, Option-cases,
}
use whyrouted.Types.{ReplicaState, ReplicaAdmin, healthy}
use whyrouted.Registry.{Registry, find, set_admin}
use whyrouted.Registry.Laws.{update-Updates}
use whyrouted.Health.Scheduler.{
  HealthResult, counters_patch, Scheduler, Thresholds, state_of, get, poll_one,
}
use whyrouted.Health.Scheduler.Model.{probed}
use whyrouted.Health.Scheduler.Laws.{poll_one_lem}
use whyrouted.Health.Scheduler.Invariant.{
  IsPositive, IsValid, step-IsValid, step, probes, admins, poll_unknown, after_admin,
}
use whyrouted.Health.Scheduler.Writes.{Rewrites}
use whyrouted.Traffic.{kept_or}
use whyrouted.Api.Route.Fleet.{IsWatched}

-- A rewritten registry has no other replicas.
Rewrites-back :
    (id : String) (f : ReplicaState → ReplicaState) (old new : Registry)
    → Rewrites id f old new
    → (j : String) (r : ReplicaState) → find j new.replicas ≡ some r
    → (r' : ReplicaState) × (find j old.replicas ≡ some r')
Rewrites-back id f old new law j r e = elim (Option-cases (find j old.replicas)) [
  | inl none_there ↦ absurd (ground (arith, law j, e, none_there))
  | inr there ↦ there
]

module _ (opts : Thresholds) (fleet : List String) (pos : IsPositive opts) (s : Scheduler String)
    (v : IsWatched opts fleet s) where
  pub poll-IsWatched :
      (id : String) (result : HealthResult) (at : String)
      → IsWatched opts fleet (state_of (poll_one opts id result at s))
  unfolding probed
  poll-IsWatched id result at = elim (Option-cases (get id s.hysteresis)) [
    | inl unknown_ ↦
        subst (λ o. IsWatched opts fleet (state_of o))
          (sym (poll_unknown opts id result at s unknown_)) v
    | inr (h, held) ↦
        let (r, found, mirror, _) = v.in_step id h held in
        let (t, e, c) = poll_one_lem opts id at s h r held found mirror result in
        subst (λ o. IsWatched opts fleet (state_of o)) (sym e)
          (record {
            registered = λ j k p.
                let (k', there) = Rewrites-back id _ s.sink t.sink c.sink j k p in
                v.registered j k' there;
            watched = λ j n.
                let (k, p) = v.watched j n in
                elim (Bool-cases (str_eq id j)) [
                  | inl same ↦ (probed opts result.alive h, ground (arith, c.hysteresis j))
                  | inr other ↦ (k, ground (arith, c.hysteresis j))
                ];
            in_step =
                subst (λ o. IsValid opts (state_of o)) e
                  (unfold step in (step-IsValid opts pos s v.in_step (probes id result at)));
          })
  ]

  -- What a write of the registry that may throw leaves.
  abbrev pub with_admin_set : String → ReplicaAdmin → Scheduler String
  with_admin_set id admin = record s { sink = kept_or s.sink (set_admin s.sink id admin) }

  pub admin-IsWatched :
      (id : String) (admin : ReplicaAdmin) → IsWatched opts fleet (with_admin_set id admin)
  admin-IsWatched id admin = elim (update-Updates s.sink id (counters_patch 0 0) healthy admin).2 [
    | inl (_, e) ↦
        subst (λ o. IsWatched opts fleet (record s { sink = kept_or s.sink o })) (sym e) v
    | inr (next, e, _, law) ↦
        subst (λ o. IsWatched opts fleet (record s { sink = kept_or s.sink o })) (sym e)
          (record {
            registered = λ j k p.
                let (k', there) = Rewrites-back id _ s.sink next law j k p in
                v.registered j k' there;
            watched = v.watched;
            in_step =
                subst (λ o. IsValid opts (after_admin s o)) e
                  (unfold step in (step-IsValid opts pos s v.in_step (admins id admin)));
          })
  ]
