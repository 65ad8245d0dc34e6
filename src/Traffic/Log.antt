-- ===== src/Traffic/Log.antt =====
-- Traffic/Log: what the failover log takes from the transitions that the scheduler reports.
use whyrouted.Prelude.{
  All, All-append, not, String, ◌&&◌, Option, none, some, List, [], ◌∷◌, ◌++◌, append_assoc,
  append-nil, length, if◌then◌else◌, ◌≡◌, refl, sym, ap, ◌∙◌, inl, inr, Bool-cases, Option-cases,
}
use whyrouted.Types.{ReplicaHealth, healthy, unhealthy, unknown, is_unhealthy, is_healthy}
use whyrouted.Events.{
  EventKind, ejected, recovered, Trigger, health_check, request_failure, FailoverEvent,
  FailoverLogOptions, handle_transition,
}
use whyrouted.Health.Scheduler.{Hysteresis, HealthTransition}
use whyrouted.Health.Scheduler.Model.{moves}
use whyrouted.Api.Route.{World}
use whyrouted.Traffic.{Settings, drop, noted, new_transitions, observed}

-- Which replica, what happened to it, and when.
abbrev pub Entry : Type 0
Entry = String × EventKind × String

abbrev pub entry : Trigger → FailoverEvent → List Entry
entry health_check e = (e.replica_id, e.kind, e.at) ∷ []
entry request_failure e = []

-- The entries of the log that health checks have caused.
abbrev pub by_checks : List FailoverEvent → List Entry
by_checks [] = []
by_checks (e ∷ es) = entry e.trigger e ++ by_checks es

-- What is due for a transition: nothing for one with a reason, which a request has caused, nor for one
-- from unknown to healthy.
abbrev pub due : HealthTransition String → Option String → List Entry
due t (some reason) = []
due t none =
    if is_unhealthy t.to
    then (t.replica_id, ejected, t.at) ∷ []
    else if is_healthy t.to && is_unhealthy t.from
    then (t.replica_id, recovered, t.at) ∷ []
    else []

abbrev pub due_for : List (HealthTransition String) → List Entry
due_for [] = []
due_for (t ∷ ts) = due t t.reason ++ due_for ts

pub by_checks-append :
    (es fs : List FailoverEvent) → by_checks (es ++ fs) ≡ by_checks es ++ by_checks fs
by_checks-append [] fs = refl
by_checks-append (e ∷ es) fs =
    ap (entry e.trigger e ++◌) (by_checks-append es fs) ∙ sym (append_assoc (entry e.trigger e) _ _)

by_checks-handle_transition :
    (opts : FailoverLogOptions) (id : String) (t : HealthTransition String)
    (es : List FailoverEvent)
    → by_checks (handle_transition opts id t es) ≡ by_checks es ++ due t t.reason
unfolding handle_transition
by_checks-handle_transition opts id t es = elim (Option-cases t.reason) [
  | inr (reason, e) ↦ rw e (sym (append-nil (by_checks es)))
  | inl e ↦ elim (Bool-cases (is_unhealthy t.to)) [
    | inl down ↦ rw (e, down) (by_checks-append es _)
    | inr up ↦ elim (Bool-cases (is_healthy t.to && is_unhealthy t.from)) [
      | inl back ↦ rw (e, up, back) (by_checks-append es _)
      | inr first ↦ rw (e, up, first) (sym (append-nil (by_checks es)))
    ]
  ]
]

by_checks-noted :
    (opts : FailoverLogOptions) (id : String) (ts : List (HealthTransition String))
    (es : List FailoverEvent)
    → by_checks (noted opts id ts es) ≡ by_checks es ++ due_for ts
unfolding noted
by_checks-noted opts id [] es = sym (append-nil (by_checks es))
by_checks-noted opts id (t ∷ ts) es =
    by_checks-noted opts id ts (handle_transition opts id t es)
    ∙ ap (◌++ due_for ts) (by_checks-handle_transition opts id t es)
    ∙ append_assoc (by_checks es) (due t t.reason) (due_for ts)

drop-append : {A : Type 0} (xs ys : List A) → drop (length xs) (xs ++ ys) ≡ ys
drop-append [] ys = refl
drop-append (x ∷ xs) ys = drop-append xs ys

-- A transition with a reason: one that a request has caused.
abbrev pub HasReason : HealthTransition String → Type 0
HasReason t = (reason : String) × (t.reason ≡ some reason)

pub due_for-none : (ts : List (HealthTransition String)) → All HasReason ts → due_for ts ≡ []
due_for-none [] h = refl
due_for-none (t ∷ ts) ((reason, e), h) = rw e (due_for-none ts h)

-- Before the log has been told: transitions have come, each with a reason, and the log of health checks is
-- as it was.
pub record Grown (w w' : World) : Type 0 where
  pub added : List (HealthTransition String)
  pub grown : w'.scheduler.transitions ≡ w.scheduler.transitions ++ added
  pub each : All HasReason added
  pub kept : by_checks w'.failovers ≡ by_checks w.failovers

-- Neither the transitions nor the log have changed.
abbrev pub IsStill : World → World → Type 0
IsStill w w' = (w'.scheduler.transitions ≡ w.scheduler.transitions) × (w'.failovers ≡ w.failovers)

pub IsStill-Grown : (w w' : World) → IsStill w w' → Grown w w'
IsStill-Grown w w' (e, k) = record {
  added = [];
  grown = e ∙ sym (append-nil w.scheduler.transitions);
  each = tt;
  kept = ap by_checks k;
}

pub Grown-trans : (u v w : World) → Grown u v → Grown v w → Grown u w
Grown-trans u v w g h = record {
  added = g.added ++ h.added;
  grown = h.grown ∙ ap (◌++ h.added) g.grown ∙ append_assoc u.scheduler.transitions g.added h.added;
  each = All-append HasReason g.added h.added g.each h.each;
  kept = h.kept ∙ g.kept;
}

-- What the log has afterwards from health checks: what it had, and what is due for the new transitions.
pub observed-by_checks :
    (c : Settings) (id : String) (w w' : World) (added : List (HealthTransition String))
    → w'.scheduler.transitions ≡ w.scheduler.transitions ++ added
    → by_checks w'.failovers ≡ by_checks w.failovers
    → by_checks (observed c id w w').failovers ≡ by_checks w.failovers ++ due_for added
unfolding observed
observed-by_checks c id w w' added grown kept =
    by_checks-noted c.log_options id (new_transitions w w') w'.failovers
    ∙ ap (λ ts. by_checks w'.failovers ++ due_for ts)
        (ap (drop (length w.scheduler.transitions)) grown
          ∙ drop-append w.scheduler.transitions added)
    ∙ ap (◌++ due_for added) kept

-- The entry for a change of health, from what it was to what it is: an ejection, a recovery, or none.
abbrev pub turned : String → String → ReplicaHealth → ReplicaHealth → List Entry
turned id at from to =
    if is_unhealthy to && not (is_unhealthy from)
    then (id, ejected, at) ∷ []
    else if is_healthy to && is_unhealthy from
    then (id, recovered, at) ∷ []
    else []

pub due_for-moves :
    (id at : String) (from to : ReplicaHealth)
    → due_for (moves {R = String} id from to at none) ≡ turned id at from to
unfolding moves
due_for-moves id at healthy healthy = refl
due_for-moves id at healthy unhealthy = refl
due_for-moves id at healthy unknown = refl
due_for-moves id at unhealthy healthy = refl
due_for-moves id at unhealthy unhealthy = refl
due_for-moves id at unhealthy unknown = refl
due_for-moves id at unknown healthy = refl
due_for-moves id at unknown unhealthy = refl
due_for-moves id at unknown unknown = refl

-- A replica that the scheduler does not track has no change of health.
abbrev pub changed : String → String → Option Hysteresis → Option Hysteresis → List Entry
changed id at (some h) (some h') = turned id at h.health h'.health
changed _ _ _ _ = []

pub changed_held :
    (id at : String) (a b : Option Hysteresis) (h h' : Hysteresis)
    → a ≡ some h
    → b ≡ some h'
    → changed id at a b ≡ turned id at h.health h'.health
changed_held id at a b h h' e f = rw (e, f) refl
