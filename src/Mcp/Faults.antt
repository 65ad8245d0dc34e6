-- ===== src/Mcp/Faults.antt =====
-- src/mcp/tools/simulate-failure.ts. The text of a mode in a reason is printed with JSON.stringify, which
-- is an argument; the tool writes no state of the router.
use whyrouted.Prelude.{
  ℕ, ◌+◌, String, str_append, str_eq, Bool, true, Option, none, some, List, [], ◌∷◌, any,
  if◌then◌else◌, Result, ok, throw, ◌≡◌, refl, arith,
}
use whyrouted.Types.{ReplicaState}
use whyrouted.Registry.{Registry}
use whyrouted.Health.Scheduler.{get}
use whyrouted.Replica.{
  Server, FaultMode, kill, fail_infer, revive, FaultState, Posted, answered, admin, admin_path,
  inject, post_admin, health, infer_start, rejected, running, healthy, unavailable,
}
use whyrouted.Mcp.Action.{
  ActionOutput, applied, failed, unknown_replica, invalid_input, unsupported,
}

abbrev pub mode_text : FaultMode → String
mode_text kill = "kill"
mode_text fail_infer = "fail_infer"
mode_text revive = "revive"

unfoldable pub mode_named : String → Option FaultMode
mode_named text =
    if str_eq text "kill"
    then some kill
    else if str_eq text "fail_infer"
    then some fail_infer
    else if str_eq text "revive"
    then some revive
    else none

abbrev pub note : FaultMode → String
note kill =
    "the fault is injected; the replica shows as unhealthy in get_fleet_status only after the health checks notice, about 1.5 seconds at the default settings"
note fail_infer =
    "only inference requests fail; health checks still pass, so the replica is ejected when a live request fails, not by the poll loop"
note revive =
    "the fault is cleared; the replica returns to healthy in get_fleet_status after consecutive successful health checks"

abbrev pub no_simulation : String
no_simulation =
    "this fleet does not support fault injection: it is not a simulated fleet, so there is no kill switch to call"

-- An injector: what `inject` returned or threw.
abbrev pub Injector : Type 0
Injector = String → FaultMode → Result String FaultState

module _ (stringify : String → String) (store : Registry) (injector : Option Injector) where
  abbrev injected :
      String → FaultMode → Result String FaultState → Result String (ActionOutput FaultState)
  injected id mode (throw message) = throw (
      str_append "could not inject " (
        str_append (mode_text mode)
          (str_append " into " (str_append id (str_append ": " message)))))
  injected id mode (ok after) = ok (applied none after (note mode ∷ []))

  abbrev pub is_known : String → Bool
  is_known id = any (λ (r : ReplicaState). str_eq r.id id) store.replicas

  abbrev with_injector :
      String → FaultMode → Option Injector → Result String (ActionOutput FaultState)
  with_injector id mode none = ok (failed unsupported no_simulation)
  with_injector id mode (some run) =
      let result = injected id mode (run id mode) in
      if is_known id
      then result
      else ok (failed unknown_replica (str_append "no replica registered with id " (stringify id)))

  abbrev with_mode : String → String → Option FaultMode → Result String (ActionOutput FaultState)
  with_mode id text none = ok (
      failed invalid_input (
        str_append "unknown mode "
          (str_append (stringify text) ", expected one of kill, fail_infer, revive")))
  with_mode id text (some mode) = with_injector id mode injector

  -- `mode ?? "kill"`
  abbrev pub chosen : Option String → String
  chosen none = "kill"
  chosen (some text) = text

  unfoldable pub simulate_failure : String → Option String → Result String (ActionOutput FaultState)
  simulate_failure id mode = with_mode id (chosen mode) (mode_named (chosen mode))

mode_named-mode_text : (mode : FaultMode) → mode_named (mode_text mode) ≡ some mode
unfolding mode_named
mode_named-mode_text kill = refl
mode_named-mode_text fail_infer = refl
mode_named-mode_text revive = refl

-- A POST to the admin paths of the replica at `base` is answered by the app of that simulated replica.
abbrev pub IsServedBy : (String → Posted) → String → Server → Type 0
IsServedBy post base s =
    (mode : FaultMode)
    → post (str_append base (admin_path mode)) ≡ (post_admin (admin_path mode) s).0

-- What a fault does to a replica: a killed one fails its probes and its requests, one that fails to infer
-- fails its requests while its probes are as before, and a revived one serves both.
abbrev pub IsFaulted : FaultMode → Server → Server → Type 0
IsFaulted kill s s' =
    ((baseline : ℕ) → health s' baseline ≡ unavailable) × (infer_start s' ≡ rejected "killed")
IsFaulted fail_infer s s' =
    ((baseline : ℕ) → health s' baseline ≡ health s baseline)
    × (error : String) × (infer_start s' ≡ rejected error)
IsFaulted revive s s' =
    ((baseline : ℕ) → health s' baseline ≡ healthy (s.in_flight + baseline))
    × (next : Server) × (infer_start s' ≡ running next)
    × (next.in_flight ≡ s.in_flight + 1)

-- The path that the injector posts to is the one whose route sets the fault.
post_admin-IsFaulted :
    (mode : FaultMode) (s : Server)
    → let (answer, s') = post_admin (admin_path mode) s in
      (answer
        ≡ answered 200 (some (record { killed = s'.killed; infer_failing = s'.infer_failing })))
      × IsFaulted mode s s'
unfolding post_admin admin health infer_start
post_admin-IsFaulted kill s = (refl, ((λ b. refl), refl))
post_admin-IsFaulted fail_infer s =
    (refl, ((λ b. refl), if s.killed then "killed" else "infer_failing", ground arith))
post_admin-IsFaulted revive s = (refl, ((λ b. refl), _, refl, refl))

-- For a registered replica whose endpoint is known and answers as the app of a simulated replica does, and
-- each of the three modes: `simulate_failure` puts the fault into effect on that replica, and reports
-- the two flags that the replica is left with, and the note of the mode.
pub simulate_failure_lem :
    (stringify : String → String) (store : Registry) (urls : List (String × String))
    (post : String → Posted) (id base : String) (s : Server) (mode : FaultMode)
    → get id urls ≡ some base
    → IsServedBy post base s
    → is_known stringify store (some (inject urls post)) id ≡ true
    → let s' = (post_admin (admin_path mode) s).1 in
      (simulate_failure stringify store (some (inject urls post)) id (some (mode_text mode))
        ≡ ok (
            applied none
              (record { killed = s'.killed; infer_failing = s'.infer_failing })
              (note mode ∷ [])))
      × IsFaulted mode s s'
unfolding simulate_failure inject
simulate_failure_lem stringify store urls post id base s mode e served known =
    let (answer, faulted) = post_admin-IsFaulted mode s in
    (ground (arith, mode_named-mode_text mode, e, served mode, answer, known), faulted)
