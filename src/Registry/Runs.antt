-- ===== src/Registry/Runs.antt =====
-- Registry/Runs: what any history of calls keeps. A call that throws leaves the registry as it was.
use whyrouted.Prelude.{
  String, List, [], ◌∷◌, ◌++◌, Result, ok, throw, ◌>>=◌, ◌≡◌, refl, sym, ap, ◌∙◌, arith, inl, inr,
  map, Option-cases, Bool-cases, All, append_assoc, append-nil,
}
use whyrouted.Types.{Replica, ReplicaState, ReplicaRuntime, ReplicaHealth, ReplicaAdmin}
use whyrouted.Registry.{
  Registry, RegistryError, find, modify, has, fresh_state, register, require, update_runtime,
  set_health, set_admin, apply_to, with_runtime, RuntimePatch,
}
use whyrouted.Registry.Laws.{IsValid, ids, modify-Distinct, ids-modify, append-Distinct, ids-append}

pub data Call : Type 0 where
  registers : Replica → Call
  updates : String → RuntimePatch → Call
  sets_health : String → ReplicaHealth → Call
  sets_admin : String → ReplicaAdmin → Call

abbrev pub after : Registry → Result RegistryError Registry → Registry
after reg (ok next) = next
after reg (throw e) = reg

unfoldable pub step : Registry → Call → Registry
step reg (registers r) = after reg (register reg r)
step reg (updates id patch) = after reg (update_runtime reg id patch)
step reg (sets_health id health) = after reg (set_health reg id health)
step reg (sets_admin id admin) = after reg (set_admin reg id admin)

unfoldable pub run : Registry → List Call → Registry
unfolding step
run reg [] = reg
run reg (c ∷ cs) = run (step reg c) cs

-- What holds of a registry and of its update holds after the call, thrown or not.
update_cases {ℓ} :
    (P : Registry → Type ℓ) (reg : Registry) (id : String) (f : ReplicaState → ReplicaState)
    → P reg
    → P (apply_to reg id f)
    → P (after reg (require reg id >>= λ state. ok (apply_to reg id f)))
unfolding require
update_cases P reg id f old new = elim (Option-cases (find id reg.replicas)) [
  | inl e ↦ rw e old
  | inr (s, e) ↦ rw e new
]

step-IsValid : (reg : Registry) (c : Call) → IsValid reg → IsValid (step reg c)
unfolding step register update_runtime set_health set_admin
step-IsValid reg (registers r) v = ground (arith, append-Distinct reg.replicas (fresh_state r) v)
step-IsValid reg (updates id patch) v =
    update_cases IsValid reg id _ v (modify-Distinct id _ (λ s. refl) reg.replicas v)
step-IsValid reg (sets_health id h) v =
    update_cases IsValid reg id _ v (modify-Distinct id _ (λ s. refl) reg.replicas v)
step-IsValid reg (sets_admin id admin) v =
    update_cases IsValid reg id _ v (modify-Distinct id _ (λ s. refl) reg.replicas v)

-- No history of calls registers an id twice.
pub run-IsValid : (reg : Registry) (cs : List Call) → IsValid reg → IsValid (run reg cs)
unfolding run
run-IsValid reg [] v = v
run-IsValid reg (c ∷ cs) v = run-IsValid (step reg c) cs (step-IsValid reg c v)

abbrev Extends : Registry → Registry → Type 0
Extends reg next = (new : List String) × (ids next.replicas ≡ ids reg.replicas ++ new)

Extends-refl :
    (reg : Registry) (next : Registry) → ids next.replicas ≡ ids reg.replicas → Extends reg next
Extends-refl reg next e = ([], e ∙ sym (append-nil (ids reg.replicas)))

step-Extends : (reg : Registry) (c : Call) → Extends reg (step reg c)
unfolding step register update_runtime set_health set_admin
step-Extends reg (registers r) = elim (Bool-cases (has reg r.id)) [
  | inl e ↦ rw e (Extends-refl reg reg refl)
  | inr e ↦ rw e (r.id ∷ [], ids-append reg.replicas (fresh_state r))
]
step-Extends reg (updates id patch) =
    update_cases (Extends reg) reg id _ (Extends-refl reg reg refl)
      (Extends-refl reg _ (ids-modify id _ (λ s. refl) reg.replicas))
step-Extends reg (sets_health id h) =
    update_cases (Extends reg) reg id _ (Extends-refl reg reg refl)
      (Extends-refl reg _ (ids-modify id _ (λ s. refl) reg.replicas))
step-Extends reg (sets_admin id admin) =
    update_cases (Extends reg) reg id _ (Extends-refl reg reg refl)
      (Extends-refl reg _ (ids-modify id _ (λ s. refl) reg.replicas))

-- A history of calls only adds ids at the end: registration order is never disturbed.
pub run-Extends : (reg : Registry) (cs : List Call) → Extends reg (run reg cs)
unfolding run
run-Extends reg [] = Extends-refl reg reg refl
run-Extends reg (c ∷ cs) =
    let (new, e) = step-Extends reg c in
    let (more, e') = run-Extends (step reg c) cs in
    (new ++ more, e' ∙ ap (λ l. l ++ more) e ∙ append_assoc (ids reg.replicas) new more)

-- The calls of `HealthSink`, which is all that the health scheduler has of the registry.
abbrev pub IsSinkCall : Call → Type 0
IsSinkCall (updates id patch) = Unit
IsSinkCall (sets_health id h) = Unit
IsSinkCall _ = ⊥

abbrev pub intents : Registry → List (String × ReplicaAdmin)
intents reg = map (λ s. (s.id, s.admin)) reg.replicas

intents-modify :
    (id : String) (g : ReplicaRuntime → ReplicaRuntime) (ss : List ReplicaState)
    → map (λ s. (s.id, s.admin)) (modify id (with_runtime g) ss)
      ≡ map {B = String × ReplicaAdmin} (λ s. (s.id, s.admin)) ss
unfolding modify
intents-modify id g [] = refl
intents-modify id g (s ∷ ss) = ground (arith, intents-modify id g ss)

step-intents : (reg : Registry) (c : Call) → IsSinkCall c → intents (step reg c) ≡ intents reg
unfolding step update_runtime set_health
step-intents reg (updates id patch) h =
    update_cases (λ next. intents next ≡ intents reg) reg id _ refl
      (intents-modify id _ reg.replicas)
step-intents reg (sets_health id hl) h =
    update_cases (λ next. intents next ≡ intents reg) reg id _ refl
      (intents-modify id _ reg.replicas)
step-intents reg (registers r) h = absurd h
step-intents reg (sets_admin id admin) h = absurd h

-- Nothing that the scheduler can call changes an operator's intent: a drain survives every probe.
pub run-intents :
    (reg : Registry) (cs : List Call) → All IsSinkCall cs → intents (run reg cs) ≡ intents reg
unfolding run
run-intents reg [] h = refl
run-intents reg (c ∷ cs) h = run-intents (step reg c) cs h.1 ∙ step-intents reg c h.0
