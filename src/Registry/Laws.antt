-- ===== src/Registry/Laws.antt =====
-- Registry/Laws: ids are distinct keys, each call changes the one replica it names, and throws
-- exactly when that replica is missing (or, for `register`, present).
use whyrouted.Prelude.{
  String, str_eq, str_eq_iff, str_eq_refl, none, some, List, [], ◌∷◌, ◌++◌, if◌then◌else◌, Result,
  ok, throw, ◌>>=◌, ◌≡◌, refl, ap, true, false, arith, ◌⊎◌, inl, inr, map, Option-cases,
}
use mathlib.Core.Option
use whyrouted.Types.{Replica, ReplicaState, ReplicaHealth, ReplicaAdmin}
use whyrouted.Registry.{
  Registry, RegistryError, already_registered, not_registered, find, modify, has, fresh_state,
  register, require, update_runtime, set_health, set_admin, apply_to, with_runtime, with_health,
  with_admin, merge, RuntimePatch,
}

-- No id is registered twice.
abbrev pub Distinct : List ReplicaState → Type 0
Distinct [] = Unit
Distinct (s ∷ ss) = (find s.id ss ≡ none) × Distinct ss

abbrev pub IsValid : Registry → Type 0
IsValid reg = Distinct reg.replicas

abbrev pub ids : List ReplicaState → List String
ids = map (λ s. s.id)

abbrev pub KeepsId : (ReplicaState → ReplicaState) → Type 0
KeepsId f = (s : ReplicaState) → (f s).id ≡ s.id

module _ (id : String) (f : ReplicaState → ReplicaState) (keeps : KeepsId f) where
  pub ids-modify : (ss : List ReplicaState) → ids (modify id f ss) ≡ ids ss
  unfolding modify
  ids-modify [] = refl
  ids-modify (s ∷ ss) = ground (arith, ids-modify ss, keeps s)

  pub find-modify :
      (j : String) (ss : List ReplicaState)
      → find j (modify id f ss) ≡ (if str_eq id j then Option.map f (find j ss) else find j ss)
  unfolding find modify
  find-modify j [] = ground arith
  find-modify j (s ∷ ss) = ground (
    arith,
    find-modify j ss,
    keeps s,
    str_eq_iff s.id id,
    str_eq_iff s.id j,
    str_eq_iff (f s).id j,
    str_eq_iff id j,
  )

  find-modify-none : (ss : List ReplicaState) → find id ss ≡ none → modify id f ss ≡ ss
  unfolding find modify
  find-modify-none [] h = refl
  find-modify-none (s ∷ ss) h = ground (arith, find-modify-none ss)

  pub modify-Distinct : (ss : List ReplicaState) → Distinct ss → Distinct (modify id f ss)
  unfolding modify
  modify-Distinct [] h = tt
  modify-Distinct (s ∷ ss) h = ground (
    arith,
    modify-Distinct ss h.1,
    find-modify s.id ss,
    keeps s,
    str_eq_iff s.id id,
    str_eq_iff id s.id,
    str_eq_refl id,
  )

-- What an update of one replica does: it throws on an unknown id, and otherwise changes the entry
-- of that id, no other, and no id.
abbrev pub Updates :
    Registry → String → (ReplicaState → ReplicaState) → Result RegistryError Registry → Type 0
Updates reg id f r =
    ((find id reg.replicas ≡ none) × (r ≡ throw (not_registered id)))
    ⊎ ((next : Registry) × (r ≡ ok next)
        × (ids next.replicas ≡ ids reg.replicas)
        × ((j : String)
            → find j next.replicas
              ≡ (if str_eq id j then Option.map f (find j reg.replicas) else find j reg.replicas)))

module _ (reg : Registry) (id : String) where
  guarded-Updates :
      (f : ReplicaState → ReplicaState)
      → KeepsId f
      → Updates reg id f (require reg id >>= λ state. ok (apply_to reg id f))
  unfolding require
  guarded-Updates f keeps = elim (Option-cases (find id reg.replicas)) [
    | inl e ↦ inl (e, rw e)
    | inr (s, e) ↦ inr (
      apply_to reg id f,
      rw e,
      ids-modify id f keeps reg.replicas,
      λ j. find-modify id f keeps j reg.replicas,
    )
  ]

  -- The three updates throw exactly on an unregistered id; otherwise `updateRuntime` merges the
  -- patch into the runtime of that id, `setHealth` sets its health alone and `setAdmin` its
  -- operator intent alone, every other replica is as it was, and so are the ids and their order.
  pub update-Updates :
      (patch : RuntimePatch) (health : ReplicaHealth) (admin : ReplicaAdmin)
      → Updates reg id (with_runtime (λ r. merge r patch)) (update_runtime reg id patch)
        × Updates reg id (with_runtime (with_health health)) (set_health reg id health)
        × Updates reg id (with_admin admin) (set_admin reg id admin)
  unfolding update_runtime set_health set_admin
  update-Updates patch health admin = (
    guarded-Updates (with_runtime (λ r. merge r patch)) (λ s. refl),
    guarded-Updates (with_runtime (with_health health)) (λ s. refl),
    guarded-Updates (with_admin admin) (λ s. refl),
  )

pub find-append :
    (j : String) (ss : List ReplicaState) (s : ReplicaState)
    → find s.id ss ≡ none
    → find j (ss ++ s ∷ []) ≡ (if str_eq s.id j then some s else find j ss)
unfolding find
find-append j [] s h = refl
find-append j (t ∷ ss) s h =
    ground (arith, find-append j ss s, str_eq_iff t.id s.id, str_eq_iff t.id j, str_eq_iff s.id j)

pub append-Distinct :
    (ss : List ReplicaState) (s : ReplicaState)
    → Distinct ss
    → find s.id ss ≡ none
    → Distinct (ss ++ s ∷ [])
unfolding find
append-Distinct [] s d h = (refl, tt)
append-Distinct (t ∷ ss) s d h = ground (
  arith,
  append-Distinct ss s d.1,
  find-append t.id ss s,
  str_eq_iff t.id s.id,
  str_eq_iff s.id t.id,
)

pub ids-append :
    (ss : List ReplicaState) (s : ReplicaState) → ids (ss ++ s ∷ []) ≡ ids ss ++ s.id ∷ []
ids-append [] s = refl
ids-append (t ∷ ss) s = ap (◌∷◌ t.id) (ids-append ss s)

-- `register` throws exactly on an id that is there; otherwise it adds the id at the end, with the
-- initial runtime and active, and every other id is looked up as before.
pub register_lem :
    (reg : Registry) (r : Replica)
    → ((has reg r.id ≡ true) × (register reg r ≡ throw (already_registered r.id)))
      ⊎ ((next : Registry) × (has reg r.id ≡ false)
          × (register reg r ≡ ok next)
          × (ids next.replicas ≡ ids reg.replicas ++ r.id ∷ [])
          × ((j : String)
              → find j next.replicas
                ≡ (if str_eq r.id j then some (fresh_state r) else find j reg.replicas)))
unfolding register
register_lem reg r = elim (Option-cases (find r.id reg.replicas)) [
  | inl e ↦ inr (
    record { replicas = reg.replicas ++ fresh_state r ∷ [] },
    ground arith,
    ground arith,
    ids-append reg.replicas (fresh_state r),
    λ j. find-append j reg.replicas (fresh_state r) e,
  )
  | inr (s, e) ↦ inl (ground arith, ground arith)
]
