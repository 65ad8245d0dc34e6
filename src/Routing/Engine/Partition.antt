-- ===== src/Routing/Engine/Partition.antt =====
-- Routing/Engine/Partition: the report of a round accounts for every replica, and says why each was
-- left out.
use whyrouted.Prelude.{
  String, Bool, true, not, Option, List, [], ◌∷◌, ◌++◌, map, filter, ◌≡◌, ◌≢◌, refl, ap, ◌∙◌, arith,
  ◌⊎◌, inl, inr, Memᴰ, Bool-cases, filter-mem, All, All-append, append_assoc,
}
use mathlib.Core.List.{Perm, perm_middle}
use mathlib.Core.List.Perm
use whyrouted.Types.{ReplicaState, ReplicaAdmin, ReplicaHealth}
use whyrouted.Types
use whyrouted.Routing.Score.{ExcludedCandidate, ExclusionReason, unhealthy, already_tried, drained}
use whyrouted.Routing.Engine.{is_candidate, is_filtered, is_tried, filtered_entry, tried_entry}
use whyrouted.Routing.Engine.Pool.{pool, excluded}

abbrev pub excluded_ids : List ExcludedCandidate → List String
excluded_ids = map (λ e. e.replica_id)

abbrev pub ids : List ReplicaState → List String
ids = map (λ r. r.id)

admin_cases : (a : ReplicaAdmin) → (a ≡ Types.drained) ⊎ (a ≡ Types.active)
admin_cases Types.drained = inl refl
admin_cases Types.active = inr refl

-- A filter and its complement hold the list between them.
filter-perm :
    (p q : ReplicaState → Bool) (rs : List ReplicaState)
    → ((r : ReplicaState) → q r ≡ not (p r))
    → Perm (ids rs) (ids (filter p rs) ++ ids (filter q rs))
filter-perm p q [] h = Perm.refl []
filter-perm p q (r ∷ rs) h = elim (Bool-cases (p r)) [
  | inl e ↦ rw (h r, e) (Perm.cons r.id (filter-perm p q rs h))
  | inr e ↦
      rw (h r, e)
        (Perm.trans (Perm.cons r.id (filter-perm p q rs h))
          (Perm.symm (perm_middle (ids (filter p rs)) (ids (filter q rs)))))
]

entry_ids :
    (f : ReplicaState → ExcludedCandidate) (rs : List ReplicaState)
    → ((r : ReplicaState) → (f r).replica_id ≡ r.id)
    → excluded_ids (map f rs) ≡ ids rs
entry_ids f [] h = refl
entry_ids f (r ∷ rs) h = cc (h r, entry_ids f rs h)

excluded_ids-append :
    (es fs : List ExcludedCandidate) → excluded_ids (es ++ fs) ≡ excluded_ids es ++ excluded_ids fs
excluded_ids-append [] fs = refl
excluded_ids-append (e ∷ es) fs = ap (◌∷◌ e.replica_id) (excluded_ids-append es fs)

module _ (exclude : Option (List String)) (snapshot : List ReplicaState) where
  -- Every replica of the snapshot is either reported as excluded or in the pool, exactly once.
  pub excluded-pool-perm :
      Perm (ids snapshot) (excluded_ids (excluded exclude snapshot) ++ ids (pool exclude snapshot))
  excluded-pool-perm =
      let front = filter is_filtered snapshot in
      let cs = filter is_candidate snapshot in
      let tried = filter (is_tried exclude) cs in
      let reported : excluded_ids (excluded exclude snapshot) ≡ ids front ++ ids tried =
        excluded_ids-append (map filtered_entry front) (map tried_entry tried)
        ∙ rw
            (entry_ids filtered_entry front (λ r. refl), entry_ids tried_entry tried (λ r. refl)) in
      rw (reported, append_assoc)
        (Perm.trans (filter-perm is_filtered is_candidate snapshot (λ r. ground arith)) (
          Perm.append_left (ids front)
            (filter-perm (is_tried exclude) (λ r. not (is_tried exclude r)) cs (λ r. refl))))

  -- Why a replica was left out.
  abbrev pub Explains : ExclusionReason → ReplicaState → Type 0
  Explains drained r = r.admin ≡ Types.drained
  Explains unhealthy r = (r.admin ≡ Types.active) × (r.runtime.health ≢ Types.healthy)
  Explains already_tried r =
      (r.admin ≡ Types.active) × (r.runtime.health ≡ Types.healthy) × (is_tried exclude r ≡ true)

  abbrev pub IsExplained : ExcludedCandidate → Type 0
  IsExplained e = (r : ReplicaState) × Memᴰ r snapshot × (r.id ≡ e.replica_id) × Explains e.reason r

  filtered-Explains :
      (r : ReplicaState) → is_filtered r ≡ true → Explains (filtered_entry r).reason r
  filtered-Explains r h = elim (admin_cases r.admin) [
    | inl e ↦ rw e refl
    | inr e ↦ rw e (refl, ground arith)
  ]

  All-map :
      (f : ReplicaState → ExcludedCandidate) (rs : List ReplicaState)
      → ((r : ReplicaState) → Memᴰ r rs → IsExplained (f r))
      → All IsExplained (map f rs)
  All-map f [] h = tt
  All-map f (r ∷ rs) h = (h r (Memᴰ.head refl), All-map f rs (λ s m. h s (Memᴰ.tail m)))

  -- Each reported reason is true of the replica: a drained one says `drained`, whatever its health,
  -- an active one says `unhealthy` only if it is not healthy, and `already_tried` only if it is one of
  -- the ids that the caller excluded.
  pub excluded-IsExplained : All IsExplained (excluded exclude snapshot)
  excluded-IsExplained =
      let cs = filter is_candidate snapshot in
      All-append IsExplained (map filtered_entry (filter is_filtered snapshot)) _
        (All-map filtered_entry _ (λ r m.
          let (m', h) = filter-mem is_filtered snapshot m in (r, m', refl, filtered-Explains r h)))
        (All-map tried_entry _ (λ r m.
          let (m', h) = filter-mem (is_tried exclude) cs m in
          let (m'', k) = filter-mem is_candidate snapshot m' in
          (r, m'', refl, (ground arith, ground arith, h))))
