-- ===== src/Health/Scheduler/Writes.antt =====
-- Health/Scheduler/Writes: the writes of a step to the hysteresis and the registry, in a row.
use whyrouted.Prelude.{
  String, str_eq, str_eq_iff, str_eq_refl, Bool, true, false, none, some, List, [], ◌∷◌, ◌++◌,
  if◌then◌else◌, ok, Result, ◌≡◌, refl, sym, ap, ◌∙◌, arith, inl, inr, append-nil,
}
use mathlib.Core.Option
use whyrouted.Types.{ReplicaHealth, healthy, ReplicaState, active}
use whyrouted.Registry.{
  Registry, RegistryError, RuntimePatch, find, with_runtime, with_health, merge,
}
use whyrouted.Registry.Laws.{Updates, update-Updates}
use whyrouted.Health.Scheduler.{
  Hysteresis, HealthTransition, Scheduler, Outcome, done, ◌>>=◌, get, put, lifted, emit,
  write_runtime, write_health, store, counters_patch, transition,
}

pub get-put :
    {A : Type 0} (id j : String) (a : A) (m : List (String × A))
    → get j (put id a m) ≡ (if str_eq id j then some a else get j m)
unfolding get put
get-put id j a [] = refl
get-put id j a ((k, b) ∷ m) =
    ground (arith, str_eq_iff k id, str_eq_iff k j, str_eq_iff id j, get-put id j a m)

abbrev pub Rewrites : String → (ReplicaState → ReplicaState) → Registry → Registry → Type 0
Rewrites id f old new =
    (j : String)
    → find j new.replicas
      ≡ (if str_eq id j then Option.map f (find j old.replicas) else find j old.replicas)

Updates-found :
    (reg : Registry) (id : String) (f : ReplicaState → ReplicaState) (r : ReplicaState)
    (res : Result RegistryError Registry)
    → find id reg.replicas ≡ some r
    → Updates reg id f res
    → (next : Registry) × (res ≡ ok next) × Rewrites id f reg next
Updates-found reg id f r res h (inl (e, _)) = cc
Updates-found reg id f r res h (inr (next, e, _, law)) = (next, e, law)

module _ {R : Type 0} (s : Scheduler R) (id : String) (r : ReplicaState)
    (found : find id s.sink.replicas ≡ some r) where
  write_runtime_lem :
      (p : RuntimePatch)
      → (next : Registry) × (write_runtime id p s ≡ done (record s { sink = next }))
        × Rewrites id (with_runtime (λ x. merge x p)) s.sink next
  unfolding write_runtime
  write_runtime_lem p =
      let (next, e, law) =
        Updates-found s.sink id _ r _ found (update-Updates s.sink id p healthy active).0 in
      (next, ap (lifted s) e, law)

  write_health_lem :
      (to : ReplicaHealth)
      → (next : Registry) × (write_health id to s ≡ done (record s { sink = next }))
        × Rewrites id (with_runtime (with_health to)) s.sink next
  unfolding write_health
  write_health_lem to =
      let (next, e, law) =
        Updates-found s.sink id _ r _ found
          (update-Updates s.sink id (counters_patch 0 0) to active).1 in
      (next, ap (lifted s) e, law)

-- Two writes to one replica in a row.
Rewrites-trans :
    (id : String) (f g : ReplicaState → ReplicaState) (a b c : Registry)
    → Rewrites id f a b
    → Rewrites id g b c
    → Rewrites id (λ x. g (f x)) a c
Rewrites-trans id f g a b c p q j = ground (arith, p j, q j)

rewritten :
    (id : String) (f : ReplicaState → ReplicaState) (a b : Registry) (r : ReplicaState)
    → find id a.replicas ≡ some r
    → Rewrites id f a b
    → find id b.replicas ≡ some (f r)
rewritten id f a b r found law = ground (arith, law id, str_eq_refl id)

-- Two functions that agree on the replica's entry may be exchanged.
pub Rewrites-agree :
    (id : String) (f g : ReplicaState → ReplicaState) (a b : Registry) (r : ReplicaState)
    → find id a.replicas ≡ some r
    → f r ≡ g r
    → Rewrites id f a b
    → Rewrites id g a b
Rewrites-agree id f g a b r found same p j = ground (arith, p j, str_eq_iff id j)

module _ {R : Type 0} (id : String) (at : String) (s : Scheduler R) (r : ReplicaState)
    (found : find id s.sink.replicas ≡ some r) where
  -- The write of the counters, then a transition if `move` says so.
  pub finish :
      (h : Hysteresis) (p : RuntimePatch) (to : ReplicaHealth) (move : Bool)
      → (t : Scheduler R) × ((write_runtime id p (store id h s) >>= λ s'.
            if move then transition id h to at s' else done s')
          ≡ done t)
        × ((j : String)
            → get j t.hysteresis ≡ (
                if str_eq id j
                then some (record h { health = if move then to else h.health })
                else get j s.hysteresis))
        × Rewrites id
            (with_runtime (λ x. if move then with_health to (merge x p) else merge x p))
            s.sink
            t.sink
        × (t.transitions
            ≡ s.transitions
              ++ (if move
                  then record { replica_id = id; from = h.health; to = to; at = at; reason = none }
                    ∷ []
                  else []))
  finish h p to false =
      let (next, e, law) = write_runtime_lem (store id h s) id r found p in
      (
        record s { hysteresis = put id h s.hysteresis; sink = next },
        ap (λ (o : Outcome (Scheduler R)). o >>= λ s'. done s') e,
        λ j. get-put id j h s.hysteresis,
        law,
        sym (append-nil s.transitions),
      )
  finish h p to true =
      let (next, e, law) = write_runtime_lem (store id h s) id r found p in
      let h' : Hysteresis = record h { health = to } in
      let s' : Scheduler R = record s { hysteresis = put id h s.hysteresis; sink = next } in
      let r' : ReplicaState = with_runtime (λ x. merge x p) r in
      let found' : find id next.replicas ≡ some r' = rewritten id _ s.sink next r found law in
      let (last, e', law') = write_health_lem (store id h' s') id r' found' to in
      (
        record s {
          hysteresis = put id h' (put id h s.hysteresis);
          sink = last;
          transitions =
              s.transitions
              ++ record { replica_id = id; from = h.health; to = to; at = at; reason = none } ∷ [];
        },
        ap (λ (o : Outcome (Scheduler R)). o >>= transition id h to at) e
            ∙ unfold transition in
              (ap
                (λ (o : Outcome (Scheduler R)).
                  o
                  >>= emit (record {
                    replica_id = id;
                    from = h.health;
                    to = to;
                    at = at;
                    reason = none;
                  }))
                e'),
        λ j. ground (arith, get-put id j h s.hysteresis, get-put id j h' (put id h s.hysteresis)),
        Rewrites-trans id _ _ s.sink next last law law',
        refl,
      )

-- The writes of an ejection.
pub settle :
    {R : Type 0} (id : String) (s : Scheduler R) (r : ReplicaState)
    → find id s.sink.replicas ≡ some r
    → (h : Hysteresis) (p : RuntimePatch) (to : ReplicaHealth) (tr : HealthTransition R)
    → (t : Scheduler R) × ((write_runtime id p (store id h s) >>= write_health id to >>= emit tr)
        ≡ done t)
      × ((j : String) → get j t.hysteresis ≡ (if str_eq id j then some h else get j s.hysteresis))
      × Rewrites id (with_runtime (λ x. with_health to (merge x p))) s.sink t.sink
      × (t.transitions ≡ s.transitions ++ tr ∷ [])
settle {R} id s r found h p to tr =
    let (next, e, law) = write_runtime_lem (store id h s) id r found p in
    let s' : Scheduler R = record s { hysteresis = put id h s.hysteresis; sink = next } in
    let r' : ReplicaState = with_runtime (λ x. merge x p) r in
    let found' : find id next.replicas ≡ some r' = rewritten id _ s.sink next r found law in
    let (last, e', law') = write_health_lem s' id r' found' to in
    (
      record s {
        hysteresis = put id h s.hysteresis;
        sink = last;
        transitions = s.transitions ++ tr ∷ [];
      },
      ap (λ (o : Outcome (Scheduler R)). o >>= write_health id to >>= emit tr) e
          ∙ ap (λ (o : Outcome (Scheduler R)). o >>= emit tr) e',
      λ j. get-put id j h s.hysteresis,
      Rewrites-trans id _ _ s.sink next last law law',
      refl,
    )
