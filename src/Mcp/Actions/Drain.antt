-- ===== src/Mcp/Actions/Drain.antt =====
-- Mcp/Actions/Drain: a drain and the parts it meets, the health scheduler and the routing engine.
use whyrouted.Prelude.{
  String, str_eq, str_eq_iff, Option, none, some, List, [], ◌∷◌, ◌≡◌, ◌≢◌, refl, sym, subst, arith,
  inl, inr, ok, All, Memᴰ, Bool-cases, map,
}
use whyrouted.Types.{ReplicaAdmin, drained, ReplicaState}
use whyrouted.Registry.{Registry, find, modify, set_admin, with_admin, apply_to}
use whyrouted.Registry.Laws.{IsValid, Distinct}
use whyrouted.Registry.Runs.{Call, run, IsSinkCall, intents, run-intents}
use whyrouted.Routing.Config.{RoutingConfig}
use whyrouted.Routing.Strategies.Dispatch.{RoutingStrategy}
use whyrouted.Routing.Engine.{Capture, picked, route}
use whyrouted.Routing.Engine.Laws.{route-picks}
use whyrouted.Mcp.Actions.{Handled, drain_replica}
use whyrouted.Mcp.Actions.Laws.{set_replica_admin_lem}

-- Every state of the id is drained.
abbrev OnlyDrained : String → List (String × ReplicaAdmin) → Type 0
OnlyDrained id = All (λ p. p.0 ≡ id → p.1 ≡ drained)

abbrev intents_of : List ReplicaState → List (String × ReplicaAdmin)
intents_of = map (λ s. (s.id, s.admin))

none-OnlyDrained :
    (id : String) (ss : List ReplicaState) → find id ss ≡ none → OnlyDrained id (intents_of ss)
unfolding find
none-OnlyDrained id [] h = tt
none-OnlyDrained id (s ∷ ss) h = (
  λ e. ground (arith, str_eq_iff s.id id),
  none-OnlyDrained id ss (ground (arith, str_eq_iff s.id id)),
)

modify-OnlyDrained :
    (id : String) (ss : List ReplicaState)
    → Distinct ss
    → OnlyDrained id (intents_of (modify id (with_admin drained) ss))
unfolding modify
modify-OnlyDrained id [] d = tt
modify-OnlyDrained id (s ∷ ss) d = elim (Bool-cases (str_eq s.id id)) [
  | inl e ↦ rw e (
    λ _. refl,
    none-OnlyDrained id ss (subst (λ i. find i ss ≡ none) ((str_eq_iff s.id id).0 e) d.0),
  )
  | inr e ↦ rw e ((λ q. ground (arith, str_eq_iff s.id id)), modify-OnlyDrained id ss d.1)
]

mem-OnlyDrained :
    (id : String) (ss : List ReplicaState) (r : ReplicaState)
    → OnlyDrained id (intents_of ss)
    → Memᴰ r ss
    → r.id ≡ id
    → r.admin ≡ drained
mem-OnlyDrained id [] r h m e = elim m [ ]
mem-OnlyDrained id (s ∷ ss) r h (Memᴰ.head q) e = ground (arith, h.0)
mem-OnlyDrained id (s ∷ ss) r h (Memᴰ.tail m) e = mem-OnlyDrained id ss r h.1 m e

module _ (store : Registry) (id : String) (valid : IsValid store) where
  written :
      (r : ReplicaState) (next : Registry)
      → find id store.replicas ≡ some r
      → set_admin store id drained ≡ ok next
      → apply_to store id (with_admin drained) ≡ next
  unfolding set_admin
  written r next e w = ground (arith, e, w)

  drain-OnlyDrained : OnlyDrained id (intents (drain_replica store id).1)
  unfolding drain_replica
  drain-OnlyDrained = elim (set_replica_admin_lem store id drained) [
    | inl (e, q) ↦
        subst (λ (o : Handled _ Registry). OnlyDrained id (intents o.1)) (sym q)
          (none-OnlyDrained id store.replicas e)
    | inr (r, next, e, w, q) ↦
        subst (λ (o : Handled _ Registry). OnlyDrained id (intents o.1)) (sym q)
          (subst (λ (x : Registry). OnlyDrained id (intents x)) (written r next e w)
            (modify-OnlyDrained id store.replicas valid))
  ]

  -- In a registry that has each id at most once, after `drain_replica` no round picks the replica,
  -- whatever the strategy, the weights and the ids excluded, and whatever the health scheduler has
  -- written since.
  pub drained-stays_out :
      (cs : List Call)
      → All IsSinkCall cs
      → (held : Option RoutingStrategy) (config : RoutingConfig) (exclude : Option (List String))
      → (capture : Capture)
      → (route held config (run (drain_replica store id).1 cs).replicas exclude).0
        ≢ picked id capture
  drained-stays_out cs sink held config exclude capture h =
      let now = run (drain_replica store id).1 cs in
      let (e, _) = route-picks exclude now.replicas held config id capture h in
      let only : OnlyDrained id (intents now) =
        subst (OnlyDrained id) (sym (run-intents (drain_replica store id).1 cs sink))
          drain-OnlyDrained in
      let is_drained = mem-OnlyDrained id now.replicas e.replica only e.listed e.same_id in
      ground (arith, e.is_active, is_drained)
