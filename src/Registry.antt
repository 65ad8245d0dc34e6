-- ===== src/Registry.antt =====
-- src/registry/registry.ts and src/registry/types.ts: the in-memory record of every replica. The
-- `Map` from ids to states is the list of the states in registration order, which is the order in
-- which a `Map` iterates; a state's key is its id. A call that throws gives the error it throws.
pub mod Laws
pub mod Runs
use whyrouted.Prelude.{
  ℕ, String, str_eq, Option, none, some, List, [], ◌∷◌, ◌++◌, Bool, true, false, if◌then◌else◌,
  Result, ok, throw, ◌>>=◌,
}
use whyrouted.Types.{
  ReplicaHealth, Replica, ReplicaRuntime, ReplicaAdmin, active, ReplicaState, RegistrySnapshot,
  initial_runtime,
}

-- `Partial<ReplicaRuntime>`: `none` is a field that the patch does not have.
pub record RuntimePatch : Type 0 where
  pub health : Option ReplicaHealth
  pub in_flight : Option ℕ
  pub latency_ms : Option (Option ℕ)
  pub consec_failures : Option ℕ
  pub consec_successes : Option ℕ
  pub last_checked_at : Option (Option String)

abbrev pub patched {ℓ} : {A : Type ℓ} → A → Option A → A
patched old none = old
patched old (some new) = new

-- `{ ...runtime, ...patch }`
abbrev pub merge : ReplicaRuntime → RuntimePatch → ReplicaRuntime
merge r p = record {
  health = patched r.health p.health;
  in_flight = patched r.in_flight p.in_flight;
  latency_ms = patched r.latency_ms p.latency_ms;
  consec_failures = patched r.consec_failures p.consec_failures;
  consec_successes = patched r.consec_successes p.consec_successes;
  last_checked_at = patched r.last_checked_at p.last_checked_at;
}

pub data RegistryError : Type 0 where
  already_registered not_registered : String → RegistryError

pub record Registry : Type 0 where
  pub replicas : List ReplicaState

abbrev pub empty : Registry
empty = record { replicas = [] }

-- `this.replicas.get(id)`
unfoldable pub find : String → List ReplicaState → Option ReplicaState
find id [] = none
find id (s ∷ ss) = if str_eq s.id id then some s else find id ss

-- A write through the reference that `get(id)` returns.
unfoldable pub modify :
    String → (ReplicaState → ReplicaState) → List ReplicaState → List ReplicaState
modify id f [] = []
modify id f (s ∷ ss) = if str_eq s.id id then f s ∷ ss else s ∷ modify id f ss

abbrev is_some {ℓ} : {A : Type ℓ} → Option A → Bool
is_some none = false
is_some (some a) = true

unfoldable pub has : Registry → String → Bool
has reg id = is_some (find id reg.replicas)

abbrev pub fresh_state : Replica → ReplicaState
fresh_state r = record { replica = r; runtime = initial_runtime; admin = active }

unfoldable pub register : Registry → Replica → Result RegistryError Registry
unfolding has
register reg r =
    if has reg r.id
    then throw (already_registered r.id)
    else ok (record { replicas = reg.replicas ++ fresh_state r ∷ [] })

abbrev pub or_throw {ℓ} : {A : Type ℓ} → Option A → RegistryError → Result RegistryError A
or_throw none e = throw e
or_throw (some a) e = ok a

unfoldable pub require : Registry → String → Result RegistryError ReplicaState
require reg id = or_throw (find id reg.replicas) (not_registered id)

abbrev pub with_runtime : (ReplicaRuntime → ReplicaRuntime) → ReplicaState → ReplicaState
with_runtime f s = record s { runtime = f s.runtime }

abbrev pub with_admin : ReplicaAdmin → ReplicaState → ReplicaState
with_admin a s = record s { admin = a }

abbrev pub with_health : ReplicaHealth → ReplicaRuntime → ReplicaRuntime
with_health h r = record r { health = h }

abbrev pub apply_to : Registry → String → (ReplicaState → ReplicaState) → Registry
apply_to reg id f = record { replicas = modify id f reg.replicas }

unfoldable pub update_runtime : Registry → String → RuntimePatch → Result RegistryError Registry
unfolding require
update_runtime reg id patch = do
  state ← require reg id
  ok (apply_to reg id (with_runtime (λ r. merge r patch)))

unfoldable pub set_health : Registry → String → ReplicaHealth → Result RegistryError Registry
unfolding require
set_health reg id health = do
  state ← require reg id
  ok (apply_to reg id (with_runtime (with_health health)))

unfoldable pub set_admin : Registry → String → ReplicaAdmin → Result RegistryError Registry
unfolding require
set_admin reg id admin = do state ← require reg id; ok (apply_to reg id (with_admin admin))

-- The clock is an argument. The copies that a snapshot makes are values here.
unfoldable pub get_snapshot : Registry → String → RegistrySnapshot
get_snapshot reg now = record { generated_at = now; replicas = reg.replicas }
