-- ===== src/Tests/RegistryTests.antt =====
-- The registry.
use whyrouted.Prelude.{none, some, List, [], ◌∷◌, ◌≡◌, refl, throw}
use whyrouted.Types.{healthy, drained}
use whyrouted.Registry.{
  RuntimePatch, already_registered, not_registered, find, has, register, set_admin,
}
use whyrouted.Registry.Runs.{
  Call, registers, updates, sets_health, sets_admin, run, run-intents, intents,
}
use whyrouted.Tests.Fixtures.{replica_at, fleet_registry}

abbrev load_patch : RuntimePatch
load_patch = record {
  health = none;
  in_flight = some 9;
  latency_ms = some none;
  consec_failures = none;
  consec_successes = none;
  last_checked_at = none;
}

register_twice :
    register fleet_registry (replica_at "replica-2") ≡ throw (already_registered "replica-2")
unfolding register has find
register_twice = refl

drain_unknown : set_admin fleet_registry "replica-9" drained ≡ throw (not_registered "replica-9")
unfolding set_admin find
drain_unknown = refl

abbrev history : List Call
history =
    registers (replica_at "replica-4")
    ∷ registers (replica_at "replica-1")
    ∷ sets_admin "replica-1" drained
    ∷ updates "replica-2" load_patch
    ∷ []

abbrev sink_calls : List Call
sink_calls = updates "replica-3" load_patch ∷ sets_health "replica-3" healthy ∷ []

run-intents_example : intents (run fleet_registry sink_calls) ≡ intents fleet_registry
run-intents_example = run-intents fleet_registry sink_calls (tt, (tt, tt))
