-- ===== src/Main.antt =====
-- src/main.ts and src/replica/launch.ts: how the parts are built from the configuration. What `main` awaits
-- and the printing are left out; a server that listens and a child process are not values of the program.
pub mod Startup
pub mod Launch
pub mod Running
pub mod Reach
use whyrouted.Prelude.{
  ℕ, ◌+◌, String, Option, none, some, List, [], ◌∷◌, map, Result, ok, throw, ◌>>=◌,
}
use whyrouted.Types.{Replica}
use whyrouted.Registry.{Registry, RegistryError, register, empty}
use whyrouted.Routing.Config.{RoutingConfig, ConfigError, create_routing_config, name_text}
use whyrouted.Health.Scheduler.{Thresholds, init}
use whyrouted.Adapter.{HttpReplicaAdapter, create_adapter}
use whyrouted.Events.{FailoverLogOptions}
use whyrouted.Config.{Config, natural, fleet_replicas}
use whyrouted.Api.Route.{World}
use whyrouted.Mcp.ToolSet.{McpTools, create_mcp_tools}
use whyrouted.Replica.{SyntheticProfile, profile_for_index}

pub data StartError : Type 0 where
  not_registered_all : RegistryError → StartError
  no_routing_config : ConfigError → StartError

abbrev registered : Result RegistryError Registry → Result StartError Registry
registered (ok registry) = ok registry
registered (throw e) = throw (not_registered_all e)

-- The loop `for (const replica of replicas) registry.register(replica)`.
unfoldable pub register_all : Registry → List Replica → Result StartError Registry
register_all reg [] = ok reg
register_all reg (r ∷ rs) = do next ← registered (register reg r); register_all next rs

-- What one child process is started with.
pub record Spawn : Type 0 where
  pub id : String
  pub port : ℕ
  pub host : String
  pub profile : SyntheticProfile

-- The calls of the spawner, from index `i` on.
unfoldable pub spawns_from : Config → ℕ → List Replica → List Spawn
spawns_from c i [] = []
spawns_from c i (r ∷ rs) =
    record {
      id = r.id;
      port = natural c.base_port + i;
      host = c.host;
      profile = profile_for_index i;
    }
    ∷ spawns_from c (i + 1) rs

unfoldable pub launch_fleet : Config → List Spawn
launch_fleet c = spawns_from c 0 (fleet_replicas c)

abbrev pub thresholds : Config → Thresholds
thresholds c = record {
  unhealthy_threshold = natural c.unhealthy_threshold;
  healthy_threshold = natural c.healthy_threshold;
}

abbrev pub log_options : Config → FailoverLogOptions
log_options c = record {
  unhealthy_threshold = natural c.unhealthy_threshold;
  healthy_threshold = natural c.healthy_threshold;
}

-- What `main` has built when the servers start.
pub record Program : Type 0 where
  pub world : World
  pub adapter : HttpReplicaAdapter
  pub tools : McpTools
  pub thresholds : Thresholds
  pub log_options : FailoverLogOptions
  pub max_retries : ℕ

abbrev pub replica_id : Replica → String
replica_id r = r.id

abbrev pub new_world : Config → Registry → RoutingConfig → World
new_world c registry routing = record {
  scheduler = init (map replica_id (fleet_replicas c)) registry;
  held = none;
  config = routing;
  failovers = [];
  decisions = [];
}

-- `normalized` is `trim` followed by `toLowerCase` of the host.
module _ (normalized : String → String) where
  abbrev pub program_of : Config → Registry → RoutingConfig → Program
  program_of c registry routing = record {
    world = new_world c registry routing;
    adapter = create_adapter (fleet_replicas c) (natural c.health_timeout_ms) none;
    tools = create_mcp_tools normalized c.host c.mcp_token;
    thresholds = thresholds c;
    log_options = log_options c;
    max_retries = natural c.max_retries;
  }

  abbrev pub with_routing :
      Config → Registry → Result ConfigError RoutingConfig → Result StartError Program
  with_routing c registry (throw e) = throw (no_routing_config e)
  with_routing c registry (ok routing) = ok (program_of c registry routing)

  abbrev pub with_registry : Config → Result StartError Registry → Result StartError Program
  with_registry c (throw e) = throw e
  with_registry c (ok registry) =
      with_routing c registry
        (create_routing_config (name_text c.routing_strategy) c.scoring_weights)

  unfoldable pub start_up : Config → Result StartError Program
  start_up c = with_registry c (register_all empty (fleet_replicas c))
