-- ===== src/Main/Running.antt =====
-- Main/Running: the program from its start on, through any events.
use whyrouted.Prelude.{ap, ◌∙◌, ◌++◌, String, List, [], ok, ◌≡◌, subst, sym}
use whyrouted.Config.{Config, Env, load_config}
use whyrouted.Traffic.{Settings, Event, run, idle}
use whyrouted.Traffic.Accounts.{IsSound, Accounts}
use whyrouted.Traffic.Sound.{run-IsSound}
use whyrouted.Traffic.Log.{by_checks}
use whyrouted.Traffic.Failovers.{all_owed, run-by_checks}
use whyrouted.Main.{Program, start_up}
use whyrouted.Main.Startup.{IsInOrder, fleet_ids, start_up-IsInOrder}

abbrev pub settings_of : Program → Settings
settings_of p = record {
  thresholds = p.thresholds;
  log_options = p.log_options;
  max_retries = p.max_retries;
}

started-IsSound :
    {B : Type 0} (c : Config) (p : Program)
    → IsInOrder c p
    → IsSound {B = B} (settings_of p) (fleet_ids c) (idle p.world)
started-IsSound {B} c p o = record {
  watched = o.watched;
  waiting = tt;
  accounts = subst (λ ds. Accounts {B = B} p.max_retries ds []) (sym o.logs.1) tt;
}

-- Whatever the environment, a configuration that is loaded from it starts the program; and whatever comes
-- then, requests, answers of replicas, probe results, drains, and changes of the strategy and the
-- weights, in any order and with any number of requests in flight: the scheduler stays in step with
-- the registry and watches the whole fleet; no request's handler throws; the decisions recorded are,
-- one for one and in order, those of the requests that are over, and each explains the response, which
-- took at most `max_retries + 1` attempts; and each request in flight waits for a replica of the fleet that
-- it had not tried, after passes that each failed on another replica.
pub running-IsSound :
    {B : Type 0} (normalized : String → String) (env : Env) (c : Config) (es : List (Event B))
    → load_config env ≡ ok c
    → (p : Program) × (start_up normalized c ≡ ok p)
      × IsSound (settings_of p) (fleet_ids c) (run (settings_of p) (idle p.world) es)
running-IsSound normalized env c es e =
    let (p, started, o) = start_up-IsInOrder normalized env c e in
    (
      p,
      started,
      run-IsSound (settings_of p) (fleet_ids c) o.positive es (idle p.world)
          (started-IsSound c p o),
    )

-- Whatever the environment, a configuration that is loaded from it starts the program; and whatever comes
-- then, in any order: the entries of the failover log by health checks are, one for one and in order,
-- the ejections and recoveries that the probes have made, each probe going by the health of its
-- replica before and after it. A probe that changes nothing is not logged, and neither is the first
-- success of a new replica; and the ejections that requests make, which are logged for the request,
-- are not logged a second time as a health check.
pub running-by_checks :
    {B : Type 0} (normalized : String → String) (env : Env) (c : Config) (es : List (Event B))
    → load_config env ≡ ok c
    → (p : Program) × (start_up normalized c ≡ ok p)
      × (by_checks (run (settings_of p) (idle p.world) es).world.failovers
          ≡ all_owed (settings_of p) (idle p.world) es)
running-by_checks normalized env c es e =
    let (p, started, o) = start_up-IsInOrder normalized env c e in
    (
      p,
      started,
      run-by_checks (settings_of p) (fleet_ids c) o.positive es (idle p.world)
            (started-IsSound c p o)
          ∙ ap (λ log. by_checks log ++ all_owed (settings_of p) (idle p.world) es) o.logs.0,
    )
