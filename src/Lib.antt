-- ===== src/Lib.antt =====
-- whyrouted: a router in front of a fleet of model replicas. The parts under src/ of the repository and
-- the files that model them:
--   * src/types.ts (Types): what a replica is, with its health, its live stats and operator intent.
--   * src/registry/registry.ts (Registry, its laws and runs in Registry/): the record of every replica.
--     Its Map is a list of states in registration order.
--   * src/routing/ (Routing): the config holder, the three strategies and the engine. `route` of
--     Routing/Engine takes the strategy instance that the engine holds and gives the one it leaves.
--   * src/health/scheduler.ts (Health/Scheduler): the hysteresis of each replica; `eject` and `poll_one`
--     write to the registry, which is the scheduler's `sink`, and report transitions. Health/Scheduler/Sweep
--     is its timer.
--   * src/adapter/ (Adapter): probes and requests over `fetch`, whose outcome is an argument.
--   * src/events/ (Events) and src/decisions/ (Decisions): the two logs; Timeline holds the query that
--     they share.
--   * src/api/server.ts (Api): `handleRoute` (Api/Route), the retry loop of one request, over the engine, the
--     scheduler and the two logs. Its state is a `World`; at its one `await` the rest of the program may
--     change the world in any way, which is a parameter (`Turn`). `createStatusApp` is Api/App.
--   * src/mcp/ (Mcp): the wrapper and the five actions (Mcp/Action, Mcp/Actions, Mcp/Faults), the wrapper
--     of the tools that read (Mcp/Dispatch), time ranges (Mcp/TimeRange, its regular expressions in
--     Mcp/Patterns) and the tools over them, query_decisions (Mcp/Questions, its aggregate in
--     Mcp/Aggregate) and the failover history (Mcp/History), the explanation of a decision (Mcp/Explain),
--     whose cited paths are data, the bearer token (Mcp/Auth), which tools there are (Mcp/ToolSet), and
--     the server (Mcp/Server).
--   * src/config.ts (Config): reading and checking the environment.
--   * src/main.ts and src/replica/launch.ts (Main): what is started, and what the parts are built with.
--   * Traffic: the program from then on. Between two awaits JavaScript runs without interruption, so the
--     pieces of `handleRoute` before and after its await, a probe and an operator's write are the steps.
--   * src/replica/ (Replica): the simulated replica, its profiles and the injector of faults.
--   * Http: Express as the two servers use it, a parameter with its documented behaviour.
--   * Regex: a matcher for the regular expressions of src/mcp/.
--   * Prelude: shared types, tests, lists, texts (compared by UTF-16 code units) and a stable sort.
--   * Tests: runs at concrete inputs.
--
-- Errors that the code throws are values. Clock readings and generated ids are arguments. In-flight
-- counts and latencies are natural numbers; a weight is NaN, an infinity or a number of fixed units, so
-- scores are exact, and the rounding of floating-point sums is not modelled. The loops with fuel are
-- that of `handle_route`, with one pass more than the retries allowed, and that of
-- `wait_until_reachable`, with a probe for each 50 ms of its timeout and two more; both are shown to
-- be enough. A regular expression repeats no more often than the text has characters.
--
-- Not modelled: src/registry/redis.ts (a stub); binding and closing ports, child processes, signal
-- handlers and printing, which are I/O; Express, the SDK of MCP, `fetch`, JSON and dates, which are
-- parameters; and the random latencies of the simulated replica.
pub mod Prelude
pub mod Regex
pub mod Http
pub mod Types
pub mod Registry
pub mod Routing
pub mod Health
pub mod Timeline
pub mod Adapter
pub mod Config
pub mod Events
pub mod Decisions
pub mod Api
pub mod Replica
pub mod Mcp
pub mod Traffic
pub mod Main
pub mod Tests
