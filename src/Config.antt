-- ===== src/Config.antt =====
-- src/config.ts: the configuration that `main.ts` starts with. A field that is read as an integer may be
-- negative, so it is a ℤ. The environment and `Number()` are arguments: a variable is `none` when it is
-- unset or blank, and otherwise its text with the number that it is read as. Problems are kept as data in place of
-- their texts.
pub mod Laws
pub mod Ids
pub mod Load
use Prim.Native.Char.{code}
use whyrouted.Prelude.{
  ℕ, zero, suc, ◌+◌, ◌-◌, ltb, leb, ◌==◌, String, str_append, str_eq, decimal, Bool, true, false,
  not, ◌&&◌, ◌||◌, Option, none, some, List, [], ◌∷◌, ◌++◌, if◌then◌else◌, Result, ok, throw, ◌>>=◌,
}
use whyrouted.Types.{Replica}
use whyrouted.Routing.Weights.{
  Number, nan, infinity, minus_infinity, units, below, is_finite, is_negative, ScoringWeights,
  StrategyName, least_loaded,
}
use whyrouted.Routing.Config.{strategy_named}

pub data ℤ : Type 0 where
  pos negsuc : ℕ → ℤ

abbrev pub lt_int : ℤ → ℤ → Bool
lt_int (pos a) (pos b) = ltb a b
lt_int (pos a) (negsuc b) = false
lt_int (negsuc a) (pos b) = true
lt_int (negsuc a) (negsuc b) = ltb b a

abbrev pub eq_int : ℤ → ℤ → Bool
eq_int (pos a) (pos b) = a == b
eq_int (negsuc a) (negsuc b) = a == b
eq_int _ _ = false

abbrev pub plus : ℤ → ℕ → ℤ
plus (pos a) n = pos (a + n)
plus (negsuc a) n = if ltb a n then pos (n - suc a) else negsuc (a - n)

-- `Math.max(n, 1) - 1`
abbrev pub extra : ℤ → ℕ
extra (pos n) = n - 1
extra (negsuc n) = 0

pub record Config : Type 0 where
  pub host : String
  pub fleet_size : ℤ
  pub base_port : ℤ
  pub status_port : ℤ
  pub mcp_token : Option String
  pub mcp_port : ℤ
  pub health_interval_ms : ℤ
  pub health_timeout_ms : ℤ
  pub unhealthy_threshold : ℤ
  pub healthy_threshold : ℤ
  pub routing_strategy : StrategyName
  pub scoring_weights : ScoringWeights
  pub max_retries : ℤ

abbrev pub default_config : Config
default_config = record {
  host = "127.0.0.1";
  fleet_size = pos 4;
  base_port = pos 8001;
  status_port = pos 8080;
  mcp_token = none;
  mcp_port = pos 8090;
  health_interval_ms = pos 500;
  health_timeout_ms = pos 200;
  unhealthy_threshold = pos 3;
  healthy_threshold = pos 2;
  routing_strategy = least_loaded;
  scoring_weights = record { load_weight = units 1; latency_weight = units 1 };
  max_retries = pos 2;
}

pub data PortName : Type 0 where
  base_port status_port mcp_port : PortName

pub data Problem : Type 0 where
  fleet_size_low : Problem
  port_out_of_range : PortName → Problem
  top_port_high : ℤ → Problem
  port_in_fleet : PortName → Problem
  mcp_on_status : Problem
  token_short : Problem
  interval_low timeout_low timeout_not_below : Problem
  unhealthy_threshold_low healthy_threshold_low : Problem
  max_retries_negative : Problem
  load_weight_negative latency_weight_negative : Problem

-- `errors.push(problem)` under a condition.
abbrev pub problem_if : Bool → Problem → List Problem
problem_if true problem = problem ∷ []
problem_if false problem = []

-- `text.length`, in UTF-16 code units.
unfoldable pub utf16_length : String → ℕ
utf16_length String.[] = 0
utf16_length (String.◌∷◌ c s) = (if ltb (code c) 0x10000 then 1 else 2) + utf16_length s

abbrev pub is_short : Option String → Bool
is_short none = false
is_short (some token) = ltb (utf16_length token) 16

abbrev pub top_port : Config → ℤ
top_port c = plus c.base_port (extra c.fleet_size)

abbrev pub bad_port : ℤ → Bool
bad_port port = lt_int port (pos 1) || lt_int (pos 65535) port

abbrev pub in_fleet : Config → ℤ → Bool
in_fleet c port = not (lt_int port c.base_port) && not (lt_int (top_port c) port)

-- The conditions in the order in which they are tested, each with what is pushed when it holds.
abbrev pub checks : Config → List (Bool × Problem)
checks c =
    (lt_int c.fleet_size (pos 1), fleet_size_low)
    ∷ (bad_port c.base_port, port_out_of_range base_port)
    ∷ (bad_port c.status_port, port_out_of_range status_port)
    ∷ (bad_port c.mcp_port, port_out_of_range mcp_port)
    ∷ (lt_int (pos 65535) (top_port c), top_port_high (top_port c))
    ∷ (in_fleet c c.status_port, port_in_fleet status_port)
    ∷ (in_fleet c c.mcp_port, port_in_fleet mcp_port)
    ∷ (eq_int c.mcp_port c.status_port, mcp_on_status)
    ∷ (is_short c.mcp_token, token_short)
    ∷ (lt_int c.health_interval_ms (pos 1), interval_low)
    ∷ (lt_int c.health_timeout_ms (pos 1), timeout_low)
    ∷ (not (lt_int c.health_timeout_ms c.health_interval_ms), timeout_not_below)
    ∷ (lt_int c.unhealthy_threshold (pos 1), unhealthy_threshold_low)
    ∷ (lt_int c.healthy_threshold (pos 1), healthy_threshold_low)
    ∷ (lt_int c.max_retries (pos 0), max_retries_negative)
    ∷ (is_negative c.scoring_weights.load_weight, load_weight_negative)
    ∷ (is_negative c.scoring_weights.latency_weight, latency_weight_negative)
    ∷ []

unfoldable pub pushed : List (Bool × Problem) → List Problem
pushed [] = []
pushed ((b, problem) ∷ rest) = problem_if b problem ++ pushed rest

pub data LoadError : Type 0 where
  not_an_integer not_finite unknown_routing_strategy : String → LoadError
  invalid : List Problem → LoadError

abbrev pub valid_or_throw : Config → List Problem → Result LoadError Config
valid_or_throw c [] = ok c
valid_or_throw c (p ∷ ps) = throw (invalid (p ∷ ps))

unfoldable pub validate : Config → Result LoadError Config
validate c = valid_or_throw c (pushed (checks c))

-- A variable that is set and not blank: what `Number(raw)` gives, when that is an integer, and as a weight.
pub record Variable : Type 0 where
  pub trimmed : String
  pub as_integer : Option ℤ
  pub as_number : Number

abbrev pub Env : Type 0
Env = String → Option Variable

abbrev integer_or_throw : String → Option ℤ → Result LoadError ℤ
integer_or_throw name none = throw (not_an_integer name)
integer_or_throw name (some n) = ok n

abbrev read_integer : String → ℤ → Option Variable → Result LoadError ℤ
read_integer name fallback none = ok fallback
read_integer name fallback (some raw) = integer_or_throw name raw.as_integer

unfoldable pub read_int : Env → String → ℤ → Result LoadError ℤ
read_int env name fallback = read_integer name fallback (env name)

abbrev read_finite : String → Number → Option Variable → Result LoadError Number
read_finite name fallback none = ok fallback
read_finite name fallback (some raw) =
    if is_finite raw.as_number then ok raw.as_number else throw (not_finite name)

unfoldable pub read_number : Env → String → Number → Result LoadError Number
read_number env name fallback = read_finite name fallback (env name)

abbrev named_or_throw : String → Option StrategyName → Result LoadError StrategyName
named_or_throw name none = throw (unknown_routing_strategy name)
named_or_throw name (some s) = ok s

abbrev read_named : String → StrategyName → Option Variable → Result LoadError StrategyName
read_named name fallback none = ok fallback
read_named name fallback (some raw) = named_or_throw name (strategy_named raw.trimmed)

unfoldable pub read_strategy : Env → String → StrategyName → Result LoadError StrategyName
read_strategy env name fallback = read_named name fallback (env name)

abbrev text_or : String → Option Variable → String
text_or fallback none = fallback
text_or fallback (some raw) = raw.trimmed

abbrev token_of : Option Variable → Option String
token_of none = none
token_of (some raw) = some raw.trimmed

unfoldable pub load_config : Env → Result LoadError Config
load_config env = do
  fleet_size ← read_int env "WR_FLEET_SIZE" default_config.fleet_size
  base ← read_int env "WR_BASE_PORT" default_config.base_port
  status ← read_int env "WR_STATUS_PORT" default_config.status_port
  mcp ← read_int env "WR_MCP_PORT" default_config.mcp_port
  interval ← read_int env "WR_HEALTH_INTERVAL_MS" default_config.health_interval_ms
  health_timeout ← read_int env "WR_HEALTH_TIMEOUT_MS" default_config.health_timeout_ms
  failures ← read_int env "WR_UNHEALTHY_THRESHOLD" default_config.unhealthy_threshold
  successes ← read_int env "WR_HEALTHY_THRESHOLD" default_config.healthy_threshold
  strategy ← read_strategy env "WR_ROUTING_STRATEGY" default_config.routing_strategy
  retries ← read_int env "WR_MAX_RETRIES" default_config.max_retries
  load ← read_number env "WR_LOAD_WEIGHT" default_config.scoring_weights.load_weight
  latency ← read_number env "WR_LATENCY_WEIGHT" default_config.scoring_weights.latency_weight
  validate (record {
    host = text_or default_config.host (env "WR_HOST");
    fleet_size = fleet_size;
    base_port = base;
    status_port = status;
    mcp_token = token_of (env "WR_MCP_TOKEN");
    mcp_port = mcp;
    health_interval_ms = interval;
    health_timeout_ms = health_timeout;
    unhealthy_threshold = failures;
    healthy_threshold = successes;
    routing_strategy = strategy;
    scoring_weights = record { load_weight = load; latency_weight = latency };
    max_retries = retries;
  })

-- The replicas from index `i` on, `n` of them, with `b` as the first port.
unfoldable pub replicas_from : String → ℕ → ℕ → ℕ → List Replica
replicas_from host b zero i = []
replicas_from host b (suc n) i =
    record {
      id = str_append "replica-" (decimal (i + 1));
      url = str_append "http://" (str_append host (str_append ":" (decimal (b + i))));
    }
    ∷ replicas_from host b n (i + 1)

-- The value of an integer that is not negative; a valid config has such a size and base port.
abbrev pub natural : ℤ → ℕ
natural (pos n) = n
natural (negsuc n) = 0

unfoldable pub fleet_replicas : Config → List Replica
unfolding replicas_from
fleet_replicas c = replicas_from c.host (natural c.base_port) (natural c.fleet_size) 0
