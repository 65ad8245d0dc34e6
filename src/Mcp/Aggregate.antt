-- ===== src/Mcp/Aggregate.antt =====
-- src/mcp/tools/query-decisions.ts, the aggregate: counts and nearest-rank percentiles over decisions. The
-- program asks for three percentiles, and for those the double `(p / 100) * n` has the ceiling of the exact
-- product: it is the integer where that is one, since the error of p / 100 is below half of the last
-- place, and otherwise that is at least 1/100 away from one, for any log that fits in memory. The counts
-- by replica are an association list: the ids are those of the fleet, `replica-` with a number, which no
-- object inherits.
pub mod Percentile
pub mod Laws
use whyrouted.Prelude.{
  ℕ, zero, suc, ◌+◌, ◌-◌, ◌*◌, ◌/◌, ltb, leb, String, str_eq, Bool, true, false, Option, none, some,
  List, [], ◌∷◌, ◌++◌, length, get_elem?, sort, if◌then◌else◌,
}
use whyrouted.Health.Scheduler.{get, put}
use whyrouted.Decisions.{Decision}

pub record LatencySummary : Type 0 where
  pub sample_size : ℕ
  pub p50_ms : Option ℕ
  pub p95_ms : Option ℕ
  pub p99_ms : Option ℕ

pub record AggregateData : Type 0 where
  pub from : String
  pub to : String
  pub total : ℕ
  pub served : ℕ
  pub failed : ℕ
  pub served_by_replica : List (String × ℕ)
  pub latency : Option LatencySummary

-- The percentiles that `aggregate` asks for, which is all that `nearestRank` is called with.
pub data Asked : Type 0 where
  p50 p95 p99 : Asked

abbrev pub percent : Asked → ℕ
percent p50 = 50
percent p95 = 95
percent p99 = 99

-- `Math.max(1, Math.ceil((p / 100) * n))`
abbrev pub rank : Asked → ℕ → ℕ
rank p n = let k = (percent p * n + 99) / 100 in if ltb k 1 then 1 else k

unfoldable pub nearest_rank : List ℕ → Asked → Option ℕ
nearest_rank sorted p = get_elem? sorted (rank p (length sorted) - 1)

-- What the loop has counted so far.
pub record Counted : Type 0 where
  pub served : ℕ
  pub served_by_replica : List (String × ℕ)
  pub latencies : List ℕ

abbrev pub or_zero : Option ℕ → ℕ
or_zero none = 0
or_zero (some n) = n

abbrev pub count_served : Option String → Counted → Counted
count_served none t = t
count_served (some id) t = record t {
  served = t.served + 1;
  served_by_replica = put id (or_zero (get id t.served_by_replica) + 1) t.served_by_replica;
}

abbrev pub count_latency : Option ℕ → Counted → Counted
count_latency none t = t
count_latency (some ms) t = record t { latencies = t.latencies ++ ms ∷ [] }

unfoldable pub count_all : List Decision → Counted → Counted
count_all [] t = t
count_all (d ∷ ds) t =
    count_all ds (count_latency d.latency_ms (count_served d.chosen_replica_id t))

abbrev pub summary_of : List ℕ → Option LatencySummary
summary_of [] = none
summary_of (x ∷ xs) = some (record {
  sample_size = length (x ∷ xs);
  p50_ms = nearest_rank (x ∷ xs) p50;
  p95_ms = nearest_rank (x ∷ xs) p95;
  p99_ms = nearest_rank (x ∷ xs) p99;
})

unfoldable pub aggregate : List Decision → String → String → AggregateData
aggregate decisions from to =
    let t = count_all decisions (record { served = 0; served_by_replica = []; latencies = [] }) in
    record {
      from = from;
      to = to;
      total = length decisions;
      served = t.served;
      failed = length decisions - t.served;
      served_by_replica = t.served_by_replica;
      latency = summary_of (sort ltb t.latencies);
    }
