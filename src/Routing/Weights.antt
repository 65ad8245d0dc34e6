-- ===== src/Routing/Weights.antt =====
-- src/routing/types.ts, `ScoringWeights`. A weight is a JavaScript number: `NaN`, an infinity, or a
-- finite one, which is counted here in a fixed unit, as small as the weights in use need. In-flight
-- counts and latencies are whole numbers, so a score is a whole number of units too; the rounding of
-- floating-point sums is not modelled.
use whyrouted.Prelude.{ℕ, Bool, true, false}

-- `below n` is the negative number of `n + 1` units.
pub data Number : Type 0 where
  nan infinity minus_infinity : Number
  units below : ℕ → Number

abbrev pub is_finite : Number → Bool
is_finite (units n) = true
is_finite (below n) = true
is_finite _ = false

-- `value < 0`
abbrev pub is_negative : Number → Bool
is_negative (below n) = true
is_negative minus_infinity = true
is_negative _ = false

-- The value of a finite weight that is not negative; the config holder keeps no other.
abbrev pub value : Number → ℕ
value (units n) = n
value _ = 0

pub record ScoringWeights : Type 0 where
  pub load_weight : Number
  pub latency_weight : Number

pub data StrategyName : Type 0 where
  round_robin least_loaded latency_weighted : StrategyName
