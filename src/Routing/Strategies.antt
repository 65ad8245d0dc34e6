-- ===== src/Routing/Strategies.antt =====
-- src/routing/strategies: the three strategies and their registry. A strategy instance is its state;
-- only round-robin has one, its cursor.
pub mod Ranking
pub mod LeastLoaded
pub mod LatencyWeighted
pub mod RoundRobin
pub mod Dispatch
