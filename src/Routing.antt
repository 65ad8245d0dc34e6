-- ===== src/Routing.antt =====
-- src/routing: the strategies, the live config holder and the engine.
pub mod Weights
pub mod Score
pub mod Strategies
pub mod Config
pub mod Engine
