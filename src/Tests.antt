-- ===== src/Tests.antt =====
-- Tests by evaluation, and the main theorems at concrete inputs.
pub mod Fixtures
pub mod Direct
mod RegistryTests
mod RoutingTests
mod HealthTests
mod RouteTests
mod LogTests
mod McpTests
mod ConfigTests
mod ExplainTests
mod HistoryTests
mod ToolSetTests
mod QuestionTests
mod MainTests
mod ServerTests
