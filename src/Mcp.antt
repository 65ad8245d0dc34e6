-- ===== src/Mcp.antt =====
-- src/mcp/: the tools that operators and agents call.
pub mod Action
pub mod Actions
pub mod Faults
pub mod Dispatch
pub mod Auth
pub mod Explain
pub mod Patterns
pub mod TimeRange
pub mod History
pub mod ToolSet
pub mod Server
pub mod Aggregate
pub mod Questions
