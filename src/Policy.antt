-- ===== src/Policy.antt =====
-- The policy of version 2: the registries of capabilities and tools, the rules, and the engine that decides
-- what a tool may do, of src/hermes_mcp_bridge/v2.
pub mod Kinds
pub mod Registry
pub mod Engine
mod Tests
