-- ===== src/Resolver.antt =====
-- The deterministic resolver of an execution mode, src/hermes_mcp_bridge/v2/resolver.py with the contract
-- of v2/resolver_contract.py.
pub mod Contract
pub mod Graph
pub mod Tree
pub mod Preference
mod Tests
