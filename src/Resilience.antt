-- ===== src/Resilience.antt =====
-- The resilience package: src/hermes_mcp_bridge/resilience/.
pub mod Circuit
pub mod Events
