-- ===== src/Dag.antt =====
-- The DAG runtime of src/hermes_mcp_bridge/v2: its vocabulary, its store of checkpoints and its engine.
pub mod Contract
pub mod Json
pub mod Body
pub mod Store
pub mod Order
pub mod Transform
pub mod Plan
pub mod Validate
pub mod Engine
