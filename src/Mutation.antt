-- ===== src/Mutation.antt =====
-- The governed GitHub writes of src/hermes_mcp_bridge/v2/: the digests and their grammar
-- (mutation_digest.py), its approvals, and the idempotency store (mutation_idempotency.py).
pub mod Kinds
pub mod Grammar
pub mod Records
pub mod Idempotency
pub mod Approvals
