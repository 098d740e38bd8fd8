-- ===== src/Chat/Recovery.antt =====
-- The recoveries of src/capy_outcome_runtime/chat.py after an interruption.
pub mod Builds
pub mod Turns
pub mod Proposals
pub mod Opening
