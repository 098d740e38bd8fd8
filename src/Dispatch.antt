-- ===== src/Dispatch.antt =====
-- The durable provider lane of src/capy_outcome_runtime/semantic_dispatch.py: its rows, its
-- operations, the dispatcher's round, and what holds of them.
pub mod Types
pub mod Queue
pub mod Provider
pub mod Due
pub mod Accepted
pub mod Valid
pub mod Sweeps
pub mod Answers
pub mod Runs
pub mod Claims
pub mod Service
pub mod Idempotency
pub mod Backoff
pub mod Dispatcher
pub mod Rounds
mod Tests
