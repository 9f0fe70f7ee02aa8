-- ===== src/Runtime.antt =====
-- The parts of the runtime that compute something: runtime/src/lib.rs and runtime/src/weights.
pub mod Votes
pub mod Transactions
pub mod Weights
pub mod Apis
mod Tests
