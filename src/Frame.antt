-- ===== src/Frame.antt =====
-- What the pallets take from FRAME, which is not part of the repository: storage maps and the
-- origin check as records of operations and laws, and a dispatchable call as a state
-- transition that keeps its writes when it fails.
pub mod Ledgers
mod Storage
pub mod Calls
pub use Ledgers.*
pub use Storage.*
pub use Calls.*
