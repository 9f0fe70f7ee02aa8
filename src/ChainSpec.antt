-- ===== src/ChainSpec.antt =====
-- The chain specifications of node/src/chain_spec.rs and the choice among them in
-- node/src/command.rs. Key derivation and the wasm blob come from elsewhere and are arguments.
pub mod Genesis
pub mod Configs
pub mod Funding
pub mod Loading
mod Tests
