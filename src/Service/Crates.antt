-- ===== src/Service/Crates.antt =====
-- What node/src/service.rs and node/src/command.rs take of other crates: types, and functions that only
-- make a value from others.
use e2_chain.Base.{ℕ, String, Bool, Option}
use e2_chain.Service.Rpc.{RpcKit}

-- What the service takes of other crates. A client, a backend and so on is that of a full node or of a
-- light one.
pub record Kit : Type 1 where
  pub Role : Type 0
  pub is_light : Role → Bool
  pub is_authority : Role → Bool
  pub is_network_authority : Role → Bool
  -- the subcommands of `sc_cli`, and whether the runner asks for the node's parts to run one
  pub Subcommand : Type 0
  pub needs_parts : Subcommand → Bool
  pub ServiceError : Type 0
  pub rpc : RpcKit
  pub open rpc use {Client, Pool, DenyUnsafe, IoHandler}
  pub PoolOptions : Type 0
  pub Registry : Type 0
  pub Backend : Type 0
  pub Keystore : Type 0
  pub TaskManager : Type 0
  pub SpawnHandle : Type 0
  pub OnDemand : Type 0
  pub Checker : Type 0
  pub RemoteBlockchain : Type 0
  pub Executor : Type 0
  pub SelectChain : Type 0
  pub InherentDataProviders : Type 0
  pub GrandpaBlockImport : Type 0
  pub LinkHalf : Type 0
  pub ProofRequestBuilder : Type 0
  pub BabeConfig : Type 0
  pub BabeBlockImport : Type 0
  pub BabeLink : Type 0
  pub ImportQueue : Type 0
  pub ProofProvider : Type 0
  pub Network : Type 0
  pub StatusSinks : Type 0
  pub SystemRpcTx : Type 0
  pub NetworkStarter : Type 0
  pub ProposerFactory : Type 0
  pub BabeWorker : Type 0
  pub GrandpaVoter : Type 0
  pub inherent_data_providers : InherentDataProviders
  pub spawn_handle : TaskManager → SpawnHandle
  pub longest_chain : Backend → SelectChain
  pub full_pool : PoolOptions → Option Registry → SpawnHandle → Client → Pool
  pub light_pool : PoolOptions → Option Registry → SpawnHandle → Client → OnDemand → Pool
  pub executor : Client → Executor
  pub checker : OnDemand → Checker
  pub proof_request_builder : GrandpaBlockImport → ProofRequestBuilder
  pub proof_provider : Backend → Client → ProofProvider
  pub remote_blockchain : Backend → RemoteBlockchain
  pub proposer_factory : Client → Pool → Option Registry → ProposerFactory

-- the fields of `Configuration` that the service reads
pub record Configuration (K : Kit) : Type 0 where
  pub role : K.Role
  pub offchain_worker_enabled : Bool
  pub force_authoring : Bool
  pub node_name : String
  pub disable_grandpa : Bool
  pub transaction_pool : K.PoolOptions
  pub prometheus_registry : Option K.Registry

-- `CanAuthorWithNativeVersion`, `NeverCanAuthor`
pub data CanAuthor (K : Kit) : Type 0 where
  native_version : K.Executor → CanAuthor K
  never : CanAuthor K

-- `sc_finality_grandpa::Config`
pub record GrandpaConfig (K : Kit) : Type 0 where
  pub gossip_millis : ℕ
  pub justification_period : ℕ
  pub name : Option String
  pub observer_enabled : Bool
  pub keystore : Option K.Keystore
  pub is_authority : Bool
