-- ===== src/Service/Steps.antt =====
-- The calls of other crates that node/src/service.rs and node/src/command.rs make and that can fail, with
-- their arguments, what they return, and what else a start does.
use e2_chain.Base.{Bool, Option}
use e2_chain.Service.Crates.{Kit, Configuration, CanAuthor, GrandpaConfig}

-- The arguments of `import_queue`, `build_network`, `spawn_tasks`, `start_babe` and
-- `run_grandpa_voter`, less those that are the same default at every call.
pub record ImportQueueParams (K : Kit) : Type 0 where
  pub babe_link : K.BabeLink
  pub block_import : K.BabeBlockImport
  pub justification_import : Option K.GrandpaBlockImport
  pub finality_proof_import : Option K.GrandpaBlockImport
  pub client : K.Client
  pub select_chain : K.SelectChain
  pub inherent_data_providers : K.InherentDataProviders
  pub spawn_handle : K.SpawnHandle
  pub registry : Option K.Registry
  pub can_author_with : CanAuthor K

pub record BuildNetworkParams (K : Kit) : Type 0 where
  pub config : Configuration K
  pub client : K.Client
  pub transaction_pool : K.Pool
  pub spawn_handle : K.SpawnHandle
  pub import_queue : K.ImportQueue
  pub on_demand : Option K.OnDemand
  pub finality_proof_request_builder : Option K.ProofRequestBuilder
  pub finality_proof_provider : Option K.ProofProvider

-- `|_, _| ()`, the builder of a light client, is `none`.
pub record SpawnTasksParams (K : Kit) : Type 0 where
  pub network : K.Network
  pub client : K.Client
  pub keystore : K.Keystore
  pub task_manager : K.TaskManager
  pub transaction_pool : K.Pool
  pub rpc_extensions_builder : Option (K.DenyUnsafe → K.IoHandler)
  pub on_demand : Option K.OnDemand
  pub remote_blockchain : Option K.RemoteBlockchain
  pub backend : K.Backend
  pub network_status_sinks : K.StatusSinks
  pub system_rpc_tx : K.SystemRpcTx
  pub config : Configuration K

pub record BabeParams (K : Kit) : Type 0 where
  pub keystore : K.Keystore
  pub client : K.Client
  pub select_chain : K.SelectChain
  pub env : K.ProposerFactory
  pub block_import : K.BabeBlockImport
  pub sync_oracle : K.Network
  pub inherent_data_providers : K.InherentDataProviders
  pub force_authoring : Bool
  pub babe_link : K.BabeLink
  pub can_author_with : CanAuthor K

pub record GrandpaParams (K : Kit) : Type 0 where
  pub config : GrandpaConfig K
  pub link : K.LinkHalf
  pub network : K.Network
  pub inherent_data_providers : K.InherentDataProviders
  pub prometheus_registry : Option K.Registry

-- What `new_full_parts` and `new_light_parts` return, the latter with what fetches on demand.
pub record Parts (K : Kit) : Type 0 where
  pub client : K.Client
  pub backend : K.Backend
  pub keystore : K.Keystore
  pub task_manager : K.TaskManager

pub record NetworkParts (K : Kit) : Type 0 where
  pub network : K.Network
  pub network_status_sinks : K.StatusSinks
  pub system_rpc_tx : K.SystemRpcTx
  pub network_starter : K.NetworkStarter

pub record PartialComponents (K : Kit) : Type 0 where
  pub client : K.Client
  pub backend : K.Backend
  pub task_manager : K.TaskManager
  pub import_queue : K.ImportQueue
  pub keystore : K.Keystore
  pub select_chain : K.SelectChain
  pub transaction_pool : K.Pool
  pub inherent_data_providers : K.InherentDataProviders
  pub block_import : K.BabeBlockImport
  pub grandpa_link : K.LinkHalf
  pub babe_link : K.BabeLink

pub data Step (K : Kit) : Type 0 where
  new_full_parts new_light_parts : Configuration K → Step K
  grandpa_block_import : K.Client → K.Client → K.SelectChain → Step K
  grandpa_light_block_import : K.Client → K.Backend → K.Client → K.Checker → Step K
  babe_config : K.Client → Step K
  babe_block_import : K.BabeConfig → K.GrandpaBlockImport → K.Client → Step K
  babe_import_queue : ImportQueueParams K → Step K
  build_network : BuildNetworkParams K → Step K
  spawn_tasks : SpawnTasksParams K → Step K
  start_babe : BabeParams K → Step K
  run_grandpa_voter : GrandpaParams K → Step K
  setup_disabled_grandpa : K.Client → K.InherentDataProviders → K.Network → Step K
  create_runner : Step K
  -- until the node is stopped or an essential task fails
  run_until_exit : K.TaskManager → Step K
  -- with the client, backend, import queue and task manager, if the runner asks for them
  run_subcommand :
      K.Subcommand → Option (K.Client × K.Backend × K.ImportQueue × K.TaskManager) → Step K

-- What a step returns.
abbrev pub Answer : (K : Kit) → Step K → Type 0
Answer K (new_full_parts config) = Parts K
Answer K (new_light_parts config) = Parts K × K.OnDemand
Answer K (grandpa_block_import client api select_chain) = K.GrandpaBlockImport × K.LinkHalf
Answer K (grandpa_light_block_import client backend api checker) = K.GrandpaBlockImport
Answer K (babe_config client) = K.BabeConfig
Answer K (babe_block_import config inner client) = K.BabeBlockImport × K.BabeLink
Answer K (babe_import_queue params) = K.ImportQueue
Answer K (build_network params) = NetworkParts K
Answer K (spawn_tasks params) = Unit
Answer K (start_babe params) = K.BabeWorker
Answer K (run_grandpa_voter params) = K.GrandpaVoter
Answer K (setup_disabled_grandpa client providers network) = Unit
Answer K create_runner = Unit
Answer K (run_until_exit manager) = Unit
Answer K (run_subcommand subcommand parts) = Unit

pub data Effect (K : Kit) : Type 0 where
  done : Step K → Effect K
  offchain_workers_built :
      Configuration K → K.Backend → K.SpawnHandle → K.Client → K.Network → Effect K
  babe_proposer_spawned : K.TaskManager → K.BabeWorker → Effect K
  grandpa_voter_spawned : K.TaskManager → K.GrandpaVoter → Effect K
  network_started : K.NetworkStarter → Effect K

-- `Result<A, ServiceError>`
pub data Result (K : Kit) (A : Type 0) : Type 0 where
  ok : A → Result K A
  err : K.ServiceError → Result K A
