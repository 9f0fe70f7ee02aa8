-- ===== src/Service.antt =====
-- How the node starts its service: `new_partial`, `new_full` and `new_light` of node/src/service.rs,
-- and `run` of node/src/command.rs, which runs a subcommand or starts the node. Each fallible call of
-- another crate is a `Step` with its arguments, and what it returns is a parameter, as are the types of
-- clients, pools, networks and the like, and the functions that only make one from others. What was
-- done is a trace, the latest first.
pub mod Rpc
pub mod Crates
pub mod Steps
pub mod Launch
pub mod Outcomes
pub mod Commands
pub mod Connections
pub mod Wiring
mod Tests
use e2_chain.Base.{ℕ, String, Bool, true, false, not, Option, none, some, List, ◌∷◌, if◌then◌else◌}
use Rpc.{rpc_extensions_builder}
use Crates.{Kit, Configuration, CanAuthor, native_version, never, GrandpaConfig}
use Steps.{
  ImportQueueParams, BuildNetworkParams, SpawnTasksParams, BabeParams, GrandpaParams, Parts,
  NetworkParts, PartialComponents, Step, Effect, Result, new_full_parts, new_light_parts,
  grandpa_block_import, grandpa_light_block_import, babe_config, babe_block_import,
  babe_import_queue, build_network, spawn_tasks, start_babe, run_grandpa_voter,
  setup_disabled_grandpa, create_runner, run_until_exit, run_subcommand, done,
  offchain_workers_built, babe_proposer_spawned, grandpa_voter_spawned, network_started, ok, err,
  Answer,
}

module _ (K : Kit) (answer : (x : Step K) → Result K (Answer K x)) where
  abbrev pub Program : Type 0 → Type 0
  Program A = List (Effect K) → Result K A × List (Effect K)

  infixl 5 ◌>>=◌ ◌>>◌
  abbrev pub ◌>>=◌ : {A B : Type 0} → Program A → (A → Program B) → Program B
  ◌>>=◌ m f t = let (r, t') = m t in elim r [ ok a ↦ f a t' | err e ↦ (err e, t') ]

  abbrev pub ◌>>◌ : {A B : Type 0} → Program A → Program B → Program B
  m >> k = m >>= λ _. k

  abbrev pub pure : {A : Type 0} → A → Program A
  pure a t = (ok a, t)

  abbrev pub emit : Effect K → Program Unit
  emit x t = (ok tt, x ∷ t)

  -- `call?`
  abbrev pub call : (x : Step K) → Program (Answer K x)
  call x t = elim (answer x) [ ok a ↦ (ok a, done x ∷ t) | err e ↦ (err e, t) ]

  -- `if test { .. }`
  abbrev pub when : Bool → Program Unit → Program Unit
  when b m = if b then m else pure tt

  unfoldable pub new_partial : Configuration K → Program (PartialComponents K)
  new_partial config = do
    let providers = K.inherent_data_providers
    parts ← call (new_full_parts config)
    let client = parts.client
    let handle = K.spawn_handle parts.task_manager
    let select_chain = K.longest_chain parts.backend
    let pool = K.full_pool config.transaction_pool config.prometheus_registry handle client
    grandpa ← call (grandpa_block_import client client select_chain)
    babe ← call (babe_config client)
    imports ← call (babe_block_import babe grandpa.0 client)
    import_queue ← call (
        babe_import_queue (record {
          babe_link = imports.1;
          block_import = imports.0;
          justification_import = some grandpa.0;
          finality_proof_import = none;
          client = client;
          select_chain = select_chain;
          inherent_data_providers = providers;
          spawn_handle = handle;
          registry = config.prometheus_registry;
          can_author_with = native_version (K.executor client);
        }))
    pure (record {
      client = client;
      backend = parts.backend;
      task_manager = parts.task_manager;
      import_queue = import_queue;
      keystore = parts.keystore;
      select_chain = select_chain;
      transaction_pool = pool;
      inherent_data_providers = providers;
      block_import = imports.0;
      grandpa_link = grandpa.1;
      babe_link = imports.1;
    })

  unfoldable pub grandpa_config : Configuration K → K.Keystore → GrandpaConfig K
  grandpa_config config keystore = record {
    gossip_millis = 333;
    justification_period = 512;
    name = some config.node_name;
    observer_enabled = false;
    keystore = if K.is_authority config.role then some keystore else none;
    is_authority = K.is_network_authority config.role;
  }

  -- The block that starts the proposer of an authority.
  abbrev pub propose : Configuration K → PartialComponents K → K.Network → Program Unit
  propose config c network = do
    babe ← call (
        start_babe (record {
          keystore = c.keystore;
          client = c.client;
          select_chain = c.select_chain;
          env = K.proposer_factory c.client c.transaction_pool config.prometheus_registry;
          block_import = c.block_import;
          sync_oracle = network;
          inherent_data_providers = c.inherent_data_providers;
          force_authoring = config.force_authoring;
          babe_link = c.babe_link;
          can_author_with = native_version (K.executor c.client);
        }))
    emit (babe_proposer_spawned c.task_manager babe)

  -- The block that starts the finality voter.
  abbrev pub vote : Configuration K → PartialComponents K → K.Network → Program Unit
  vote config c network = do
    voter ← call (
        run_grandpa_voter (record {
          config = grandpa_config config c.keystore;
          link = c.grandpa_link;
          network = network;
          inherent_data_providers = c.inherent_data_providers;
          prometheus_registry = config.prometheus_registry;
        }))
    emit (grandpa_voter_spawned c.task_manager voter)

  unfoldable pub new_full : Configuration K → Program K.TaskManager
  new_full config = do
    c ← new_partial config
    let handle = K.spawn_handle c.task_manager
    n ← call (
        build_network (record {
          config = config;
          client = c.client;
          transaction_pool = c.transaction_pool;
          spawn_handle = handle;
          import_queue = c.import_queue;
          on_demand = none;
          finality_proof_request_builder = none;
          finality_proof_provider = some (K.proof_provider c.backend c.client);
        }))
    when config.offchain_worker_enabled
        (emit (offchain_workers_built config c.backend handle c.client n.network))
    call (
        spawn_tasks (record {
          network = n.network;
          client = c.client;
          keystore = c.keystore;
          task_manager = c.task_manager;
          transaction_pool = c.transaction_pool;
          rpc_extensions_builder = some (rpc_extensions_builder K.rpc c.client c.transaction_pool);
          on_demand = none;
          remote_blockchain = none;
          backend = c.backend;
          network_status_sinks = n.network_status_sinks;
          system_rpc_tx = n.system_rpc_tx;
          config = config;
        }))
    when (K.is_authority config.role) (propose config c n.network)
    if not config.disable_grandpa
        then vote config c n.network
        else call (setup_disabled_grandpa c.client c.inherent_data_providers n.network)
    emit (network_started n.network_starter)
    pure c.task_manager

  unfoldable pub new_light : Configuration K → Program K.TaskManager
  new_light config = do
    p ← call (new_light_parts config)
    let client = p.0.client
    let backend = p.0.backend
    let handle = K.spawn_handle p.0.task_manager
    let select_chain = K.longest_chain backend
    let pool = K.light_pool config.transaction_pool config.prometheus_registry handle client p.1
    grandpa ← call (grandpa_light_block_import client backend client (K.checker p.1))
    babe ← call (babe_config client)
    imports ← call (babe_block_import babe grandpa client)
    import_queue ← call (
        babe_import_queue (record {
          babe_link = imports.1;
          block_import = imports.0;
          justification_import = none;
          finality_proof_import = some grandpa;
          client = client;
          select_chain = select_chain;
          inherent_data_providers = K.inherent_data_providers;
          spawn_handle = handle;
          registry = config.prometheus_registry;
          can_author_with = never;
        }))
    n ← call (
        build_network (record {
          config = config;
          client = client;
          transaction_pool = pool;
          spawn_handle = handle;
          import_queue = import_queue;
          on_demand = some p.1;
          finality_proof_request_builder = some (K.proof_request_builder grandpa);
          finality_proof_provider = some (K.proof_provider backend client);
        }))
    when config.offchain_worker_enabled
        (emit (offchain_workers_built config backend handle client n.network))
    call (
        spawn_tasks (record {
          network = n.network;
          client = client;
          keystore = p.0.keystore;
          task_manager = p.0.task_manager;
          transaction_pool = pool;
          rpc_extensions_builder = none;
          on_demand = some p.1;
          remote_blockchain = some (K.remote_blockchain backend);
          backend = backend;
          network_status_sinks = n.network_status_sinks;
          system_rpc_tx = n.system_rpc_tx;
          config = config;
        }))
    emit (network_started n.network_starter)
    pure p.0.task_manager

  -- `match config.role`
  unfoldable pub start_node : Configuration K → Program K.TaskManager
  start_node config = if K.is_light config.role then new_light config else new_full config

  -- `run_node_until_exit`, with the closure that starts the node
  unfoldable pub run_node : Configuration K → Program Unit
  run_node config = do manager ← start_node config; call (run_until_exit manager)

  -- the closure that the runner of a subcommand calls
  abbrev pub parts_of :
      Configuration K → Program (K.Client × K.Backend × K.ImportQueue × K.TaskManager)
  parts_of config = do
    c ← new_partial config
    pure (c.client, c.backend, c.import_queue, c.task_manager)

  -- `run`: a subcommand is run by the runner, on the parts that `new_partial` makes
  unfoldable pub run : Option K.Subcommand → Configuration K → Program Unit
  run (some subcommand) config = do
    call create_runner
    parts ←
        if K.needs_parts subcommand
        then parts_of config >>= (λ parts. pure (some parts))
        else pure none
    call (run_subcommand subcommand parts)
  run none config = do call create_runner; run_node config
