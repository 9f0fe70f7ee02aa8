-- ===== src/Service/Connections.antt =====
-- How the parts of a full node of node/src/service.rs are to be connected: what each call of `new_full`
-- is given, as a property of a trace.
use e2_chain.Base.{◌≡◌, Option, none, some, List, [], ◌∷◌, if◌then◌else◌}
use e2_chain.Service.Rpc.{rpc_extensions_builder}
use e2_chain.Service.Crates.{Kit, Configuration}
use e2_chain.Service.Steps.{
  Parts, NetworkParts, Step, Answer, Effect, Result, ok, err, new_full_parts, new_light_parts,
  grandpa_block_import, grandpa_light_block_import, babe_config, babe_block_import,
  babe_import_queue, build_network, spawn_tasks, start_babe, run_grandpa_voter,
  setup_disabled_grandpa, create_runner, run_until_exit, run_subcommand, done,
  offchain_workers_built, babe_proposer_spawned, grandpa_voter_spawned, network_started,
}

module _ (K : Kit) (answer : (x : Step K) → Result K (Answer K x)) (config : Configuration K)
    (parts : Parts K) where
  -- The pool that is made of the parts.
  abbrev pub pool : K.Pool
  pool =
      K.full_pool config.transaction_pool config.prometheus_registry
        (K.spawn_handle parts.task_manager) parts.client

  -- A step is given the parts, the pool made of them, and the network that there is. The steps of light
  -- clients and of the runner are not taken.
  abbrev pub Takes : Option K.Network → Step K → Type 0
  Takes net (new_full_parts c) = c ≡ config
  Takes net (new_light_parts c) = ⊥
  Takes net (grandpa_block_import client api select_chain) =
      (client ≡ parts.client)
      × (api ≡ parts.client)
      × (select_chain ≡ K.longest_chain parts.backend)
  Takes net (grandpa_light_block_import client backend api checker) = ⊥
  Takes net (babe_config client) = client ≡ parts.client
  Takes net (babe_block_import babe inner client) = client ≡ parts.client
  Takes net (babe_import_queue q) =
      (q.client ≡ parts.client)
      × (q.select_chain ≡ K.longest_chain parts.backend)
      × (q.spawn_handle ≡ K.spawn_handle parts.task_manager)
  Takes net (build_network q) =
      (q.client ≡ parts.client)
      × (q.transaction_pool ≡ pool)
      × (q.spawn_handle ≡ K.spawn_handle parts.task_manager)
  Takes net (spawn_tasks q) =
      (q.client ≡ parts.client)
      × (q.backend ≡ parts.backend)
      × (q.keystore ≡ parts.keystore)
      × (q.task_manager ≡ parts.task_manager)
      × (q.transaction_pool ≡ pool)
      × (q.rpc_extensions_builder ≡ some (rpc_extensions_builder K.rpc parts.client pool))
      × (net ≡ some q.network)
  Takes net (start_babe q) =
      (q.client ≡ parts.client)
      × (q.keystore ≡ parts.keystore)
      × (q.select_chain ≡ K.longest_chain parts.backend)
      × (q.env ≡ K.proposer_factory parts.client pool config.prometheus_registry)
      × (net ≡ some q.sync_oracle)
  Takes net (run_grandpa_voter q) =
      (q.config.keystore ≡ (if K.is_authority config.role then some parts.keystore else none))
      × (net ≡ some q.network)
  Takes net (setup_disabled_grandpa client providers network) =
      (client ≡ parts.client) × (net ≡ some network)
  Takes net create_runner = ⊥
  Takes net (run_until_exit manager) = ⊥
  Takes net (run_subcommand subcommand p) = ⊥

  abbrev pub Uses : Option K.Network → Effect K → Type 0
  Uses net (done x) = Takes net x
  Uses net (offchain_workers_built c backend handle client network) =
      (backend ≡ parts.backend)
      × (handle ≡ K.spawn_handle parts.task_manager)
      × (client ≡ parts.client)
      × (net ≡ some network)
  Uses net (babe_proposer_spawned manager babe) = manager ≡ parts.task_manager
  Uses net (grandpa_voter_spawned manager voter) = manager ≡ parts.task_manager
  Uses net (network_started starter) = Unit

  abbrev pub built : Result K (NetworkParts K) → Option K.Network
  built (ok n) = some n.network
  built (err e) = none

  -- The network that was built last.
  abbrev pub network_of : List (Effect K) → Option K.Network
  network_of [] = none
  network_of (done (build_network q) ∷ t) = built (answer (build_network q))
  network_of (_ ∷ t) = network_of t

  -- Each effect of a trace uses the parts, and the network that was built before it.
  abbrev pub IsWired : List (Effect K) → Type 0
  IsWired [] = Unit
  IsWired (x ∷ t) = Uses (network_of t) x × IsWired t
