-- ===== src/Service/Tests.antt =====
-- Starts of the node of node/src/service.rs.
use text.Mathlib.Text.{◌==◌ as str_eq}
use e2_chain.Base.{
  String, if◌then◌else◌, Bool, true, false, not, ◌≡◌, ◌⊎◌, refl, Option, none, some, [],
}
use e2_chain.Service.Crates.{Kit, Configuration}
use e2_chain.Service.Steps.{
  Parts, Step, Answer, Result, ok, err, new_full_parts, new_light_parts, grandpa_block_import,
  grandpa_light_block_import, babe_config, babe_block_import, babe_import_queue, build_network,
  spawn_tasks, start_babe, run_grandpa_voter, setup_disabled_grandpa, create_runner, run_until_exit,
  run_subcommand,
}
use e2_chain.Service.{new_full}
use e2_chain.Service.Rpc.{RpcKit, rpc_extensions_builder, find-outcomes}
use e2_chain.Service.Commands.{Ends, run-outcomes}
use e2_chain.Service.Connections.{IsWired}
use e2_chain.Service.Wiring.{new_full-IsWired}

data Role : Type 0 where
  light authority : Role

abbrev is_light : Role → Bool
is_light light = true
is_light authority = false

-- Servers as functions; a method of the system that answers by the policy, and one of payments.
abbrev rpc_kit : RpcKit
rpc_kit = record {
  Client = Unit;
  Pool = Unit;
  DenyUnsafe = Bool;
  Method = Bool;
  Delegate = String → Option Bool;
  IoHandler = String → Option Bool;
  method_of = λ d name. d name;
  find = λ io name. io name;
  default = λ name. none;
  extend_with = λ d io name. elim (d name) [ none ↦ io name | some m ↦ some m ];
  full_system =
      λ client pool deny name. if str_eq name "system_dryRun" then some (not deny) else none;
  transaction_payment = λ client name. if str_eq name "payment_queryInfo" then some true else none;
  find-default = λ name. refl;
  find-extend_with = λ d io name. refl;
}

abbrev kit : Kit
kit = record {
  Role = Role;
  is_light = is_light;
  is_authority = λ r. not (is_light r);
  is_network_authority = λ r. not (is_light r);
  Subcommand = Bool;
  needs_parts = λ b. b;
  ServiceError = Unit;
  rpc = rpc_kit;
  PoolOptions = Unit;
  Registry = Unit;
  Backend = Unit;
  Keystore = Unit;
  TaskManager = Unit;
  SpawnHandle = Unit;
  OnDemand = Unit;
  Checker = Unit;
  RemoteBlockchain = Unit;
  Executor = Unit;
  SelectChain = Unit;
  InherentDataProviders = Unit;
  GrandpaBlockImport = Unit;
  LinkHalf = Unit;
  ProofRequestBuilder = Unit;
  BabeConfig = Unit;
  BabeBlockImport = Unit;
  BabeLink = Unit;
  ImportQueue = Unit;
  ProofProvider = Unit;
  Network = Unit;
  StatusSinks = Unit;
  SystemRpcTx = Unit;
  NetworkStarter = Unit;
  ProposerFactory = Unit;
  BabeWorker = Unit;
  GrandpaVoter = Unit;
  inherent_data_providers = tt;
  spawn_handle = λ m. m;
  longest_chain = λ b. b;
  full_pool = λ o r h c. tt;
  light_pool = λ o r h c d. tt;
  executor = λ c. c;
  checker = λ d. d;
  proof_request_builder = λ g. g;
  proof_provider = λ b c. c;
  remote_blockchain = λ b. b;
  proposer_factory = λ c p r. c;
}

abbrev validator : Configuration kit
validator = record {
  role = authority;
  offchain_worker_enabled = true;
  force_authoring = false;
  node_name = "node";
  disable_grandpa = false;
  transaction_pool = tt;
  prometheus_registry = none;
}

abbrev full_parts : Parts kit
full_parts = record { client = tt; backend = tt; keystore = tt; task_manager = tt }

-- Every call returns something.
abbrev answers : (x : Step kit) → Answer kit x
answers (new_full_parts c) = full_parts
answers (new_light_parts c) = (full_parts, tt)
answers (grandpa_block_import c a s) = (tt, tt)
answers (grandpa_light_block_import c b a k) = tt
answers (babe_config c) = tt
answers (babe_block_import b g c) = (tt, tt)
answers (babe_import_queue q) = tt
answers (build_network q) = record {
  network = tt;
  network_status_sinks = tt;
  system_rpc_tx = tt;
  network_starter = tt;
}
answers (spawn_tasks q) = tt
answers (start_babe q) = tt
answers (run_grandpa_voter q) = tt
answers (setup_disabled_grandpa c i n) = tt
answers create_runner = tt
answers (run_until_exit manager) = tt
answers (run_subcommand s p) = tt

abbrev never_fails : (x : Step kit) → Result kit (Answer kit x)
never_fails x = ok (answers x)

new_full-IsWired_example :
    IsWired kit never_fails validator full_parts (new_full kit never_fails validator []).1
new_full-IsWired_example = new_full-IsWired kit never_fails validator full_parts refl

find-outcomes_example :
    let io = rpc_extensions_builder rpc_kit tt tt in
    ((m : Bool) × (rpc_kit.transaction_payment tt "system_dryRun" ≡ some m)
      × (io true "system_dryRun" ≡ some m)
      × (io false "system_dryRun" ≡ some m))
    ⊎ ((rpc_kit.transaction_payment tt "system_dryRun" ≡ none)
        × (io true "system_dryRun" ≡ rpc_kit.full_system tt tt true "system_dryRun")
        × (io false "system_dryRun" ≡ rpc_kit.full_system tt tt false "system_dryRun"))
find-outcomes_example = find-outcomes rpc_kit tt tt true false "system_dryRun"

-- The network is up, and then the node fails.
abbrev fails_late : (x : Step kit) → Result kit (Answer kit x)
fails_late (run_until_exit manager) = err tt
fails_late x = ok (answers x)

run-outcomes_example : Ends kit fails_late none validator
run-outcomes_example = run-outcomes kit fails_late none validator
