-- ===== src/Lib.antt =====
-- A model of e2-chain, a Substrate blockchain node in Rust: its pallets, the runtime that
-- composes them, and the parts of the node that build a chain's specification.
--
-- The parts and how they interact. A pallet keeps its storage in maps and changes it in
-- dispatchable calls, which the runtime runs one after another, each with an origin. A call reads
-- the signer of its origin from `frame_system`, moves or reserves funds through the `Currency` of
-- the balances pallet, and deposits events. The runtime chooses the pallets' types (a token
-- balance is a `u64`), scales balances to votes for staking, and signs transactions for offchain
-- workers. The node loads a specification of a chain by its id and builds the genesis state.
--
-- Base is shared by all: tests, fixed-width integers, lists and sums over the native numbers.
-- Frame models what the pallets use of FRAME. Frame.Storage is a storage map as an interface with
-- the laws of a key-value store; Frame.Calls is a call as a function from a state to an outcome
-- and a state, the errors, and the origin check; Frame.Ledgers is `Currency` and
-- `ReservableCurrency` with their documented effects. All of them are parameters of the pallets,
-- as a record `Trait`, and Tests modules fill them with concrete functions.
--
-- Erc20 models pallets/erc20/src/lib.rs: `init`, `transfer`, `approve`, `transfer_from`, and
-- `move_balance` for `_transfer`. Transfer and Supply show what a transfer does, Allowances and
-- Spending what is approved and spent, Issue what `init` does, Backing the invariant, Requests the
-- sequences of extrinsics, and Reachable the invariant along them. Standard is what a token ledger
-- promises, as a relation between two books; Refinement shows that each extrinsic keeps to it, and
-- Holders what that means to a holder. Grants accounts for allowances, Journal for the events, and
-- Widths is about the types of what is stored.
-- Micropayment models pallets/micropayment/src/lib.rs: `open_channel`, `close_channel`,
-- `claim_payment`, `verify_signature`, and `remove_all` for `_close_channel`. Message has the
-- bytes that are signed (`construct_byte_array_and_hash`) and Encoding reads them back; Channels
-- and Claims have the calls branch by branch, Lifetime what they come to; Requests has the
-- sequences of extrinsics, Steps the relation of what one of them can change, and Nonces, Replay
-- and Invariant what holds along them. Ledgers is about what the calls do to the ledger, Settlement
-- about where the money goes, Waiting about a channel whose receiver signs nothing, and Liveness
-- about a claim that is paid and what paid claims have. Contract is what the pallet promises to a
-- pair of accounts, as a function for each request; Views and Simulation compare each call with it,
-- Refinement sequences of extrinsics. Exposure is about what an account that signs can lose, for which
-- Widths bounds the nonces that are stored.
-- DeeperNode models pallets/deeper-node/src/lib.rs: `register_device`, `unregister_device`,
-- `register_server`, `unregister_server`, `try_add_server`, `try_remove_server`. Servers and
-- Listing are about the lists of servers, Registry about the calls on each branch, Requests and
-- Invariant about sequences of them, Lifecycle and Leftovers about what a device gains and leaves.
-- Directory is what the pallet promises without its lists, as a function for each request, Members
-- and Simulation compare each call with it, and Refinement each extrinsic. Ledgers is about what the
-- calls do to the ledger.
-- Template models pallets/template/src/lib.rs, and Template.Counter what its value does;
-- Template.Requests has its sequences of extrinsics.
-- Runtime.Votes and Runtime.Transactions model `CurrencyToVoteHandler` and `create_transaction` of
-- runtime/src/lib.rs; Runtime.Apis models `generate_key_ownership_proof` and
-- `submit_report_equivocation_unsigned_extrinsic` of its `GrandpaApi`. Runtime.Weights models
-- runtime/src/weights.
-- Chain models `construct_runtime!` and the pallets' `impl`s of runtime/src/lib.rs: one state of the
-- four pallets in which deeper-node and micropayment share the ledger of the balances pallet
-- (`Balances` of Frame.Ledgers), the outer `Call`, and the extrinsics of a chain. What a call of
-- another pallet does is a parameter, a plan: it may look at the ledger, change it, and dispatch calls
-- of the four pallets, as sudo and utility do. The fees of `SignedExtra` are parameters too: they are
-- taken from the ledger before and after a dispatch, and an extrinsic that cannot pay is refused.
-- Chain.Actions lays a chain out as a plain sequence of calls and changes of the ledger, fees among
-- them. Chain.Deposits, Chain.Payments and Chain.Settlement are about what the shared ledger and the
-- actions in between do to deposits, to payments and to what an account is worth, Chain.Forfeits about
-- a payment that takes a deposit with it, Chain.Authority about what an extrinsic does to the devices
-- of others.
-- ChainSpec models node/src/chain_spec.rs (Genesis, Configs), with runtime/src/constants.rs, and
-- `load_spec` of node/src/command.rs; Funding and Loading have the theorems.
-- Service models node/src/service.rs (`new_partial`, `new_full`, `new_light`; `propose` and `vote` are
-- two blocks of `new_full`) and `run` of node/src/command.rs, as programs that call other crates step
-- by step, stop at the first error, and leave a trace. Service.Crates has what they take of other
-- crates, Service.Steps the calls that can fail with their arguments and results. Service.Launch is
-- about a start that succeeds, Service.Outcomes about every start, and Service.Commands about a command
-- line with or without a subcommand. Service.Connections says how a full node is to be connected, and
-- Service.Wiring that it is. Service.Rpc models `create_full` of node/src/rpc.rs and the builder in
-- `new_full` that calls it.
--
-- Choices. Calls of this version of FRAME are not transactional: what was written before an error
-- stays. Arithmetic written with `+` and `*` wraps, as in a release build; `checked_` and
-- `saturating_` operations are written out at their width. A pallet's events are a list, the
-- latest first. The time of a block is an argument of a call. A Rust panic is an outcome of its
-- own. Loops are structural recursion; the only fuel is the number of doublings in
-- `checked_next_power_of_two`: 32 of them reach every power of two of a `u32`, and the theorem on
-- `era_period` covers every argument from 2 up to the last one that has such a power.
-- The balances pallet removes an account that a transfer leaves below the existential deposit of
-- runtime/src/lib.rs, 500, with what it has reserved, and the deposit of a device is 100. So transfers,
-- fees and other pallets can take deposits; Chain.Deposits has this documented effect of a transfer as
-- the named hypothesis `IsReaping` and counts what was taken.
--
-- Not modelled: the pallets of other crates and their configuration (what their calls do to the
-- ledger and to the four pallets is the parameter `plan` of Chain), except for raw writes to
-- storage by the root origin (`set_storage`, `kill_prefix`); the prefixes under which pallets store
-- (deeper-node and micropayment both use the prefix `Device`, with items of different names); how
-- the events of all pallets are numbered in a block; the runtime's other APIs, which pass their
-- arguments on; the command-line parser, which is derived; the telemetry and the voting rule of
-- node/src/service.rs, which are defaults; mocks, unit tests and scripts; the hash, the signature
-- scheme, the codec, the storage, the balances pallet and the RPC server's library, which are other
-- crates' and enter as parameters.
pub mod Base
pub mod Frame
pub mod Erc20
pub mod Micropayment
pub mod DeeperNode
pub mod Template
pub mod Runtime
pub mod ChainSpec
pub mod Service
pub mod Chain
