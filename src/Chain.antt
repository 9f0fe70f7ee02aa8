-- ===== src/Chain.antt =====
-- The runtime that `construct_runtime!` of runtime/src/lib.rs composes, as far as it is made of the
-- repository's pallets: one chain state, in which deeper-node and micropayment share the ledger of
-- the balances pallet, the outer `Call`, and the extrinsics of a chain one after another. The other
-- pallets are a parameter: a call of theirs carries out a plan, which may change the ledger and
-- dispatch calls of the four pallets, as those of sudo and utility do. Each pallet's events are kept
-- apart.
pub mod Actions
pub mod Deposits
pub mod Authority
pub mod Payments
pub mod Settlement
pub mod Forfeits
mod Tests
use e2_chain.Base.{ℕ, Bool, Option, none, some, List, [], ◌∷◌}
use e2_chain.Frame.{
  System, StorageMap, StorageDoubleMap, DispatchError, Outcome, Ok, Balances, as_currency,
}
use e2_chain.Template
use e2_chain.Template.Requests as TemplateCalls
use e2_chain.Erc20
use e2_chain.Erc20.Requests as Erc20Calls
use e2_chain.DeeperNode
use e2_chain.DeeperNode.Requests as DeeperNodeCalls
use e2_chain.Micropayment
use e2_chain.Micropayment.Message.{Crypto}
use e2_chain.Micropayment.Requests as MicropaymentCalls

-- The calls of the four pallets among the constructors of the outer `enum Call`.
pub data PalletCall (AccountId : Type 0) : Type 0 where
  template_call : TemplateCalls.Request → PalletCall AccountId
  erc20_call : Erc20Calls.Request AccountId → PalletCall AccountId
  deeper_node_call : DeeperNodeCalls.Request → PalletCall AccountId
  micropayment_call : MicropaymentCalls.Request AccountId → PalletCall AccountId

-- What a call of another pallet does, step by step: it looks at the ledger or changes it, dispatches
-- a call of the four pallets from some origin and goes on by its result, or ends.
pub data Plan (AccountId Origin Ledger : Type 0) : Type 0 where
  finish : Outcome Ok → Plan AccountId Origin Ledger
  look : (Ledger → Plan AccountId Origin Ledger) → Plan AccountId Origin Ledger
  update : (Ledger → Ledger) → Plan AccountId Origin Ledger → Plan AccountId Origin Ledger
  wrap :
      Origin
      → PalletCall AccountId
      → (Outcome Ok → Plan AccountId Origin Ledger)
      → Plan AccountId Origin Ledger

-- The outer `enum Call`: a call of the four pallets, or one of another.
pub data Call (AccountId Other : Type 0) : Type 0 where
  pallet_call : PalletCall AccountId → Call AccountId Other
  other_call : Other → Call AccountId Other

-- What the runtime is made of besides the four pallets.
pub record Runtime : Type 1 where
  pub system : System
  pub open system use *
  pub balances : Balances AccountId
  pub crypto : Crypto AccountId
  pub default_account : AccountId
  pub from_error : Template.Error → DispatchError
  pub tokens_map : StorageMap ℕ Erc20.Erc20Token
  pub balance_map : StorageMap (ℕ × AccountId) ℕ
  pub allowance_map : StorageMap (ℕ × AccountId × AccountId) ℕ
  pub device_map : StorageMap AccountId (DeeperNode.Node AccountId)
  pub server_map : StorageMap ℕ (List AccountId)
  pub channel_map : StorageMap (AccountId × AccountId) (Micropayment.Chan AccountId)
  pub nonce_map : StorageMap (AccountId × AccountId) ℕ
  pub session_map : StorageDoubleMap (AccountId × AccountId) ℕ Bool
  -- the calls of the other pallets, and what an origin does with one
  pub Other : Type 0
  pub plan : Origin → Other → Plan AccountId Origin balances.Ledger
  -- `SignedExtra`, which charges the fee for a call of some length with a tip, before and after the
  -- call; before it, the extrinsic may be refused
  pub pre_dispatch :
      Origin → Call AccountId Other → ℕ → ℕ → balances.Ledger → Option balances.Ledger
  pub post_dispatch :
      Origin → Call AccountId Other → ℕ → ℕ → Outcome Ok → balances.Ledger → balances.Ledger

module _ (R : Runtime) where
  -- `impl erc20::Trait for Runtime`
  abbrev pub erc20_trait : Erc20.Trait
  erc20_trait = record {
    system = R.system;
    tokens_map = R.tokens_map;
    balance_map = R.balance_map;
    allowance_map = R.allowance_map;
  }

  -- `impl deeper_node::Trait for Runtime`, with `Balances` as its currency
  abbrev pub deeper_node_trait : DeeperNode.Trait
  deeper_node_trait = record {
    system = R.system;
    currency = R.balances.reservable;
    default_account = R.default_account;
    device_map = R.device_map;
    server_map = R.server_map;
  }

  -- `impl micropayment::Trait for Runtime`, with `Balances` as its currency
  abbrev pub micropayment_trait : Micropayment.Trait
  micropayment_trait = record {
    system = R.system;
    currency = as_currency R.balances;
    crypto = R.crypto;
    default_account = R.default_account;
    channel_map = R.channel_map;
    nonce_map = R.nonce_map;
    session_map = R.session_map;
  }

-- The storage of the pallets, and the ledger.
pub record State (R : Runtime) : Type 0 where
  pub template_module : Template.State R.system
  pub erc20 : Erc20.State (erc20_trait R)
  pub device_info : R.device_map.Map
  pub servers_by_country : R.server_map.Map
  pub device_events : List (DeeperNode.Event R.AccountId)
  pub channels : R.channel_map.Map
  pub nonces : R.nonce_map.Map
  pub sessions : R.session_map.Map
  pub channel_events : List (Micropayment.Event R.AccountId)
  pub ledger : R.balances.Ledger

-- A call, the time of its block, its origin, and what its fee depends on.
pub record Extrinsic (R : Runtime) : Type 0 where
  pub now : ℕ
  pub origin : R.Origin
  pub call : Call R.AccountId R.Other
  pub len : ℕ
  pub tip : ℕ

module _ (R : Runtime) where
  open R use {Origin}

  -- What a pallet sees of the chain, and the chain with what the pallet wrote.
  abbrev pub deeper_node_of : State R → DeeperNode.State (deeper_node_trait R)
  deeper_node_of s = record {
    device_info = s.device_info;
    servers_by_country = s.servers_by_country;
    ledger = s.ledger;
    events = s.device_events;
  }

  abbrev pub put_deeper_node : DeeperNode.State (deeper_node_trait R) → State R → State R
  put_deeper_node d s = record s {
    device_info = d.device_info;
    servers_by_country = d.servers_by_country;
    ledger = d.ledger;
    device_events = d.events;
  }

  abbrev pub micropayment_of : State R → Micropayment.State (micropayment_trait R)
  micropayment_of s = record {
    channels = s.channels;
    nonces = s.nonces;
    sessions = s.sessions;
    ledger = s.ledger;
    events = s.channel_events;
  }

  abbrev pub put_micropayment : Micropayment.State (micropayment_trait R) → State R → State R
  put_micropayment m s = record s {
    channels = m.channels;
    nonces = m.nonces;
    sessions = m.sessions;
    ledger = m.ledger;
    channel_events = m.events;
  }

  abbrev pub genesis : R.balances.Ledger → State R
  genesis l = record {
    template_module = TemplateCalls.genesis R.system R.from_error;
    erc20 = Erc20Calls.genesis (erc20_trait R);
    device_info = R.device_map.empty;
    servers_by_country = R.server_map.empty;
    device_events = [];
    channels = R.channel_map.empty;
    nonces = R.nonce_map.empty;
    sessions = R.session_map.empty;
    channel_events = [];
    ledger = l;
  }

  unfoldable pub dispatch_pallet :
      ℕ → Origin → PalletCall R.AccountId → State R → Outcome Ok × State R
  dispatch_pallet now o (template_call r) s =
      let (x, t) = TemplateCalls.dispatch R.system R.from_error o r s.template_module in
      (x, record s { template_module = t })
  dispatch_pallet now o (erc20_call r) s =
      let (x, e) = Erc20Calls.dispatch (erc20_trait R) o r s.erc20 in (x, record s { erc20 = e })
  dispatch_pallet now o (deeper_node_call r) s =
      let (x, d) = DeeperNodeCalls.dispatch (deeper_node_trait R) o r (deeper_node_of s) in
      (x, put_deeper_node d s)
  dispatch_pallet now o (micropayment_call r) s =
      let (x, m) = MicropaymentCalls.dispatch (micropayment_trait R) now o r (micropayment_of s) in
      (x, put_micropayment m s)

  abbrev pub put_ledger : R.balances.Ledger → State R → State R
  put_ledger l s = record s { ledger = l }

  -- A plan carried out; what is written before an error stays written.
  unfoldable pub perform :
      ℕ → Plan R.AccountId Origin R.balances.Ledger → State R → Outcome Ok × State R
  perform now (finish r) s = (r, s)
  perform now (look p) s = perform now (p s.ledger) s
  perform now (update f p) s = perform now p (put_ledger (f s.ledger) s)
  perform now (wrap o c p) s = let (r, s') = dispatch_pallet now o c s in perform now (p r) s'

  unfoldable pub dispatch : ℕ → Origin → Call R.AccountId R.Other → State R → Outcome Ok × State R
  dispatch now o (pallet_call c) s = dispatch_pallet now o c s
  dispatch now o (other_call c) s = perform now (R.plan o c) s

  -- An extrinsic that `SignedExtra` lets through is charged, dispatched, and settled with by its
  -- result; another changes nothing.
  unfoldable pub after : Extrinsic R → State R → State R
  after x s = elim (R.pre_dispatch x.origin x.call x.len x.tip s.ledger) [
    | none ↦ s
    | some l ↦
        let (r, s') = dispatch x.now x.origin x.call (put_ledger l s) in
        put_ledger (R.post_dispatch x.origin x.call x.len x.tip r s'.ledger) s'
  ]

  -- The state after a sequence of extrinsics.
  unfoldable pub run : List (Extrinsic R) → State R → State R
  run [] s = s
  run (x ∷ xs) s = run xs (after x s)
