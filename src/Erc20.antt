-- ===== src/Erc20.antt =====
-- The multi-token ledger of pallets/erc20/src/lib.rs. `State` holds the pallet's storage and the
-- events that it deposited, the latest first; each dispatchable is a function of its origin and
-- arguments. A token id is a `u32`, and `TokenBalance` is the runtime's choice, `u64`.
pub mod Transfer
pub mod Supply
pub mod Requests
pub mod Allowances
pub mod Spending
pub mod Backing
pub mod Issue
pub mod Reachable
pub mod Standard
pub mod Refinement
pub mod Holders
pub mod Grants
pub mod Journal
pub mod Widths
mod Tests
use e2_chain.Base.{ℕ, List, ◌∷◌, length, leb, checked_add, checked_sub}
use e2_chain.Frame.{
  System, StorageMap, contains_key, get, Dispatch, Ok, gets, ok_or, ensure, modify, ensure_signed,
  ◌>>=◌, ◌>>◌,
}

-- `type TokenBalance = u64`
abbrev pub balance_bits : ℕ
balance_bits = 64

pub record Erc20Token : Type 0 where
  pub name : List ℕ
  pub ticker : List ℕ
  pub total_supply : ℕ

pub data Event (AccountId : Type 0) : Type 0 where
  transferred : ℕ → AccountId → AccountId → ℕ → Event AccountId
  approval : ℕ → AccountId → AccountId → ℕ → Event AccountId

-- the pallet's `Trait`, with the store behind each of its maps
pub record Trait : Type 1 where
  pub system : System
  pub open system use *
  pub tokens_map : StorageMap ℕ Erc20Token
  pub balance_map : StorageMap (ℕ × AccountId) ℕ
  pub allowance_map : StorageMap (ℕ × AccountId × AccountId) ℕ

pub record State (T : Trait) : Type 0 where
  pub next_id : ℕ
  pub tokens : T.tokens_map.Map
  pub balances : T.balance_map.Map
  pub allowances : T.allowance_map.Map
  pub events : List (Event T.AccountId)

module _ (T : Trait) where
  open T use {AccountId, Origin}

  abbrev pub Call : Type 0
  Call = Dispatch (State T) Ok

  -- `balance_of`
  abbrev pub balance_of : ℕ × AccountId → State T → ℕ
  balance_of k s = get T.balance_map 0 k s.balances

  -- `allowance`
  abbrev pub allowance : ℕ × AccountId × AccountId → State T → ℕ
  allowance k s = get T.allowance_map 0 k s.allowances

  -- `token_details`
  abbrev pub token_details : ℕ → State T → Erc20Token
  token_details id s =
      get T.tokens_map (record { name = List.[]; ticker = List.[]; total_supply = 0 }) id s.tokens

  abbrev put_next_id : ℕ → Call
  put_next_id n = modify λ s. record s { next_id = n }

  abbrev insert_token : ℕ → Erc20Token → Call
  insert_token id t = modify λ s. record s { tokens = T.tokens_map.insert id t s.tokens }

  abbrev insert_balance : ℕ × AccountId → ℕ → Call
  insert_balance k v = modify λ s. record s { balances = T.balance_map.insert k v s.balances }

  abbrev insert_allowance : ℕ × AccountId × AccountId → ℕ → Call
  insert_allowance k v =
      modify λ s. record s { allowances = T.allowance_map.insert k v s.allowances }

  abbrev deposit_event : Event AccountId → Call
  deposit_event e = modify λ s. record s { events = e ∷ s.events }

  pub init : Origin → List ℕ → List ℕ → ℕ → Call
  init origin name ticker total_supply = do
    sender ← ensure_signed T.system origin
    ensure (leb (length name) 64) "token name cannot exceed 64 bytes"
    ensure (leb (length ticker) 32) "token ticker cannot exceed 32 bytes"
    token_id ← gets (λ s. s.next_id)
    next_token_id ← ok_or (checked_add 32 token_id 1) "overflow in calculating next token id"
    put_next_id next_token_id
    insert_token token_id (record { name = name; ticker = ticker; total_supply = total_supply })
    insert_balance (token_id, sender) total_supply

  -- `_transfer`
  pub move_balance : ℕ → AccountId → AccountId → ℕ → Call
  move_balance token_id from to value = do
    owns ← gets (λ s. contains_key T.balance_map (token_id, from) s.balances)
    ensure owns "Account does not own this token"
    sender_balance ← gets (balance_of (token_id, from))
    ensure (leb value sender_balance) "Not enough balance."
    updated_from_balance ←
        ok_or (checked_sub sender_balance value) "overflow in calculating balance"
    receiver_balance ← gets (balance_of (token_id, to))
    updated_to_balance ←
        ok_or (checked_add balance_bits receiver_balance value) "overflow in calculating balance"
    insert_balance (token_id, from) updated_from_balance
    insert_balance (token_id, to) updated_to_balance
    deposit_event (transferred token_id from to value)

  pub transfer : Origin → ℕ → AccountId → ℕ → Call
  transfer origin token_id to value = do
    sender ← ensure_signed T.system origin
    move_balance token_id sender to value

  pub approve : Origin → ℕ → AccountId → ℕ → Call
  approve origin token_id spender value = do
    sender ← ensure_signed T.system origin
    owns ← gets (λ s. contains_key T.balance_map (token_id, sender) s.balances)
    ensure owns "Account does not own this token"
    current ← gets (allowance (token_id, sender, spender))
    updated_allowance ←
        ok_or (checked_add balance_bits current value) "overflow in calculating allowance"
    insert_allowance (token_id, sender, spender) updated_allowance
    deposit_event (approval token_id sender spender value)

  pub transfer_from : Origin → ℕ → AccountId → AccountId → ℕ → Call
  transfer_from origin token_id from to value = do
    exists ← gets (λ s. contains_key T.allowance_map (token_id, from, to) s.allowances)
    ensure exists "Allowance does not exist."
    current ← gets (allowance (token_id, from, to))
    ensure (leb value current) "Not enough allowance."
    updated_allowance ← ok_or (checked_sub current value) "overflow in calculating allowance"
    insert_allowance (token_id, from, to) updated_allowance
    deposit_event (approval token_id from to value)
    move_balance token_id from to value
