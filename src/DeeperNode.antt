-- ===== src/DeeperNode.antt =====
-- The registry of devices and servers of pallets/deeper-node/src/lib.rs. `State` holds the pallet's
-- storage, the ledger behind `T::Currency`, and the events deposited, the latest first. A country is
-- a `u16`.
pub mod Servers
pub mod Listing
pub mod Registry
pub mod Requests
pub mod Lifecycle
pub mod Invariant
pub mod Leftovers
pub mod Ledgers
pub mod Members
pub mod Directory
pub mod Simulation
pub mod Refinement
mod Tests
use e2_chain.Base.{
  ℕ, Bool, not, Option, none, some, List, [], ◌∷◌, ◌++◌, eqb, suc, zero, if◌then◌else◌,
}
use e2_chain.Frame.{
  System, StorageMap, ReservableCurrency, contains_key, get, Dispatch, Outcome, Ok, ok, err, panic,
  pure, gets, ensure, modify, ensure_signed, ◌>>=◌, ◌>>◌,
}

abbrev pub min_lock_amt : ℕ
min_lock_amt = 100

pub record Node (AccountId : Type 0) : Type 0 where
  pub account_id : AccountId
  pub ipv4 : List ℕ
  pub country : ℕ

pub data Event (AccountId : Type 0) : Type 0 where
  register_node : AccountId → List ℕ → ℕ → Event AccountId
  unregister_node : AccountId → Event AccountId
  server_added : AccountId → ℕ → Event AccountId
  server_removed : AccountId → ℕ → Event AccountId

-- the pallet's `Trait`, with the store behind each of its maps
pub record Trait : Type 1 where
  pub system : System
  pub open system use *
  pub currency : ReservableCurrency AccountId
  pub default_account : AccountId
  pub device_map : StorageMap AccountId (Node AccountId)
  pub server_map : StorageMap ℕ (List AccountId)

pub record State (T : Trait) : Type 0 where
  pub device_info : T.device_map.Map
  pub servers_by_country : T.server_map.Map
  pub ledger : T.currency.Ledger
  pub events : List (Event T.AccountId)

-- `Iter::position` and `Vec::remove`
module _ {A : Type 0} where
  unfoldable pub position : (A → Bool) → List A → Option ℕ
  position p [] = none
  position p (x ∷ xs) =
      if p x then some 0 else elim (position p xs) [ none ↦ none | some i ↦ some (suc i) ]

  unfoldable pub remove : ℕ → List A → List A
  remove i [] = []
  remove zero (x ∷ xs) = xs
  remove (suc i) (x ∷ xs) = x ∷ remove i xs

module _ (T : Trait) where
  open T use {AccountId, Origin}

  abbrev pub Call : Type 0
  Call = Dispatch (State T) Ok

  -- `<DeviceInfo<T>>::contains_key`
  abbrev pub is_registered : AccountId → State T → Bool
  is_registered a s = contains_key T.device_map a s.device_info

  -- `get_device_info`, whose default is the derived one
  abbrev pub get_device_info : AccountId → State T → Node AccountId
  get_device_info a s =
      get T.device_map (record { account_id = T.default_account; ipv4 = []; country = 0 }) a
        s.device_info

  -- `get_servers_by_country`
  abbrev pub get_servers_by_country : ℕ → State T → List AccountId
  get_servers_by_country c s = get T.server_map [] c s.servers_by_country

  abbrev insert_device : AccountId → Node AccountId → Call
  insert_device a n = modify λ s. record s { device_info = T.device_map.insert a n s.device_info }

  abbrev remove_device : AccountId → Call
  remove_device a = modify λ s. record s { device_info = T.device_map.remove a s.device_info }

  abbrev insert_servers : ℕ → List AccountId → Call
  insert_servers c l =
      modify λ s. record s { servers_by_country = T.server_map.insert c l s.servers_by_country }

  abbrev deposit_event : Event AccountId → Call
  deposit_event e = modify λ s. record s { events = e ∷ s.events }

  -- `T::Currency::reserve(..)?`
  abbrev reserve : AccountId → ℕ → Call
  reserve a n s = let (r, l) = T.currency.reserve a n s.ledger in (r, record s { ledger = l })

  -- `T::Currency::unreserve(..)`, whose result is dropped
  abbrev unreserve : AccountId → ℕ → Call
  unreserve a n = modify λ s. record s { ledger = (T.currency.unreserve a n s.ledger).1 }

  -- `let _ = call`: an error is dropped
  abbrev ignore : Call → Call
  ignore m s =
      let (r, s') = m s in elim r [ ok u ↦ (ok tt, s') | err e ↦ (ok tt, s') | panic ↦ (panic, s') ]

  pub try_remove_server : AccountId → ℕ → Call
  unfolding position remove
  try_remove_server sender country = do
    server_list ← gets (get_servers_by_country country)
    elim (position (λ x. eqb T.account_discrete x sender) server_list) [
      | none ↦ pure tt
      | some index ↦ do
        insert_servers country (remove index server_list)
        deposit_event (server_removed sender country)
        node ← gets (get_device_info sender)
        insert_device sender (record node { country = 0 })
    ]

  -- the loop of `try_add_server`: `ensure!` on each item in turn
  pub ensure_absent : AccountId → List AccountId → Call
  ensure_absent sender [] = pure tt
  ensure_absent sender (item ∷ rest) =
      ensure (not (eqb T.account_discrete item sender)) "double registration not allowed!"
      >> ensure_absent sender rest

  pub try_add_server : AccountId → ℕ → Call
  unfolding ensure_absent
  try_add_server sender country = do
    server_list ← gets (get_servers_by_country country)
    ensure_absent sender server_list
    insert_servers country (server_list ++ sender ∷ [])
    deposit_event (server_added sender country)
    node ← gets (get_device_info sender)
    insert_device sender (record node { country = country })

  unfoldable pub register_device : Origin → List ℕ → ℕ → Call
  register_device origin ip country = do
    sender ← ensure_signed T.system origin
    reserve sender min_lock_amt
    insert_device sender (record { account_id = sender; ipv4 = ip; country = country })
    deposit_event (register_node sender ip country)

  pub unregister_device : Origin → Call
  unregister_device origin = do
    sender ← ensure_signed T.system origin
    registered ← gets (is_registered sender)
    ensure registered "device not registered!"
    node ← gets (get_device_info sender)
    ignore (try_remove_server sender node.country)
    remove_device sender
    unreserve sender min_lock_amt
    deposit_event (unregister_node sender)

  pub register_server : Origin → ℕ → Call
  register_server origin country = do
    sender ← ensure_signed T.system origin
    registered ← gets (is_registered sender)
    ensure registered "sender device needs register first"
    ignore (try_add_server sender country)

  pub unregister_server : Origin → ℕ → Call
  unregister_server origin country = do
    sender ← ensure_signed T.system origin
    registered ← gets (is_registered sender)
    ensure registered "sender device needs register first"
    ignore (try_remove_server sender country)
