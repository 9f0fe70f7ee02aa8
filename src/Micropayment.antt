-- ===== src/Micropayment.antt =====
-- The one-way payment channels of pallets/micropayment/src/lib.rs. `State` holds the pallet's
-- storage, the ledger behind `T::Currency`, and the events deposited, the latest first. The time of
-- the block, `T::Timestamp::now()`, is the argument `now` of each call. A `Moment` is the runtime's
-- `u64`, in milliseconds; a duration is a `u32`, in seconds; a nonce is a `u64`.
pub mod Message
pub mod Encoding
pub mod Channels
pub mod Claims
pub mod Requests
pub mod Steps
pub mod Nonces
pub mod Replay
pub mod Invariant
pub mod Lifetime
pub mod Contract
pub mod Views
pub mod Simulation
pub mod Refinement
pub mod Widths
pub mod Ledgers
pub mod Waiting
pub mod Liveness
pub mod Settlement
pub mod Exposure
mod Tests
mod RunTests
mod ExposureTests
use e2_chain.Base.{
  ℕ, Bool, not, eqb, true, List, ◌∷◌, ltb, saturating_add, wrapping_add, wrapping_mul,
  if◌then◌else◌,
}
use e2_chain.Frame.{
  System, StorageMap, StorageDoubleMap, Currency, allow_death, contains_key, contains_keys, get,
  Dispatch, Ok, pure, gets, ensure, modify, ensure_signed, ◌>>=◌, ◌>>◌, Outcome, panic,
}
use Message.{Crypto, construct_byte_array_and_hash, copy_from_slice}

pub record Chan (AccountId : Type 0) : Type 0 where
  pub sender : AccountId
  pub receiver : AccountId
  pub nonce : ℕ
  pub opened : ℕ
  pub expiration : ℕ

pub data Event (AccountId : Type 0) : Type 0 where
  channel_opened : AccountId → AccountId → ℕ → ℕ → ℕ → Event AccountId
  channel_closed : AccountId → AccountId → ℕ → Event AccountId
  claim_payment_event : AccountId → AccountId → ℕ → Event AccountId

-- the pallet's `Trait`, with the store behind each of its maps and the primitives it calls
pub record Trait : Type 1 where
  pub system : System
  pub open system use *
  pub currency : Currency AccountId
  pub crypto : Crypto AccountId
  pub default_account : AccountId
  pub channel_map : StorageMap (AccountId × AccountId) (Chan AccountId)
  pub nonce_map : StorageMap (AccountId × AccountId) ℕ
  pub session_map : StorageDoubleMap (AccountId × AccountId) ℕ Bool

pub record State (T : Trait) : Type 0 where
  pub channels : T.channel_map.Map
  pub nonces : T.nonce_map.Map
  pub sessions : T.session_map.Map
  pub ledger : T.currency.Ledger
  pub events : List (Event T.AccountId)

module _ (T : Trait) where
  open T use {AccountId, Origin}

  abbrev pub Call : Type 0
  Call = Dispatch (State T) Ok

  -- `Channel::<T>::contains_key`
  abbrev pub has_channel : AccountId × AccountId → State T → Bool
  has_channel k s = contains_key T.channel_map k s.channels

  -- `get_channel`, whose default is the derived one
  abbrev pub get_channel : AccountId × AccountId → State T → Chan AccountId
  get_channel k s =
      get T.channel_map
        (record {
          sender = T.default_account;
          receiver = T.default_account;
          nonce = 0;
          opened = 0;
          expiration = 0;
        })
        k s.channels

  -- `get_nonce`
  abbrev pub get_nonce : AccountId × AccountId → State T → ℕ
  get_nonce k s = get T.nonce_map 0 k s.nonces

  -- `SessionId::<T>::contains_key`
  abbrev pub has_session : AccountId × AccountId → ℕ → State T → Bool
  has_session k id s = contains_keys T.session_map k id s.sessions

  abbrev insert_channel : AccountId × AccountId → Chan AccountId → Call
  insert_channel k c = modify λ s. record s { channels = T.channel_map.insert k c s.channels }

  abbrev remove_channel : AccountId × AccountId → Call
  remove_channel k = modify λ s. record s { channels = T.channel_map.remove k s.channels }

  abbrev insert_nonce : AccountId × AccountId → ℕ → Call
  insert_nonce k n = modify λ s. record s { nonces = T.nonce_map.insert k n s.nonces }

  abbrev insert_session : AccountId × AccountId → ℕ → Bool → Call
  insert_session k id b = modify λ s. record s { sessions = T.session_map.insert k id b s.sessions }

  abbrev remove_sessions : AccountId × AccountId → Call
  remove_sessions k = modify λ s. record s { sessions = T.session_map.remove_prefix k s.sessions }

  abbrev deposit_event : Event AccountId → Call
  deposit_event e = modify λ s. record s { events = e ∷ s.events }

  -- `T::Currency::transfer(.., AllowDeath)?`
  abbrev transfer : AccountId → AccountId → ℕ → Call
  transfer from to amount s =
      let (r, l) = T.currency.transfer from to amount allow_death s.ledger in
      (r, record s { ledger = l })

  -- `verify_signature`; a slice copied into an array of another length is a panic
  pub verify_signature : AccountId → AccountId → ℕ → ℕ → ℕ → List ℕ → Call
  verify_signature sender receiver nonce session_id amount signature = do
    pub_key ← copy_from_slice 32 (T.crypto.encode_account sender)
    sig ← copy_from_slice 64 signature
    let msg = construct_byte_array_and_hash T.crypto receiver nonce session_id amount
    let verified = T.crypto.sr25519_verify sig msg pub_key
    ensure verified "Fail to verify signature"

  -- `_close_channel`
  pub remove_all : AccountId → AccountId → Call
  remove_all sender receiver = do
    remove_sessions (sender, receiver)
    remove_channel (sender, receiver)

  pub open_channel : ℕ → Origin → AccountId → ℕ → Call
  open_channel now origin receiver duration = do
    sender ← ensure_signed T.system origin
    opened ← gets (has_channel (sender, receiver))
    ensure (not opened) "Channel already opened"
    ensure (not (eqb T.account_discrete sender receiver))
        "Channel should connect two different accounts"
    nonce ← gets (get_nonce (sender, receiver))
    let duration_in_mills = wrapping_mul 32 duration 1000
    let expiration = saturating_add 64 now duration_in_mills
    insert_channel (sender, receiver)
        (record {
          sender = sender;
          receiver = receiver;
          nonce = nonce;
          opened = now;
          expiration = expiration;
        })
    insert_nonce (sender, receiver) (wrapping_add 64 nonce 1)
    deposit_event (channel_opened sender receiver nonce now expiration)

  pub close_channel : ℕ → Origin → AccountId → Call
  unfolding remove_all
  close_channel now origin sender = do
    receiver ← ensure_signed T.system origin
    exists ← gets (has_channel (sender, receiver))
    ensure exists "Channel not exists"
    remove_all sender receiver
    deposit_event (channel_closed sender receiver now)

  pub claim_payment : ℕ → Origin → AccountId → ℕ → ℕ → List ℕ → Call
  unfolding remove_all
  claim_payment now origin sender session_id amount signature = do
    receiver ← ensure_signed T.system origin
    exists ← gets (has_channel (sender, receiver))
    ensure exists "Channel not exists"
    chan ← gets (get_channel (sender, receiver))
    if ltb chan.expiration now
        then (do remove_all sender receiver; deposit_event (channel_closed sender receiver now))
        else (do
          consumed ← gets (has_session (sender, receiver) session_id)
          ensure (not consumed) "SessionID already consumed"
          verify_signature sender receiver chan.nonce session_id amount signature
          transfer sender receiver amount
          insert_session (sender, receiver) session_id true
          deposit_event (claim_payment_event sender receiver amount))
