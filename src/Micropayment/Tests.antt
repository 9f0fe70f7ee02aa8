-- ===== src/Micropayment/Tests.antt =====
-- Concrete calls of pallets/micropayment/src/lib.rs, on stores that are functions, with a ledger that
-- records nothing and a signature scheme that accepts everything.
use e2_chain.Base.{
  ℕ, zero, suc, ◌^◌, ◌<◌, ◌≡◌, ◌≢◌, ◌≤◌, ◌⊎◌, refl, sym, ap, ◌∙◌, Bool, true, false, some, arith,
  ℕ_discrete, List, [], ◌∷◌, discrete_pair,
}
use e2_chain.Frame.{test_system, fun_map, fun_double_map, ok, panic}
use e2_chain.Micropayment.{
  Trait, State, has_channel, get_channel, has_session, open_channel, close_channel, claim_payment,
  verify_signature,
}
use e2_chain.Micropayment.Message.{
  Crypto, to_be_bytes, construct_byte_array, construct_byte_array_and_hash,
}
use e2_chain.Micropayment.Encoding.{
  IsFaithful, from_be_bytes, from_be_bytes-to_be_bytes, construct_byte_array-injective,
  length-to_be_bytes,
}
use e2_chain.Micropayment.Channels.{CanOpen, closed}
use e2_chain.Micropayment.Claims.{IsClaim, CanPay, paid, claim_payment-panics}
use e2_chain.Micropayment.Requests.{opens, closes, claims, Extrinsic, dispatch, run}
use e2_chain.Micropayment.Replay.{genesis}
use e2_chain.Micropayment.Lifetime.{open_channel-expires_early, claim_payment-outcomes}

-- Account ids and balances as bytes of a fixed length.
abbrev test_crypto : Crypto ℕ
test_crypto = record {
  encode_account = to_be_bytes 32;
  encode_balance = to_be_bytes 16;
  blake2_256 = λ bytes. bytes;
  sr25519_verify = λ signature message key. true;
}

abbrev pub test_trait : Trait
test_trait = record {
  system = test_system ℕ_discrete;
  currency = record { Ledger = Unit; transfer = λ a b n e l. (ok tt, l) };
  crypto = test_crypto;
  default_account = 0;
  channel_map = fun_map (discrete_pair ℕ_discrete ℕ_discrete);
  nonce_map = fun_map (discrete_pair ℕ_discrete ℕ_discrete);
  session_map =
      fun_double_map (discrete_pair ℕ_discrete ℕ_discrete)
        (discrete_pair (discrete_pair ℕ_discrete ℕ_discrete) ℕ_discrete);
}

abbrev pub start : State test_trait
start = genesis test_trait tt

abbrev pub bytes : ℕ → List ℕ
bytes zero = []
bytes (suc n) = 0 ∷ bytes n

-- Account 1 opens a channel to account 2 at time 1000, for ten seconds; account 2 claims 5 twice in
-- session 7.
abbrev pub history : List (Extrinsic test_trait)
history =
    record { now = 1000; origin = some 1; request = opens 2 10 }
    ∷ record { now = 2000; origin = some 2; request = claims 1 7 5 (bytes 64) }
    ∷ record { now = 3000; origin = some 2; request = claims 1 7 5 (bytes 64) }
    ∷ []

-- The channel of `history`, open.
abbrev opened : State test_trait
opened = record start {
  channels =
      test_trait.channel_map.insert (1, 2)
        (record { sender = 1; receiver = 2; nonce = 0; opened = 1000; expiration = 11000 })
        start.channels;
}

opened-IsClaim : IsClaim test_trait (some 2) 1 2 opened
unfolding discrete_pair ℕ_discrete
opened-IsClaim = record { signed = refl; opened = refl }

start-CanOpen : CanOpen test_trait (some 1) 1 2 start
start-CanOpen = record { signed = refl; unopened = refl; different = λ e. omega arith }

claim_payment-outcomes_example :
    let (r, s) = claim_payment test_trait 2000 (some 2) 1 7 5 (bytes 64) opened in
    ((get_channel test_trait (1, 2) opened).expiration < 2000
      × (r ≡ ok tt)
      × (s ≡ closed test_trait 2000 1 2 opened))
    ⊎ (CanPay test_trait 2000 (some 2) 1 2 7 5 (bytes 64) opened
        × (r ≡ ok tt)
        × (s ≡ paid test_trait 1 2 7 5 opened))
    ⊎ ((2000 ≤ (get_channel test_trait (1, 2) opened).expiration)
        × ¬ CanPay test_trait 2000 (some 2) 1 2 7 5 (bytes 64) opened
        × (r ≢ ok tt)
        × (s.channels ≡ opened.channels)
        × (s.nonces ≡ opened.nonces)
        × (s.sessions ≡ opened.sessions)
        × (s.events ≡ opened.events))
claim_payment-outcomes_example =
    claim_payment-outcomes test_trait 2000 (some 2) 1 2 7 5 (bytes 64) opened opened-IsClaim

claim_payment-panics_example :
    claim_payment test_trait 2000 (some 2) 1 7 5 (bytes 63) opened ≡ (panic, opened)
unfolding discrete_pair ℕ_discrete
claim_payment-panics_example =
    claim_payment-panics test_trait 2000 (some 2) 1 2 7 5 (bytes 63) opened opened-IsClaim
      (ground arith) refl (λ e. omega arith)

-- Two accounts, each of 32 bytes.
abbrev pub number : Bool → ℕ
number true = 1
number false = 0

abbrev pub two_accounts : Crypto Bool
two_accounts = record {
  encode_account = λ b. to_be_bytes 32 (number b);
  encode_balance = to_be_bytes 16;
  blake2_256 = λ message. message;
  sr25519_verify = λ signature message key. true;
}

number-small : (b : Bool) → number b < 256 ^ 32
number-small true = omega arith
number-small false = omega arith

number-injective : (a b : Bool) → number a ≡ number b → a ≡ b
number-injective true true e = refl
number-injective true false e = absurd (omega arith)
number-injective false true e = absurd (omega arith)
number-injective false false e = refl

to_be_bytes-injective :
    (w m n : ℕ) → m < 256 ^ w → n < 256 ^ w → to_be_bytes w m ≡ to_be_bytes w n → m ≡ n
to_be_bytes-injective w m n hm hn e =
    sym (from_be_bytes-to_be_bytes w m hm) ∙ ap from_be_bytes e ∙ from_be_bytes-to_be_bytes w n hn

pub two_accounts-IsFaithful : IsFaithful two_accounts
two_accounts-IsFaithful = record {
  account_length = λ a. length-to_be_bytes 32 (number a);
  account_injective = λ a b e.
      number-injective a b
        (to_be_bytes-injective 32 (number a) (number b) (number-small a) (number-small b) e);
  balance_injective = λ m n hm hn e. to_be_bytes-injective 16 m n (omega arith) (omega arith) e;
}

construct_byte_array-injective_example :
    (true ≡ true) × (◌≡◌ {A = ℕ} 3 3) × (◌≡◌ {A = ℕ} 7 7) × (◌≡◌ {A = ℕ} 500 500)
construct_byte_array-injective_example =
    construct_byte_array-injective two_accounts two_accounts-IsFaithful true true 3 3 7 7 500 500
      (omega arith) (omega arith) (omega arith) (omega arith) (omega arith) (omega arith) refl

from_be_bytes-to_be_bytes_example : from_be_bytes (to_be_bytes 4 305419896) ≡ 305419896
from_be_bytes-to_be_bytes_example = from_be_bytes-to_be_bytes 4 305419896 (omega arith)

abbrev pub first : List (Extrinsic test_trait)
first =
    record { now = 1000; origin = some 1; request = opens 2 10 }
    ∷ record { now = 2000; origin = some 2; request = claims 1 7 5 (bytes 64) }
    ∷ []

first-opens : has_channel test_trait (1, 2) (run test_trait first start) ≡ true
unfolding run dispatch open_channel claim_payment verify_signature construct_byte_array_and_hash
    construct_byte_array to_be_bytes discrete_pair ℕ_discrete
first-opens = refl

first-claims : has_session test_trait (1, 2) 7 (run test_trait first start) ≡ true
unfolding run dispatch open_channel claim_payment verify_signature construct_byte_array_and_hash
    construct_byte_array to_be_bytes discrete_pair ℕ_discrete
first-claims = refl

start-opens :
    has_channel test_trait (1, 2) (dispatch test_trait 1000 (some 1) (opens 2 10) start).1 ≡ true
unfolding dispatch open_channel discrete_pair ℕ_discrete
start-opens = refl

opened-closes :
    has_channel test_trait (1, 2) (dispatch test_trait 2000 (some 2) (closes 1) opened).1 ≡ false
unfolding dispatch close_channel discrete_pair ℕ_discrete
opened-closes = refl

open_channel-expires_early_example :
    let s = (open_channel test_trait 1000 (some 1) 2 5000000 start).1 in
    (get_channel test_trait (1, 2) s).expiration < 5000001000
open_channel-expires_early_example =
    open_channel-expires_early test_trait 1000 (some 1) 1 2 5000000 start start-CanOpen
      (omega arith)
