-- ===== src/Micropayment/Message.antt =====
-- The bytes that a payment's signature covers in pallets/micropayment/src/lib.rs. The SCALE codec,
-- the hash and the signature scheme are other crates' and enter as a record of functions.
use e2_chain.Base.{
  ℕ, suc, ◌/◌, ◌%◌, ◌^◌, Bool, List, [], ◌∷◌, ◌++◌, length, ◌==◌, if◌then◌else◌, zero,
}
use e2_chain.Frame.{Dispatch, ok, panic}

pub record Crypto (AccountId : Type 0) : Type 0 where
  pub encode_account : AccountId → List ℕ
  pub encode_balance : ℕ → List ℕ
  pub blake2_256 : List ℕ → List ℕ
  -- signature, message, public key
  pub sr25519_verify : List ℕ → List ℕ → List ℕ → Bool

-- `to_be_bytes` of an integer of `w` bytes
unfoldable pub to_be_bytes : ℕ → ℕ → List ℕ
to_be_bytes zero n = []
to_be_bytes (suc w) n = (n / 256 ^ w % 256) ∷ to_be_bytes w n

-- `copy_from_slice` into an array of `n` bytes
abbrev pub copy_from_slice : {S : Type 0} → ℕ → List ℕ → Dispatch S (List ℕ)
copy_from_slice n slice s = (if length slice == n then ok slice else panic, s)

module _ {AccountId : Type 0} (C : Crypto AccountId) where
  -- the buffer `data` that is hashed
  unfoldable pub construct_byte_array : AccountId → ℕ → ℕ → ℕ → List ℕ
  construct_byte_array address nonce session_id amount =
      ((C.encode_account address ++ to_be_bytes 8 nonce) ++ to_be_bytes 4 session_id)
      ++ C.encode_balance amount

  unfoldable pub construct_byte_array_and_hash : AccountId → ℕ → ℕ → ℕ → List ℕ
  construct_byte_array_and_hash address nonce session_id amount =
      C.blake2_256 (construct_byte_array address nonce session_id amount)
