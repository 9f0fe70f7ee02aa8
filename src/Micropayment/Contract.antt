-- ===== src/Micropayment/Contract.antt =====
-- What pallets/micropayment/src/lib.rs promises to a sender and a receiver: one contract for each
-- pair of accounts, which is idle or open, and what a request makes of it.
use e2_chain.Base.{
  ℕ, ◌≡◌, Bool, true, false, not, ◌&&◌, ite, if◌then◌else◌, eqb, ltb, ◌==◌, Option, none, some,
  List, length, ℕ_discrete, wrapping_add, saturating_add, wrapping_mul,
}
use e2_chain.Micropayment.Message.{Crypto, construct_byte_array_and_hash}
use e2_chain.Micropayment.Requests.{Request, opens, closes, claims}

-- The terms of an open channel.
pub record Terms : Type 0 where
  pub nonce : ℕ
  pub opened : ℕ
  pub expiration : ℕ

pub record Contract : Type 0 where
  pub next_nonce : ℕ
  pub terms : Option Terms
  -- the sessions that were paid
  pub used : ℕ → Bool

-- Equal in every part.
pub record IsSame (c d : Contract) : Type 0 where
  pub next_nonce : c.next_nonce ≡ d.next_nonce
  pub terms : c.terms ≡ d.terms
  pub used : (id : ℕ) → c.used id ≡ d.used id

pub IsSame-eq : (c d : Contract) → IsSame c d → c ≡ d
IsSame-eq c d h =
    λ i. record { next_nonce = h.next_nonce i; terms = h.terms i; used = λ id. h.used id i }

abbrev pub idle : Contract
idle = record { next_nonce = 0; terms = none; used = λ id. false }

-- The channel ends, and its sessions are forgotten.
abbrev pub ended : Contract → Contract
ended c = record c { terms = none; used = λ id. false }

abbrev pub marked : ℕ → Contract → Contract
marked id c = record c { used = λ j. ite (ℕ_discrete id j) true (c.used j) }

abbrev pub begun : ℕ → ℕ → Contract → Contract
begun now expiration c = record c {
  next_nonce = wrapping_add 64 c.next_nonce 1;
  terms = some (record { nonce = c.next_nonce; opened = now; expiration = expiration });
}

module _ {A : Type 0} (C : Crypto A) where
  -- The sender signed the claim, in a form that the code can read.
  abbrev pub is_genuine : A → A → ℕ → ℕ → ℕ → List ℕ → Bool
  is_genuine sender receiver nonce id amount signature =
      (length (C.encode_account sender) == 32)
      && ((length signature == 64)
          && C.sr25519_verify signature (construct_byte_array_and_hash C receiver nonce id amount)
              (C.encode_account sender))

  -- A claim at a time, where the ledger may let the transfer through.
  abbrev pub claim : ℕ → A → A → ℕ → ℕ → List ℕ → Bool → Contract → Contract
  claim now sender receiver id amount signature funded c = elim c.terms [
    | none ↦ c
    | some t ↦
        if ltb t.expiration now
        then ended c
        else if not (c.used id)
            && (is_genuine sender receiver t.nonce id amount signature && funded)
        then marked id c
        else c
  ]

module _ {A : Type 0} (d : Discrete A) (C : Crypto A) where
  -- What a request that `who` signed makes of the contract of a pair, itself included. It is about
  -- one pair, and leaves the others alone.
  abbrev pub act : ℕ → A → Request A → Bool → A → A → Contract → Contract
  act now who (opens receiver duration) funded a b c =
      if eqb d who a && (eqb d receiver b && not (eqb d a b))
      then elim c.terms [
        | none ↦ begun now (saturating_add 64 now (wrapping_mul 32 duration 1000)) c
        | some t ↦ c
      ]
      else c
  act now who (closes sender) funded a b c =
      if eqb d sender a && eqb d who b then elim c.terms [ none ↦ c | some t ↦ ended c ] else c
  act now who (claims sender id amount signature) funded a b c =
      if eqb d sender a && eqb d who b
      then claim C now sender who id amount signature funded c
      else c

  -- Nothing happens for a request that nobody signed.
  abbrev pub step : ℕ → Option A → Request A → Bool → A → A → Contract → Contract
  step now none r funded a b c = c
  step now (some who) r funded a b c = act now who r funded a b c
