-- ===== src/Micropayment/Claims.antt =====
-- `claim_payment` of pallets/micropayment/src/lib.rs on each of its branches.
use e2_chain.Base.{ℕ, ◌≤◌, ◌<◌, ◌≡◌, ◌≢◌, ◌↔◌, true, false, some, arith, ◌∷◌, List, length}
use e2_chain.Frame.{ok, panic, allow_death}
use e2_chain.Micropayment.{
  Trait, State, has_channel, get_channel, has_session, claim_payment_event, claim_payment,
  verify_signature,
}
use e2_chain.Micropayment.Message.{construct_byte_array_and_hash}
use e2_chain.Micropayment.Channels.{closed}

module _ (T : Trait) where
  open T use {AccountId, Origin, signer, account_discrete, crypto, currency}

  -- `receiver` signed the claim, and its channel from `sender` is open.
  pub record IsClaim (o : Origin) (sender receiver : AccountId) (s : State T) : Type 0 where
    pub signed : signer o ≡ some receiver
    pub opened : has_channel T (sender, receiver) s ≡ true

  -- The claim is signed by the sender for the channel's nonce.
  pub record IsSigned (sender receiver : AccountId) (nonce id amount : ℕ) (signature : List ℕ)
      : Type 0 where
    pub key_length : length (crypto.encode_account sender) ≡ 32
    pub signature_length : length signature ≡ 64
    pub verified :
        crypto.sr25519_verify signature
          (construct_byte_array_and_hash crypto receiver nonce id amount)
          (crypto.encode_account sender)
        ≡ true

  pub verify_signature-succeeds :
      (sender receiver : AccountId) (nonce id amount : ℕ) (signature : List ℕ) (s : State T)
      → ((verify_signature T sender receiver nonce id amount signature s).0 ≡ ok tt)
        ↔ IsSigned sender receiver nonce id amount signature
  unfolding verify_signature
  verify_signature-succeeds sender receiver nonce id amount signature s = ground arith

  pub verify_signature-pure :
      (sender receiver : AccountId) (nonce id amount : ℕ) (signature : List ℕ) (s : State T)
      → (verify_signature T sender receiver nonce id amount signature s).1 ≡ s
  unfolding verify_signature
  verify_signature-pure sender receiver nonce id amount signature s = ground arith

  -- The conditions under which a claim is paid.
  pub record CanPay (now : ℕ) (o : Origin) (sender receiver : AccountId) (id amount : ℕ)
      (signature : List ℕ) (s : State T) : Type 0 where
    pub claim : IsClaim o sender receiver s
    pub open claim use *
    pub live : now ≤ (get_channel T (sender, receiver) s).expiration
    pub unused : has_session T (sender, receiver) id s ≡ false
    pub authentic :
        IsSigned sender receiver (get_channel T (sender, receiver) s).nonce id amount signature
    pub transferred : (currency.transfer sender receiver amount allow_death s.ledger).0 ≡ ok tt

  -- The state after a payment.
  abbrev pub paid : AccountId → AccountId → ℕ → ℕ → State T → State T
  paid sender receiver id amount s = record s {
    ledger = (currency.transfer sender receiver amount allow_death s.ledger).1;
    sessions = T.session_map.insert (sender, receiver) id true s.sessions;
    events = claim_payment_event sender receiver amount ∷ s.events;
  }

  pub claim_payment-expired :
      (now : ℕ) (o : Origin) (sender receiver : AccountId) (id amount : ℕ) (signature : List ℕ)
      (s : State T)
      → IsClaim o sender receiver s
      → (get_channel T (sender, receiver) s).expiration < now
      → claim_payment T now o sender id amount signature s ≡ (ok tt, closed T now sender receiver s)
  unfolding claim_payment
  claim_payment-expired now o sender receiver id amount signature s c h = ground arith

  pub claim_payment-pays :
      (now : ℕ) (o : Origin) (sender receiver : AccountId) (id amount : ℕ) (signature : List ℕ)
      (s : State T)
      → CanPay now o sender receiver id amount signature s
      → claim_payment T now o sender id amount signature s
        ≡ (ok tt, paid sender receiver id amount s)
  unfolding claim_payment
  claim_payment-pays now o sender receiver id amount signature s can = ground (
    arith,
    verify_signature-succeeds sender receiver (get_channel T (sender, receiver) s).nonce id amount
        signature s,
    verify_signature-pure sender receiver (get_channel T (sender, receiver) s).nonce id amount
        signature s,
  )

  pub claim_payment-succeeds :
      (now : ℕ) (o : Origin) (sender receiver : AccountId) (id amount : ℕ) (signature : List ℕ)
      (s : State T)
      → IsClaim o sender receiver s
      → now ≤ (get_channel T (sender, receiver) s).expiration
      → (claim_payment T now o sender id amount signature s).0 ≡ ok tt
      → CanPay now o sender receiver id amount signature s
  unfolding claim_payment
  claim_payment-succeeds now o sender receiver id amount signature s c live h = ground (
    arith,
    verify_signature-succeeds sender receiver (get_channel T (sender, receiver) s).nonce id amount
        signature s,
    verify_signature-pure sender receiver (get_channel T (sender, receiver) s).nonce id amount
        signature s,
  )

  pub claim_payment-refused :
      (now : ℕ) (o : Origin) (sender : AccountId) (id amount : ℕ) (signature : List ℕ) (s : State T)
      → let (r, s') = claim_payment T now o sender id amount signature s in
        r ≢ ok tt
        → (s'.channels ≡ s.channels)
          × (s'.nonces ≡ s.nonces)
          × (s'.sessions ≡ s.sessions)
          × (s'.events ≡ s.events)
  unfolding claim_payment verify_signature
  claim_payment-refused now o sender id amount signature s h = ground arith

  -- A claim of the receiver on an open channel that has not expired, for an unused session,
  -- panics and changes nothing if the signature is not 64 bytes long.
  pub claim_payment-panics :
      (now : ℕ) (o : Origin) (sender receiver : AccountId) (id amount : ℕ) (signature : List ℕ)
      (s : State T)
      → IsClaim o sender receiver s
      → now ≤ (get_channel T (sender, receiver) s).expiration
      → has_session T (sender, receiver) id s ≡ false
      → length signature ≢ 64
      → claim_payment T now o sender id amount signature s ≡ (panic, s)
  unfolding claim_payment verify_signature
  claim_payment-panics now o sender receiver id amount signature s c live u h = ground arith
