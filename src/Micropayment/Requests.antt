-- ===== src/Micropayment/Requests.antt =====
-- Extrinsics to the pallet of pallets/micropayment/src/lib.rs at their times, one after another, as
-- `decl_module!` dispatches them, and the payments that a sequence of them makes.
use e2_chain.Base.{ℕ, List, [], ◌∷◌, Option, none, some, ltb, if◌then◌else◌}
use e2_chain.Frame.{Ok, Outcome, ok, err, panic}
use e2_chain.Micropayment.{
  Trait, State, Chan, Call, get_channel, open_channel, close_channel, claim_payment,
}

-- The pallet's `enum Call`.
pub data Request (AccountId : Type 0) : Type 0 where
  opens : AccountId → ℕ → Request AccountId
  closes : AccountId → Request AccountId
  claims : AccountId → ℕ → ℕ → List ℕ → Request AccountId

-- A request, the time of its block, and its origin.
pub record Extrinsic (T : Trait) : Type 0 where
  pub now : ℕ
  pub origin : T.Origin
  pub request : Request T.AccountId

-- What a payment is for: sender, receiver, nonce of the channel, session.
pub record Payment (AccountId : Type 0) : Type 0 where
  pub sender : AccountId
  pub receiver : AccountId
  pub nonce : ℕ
  pub session : ℕ

module _ (T : Trait) where
  open T use {AccountId, Origin, signer}

  unfoldable pub dispatch : ℕ → Origin → Request AccountId → Call T
  dispatch now o (opens receiver duration) = open_channel T now o receiver duration
  dispatch now o (closes sender) = close_channel T now o sender
  dispatch now o (claims sender id amount signature) =
      claim_payment T now o sender id amount signature

  abbrev pub after : Extrinsic T → State T → State T
  after x s = (dispatch x.now x.origin x.request s).1

  -- The state after a sequence of extrinsics.
  unfoldable pub run : List (Extrinsic T) → State T → State T
  run [] s = s
  run (x ∷ xs) s = run xs (after x s)

  claimed : ℕ → AccountId → ℕ → AccountId → Chan AccountId → Outcome Ok → Option (Payment AccountId)
  claimed now sender id receiver chan (ok _) =
      if ltb chan.expiration now
      then none
      else some (record { sender = sender; receiver = receiver; nonce = chan.nonce; session = id })
  claimed now sender id receiver chan (err _) = none
  claimed now sender id receiver chan panic = none

  -- The payment that an extrinsic makes: a claim that succeeds on a channel that has not expired.
  unfoldable pub payment : ℕ → Origin → Request AccountId → State T → Option (Payment AccountId)
  unfolding claimed
  payment now o (opens receiver duration) s = none
  payment now o (closes sender) s = none
  payment now o (claims sender id amount signature) s = elim (signer o) [
    | none ↦ none
    | some receiver ↦
        claimed now sender id receiver (get_channel T (sender, receiver) s)
          (claim_payment T now o sender id amount signature s).0
  ]

  abbrev pub add_payment :
      Option (Payment AccountId) → List (Payment AccountId) → List (Payment AccountId)
  add_payment none ps = ps
  add_payment (some p) ps = p ∷ ps

  -- The payments of a sequence of extrinsics, in order.
  unfoldable pub payments : List (Extrinsic T) → State T → List (Payment AccountId)
  payments [] s = []
  payments (x ∷ xs) s = add_payment (payment x.now x.origin x.request s) (payments xs (after x s))
