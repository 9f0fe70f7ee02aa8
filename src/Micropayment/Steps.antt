-- ===== src/Micropayment/Steps.antt =====
-- What one extrinsic can do to the channels, nonces and sessions of pallets/micropayment/src/lib.rs:
-- nothing, open a channel, close one, or mark a session as used.
use e2_chain.Base.{
  ℕ, ◌≡◌, ◌≢◌, inl, inr, refl, true, false, some, arith, Option-cases, Bool-cases, ltb,
  wrapping_add, List,
}
use e2_chain.Frame.{ok, Outcome-cases}
use e2_chain.Micropayment.{
  Trait, State, has_channel, get_channel, get_nonce, open_channel, close_channel, claim_payment,
}
use e2_chain.Micropayment.Channels.{
  CanOpen, open_channel-writes, open_channel-atomic, close_channel-succeeds, close_channel-atomic,
  fresh_channel,
}
use e2_chain.Micropayment.Claims.{
  IsClaim, claim_payment-expired, claim_payment-pays, claim_payment-succeeds, claim_payment-refused,
}
use e2_chain.Micropayment.Requests.{Request, opens, closes, claims, dispatch}

module _ (T : Trait) where
  open T use {AccountId, Origin, signer}

  pub data Change (o : Origin) (s s' : State T) : Type 0 where
    nothing :
        s'.channels ≡ s.channels → s'.nonces ≡ s.nonces → s'.sessions ≡ s.sessions → Change o s s'
    opening :
        (now : ℕ) (sender receiver : AccountId) (duration : ℕ)
        → signer o ≡ some sender
        → has_channel T (sender, receiver) s ≡ false
        → sender ≢ receiver
        → s'.channels
          ≡ T.channel_map.insert
              (sender, receiver)
              (fresh_channel T now sender receiver duration s)
              s.channels
        → s'.nonces
          ≡ T.nonce_map.insert
              (sender, receiver)
              (wrapping_add 64 (get_nonce T (sender, receiver) s) 1)
              s.nonces
        → s'.sessions ≡ s.sessions
        → Change o s s'
    closing :
        (k : AccountId × AccountId)
        → signer o ≡ some k.1
        → s'.channels ≡ T.channel_map.remove k s.channels
        → s'.nonces ≡ s.nonces
        → s'.sessions ≡ T.session_map.remove_prefix k s.sessions
        → Change o s s'
    paying :
        (k : AccountId × AccountId) (id : ℕ)
        → signer o ≡ some k.1
        → has_channel T k s ≡ true
        → s'.channels ≡ s.channels
        → s'.nonces ≡ s.nonces
        → s'.sessions ≡ T.session_map.insert k id true s.sessions
        → Change o s s'

  pub open_channel-signed :
      (now : ℕ) (o : Origin) (receiver : AccountId) (duration : ℕ) (s : State T)
      → (open_channel T now o receiver duration s).0 ≡ ok tt
      → (sender : AccountId) × CanOpen T o sender receiver s
  unfolding open_channel
  open_channel-signed now o receiver duration s h = elim (Option-cases (signer o)) [
    | inl e ↦ absurd (ground arith)
    | inr (a, e) ↦ (a, ground arith)
  ]

  open_channel-Change :
      (now : ℕ) (o : Origin) (receiver : AccountId) (duration : ℕ) (s : State T)
      → Change o s (open_channel T now o receiver duration s).1
  open_channel-Change now o receiver duration s =
      elim (Outcome-cases (open_channel T now o receiver duration s).0) [
        | inl done ↦
            let (sender, can) = open_channel-signed now o receiver duration s done in
            rw (open_channel-writes T now o sender receiver duration s can) (
              opening now sender receiver duration can.signed can.unopened can.different refl refl
                refl)
        | inr failed ↦
            rw (open_channel-atomic T now o receiver duration s failed) (nothing refl refl refl)
      ]

  pub close_channel-signed :
      (now : ℕ) (o : Origin) (sender : AccountId) (s : State T)
      → (close_channel T now o sender s).0 ≡ ok tt
      → (receiver : AccountId) × IsClaim T o sender receiver s
  unfolding close_channel
  close_channel-signed now o sender s h = elim (Option-cases (signer o)) [
    | inl e ↦ absurd (ground arith)
    | inr (a, e) ↦ (a, ground arith)
  ]

  close_channel-Change :
      (now : ℕ) (o : Origin) (sender : AccountId) (s : State T)
      → Change o s (close_channel T now o sender s).1
  close_channel-Change now o sender s = elim (Outcome-cases (close_channel T now o sender s).0) [
    | inl done ↦
        let (receiver, c) = close_channel-signed now o sender s done in
        rw (close_channel-succeeds T now o sender receiver s c.signed c.opened)
          (closing (sender, receiver) c.signed refl refl refl)
    | inr failed ↦ rw (close_channel-atomic T now o sender s failed) (nothing refl refl refl)
  ]

  pub claim_payment-signed :
      (now : ℕ) (o : Origin) (sender : AccountId) (id amount : ℕ) (signature : List ℕ) (s : State T)
      → (claim_payment T now o sender id amount signature s).0 ≡ ok tt
      → (receiver : AccountId) × IsClaim T o sender receiver s
  unfolding claim_payment
  claim_payment-signed now o sender id amount signature s h = elim (Option-cases (signer o)) [
    | inl e ↦ absurd (ground arith)
    | inr (a, e) ↦ (a, ground arith)
  ]

  claim_payment-Change_ok :
      (now : ℕ) (o : Origin) (sender receiver : AccountId) (id amount : ℕ) (signature : List ℕ)
      (s : State T)
      → (claim_payment T now o sender id amount signature s).0 ≡ ok tt
      → IsClaim T o sender receiver s
      → Change o s (claim_payment T now o sender id amount signature s).1
  claim_payment-Change_ok now o sender receiver id amount signature s done c =
      elim (Bool-cases (ltb (get_channel T (sender, receiver) s).expiration now)) [
        | inl late ↦
            rw
              (claim_payment-expired T now o sender receiver id amount signature s c (ground arith))
              (closing (sender, receiver) c.signed refl refl refl)
        | inr live ↦
            let can =
              claim_payment-succeeds T now o sender receiver id amount signature s c (ground arith)
                done in
            rw (claim_payment-pays T now o sender receiver id amount signature s can)
              (paying (sender, receiver) id c.signed c.opened refl refl refl)
      ]

  claim_payment-Change :
      (now : ℕ) (o : Origin) (sender : AccountId) (id amount : ℕ) (signature : List ℕ) (s : State T)
      → Change o s (claim_payment T now o sender id amount signature s).1
  claim_payment-Change now o sender id amount signature s =
      elim (Outcome-cases (claim_payment T now o sender id amount signature s).0) [
        | inl done ↦
            let (receiver, c) = claim_payment-signed now o sender id amount signature s done in
            claim_payment-Change_ok now o sender receiver id amount signature s done c
        | inr failed ↦
            let same = claim_payment-refused T now o sender id amount signature s failed in
            nothing same.0 same.1 same.2
      ]

  pub dispatch-Change :
      (now : ℕ) (o : Origin) (r : Request AccountId) (s : State T)
      → Change o s (dispatch T now o r s).1
  unfolding dispatch
  dispatch-Change now o (opens receiver duration) s = open_channel-Change now o receiver duration s
  dispatch-Change now o (closes sender) s = close_channel-Change now o sender s
  dispatch-Change now o (claims sender id amount signature) s =
      claim_payment-Change now o sender id amount signature s
