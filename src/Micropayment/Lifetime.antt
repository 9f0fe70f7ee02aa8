-- ===== src/Micropayment/Lifetime.antt =====
-- How long a channel of pallets/micropayment/src/lib.rs lives, and what a claim does over its life.
use e2_chain.Base.{
  ℕ, ◌+◌, ◌*◌, ◌≤◌, ◌<◌, ◌^◌, ◌≡◌, ◌≢◌, ◌⊎◌, inl, inr, refl, true, false, some, arith, ap, List,
  Bool-cases, ltb, ◌∙◌, is_some, sym, unwrap_or, wrapping_add, ◌%◌,
}
use e2_chain.Frame.{ok, Outcome-cases}
use e2_chain.Micropayment.{
  Trait, State, has_channel, get_channel, get_nonce, has_session, open_channel, close_channel,
  claim_payment,
}
use e2_chain.Micropayment.Channels.{
  CanOpen, open_channel-writes, close_channel-succeeds, closed, fresh_channel, expiration_of,
}
use e2_chain.Micropayment.Claims.{
  IsClaim, CanPay, paid, claim_payment-expired, claim_payment-pays, claim_payment-succeeds,
  claim_payment-refused,
}

module _ (T : Trait) where
  open T use {AccountId, Origin, signer}

  pub expiration_of-exact :
      (now duration : ℕ)
      → duration * 1000 < 2 ^ 32
      → now + duration * 1000 < 2 ^ 64
      → expiration_of T now duration ≡ now + duration * 1000
  expiration_of-exact now duration h k = omega arith

  -- If a channel can be opened, and its duration in milliseconds fits in 32 bits and its end in
  -- 64, the call succeeds, stores the channel with the next nonce of the pair and with the end
  -- as its expiration, counts the nonce up, modulo 2 ^ 64, and leaves the channel and nonce of
  -- any other pair as they were.
  pub open_channel-opens :
      (now : ℕ) (o : Origin) (sender receiver : AccountId) (duration : ℕ) (s : State T)
      → CanOpen T o sender receiver s
      → duration * 1000 < 2 ^ 32
      → now + duration * 1000 < 2 ^ 64
      → (j : AccountId × AccountId) → j ≢ (sender, receiver)
      → let (r, s') = open_channel T now o receiver duration s in
        (r ≡ ok tt)
        × (T.channel_map.lookup (sender, receiver) s'.channels
            ≡ some (record {
              sender = sender;
              receiver = receiver;
              nonce = get_nonce T (sender, receiver) s;
              opened = now;
              expiration = now + duration * 1000;
            }))
        × (get_nonce T (sender, receiver) s' ≡ (get_nonce T (sender, receiver) s + 1) % 2 ^ 64)
        × (T.channel_map.lookup j s'.channels ≡ T.channel_map.lookup j s.channels)
        × (get_nonce T j s' ≡ get_nonce T j s)
  open_channel-opens now o sender receiver duration s can h k j n =
      rw (open_channel-writes T now o sender receiver duration s can) (
        refl,
        T.channel_map.lookup-insert_self (sender, receiver)
              (fresh_channel T now sender receiver duration s) s.channels
            ∙ ap some (ground (arith, expiration_of-exact now duration h k)),
        ap (unwrap_or 0) (
            T.nonce_map.lookup-insert_self (sender, receiver)
              (wrapping_add 64 (get_nonce T (sender, receiver) s) 1) s.nonces),
        T.channel_map.lookup-insert_ne j (sender, receiver)
            (fresh_channel T now sender receiver duration s) s.channels (λ p. n (sym p)),
        ap (unwrap_or 0) (
            T.nonce_map.lookup-insert_ne j (sender, receiver)
              (wrapping_add 64 (get_nonce T (sender, receiver) s) 1) s.nonces (λ p. n (sym p))),
      )

  -- If a channel can be opened and its duration in milliseconds does not fit in 32 bits, it gets
  -- an expiration before the end of that duration.
  pub open_channel-expires_early :
      (now : ℕ) (o : Origin) (sender receiver : AccountId) (duration : ℕ) (s : State T)
      → CanOpen T o sender receiver s
      → 2 ^ 32 ≤ duration * 1000
      → (get_channel T (sender, receiver) (open_channel T now o receiver duration s).1).expiration
        < now + duration * 1000
  open_channel-expires_early now o sender receiver duration s can h =
      rw (open_channel-writes T now o sender receiver duration s can) (
        ground (
          arith,
          T.channel_map.lookup-insert_self (sender, receiver)
              (fresh_channel T now sender receiver duration s) s.channels,
        ))

  -- If the receiver of an existing channel closes it, the call succeeds, the channel and its
  -- sessions are gone, the channel and the sessions of any other pair stay, and so do the nonces
  -- and the ledger.
  pub close_channel-forgets :
      (now : ℕ) (o : Origin) (sender receiver : AccountId) (s : State T)
      → signer o ≡ some receiver
      → has_channel T (sender, receiver) s ≡ true
      → (id : ℕ) (k : AccountId × AccountId) → k ≢ (sender, receiver)
      → let (r, s') = close_channel T now o sender s in
        (r ≡ ok tt)
        × (has_channel T (sender, receiver) s' ≡ false)
        × (has_session T (sender, receiver) id s' ≡ false)
        × (T.channel_map.lookup k s'.channels ≡ T.channel_map.lookup k s.channels)
        × (has_session T k id s' ≡ has_session T k id s)
        × (s'.nonces ≡ s.nonces)
        × (s'.ledger ≡ s.ledger)
  close_channel-forgets now o sender receiver s e h id k n =
      rw (close_channel-succeeds T now o sender receiver s e h) (
        refl,
        ap is_some (T.channel_map.lookup-remove_self (sender, receiver) s.channels),
        ap is_some (T.session_map.lookup-remove_prefix_self (sender, receiver) id s.sessions),
        T.channel_map.lookup-remove_ne k (sender, receiver) s.channels (λ p. n (sym p)),
        ap is_some (
            T.session_map.lookup-remove_prefix_ne k (sender, receiver) id s.sessions
              (λ p. n (sym p))),
        refl,
        refl,
      )

  -- A claim that the receiver of an open channel signed ends in one of three ways: after the
  -- expiration the channel is closed and the call succeeds; if every condition of a payment
  -- holds, the state is that of the payment and the call succeeds; otherwise, before the
  -- expiration, the call fails and changes no channel, nonce, session or event.
  pub claim_payment-outcomes :
      (now : ℕ) (o : Origin) (sender receiver : AccountId) (id amount : ℕ) (signature : List ℕ)
      (s : State T)
      → IsClaim T o sender receiver s
      → let (r, s') = claim_payment T now o sender id amount signature s in
        ((get_channel T (sender, receiver) s).expiration < now
          × (r ≡ ok tt)
          × (s' ≡ closed T now sender receiver s))
        ⊎ (CanPay T now o sender receiver id amount signature s
            × (r ≡ ok tt)
            × (s' ≡ paid T sender receiver id amount s))
        ⊎ ((now ≤ (get_channel T (sender, receiver) s).expiration)
            × ¬ CanPay T now o sender receiver id amount signature s
            × (r ≢ ok tt)
            × (s'.channels ≡ s.channels)
            × (s'.nonces ≡ s.nonces)
            × (s'.sessions ≡ s.sessions)
            × (s'.events ≡ s.events))
  claim_payment-outcomes now o sender receiver id amount signature s c =
      elim (Bool-cases (ltb (get_channel T (sender, receiver) s).expiration now)) [
        | inl late ↦
            rw
              (claim_payment-expired T now o sender receiver id amount signature s c (ground arith))
              (inl (ground arith, refl, refl))
        | inr live ↦ elim (Outcome-cases (claim_payment T now o sender id amount signature s).0) [
          | inl done ↦
              let can =
                claim_payment-succeeds T now o sender receiver id amount signature s c
                  (ground arith) done in
              rw (claim_payment-pays T now o sender receiver id amount signature s can)
                (inr (inl (can, refl, refl)))
          | inr failed ↦
              let same = claim_payment-refused T now o sender id amount signature s failed in
              inr (
                inr (
                  ground arith,
                  (λ can. failed (
                      ap (λ r. r.0)
                        (claim_payment-pays T now o sender receiver id amount signature s can))),
                  failed,
                  same.0,
                  same.1,
                  same.2,
                  same.3,
                ))
        ]
      ]
