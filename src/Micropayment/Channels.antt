-- ===== src/Micropayment/Channels.antt =====
-- Opening and closing a channel in pallets/micropayment/src/lib.rs: when it goes through, and what
-- the channels, nonces and sessions are afterwards.
use e2_chain.Base.{
  ℕ, ◌≡◌, ◌≢◌, ◌↔◌, true, false, some, arith, ℕ_discrete, saturating_add, wrapping_mul,
  wrapping_add, ◌∷◌,
}
use e2_chain.Frame.{ok}
use e2_chain.Micropayment.{
  Trait, State, Chan, has_channel, get_nonce, channel_opened, channel_closed, open_channel,
  close_channel,
}

module _ (T : Trait) where
  open T use {AccountId, Origin, signer, account_discrete}

  abbrev pub Pair : Type 0
  Pair = AccountId × AccountId

  pub pair_discrete : Discrete (AccountId × AccountId)
  pair_discrete = hlevel account_discrete

  pub session_discrete : Discrete ((AccountId × AccountId) × ℕ)
  session_discrete = hlevel (account_discrete, ℕ_discrete)

  -- The expiration that `open_channel` computes.
  abbrev pub expiration_of : ℕ → ℕ → ℕ
  expiration_of now duration = saturating_add 64 now (wrapping_mul 32 duration 1000)

  abbrev pub fresh_channel : ℕ → AccountId → AccountId → ℕ → State T → Chan AccountId
  fresh_channel now sender receiver duration s = record {
    sender = sender;
    receiver = receiver;
    nonce = get_nonce T (sender, receiver) s;
    opened = now;
    expiration = expiration_of now duration;
  }

  -- The conditions under which a channel is opened.
  pub record CanOpen (o : Origin) (sender receiver : AccountId) (s : State T) : Type 0 where
    pub signed : signer o ≡ some sender
    pub unopened : has_channel T (sender, receiver) s ≡ false
    pub different : sender ≢ receiver

  pub open_channel-succeeds :
      (now : ℕ) (o : Origin) (sender receiver : AccountId) (duration : ℕ) (s : State T)
      → signer o ≡ some sender
      → ((open_channel T now o receiver duration s).0 ≡ ok tt) ↔ CanOpen o sender receiver s
  unfolding open_channel
  open_channel-succeeds now o sender receiver duration s e = ground arith

  pub open_channel-atomic :
      (now : ℕ) (o : Origin) (receiver : AccountId) (duration : ℕ) (s : State T)
      → (open_channel T now o receiver duration s).0 ≢ ok tt
      → (open_channel T now o receiver duration s).1 ≡ s
  unfolding open_channel
  open_channel-atomic now o receiver duration s h = ground arith

  -- The whole of what `open_channel` writes.
  pub open_channel-writes :
      (now : ℕ) (o : Origin) (sender receiver : AccountId) (duration : ℕ) (s : State T)
      → CanOpen o sender receiver s
      → open_channel T now o receiver duration s ≡ (
        ok tt,
        record s {
          channels =
              T.channel_map.insert
                (sender, receiver)
                (fresh_channel now sender receiver duration s)
                s.channels;
          nonces =
              T.nonce_map.insert
                (sender, receiver)
                (wrapping_add 64 (get_nonce T (sender, receiver) s) 1)
                s.nonces;
          events =
              channel_opened sender receiver
                (get_nonce T (sender, receiver) s)
                now
                (expiration_of now duration)
              ∷ s.events;
        },
      )
  unfolding open_channel
  open_channel-writes now o sender receiver duration s can = ground arith

  -- The state without a channel.
  abbrev pub closed : ℕ → AccountId → AccountId → State T → State T
  closed now sender receiver s = record s {
    channels = T.channel_map.remove (sender, receiver) s.channels;
    sessions = T.session_map.remove_prefix (sender, receiver) s.sessions;
    events = channel_closed sender receiver now ∷ s.events;
  }

  pub close_channel-succeeds :
      (now : ℕ) (o : Origin) (sender receiver : AccountId) (s : State T)
      → signer o ≡ some receiver
      → has_channel T (sender, receiver) s ≡ true
      → close_channel T now o sender s ≡ (ok tt, closed now sender receiver s)
  unfolding close_channel
  close_channel-succeeds now o sender receiver s e h = ground arith

  pub close_channel-atomic :
      (now : ℕ) (o : Origin) (sender : AccountId) (s : State T)
      → (close_channel T now o sender s).0 ≢ ok tt
      → (close_channel T now o sender s).1 ≡ s
  unfolding close_channel
  close_channel-atomic now o sender s h = ground arith
