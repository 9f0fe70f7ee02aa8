-- ===== src/Micropayment/Waiting.antt =====
-- What can happen to a channel of pallets/micropayment/src/lib.rs while its receiver signs nothing.
use e2_chain.Base.{ℕ, ◌≡◌, ◌≢◌, refl, ◌∙◌, true, some, arith, List, [], ◌∷◌}
use e2_chain.Frame.{lookup-insert, lookup-remove, lookup-insert_double, lookup-remove_prefix}
use e2_chain.Micropayment.{Trait, State, Chan, has_session}
use e2_chain.Micropayment.Channels.{pair_discrete, session_discrete, fresh_channel}
use e2_chain.Micropayment.Requests.{Extrinsic, after, run}
use e2_chain.Micropayment.Steps.{Change, nothing, opening, closing, paying, dispatch-Change}

module _ (T : Trait) where
  open T use {AccountId, signer}

  -- The account signs none of the extrinsics.
  abbrev pub IsSilent : AccountId → List (Extrinsic T) → Type 0
  IsSilent a [] = Unit
  IsSilent a (x ∷ xs) = (signer x.origin ≢ some a) × IsSilent a xs

  channel-Change :
      {o : T.Origin} (k : AccountId × AccountId) (c : Chan AccountId) (s s' : State T)
      → Change T o s s'
      → signer o ≢ some k.1
      → T.channel_map.lookup k s.channels ≡ some c
      → T.channel_map.lookup k s'.channels ≡ some c
  channel-Change k c s s' (nothing x y z) n h = ground arith
  channel-Change k c s s' (opening now a b d w u ne x y z) n h = ground (
    arith,
    lookup-insert T.channel_map (pair_discrete T) k (a, b) (fresh_channel T now a b d s) s.channels,
  )
  channel-Change k c s s' (closing j w x y z) n h =
      ground (arith, lookup-remove T.channel_map (pair_discrete T) k j s.channels)
  channel-Change k c s s' (paying j id w live x y z) n h = ground arith

  session-Change :
      {o : T.Origin} (k : AccountId × AccountId) (id : ℕ) (s s' : State T)
      → Change T o s s'
      → signer o ≢ some k.1
      → has_session T k id s' ≡ has_session T k id s
  session-Change k id s s' (nothing x y z) n = ground arith
  session-Change k id s s' (opening now a b d w u ne x y z) n = ground arith
  session-Change k id s s' (closing j w x y z) n =
      ground (arith, lookup-remove_prefix T.session_map (pair_discrete T) k j id s.sessions)
  session-Change k id s s' (paying j i w live x y z) n =
      ground
        (arith, lookup-insert_double T.session_map (session_discrete T) k j id i true s.sessions)

  -- The channel stays as it is, and so do its sessions.
  pub run-waits :
      (xs : List (Extrinsic T)) (k : AccountId × AccountId) (c : Chan AccountId) (id : ℕ)
      (s : State T)
      → IsSilent k.1 xs
      → T.channel_map.lookup k s.channels ≡ some c
      → (T.channel_map.lookup k (run T xs s).channels ≡ some c)
        × (has_session T k id (run T xs s) ≡ has_session T k id s)
  unfolding run
  run-waits [] k c id s q h = (h, refl)
  run-waits (x ∷ xs) k c id s q h =
      let change = dispatch-Change T x.now x.origin x.request s in
      let rest =
        run-waits xs k c id (after T x s) q.1 (channel-Change k c s (after T x s) change q.0 h) in
      (rest.0, rest.1 ∙ session-Change k id s (after T x s) change q.0)
