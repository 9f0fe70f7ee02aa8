-- ===== src/Micropayment/Invariant.antt =====
-- What holds of the storage of pallets/micropayment/src/lib.rs after any sequence of extrinsics, and
-- who may close a channel.
use e2_chain.Base.{ℕ, ◌≡◌, ◌≢◌, true, false, some, arith, List, [], ◌∷◌}
use e2_chain.Frame.{lookup-insert, lookup-remove, lookup-insert_double, lookup-remove_prefix}
use e2_chain.Micropayment.{Trait, State, has_channel, get_channel, has_session}
use e2_chain.Micropayment.Channels.{pair_discrete, session_discrete, fresh_channel}
use e2_chain.Micropayment.Requests.{Request, Extrinsic, after, dispatch, run}
use e2_chain.Micropayment.Steps.{Change, nothing, opening, closing, paying, dispatch-Change}
use e2_chain.Micropayment.Replay.{genesis}

module _ (T : Trait) where
  open T use {AccountId, Origin, signer}

  -- A channel stands under its own two accounts, which differ, and sessions are kept for open
  -- channels only.
  pub record IsWellFormed (s : State T) : Type 0 where
    pub keyed :
        (k : AccountId × AccountId)
        → has_channel T k s ≡ true
        → ((get_channel T k s).sender ≡ k.0) × ((get_channel T k s).receiver ≡ k.1) × (k.0 ≢ k.1)
    pub owned :
        (k : AccountId × AccountId) (id : ℕ)
        → has_session T k id s ≡ true
        → has_channel T k s ≡ true

  keyed-Change :
      {x : Origin} (s s' : State T)
      → Change T x s s'
      → IsWellFormed s
      → (k : AccountId × AccountId) → has_channel T k s' ≡ true
      → ((get_channel T k s').sender ≡ k.0) × ((get_channel T k s').receiver ≡ k.1) × (k.0 ≢ k.1)
  keyed-Change s s' (nothing c n h) v k o = ground (arith, v.keyed k)
  keyed-Change s s' (opening now a b d w u ne c n h) v k o = ground (
    arith,
    v.keyed k,
    lookup-insert T.channel_map (pair_discrete T) k (a, b) (fresh_channel T now a b d s) s.channels,
  )
  keyed-Change s s' (closing j w c n h) v k o =
      ground (arith, v.keyed k, lookup-remove T.channel_map (pair_discrete T) k j s.channels)
  keyed-Change s s' (paying j id w live c n h) v k o = ground (arith, v.keyed k)

  owned-Change :
      {x : Origin} (s s' : State T)
      → Change T x s s'
      → IsWellFormed s
      → (k : AccountId × AccountId) (id : ℕ) → has_session T k id s' ≡ true
      → has_channel T k s' ≡ true
  owned-Change s s' (nothing c n h) v k id o = ground (arith, v.owned k id)
  owned-Change s s' (opening now a b d w u ne c n h) v k id o = ground (
    arith,
    v.owned k id,
    lookup-insert T.channel_map (pair_discrete T) k (a, b) (fresh_channel T now a b d s) s.channels,
  )
  owned-Change s s' (closing j w c n h) v k id o = ground (
    arith,
    v.owned k id,
    lookup-remove T.channel_map (pair_discrete T) k j s.channels,
    lookup-remove_prefix T.session_map (pair_discrete T) k j id s.sessions,
  )
  owned-Change s s' (paying j i w live c n h) v k id o = ground (
    arith,
    v.owned k id,
    lookup-insert_double T.session_map (session_discrete T) k j id i true s.sessions,
  )

  -- Every extrinsic keeps the storage well formed, whether it succeeds or fails.
  pub dispatch-IsWellFormed :
      (now : ℕ) (o : Origin) (r : Request AccountId) (s : State T)
      → IsWellFormed s
      → IsWellFormed (dispatch T now o r s).1
  dispatch-IsWellFormed now o r s v = record {
    keyed = keyed-Change s _ (dispatch-Change T now o r s) v;
    owned = owned-Change s _ (dispatch-Change T now o r s) v;
  }

  run-IsWellFormed :
      (xs : List (Extrinsic T)) (s : State T) → IsWellFormed s → IsWellFormed (run T xs s)
  unfolding run
  run-IsWellFormed [] s v = v
  run-IsWellFormed (x ∷ xs) s v =
      run-IsWellFormed xs (after T x s) (dispatch-IsWellFormed x.now x.origin x.request s v)

  pub genesis-IsWellFormed : (l : T.currency.Ledger) → IsWellFormed (genesis T l)
  genesis-IsWellFormed l = record {
    keyed = λ k o. absurd (ground (arith, T.channel_map.lookup-empty k));
    owned = λ k id o. absurd (ground (arith, T.session_map.lookup-empty k id));
  }

  pub run-genesis-IsWellFormed :
      (xs : List (Extrinsic T)) (l : T.currency.Ledger) → IsWellFormed (run T xs (genesis T l))
  run-genesis-IsWellFormed xs l = run-IsWellFormed xs (genesis T l) (genesis-IsWellFormed l)

  -- After any sequence of extrinsics from the genesis, a channel that exists stands under its
  -- own sender and receiver, and these are different accounts.
  pub run-keyed :
      (xs : List (Extrinsic T)) (l : T.currency.Ledger) (k : AccountId × AccountId)
      → has_channel T k (run T xs (genesis T l)) ≡ true
      → let c = get_channel T k (run T xs (genesis T l)) in
        (c.sender ≡ k.0) × (c.receiver ≡ k.1) × (k.0 ≢ k.1)
  run-keyed xs l = (run-genesis-IsWellFormed xs l).keyed

  -- After any sequence of extrinsics from the genesis, a session that is marked as used belongs
  -- to a channel that exists.
  pub run-owned :
      (xs : List (Extrinsic T)) (l : T.currency.Ledger) (k : AccountId × AccountId) (id : ℕ)
      → has_session T k id (run T xs (genesis T l)) ≡ true
      → has_channel T k (run T xs (genesis T l)) ≡ true
  run-owned xs l = (run-genesis-IsWellFormed xs l).owned

  -- If an extrinsic ends a channel that existed before it, the receiver of the channel signed
  -- it.
  pub closed-signer :
      (now : ℕ) (o : Origin) (r : Request AccountId) (s : State T) (k : AccountId × AccountId)
      → has_channel T k s ≡ true
      → has_channel T k (dispatch T now o r s).1 ≡ false
      → signer o ≡ some k.1
  closed-signer now o r s k before gone =
      closed-Change s _ k before gone (dispatch-Change T now o r s)
    where
      closed-Change :
          (s s' : State T) (k : AccountId × AccountId)
          → has_channel T k s ≡ true
          → has_channel T k s' ≡ false
          → Change T o s s'
          → signer o ≡ some k.1
      closed-Change s s' k before gone (nothing c n h) = absurd (ground arith)
      closed-Change s s' k before gone (opening now a b d w u ne c n h) = absurd (
          ground (
            arith,
            lookup-insert T.channel_map (pair_discrete T) k (a, b) (fresh_channel T now a b d s)
                s.channels,
          ))
      closed-Change s s' k before gone (closing j w c n h) =
          ground (arith, lookup-remove T.channel_map (pair_discrete T) k j s.channels)
      closed-Change s s' k before gone (paying j i w live c n h) = absurd (ground arith)

  -- If an extrinsic makes a channel that did not exist before it, the sender of the channel
  -- signed it.
  pub opened-signer :
      (now : ℕ) (o : Origin) (r : Request AccountId) (s : State T) (k : AccountId × AccountId)
      → has_channel T k s ≡ false
      → has_channel T k (dispatch T now o r s).1 ≡ true
      → signer o ≡ some k.0
  opened-signer now o r s k before there =
      opened-Change s _ k before there (dispatch-Change T now o r s)
    where
      opened-Change :
          (s s' : State T) (k : AccountId × AccountId)
          → has_channel T k s ≡ false
          → has_channel T k s' ≡ true
          → Change T o s s'
          → signer o ≡ some k.0
      opened-Change s s' k before there (nothing c n h) = absurd (ground arith)
      opened-Change s s' k before there (opening now a b d w u ne c n h) = ground (
        arith,
        lookup-insert T.channel_map (pair_discrete T) k (a, b) (fresh_channel T now a b d s)
            s.channels,
      )
      opened-Change s s' k before there (closing j w c n h) =
          absurd (ground (arith, lookup-remove T.channel_map (pair_discrete T) k j s.channels))
      opened-Change s s' k before there (paying j i w live c n h) = absurd (ground arith)
