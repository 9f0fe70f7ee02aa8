-- ===== src/Micropayment/Nonces.antt =====
-- Nonces of pallets/micropayment/src/lib.rs go up, and a payment that can no longer be made stays so.
use e2_chain.Base.{ℕ, ◌+◌, ◌≤◌, ◌<◌, ◌^◌, ◌≡◌, true, arith, wrapping_add}
use e2_chain.Frame.{lookup-insert, lookup-remove, lookup-insert_double, lookup-remove_prefix}
use e2_chain.Micropayment.{Trait, State, has_channel, get_channel, get_nonce, has_session}
use e2_chain.Micropayment.Channels.{pair_discrete, session_discrete, fresh_channel}
use e2_chain.Micropayment.Requests.{Payment}
use e2_chain.Micropayment.Steps.{Change, nothing, opening, closing, paying}

module _ (T : Trait) where
  open T use {AccountId, Origin, signer}

  -- The nonce of an open channel has been given out.
  abbrev pub IsNonced : State T → Type 0
  IsNonced s =
      (k : AccountId × AccountId)
      → has_channel T k s ≡ true
      → (get_channel T k s).nonce < get_nonce T k s

  -- No nonce wraps around in the next `n` extrinsics.
  abbrev pub HasRoom : ℕ → State T → Type 0
  HasRoom n s = (k : AccountId × AccountId) → get_nonce T k s + n < 2 ^ 64

  -- The payment can not be made from here on.
  pub record IsSpent (p : Payment AccountId) (s : State T) : Type 0 where
    pub past : p.nonce < get_nonce T (p.sender, p.receiver) s
    pub used :
        has_channel T (p.sender, p.receiver) s ≡ true
        → (get_channel T (p.sender, p.receiver) s).nonce ≡ p.nonce
        → has_session T (p.sender, p.receiver) p.session s ≡ true

  -- An extrinsic gives out one nonce at most, and takes none back.
  pub nonce-Change :
      {x : Origin} (s s' : State T) (k : AccountId × AccountId)
      → get_nonce T k s + 1 < 2 ^ 64
      → Change T x s s'
      → (get_nonce T k s ≤ get_nonce T k s') × (get_nonce T k s' ≤ get_nonce T k s + 1)
  nonce-Change s s' k room (nothing c n h) = ground arith
  nonce-Change s s' k room (opening now a b d w u ne c n h) = ground (
    arith,
    lookup-insert T.nonce_map (pair_discrete T) k (a, b) (wrapping_add 64 (get_nonce T (a, b) s) 1)
        s.nonces,
  )
  nonce-Change s s' k room (closing j w c n h) = ground arith
  nonce-Change s s' k room (paying j id w live c n h) = ground arith

  pub Change-IsNonced :
      {x : Origin} (s s' : State T) → HasRoom 1 s → Change T x s s' → IsNonced s → IsNonced s'
  Change-IsNonced s s' room (nothing c n h) v k o = ground (arith, v k)
  Change-IsNonced s s' room (opening now a b d w u ne c n h) v k o = ground (
    arith,
    v k,
    room k,
    lookup-insert T.nonce_map (pair_discrete T) k (a, b) (wrapping_add 64 (get_nonce T (a, b) s) 1)
        s.nonces,
    lookup-insert T.channel_map (pair_discrete T) k (a, b) (fresh_channel T now a b d s) s.channels,
  )
  Change-IsNonced s s' room (closing j w c n h) v k o =
      ground (arith, v k, lookup-remove T.channel_map (pair_discrete T) k j s.channels)
  Change-IsNonced s s' room (paying j id w live c n h) v k o = ground (arith, v k)

  used-Change :
      (p : Payment AccountId) {x : Origin} (s s' : State T)
      → Change T x s s'
      → IsSpent p s
      → has_channel T (p.sender, p.receiver) s' ≡ true
      → (get_channel T (p.sender, p.receiver) s').nonce ≡ p.nonce
      → has_session T (p.sender, p.receiver) p.session s' ≡ true
  used-Change p s s' (nothing c n h) v o e = ground (arith, v.used)
  used-Change p s s' (opening now a b d w u ne c n h) v o e = ground (
    arith,
    v.past,
    v.used,
    lookup-insert T.channel_map (pair_discrete T) (p.sender, p.receiver) (a, b)
        (fresh_channel T now a b d s) s.channels,
  )
  used-Change p s s' (closing j w c n h) v o e = ground (
    arith,
    v.used,
    lookup-remove T.channel_map (pair_discrete T) (p.sender, p.receiver) j s.channels,
    lookup-remove_prefix T.session_map (pair_discrete T) (p.sender, p.receiver) j p.session
        s.sessions,
  )
  used-Change p s s' (paying j id w live c n h) v o e = ground (
    arith,
    v.used,
    lookup-insert_double T.session_map (session_discrete T) (p.sender, p.receiver) j p.session id
        true s.sessions,
  )

  pub Change-IsSpent :
      (p : Payment AccountId) {x : Origin} (s s' : State T)
      → HasRoom 1 s
      → Change T x s s'
      → IsSpent p s
      → IsSpent p s'
  Change-IsSpent p s s' room ch v = record {
    past =
        omega (
          arith,
          v.past,
          nonce-Change s s' (p.sender, p.receiver) (room (p.sender, p.receiver)) ch,
        );
    used = used-Change p s s' ch v;
  }
