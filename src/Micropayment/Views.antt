-- ===== src/Micropayment/Views.antt =====
-- Each call of pallets/micropayment/src/lib.rs does to the contract of every pair what the contract
-- says.
use e2_chain.Base.{
  ℕ, ◌≡◌, ◌↔◌, ℕ_discrete, Bool, true, ◌&&◌, arith, eqb, if◌then◌else◌, Option, none, some, List,
  wrapping_add,
}
use e2_chain.Frame.{lookup-insert, lookup-remove, lookup-insert_double, lookup-remove_prefix}
use e2_chain.Micropayment.{Trait, State, Chan, get_nonce, has_session}
use e2_chain.Micropayment.Channels.{
  pair_discrete, session_discrete, fresh_channel, closed, expiration_of,
}
use e2_chain.Micropayment.Claims.{IsSigned, paid}
use e2_chain.Micropayment.Contract.{Terms, Contract, IsSame, ended, marked, begun, is_genuine}

module _ (T : Trait) where
  open T use {AccountId, Origin, signer, account_discrete, crypto, currency}

  abbrev pub terms_of : Option (Chan AccountId) → Option Terms
  terms_of none = none
  terms_of (some c) =
      some (record { nonce = c.nonce; opened = c.opened; expiration = c.expiration })

  -- The contract of a pair that a state of the pallet stands for.
  abbrev pub contract : State T → AccountId → AccountId → Contract
  contract s a b = record {
    next_nonce = get_nonce T (a, b) s;
    terms = terms_of (T.channel_map.lookup (a, b) s.channels);
    used = λ id. has_session T (a, b) id s;
  }

  abbrev pub address : AccountId → AccountId → AccountId → AccountId → Bool
  address x y a b = eqb account_discrete x a && eqb account_discrete y b

  eqb-pair : (x y a b : AccountId) → eqb (pair_discrete T) (x, y) (a, b) ≡ address x y a b
  eqb-pair x y a b =
      ground (arith, pair_discrete T (x, y) (a, b), account_discrete x a, account_discrete y b)

  pub closed-contract :
      (now : ℕ) (x y : AccountId) (s : State T) (a b : AccountId)
      → IsSame
          (contract (closed T now x y s) a b)
          (if address x y a b then ended (contract s a b) else contract s a b)
  closed-contract now x y s a b = record {
    next_nonce = ground arith;
    terms = ground (
      arith,
      eqb-pair x y a b,
      lookup-remove T.channel_map (pair_discrete T) (a, b) (x, y) s.channels,
    );
    used = λ id. ground (
      arith,
      eqb-pair x y a b,
      lookup-remove_prefix T.session_map (pair_discrete T) (a, b) (x, y) id s.sessions,
    );
  }

  pub paid-contract :
      (x y : AccountId) (id amount : ℕ) (s : State T) (a b : AccountId)
      → IsSame
          (contract (paid T x y id amount s) a b)
          (if address x y a b then marked id (contract s a b) else contract s a b)
  paid-contract x y id amount s a b = record {
    next_nonce = ground arith;
    terms = ground arith;
    used = λ j. ground (
      arith,
      eqb-pair x y a b,
      ℕ_discrete id j,
      session_discrete T ((x, y), id) ((a, b), j),
      lookup-insert_double T.session_map (session_discrete T) (a, b) (x, y) j id true s.sessions,
    );
  }

  -- The state with a fresh channel.
  abbrev pub opened : ℕ → AccountId → AccountId → ℕ → State T → State T
  opened now x y duration s = record s {
    channels = T.channel_map.insert (x, y) (fresh_channel T now x y duration s) s.channels;
    nonces = T.nonce_map.insert (x, y) (wrapping_add 64 (get_nonce T (x, y) s) 1) s.nonces;
  }

  pub opened-contract :
      (now : ℕ) (x y : AccountId) (duration : ℕ) (s : State T) (a b : AccountId)
      → IsSame (contract (opened now x y duration s) a b) (
          if address x y a b
          then begun now (expiration_of T now duration) (contract s a b)
          else contract s a b)
  opened-contract now x y duration s a b = record {
    next_nonce = ground (
      arith,
      eqb-pair x y a b,
      account_discrete x a,
      account_discrete y b,
      lookup-insert T.nonce_map (pair_discrete T) (a, b) (x, y)
          (wrapping_add 64 (get_nonce T (x, y) s) 1) s.nonces,
    );
    terms = ground (
      arith,
      eqb-pair x y a b,
      account_discrete x a,
      account_discrete y b,
      lookup-insert T.channel_map (pair_discrete T) (a, b) (x, y)
          (fresh_channel T now x y duration s) s.channels,
    );
    used = λ j. ground arith;
  }

  pub genuine-IsSigned :
      (x y : AccountId) (nonce id amount : ℕ) (signature : List ℕ)
      → (is_genuine crypto x y nonce id amount signature ≡ true)
        ↔ IsSigned T x y nonce id amount signature
  genuine-IsSigned x y nonce id amount signature = ground arith
