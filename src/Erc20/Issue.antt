-- ===== src/Erc20/Issue.antt =====
-- `init` of pallets/erc20/src/lib.rs: when a token is issued, and what is written then.
use e2_chain.Base.{
  ℕ, ◌+◌, ◌≤◌, ◌<◌, ◌^◌, ◌≡◌, ◌≢◌, ◌↔◌, some, arith, ite, ℕ_discrete, List, length, Option-cases,
  inl, inr,
}
use e2_chain.Frame.{ok, lookup-insert}
use e2_chain.Erc20.{Trait, State, init}
use e2_chain.Erc20.Transfer.{key_discrete}

module _ (T : Trait) where
  open T use {AccountId, Origin, signer}

  -- The conditions under which a token is issued to `owner`.
  pub record CanInit (o : Origin) (owner : AccountId) (name ticker : List ℕ) (s : State T)
      : Type 0 where
    pub signed : signer o ≡ some owner
    pub short_name : length name ≤ 64
    pub short_ticker : length ticker ≤ 32
    pub fits : s.next_id + 1 < 2 ^ 32

  pub init-succeeds :
      (o : Origin) (owner : AccountId) (name ticker : List ℕ) (supply : ℕ) (s : State T)
      → signer o ≡ some owner
      → ((init T o name ticker supply s).0 ≡ ok tt) ↔ CanInit o owner name ticker s
  unfolding init
  init-succeeds o owner name ticker supply s e = ground arith

  pub init-signed :
      (o : Origin) (name ticker : List ℕ) (supply : ℕ) (s : State T)
      → (init T o name ticker supply s).0 ≡ ok tt
      → (owner : AccountId) × CanInit o owner name ticker s
  unfolding init
  init-signed o name ticker supply s h = elim (Option-cases (signer o)) [
    | inl e ↦ absurd (ground arith)
    | inr (a, e) ↦ (a, ground arith)
  ]

  pub init-atomic :
      (o : Origin) (name ticker : List ℕ) (supply : ℕ) (s : State T)
      → (init T o name ticker supply s).0 ≢ ok tt
      → (init T o name ticker supply s).1 ≡ s
  unfolding init
  init-atomic o name ticker supply s h = ground arith

  -- The whole of what `init` writes.
  pub init-writes :
      (o : Origin) (owner : AccountId) (name ticker : List ℕ) (supply : ℕ) (s : State T)
      → CanInit o owner name ticker s
      → (init T o name ticker supply s).1 ≡ record s {
        next_id = s.next_id + 1;
        tokens =
            T.tokens_map.insert s.next_id
              (record { name = name; ticker = ticker; total_supply = supply })
              s.tokens;
        balances = T.balance_map.insert (s.next_id, owner) supply s.balances;
      }
  unfolding init
  init-writes o owner name ticker supply s can = ground arith

  pub init-lookup_balance :
      (o : Origin) (owner : AccountId) (name ticker : List ℕ) (supply : ℕ) (s : State T)
      → CanInit o owner name ticker s
      → (k : ℕ × AccountId)
      → T.balance_map.lookup k (init T o name ticker supply s).1.balances
        ≡ ite
            (key_discrete T (s.next_id, owner) k)
            (some supply)
            (T.balance_map.lookup k s.balances)
  init-lookup_balance o owner name ticker supply s can k =
      rw (init-writes o owner name ticker supply s can)
        (lookup-insert T.balance_map (key_discrete T) k (s.next_id, owner) supply s.balances)

  pub init-lookup_token :
      (o : Origin) (owner : AccountId) (name ticker : List ℕ) (supply : ℕ) (s : State T)
      → CanInit o owner name ticker s
      → (j : ℕ)
      → T.tokens_map.lookup j (init T o name ticker supply s).1.tokens
        ≡ ite
            (ℕ_discrete s.next_id j)
            (some (record { name = name; ticker = ticker; total_supply = supply }))
            (T.tokens_map.lookup j s.tokens)
  init-lookup_token o owner name ticker supply s can j =
      rw (init-writes o owner name ticker supply s can)
        (lookup-insert T.tokens_map ℕ_discrete j s.next_id _ s.tokens)
