-- ===== src/Erc20/Allowances.antt =====
-- `transfer`, `approve` and `transfer_from` of pallets/erc20/src/lib.rs, each reduced to what it
-- does: the origin check in front of a transfer, and the two halves of `transfer_from`.
use e2_chain.Base.{
  ℕ, ◌-◌, ◌≤◌, ◌≡◌, ◌≢◌, ◌⊎◌, inl, inr, true, some, none, arith, ◌∷◌, Bool-cases, ◌&&◌, leb,
}
use e2_chain.Frame.{ok, err, bad_origin, contains_key}
use e2_chain.Erc20.{
  Trait, State, approval, allowance, move_balance, transfer, approve, transfer_from,
}

module _ (T : Trait) where
  open T use {AccountId, Origin, signer}

  pub transfer-signed :
      (o : Origin) (a : AccountId) (id : ℕ) (to : AccountId) (value : ℕ) (s : State T)
      → signer o ≡ some a
      → transfer T o id to value s ≡ move_balance T id a to value s
  unfolding transfer
  transfer-signed o a id to value s e = ground arith

  pub transfer-unsigned :
      (o : Origin) (id : ℕ) (to : AccountId) (value : ℕ) (s : State T)
      → signer o ≡ none
      → transfer T o id to value s ≡ (err bad_origin, s)
  unfolding transfer
  transfer-unsigned o id to value s e = ground arith

  -- The state once `transfer_from` has written the allowance down, before it moves a balance.
  abbrev pub spend : ℕ → AccountId → AccountId → ℕ → State T → State T
  spend id from to value s = record s {
    allowances =
        T.allowance_map.insert (id, from, to) (allowance T (id, from, to) s - value) s.allowances;
    events = approval id from to value ∷ s.events;
  }

  -- The conditions under which `transfer_from` spends an allowance.
  pub record CanSpend (id : ℕ) (from to : AccountId) (value : ℕ) (s : State T) : Type 0 where
    pub allowed : contains_key T.allowance_map (id, from, to) s.allowances ≡ true
    pub enough : value ≤ allowance T (id, from, to) s

  pub transfer_from-spends :
      (o : Origin) (id : ℕ) (from to : AccountId) (value : ℕ) (s : State T)
      → CanSpend id from to value s
      → transfer_from T o id from to value s
        ≡ move_balance T id from to value (spend id from to value s)
  unfolding transfer_from
  transfer_from-spends o id from to value s can = ground arith

  pub transfer_from-refused :
      (o : Origin) (id : ℕ) (from to : AccountId) (value : ℕ) (s : State T)
      → ¬ CanSpend id from to value s
      → ((transfer_from T o id from to value s).0 ≢ ok tt)
        × ((transfer_from T o id from to value s).1 ≡ s)
  unfolding transfer_from
  transfer_from-refused o id from to value s cannot = ground arith

  pub CanSpend-cases :
      (id : ℕ) (from to : AccountId) (value : ℕ) (s : State T)
      → CanSpend id from to value s ⊎ (¬ CanSpend id from to value s)
  CanSpend-cases id from to value s =
      elim (Bool-cases (
        contains_key T.allowance_map (id, from, to) s.allowances
        && leb value (allowance T (id, from, to) s))) [
          | inl e ↦ inl (ground arith)
          | inr e ↦ inr (λ can. ground arith)
        ]

  -- `approve` touches allowances and events only, however it ends.
  pub approve-fixed :
      (o : Origin) (id : ℕ) (spender : AccountId) (value : ℕ) (s : State T)
      → let s' = (approve T o id spender value s).1 in
        (s'.next_id ≡ s.next_id) × (s'.tokens ≡ s.tokens) × (s'.balances ≡ s.balances)
  unfolding approve
  approve-fixed o id spender value s = ground arith
