-- ===== src/Erc20/Spending.antt =====
-- What `approve` and `transfer_from` of pallets/erc20/src/lib.rs do to an allowance and, in the
-- second case, to the balances, on success and on failure.
use e2_chain.Base.{
  ℕ, ◌+◌, ◌-◌, ◌≤◌, ◌<◌, ◌^◌, ◌≡◌, ◌≢◌, ◌↔◌, ◌⊎◌, inl, inr, refl, true, some, none, arith, ite, ap,
  Option-cases, ℕ_discrete, ◌∙◌,
}
use e2_chain.Frame.{ok, contains_key, lookup-insert}
use e2_chain.Erc20.{Trait, State, balance_bits, balance_of, allowance, approve, transfer_from}
use e2_chain.Erc20.Transfer.{
  CanMove, move_balance-fixed, move_balance-succeeds, move_balance-atomic, move_balance-moves,
}
use e2_chain.Erc20.Allowances.{
  spend, CanSpend, CanSpend-cases, transfer_from-spends, transfer_from-refused,
}

module _ (T : Trait) where
  open T use {AccountId, Origin, signer}

  pub allowance_discrete : Discrete (ℕ × AccountId × AccountId)
  allowance_discrete = hlevel (ℕ_discrete, T.account_discrete)

  -- The conditions under which `approve` adds to an allowance.
  pub record CanApprove (id : ℕ) (owner spender : AccountId) (value : ℕ) (s : State T)
      : Type 0 where
    pub owns : contains_key T.balance_map (id, owner) s.balances ≡ true
    pub fits : allowance T (id, owner, spender) s + value < 2 ^ balance_bits

  pub approve-succeeds :
      (o : Origin) (owner : AccountId) (id : ℕ) (spender : AccountId) (value : ℕ) (s : State T)
      → signer o ≡ some owner
      → ((approve T o id spender value s).0 ≡ ok tt) ↔ CanApprove id owner spender value s
  unfolding approve
  approve-succeeds o owner id spender value s e = ground arith

  pub approve-signed :
      (o : Origin) (id : ℕ) (spender : AccountId) (value : ℕ) (s : State T)
      → (approve T o id spender value s).0 ≡ ok tt
      → (owner : AccountId) × (signer o ≡ some owner) × CanApprove id owner spender value s
  unfolding approve
  approve-signed o id spender value s h = elim (Option-cases (signer o)) [
    | inl e ↦ absurd (ground arith)
    | inr (a, e) ↦ (a, e, ground arith)
  ]

  pub approve-atomic :
      (o : Origin) (id : ℕ) (spender : AccountId) (value : ℕ) (s : State T)
      → (approve T o id spender value s).0 ≢ ok tt
      → (approve T o id spender value s).1 ≡ s
  unfolding approve
  approve-atomic o id spender value s h = ground arith

  pub approve-allowance :
      (o : Origin) (owner : AccountId) (id : ℕ) (spender : AccountId) (value : ℕ) (s : State T)
      → signer o ≡ some owner
      → CanApprove id owner spender value s
      → (k : ℕ × AccountId × AccountId)
      → allowance T k (approve T o id spender value s).1
        ≡ ite
            (allowance_discrete (id, owner, spender) k)
            (allowance T (id, owner, spender) s + value)
            (allowance T k s)
  unfolding approve
  approve-allowance o owner id spender value s e can k = ground (
    arith,
    lookup-insert T.allowance_map allowance_discrete k (id, owner, spender)
        (allowance T (id, owner, spender) s + value) s.allowances,
  )

  -- An approval that the owner signed and that meets its conditions adds the value to the
  -- allowance of the spender, and leaves any other allowance as it was.
  pub approve-effect :
      (o : Origin) (owner : AccountId) (id : ℕ) (spender : AccountId) (value : ℕ) (s : State T)
      → signer o ≡ some owner
      → CanApprove id owner spender value s
      → (k : ℕ × AccountId × AccountId) → k ≢ (id, owner, spender)
      → let s' = (approve T o id spender value s).1 in
        (allowance T (id, owner, spender) s' ≡ allowance T (id, owner, spender) s + value)
        × (allowance T k s' ≡ allowance T k s)
  approve-effect o owner id spender value s e can k n = (
    ground (arith, approve-allowance o owner id spender value s e can (id, owner, spender)),
    ground (arith, approve-allowance o owner id spender value s e can k),
  )

  -- The allowance once it is spent.
  pub allowance-spend :
      (id : ℕ) (from to : AccountId) (value : ℕ) (s : State T) (k : ℕ × AccountId × AccountId)
      → allowance T k (spend T id from to value s)
        ≡ ite
            (allowance_discrete (id, from, to) k)
            (allowance T (id, from, to) s - value)
            (allowance T k s)
  allowance-spend id from to value s k = ground (
    arith,
    lookup-insert T.allowance_map allowance_discrete k (id, from, to)
        (allowance T (id, from, to) s - value) s.allowances,
  )

  pub transfer_from-lookup :
      (o : Origin) (id : ℕ) (from to : AccountId) (value : ℕ) (s : State T)
      → CanSpend T id from to value s
      → (k : ℕ × AccountId × AccountId)
      → allowance T k (transfer_from T o id from to value s).1
        ≡ ite
            (allowance_discrete (id, from, to) k)
            (allowance T (id, from, to) s - value)
            (allowance T k s)
  transfer_from-lookup o id from to value s can k =
      rw (transfer_from-spends T o id from to value s can) (
        ap (λ m. e2_chain.Base.unwrap_or 0 (T.allowance_map.lookup k m))
          (move_balance-fixed T id from to value (spend T id from to value s)).1
        ∙ allowance-spend id from to value s k)

  -- If the allowance exists and covers the value, a transfer from another account takes the
  -- value off the allowance, whether or not the transfer goes through, and leaves any other
  -- allowance as it was.
  pub transfer_from-allowance :
      (o : Origin) (id : ℕ) (from to : AccountId) (value : ℕ) (s : State T)
      → CanSpend T id from to value s
      → (k : ℕ × AccountId × AccountId) → k ≢ (id, from, to)
      → let s' = (transfer_from T o id from to value s).1 in
        (allowance T (id, from, to) s' + value ≡ allowance T (id, from, to) s)
        × (allowance T k s' ≡ allowance T k s)
  transfer_from-allowance o id from to value s can k n = (
    ground (arith, transfer_from-lookup o id from to value s can (id, from, to), can.enough),
    ground (arith, transfer_from-lookup o id from to value s can k),
  )

  -- A transfer from another account succeeds if and only if the allowance exists and covers the
  -- value, and the conditions of a transfer between the two accounts hold.
  pub transfer_from-succeeds :
      (o : Origin) (id : ℕ) (from to : AccountId) (value : ℕ) (s : State T)
      → ((transfer_from T o id from to value s).0 ≡ ok tt)
        ↔ (CanSpend T id from to value s × CanMove T id from to value s)
  transfer_from-succeeds o id from to value s = elim (CanSpend-cases T id from to value s) [
    | inl can ↦ ground (
      arith,
      transfer_from-spends T o id from to value s can,
      move_balance-succeeds T id from to value (spend T id from to value s),
    )
    | inr cannot ↦ ground (arith, transfer_from-refused T o id from to value s cannot)
  ]

  -- If the allowance exists and covers the value but a condition of the transfer fails, the call
  -- fails, the balances stay, and the allowance is less by the value all the same.
  pub transfer_from-loses :
      (o : Origin) (id : ℕ) (from to : AccountId) (value : ℕ) (s : State T)
      → CanSpend T id from to value s
      → ¬ CanMove T id from to value s
      → let (r, s') = transfer_from T o id from to value s in
        (r ≢ ok tt)
        × (s'.balances ≡ s.balances)
        × (allowance T (id, from, to) s' + value ≡ allowance T (id, from, to) s)
  transfer_from-loses o id from to value s can cannot =
      let failed = λ (e : (transfer_from T o id from to value s).0 ≡ ok tt).
        cannot ((transfer_from-succeeds o id from to value s).0 e).1 in
      let same =
        move_balance-atomic T id from to value (spend T id from to value s)
          (rw (transfer_from-spends T o id from to value s can) at failed) in
      (
        failed,
        rw (transfer_from-spends T o id from to value s can)
            (ap (λ (u : State T). u.balances) same),
        ground (arith, transfer_from-lookup o id from to value s can (id, from, to), can.enough),
      )

  -- An extrinsic that nobody signed moves tokens between two different accounts: if the
  -- allowance exists and covers the value and the conditions of the transfer hold, the call
  -- succeeds, takes the value from one account and gives it to the other.
  pub transfer_from-unsigned :
      (o : Origin) (id : ℕ) (from to : AccountId) (value : ℕ) (s : State T)
      → signer o ≡ none
      → from ≢ to
      → CanSpend T id from to value s
      → CanMove T id from to value s
      → let (r, s') = transfer_from T o id from to value s in
        (r ≡ ok tt)
        × (balance_of T (id, from) s' + value ≡ balance_of T (id, from) s)
        × (balance_of T (id, to) s' ≡ balance_of T (id, to) s + value)
  transfer_from-unsigned o id from to value s e ne can move =
      let moved =
        move_balance-moves T id from to value (spend T id from to value s)
          (record { owns = move.owns; covered = move.covered; fits = move.fits }) ne in
      (
        (transfer_from-succeeds o id from to value s).1 (can, move),
        rw (transfer_from-spends T o id from to value s can) moved.0,
        rw (transfer_from-spends T o id from to value s can) moved.1,
      )
