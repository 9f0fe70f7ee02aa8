-- ===== src/Erc20/Supply.antt =====
-- The sum of a token's balances in pallets/erc20/src/lib.rs: what a transfer does to it.
use e2_chain.Base.{
  ℕ, ◌+◌, ◌≤◌, ◌≡◌, ◌≢◌, arith, ◌∷◌, List, inl, inr, total, total-balance, at, IsAbsent, IsDistinct,
  total-at_cases, total-at-le, total-at_absent,
}
use e2_chain.Erc20.{Trait, State, balance_of, move_balance}
use e2_chain.Erc20.Transfer.{CanMove, ne-key, move_balance-lookup, move_balance-moves}

module _ (T : Trait) where
  open T use {AccountId, account_discrete}

  -- The balances of one token.
  abbrev pub held : ℕ → State T → AccountId → ℕ
  held id s a = balance_of T (id, a) s

  held-move_balance :
      (id : ℕ) (from to : AccountId) (value : ℕ) (s : State T)
      → CanMove T id from to value s
      → from ≢ to
      → (a : AccountId)
      → held id (move_balance T id from to value s).1 a + at account_discrete from value a
        ≡ held id s a + at account_discrete to value a
  held-move_balance id from to value s can ne a = ground (
    arith,
    can.covered,
    ne-key T id id from a,
    ne-key T id id to a,
    move_balance-lookup T id from to value s can (id, a),
  )

  pub total-move_balance :
      (id : ℕ) (from to : AccountId) (value : ℕ) (s : State T)
      → CanMove T id from to value s
      → from ≢ to
      → (xs : List AccountId)
      → total (held id (move_balance T id from to value s).1) xs
          + total (at account_discrete from value) xs
        ≡ total (held id s) xs + total (at account_discrete to value) xs
  total-move_balance id from to value s can ne xs =
      total-balance _ _ _ _ xs (held-move_balance id from to value s can ne)

  -- A transfer of a token that meets its conditions, between two different accounts on a list of
  -- distinct accounts, leaves the sum of the balances of the list as it was.
  pub move_balance-conserves :
      (id : ℕ) (from to : AccountId) (value : ℕ) (s : State T)
      → CanMove T id from to value s
      → from ≢ to
      → (xs : List AccountId) → IsDistinct xs
      → ¬ IsAbsent from xs
      → ¬ IsAbsent to xs
      → total (held id (move_balance T id from to value s).1) xs ≡ total (held id s) xs
  move_balance-conserves id from to value s can ne xs d f t = ground (
    arith,
    total-move_balance id from to value s can ne xs,
    total-at_cases account_discrete from value xs d,
    total-at_cases account_discrete to value xs d,
  )

  pub total-move_balance-le :
      (id bound : ℕ) (from to : AccountId) (value : ℕ) (s : State T)
      → CanMove T id from to value s
      → from ≢ to
      → ((xs : List AccountId) → IsDistinct xs → total (held id s) xs ≤ bound)
      → (xs : List AccountId) → IsDistinct xs
      → total (held id (move_balance T id from to value s).1) xs ≤ bound
  total-move_balance-le id bound from to value s can ne b xs d =
      elim (total-at_cases account_discrete from value xs d) [
        | inl here ↦ omega (
          arith,
          b xs d,
          total-move_balance id from to value s can ne xs,
          total-at-le account_discrete to value xs d,
        )
        | inr absent ↦ ground (
          arith,
          b (from ∷ xs) (absent, d),
          total-move_balance id from to value s can ne xs,
          total-at_absent account_discrete from value xs absent,
          total-at-le account_discrete to value xs d,
          (move_balance-moves T id from to value s can ne).0,
          can.covered,
        )
      ]
