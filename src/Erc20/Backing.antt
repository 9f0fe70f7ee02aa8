-- ===== src/Erc20/Backing.antt =====
-- The invariant of pallets/erc20/src/lib.rs: ids are issued in order, and the balances of a token
-- never add up to more than its total supply, as long as nobody transfers to himself.
use e2_chain.Base.{
  ℕ, ◌≤◌, ◌≡◌, ◌≢◌, none, arith, ap, ℕ_discrete, List, inl, inr, total, IsDistinct, total-zero,
  total-congr, subst, sym, ◌∙◌, unwrap_or,
}
use e2_chain.Frame.{Outcome-cases}
use e2_chain.Erc20.{Trait, State, token_details, move_balance}
use e2_chain.Erc20.Transfer.{
  ne-id, move_balance-fixed, CanMove, move_balance-lookup, move_balance-atomic,
  move_balance-succeeds,
}
use e2_chain.Erc20.Supply.{held, total-move_balance-le}
use e2_chain.Erc20.Requests.{genesis}

module _ (T : Trait) where
  open T use {AccountId, Origin, account_discrete, signer}

  pub record IsBacked (s : State T) : Type 0 where
    pub unissued : (id : ℕ) → s.next_id ≤ id → T.tokens_map.lookup id s.tokens ≡ none
    pub unheld :
        (id : ℕ) → s.next_id ≤ id → (a : AccountId) → T.balance_map.lookup (id, a) s.balances ≡ none
    pub backed :
        (id : ℕ) (xs : List AccountId)
        → IsDistinct xs
        → total (held T id s) xs ≤ (token_details T id s).total_supply

  pub genesis-IsBacked : IsBacked (genesis T)
  genesis-IsBacked = record {
    unissued = λ id h. T.tokens_map.lookup-empty id;
    unheld = λ id h a. T.balance_map.lookup-empty (id, a);
    backed = λ id xs d. omega (
      arith,
      total-zero (held T id (genesis T)) xs
          (λ a. ground (arith, T.balance_map.lookup-empty (id, a))),
    );
  }

  -- A transfer of one token leaves the entries of the others.
  lookup-move_balance_ne :
      (id j : ℕ) (from to : AccountId) (value : ℕ) (s : State T)
      → CanMove T id from to value s
      → j ≢ id
      → (a : AccountId)
      → T.balance_map.lookup (j, a) (move_balance T id from to value s).1.balances
        ≡ T.balance_map.lookup (j, a) s.balances
  lookup-move_balance_ne id j from to value s can n a = ground (
    arith,
    move_balance-lookup T id from to value s can (j, a),
    ne-id T j id a from n,
    ne-id T j id a to n,
  )

  backed-move_balance :
      (id : ℕ) (from to : AccountId) (value : ℕ) (s : State T)
      → from ≢ to
      → CanMove T id from to value s
      → IsBacked s
      → (j : ℕ) (xs : List AccountId) → IsDistinct xs
      → total (held T j (move_balance T id from to value s).1) xs
        ≤ (token_details T j s).total_supply
  backed-move_balance id from to value s ne can b j xs d = elim (ℕ_discrete j id) [
    | yes e ↦
        subst
          (λ (i : ℕ).
            total (held T i (move_balance T id from to value s).1) xs
            ≤ (token_details T i s).total_supply)
          (sym e) (total-move_balance-le T id _ from to value s can ne (b.backed id) xs d)
    | no n ↦ omega (
      arith,
      total-congr (held T j (move_balance T id from to value s).1) (held T j s) xs
          (λ a. ap (unwrap_or 0) (lookup-move_balance_ne id j from to value s can n a)),
      b.backed j xs d,
    )
  ]

  unheld-move_balance :
      (id : ℕ) (from to : AccountId) (value : ℕ) (s : State T)
      → CanMove T id from to value s
      → IsBacked s
      → (j : ℕ) → s.next_id ≤ j
      → (a : AccountId)
      → T.balance_map.lookup (j, a) (move_balance T id from to value s).1.balances ≡ none
  unheld-move_balance id from to value s can b j h a = elim (ℕ_discrete j id) [
    | yes e ↦ absurd (ground (arith, b.unheld id (omega arith) from, can.owns))
    | no n ↦ lookup-move_balance_ne id j from to value s can n a ∙ b.unheld j h a
  ]

  -- A transfer between two accounts keeps the invariant, however it ends.
  pub move_balance-IsBacked :
      (id : ℕ) (from to : AccountId) (value : ℕ) (s : State T)
      → from ≢ to
      → IsBacked s
      → IsBacked (move_balance T id from to value s).1
  move_balance-IsBacked id from to value s ne b =
      elim (Outcome-cases (move_balance T id from to value s).0) [
        | inr failed ↦ rw (move_balance-atomic T id from to value s failed) b
        | inl done ↦
            let can = (move_balance-succeeds T id from to value s).0 done in
            let fixed = move_balance-fixed T id from to value s in
            record {
              unissued = λ j h. rw fixed.0 (b.unissued j (rw fixed.2 at h));
              unheld = λ j h a. unheld-move_balance id from to value s can b j (rw fixed.2 at h) a;
              backed =
                  λ j xs d. rw fixed.0 (backed-move_balance id from to value s ne can b j xs d);
            }
      ]
