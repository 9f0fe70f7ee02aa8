-- ===== src/Erc20/Refinement.antt =====
-- Every extrinsic of pallets/erc20/src/lib.rs does to the book of balances, allowances and supplies
-- what the standard allows.
use e2_chain.Base.{
  ℕ, ◌+◌, ◌≡◌, ◌≢◌, inl, inr, refl, some, none, arith, at, ap, Option-cases, List, unwrap_or, ◌∙◌,
  sym,
}
use e2_chain.Frame.{Outcome-cases}
use e2_chain.Erc20.{
  Trait, State, balance_of, allowance, token_details, init, move_balance, transfer, approve,
  transfer_from,
}
use e2_chain.Erc20.Transfer.{
  key_discrete, ne-key, CanMove, move_balance-succeeds, move_balance-atomic, move_balance-fixed,
  move_balance-lookup,
}
use e2_chain.Erc20.Allowances.{
  transfer-signed, transfer-unsigned, spend, CanSpend, CanSpend-cases, transfer_from-spends,
  transfer_from-refused, approve-fixed,
}
use e2_chain.Erc20.Spending.{
  allowance_discrete, approve-allowance, allowance-spend, approve-atomic, approve-signed,
}
use e2_chain.Erc20.Issue.{
  init-signed, init-atomic, init-writes, init-lookup_balance, init-lookup_token,
}
use e2_chain.Erc20.Requests.{Request, inits, transfers, approves, transfers_from, dispatch}
use e2_chain.Erc20.Backing.{IsBacked}
use e2_chain.Erc20.Reachable.{IsCross}
use e2_chain.Erc20.Standard.{
  Book, Grows, Shifts, Agrees, Allows, nothing, issuing, moving, granting, drawing, wasting,
}

module _ (T : Trait) where
  open T use {AccountId, Origin, signer, system}

  abbrev pub book : State T → Book AccountId
  book s = record {
    balance = λ k. balance_of T k s;
    allowance = λ k. allowance T k s;
    supply = λ id. (token_details T id s).total_supply;
  }

  abbrev pub Follows : Origin → State T → State T → Type 0
  Follows o s s' = Allows system (key_discrete T) (allowance_discrete T) o (book s) (book s')

  move_balance-Shifts :
      (id : ℕ) (from to : AccountId) (value : ℕ) (s : State T)
      → CanMove T id from to value s
      → from ≢ to
      → Shifts
          (key_discrete T)
          (id, from)
          (id, to)
          value
          (book s).balance
          (book (move_balance T id from to value s).1).balance
  move_balance-Shifts id from to value s can ne k = ground (
    arith,
    can.covered,
    ne-key T id id from to ne,
    move_balance-lookup T id from to value s can k,
  )

  unchanged : (o : Origin) (s s' : State T) → s' ≡ s → Follows o s s'
  unchanged o s s' e = rw e (nothing (λ k. refl) (λ k. refl) (λ k. refl))

  abbrev supply_of : ℕ → T.tokens_map.Map → ℕ
  supply_of j m =
      (unwrap_or (record { name = List.[]; ticker = List.[]; total_supply = 0 })
        (T.tokens_map.lookup j m)).total_supply

  pub unheld_at :
      (k : ℕ × AccountId) (s : State T)
      → IsBacked T s
      → k.0 ≡ s.next_id
      → T.balance_map.lookup k s.balances ≡ none
  unheld_at k s v e = v.unheld k.0 (omega arith) k.1

  -- A transfer leaves allowances and supplies alone.
  same-allowance :
      (id : ℕ) (from to : AccountId) (value : ℕ) (s : State T)
      → Agrees (book s).allowance (book (move_balance T id from to value s).1).allowance
  same-allowance id from to value s k =
      ap (λ m. unwrap_or 0 (T.allowance_map.lookup k m)) (move_balance-fixed T id from to value s).1

  same-supply :
      (id : ℕ) (from to : AccountId) (value : ℕ) (s : State T)
      → Agrees (book s).supply (book (move_balance T id from to value s).1).supply
  same-supply id from to value s j = ap (supply_of j) (move_balance-fixed T id from to value s).0

  transfer-Follows :
      (o : Origin) (id : ℕ) (to : AccountId) (value : ℕ) (s : State T)
      → signer o ≢ some to
      → Follows o s (transfer T o id to value s).1
  transfer-Follows o id to value s ne = elim (Option-cases (signer o)) [
    | inl e ↦ rw (transfer-unsigned T o id to value s e) (unchanged o s s refl)
    | inr (a, e) ↦
        let cross : a ≢ to = λ p. ne (rw (e, p) refl) in
        rw (transfer-signed T o a id to value s e)
          (elim (Outcome-cases (move_balance T id a to value s).0) [
            | inr failed ↦ unchanged o s _ (move_balance-atomic T id a to value s failed)
            | inl done ↦
                let can = (move_balance-succeeds T id a to value s).0 done in
                moving id a to value e cross can.covered
                  (move_balance-Shifts id a to value s can cross) (same-allowance id a to value s)
                  (same-supply id a to value s)
          ])
  ]

  approve-Follows :
      (o : Origin) (id : ℕ) (spender : AccountId) (value : ℕ) (s : State T)
      → Follows o s (approve T o id spender value s).1
  approve-Follows o id spender value s = elim (Outcome-cases (approve T o id spender value s).0) [
    | inr failed ↦ unchanged o s _ (approve-atomic T o id spender value s failed)
    | inl done ↦
        let (a, e, can) = approve-signed T o id spender value s done in
        let fixed = approve-fixed T o id spender value s in
        granting id a spender value e
          (λ k. ap (λ m. unwrap_or 0 (T.balance_map.lookup k m)) fixed.2)
          (λ k. ground (arith, approve-allowance T o a id spender value s e can k))
          (λ j. ap (supply_of j) fixed.1)
  ]

  -- `transfer_from` writes the allowance down, and then transfers or fails.
  spend-Grows :
      (id : ℕ) (from to : AccountId) (value : ℕ) (s : State T)
      → CanSpend T id from to value s
      → Grows
          (allowance_discrete T)
          (id, from, to)
          value
          (book (spend T id from to value s)).allowance
          (book s).allowance
  spend-Grows id from to value s can k =
      ground (arith, can.enough, allowance-spend T id from to value s k)

  transfer_from-Follows :
      (o : Origin) (id : ℕ) (from to : AccountId) (value : ℕ) (s : State T)
      → from ≢ to
      → Follows o s (transfer_from T o id from to value s).1
  transfer_from-Follows o id from to value s ne = elim (CanSpend-cases T id from to value s) [
    | inr cannot ↦ unchanged o s _ (transfer_from-refused T o id from to value s cannot).1
    | inl can ↦
        let mid = spend T id from to value s in
        rw (transfer_from-spends T o id from to value s can)
          (elim (Outcome-cases (move_balance T id from to value mid).0) [
            | inr failed ↦ rw (move_balance-atomic T id from to value mid failed) (
                wasting id from to value can.enough (λ k. refl) (spend-Grows id from to value s can)
                  (λ j. refl))
            | inl done ↦
                let moved = (move_balance-succeeds T id from to value mid).0 done in
                drawing id from to value ne moved.covered can.enough
                  (move_balance-Shifts id from to value mid moved ne)
                  (λ k.
                    spend-Grows id from to value s can k
                    ∙ ap (λ n. n + at (allowance_discrete T) (id, from, to) value k)
                        (sym (same-allowance id from to value mid k)))
                  (same-supply id from to value mid)
          ])
  ]

  init-Follows :
      (o : Origin) (name ticker : List ℕ) (supply : ℕ) (s : State T)
      → IsBacked T s
      → Follows o s (init T o name ticker supply s).1
  init-Follows o name ticker supply s v = elim (Outcome-cases (init T o name ticker supply s).0) [
    | inr failed ↦ unchanged o s _ (init-atomic T o name ticker supply s failed)
    | inl done ↦
        let (owner, can) = init-signed T o name ticker supply s done in
        issuing owner s.next_id supply can.signed
          (λ a. ground (arith, v.unheld s.next_id (omega arith) a))
          (ground (arith, v.unissued s.next_id (omega arith)))
          (λ k.
            ground
              (arith, init-lookup_balance T o owner name ticker supply s can k, unheld_at k s v))
          (λ k. rw (init-writes T o owner name ticker supply s can) refl)
          (λ j. ground (
            arith,
            init-lookup_token T o owner name ticker supply s can j,
            v.unissued s.next_id (omega arith),
          ))
  ]

  -- What the standard allows, extrinsic by extrinsic.
  pub dispatch-Follows :
      (o : Origin) (r : Request AccountId) (s : State T)
      → IsBacked T s
      → IsCross T (o, r)
      → Allows system (key_discrete T) (allowance_discrete T) o (book s) (book (dispatch T o r s).1)
  unfolding dispatch
  dispatch-Follows o (inits name ticker supply) s v c = init-Follows o name ticker supply s v
  dispatch-Follows o (transfers id to value) s v c = transfer-Follows o id to value s c
  dispatch-Follows o (approves id spender value) s v c = approve-Follows o id spender value s
  dispatch-Follows o (transfers_from id from to value) s v c =
      transfer_from-Follows o id from to value s c
