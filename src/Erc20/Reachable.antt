-- ===== src/Erc20/Reachable.antt =====
-- Every extrinsic keeps the invariant of `Backing`, so it holds on every chain that started from the
-- genesis of pallets/erc20/src/lib.rs.
use e2_chain.Base.{
  ℕ, ◌≤◌, ◌≡◌, ◌≢◌, refl, some, none, arith, ap, ℕ_discrete, ◌∷◌, List, [], inl, inr, total, at,
  IsDistinct, total-at-le, total-congr, ◌∙◌, Option-cases,
}
use e2_chain.Frame.{Outcome-cases}
use e2_chain.Erc20.{Trait, State, balance_of, token_details, init, transfer, transfer_from}
use e2_chain.Erc20.Transfer.{ne-id, ne-key}
use e2_chain.Erc20.Supply.{held}
use e2_chain.Erc20.Allowances.{
  transfer-signed, transfer-unsigned, approve-fixed, spend, CanSpend-cases, transfer_from-spends,
  transfer_from-refused,
}
use e2_chain.Erc20.Issue.{
  CanInit, init-signed, init-atomic, init-writes, init-lookup_balance, init-lookup_token,
}
use e2_chain.Erc20.Requests.{
  Request, inits, transfers, approves, transfers_from, genesis, dispatch, run,
}
use e2_chain.Erc20.Backing.{IsBacked, move_balance-IsBacked, genesis-IsBacked}

module _ (T : Trait) where
  open T use {AccountId, Origin, account_discrete, signer}

  backed-init :
      (o : Origin) (owner : AccountId) (name ticker : List ℕ) (supply : ℕ) (s : State T)
      → CanInit T o owner name ticker s
      → IsBacked T s
      → let s' = (init T o name ticker supply s).1 in
        (j : ℕ) (xs : List AccountId)
        → IsDistinct xs
        → total (held T j s') xs ≤ (token_details T j s').total_supply
  backed-init o owner name ticker supply s can b j xs d = elim (ℕ_discrete s.next_id j) [
    | yes e ↦ ground (
      arith,
      total-at-le account_discrete owner supply xs d,
      total-congr (held T j (init T o name ticker supply s).1) (at account_discrete owner supply) xs
          (λ a. ground (
            arith,
            b.unheld j (omega arith) a,
            ne-key T s.next_id j owner a,
            init-lookup_balance T o owner name ticker supply s can (j, a),
          )),
      init-lookup_token T o owner name ticker supply s can j,
    )
    | no n ↦ ground (
      arith,
      b.backed j xs d,
      total-congr (held T j (init T o name ticker supply s).1) (held T j s) xs (λ a. ground (
        arith,
        ne-id T s.next_id j owner a n,
        init-lookup_balance T o owner name ticker supply s can (j, a),
      )),
      init-lookup_token T o owner name ticker supply s can j,
    )
  ]

  unissued-init :
      (o : Origin) (owner : AccountId) (name ticker : List ℕ) (supply : ℕ) (s : State T)
      → CanInit T o owner name ticker s
      → IsBacked T s
      → let s' = (init T o name ticker supply s).1 in
        (j : ℕ) → s'.next_id ≤ j → T.tokens_map.lookup j s'.tokens ≡ none
  unissued-init o owner name ticker supply s can b j h = ground (
    arith,
    init-writes T o owner name ticker supply s can,
    init-lookup_token T o owner name ticker supply s can j,
    b.unissued j,
  )

  unheld-init :
      (o : Origin) (owner : AccountId) (name ticker : List ℕ) (supply : ℕ) (s : State T)
      → CanInit T o owner name ticker s
      → IsBacked T s
      → let s' = (init T o name ticker supply s).1 in
        (j : ℕ) → s'.next_id ≤ j → (a : AccountId) → T.balance_map.lookup (j, a) s'.balances ≡ none
  unheld-init o owner name ticker supply s can b j h a = ground (
    arith,
    init-writes T o owner name ticker supply s can,
    init-lookup_balance T o owner name ticker supply s can (j, a),
    ne-id T s.next_id j owner a,
    b.unheld j,
    b.unheld j (ground (arith, init-writes T o owner name ticker supply s can)) a,
  )

  init-IsBacked :
      (o : Origin) (name ticker : List ℕ) (supply : ℕ) (s : State T)
      → IsBacked T s
      → IsBacked T (init T o name ticker supply s).1
  init-IsBacked o name ticker supply s b = elim (Outcome-cases (init T o name ticker supply s).0) [
    | inr failed ↦ rw (init-atomic T o name ticker supply s failed) b
    | inl done ↦
        let (owner, can) = init-signed T o name ticker supply s done in
        record {
          unissued = λ j h. unissued-init o owner name ticker supply s can b j h;
          unheld = λ j h a. unheld-init o owner name ticker supply s can b j h a;
          backed = backed-init o owner name ticker supply s can b;
        }
  ]

  -- The extrinsics that name two accounts name two different ones.
  abbrev pub IsCross : Origin × Request AccountId → Type 0
  IsCross (o, inits name ticker supply) = Unit
  IsCross (o, transfers id to value) = signer o ≢ some to
  IsCross (o, approves id spender value) = Unit
  IsCross (o, transfers_from id from to value) = from ≢ to

  transfer-IsBacked :
      (o : Origin) (id : ℕ) (to : AccountId) (value : ℕ) (s : State T)
      → signer o ≢ some to
      → IsBacked T s
      → IsBacked T (transfer T o id to value s).1
  transfer-IsBacked o id to value s ne b = elim (Option-cases (signer o)) [
    | inl e ↦ rw (transfer-unsigned T o id to value s e) b
    | inr (a, e) ↦
        rw (transfer-signed T o a id to value s e)
          (move_balance-IsBacked T id a to value s (λ p. ne (e ∙ ap some p)) b)
  ]

  -- The invariant speaks of ids, tokens and balances only.
  IsBacked-same :
      (s s' : State T)
      → s'.next_id ≡ s.next_id
      → s'.tokens ≡ s.tokens
      → s'.balances ≡ s.balances
      → IsBacked T s
      → IsBacked T s'
  IsBacked-same s s' n t h b = record {
    unissued = λ j le. rw t (b.unissued j (omega arith));
    unheld = λ j le a. rw h (b.unheld j (omega arith) a);
    backed = λ j xs d. rw (t, h) (b.backed j xs d);
  }

  transfer_from-IsBacked :
      (o : Origin) (id : ℕ) (from to : AccountId) (value : ℕ) (s : State T)
      → from ≢ to
      → IsBacked T s
      → IsBacked T (transfer_from T o id from to value s).1
  transfer_from-IsBacked o id from to value s ne b = elim (CanSpend-cases T id from to value s) [
    | inl can ↦ rw (transfer_from-spends T o id from to value s can) (
        move_balance-IsBacked T id from to value (spend T id from to value s) ne
          (IsBacked-same s _ refl refl refl b))
    | inr cannot ↦ rw (transfer_from-refused T o id from to value s cannot).1 b
  ]

  -- Every extrinsic keeps the invariant, whether it succeeds or fails.
  pub dispatch-IsBacked :
      (o : Origin) (r : Request AccountId) (s : State T)
      → IsCross (o, r)
      → IsBacked T s
      → IsBacked T (dispatch T o r s).1
  unfolding dispatch
  dispatch-IsBacked o (inits name ticker supply) s c b = init-IsBacked o name ticker supply s b
  dispatch-IsBacked o (transfers id to value) s c b = transfer-IsBacked o id to value s c b
  dispatch-IsBacked o (approves id spender value) s c b =
      let same = approve-fixed T o id spender value s in IsBacked-same s _ same.0 same.1 same.2 b
  dispatch-IsBacked o (transfers_from id from to value) s c b =
      transfer_from-IsBacked o id from to value s c b

  abbrev pub AllCross : List (Origin × Request AccountId) → Type 0
  AllCross [] = Unit
  AllCross (r ∷ rs) = IsCross r × AllCross rs

  pub run-IsBacked :
      (rs : List (Origin × Request AccountId)) (s : State T)
      → AllCross rs
      → IsBacked T s
      → IsBacked T (run T rs s)
  unfolding run
  run-IsBacked [] s c b = b
  run-IsBacked ((o, r) ∷ rs) s c b =
      run-IsBacked rs (dispatch T o r s).1 c.1 (dispatch-IsBacked o r s c.0 b)

  -- After any sequence of extrinsics from the genesis in which nobody moves tokens to himself,
  -- the balances of a token over any distinct accounts add up to at most its total supply.
  pub run-backed :
      (rs : List (Origin × Request AccountId))
      → AllCross rs
      → (id : ℕ) (xs : List AccountId) → IsDistinct xs
      → let s = run T rs (genesis T) in
        total (λ a. balance_of T (id, a) s) xs ≤ (token_details T id s).total_supply
  run-backed rs c = (run-IsBacked rs (genesis T) c (genesis-IsBacked T)).backed
