-- ===== src/Erc20/Widths.antt =====
-- Every number that pallets/erc20/src/lib.rs stores fits in its machine type, and every name in its
-- bound, along any sequence of extrinsics.
use e2_chain.Base.{ℕ, ◌≤◌, ◌<◌, ◌^◌, inl, inr, arith, List, [], ◌∷◌, length, Option-cases}
use e2_chain.Frame.{Outcome-cases}
use e2_chain.Erc20.{
  Trait, State, balance_of, allowance, token_details, init, move_balance, transfer, approve,
  transfer_from,
}
use e2_chain.Erc20.Transfer.{
  move_balance-succeeds, move_balance-atomic, move_balance-lookup, move_balance-fixed,
}
use e2_chain.Erc20.Allowances.{
  transfer-signed, transfer-unsigned, spend, CanSpend-cases, transfer_from-spends,
  transfer_from-refused, approve-fixed,
}
use e2_chain.Erc20.Spending.{approve-signed, approve-atomic, approve-allowance, allowance-spend}
use e2_chain.Erc20.Issue.{
  init-signed, init-atomic, init-writes, init-lookup_balance, init-lookup_token,
}
use e2_chain.Erc20.Requests.{
  Request, inits, transfers, approves, transfers_from, genesis, dispatch, run,
}

module _ (T : Trait) where
  open T use {AccountId, Origin, signer}

  pub record IsTyped (s : State T) : Type 0 where
    pub next_id : s.next_id < 2 ^ 32
    pub balances : (k : ℕ × AccountId) → balance_of T k s < 2 ^ 64
    pub allowances : (k : ℕ × AccountId × AccountId) → allowance T k s < 2 ^ 64
    pub supplies : (id : ℕ) → (token_details T id s).total_supply < 2 ^ 64
    pub names : (id : ℕ) → length (token_details T id s).name ≤ 64
    pub tickers : (id : ℕ) → length (token_details T id s).ticker ≤ 32

  -- The one argument that is stored as it is fits in its type.
  abbrev pub Fits : Request AccountId → Type 0
  Fits (inits name ticker supply) = supply < 2 ^ 64
  Fits (transfers id to value) = Unit
  Fits (approves id spender value) = Unit
  Fits (transfers_from id from to value) = Unit

  abbrev pub AllFit : List (Origin × Request AccountId) → Type 0
  AllFit [] = Unit
  AllFit ((o, r) ∷ rs) = Fits r × AllFit rs

  init-IsTyped :
      (o : Origin) (name ticker : List ℕ) (supply : ℕ) (s : State T)
      → supply < 2 ^ 64
      → IsTyped s
      → IsTyped (init T o name ticker supply s).1
  init-IsTyped o name ticker supply s h v = elim (Outcome-cases (init T o name ticker supply s).0) [
    | inr failed ↦ rw (init-atomic T o name ticker supply s failed) v
    | inl done ↦
        let (owner, can) = init-signed T o name ticker supply s done in
        let writes = init-writes T o owner name ticker supply s can in
        record {
          next_id = ground (arith, writes, can.fits);
          balances = λ k.
              ground
                (arith, v.balances k, init-lookup_balance T o owner name ticker supply s can k);
          allowances = λ k. ground (arith, writes, v.allowances k);
          supplies = λ id.
              ground
                (arith, v.supplies id, init-lookup_token T o owner name ticker supply s can id);
          names = λ id. ground (
            arith,
            v.names id,
            can.short_name,
            init-lookup_token T o owner name ticker supply s can id,
          );
          tickers = λ id. ground (
            arith,
            v.tickers id,
            can.short_ticker,
            init-lookup_token T o owner name ticker supply s can id,
          );
        }
  ]

  move_balance-IsTyped :
      (id : ℕ) (from to : AccountId) (value : ℕ) (s : State T)
      → IsTyped s
      → IsTyped (move_balance T id from to value s).1
  move_balance-IsTyped id from to value s v =
      elim (Outcome-cases (move_balance T id from to value s).0) [
        | inr failed ↦ rw (move_balance-atomic T id from to value s failed) v
        | inl done ↦
            let can = (move_balance-succeeds T id from to value s).0 done in
            let (t, a, n) = move_balance-fixed T id from to value s in
            record {
              next_id = ground (arith, n, v.next_id);
              balances = λ k. ground (
                arith,
                can.fits,
                v.balances k,
                v.balances (id, from),
                move_balance-lookup T id from to value s can k,
              );
              allowances = λ k. ground (arith, a, v.allowances k);
              supplies = λ j. ground (arith, t, v.supplies j);
              names = λ j. ground (arith, t, v.names j);
              tickers = λ j. ground (arith, t, v.tickers j);
            }
      ]

  transfer-IsTyped :
      (o : Origin) (id : ℕ) (to : AccountId) (value : ℕ) (s : State T)
      → IsTyped s
      → IsTyped (transfer T o id to value s).1
  transfer-IsTyped o id to value s v = elim (Option-cases (signer o)) [
    | inl e ↦ rw (transfer-unsigned T o id to value s e) v
    | inr (a, e) ↦
        rw (transfer-signed T o a id to value s e) (move_balance-IsTyped id a to value s v)
  ]

  approve-IsTyped :
      (o : Origin) (id : ℕ) (spender : AccountId) (value : ℕ) (s : State T)
      → IsTyped s
      → IsTyped (approve T o id spender value s).1
  approve-IsTyped o id spender value s v = elim (Outcome-cases (approve T o id spender value s).0) [
    | inr failed ↦ rw (approve-atomic T o id spender value s failed) v
    | inl done ↦
        let (owner, e, can) = approve-signed T o id spender value s done in
        let (n, t, b) = approve-fixed T o id spender value s in
        record {
          next_id = ground (arith, n, v.next_id);
          balances = λ k. ground (arith, b, v.balances k);
          allowances = λ k. ground (
            arith,
            can.fits,
            v.allowances k,
            approve-allowance T o owner id spender value s e can k,
          );
          supplies = λ j. ground (arith, t, v.supplies j);
          names = λ j. ground (arith, t, v.names j);
          tickers = λ j. ground (arith, t, v.tickers j);
        }
  ]

  spend-IsTyped :
      (id : ℕ) (from to : AccountId) (value : ℕ) (s : State T)
      → IsTyped s
      → IsTyped (spend T id from to value s)
  spend-IsTyped id from to value s v = record {
    next_id = v.next_id;
    balances = v.balances;
    allowances = λ k. ground (
      arith,
      v.allowances k,
      v.allowances (id, from, to),
      allowance-spend T id from to value s k,
    );
    supplies = v.supplies;
    names = v.names;
    tickers = v.tickers;
  }

  transfer_from-IsTyped :
      (o : Origin) (id : ℕ) (from to : AccountId) (value : ℕ) (s : State T)
      → IsTyped s
      → IsTyped (transfer_from T o id from to value s).1
  transfer_from-IsTyped o id from to value s v = elim (CanSpend-cases T id from to value s) [
    | inr cannot ↦ rw (transfer_from-refused T o id from to value s cannot).1 v
    | inl can ↦ rw (transfer_from-spends T o id from to value s can) (
        move_balance-IsTyped id from to value (spend T id from to value s)
          (spend-IsTyped id from to value s v))
  ]

  dispatch-IsTyped :
      (o : Origin) (r : Request AccountId) (s : State T)
      → Fits r
      → IsTyped s
      → IsTyped (dispatch T o r s).1
  unfolding dispatch
  dispatch-IsTyped o (inits name ticker supply) s h v = init-IsTyped o name ticker supply s h v
  dispatch-IsTyped o (transfers id to value) s h v = transfer-IsTyped o id to value s v
  dispatch-IsTyped o (approves id spender value) s h v = approve-IsTyped o id spender value s v
  dispatch-IsTyped o (transfers_from id from to value) s h v =
      transfer_from-IsTyped o id from to value s v

  play-IsTyped :
      (rs : List (Origin × Request AccountId)) (s : State T)
      → AllFit rs
      → IsTyped s
      → IsTyped (run T rs s)
  unfolding run
  play-IsTyped [] s h v = v
  play-IsTyped ((o, r) ∷ rs) s h v =
      play-IsTyped rs (dispatch T o r s).1 h.1 (dispatch-IsTyped o r s h.0 v)

  -- After any sequence of extrinsics from the genesis whose supplies of new tokens are below 2 ^
  -- 64, the next token id is below 2 ^ 32, every balance, allowance and total supply is below 2
  -- ^ 64, and every name and ticker is at most 64 and 32 bytes long.
  pub run-IsTyped :
      (rs : List (Origin × Request AccountId)) → AllFit rs → IsTyped (run T rs (genesis T))
  run-IsTyped rs h = play-IsTyped rs (genesis T) h (record {
    next_id = omega arith;
    balances = λ k. ground (arith, T.balance_map.lookup-empty k);
    allowances = λ k. ground (arith, T.allowance_map.lookup-empty k);
    supplies = λ id. ground (arith, T.tokens_map.lookup-empty id);
    names = λ id. ground (arith, T.tokens_map.lookup-empty id);
    tickers = λ id. ground (arith, T.tokens_map.lookup-empty id);
  })
