-- ===== src/Erc20/Grants.antt =====
-- Allowances of pallets/erc20/src/lib.rs over a sequence of extrinsics: what was granted against what
-- was moved.
use e2_chain.Base.{
  ℕ, ◌+◌, ◌≤◌, ◌≡◌, inl, inr, refl, some, none, if◌then◌else◌, arith, at, ap, Option-cases, List,
  [], ◌∷◌, unwrap_or,
}
use e2_chain.Frame.{is_ok, Outcome-cases}
use e2_chain.Erc20.{Trait, State, allowance, init, transfer, approve, transfer_from}
use e2_chain.Erc20.Transfer.{move_balance-fixed}
use e2_chain.Erc20.Allowances.{
  transfer-signed, transfer-unsigned, CanSpend-cases, transfer_from-refused,
}
use e2_chain.Erc20.Spending.{
  allowance_discrete, approve-allowance, approve-signed, approve-atomic, transfer_from-lookup,
}
use e2_chain.Erc20.Requests.{
  Request, inits, transfers, approves, transfers_from, genesis, dispatch, run,
}

module _ (T : Trait) where
  open T use {AccountId, Origin, signer}

  -- A quantity of each extrinsic, added up over a sequence of them.
  unfoldable pub collect :
      (Origin → Request AccountId → State T → ℕ) → List (Origin × Request AccountId) → State T → ℕ
  collect f [] s = 0
  collect f ((o, r) ∷ rs) s = f o r s + collect f rs (dispatch T o r s).1

  -- What an extrinsic adds to the allowance at `k`: the value of an approval that succeeds.
  abbrev pub granted : ℕ × AccountId × AccountId → Origin → Request AccountId → State T → ℕ
  granted k o (inits name ticker supply) s = 0
  granted k o (transfers id to value) s = 0
  granted k o (approves id spender value) s = elim (signer o) [
    | none ↦ 0
    | some owner ↦
        if is_ok (approve T o id spender value s).0
        then at (allowance_discrete T) (id, owner, spender) value k
        else 0
  ]
  granted k o (transfers_from id from to value) s = 0

  -- What an extrinsic moves on the allowance at `k`: the value of a `transfer_from` that succeeds.
  abbrev pub moved : ℕ × AccountId × AccountId → Origin → Request AccountId → State T → ℕ
  moved k o (inits name ticker supply) s = 0
  moved k o (transfers id to value) s = 0
  moved k o (approves id spender value) s = 0
  moved k o (transfers_from id from to value) s =
      if is_ok (transfer_from T o id from to value s).0
      then at (allowance_discrete T) (id, from, to) value k
      else 0

  init-grants :
      (k : ℕ × AccountId × AccountId) (o : Origin) (name ticker : List ℕ) (supply : ℕ) (s : State T)
      → allowance T k (init T o name ticker supply s).1 ≡ allowance T k s
  unfolding init
  init-grants k o name ticker supply s = ground arith

  transfer-grants :
      (k : ℕ × AccountId × AccountId) (o : Origin) (id : ℕ) (to : AccountId) (value : ℕ)
      (s : State T)
      → allowance T k (transfer T o id to value s).1 ≡ allowance T k s
  transfer-grants k o id to value s = elim (Option-cases (signer o)) [
    | inl e ↦ rw (transfer-unsigned T o id to value s e) refl
    | inr (a, e) ↦ rw (transfer-signed T o a id to value s e) (
        ap (λ m. unwrap_or 0 (T.allowance_map.lookup k m)) (move_balance-fixed T id a to value s).1)
  ]

  approve-grants :
      (k : ℕ × AccountId × AccountId) (o : Origin) (id : ℕ) (spender : AccountId) (value : ℕ)
      (s : State T)
      → allowance T k (approve T o id spender value s).1
        ≡ allowance T k s + granted k o (approves id spender value) s
  approve-grants k o id spender value s = elim (Outcome-cases (approve T o id spender value s).0) [
    | inl done ↦
        let (owner, e, can) = approve-signed T o id spender value s done in
        ground (arith, approve-allowance T o owner id spender value s e can k)
    | inr failed ↦ ground (arith, approve-atomic T o id spender value s failed)
  ]

  transfer_from-grants :
      (k : ℕ × AccountId × AccountId) (o : Origin) (id : ℕ) (from to : AccountId) (value : ℕ)
      (s : State T)
      → allowance T k (transfer_from T o id from to value s).1
          + moved k o (transfers_from id from to value) s
        ≤ allowance T k s
  transfer_from-grants k o id from to value s = elim (CanSpend-cases T id from to value s) [
    | inl can ↦ ground (arith, can.enough, transfer_from-lookup T o id from to value s can k)
    | inr cannot ↦ ground (arith, transfer_from-refused T o id from to value s cannot)
  ]

  dispatch-grants :
      (k : ℕ × AccountId × AccountId) (o : Origin) (r : Request AccountId) (s : State T)
      → allowance T k (dispatch T o r s).1 + moved k o r s ≤ allowance T k s + granted k o r s
  unfolding dispatch
  dispatch-grants k o (inits name ticker supply) s =
      omega (arith, init-grants k o name ticker supply s)
  dispatch-grants k o (transfers id to value) s = omega (arith, transfer-grants k o id to value s)
  dispatch-grants k o (approves id spender value) s =
      omega (arith, approve-grants k o id spender value s)
  dispatch-grants k o (transfers_from id from to value) s =
      omega (arith, transfer_from-grants k o id from to value s)

  run-grants :
      (k : ℕ × AccountId × AccountId) (rs : List (Origin × Request AccountId)) (s : State T)
      → allowance T k (run T rs s) + collect (moved k) rs s
        ≤ allowance T k s + collect (granted k) rs s
  unfolding run collect
  run-grants k [] s = omega arith
  run-grants k ((o, r) ∷ rs) s =
      omega (arith, dispatch-grants k o r s, run-grants k rs (dispatch T o r s).1)

  -- After any sequence of extrinsics from the genesis, what was moved on the allowance of an
  -- owner and a spender and what is left of the allowance come to at most the sum of the
  -- approvals that succeeded.
  pub collect-moved-le :
      (rs : List (Origin × Request AccountId)) (k : ℕ × AccountId × AccountId)
      → collect (moved k) rs (genesis T) + allowance T k (run T rs (genesis T))
        ≤ collect (granted k) rs (genesis T)
  collect-moved-le rs k =
      ground (arith, run-grants k rs (genesis T), T.allowance_map.lookup-empty k)
