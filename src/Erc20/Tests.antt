-- ===== src/Erc20/Tests.antt =====
-- Concrete calls of pallets/erc20/src/lib.rs, on stores that are functions.
use e2_chain.Base.{
  ℕ, ◌+◌, ◌-◌, ◌≤◌, ◌<◌, ◌⊎◌, ◌≡◌, ◌≢◌, ◌↔◌, refl, Option, some, none, arith, ℕ_discrete, List, [],
  ◌∷◌, discrete_pair, discrete_triple, total, IsDistinct,
}
use e2_chain.Frame.{test_system, fun_map, ok}
use e2_chain.Erc20.{
  Trait, State, balance_of, allowance, token_details, init, transfer, move_balance, approve,
  transfer_from,
}
use e2_chain.Erc20.Transfer.{CanMove, key_discrete, move_balance-succeeds, move_balance_self}
use e2_chain.Erc20.Allowances.{CanSpend}
use e2_chain.Erc20.Spending.{
  CanApprove, allowance_discrete, transfer_from-succeeds, transfer_from-loses,
  transfer_from-unsigned,
}
use e2_chain.Erc20.Requests.{
  Request, inits, transfers, approves, transfers_from, genesis, dispatch, run,
}
use e2_chain.Erc20.Standard.{Allows}
use e2_chain.Erc20.Refinement.{book}
use e2_chain.Erc20.Holders.{run-Follows, run-debit}
use e2_chain.Erc20.Grants.{collect, granted, moved, collect-moved-le}
use e2_chain.Erc20.Journal.{debits, credits, issued_to, run-journal}
use e2_chain.Erc20.Widths.{IsTyped, AllFit, run-IsTyped}
use e2_chain.Erc20.Supply.{held, move_balance-conserves}
use e2_chain.Erc20.Reachable.{AllCross, run-backed}

abbrev test_trait : Trait
test_trait = record {
  system = test_system ℕ_discrete;
  tokens_map = fun_map ℕ_discrete;
  balance_map = fun_map (discrete_pair ℕ_discrete ℕ_discrete);
  allowance_map = fun_map (discrete_triple ℕ_discrete ℕ_discrete ℕ_discrete);
}

-- Account 1 holds 100 units of token 0, and account 2 may take 30 of them.
abbrev issued : State test_trait
issued = record (genesis test_trait) {
  next_id = 1;
  balances = test_trait.balance_map.insert (0, 1) 100 (test_trait.balance_map.empty);
  allowances = test_trait.allowance_map.insert (0, 1, 2) 30 (test_trait.allowance_map.empty);
}

issued-CanMove : CanMove test_trait 0 1 2 30 issued
unfolding discrete_pair ℕ_discrete
issued-CanMove = record { owns = refl; covered = ground arith; fits = ground arith }

issued-CanMove_self : CanMove test_trait 0 1 1 30 issued
unfolding discrete_pair ℕ_discrete
issued-CanMove_self = record { owns = refl; covered = ground arith; fits = ground arith }

issued-CanSpend : CanSpend test_trait 0 1 2 30 issued
unfolding discrete_triple ℕ_discrete
issued-CanSpend = record { allowed = refl; enough = ground arith }

issued-CanApprove : CanApprove test_trait 0 1 2 5 issued
unfolding discrete_pair discrete_triple ℕ_discrete
issued-CanApprove = record { owns = refl; fits = ground arith }

-- An allowance of 30 over a balance of 10.
abbrev overdrawn : State test_trait
overdrawn = record issued {
  balances = test_trait.balance_map.insert (0, 1) 10 test_trait.balance_map.empty;
}

overdrawn-CanSpend : CanSpend test_trait 0 1 2 30 overdrawn
unfolding discrete_triple ℕ_discrete
overdrawn-CanSpend = record { allowed = refl; enough = ground arith }

overdrawn-CanMove : ¬ CanMove test_trait 0 1 2 30 overdrawn
unfolding discrete_pair ℕ_discrete
overdrawn-CanMove can = ground (arith, can.covered)

one_is_not_two : ◌≢◌ {A = ℕ} 1 2
one_is_not_two e = omega arith

abbrev both : List ℕ
both = 1 ∷ 2 ∷ []

both-IsDistinct : IsDistinct both
both-IsDistinct = ((one_is_not_two, tt), (tt, tt))

-- Account 1 issues 100 units, sends 40 of them to account 2, and lets it take 10 more.
abbrev history : List (Option ℕ × Request ℕ)
history =
    (some 1, inits [] [] 100)
    ∷ (some 1, transfers 0 2 40)
    ∷ (some 1, approves 0 2 10)
    ∷ (none, transfers_from 0 1 2 10)
    ∷ []

history-AllCross : AllCross test_trait history
history-AllCross = (tt, ((λ e. ground arith), (tt, (one_is_not_two, tt))))

run-backed_example :
    let s = run test_trait history (genesis test_trait) in
    total (λ a. balance_of test_trait (0, a) s) both ≤ (token_details test_trait 0 s).total_supply
run-backed_example = run-backed test_trait history history-AllCross 0 both both-IsDistinct

move_balance-succeeds_example :
    ((move_balance test_trait 0 1 2 30 issued).0 ≡ ok tt) ↔ CanMove test_trait 0 1 2 30 issued
move_balance-succeeds_example = move_balance-succeeds test_trait 0 1 2 30 issued

move_balance_self_example :
    balance_of test_trait (0, 1) (move_balance test_trait 0 1 1 30 issued).1
    ≡ balance_of test_trait (0, 1) issued + 30
move_balance_self_example = move_balance_self test_trait 0 1 30 issued issued-CanMove_self

transfer_from-succeeds_example :
    ((transfer_from test_trait none 0 1 2 30 issued).0 ≡ ok tt)
    ↔ (CanSpend test_trait 0 1 2 30 issued × CanMove test_trait 0 1 2 30 issued)
transfer_from-succeeds_example = transfer_from-succeeds test_trait none 0 1 2 30 issued

transfer_from-loses_example :
    let (r, s) = transfer_from test_trait (some 2) 0 1 2 30 overdrawn in
    (r ≢ ok tt)
    × (s.balances ≡ overdrawn.balances)
    × (allowance test_trait (0, 1, 2) s + 30 ≡ allowance test_trait (0, 1, 2) overdrawn)
transfer_from-loses_example =
    transfer_from-loses test_trait (some 2) 0 1 2 30 overdrawn overdrawn-CanSpend overdrawn-CanMove

transfer_from-unsigned_example :
    let (r, s) = transfer_from test_trait none 0 1 2 30 issued in
    (r ≡ ok tt)
    × (balance_of test_trait (0, 1) s + 30 ≡ balance_of test_trait (0, 1) issued)
    × (balance_of test_trait (0, 2) s ≡ balance_of test_trait (0, 2) issued + 30)
transfer_from-unsigned_example =
    transfer_from-unsigned test_trait none 0 1 2 30 issued refl one_is_not_two issued-CanSpend
      issued-CanMove

-- What `history` leaves.
abbrev spent : State test_trait
spent = run test_trait history (genesis test_trait)

run-Follows_example :
    Allows
      (test_system ℕ_discrete)
      (key_discrete test_trait)
      (allowance_discrete test_trait)
      (some 2)
      (book test_trait spent)
      (book test_trait (dispatch test_trait (some 2) (transfers 0 1 20) spent).1)
run-Follows_example =
    run-Follows test_trait history (some 2) (transfers 0 1 20) history-AllCross (λ e. ground arith)

spent-lowers :
    balance_of test_trait (0, 2) (dispatch test_trait (some 2) (transfers 0 1 20) spent).1
    < balance_of test_trait (0, 2) spent
unfolding run dispatch init transfer approve transfer_from move_balance discrete_pair
    discrete_triple ℕ_discrete
spent-lowers = ground arith

run-debit_example :
    let s' = (dispatch test_trait (some 2) (transfers 0 1 20) spent).1 in
    (◌≡◌ {A = Option ℕ} (some 2) (some 2))
    ⊎ ((spender : ℕ) × (allowance test_trait (0, 2, spender) s'
            + (balance_of test_trait (0, 2) spent - balance_of test_trait (0, 2) s')
          ≡ allowance test_trait (0, 2, spender) spent))
run-debit_example =
    run-debit test_trait history (some 2) (transfers 0 1 20) 0 2 history-AllCross
      (λ e. ground arith) spent-lowers

collect-moved-le_example :
    collect test_trait (moved test_trait (0, 1, 2)) history (genesis test_trait)
      + allowance test_trait (0, 1, 2) spent
    ≤ collect test_trait (granted test_trait (0, 1, 2)) history (genesis test_trait)
collect-moved-le_example = collect-moved-le test_trait history (0, 1, 2)

run-journal_example :
    balance_of test_trait (0, 2) spent + debits test_trait (0, 2) spent.events
    ≡ credits test_trait (0, 2) spent.events
      + collect test_trait (issued_to test_trait (0, 2)) history (genesis test_trait)
run-journal_example = run-journal test_trait history (0, 2) history-AllCross

history-AllFit : AllFit test_trait history
history-AllFit = (omega arith, (tt, (tt, (tt, tt))))

run-IsTyped_example : IsTyped test_trait (run test_trait history (genesis test_trait))
run-IsTyped_example = run-IsTyped test_trait history history-AllFit

move_balance-conserves_example :
    total (held test_trait 0 (move_balance test_trait 0 1 2 30 issued).1) both
    ≡ total (held test_trait 0 issued) both
move_balance-conserves_example =
    move_balance-conserves test_trait 0 1 2 30 issued issued-CanMove one_is_not_two both
      both-IsDistinct (λ h. h.0 refl) (λ h. h.1.0 refl)
