-- ===== src/Erc20/Journal.antt =====
-- The events of pallets/erc20/src/lib.rs as a journal with two entries for each transfer, from which,
-- with what was issued, every balance can be computed.
use e2_chain.Base.{
  ℕ, ◌+◌, ◌≡◌, ◌≢◌, inl, inr, refl, some, none, if◌then◌else◌, arith, at, Option-cases, List, [],
  ◌∷◌,
}
use e2_chain.Frame.{is_ok, Outcome-cases}
use e2_chain.Erc20.{
  Trait, State, Event, transferred, approval, balance_of, init, move_balance, transfer, approve,
  transfer_from,
}
use e2_chain.Erc20.Transfer.{
  key_discrete, ne-key, CanMove, move_balance-succeeds, move_balance-atomic, move_balance-lookup,
}
use e2_chain.Erc20.Allowances.{
  transfer-signed, transfer-unsigned, spend, CanSpend-cases, transfer_from-spends,
  transfer_from-refused,
}
use e2_chain.Erc20.Issue.{init-signed, init-atomic, init-writes, init-lookup_balance}
use e2_chain.Erc20.Requests.{
  Request, inits, transfers, approves, transfers_from, genesis, dispatch, run,
}
use e2_chain.Erc20.Backing.{IsBacked, genesis-IsBacked}
use e2_chain.Erc20.Reachable.{IsCross, AllCross, dispatch-IsBacked}
use e2_chain.Erc20.Refinement.{unheld_at}
use e2_chain.Erc20.Grants.{collect}

module _ (T : Trait) where
  open T use {AccountId, Origin, signer}

  -- What the events take from a balance, and what they give to it.
  abbrev pub debits : ℕ × AccountId → List (Event AccountId) → ℕ
  debits k [] = 0
  debits k (transferred id from to value ∷ es) =
      at (key_discrete T) (id, from) value k + debits k es
  debits k (approval id owner spender value ∷ es) = debits k es

  abbrev pub credits : ℕ × AccountId → List (Event AccountId) → ℕ
  credits k [] = 0
  credits k (transferred id from to value ∷ es) =
      at (key_discrete T) (id, to) value k + credits k es
  credits k (approval id owner spender value ∷ es) = credits k es

  -- What an extrinsic issues to a balance: `init` deposits no event.
  abbrev pub issued_to : ℕ × AccountId → Origin → Request AccountId → State T → ℕ
  issued_to k o (inits name ticker supply) s = elim (signer o) [
    | none ↦ 0
    | some owner ↦
        if is_ok (init T o name ticker supply s).0
        then at (key_discrete T) (s.next_id, owner) supply k
        else 0
  ]
  issued_to k o (transfers id to value) s = 0
  issued_to k o (approves id spender value) s = 0
  issued_to k o (transfers_from id from to value) s = 0

  -- The journal accounts for the balance at `k`, with `n` issued.
  abbrev IsJournal : ℕ × AccountId → ℕ → State T → Type 0
  IsJournal k n s = balance_of T k s + debits k s.events ≡ credits k s.events + n

  move_balance-events :
      (id : ℕ) (from to : AccountId) (value : ℕ) (s : State T)
      → CanMove T id from to value s
      → (move_balance T id from to value s).1.events ≡ transferred id from to value ∷ s.events
  unfolding move_balance
  move_balance-events id from to value s can = ground arith

  move_balance-IsJournal :
      (k : ℕ × AccountId) (n id : ℕ) (from to : AccountId) (value : ℕ) (s : State T)
      → from ≢ to
      → IsJournal k n s
      → IsJournal k n (move_balance T id from to value s).1
  move_balance-IsJournal k n id from to value s ne v =
      elim (Outcome-cases (move_balance T id from to value s).0) [
        | inr failed ↦ rw (move_balance-atomic T id from to value s failed) v
        | inl done ↦
            let can = (move_balance-succeeds T id from to value s).0 done in
            rw (move_balance-events id from to value s can) (
              ground (
                arith,
                can.covered,
                ne-key T id id from to ne,
                move_balance-lookup T id from to value s can k,
              ))
      ]

  transfer-IsJournal :
      (k : ℕ × AccountId) (n : ℕ) (o : Origin) (id : ℕ) (to : AccountId) (value : ℕ) (s : State T)
      → signer o ≢ some to
      → IsJournal k n s
      → IsJournal k n (transfer T o id to value s).1
  transfer-IsJournal k n o id to value s ne v = elim (Option-cases (signer o)) [
    | inl e ↦ rw (transfer-unsigned T o id to value s e) v
    | inr (a, e) ↦
        rw (transfer-signed T o a id to value s e)
          (move_balance-IsJournal k n id a to value s (λ p. ne (rw (e, p) refl)) v)
  ]

  approve-IsJournal :
      (k : ℕ × AccountId) (n : ℕ) (o : Origin) (id : ℕ) (spender : AccountId) (value : ℕ)
      (s : State T)
      → IsJournal k n s
      → IsJournal k n (approve T o id spender value s).1
  unfolding approve
  approve-IsJournal k n o id spender value s v = ground arith

  transfer_from-IsJournal :
      (k : ℕ × AccountId) (n : ℕ) (o : Origin) (id : ℕ) (from to : AccountId) (value : ℕ)
      (s : State T)
      → from ≢ to
      → IsJournal k n s
      → IsJournal k n (transfer_from T o id from to value s).1
  transfer_from-IsJournal k n o id from to value s ne v =
      elim (CanSpend-cases T id from to value s) [
        | inl can ↦
            rw (transfer_from-spends T o id from to value s can)
              (move_balance-IsJournal k n id from to value (spend T id from to value s) ne v)
        | inr cannot ↦ rw (transfer_from-refused T o id from to value s cannot).1 v
      ]

  init-IsJournal :
      (k : ℕ × AccountId) (n : ℕ) (o : Origin) (name ticker : List ℕ) (supply : ℕ) (s : State T)
      → IsBacked T s
      → IsJournal k n s
      → IsJournal k
          (n + issued_to k o (inits name ticker supply) s)
          (init T o name ticker supply s).1
  init-IsJournal k n o name ticker supply s b v =
      elim (Outcome-cases (init T o name ticker supply s).0) [
        | inr failed ↦ ground (arith, init-atomic T o name ticker supply s failed)
        | inl done ↦
            let (owner, can) = init-signed T o name ticker supply s done in
            ground (
              arith,
              init-writes T o owner name ticker supply s can,
              init-lookup_balance T o owner name ticker supply s can k,
              unheld_at T k s b,
            )
      ]

  dispatch-IsJournal :
      (k : ℕ × AccountId) (n : ℕ) (o : Origin) (r : Request AccountId) (s : State T)
      → IsCross T (o, r)
      → IsBacked T s
      → IsJournal k n s
      → IsJournal k (n + issued_to k o r s) (dispatch T o r s).1
  unfolding dispatch
  dispatch-IsJournal k n o (inits name ticker supply) s c b v =
      init-IsJournal k n o name ticker supply s b v
  dispatch-IsJournal k n o (transfers id to value) s c b v =
      omega (arith, transfer-IsJournal k n o id to value s c v)
  dispatch-IsJournal k n o (approves id spender value) s c b v =
      omega (arith, approve-IsJournal k n o id spender value s v)
  dispatch-IsJournal k n o (transfers_from id from to value) s c b v =
      omega (arith, transfer_from-IsJournal k n o id from to value s c v)

  run-IsJournal :
      (k : ℕ × AccountId) (n : ℕ) (rs : List (Origin × Request AccountId)) (s : State T)
      → AllCross T rs
      → IsBacked T s
      → IsJournal k n s
      → IsJournal k (n + collect T (issued_to k) rs s) (run T rs s)
  unfolding run collect
  run-IsJournal k n [] s c b v = omega arith
  run-IsJournal k n ((o, r) ∷ rs) s c b v = omega (
    arith,
    run-IsJournal k (n + issued_to k o r s) rs (dispatch T o r s).1 c.1
        (dispatch-IsBacked T o r s c.0 b) (dispatch-IsJournal k n o r s c.0 b v),
  )

  -- After any sequence of extrinsics from the genesis in which nobody moves tokens to himself,
  -- every balance can be computed from the events and the issues: with what the transfer events
  -- take from it, it is what they give to it and what was issued to it.
  pub run-journal :
      (rs : List (Origin × Request AccountId)) (k : ℕ × AccountId)
      → AllCross T rs
      → let s = run T rs (genesis T) in
        balance_of T k s + debits k s.events
        ≡ credits k s.events + collect T (issued_to k) rs (genesis T)
  run-journal rs k c = omega (
    arith,
    run-IsJournal k 0 rs (genesis T) c (genesis-IsBacked T)
        (ground (arith, T.balance_map.lookup-empty k)),
  )
