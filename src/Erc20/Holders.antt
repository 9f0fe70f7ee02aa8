-- ===== src/Erc20/Holders.antt =====
-- What the standard means to a holder, and that it holds along the extrinsics of
-- pallets/erc20/src/lib.rs.
use e2_chain.Base.{ℕ, ◌+◌, ◌-◌, ◌<◌, ◌≡◌, ◌⊎◌, inl, inr, some, arith, List}
use e2_chain.Frame.{System}
use e2_chain.Erc20.{Trait, balance_of, allowance}
use e2_chain.Erc20.Transfer.{key_discrete}
use e2_chain.Erc20.Spending.{allowance_discrete}
use e2_chain.Erc20.Requests.{Request, genesis, dispatch, run}
use e2_chain.Erc20.Backing.{genesis-IsBacked}
use e2_chain.Erc20.Reachable.{IsCross, AllCross, run-IsBacked}
use e2_chain.Erc20.Standard.{Book, Allows, nothing, issuing, moving, granting, drawing, wasting}
use e2_chain.Erc20.Refinement.{book, dispatch-Follows}

module _ (S : System) (d : Discrete (ℕ × S.AccountId))
    (e : Discrete (ℕ × S.AccountId × S.AccountId)) where
  open S use {AccountId, Origin, signer}

  -- Only the holder, or a spender on an allowance that it uses up, lowers a balance.
  pub Allows-debit :
      {o : Origin} (b b' : Book AccountId) (id : ℕ) (a : AccountId)
      → Allows S d e o b b'
      → b'.balance (id, a) < b.balance (id, a)
      → (signer o ≡ some a)
        ⊎ ((spender : AccountId) × (b'.allowance (id, a, spender)
                + (b.balance (id, a) - b'.balance (id, a))
              ≡ b.allowance (id, a, spender)))
  Allows-debit b b' id a (nothing x y z) h = absurd (omega (arith, x (id, a)))
  Allows-debit b b' id a (issuing owner j n w u v x y z) h = absurd (omega (arith, x (id, a)))
  Allows-debit b b' id a (moving j from to n w ne le x y z) h =
      inl (ground (arith, x (id, a), d (j, from) (id, a)))
  Allows-debit b b' id a (granting j owner spender n w x y z) h = absurd (omega (arith, x (id, a)))
  Allows-debit b b' id a (drawing j from to n ne le en x y z) h = inr (
    to,
    ground (
      arith,
      x (id, a),
      y (id, a, to),
      d (j, from) (id, a),
      d (j, to) (id, a),
      e (j, from, to) (id, a, to),
    ),
  )
  Allows-debit b b' id a (wasting j from to n en x y z) h = absurd (omega (arith, x (id, a)))

module _ (T : Trait) where
  open T use {AccountId, Origin, signer, system}

  -- After any sequence of extrinsics from the genesis in which nobody moves tokens to himself,
  -- the next extrinsic, unless it does so, is a step of the standard on the balances, allowances
  -- and supplies: nothing, an issue of a token that nobody holds, a transfer or an approval that
  -- the owner signed, a transfer on an allowance that it uses up, or an allowance that is used
  -- up without a transfer.
  pub run-Follows :
      (rs : List (Origin × Request AccountId)) (o : Origin) (r : Request AccountId)
      → AllCross T rs
      → IsCross T (o, r)
      → let s = run T rs (genesis T) in
        Allows system
          (key_discrete T)
          (allowance_discrete T)
          o
          (book T s)
          (book T (dispatch T o r s).1)
  run-Follows rs o r all cross =
      dispatch-Follows T o r (run T rs (genesis T))
        (run-IsBacked T rs (genesis T) all (genesis-IsBacked T)) cross

  -- After any sequence of extrinsics from the genesis in which nobody moves tokens to himself,
  -- if the next extrinsic, which does not do so either, lowers a balance, the holder signed it
  -- or an allowance of the holder went down by the same amount.
  pub run-debit :
      (rs : List (Origin × Request AccountId)) (o : Origin) (r : Request AccountId) (id : ℕ)
      (a : AccountId)
      → AllCross T rs
      → IsCross T (o, r)
      → balance_of T (id, a) (dispatch T o r (run T rs (genesis T))).1
        < balance_of T (id, a) (run T rs (genesis T))
      → let s = run T rs (genesis T) in
        let s' = (dispatch T o r s).1 in
        (signer o ≡ some a)
        ⊎ ((spender : AccountId) × (allowance T (id, a, spender) s'
                + (balance_of T (id, a) s - balance_of T (id, a) s')
              ≡ allowance T (id, a, spender) s))
  run-debit rs o r id a all cross h =
      Allows-debit system (key_discrete T) (allowance_discrete T) _ _ id a
        (run-Follows rs o r all cross) h
