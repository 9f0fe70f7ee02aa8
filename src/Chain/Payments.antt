-- ===== src/Chain/Payments.antt =====
-- Payments on a chain that other pallets' calls interrupt or wrap, by the composition in
-- runtime/src/lib.rs.
use e2_chain.Base.{ℕ, suc, ◌<◌, ◌^◌, ◌≡◌, refl, List, [], ◌∷◌, IsDistinct}
use e2_chain.Chain.{
  Runtime, State, template_call, erc20_call, deeper_node_call, micropayment_call, Extrinsic,
  micropayment_trait, micropayment_of, genesis, dispatch_pallet,
}
use e2_chain.Chain.Actions.{Action, calls, changes, act, actions}
use e2_chain.Micropayment.Requests.{Payment, payment, add_payment}
use e2_chain.Micropayment as Micropayment
use e2_chain.Micropayment.Replay.{
  Trace, ended, apart, step-Trace, Trace-IsDistinct, genesis-HasRoom, genesis-IsNonced,
}

module _ (R : Runtime) where
  open R use {AccountId, Origin, balances}

  abbrev pub add_paid : Action R → State R → List (Payment AccountId) → List (Payment AccountId)
  add_paid (calls now o (template_call r)) s ps = ps
  add_paid (calls now o (erc20_call r)) s ps = ps
  add_paid (calls now o (deeper_node_call r)) s ps = ps
  add_paid (calls now o (micropayment_call r)) s ps =
      add_payment (micropayment_trait R)
        (payment (micropayment_trait R) now o r (micropayment_of R s)) ps
  add_paid (changes f) s ps = ps

  -- The payments of a sequence of actions, in order.
  unfoldable pub action_payments : List (Action R) → State R → List (Payment AccountId)
  action_payments [] s = []
  action_payments (x ∷ xs) s = add_paid x s (action_payments xs (act R x s))

  -- The payments of a chain.
  abbrev pub chain_payments : List (Extrinsic R) → State R → List (Payment AccountId)
  chain_payments xs s = action_payments (actions R xs s) s

  -- How many calls of micropayment there are among the actions.
  abbrev pub micropayment_calls : List (Action R) → ℕ
  micropayment_calls [] = 0
  micropayment_calls (calls now o (template_call r) ∷ xs) = micropayment_calls xs
  micropayment_calls (calls now o (erc20_call r) ∷ xs) = micropayment_calls xs
  micropayment_calls (calls now o (deeper_node_call r) ∷ xs) = micropayment_calls xs
  micropayment_calls (calls now o (micropayment_call r) ∷ xs) = suc (micropayment_calls xs)
  micropayment_calls (changes f ∷ xs) = micropayment_calls xs

  -- An action of anything else leaves the channels alone.
  elsewhere :
      {n : ℕ} {ps : List (Payment AccountId)} (s s' : Micropayment.State (micropayment_trait R))
      → s'.channels ≡ s.channels
      → s'.nonces ≡ s.nonces
      → s'.sessions ≡ s.sessions
      → Trace (micropayment_trait R) n s' ps
      → Trace (micropayment_trait R) n s ps
  elsewhere s s' c n h t = apart s s' (record { channels = c; nonces = n; sessions = h }) t

  play-Trace :
      (xs : List (Action R)) (s : State R)
      → Trace
          (micropayment_trait R)
          (micropayment_calls xs)
          (micropayment_of R s)
          (action_payments xs s)
  unfolding action_payments act dispatch_pallet
  play-Trace [] s = ended (micropayment_of R s)
  play-Trace (calls now o (template_call r) ∷ xs) s =
      elsewhere _ _ refl refl refl (play-Trace xs (act R (calls now o (template_call r)) s))
  play-Trace (calls now o (erc20_call r) ∷ xs) s =
      elsewhere _ _ refl refl refl (play-Trace xs (act R (calls now o (erc20_call r)) s))
  play-Trace (calls now o (deeper_node_call r) ∷ xs) s =
      elsewhere _ _ refl refl refl (play-Trace xs (act R (calls now o (deeper_node_call r)) s))
  play-Trace (calls now o (micropayment_call r) ∷ xs) s =
      step-Trace (micropayment_trait R) now o r (micropayment_of R s)
        (play-Trace xs (act R (calls now o (micropayment_call r)) s))
  play-Trace (changes f ∷ xs) s = elsewhere _ _ refl refl refl (play-Trace xs (act R (changes f) s))

  -- On a chain that starts at the genesis with any ledger, if fewer than 2 ^ 64 calls of
  -- micropayment are dispatched, by themselves or from within calls of other pallets, no
  -- sequence of extrinsics makes the same channel payment twice: the quadruples of sender,
  -- receiver, nonce of the channel and session of the claims that were paid are all different.
  pub chain_payments-IsDistinct :
      (xs : List (Extrinsic R)) (l : balances.Ledger)
      → micropayment_calls (actions R xs (genesis R l)) < 2 ^ 64
      → IsDistinct (chain_payments xs (genesis R l))
  chain_payments-IsDistinct xs l h =
      Trace-IsDistinct (micropayment_trait R)
        (play-Trace (actions R xs (genesis R l)) (genesis R l))
        (genesis-HasRoom (micropayment_trait R) l (micropayment_calls (actions R xs (genesis R l)))
          h)
        (genesis-IsNonced (micropayment_trait R) l)
