-- ===== src/Chain/Deposits.antt =====
-- The deposits of the deeper-node pallet on a chain on which other pallets use the same ledger, by the
-- composition in runtime/src/lib.rs: what payments and other pallets take of them.
use e2_chain.Base.{
  ℕ, ◌+◌, ◌-◌, ◌≤◌, ◌<◌, ◌≡◌, ◌≢◌, ◌⊎◌, inl, inr, ◌==◌, if◌then◌else◌, true, arith, List, [], ◌∷◌,
  sym, subst,
}
use e2_chain.Chain.{
  Runtime, State, template_call, erc20_call, deeper_node_call, micropayment_call, Extrinsic,
  deeper_node_trait, micropayment_trait, deeper_node_of, micropayment_of, genesis, dispatch_pallet,
  run,
}
use e2_chain.Chain.Actions.{Action, calls, changes, act, play, actions, run-play}
use e2_chain.Chain.Settlement.{total_of}
use e2_chain.Frame.{Balances, allow_death, ok}
use e2_chain.DeeperNode.{min_lock_amt, is_registered, get_device_info}
use e2_chain.DeeperNode.Invariant.{IsRegistry, dispatch-IsRegistry, genesis-IsRegistry}
use e2_chain.Micropayment.Ledgers.{dispatch-Moves}

-- What `pallet_balances` documents of a transfer that allows death, with the worth of an account, its
-- free and reserved amounts: nothing that is reserved is transferred, but an account that is left
-- with less than the existential deposit is removed with all that it has.
pub record IsReaping {A : Type 0} (B : Balances A) (worth : A → B.Ledger → ℕ)
    (existential_deposit : ℕ) : Type 0 where
  pub reserved_le : (a : A) (l : B.Ledger) → B.reserved a l ≤ worth a l
  pub keeps :
      (a b c : A) (n : ℕ) (l : B.Ledger)
      → (B.reserved a l ≤ B.reserved a (B.transfer b c n allow_death l).1)
        ⊎ (worth a (B.transfer b c n allow_death l).1 ≡ 0)
  pub removes :
      (b c : A) (n : ℕ) (l : B.Ledger)
      → (B.transfer b c n allow_death l).0 ≡ ok tt
      → b ≢ c
      → 0 < n
      → worth b l < n + existential_deposit
      → worth b (B.transfer b c n allow_death l).1 ≡ 0

module _ (R : Runtime) where
  open R use {AccountId, Origin, balances}

  -- The registry of the chain: `IsRegistry` of what the pallet sees.
  abbrev pub IsOrdered : (AccountId → ℕ) → State R → Type 0
  IsOrdered w s = IsRegistry (deeper_node_trait R) w (deeper_node_of R s)

  -- What an action other than a call of the registry takes of what is reserved.
  unfoldable pub taken : AccountId → Action R → State R → ℕ
  taken a (calls now o (template_call r)) s = 0
  taken a (calls now o (erc20_call r)) s = 0
  taken a (calls now o (deeper_node_call r)) s = 0
  taken a (calls now o (micropayment_call r)) s =
      balances.reserved a s.ledger
      - balances.reserved a (dispatch_pallet R now o (micropayment_call r) s).1.ledger
  taken a (changes f) s = balances.reserved a s.ledger - balances.reserved a (f s.ledger)

  -- What the registry needs of another ledger.
  IsOrdered-ledger :
      (w w' : AccountId → ℕ) (l : balances.Ledger) (s : State R)
      → ((a : AccountId) → balances.reserved a s.ledger + w a ≤ balances.reserved a l + w' a)
      → IsOrdered w s
      → IsOrdered w' (record s { ledger = l })
  IsOrdered-ledger w w' l s h v = record {
    named = v.named;
    locked = λ a r. omega (arith, h a, v.locked a r);
    distinct = v.distinct;
  }

  act-IsOrdered :
      (w : AccountId → ℕ) (x : Action R) (s : State R)
      → IsOrdered w s
      → IsOrdered (λ a. w a + taken a x s) (act R x s)
  unfolding act taken dispatch_pallet
  act-IsOrdered w (calls now o (template_call r)) s v =
      IsOrdered-ledger w _ s.ledger s (λ a. omega arith) v
  act-IsOrdered w (calls now o (erc20_call r)) s v =
      IsOrdered-ledger w _ s.ledger s (λ a. omega arith) v
  act-IsOrdered w (calls now o (deeper_node_call r)) s v =
      let s' = (dispatch_pallet R now o (deeper_node_call r) s).1 in
      IsOrdered-ledger w _ s'.ledger s' (λ a. omega arith)
        (dispatch-IsRegistry (deeper_node_trait R) o r (deeper_node_of R s) v)
  act-IsOrdered w (calls now o (micropayment_call r)) s v =
      IsOrdered-ledger w _ (dispatch_pallet R now o (micropayment_call r) s).1.ledger s
        (λ a. omega arith) v
  act-IsOrdered w (changes f) s v = IsOrdered-ledger w _ (f s.ledger) s (λ a. omega arith) v

  pub play-IsOrdered :
      (w : AccountId → ℕ) (xs : List (Action R)) (s : State R)
      → IsOrdered w s
      → IsOrdered (λ a. w a + total_of R (taken a) xs s) (play R xs s)
  unfolding play total_of
  play-IsOrdered w [] s v = IsOrdered-ledger w _ s.ledger s (λ a. omega arith) v
  play-IsOrdered w (x ∷ xs) s v =
      let s' = play R xs (act R x s) in
      IsOrdered-ledger _ _ s'.ledger s' (λ a. omega arith)
        (play-IsOrdered (λ a. w a + taken a x s) xs (act R x s) (act-IsOrdered w x s v))

  pub run-IsOrdered :
      (xs : List (Extrinsic R)) (l : balances.Ledger)
      → IsOrdered
          (λ a. 0 + total_of R (taken a) (actions R xs (genesis R l)) (genesis R l))
          (run R xs (genesis R l))
  run-IsOrdered xs l =
      let s = genesis R l in
      subst (IsOrdered (λ a. 0 + total_of R (taken a) (actions R xs s) s)) (sym (run-play R xs s))
        (play-IsOrdered (λ a. 0) (actions R xs s) s (genesis-IsRegistry (deeper_node_trait R) l))

  module _ (worth : AccountId → balances.Ledger → ℕ) where
    -- What is reserved for an account that a call of micropayment leaves with nothing, and what other
    -- pallets take of it.
    unfoldable pub forfeited : AccountId → Action R → State R → ℕ
    forfeited a (calls now o (template_call r)) s = 0
    forfeited a (calls now o (erc20_call r)) s = 0
    forfeited a (calls now o (deeper_node_call r)) s = 0
    forfeited a (calls now o (micropayment_call r)) s =
        if worth a (dispatch_pallet R now o (micropayment_call r) s).1.ledger == 0
        then balances.reserved a s.ledger
        else 0
    forfeited a (changes f) s = balances.reserved a s.ledger - balances.reserved a (f s.ledger)

    module _ (existential_deposit : ℕ) (law : IsReaping balances worth existential_deposit) where
      taken-le-forfeited :
          (a : AccountId) (x : Action R) (s : State R) → taken a x s ≤ forfeited a x s
      unfolding taken forfeited dispatch_pallet
      taken-le-forfeited a (calls now o (template_call r)) s = omega arith
      taken-le-forfeited a (calls now o (erc20_call r)) s = omega arith
      taken-le-forfeited a (calls now o (deeper_node_call r)) s = omega arith
      taken-le-forfeited a (calls now o (micropayment_call r)) s =
          elim (dispatch-Moves (micropayment_trait R) now o r (micropayment_of R s)) [
            | inl e ↦ ground (arith, e)
            | inr (b, c, n, e) ↦ ground (arith, e, law.keeps a b c n s.ledger)
          ]
      taken-le-forfeited a (changes f) s = omega arith

      total-taken-le :
          (a : AccountId) (xs : List (Action R)) (s : State R)
          → total_of R (taken a) xs s ≤ total_of R (forfeited a) xs s
      unfolding total_of
      total-taken-le a [] s = omega arith
      total-taken-le a (x ∷ xs) s =
          omega (arith, taken-le-forfeited a x s, total-taken-le a xs (act R x s))

      -- Given that a transfer takes nothing that is reserved except where it leaves an account
      -- with nothing, after any sequence of extrinsics of a chain from the genesis each
      -- registered device stands under its own account, and what is reserved for that account,
      -- with what was reserved for it whenever a call of micropayment left it with nothing, and
      -- with what fees and other pallets took of its reserve, is at least the deposit.
      pub chain-locked :
          (xs : List (Extrinsic R)) (l : balances.Ledger) (a : AccountId)
          → is_registered (deeper_node_trait R) a (deeper_node_of R (run R xs (genesis R l))) ≡ true
          → let s = run R xs (genesis R l) in
            ((get_device_info (deeper_node_trait R) a (deeper_node_of R s)).account_id ≡ a)
            × (min_lock_amt
                ≤ balances.reserved a s.ledger
                  + total_of R (forfeited a) (actions R xs (genesis R l)) (genesis R l))
      chain-locked xs l a h =
          let v = run-IsOrdered xs l in
          (
            v.named a h,
            omega
                (arith, v.locked a h, total-taken-le a (actions R xs (genesis R l)) (genesis R l)),
          )
