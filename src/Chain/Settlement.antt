-- ===== src/Chain/Settlement.antt =====
-- What an account is worth on a chain of runtime/src/lib.rs, its free and reserved amounts together:
-- deposits do not change it; payments, fees and the other pallets do.
use e2_chain.Base.{ℕ, ◌+◌, ◌-◌, ◌*◌, ◌≤◌, ◌≡◌, arith, List, [], ◌∷◌}
use e2_chain.Frame.{Balances, as_currency}
use e2_chain.Chain.{
  Runtime, State, template_call, erc20_call, deeper_node_call, micropayment_call, Extrinsic,
  deeper_node_trait, micropayment_trait, deeper_node_of, micropayment_of, genesis, dispatch_pallet,
  run,
}
use e2_chain.Chain.Actions.{Action, calls, changes, act, play, actions, run-play}
use e2_chain.DeeperNode.Ledgers.{dispatch-ledger}
use e2_chain.Micropayment as Micropayment
use e2_chain.Micropayment.Requests as MicropaymentCalls
use e2_chain.Micropayment.Invariant.{IsWellFormed, dispatch-IsWellFormed, genesis-IsWellFormed}
use e2_chain.Micropayment.Settlement.{IsCurrency, outgoing, incoming, spending, dispatch-IsSettled}

-- What the balances pallet documents of the worth of an account: a transfer moves an amount, and what
-- is reserved and given back stays the account's.
pub record IsMoney {A : Type 0} (B : Balances A) (worth : A → B.Ledger → ℕ) (dust : ℕ)
    : Type 0 where
  pub currency : IsCurrency (as_currency B) worth dust
  pub reserving : (a b : A) (n : ℕ) (l : B.Ledger) → worth a (B.reserve b n l).1 ≡ worth a l
  pub unreserving : (a b : A) (n : ℕ) (l : B.Ledger) → worth a (B.unreserve b n l).1 ≡ worth a l

module _ (R : Runtime) where
  open R use {AccountId, Origin, balances}

  -- A quantity of the calls of micropayment among the actions, added up.
  abbrev pub of_claim :
      (MicropaymentCalls.Extrinsic (micropayment_trait R)
        → Micropayment.State (micropayment_trait R)
        → ℕ)
      → Action R
      → State R
      → ℕ
  of_claim f (calls now o (template_call r)) s = 0
  of_claim f (calls now o (erc20_call r)) s = 0
  of_claim f (calls now o (deeper_node_call r)) s = 0
  of_claim f (calls now o (micropayment_call r)) s =
      f (record { now = now; origin = o; request = r }) (micropayment_of R s)
  of_claim f (changes g) s = 0

  -- A quantity of the changes of other pallets.
  abbrev pub of_change : (balances.Ledger → balances.Ledger → ℕ) → Action R → State R → ℕ
  of_change f (calls now o c) s = 0
  of_change f (changes g) s = f s.ledger (g s.ledger)

  unfoldable pub total_of : (Action R → State R → ℕ) → List (Action R) → State R → ℕ
  total_of f [] s = 0
  total_of f (x ∷ xs) s = f x s + total_of f xs (act R x s)

  module _ (worth : AccountId → balances.Ledger → ℕ) (dust : ℕ) where
    abbrev pub sent : AccountId → Action R → State R → ℕ
    sent a = of_claim (outgoing (micropayment_trait R) a)

    abbrev pub got : AccountId → Action R → State R → ℕ
    got a = of_claim (incoming (micropayment_trait R) a)

    abbrev pub spent : AccountId → Action R → State R → ℕ
    spent a = of_claim (spending (micropayment_trait R) a)

    abbrev pub gained : AccountId → Action R → State R → ℕ
    gained a = of_change λ l l'. worth a l' - worth a l

    abbrev pub lost : AccountId → Action R → State R → ℕ
    lost a = of_change λ l l'. worth a l - worth a l'

    -- The worth of `a` at first and at last, with what was sent, got, spent, gained and lost.
    abbrev pub IsSettled : ℕ → ℕ → ℕ → ℕ → ℕ → ℕ → ℕ → Type 0
    IsSettled w w' out in_ count up down =
        (w' + out + down ≤ w + in_ + up) × (w + in_ + up ≤ w' + out + down + dust * count)

    -- What a chain keeps of the channels.
    abbrev IsSound : State R → Type 0
    IsSound s = IsWellFormed (micropayment_trait R) (micropayment_of R s)

    module _ (law : IsMoney balances worth dust) where
      act-IsSettled :
          (a : AccountId) (x : Action R) (s : State R)
          → IsSound s
          → IsSettled
              (worth a s.ledger)
              (worth a (act R x s).ledger)
              (sent a x s)
              (got a x s)
              (spent a x s)
              (gained a x s)
              (lost a x s)
      unfolding act dispatch_pallet
      act-IsSettled a (calls now o (template_call r)) s v = omega arith
      act-IsSettled a (calls now o (erc20_call r)) s v = omega arith
      act-IsSettled a (calls now o (deeper_node_call r)) s v = omega (
        arith,
        dispatch-ledger (deeper_node_trait R) (worth a) (law.reserving a) (law.unreserving a) o r
            (deeper_node_of R s),
      )
      act-IsSettled a (calls now o (micropayment_call r)) s v = omega (
        arith,
        dispatch-IsSettled (micropayment_trait R) worth dust law.currency a now o r
            (micropayment_of R s) v,
      )
      act-IsSettled a (changes f) s v = omega arith

    act-IsSound : (x : Action R) (s : State R) → IsSound s → IsSound (act R x s)
    unfolding act dispatch_pallet
    act-IsSound (calls now o (template_call r)) s v = v
    act-IsSound (calls now o (erc20_call r)) s v = v
    act-IsSound (calls now o (deeper_node_call r)) s v = record { keyed = v.keyed; owned = v.owned }
    act-IsSound (calls now o (micropayment_call r)) s v =
        dispatch-IsWellFormed (micropayment_trait R) now o r (micropayment_of R s) v
    act-IsSound (changes f) s v = record { keyed = v.keyed; owned = v.owned }

    play-IsSettled :
        (xs : List (Action R)) (a : AccountId) (s : State R)
        → IsMoney balances worth dust
        → IsSound s
        → IsSettled
            (worth a s.ledger)
            (worth a (play R xs s).ledger)
            (total_of (sent a) xs s)
            (total_of (got a) xs s)
            (total_of (spent a) xs s)
            (total_of (gained a) xs s)
            (total_of (lost a) xs s)
    unfolding play total_of
    play-IsSettled [] a s law v = omega arith
    play-IsSettled (x ∷ xs) a s law v =
        let now = act-IsSettled law a x s v in
        let later = play-IsSettled xs a (act R x s) law (act-IsSound x s v) in
        (omega (arith, now.0, later.0), omega (arith, now.1, later.1))

    -- Given that reserving and giving back do not change what an account is worth, its free and
    -- reserved amounts together, and that a transfer moves its amount of it or changes nothing,
    -- and may take up to some dust from the payer: after any sequence of extrinsics of a chain
    -- from its genesis, what an account is worth with what it sent in payments and lost to fees
    -- and other pallets is at most what it was worth with what it got in payments and gained
    -- from fees that were corrected and from other pallets, and falls short of that by at most
    -- the dust for each of its payments.
    pub chain-IsSettled :
        (xs : List (Extrinsic R)) (l : balances.Ledger) (a : AccountId)
        → IsMoney balances worth dust
        → let ys = actions R xs (genesis R l) in
          let s = genesis R l in
          IsSettled
            (worth a l)
            (worth a (run R xs s).ledger)
            (total_of (sent a) ys s)
            (total_of (got a) ys s)
            (total_of (spent a) ys s)
            (total_of (gained a) ys s)
            (total_of (lost a) ys s)
    chain-IsSettled xs l a law = rw (run-play R xs (genesis R l)) (
        play-IsSettled (actions R xs (genesis R l)) a (genesis R l) law
          (genesis-IsWellFormed (micropayment_trait R) l))
