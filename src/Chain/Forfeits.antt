-- ===== src/Chain/Forfeits.antt =====
-- How a payment of pallets/micropayment/src/lib.rs takes the deposit of pallets/deeper-node/src/lib.rs,
-- with the existential deposit of runtime/src/lib.rs.
use e2_chain.Base.{ℕ, ◌+◌, ◌<◌, ◌≡◌, ◌≢◌, true, arith, List}
use e2_chain.Frame.{allow_death, ok}
use e2_chain.Chain.{
  Runtime, State, micropayment_call, deeper_node_trait, micropayment_trait, deeper_node_of,
  micropayment_of, dispatch_pallet,
}
use e2_chain.Chain.Deposits.{IsReaping}
use e2_chain.DeeperNode.{is_registered}
use e2_chain.Micropayment.Claims.{CanPay, claim_payment-pays}
use e2_chain.Micropayment.Requests.{claims, dispatch}

-- `ExistentialDeposit`
abbrev pub existential_deposit : ℕ
existential_deposit = 500

module _ (R : Runtime) (worth : R.AccountId → R.balances.Ledger → ℕ)
    (law : IsReaping R.balances worth existential_deposit) where
  open R use {AccountId, Origin, balances}

  -- Given the balances pallet with the existential deposit of the runtime, which removes an
  -- account that a transfer leaves with less, and that reserved amounts are part of what an
  -- account is worth: a claim that can be paid, of a positive amount, on a channel from a
  -- registered account to another, that leaves the sender worth less than the existential
  -- deposit, succeeds and leaves the sender with nothing, also nothing reserved, while its
  -- device stays registered.
  pub claim_payment-forfeits :
      (now : ℕ) (o : Origin) (a b : AccountId) (id amount : ℕ) (signature : List ℕ) (s : State R)
      → CanPay (micropayment_trait R) now o a b id amount signature (micropayment_of R s)
      → a ≢ b
      → 0 < amount
      → is_registered (deeper_node_trait R) a (deeper_node_of R s) ≡ true
      → worth a s.ledger < amount + existential_deposit
      → let (r, s') =
          dispatch_pallet R now o (micropayment_call (claims a id amount signature)) s in
        (r ≡ ok tt)
        × (is_registered (deeper_node_trait R) a (deeper_node_of R s') ≡ true)
        × (balances.reserved a s'.ledger ≡ 0)
        × (worth a s'.ledger ≡ 0)
  unfolding dispatch_pallet dispatch
  claim_payment-forfeits now o a b id amount signature s can n some_amount h w =
      let pays =
        claim_payment-pays (micropayment_trait R) now o a b id amount signature
          (micropayment_of R s) can in
      let gone = law.removes a b amount s.ledger can.transferred n some_amount w in
      let l = (balances.transfer a b amount allow_death s.ledger).1 in
      rw pays (ground arith, h, omega (arith, law.reserved_le a l, gone), gone)
