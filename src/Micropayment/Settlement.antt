-- ===== src/Micropayment/Settlement.antt =====
-- Where the money of pallets/micropayment/src/lib.rs goes: an account loses what it signed away and
-- gains what it was paid, over any sequence of extrinsics.
use e2_chain.Base.{
  ℕ, ◌+◌, ◌*◌, ◌≤◌, ◌≡◌, ◌≢◌, inl, inr, some, none, Option, arith, at, ap, Option-cases, List, [],
  ◌∷◌,
}
use e2_chain.Frame.{ok, Currency, ExistenceRequirement, allow_death}
use e2_chain.Micropayment.{
  Trait, State, open_channel, close_channel, claim_payment, verify_signature,
}
use e2_chain.Micropayment.Claims.{claim_payment-pays}
use e2_chain.Micropayment.Requests.{
  Request, opens, closes, claims, Extrinsic, Payment, after, dispatch, payment, run,
}
use e2_chain.Micropayment.Replay.{genesis, payment-eq_of_ok}
use e2_chain.Micropayment.Invariant.{IsWellFormed, dispatch-IsWellFormed, genesis-IsWellFormed}

-- What `Currency::transfer` documents of the free amount of an account: it moves the amount or fails
-- and changes nothing; an account that is left with less than `dust` may lose that too.
pub record IsCurrency {AccountId : Type 0} (C : Currency AccountId)
    (free : AccountId → C.Ledger → ℕ) (dust : ℕ) : Type 0 where
  pub fails :
      (a b : AccountId) (n : ℕ) (e : ExistenceRequirement) (l : C.Ledger)
      → (C.transfer a b n e l).0 ≢ ok tt
      → (C.transfer a b n e l).1 ≡ l
  pub takes :
      (a b : AccountId) (n : ℕ) (e : ExistenceRequirement) (l : C.Ledger)
      → (C.transfer a b n e l).0 ≡ ok tt
      → a ≢ b
      → (free a (C.transfer a b n e l).1 + n ≤ free a l)
        × (free a l ≤ free a (C.transfer a b n e l).1 + n + dust)
  pub gives :
      (a b : AccountId) (n : ℕ) (e : ExistenceRequirement) (l : C.Ledger)
      → (C.transfer a b n e l).0 ≡ ok tt
      → a ≢ b
      → free b (C.transfer a b n e l).1 ≡ free b l + n
  pub others :
      (a b c : AccountId) (n : ℕ) (e : ExistenceRequirement) (l : C.Ledger)
      → a ≢ c
      → b ≢ c
      → free c (C.transfer a b n e l).1 ≡ free c l

module _ (T : Trait) where
  open T use {AccountId, Origin, signer, currency, account_discrete}

  abbrev pub amount_of : Request AccountId → ℕ
  amount_of (opens receiver duration) = 0
  amount_of (closes sender) = 0
  amount_of (claims sender id amount signature) = amount

  -- What an extrinsic pays for `a`, what it pays to `a`, and whether it pays for `a`.
  abbrev pub sent_by : AccountId → ℕ → Option (Payment AccountId) → ℕ
  sent_by a n none = 0
  sent_by a n (some p) = at account_discrete p.sender n a

  abbrev pub sent_to : AccountId → ℕ → Option (Payment AccountId) → ℕ
  sent_to a n none = 0
  sent_to a n (some p) = at account_discrete p.receiver n a

  abbrev pub outgoing : AccountId → Extrinsic T → State T → ℕ
  outgoing a x s = sent_by a (amount_of x.request) (payment T x.now x.origin x.request s)

  abbrev pub incoming : AccountId → Extrinsic T → State T → ℕ
  incoming a x s = sent_to a (amount_of x.request) (payment T x.now x.origin x.request s)

  abbrev pub spending : AccountId → Extrinsic T → State T → ℕ
  spending a x s = sent_by a 1 (payment T x.now x.origin x.request s)

  -- A quantity of each extrinsic, added up over a sequence of them.
  unfoldable pub collect : (Extrinsic T → State T → ℕ) → List (Extrinsic T) → State T → ℕ
  collect f [] s = 0
  collect f (x ∷ xs) s = f x s + collect f xs (after T x s)

  module _ (free : AccountId → currency.Ledger → ℕ) (dust : ℕ)
      (law : IsCurrency currency free dust) where
    -- An extrinsic that makes no payment leaves the ledger alone.
    unpaid-ledger :
        (now : ℕ) (o : Origin) (sender : AccountId) (id amount : ℕ) (signature : List ℕ)
        (s : State T)
        → payment T now o (claims sender id amount signature) s ≡ none
        → (claim_payment T now o sender id amount signature s).1.ledger ≡ s.ledger
    unfolding payment claim_payment verify_signature
    unpaid-ledger now o sender id amount signature s h = elim (Option-cases (signer o)) [
      | inl e ↦ ground arith
      | inr (receiver, e) ↦ ground (arith, law.fails sender receiver amount allow_death s.ledger)
    ]

    -- The account `a` across one extrinsic.
    abbrev pub IsSettled : AccountId → ℕ → ℕ → ℕ → State T → State T → Type 0
    IsSettled a out in_ count s s' =
        (free a s'.ledger + out ≤ free a s.ledger + in_)
        × (free a s.ledger + in_ ≤ free a s'.ledger + out + dust * count)

    claim-IsSettled :
        (a : AccountId) (now : ℕ) (o : Origin) (sender : AccountId) (id amount : ℕ)
        (signature : List ℕ) (s : State T)
        → IsWellFormed T s
        → let p = payment T now o (claims sender id amount signature) s in
          IsSettled a
            (sent_by a amount p)
            (sent_to a amount p)
            (sent_by a 1 p)
            s
            (claim_payment T now o sender id amount signature s).1
    claim-IsSettled a now o sender id amount signature s v =
        elim (Option-cases (payment T now o (claims sender id amount signature) s)) [
          | inl e ↦ rw e (
              let same = unpaid-ledger now o sender id amount signature s e in
              (omega (arith, ap (free a) same), omega (arith, ap (free a) same)))
          | inr (p, e) ↦
              let (receiver, can, same) =
                payment-eq_of_ok T now o sender id amount signature s p e in
              let ne = (v.keyed (sender, receiver) can.claim.opened).2 in
              rw (e, same, claim_payment-pays T now o sender receiver id amount signature s can)
                (let takes =
                    law.takes sender receiver amount allow_death s.ledger can.transferred ne in
                  let gives =
                    law.gives sender receiver amount allow_death s.ledger can.transferred ne in
                  let others = law.others sender receiver a amount allow_death s.ledger in
                  elim (account_discrete sender a) [
                    | yes p ↦ ground (arith, takes, account_discrete receiver a)
                    | no p ↦ ground (arith, gives, others, account_discrete receiver a)
                  ])
        ]

    open_channel-IsSettled :
        (a : AccountId) (now : ℕ) (o : Origin) (receiver : AccountId) (duration : ℕ) (s : State T)
        → IsSettled a 0 0 0 s (open_channel T now o receiver duration s).1
    unfolding open_channel
    open_channel-IsSettled a now o receiver duration s = ground arith

    close_channel-IsSettled :
        (a : AccountId) (now : ℕ) (o : Origin) (sender : AccountId) (s : State T)
        → IsSettled a 0 0 0 s (close_channel T now o sender s).1
    unfolding close_channel
    close_channel-IsSettled a now o sender s = ground arith

    pub dispatch-IsSettled :
        (a : AccountId) (now : ℕ) (o : Origin) (r : Request AccountId) (s : State T)
        → IsWellFormed T s
        → let p = payment T now o r s in
          IsSettled a
            (sent_by a (amount_of r) p)
            (sent_to a (amount_of r) p)
            (sent_by a 1 p)
            s
            (dispatch T now o r s).1
    unfolding dispatch payment
    dispatch-IsSettled a now o (opens receiver duration) s v =
        open_channel-IsSettled a now o receiver duration s
    dispatch-IsSettled a now o (closes sender) s v = close_channel-IsSettled a now o sender s
    dispatch-IsSettled a now o (claims sender id amount signature) s v =
        claim-IsSettled a now o sender id amount signature s v

    run-IsSettled :
        (xs : List (Extrinsic T)) (a : AccountId) (s : State T)
        → IsWellFormed T s
        → IsSettled a
            (collect (outgoing a) xs s)
            (collect (incoming a) xs s)
            (collect (spending a) xs s)
            s
            (run T xs s)
    unfolding run collect
    run-IsSettled [] a s v = omega arith
    run-IsSettled (x ∷ xs) a s v =
        let now = dispatch-IsSettled a x.now x.origin x.request s v in
        let later =
          run-IsSettled xs a (after T x s) (dispatch-IsWellFormed T x.now x.origin x.request s v) in
        (omega (arith, now.0, later.0), omega (arith, now.1, later.1))

  -- Given a currency that moves the amount of a transfer or changes nothing, and may take up to
  -- some dust from the payer, after any sequence of extrinsics from the genesis the free balance
  -- of an account and the sum of the amounts of the claims that were paid on its channels are at
  -- most its free balance before and the sum of the amounts that it was paid, and fall short of
  -- that by at most the dust for each of its payments.
  pub run-settles :
      (xs : List (Extrinsic T)) (l : currency.Ledger) (a : AccountId)
      (free : AccountId → currency.Ledger → ℕ) (dust : ℕ)
      → IsCurrency currency free dust
      → let s = run T xs (genesis T l) in
        let sent = collect (outgoing a) xs (genesis T l) in
        let got = collect (incoming a) xs (genesis T l) in
        (free a s.ledger + sent ≤ free a l + got)
        × (free a l + got ≤ free a s.ledger + sent + dust * collect (spending a) xs (genesis T l))
  run-settles xs l a free dust law =
      run-IsSettled free dust law xs a (genesis T l) (genesis-IsWellFormed T l)
