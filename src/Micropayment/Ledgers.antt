-- ===== src/Micropayment/Ledgers.antt =====
-- What the calls of pallets/micropayment/src/lib.rs do to the ledger: a claim transfers at most once,
-- and no other call touches it.
use e2_chain.Base.{ℕ, ◌≡◌, ◌⊎◌, inl, inr, Option-cases, arith, List}
use e2_chain.Frame.{allow_death}
use e2_chain.Micropayment.{
  Trait, State, open_channel, close_channel, claim_payment, verify_signature,
}
use e2_chain.Micropayment.Requests.{Request, opens, closes, claims, dispatch}

module _ (T : Trait) where
  open T use {AccountId, Origin, signer, currency}

  -- The ledger stays, or it is what one transfer makes of it.
  abbrev pub Moves : currency.Ledger → currency.Ledger → Type 0
  Moves l l' =
      (l' ≡ l)
      ⊎ ((a : AccountId) × (b : AccountId) × (n : ℕ) × (l'
            ≡ (currency.transfer a b n allow_death l).1))

  claim_payment-Moves :
      (now : ℕ) (o : Origin) (sender : AccountId) (id amount : ℕ) (signature : List ℕ) (s : State T)
      → Moves s.ledger (claim_payment T now o sender id amount signature s).1.ledger
  unfolding claim_payment verify_signature
  claim_payment-Moves now o sender id amount signature s = elim (Option-cases (signer o)) [
    | inl e ↦ inl (ground arith)
    | inr (receiver, e) ↦
        let cases : ((claim_payment T now o sender id amount signature s).1.ledger ≡ s.ledger)
            ⊎ ((claim_payment T now o sender id amount signature s).1.ledger
                ≡ (currency.transfer sender receiver amount allow_death s.ledger).1) =
          ground arith in
        elim cases [ inl q ↦ inl q | inr q ↦ inr (sender, receiver, amount, q) ]
  ]

  pub dispatch-Moves :
      (now : ℕ) (o : Origin) (r : Request AccountId) (s : State T)
      → Moves s.ledger (dispatch T now o r s).1.ledger
  unfolding dispatch open_channel close_channel
  dispatch-Moves now o (opens receiver duration) s = inl (ground arith)
  dispatch-Moves now o (closes sender) s = inl (ground arith)
  dispatch-Moves now o (claims sender id amount signature) s =
      claim_payment-Moves now o sender id amount signature s
