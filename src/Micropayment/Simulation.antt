-- ===== src/Micropayment/Simulation.antt =====
-- Every extrinsic to pallets/micropayment/src/lib.rs is a step of each pair's contract.
use e2_chain.Base.{
  ℕ, ◌≤◌, ◌≡◌, ◌≢◌, ◌⊎◌, ◌↔◌, inl, inr, refl, sym, subst, Bool, true, false, not, ◌&&◌, arith, ltb,
  Option, none, some, Option-cases, Bool-cases, List,
}
use e2_chain.Frame.{is_ok, is_ok-eq, ok, Outcome-cases, allow_death}
use e2_chain.Micropayment.{
  Trait, State, Chan, has_channel, get_channel, has_session, open_channel, close_channel,
  claim_payment,
}
use e2_chain.Micropayment.Channels.{
  CanOpen, open_channel-writes, open_channel-succeeds, open_channel-atomic, close_channel-succeeds,
  close_channel-atomic,
}
use e2_chain.Micropayment.Claims.{
  IsClaim, CanPay, claim_payment-expired, claim_payment-pays, claim_payment-succeeds,
  claim_payment-refused,
}
use e2_chain.Micropayment.Requests.{Request, opens, closes, claims}
use e2_chain.Micropayment.Steps.{close_channel-signed, claim_payment-signed}
use e2_chain.Micropayment.Contract.{Contract, IsSame, is_genuine, act, step}
use e2_chain.Micropayment.Views.{
  contract, closed-contract, paid-contract, opened-contract, genuine-IsSigned,
}

module _ (T : Trait) where
  open T use {AccountId, Origin, signer, account_discrete, crypto, currency}

  -- Whether the ledger lets the transfer of a claim through.
  abbrev pub funds : Option AccountId → Request AccountId → State T → Bool
  funds none r s = false
  funds (some who) (opens receiver duration) s = false
  funds (some who) (closes sender) s = false
  funds (some who) (claims sender id amount signature) s =
      is_ok (currency.transfer sender who amount allow_death s.ledger).0

  abbrev pub Follows : ℕ → Origin → Request AccountId → State T → State T → Type 0
  Follows now o r s s' =
      (a b : AccountId)
      → IsSame (contract T s' a b) (
          step account_discrete crypto now (signer o) r (funds (signer o) r s) a b
            (contract T s a b))

  abbrev pub same : (c : Contract) → IsSame c c
  same c = record { next_nonce = refl; terms = refl; used = λ id. refl }

  -- Whether a channel is there, in the contract of its pair.
  channel-terms :
      (a b : AccountId) (s : State T)
      → ((has_channel T (a, b) s ≡ false) × ((contract T s a b).terms ≡ none))
        ⊎ ((c : Chan AccountId) × (has_channel T (a, b) s ≡ true)
            × (T.channel_map.lookup (a, b) s.channels ≡ some c)
            × (get_channel T (a, b) s ≡ c))
  channel-terms a b s = elim (Option-cases (T.channel_map.lookup (a, b) s.channels)) [
    | inl e ↦ inl (ground arith, ground arith)
    | inr (c, e) ↦ inr (c, ground arith, e, ground arith)
  ]

  -- What a request makes of a contract, found by an equation.
  becomes : {c d e : Contract} → IsSame c d → e ≡ d → IsSame c e
  becomes {c} h p = subst (IsSame c) (sym p) h

  pub close_channel-Follows :
      (now : ℕ) (o : Origin) (who sender : AccountId) (s : State T)
      → signer o ≡ some who
      → Follows now o (closes sender) s (close_channel T now o sender s).1
  close_channel-Follows now o who sender s e a b = elim (channel-terms sender who s) [
    | inl (missing, shut) ↦
        rw
          (
            e,
            close_channel-atomic T now o sender s (λ done.
                let (x, c) = close_channel-signed T now o sender s done in
                ground (arith, c.signed, c.opened, missing)),
          )
          (becomes (same (contract T s a b))
            (ground (arith, shut, account_discrete sender a, account_discrete who b)))
    | inr (c, there, at_pair, it) ↦
        rw (e, close_channel-succeeds T now o sender who s e there)
          (becomes (closed-contract T now sender who s a b)
            (ground (arith, at_pair, account_discrete sender a, account_discrete who b)))
  ]

  pub open_channel-Follows :
      (now : ℕ) (o : Origin) (who receiver : AccountId) (duration : ℕ) (s : State T)
      → signer o ≡ some who
      → Follows now o (opens receiver duration) s (open_channel T now o receiver duration s).1
  open_channel-Follows now o who receiver duration s e a b =
      elim (Outcome-cases (open_channel T now o receiver duration s).0) [
        | inl done ↦
            let can = (open_channel-succeeds T now o who receiver duration s e).0 done in
            rw (e, open_channel-writes T now o who receiver duration s can)
              (becomes (opened-contract T now who receiver duration s a b) (
                ground (
                  arith,
                  can.unopened,
                  can.different,
                  account_discrete who a,
                  account_discrete receiver b,
                  account_discrete a b,
                )))
        | inr failed ↦
            let cannot : ¬ CanOpen T o who receiver s =
              λ can. failed ((open_channel-succeeds T now o who receiver duration s e).1 can) in
            rw (e, open_channel-atomic T now o receiver duration s failed)
              (becomes (same (contract T s a b))
                (unopenable now o who receiver duration s e cannot a b))
      ]
    where
      unopenable :
          (now : ℕ) (o : Origin) (who receiver : AccountId) (duration : ℕ) (s : State T)
          → signer o ≡ some who
          → ¬ CanOpen T o who receiver s
          → (a b : AccountId)
          → act account_discrete crypto now who
              (opens receiver duration)
              false
              a
              b
              (contract T s a b)
            ≡ contract T s a b
      unopenable now o who receiver duration s e cannot a b = elim (channel-terms who receiver s) [
        | inr (c, there, at_pair, it) ↦
            ground (arith, at_pair, account_discrete who a, account_discrete receiver b)
        | inl (missing, shut) ↦ elim (account_discrete who receiver) [
          | yes p ↦
              ground
                (arith, account_discrete who a, account_discrete receiver b, account_discrete a b)
          | no n ↦ absurd (cannot (record { signed = e; unopened = missing; different = n }))
        ]
      ]

  -- The condition of a payment, as the code has it and as the contract has it.
  CanPay-test :
      (now : ℕ) (o : Origin) (who sender : AccountId) (id amount : ℕ) (signature : List ℕ)
      (s : State T) (c : Chan AccountId)
      → IsClaim T o sender who s
      → now ≤ c.expiration
      → get_channel T (sender, who) s ≡ c
      → (not (has_session T (sender, who) id s)
            && (is_genuine crypto sender who c.nonce id amount signature
                && funds (some who) (claims sender id amount signature) s)
          ≡ true)
        ↔ CanPay T now o sender who id amount signature s
  CanPay-test now o who sender id amount signature s c k live it = (
    λ h. record {
      claim = k;
      live = ground (arith, it);
      unused = ground arith;
      authentic =
          rw it ((genuine-IsSigned T sender who c.nonce id amount signature).0 (ground arith));
      transferred = is_ok-eq _ (ground arith);
    },
    λ can. ground (
      arith,
      can.unused,
      can.transferred,
      (genuine-IsSigned T sender who c.nonce id amount signature).1 (rw it at (can.authentic)),
    ),
  )

  pub refused-contract :
      (now : ℕ) (o : Origin) (sender : AccountId) (id amount : ℕ) (signature : List ℕ) (s : State T)
      (a b : AccountId)
      → (claim_payment T now o sender id amount signature s).0 ≢ ok tt
      → IsSame
          (contract T (claim_payment T now o sender id amount signature s).1 a b)
          (contract T s a b)
  refused-contract now o sender id amount signature s a b failed =
      let kept = claim_payment-refused T now o sender id amount signature s failed in
      record {
        next_nonce = ground (arith, kept.1);
        terms = ground (arith, kept.0);
        used = λ j. ground (arith, kept.2);
      }

  live-Follows :
      (now : ℕ) (o : Origin) (who sender : AccountId) (id amount : ℕ) (signature : List ℕ)
      (s : State T) (c : Chan AccountId)
      → IsClaim T o sender who s
      → now ≤ c.expiration
      → T.channel_map.lookup (sender, who) s.channels ≡ some c
      → get_channel T (sender, who) s ≡ c
      → Follows now o
          (claims sender id amount signature)
          s
          (claim_payment T now o sender id amount signature s).1
  live-Follows now o who sender id amount signature s c k live at_pair it a b =
      let test = CanPay-test now o who sender id amount signature s c k live it in
      elim (Bool-cases (
        not (has_session T (sender, who) id s)
        && (is_genuine crypto sender who c.nonce id amount signature
            && funds (some who) (claims sender id amount signature) s))) [
              | inl pays ↦
                  rw
                    (
                      k.signed,
                      claim_payment-pays T now o sender who id amount signature s (test.0 pays),
                    )
                    (becomes (paid-contract T sender who id amount s a b) (
                      ground
                        (arith, at_pair, pays, account_discrete sender a, account_discrete who b)))
              | inr no_pay ↦ rw k.signed (
                  becomes
                    (refused-contract now o sender id amount signature s a b (λ done. cc (
                      no_pay,
                      test.1 (
                          claim_payment-succeeds T now o sender who id amount signature s k
                            (ground (arith, it)) done),
                    )))
                    (ground
                      (arith, at_pair, no_pay, account_discrete sender a, account_discrete who b)))
            ]

  pub claim_payment-Follows :
      (now : ℕ) (o : Origin) (who sender : AccountId) (id amount : ℕ) (signature : List ℕ)
      (s : State T)
      → signer o ≡ some who
      → Follows now o
          (claims sender id amount signature)
          s
          (claim_payment T now o sender id amount signature s).1
  claim_payment-Follows now o who sender id amount signature s e a b =
      elim (channel-terms sender who s) [
        | inl (missing, shut) ↦ rw e (
            becomes
              (refused-contract now o sender id amount signature s a b (λ done.
                let (x, c) = claim_payment-signed T now o sender id amount signature s done in
                ground (arith, c.signed, c.opened, missing)))
              (ground (arith, shut, account_discrete sender a, account_discrete who b)))
        | inr (c, there, at_pair, it) ↦
            let k : IsClaim T o sender who s = record { signed = e; opened = there } in
            elim (Bool-cases (ltb c.expiration now)) [
              | inl late ↦
                  rw
                    (
                      e,
                      claim_payment-expired T now o sender who id amount signature s k
                          (ground (arith, it)),
                    )
                    (becomes (closed-contract T now sender who s a b) (
                      ground
                        (arith, at_pair, late, account_discrete sender a, account_discrete who b)))
              | inr live ↦
                  live-Follows now o who sender id amount signature s c k (ground arith) at_pair it
                    a b
            ]
      ]
