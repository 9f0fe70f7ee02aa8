-- ===== src/Micropayment/Exposure.antt =====
-- What a sender of pallets/micropayment/src/lib.rs can lose: no more than he signed.
use e2_chain.Base.{
  ℕ, ◌+◌, ◌≤◌, ◌<◌, ◌^◌, ◌≡◌, inl, inr, arith, ite, Option, Option-cases, none, some, List, [], ◌∷◌,
  length, total, IsPresent, AllCovered, total-covered, total-le,
}
use e2_chain.Micropayment.{Trait, State}
use e2_chain.Micropayment.Claims.{IsSigned}
use e2_chain.Micropayment.Requests.{
  Request, opens, closes, claims, Extrinsic, Payment, payment, payments, add_payment, after,
}
use e2_chain.Micropayment.Replay.{genesis, payment-eq_of_ok, payments-genesis-IsDistinct}
use e2_chain.Micropayment.Widths.{
  AreBounded, after-AreBounded, genesis-AreBounded, AreBounded-nonce,
}
use e2_chain.Micropayment.Settlement.{amount_of, sent_by, outgoing, collect}

module _ (T : Trait) (a : T.AccountId) (qs : List (Payment T.AccountId))
    (cap : Payment T.AccountId → ℕ) where
  open T use {AccountId, Origin, account_discrete}

  -- All that verifies under the key of `a`, in the ranges of the types, is for one of the payments
  -- `qs` and within its cap.
  abbrev pub IsLimited : Type 0
  IsLimited =
      (p : Payment AccountId) (amount : ℕ) (signature : List ℕ)
      → p.sender ≡ a
      → p.nonce < 2 ^ 64
      → p.session < 2 ^ 32
      → amount < 2 ^ 128
      → IsSigned T p.sender p.receiver p.nonce p.session amount signature
      → IsPresent p qs × (amount ≤ cap p)

  -- The arguments of an extrinsic are in the ranges of their types.
  abbrev pub IsSmall : Request AccountId → Type 0
  IsSmall (opens receiver duration) = Unit
  IsSmall (closes sender) = Unit
  IsSmall (claims sender id amount signature) = (id < 2 ^ 32) × (amount < 2 ^ 128)

  abbrev pub AllSmall : List (Extrinsic T) → Type 0
  AllSmall [] = Unit
  AllSmall (x ∷ xs) = ((x.now < 2 ^ 64) × IsSmall x.request) × AllSmall xs

  -- What `a` pays is for one of `qs`, within its cap; others may pay.
  IsMeant : Option (Payment AccountId) → Request AccountId → Type 0
  IsMeant none r = Unit
  IsMeant (some p) r = p.sender ≡ a → IsPresent p qs × (amount_of T r ≤ cap p)

  AllMeant : List (Extrinsic T) → State T → Type 0
  AllMeant [] s = Unit
  AllMeant (x ∷ xs) s =
      IsMeant (payment T x.now x.origin x.request s) x.request × AllMeant xs (after T x s)

  -- The cap of a payment, if `a` makes it.
  due : Payment AccountId → ℕ
  due p = ite (account_discrete p.sender a) (cap p) 0

  module _ (limited : IsLimited) where
    payment-IsMeant :
        (now : ℕ) (o : Origin) (r : Request AccountId) (s : State T)
        → IsSmall r
        → AreBounded T s
        → IsMeant (payment T now o r s) r
    unfolding payment IsMeant
    payment-IsMeant now o (opens receiver duration) s h v = tt
    payment-IsMeant now o (closes sender) s h v = tt
    payment-IsMeant now o (claims sender id amount signature) s h v =
        elim (Option-cases (payment T now o (claims sender id amount signature) s)) [
          | inl e ↦ rw e tt
          | inr (p, e) ↦
              let (receiver, can, same) =
                payment-eq_of_ok T now o sender id amount signature s p e in
              rw (e, same)
                (λ q.
                  limited _ amount signature q (AreBounded-nonce T s sender receiver v) h.0 h.1
                    can.authentic)
        ]

    run-AllMeant :
        (xs : List (Extrinsic T)) (s : State T) → AllSmall xs → AreBounded T s → AllMeant xs s
    unfolding AllMeant
    run-AllMeant [] s h v = tt
    run-AllMeant (x ∷ xs) s h v = (
      payment-IsMeant x.now x.origin x.request s h.0.1 v,
      run-AllMeant xs (after T x s) h.1 (after-AreBounded T x s h.0.0 v),
    )

    request-due :
        (o : Option (Payment AccountId)) (r : Request AccountId) (ps : List (Payment AccountId))
        → IsMeant o r
        → sent_by T a (amount_of T r) o + total due ps ≤ total due (add_payment T o ps)
    unfolding due IsMeant
    request-due none r ps h = omega arith
    request-due (some p) r ps h = elim (account_discrete p.sender a) [
      | yes e ↦ ground (arith, (h e).1)
      | no n ↦ ground arith
    ]

    collect-due :
        (xs : List (Extrinsic T)) (s : State T)
        → AllMeant xs s
        → collect T (outgoing T a) xs s ≤ total due (payments T xs s)
    unfolding collect payments AllMeant
    collect-due [] s h = omega arith
    collect-due (x ∷ xs) s h = omega (
      arith,
      request-due (payment T x.now x.origin x.request s) x.request (payments T xs (after T x s))
          h.0,
      collect-due xs (after T x s) h.1,
    )

    request-covered :
        (o : Option (Payment AccountId)) (r : Request AccountId) (ps : List (Payment AccountId))
        → IsMeant o r
        → AllCovered due ps qs
        → AllCovered due (add_payment T o ps) qs
    unfolding due IsMeant
    request-covered none r ps h k = k
    request-covered (some p) r ps h k =
        (elim (account_discrete p.sender a) [ yes e ↦ inr (h e).0 | no n ↦ inl (ground arith) ], k)

    payments-covered :
        (xs : List (Extrinsic T)) (s : State T)
        → AllMeant xs s
        → AllCovered due (payments T xs s) qs
    unfolding payments AllMeant
    payments-covered [] s h = tt
    payments-covered (x ∷ xs) s h =
        request-covered (payment T x.now x.origin x.request s) x.request _ h.0
          (payments-covered xs (after T x s) h.1)

    due-le : (p : Payment AccountId) → due p ≤ cap p
    unfolding due
    due-le p = ground (arith, account_discrete p.sender a)

    -- If every signature that verifies under the key of an account, for numbers in the ranges of
    -- their types, is for one of certain payments, each a sender, a receiver, a nonce and a
    -- session, and its amount is at most the cap of that payment, then in any sequence of fewer
    -- than 2 ^ 64 extrinsics from the genesis, at times below 2 ^ 64 and with sessions below 2 ^
    -- 32 and amounts below 2 ^ 128, the account pays no more on its channels than the caps of
    -- these payments come to.
    pub collect-outgoing-le :
        (xs : List (Extrinsic T)) (l : T.currency.Ledger)
        → AllSmall xs
        → length xs < 2 ^ 64
        → collect T (outgoing T a) xs (genesis T l) ≤ total cap qs
    collect-outgoing-le xs l small h =
        let meant = run-AllMeant xs (genesis T l) small (genesis-AreBounded T l) in
        omega (
          arith,
          collect-due xs (genesis T l) meant,
          total-covered due (payments T xs (genesis T l)) qs (payments-genesis-IsDistinct T xs l h)
              (payments-covered xs (genesis T l) meant),
          total-le due cap qs due-le,
        )
