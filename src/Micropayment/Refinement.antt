-- ===== src/Micropayment/Refinement.antt =====
-- The pallet of pallets/micropayment/src/lib.rs as a book of contracts, over sequences of extrinsics.
use e2_chain.Base.{
  fun_ext, ℕ, ◌≡◌, inl, inr, refl, ◌∙◌, ap, none, some, arith, Option-cases, List, [], ◌∷◌,
}
use e2_chain.Micropayment.{Trait, State}
use e2_chain.Micropayment.Channels.{open_channel-atomic, close_channel-atomic}
use e2_chain.Micropayment.Requests.{Request, opens, closes, claims, Extrinsic, after, dispatch, run}
use e2_chain.Micropayment.Steps.{open_channel-signed, close_channel-signed, claim_payment-signed}
use e2_chain.Micropayment.Replay.{genesis}
use e2_chain.Micropayment.Contract.{Contract, IsSame-eq, idle, step}
use e2_chain.Micropayment.Views.{contract}
use e2_chain.Micropayment.Simulation.{
  funds, Follows, same, refused-contract, open_channel-Follows, close_channel-Follows,
  claim_payment-Follows,
}

module _ (T : Trait) where
  open T use {AccountId, Origin, signer, account_discrete, crypto, currency}

  unsigned-Follows :
      (now : ℕ) (o : Origin) (r : Request AccountId) (s : State T)
      → signer o ≡ none
      → Follows T now o r s (dispatch T now o r s).1
  unfolding dispatch
  unsigned-Follows now o (opens receiver duration) s e a b =
      rw
        (
          e,
          open_channel-atomic T now o receiver duration s (λ done.
              let (x, can) = open_channel-signed T now o receiver duration s done in
              cc (e, can.signed)),
        )
        (same T (contract T s a b))
  unsigned-Follows now o (closes sender) s e a b =
      rw
        (
          e,
          close_channel-atomic T now o sender s
              (λ done. let (x, c) = close_channel-signed T now o sender s done in cc (e, c.signed)),
        )
        (same T (contract T s a b))
  unsigned-Follows now o (claims sender id amount signature) s e a b = rw e (
      refused-contract T now o sender id amount signature s a b (λ done.
        let (x, c) = claim_payment-signed T now o sender id amount signature s done in
        cc (e, c.signed)))

  dispatch-Follows :
      (now : ℕ) (o : Origin) (r : Request AccountId) (s : State T)
      → Follows T now o r s (dispatch T now o r s).1
  unfolding dispatch
  dispatch-Follows now o r s = elim (Option-cases (signer o)) [
    | inl e ↦ unsigned-Follows now o r s e
    | inr (who, e) ↦ signed-Follows now o who r s e
  ]
    where
      signed-Follows :
          (now : ℕ) (o : Origin) (who : AccountId) (r : Request AccountId) (s : State T)
          → signer o ≡ some who
          → Follows T now o r s (dispatch T now o r s).1
      signed-Follows now o who (opens receiver duration) s e =
          open_channel-Follows T now o who receiver duration s e
      signed-Follows now o who (closes sender) s e = close_channel-Follows T now o who sender s e
      signed-Follows now o who (claims sender id amount signature) s e =
          claim_payment-Follows T now o who sender id amount signature s e

  abbrev pub Contracts : Type 0
  Contracts = AccountId → AccountId → Contract

  -- What a sequence of extrinsics makes of the contracts; whether a transfer goes through is up to
  -- the ledger.
  unfoldable pub steps : List (Extrinsic T) → State T → Contracts → Contracts
  steps [] s k = k
  steps (x ∷ xs) s k = steps xs (after T x s) (λ a b.
      step account_discrete crypto x.now (signer x.origin) x.request
        (funds T (signer x.origin) x.request s) a b (k a b))

  pub contract-run :
      (xs : List (Extrinsic T)) (s : State T) → contract T (run T xs s) ≡ steps xs s (contract T s)
  unfolding run steps
  contract-run [] s = refl
  contract-run (x ∷ xs) s =
      contract-run xs (after T x s)
      ∙ ap (steps xs (after T x s)) (
          fun_ext λ a. fun_ext λ b. IsSame-eq _ _ (dispatch-Follows x.now x.origin x.request s a b))

  pub genesis-idle : (l : currency.Ledger) → contract T (genesis T l) ≡ (λ a b. idle)
  genesis-idle l = fun_ext λ a. fun_ext λ b. IsSame-eq _ _ (record {
    next_nonce = ground (arith, T.nonce_map.lookup-empty (a, b));
    terms = ground (arith, T.channel_map.lookup-empty (a, b));
    used = λ id. ground (arith, T.session_map.lookup-empty (a, b) id);
  })

  -- What any sequence of extrinsics makes of the genesis, as a contract for each pair of a
  -- sender and a receiver, with its next nonce, the terms of an open channel and the sessions
  -- that were paid, is what the steps of the contracts make of idle ones, one step for each
  -- extrinsic, given its time, its signer, its request, and whether the ledger lets its transfer
  -- through.
  pub contract-run_genesis :
      (xs : List (Extrinsic T)) (l : currency.Ledger)
      → contract T (run T xs (genesis T l)) ≡ steps xs (genesis T l) (λ a b. idle)
  contract-run_genesis xs l =
      contract-run xs (genesis T l) ∙ ap (steps xs (genesis T l)) (genesis-idle l)
