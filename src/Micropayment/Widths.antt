-- ===== src/Micropayment/Widths.antt =====
-- Every number that pallets/micropayment/src/lib.rs stores fits in its machine type, along any
-- sequence of extrinsics in blocks whose time does: read off the contracts of the pairs.
use e2_chain.Base.{
  ℕ, ◌<◌, ◌^◌, inl, inr, arith, true, false, Option, Option-cases, Bool, none, some, List, [], ◌∷◌,
  saturating_add, wrapping_mul, subst, sym, if◌then◌else◌,
}
use e2_chain.Micropayment.{Trait, State, get_channel}
use e2_chain.Micropayment.Requests.{Request, opens, closes, claims, Extrinsic, after, run}
use e2_chain.Micropayment.Replay.{genesis}
use e2_chain.Micropayment.Message.{Crypto}
use e2_chain.Micropayment.Contract.{Terms, Contract, begun, ended, claim, act, step}
use e2_chain.Micropayment.Views.{contract, terms_of}
use e2_chain.Micropayment.Simulation.{funds}
use e2_chain.Micropayment.Refinement.{Contracts, steps, contract-run, genesis-idle}

-- The numbers of an open channel, and of a contract.
pub record IsNarrow (t : Terms) : Type 0 where
  pub nonce : t.nonce < 2 ^ 64
  pub opened : t.opened < 2 ^ 64
  pub expiration : t.expiration < 2 ^ 64

abbrev pub AreNarrow : Option Terms → Type 0
AreNarrow none = Unit
AreNarrow (some t) = IsNarrow t

pub record IsBounded (c : Contract) : Type 0 where
  pub next_nonce : c.next_nonce < 2 ^ 64
  pub terms : AreNarrow c.terms

begun-IsBounded :
    (now duration : ℕ) (c : Contract)
    → now < 2 ^ 64
    → IsBounded c
    → IsBounded (begun now (saturating_add 64 now (wrapping_mul 32 duration 1000)) c)
begun-IsBounded now duration c h v = record {
  next_nonce = omega arith;
  terms = record { nonce = v.next_nonce; opened = h; expiration = ground arith };
}

ended-IsBounded : (c : Contract) → IsBounded c → IsBounded (ended c)
ended-IsBounded c v = record { next_nonce = v.next_nonce; terms = tt }

-- What holds of both branches.
both : {A : Type 0} (P : A → Type 0) (b : Bool) (x y : A) → P x → P y → P (if b then x else y)
both P true x y p q = p
both P false x y p q = q

per_case :
    {A B : Type 0} (P : B → Type 0) (o : Option A) (x : B) (f : A → B)
    → P x
    → ((a : A) → P (f a))
    → P (elim o [ none ↦ x | some a ↦ f a ])
per_case P none x f p q = p
per_case P (some a) x f p q = q a

module _ {A : Type 0} (d : Discrete A) (C : Crypto A) where
  claim-IsBounded :
      (now : ℕ) (x y : A) (id amount : ℕ) (signature : List ℕ) (funded : Bool) (c : Contract)
      → IsBounded c
      → IsBounded (claim C now x y id amount signature funded c)
  claim-IsBounded now x y id amount signature funded c v = per_case IsBounded c.terms _ _ v (λ t.
      both IsBounded _ _ _ (ended-IsBounded c v)
        (both IsBounded _ _ _ (record { next_nonce = v.next_nonce; terms = v.terms }) v))

  act-IsBounded :
      (now : ℕ) (who : A) (r : Request A) (funded : Bool) (a b : A) (c : Contract)
      → now < 2 ^ 64
      → IsBounded c
      → IsBounded (act d C now who r funded a b c)
  act-IsBounded now who (opens receiver duration) funded a b c h v =
      both IsBounded _ _ _
        (per_case IsBounded c.terms _ _ (begun-IsBounded now duration c h v) (λ t. v)) v
  act-IsBounded now who (closes sender) funded a b c h v =
      both IsBounded _ _ _ (per_case IsBounded c.terms _ _ v (λ t. ended-IsBounded c v)) v
  act-IsBounded now who (claims sender id amount signature) funded a b c h v =
      both IsBounded _ _ _ (claim-IsBounded now sender who id amount signature funded c v) v

  step-IsBounded :
      (now : ℕ) (o : Option A) (r : Request A) (funded : Bool) (a b : A) (c : Contract)
      → now < 2 ^ 64
      → IsBounded c
      → IsBounded (step d C now o r funded a b c)
  step-IsBounded now none r funded a b c h v = v
  step-IsBounded now (some who) r funded a b c h v = act-IsBounded now who r funded a b c h v

module _ (T : Trait) where
  open T use {AccountId}

  -- The times of the blocks fit in a `Moment`.
  abbrev AllFit : List (Extrinsic T) → Type 0
  AllFit [] = Unit
  AllFit (x ∷ xs) = (x.now < 2 ^ 64) × AllFit xs

  steps-IsBounded :
      (xs : List (Extrinsic T)) (s : State T) (k : Contracts T)
      → AllFit xs
      → ((a b : AccountId) → IsBounded (k a b))
      → (a b : AccountId) → IsBounded (steps T xs s k a b)
  unfolding steps
  steps-IsBounded [] s k h v a b = v a b
  steps-IsBounded (x ∷ xs) s k h v a b =
      steps-IsBounded xs (after T x s) _ h.1
        (λ a b.
          step-IsBounded T.account_discrete T.crypto x.now (T.signer x.origin) x.request
            (funds T (T.signer x.origin) x.request s) a b (k a b) h.0 (v a b))
        a b

  channel-IsNarrow :
      (s : State T) (a b : AccountId)
      → IsBounded (contract T s a b)
      → let c = get_channel T (a, b) s in
        (c.nonce < 2 ^ 64) × (c.opened < 2 ^ 64) × (c.expiration < 2 ^ 64)
  channel-IsNarrow s a b v = elim (Option-cases (T.channel_map.lookup (a, b) s.channels)) [
    | inl e ↦ rw e (ground arith, ground arith, ground arith)
    | inr (c, e) ↦
        let n : IsNarrow
            (record { nonce = c.nonce; opened = c.opened; expiration = c.expiration }) =
          subst (λ o. AreNarrow (terms_of T o)) e v.terms in
        rw e (n.nonce, n.opened, n.expiration)
  ]

  -- The contract of every pair is bounded.
  abbrev pub AreBounded : State T → Type 0
  AreBounded s = (a b : AccountId) → IsBounded (contract T s a b)

  run-AreBounded :
      (xs : List (Extrinsic T)) (s : State T) → AllFit xs → AreBounded s → AreBounded (run T xs s)
  run-AreBounded xs s h v a b =
      subst (λ (k : Contracts T). IsBounded (k a b)) (sym (contract-run T xs s))
        (steps-IsBounded xs s (contract T s) h v a b)

  pub after-AreBounded :
      (x : Extrinsic T) (s : State T) → x.now < 2 ^ 64 → AreBounded s → AreBounded (after T x s)
  unfolding run
  after-AreBounded x s h v = run-AreBounded (x ∷ []) s (h, tt) v

  pub genesis-AreBounded : (l : T.currency.Ledger) → AreBounded (genesis T l)
  genesis-AreBounded l a b =
      subst (λ (k : Contracts T). IsBounded (k a b)) (sym (genesis-idle T l))
        (record { next_nonce = omega arith; terms = tt })

  pub AreBounded-nonce :
      (s : State T) (a b : AccountId) → AreBounded s → (get_channel T (a, b) s).nonce < 2 ^ 64
  AreBounded-nonce s a b v = (channel-IsNarrow s a b (v a b)).0
