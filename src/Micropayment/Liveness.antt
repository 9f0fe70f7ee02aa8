-- ===== src/Micropayment/Liveness.antt =====
-- A channel of pallets/micropayment/src/lib.rs does what it is for: what the sender signs for the
-- channel that he opened is paid, and once only; and nothing is paid that no sender signed.
use e2_chain.Base.{
  ℕ, ◌+◌, ◌*◌, ◌≤◌, ◌<◌, ◌^◌, ◌≡◌, ◌≢◌, inl, inr, refl, ◌∙◌, Option, some, none, true, false, arith,
  ap, Bool-cases, Option-cases, List, [], ◌∷◌, is_some,
}
use e2_chain.Frame.{ok, allow_death}
use e2_chain.Micropayment.{
  Trait, State, has_channel, get_nonce, has_session, open_channel, claim_payment,
}
use e2_chain.Micropayment.Channels.{CanOpen, open_channel-writes, fresh_channel}
use e2_chain.Micropayment.Claims.{
  IsSigned, CanPay, paid, claim_payment-pays, claim_payment-succeeds,
}
use e2_chain.Micropayment.Waiting.{IsSilent, run-waits}
use e2_chain.Micropayment.Lifetime.{expiration_of-exact}
use e2_chain.Micropayment.Requests.{
  Request, opens, closes, claims, Extrinsic, Payment, after, payment, run,
}
use e2_chain.Micropayment.Replay.{genesis, payment-eq_of_ok}
use e2_chain.Micropayment.Invariant.{IsWellFormed, run-genesis-IsWellFormed}

module _ (T : Trait) where
  open T use {AccountId, Origin, signer, currency}

  -- What an opening, and a claim after the extrinsics in between, need.
  pub record IsAgreed (now now' : ℕ) (o o' : Origin) (sender receiver : AccountId)
      (duration id amount : ℕ) (signature : List ℕ) (between : List (Extrinsic T)) (s : State T)
      : Type 0 where
    pub opens_channel : CanOpen T o sender receiver s
    pub short : duration * 1000 < 2 ^ 32
    pub ends : now + duration * 1000 < 2 ^ 64
    pub silent : IsSilent T receiver between
    pub claimant : signer o' ≡ some receiver
    pub in_time : now' ≤ now + duration * 1000
    pub authentic :
        IsSigned T sender receiver (get_nonce T (sender, receiver) s) id amount signature
    pub funded :
        (currency.transfer sender receiver amount allow_death
          (run T between (open_channel T now o receiver duration s).1).ledger).0
        ≡ ok tt

  -- No session is in use where there is no channel.
  fresh-session :
      (k : AccountId × AccountId) (id : ℕ) (s : State T)
      → IsWellFormed T s
      → has_channel T k s ≡ false
      → has_session T k id s ≡ false
  fresh-session k id s v h = elim (Bool-cases (has_session T k id s)) [
    | inl used ↦ absurd (cc (h, v.owned k id used))
    | inr free ↦ free
  ]

  -- What opening leaves: the channel, and no session.
  opened-waits :
      (now : ℕ) (o : Origin) (sender receiver : AccountId) (duration id : ℕ)
      (between : List (Extrinsic T)) (s : State T)
      → IsWellFormed T s
      → CanOpen T o sender receiver s
      → IsSilent T receiver between
      → let s' = run T between (open_channel T now o receiver duration s).1 in
        (T.channel_map.lookup (sender, receiver) s'.channels
          ≡ some (fresh_channel T now sender receiver duration s))
        × (has_session T (sender, receiver) id s' ≡ false)
  opened-waits now o sender receiver duration id between s v can silent =
      let channel = fresh_channel T now sender receiver duration s in
      let there = T.channel_map.lookup-insert_self (sender, receiver) channel s.channels in
      let unused = fresh-session (sender, receiver) id s v can.unopened in
      let waits = run-waits T between (sender, receiver) channel id in
      rw (open_channel-writes T now o sender receiver duration s can)
        (let kept = waits _ silent there in (kept.0, kept.1 ∙ unused))

  opened-CanPay :
      (now now' : ℕ) (o o' : Origin) (sender receiver : AccountId) (duration id amount : ℕ)
      (signature : List ℕ) (between : List (Extrinsic T)) (s : State T)
      → IsWellFormed T s
      → IsAgreed now now' o o' sender receiver duration id amount signature between s
      → CanPay T now' o' sender receiver id amount signature
          (run T between (open_channel T now o receiver duration s).1)
  opened-CanPay now now' o o' sender receiver duration id amount signature between s v c =
      let (there, unused) =
        opened-waits now o sender receiver duration id between s v c.opens_channel c.silent in
      let ends = expiration_of-exact T now duration c.short c.ends in
      record {
        claim = record { signed = c.claimant; opened = ap is_some there };
        live = ground (arith, there, ends, c.in_time);
        unused = unused;
        authentic = rw there c.authentic;
        transferred = c.funded;
      }

  -- After any sequence of extrinsics from the genesis, if a channel can be opened, its duration
  -- and end fit in their types, the receiver signs none of the extrinsics that come next, and
  -- then claims in time, in any session, an amount that the sender signed for the nonce that the
  -- channel got and that can be transferred, then this claim succeeds, makes the transfer and
  -- marks the session, and the same claim once more fails.
  pub open_then_claim :
      (before between : List (Extrinsic T)) (l : currency.Ledger) (now now' : ℕ) (o o' : Origin)
      (sender receiver : AccountId) (duration id amount : ℕ) (signature : List ℕ)
      → IsAgreed now now' o o' sender receiver duration id amount signature between
          (run T before (genesis T l))
      → let s =
          run T between (open_channel T now o receiver duration (run T before (genesis T l))).1 in
        let (r, s') = claim_payment T now' o' sender id amount signature s in
        (r ≡ ok tt)
        × (s'.ledger ≡ (currency.transfer sender receiver amount allow_death s.ledger).1)
        × (has_session T (sender, receiver) id s' ≡ true)
        × ((claim_payment T now' o' sender id amount signature s').0 ≢ ok tt)
  open_then_claim before between l now now' o o' sender receiver duration id amount signature c =
      let s =
        run T between (open_channel T now o receiver duration (run T before (genesis T l))).1 in
      let can =
        opened-CanPay now now' o o' sender receiver duration id amount signature between
          (run T before (genesis T l)) (run-genesis-IsWellFormed T before l) c in
      let marked = T.session_map.lookup-insert_self (sender, receiver) id true s.sessions in
      rw (claim_payment-pays T now' o' sender receiver id amount signature s can) (
        refl,
        refl,
        ap is_some marked,
        λ again.
            let twice =
              claim_payment-succeeds T now' o' sender receiver id amount signature
                (paid T sender receiver id amount s)
                (record { signed = can.claim.signed; opened = can.claim.opened }) can.live again in
            cc (twice.unused, marked),
      )

  -- A request that pays is a claim, whose amount and signature the sender of the payment made for
  -- its receiver, nonce and session.
  abbrev pub IsOwed : Option (Payment AccountId) → Request AccountId → Type 0
  IsOwed none r = Unit
  IsOwed (some p) (opens receiver duration) = ⊥
  IsOwed (some p) (closes sender) = ⊥
  IsOwed (some p) (claims sender id amount signature) =
      IsSigned T p.sender p.receiver p.nonce p.session amount signature

  abbrev pub AllOwed : List (Extrinsic T) → State T → Type 0
  AllOwed [] s = Unit
  AllOwed (x ∷ xs) s =
      IsOwed (payment T x.now x.origin x.request s) x.request × AllOwed xs (after T x s)

  payment-IsOwed :
      (now : ℕ) (o : Origin) (r : Request AccountId) (s : State T) → IsOwed (payment T now o r s) r
  unfolding payment
  payment-IsOwed now o (opens receiver duration) s = tt
  payment-IsOwed now o (closes sender) s = tt
  payment-IsOwed now o (claims sender id amount signature) s =
      elim (Option-cases (payment T now o (claims sender id amount signature) s)) [
        | inl e ↦ rw e tt
        | inr (p, e) ↦
            let (receiver, can, same) = payment-eq_of_ok T now o sender id amount signature s p e in
            rw (e, same) can.authentic
      ]

  -- In a sequence of extrinsics from any state, each one that makes a payment is a claim whose
  -- amount the sender of the channel signed, with the signature of the claim, for the receiver,
  -- the nonce of the channel and the session of that payment.
  pub run-AllOwed : (xs : List (Extrinsic T)) (s : State T) → AllOwed xs s
  run-AllOwed [] s = tt
  run-AllOwed (x ∷ xs) s = (payment-IsOwed x.now x.origin x.request s, run-AllOwed xs (after T x s))
