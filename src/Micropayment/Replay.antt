-- ===== src/Micropayment/Replay.antt =====
-- No payment of pallets/micropayment/src/lib.rs is made twice: the nonce of a channel is used up when
-- the channel is opened, and a session when it is paid.
use e2_chain.Base.{
  ℕ, zero, suc, ◌≤◌, ◌<◌, ◌^◌, ◌≡◌, inl, inr, refl, true, false, some, arith, ap, Option-cases,
  List, [], ◌∷◌, length, IsAbsent, IsDistinct, subst, is_some,
}
use e2_chain.Frame.{ok}
use e2_chain.Micropayment.{Trait, State, has_channel, get_channel, has_session, claim_payment}
use e2_chain.Micropayment.Claims.{CanPay, claim_payment-pays, claim_payment-succeeds}
use e2_chain.Micropayment.Requests.{
  Request, opens, closes, claims, Extrinsic, Payment, after, dispatch, payment, payments,
  add_payment,
}
use e2_chain.Micropayment.Steps.{Change, dispatch-Change, claim_payment-signed}
use e2_chain.Micropayment.Nonces.{
  IsNonced, HasRoom, IsSpent, nonce-Change, Change-IsNonced, Change-IsSpent,
}

module _ (T : Trait) where
  open T use {AccountId, Origin, signer}

  -- What a payment shows of the state before and after it.
  pub record IsMade (p : Payment AccountId) (s s' : State T) : Type 0 where
    pub opened : has_channel T (p.sender, p.receiver) s ≡ true
    pub current : (get_channel T (p.sender, p.receiver) s).nonce ≡ p.nonce
    pub unused : has_session T (p.sender, p.receiver) p.session s ≡ false
    pub marked : has_session T (p.sender, p.receiver) p.session s' ≡ true
    pub same_nonces : s'.nonces ≡ s.nonces

  payment-ok :
      (now : ℕ) (o : Origin) (sender : AccountId) (id amount : ℕ) (signature : List ℕ) (s : State T)
      (p : Payment AccountId)
      → payment T now o (claims sender id amount signature) s ≡ some p
      → (claim_payment T now o sender id amount signature s).0 ≡ ok tt
  unfolding payment
  payment-ok now o sender id amount signature s p e = ground arith

  payment-live :
      (now : ℕ) (o : Origin) (sender receiver : AccountId) (id amount : ℕ) (signature : List ℕ)
      (s : State T) (p : Payment AccountId)
      → signer o ≡ some receiver
      → payment T now o (claims sender id amount signature) s ≡ some p
      → (now ≤ (get_channel T (sender, receiver) s).expiration)
        × (p ≡ record {
          sender = sender;
          receiver = receiver;
          nonce = (get_channel T (sender, receiver) s).nonce;
          session = id;
        })
  unfolding payment
  payment-live now o sender receiver id amount signature s p signed e = ground arith

  pub payment-eq_of_ok :
      (now : ℕ) (o : Origin) (sender : AccountId) (id amount : ℕ) (signature : List ℕ) (s : State T)
      (p : Payment AccountId)
      → payment T now o (claims sender id amount signature) s ≡ some p
      → (receiver : AccountId) × CanPay T now o sender receiver id amount signature s
        × (p ≡ record {
          sender = sender;
          receiver = receiver;
          nonce = (get_channel T (sender, receiver) s).nonce;
          session = id;
        })
  payment-eq_of_ok now o sender id amount signature s p e =
      let done = payment-ok now o sender id amount signature s p e in
      let (receiver, c) = claim_payment-signed T now o sender id amount signature s done in
      let (live, same) = payment-live now o sender receiver id amount signature s p c.signed e in
      (
        receiver,
        claim_payment-succeeds T now o sender receiver id amount signature s c live done,
        same,
      )

  payment-IsMade :
      (now : ℕ) (o : Origin) (r : Request AccountId) (s : State T) (p : Payment AccountId)
      → payment T now o r s ≡ some p
      → IsMade p s (dispatch T now o r s).1
  unfolding payment dispatch
  payment-IsMade now o (opens receiver duration) s p e = absurd (cc)
  payment-IsMade now o (closes sender) s p e = absurd (cc)
  payment-IsMade now o (claims sender id amount signature) s p e =
      let (receiver, can, same) = payment-eq_of_ok now o sender id amount signature s p e in
      rw (same, claim_payment-pays T now o sender receiver id amount signature s can)
        (record {
          opened = can.claim.opened;
          current = refl;
          unused = can.unused;
          marked =
              ap is_some (T.session_map.lookup-insert_self (sender, receiver) id true s.sessions);
          same_nonces = refl;
        })

  -- A payment is not made where it is spent, and is spent once it is made.
  not-IsSpent : (p : Payment AccountId) (s s' : State T) → IsMade p s s' → ¬ IsSpent T p s
  not-IsSpent p s s' m v = cc (m.unused, v.used m.opened m.current)

  IsMade-IsSpent :
      (p : Payment AccountId) (s s' : State T) → IsNonced T s → IsMade p s s' → IsSpent T p s'
  IsMade-IsSpent p s s' v m = record {
    past = ground (arith, v (p.sender, p.receiver), m.opened, m.current, m.same_nonces);
    used = λ o e. m.marked;
  }

  HasRoom-next :
      (n : ℕ) {x : Origin} (s s' : State T) → HasRoom T (suc n) s → Change T x s s' → HasRoom T n s'
  HasRoom-next n s s' room ch k =
      let h = room k in omega (arith, nonce-Change T s s' k (omega arith) ch)

  HasRoom-one : (n : ℕ) (s : State T) → HasRoom T (suc n) s → HasRoom T 1 s
  HasRoom-one n s room k = omega (arith, room k)

  -- The same channels, nonces and sessions.
  pub record IsAlike (s s' : State T) : Type 0 where
    pub channels : s'.channels ≡ s.channels
    pub nonces : s'.nonces ≡ s.nonces
    pub sessions : s'.sessions ≡ s.sessions

  -- `n` steps from `s`, each a change that makes no payment or one that makes the next of `ps`. What
  -- leaves channels, nonces and sessions alone is no step.
  pub data Trace : ℕ → State T → List (Payment AccountId) → Type 0 where
    ended : (s : State T) → Trace zero s []
    apart :
        {n : ℕ} {ps : List (Payment AccountId)} (s s' : State T)
        → IsAlike s s'
        → Trace n s' ps
        → Trace n s ps
    quiet :
        {n : ℕ} {ps : List (Payment AccountId)} (o : Origin) (s s' : State T)
        → Change T o s s'
        → Trace n s' ps
        → Trace (suc n) s ps
    pays :
        {n : ℕ} {ps : List (Payment AccountId)} (o : Origin) (p : Payment AccountId)
        (s s' : State T)
        → Change T o s s'
        → IsMade p s s'
        → Trace n s' ps
        → Trace (suc n) s (p ∷ ps)

  HasRoom-alike : (n : ℕ) (s s' : State T) → IsAlike s s' → HasRoom T n s → HasRoom T n s'
  HasRoom-alike n s s' same room k = ground (arith, same.nonces, room k)

  IsSpent-alike :
      (p : Payment AccountId) (s s' : State T) → IsAlike s s' → IsSpent T p s → IsSpent T p s'
  IsSpent-alike p s s' same v = record {
    past = ground (arith, same.nonces, v.past);
    used = λ o e. ground (arith, same.channels, same.sessions, v.used);
  }

  IsNonced-alike : (s s' : State T) → IsAlike s s' → IsNonced T s → IsNonced T s'
  IsNonced-alike s s' same v k o = ground (arith, same.channels, same.nonces, v k)

  Trace-IsAbsent :
      {n : ℕ} {s : State T} {ps : List (Payment AccountId)} (p : Payment AccountId)
      → Trace n s ps
      → HasRoom T n s
      → IsSpent T p s
      → IsAbsent p ps
  Trace-IsAbsent p (ended s) room v = tt
  Trace-IsAbsent p (apart {n} s s' same rest) room v =
      Trace-IsAbsent p rest (HasRoom-alike n s s' same room) (IsSpent-alike p s s' same v)
  Trace-IsAbsent p (quiet {n} o s s' ch rest) room v =
      Trace-IsAbsent p rest (HasRoom-next n s s' room ch)
        (Change-IsSpent T p s s' (HasRoom-one n s room) ch v)
  Trace-IsAbsent p (pays {n} o q s s' ch made rest) room v = (
    (λ same. not-IsSpent q s s' made (subst (λ r. IsSpent T r s) same v)),
    Trace-IsAbsent p rest (HasRoom-next n s s' room ch)
        (Change-IsSpent T p s s' (HasRoom-one n s room) ch v),
  )

  -- No payment is made twice on a trace on which no nonce can wrap around.
  pub Trace-IsDistinct :
      {n : ℕ} {s : State T} {ps : List (Payment AccountId)}
      → Trace n s ps
      → HasRoom T n s
      → IsNonced T s
      → IsDistinct ps
  Trace-IsDistinct (ended s) room v = tt
  Trace-IsDistinct (apart {n} s s' same rest) room v =
      Trace-IsDistinct rest (HasRoom-alike n s s' same room) (IsNonced-alike s s' same v)
  Trace-IsDistinct (quiet {n} o s s' ch rest) room v =
      Trace-IsDistinct rest (HasRoom-next n s s' room ch)
        (Change-IsNonced T s s' (HasRoom-one n s room) ch v)
  Trace-IsDistinct (pays {n} o p s s' ch made rest) room v =
      let room' = HasRoom-next n s s' room ch in
      let v' = Change-IsNonced T s s' (HasRoom-one n s room) ch v in
      (Trace-IsAbsent p rest room' (IsMade-IsSpent p s s' v made), Trace-IsDistinct rest room' v')

  -- One extrinsic in front of a trace, whether it makes a payment or not.
  pub step-Trace :
      {n : ℕ} {ps : List (Payment AccountId)} (now : ℕ) (o : Origin) (r : Request AccountId)
      (s : State T)
      → Trace n (dispatch T now o r s).1 ps
      → Trace (suc n) s (add_payment T (payment T now o r s) ps)
  step-Trace now o r s rest = elim (Option-cases (payment T now o r s)) [
    | inl e ↦ rw e (quiet o s _ (dispatch-Change T now o r s) rest)
    | inr (q, e) ↦
        rw e (pays o q s _ (dispatch-Change T now o r s) (payment-IsMade now o r s q e) rest)
  ]

  payments-Trace : (xs : List (Extrinsic T)) (s : State T) → Trace (length xs) s (payments T xs s)
  unfolding payments
  payments-Trace [] s = ended s
  payments-Trace (x ∷ xs) s =
      step-Trace x.now x.origin x.request s (payments-Trace xs (after T x s))

  -- The chain starts with no channel, whatever the ledger holds.
  abbrev pub genesis : T.currency.Ledger → State T
  genesis l = record {
    channels = T.channel_map.empty;
    nonces = T.nonce_map.empty;
    sessions = T.session_map.empty;
    ledger = l;
    events = [];
  }

  pub genesis-HasRoom : (l : T.currency.Ledger) (n : ℕ) → n < 2 ^ 64 → HasRoom T n (genesis l)
  genesis-HasRoom l n h k = ground (arith, T.nonce_map.lookup-empty k)

  pub genesis-IsNonced : (l : T.currency.Ledger) → IsNonced T (genesis l)
  genesis-IsNonced l k o = absurd (ground (arith, T.channel_map.lookup-empty k))

  -- From the genesis, with any ledger, no sequence of fewer than 2 ^ 64 extrinsics makes the
  -- same payment twice: the quadruples of sender, receiver, nonce of the channel and session of
  -- the claims that were paid are all different.
  pub payments-genesis-IsDistinct :
      (xs : List (Extrinsic T)) (l : T.currency.Ledger)
      → length xs < 2 ^ 64
      → IsDistinct (payments T xs (genesis l))
  payments-genesis-IsDistinct xs l h =
      Trace-IsDistinct (payments-Trace xs (genesis l)) (genesis-HasRoom l (length xs) h)
        (genesis-IsNonced l)
