-- ===== src/Micropayment/ExposureTests.antt =====
-- A sender to pallets/micropayment/src/lib.rs who signs once, with a scheme that accepts nothing else.
use e2_chain.Base.{
  ℕ, ◌≤◌, ◌≡◌, inl, refl, Bool, true, false, ◌&&◌, ◌==◌, Option, some, arith, List, [], ◌∷◌,
  discrete_pair, ℕ_discrete, total,
}
use mathlib.Core.Bool.{Bool-discrete}
use e2_chain.Frame.{fun_map, fun_double_map, ok}
use e2_chain.Micropayment.{Trait, open_channel, close_channel, claim_payment, verify_signature}
use e2_chain.Micropayment.Message.{
  Crypto, to_be_bytes, construct_byte_array, construct_byte_array_and_hash,
}
use e2_chain.Micropayment.Encoding.{construct_byte_array-injective}
use e2_chain.Micropayment.Requests.{opens, closes, claims, Extrinsic, Payment, payment, dispatch}
use e2_chain.Micropayment.Replay.{genesis}
use e2_chain.Micropayment.Settlement.{outgoing, collect}
use e2_chain.Micropayment.Exposure.{IsLimited, AllSmall, collect-outgoing-le}
use e2_chain.Micropayment.Tests.{bytes, two_accounts, two_accounts-IsFaithful}

abbrev same_bytes : List ℕ → List ℕ → Bool
same_bytes [] [] = true
same_bytes [] (y ∷ ys) = false
same_bytes (x ∷ xs) [] = false
same_bytes (x ∷ xs) (y ∷ ys) = (x == y) && same_bytes xs ys

same_bytes-eq : (xs ys : List ℕ) → same_bytes xs ys ≡ true → xs ≡ ys
same_bytes-eq [] [] e = refl
same_bytes-eq [] (y ∷ ys) e = absurd (ground arith)
same_bytes-eq (x ∷ xs) [] e = absurd (ground arith)
same_bytes-eq (x ∷ xs) (y ∷ ys) e = ground (arith, same_bytes-eq xs ys)

-- Account `true` signed 5 units for account `false`, nonce 0, session 7.
abbrev careful : Crypto Bool
careful = record two_accounts {
  sr25519_verify =
      λ signature message key. same_bytes message (construct_byte_array two_accounts false 0 7 5);
}

abbrev careful_trait : Trait
careful_trait = record {
  system = record {
    AccountId = Bool;
    account_discrete = Bool-discrete;
    Origin = Option Bool;
    signer = λ o. o;
  };
  currency = record { Ledger = Unit; transfer = λ a b n e l. (ok tt, l) };
  crypto = careful;
  default_account = false;
  channel_map = fun_map (discrete_pair Bool-discrete Bool-discrete);
  nonce_map = fun_map (discrete_pair Bool-discrete Bool-discrete);
  session_map =
      fun_double_map (discrete_pair Bool-discrete Bool-discrete)
        (discrete_pair (discrete_pair Bool-discrete Bool-discrete) ℕ_discrete);
}

abbrev promised : Payment Bool
promised = record { sender = true; receiver = false; nonce = 0; session = 7 }

careful-IsLimited : IsLimited careful_trait true (promised ∷ []) (λ p. 5)
unfolding construct_byte_array_and_hash construct_byte_array
careful-IsLimited p amount signature e hn hs ha signed =
    let m =
      construct_byte_array-injective two_accounts two_accounts-IsFaithful p.receiver false p.nonce 0
        p.session 7 amount 5 hn (omega arith) hs (omega arith) ha (omega arith)
        (same_bytes-eq (construct_byte_array two_accounts p.receiver p.nonce p.session amount)
          (construct_byte_array two_accounts false 0 7 5) signed.verified) in
    (
      inl (λ i. record { sender = e i; receiver = m.0 i; nonce = m.1 i; session = m.2 i }),
      omega (arith, m.3),
    )

-- The receiver claims twice, and then again on a channel that is opened anew.
abbrev claimed_history : List (Extrinsic careful_trait)
claimed_history =
    record { now = 1000; origin = some true; request = opens false 10 }
    ∷ record { now = 2000; origin = some false; request = claims true 7 5 (bytes 64) }
    ∷ record { now = 3000; origin = some false; request = claims true 7 5 (bytes 64) }
    ∷ record { now = 4000; origin = some false; request = closes true }
    ∷ record { now = 5000; origin = some true; request = opens false 10 }
    ∷ record { now = 6000; origin = some false; request = claims true 7 5 (bytes 64) }
    ∷ []

-- Only the first claim is paid.
claimed_history-pays :
    collect careful_trait (outgoing careful_trait true) claimed_history (genesis careful_trait tt)
    ≡ 5
unfolding collect payment dispatch open_channel close_channel claim_payment verify_signature
    construct_byte_array_and_hash construct_byte_array to_be_bytes discrete_pair ℕ_discrete
claimed_history-pays = refl

claimed_history-AllSmall : AllSmall careful_trait true (promised ∷ []) (λ p. 5) claimed_history
claimed_history-AllSmall = (
  (omega arith, tt),
  (
    (omega arith, (omega arith, omega arith)),
    (
      (omega arith, (omega arith, omega arith)),
      ((omega arith, tt), ((omega arith, tt), ((omega arith, (omega arith, omega arith)), tt))),
    ),
  ),
)

collect-outgoing-le_example :
    collect careful_trait (outgoing careful_trait true) claimed_history (genesis careful_trait tt)
    ≤ total (λ p. 5) (promised ∷ [])
collect-outgoing-le_example =
    collect-outgoing-le careful_trait true (promised ∷ []) (λ p. 5) careful-IsLimited
      claimed_history tt claimed_history-AllSmall (omega arith)
