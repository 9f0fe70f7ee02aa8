-- ===== src/Runtime/Tests.antt =====
-- The functions of runtime/src at concrete values.
use e2_chain.Base.{
  ℕ, ◌+◌, ◌-◌, ◌*◌, ◌/◌, ◌^◌, ◌≤◌, ◌<◌, ◌≡◌, ◌⊎◌, refl, Option, none, some, arith, List, [], ◌∷◌,
}
use e2_chain.Runtime.Votes.{factor, to_vote, to_balance, to_balance-to_vote, to_vote-wraps}
use e2_chain.Runtime.Apis.{
  Reporting, generate_key_ownership_proof, submit_report_equivocation_unsigned_extrinsic,
}
use e2_chain.Runtime.Transactions.{
  era_period, era_period-bounds, Extra, Signing, create_transaction, extra_of,
  create_transaction-outcomes,
}
use e2_chain.Runtime.Weights.{DbWeight}

factor_doubled : factor (2 * (2 ^ 64 - 1)) ≡ 2
unfolding factor
factor_doubled = omega arith

to_balance-to_vote_example :
    let t = 2 * (2 ^ 64 - 1) in
    (to_balance t (to_vote t 7) ≤ 7) × (7 < to_balance t (to_vote t 7) + factor t)
to_balance-to_vote_example =
    to_balance-to_vote (2 * (2 ^ 64 - 1)) 7 (omega arith) (rw factor_doubled (omega arith))

factor_one : factor (2 ^ 64) ≡ 1
unfolding factor
factor_one = omega arith

to_vote-wraps_example : to_vote (2 ^ 64) (2 ^ 64) + 2 ^ 64 ≡ 2 ^ 64 / factor (2 ^ 64)
to_vote-wraps_example = to_vote-wraps (2 ^ 64) (2 ^ 64) (omega arith) (rw factor_one (omega arith))

era_period-bounds_example :
    (era_period 2400 < 2400) × (2400 ≤ 2 * era_period 2400) × ((j : ℕ) × (era_period 2400 ≡ 2 ^ j))
era_period-bounds_example = era_period-bounds 2400 (omega arith) (omega arith)

same_payload :
    (c : ℕ) (e : Extra (ℕ × ℕ)) (p : ℕ × Extra (ℕ × ℕ)) → some (c, e) ≡ some p → p ≡ (c, e)
same_payload c e p h = ground (arith, h)

-- A scheme that signs a call with itself.
abbrev test_signing : Signing
test_signing = record {
  Call = ℕ;
  Public = ℕ;
  AccountId = ℕ;
  Address = ℕ;
  Signature = List ℕ;
  Era = ℕ × ℕ;
  Payload = ℕ × Extra (ℕ × ℕ);
  mortal = λ period block. (period, block);
  new_payload = λ c e. some (c, e);
  encode = λ p. p.0 ∷ [];
  deconstruct = λ p. p;
  sign = λ bytes key. some bytes;
  unlookup = λ a. a;
  deconstruct-new_payload = same_payload;
}

create_transaction-outcomes_example :
    let result = create_transaction test_signing 100 5 1 1 9 in
    ((test_signing.new_payload 5 (extra_of test_signing 100 9) ≡ none) × (result ≡ none))
    ⊎ ((p : test_signing.Payload) × (test_signing.new_payload 5 (extra_of test_signing 100 9)
          ≡ some p)
        × (test_signing.sign (test_signing.encode p) 1 ≡ none)
        × (result ≡ none))
    ⊎ ((p : test_signing.Payload) × (signature : test_signing.Signature) × (test_signing.new_payload
            5
            (extra_of test_signing 100 9)
          ≡ some p)
        × (test_signing.sign (test_signing.encode p) 1 ≡ some signature)
        × (result ≡ some (5, 1, signature, extra_of test_signing 100 9)))
create_transaction-outcomes_example = create_transaction-outcomes test_signing 100 5 1 1 9

-- A database whose operations all cost the same.
abbrev test_weight : DbWeight
test_weight = record { reads = λ n. 25 * n; writes = λ n. 100 * n }

abbrev head? : List ℕ → Option ℕ
head? [] = none
head? (x ∷ xs) = some x

-- Authorities and proofs are numbers; the proof for an authority is its number.
abbrev reporting : Reporting
reporting = record {
  KeyTypeId = Unit;
  GrandpaId = ℕ;
  Proof = ℕ;
  EquivocationProof = Unit;
  key_type = tt;
  prove = λ k. some k.1;
  encode = λ p. p ∷ [];
  decode = λ bytes. head? bytes;
  submit_unsigned_equivocation_report = λ e p. some tt;
}

reporting_generates : generate_key_ownership_proof reporting 0 4 ≡ some (record { bytes = 4 ∷ [] })
unfolding generate_key_ownership_proof
reporting_generates = refl

reporting_accepts :
    submit_report_equivocation_unsigned_extrinsic reporting tt (record { bytes = 4 ∷ [] }) ≡ some tt
unfolding submit_report_equivocation_unsigned_extrinsic
reporting_accepts = refl

reporting_refuses :
    submit_report_equivocation_unsigned_extrinsic reporting tt (record { bytes = [] }) ≡ none
unfolding submit_report_equivocation_unsigned_extrinsic
reporting_refuses = refl
