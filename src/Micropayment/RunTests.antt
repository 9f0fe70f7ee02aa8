-- ===== src/Micropayment/RunTests.antt =====
-- Sequences of extrinsics to pallets/micropayment/src/lib.rs, and what they come to.
use e2_chain.Base.{
  ◌≡◌, ◌≢◌, refl, true, false, some, arith, ℕ_discrete, List, [], ◌∷◌, discrete_pair,
}
use e2_chain.Frame.{ok}
use e2_chain.Micropayment.{has_channel, has_session, open_channel, claim_payment, verify_signature}
use e2_chain.Micropayment.Message.{to_be_bytes, construct_byte_array, construct_byte_array_and_hash}
use e2_chain.Micropayment.Encoding.{length-to_be_bytes}
use e2_chain.Micropayment.Requests.{closes, Extrinsic, dispatch, run}
use e2_chain.Micropayment.Liveness.{IsAgreed, open_then_claim, AllOwed, run-AllOwed}
use e2_chain.Micropayment.Contract.{idle}
use e2_chain.Micropayment.Views.{contract}
use e2_chain.Micropayment.Refinement.{steps, contract-run_genesis}
use e2_chain.Micropayment.Tests.{test_trait, start, bytes, history, first}

-- After `first`, account 2 opens a channel to account 1, who claims 4 on it.
later-unopened : has_channel test_trait (2, 1) (run test_trait first start) ≡ false
unfolding run dispatch open_channel claim_payment verify_signature construct_byte_array_and_hash
    construct_byte_array to_be_bytes discrete_pair ℕ_discrete
later-unopened = refl

-- Meanwhile account 1, the receiver, is silent; account 2 tries to close its channel.
abbrev meanwhile : List (Extrinsic test_trait)
meanwhile = record { now = 3500; origin = some 2; request = closes 2 } ∷ []

agreed :
    IsAgreed test_trait 3000 4000
      (some 2)
      (some 1)
      2
      1
      10
      7
      4
      (bytes 64)
      meanwhile
      (run test_trait first start)
agreed = record {
  opens_channel = record { signed = refl; unopened = later-unopened; different = λ e. omega arith };
  short = ground arith;
  ends = ground arith;
  silent = ((λ e. ground arith), tt);
  claimant = refl;
  in_time = omega arith;
  authentic = record {
    key_length = length-to_be_bytes 32 2;
    signature_length = refl;
    verified = refl;
  };
  funded = refl;
}

open_then_claim_example :
    let s =
      run test_trait meanwhile
        (open_channel test_trait 3000 (some 2) 1 10 (run test_trait first start)).1 in
    let (r, s') = claim_payment test_trait 4000 (some 1) 2 7 4 (bytes 64) s in
    (r ≡ ok tt)
    × (s'.ledger ≡ tt)
    × (has_session test_trait (2, 1) 7 s' ≡ true)
    × ((claim_payment test_trait 4000 (some 1) 2 7 4 (bytes 64) s').0 ≢ ok tt)
open_then_claim_example =
    open_then_claim test_trait first meanwhile tt 3000 4000 (some 2) (some 1) 2 1 10 7 4 (bytes 64)
      agreed

run-AllOwed_example : AllOwed test_trait history start
run-AllOwed_example = run-AllOwed test_trait history start

contract-run_genesis_example :
    contract test_trait (run test_trait history start)
    ≡ steps test_trait history start (λ a b. idle)
contract-run_genesis_example = contract-run_genesis test_trait history tt
