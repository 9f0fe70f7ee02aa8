-- ===== src/Chain/Tests.antt =====
-- Extrinsics of a chain with the pallets of runtime/src/lib.rs, on stores that are functions and a
-- ledger of free and reserved amounts; of the other pallets' calls there is one, which pays in.
use e2_chain.Base.{
  ℕ, ◌+◌, ◌-◌, ◌==◌, ◌≤◌, ◌<◌, ◌^◌, ◌≢◌, min, ltb, if◌then◌else◌, Bool, false, Option, ◌≡◌, refl,
  true, some, none, arith, ite, ℕ_discrete, List, [], ◌∷◌, discrete_pair, discrete_triple,
  IsDistinct,
}
use e2_chain.Frame.{
  test_system, fun_map, fun_double_map, DispatchError, module_error, Outcome, Ok, ok, err,
  bad_origin, ReservableCurrency, Balances,
}
use e2_chain.Template as Template
use e2_chain.Template.Requests as TemplateCalls
use e2_chain.Erc20.Requests as Erc20Calls
use e2_chain.DeeperNode as DeeperNode
use e2_chain.DeeperNode.Requests as DeeperNodeCalls
use e2_chain.Micropayment.Requests as MicropaymentCalls
use e2_chain.Micropayment.Message.{Crypto, to_be_bytes}
use e2_chain.Micropayment.Claims.{CanPay}
use e2_chain.Chain.{
  Runtime, State, micropayment_trait, micropayment_of, template_call, erc20_call, deeper_node_call,
  micropayment_call, Plan, finish, update, wrap, pallet_call, other_call, Extrinsic,
  deeper_node_trait, deeper_node_of, genesis, dispatch_pallet, perform, dispatch, after, run,
}
use e2_chain.Chain.Actions.{actions, call_actions, plan_actions, extrinsic_actions}
use e2_chain.Chain.Authority.{IsSilent, IsKept, chain-IsKept}
use e2_chain.Chain.Deposits.{IsReaping, forfeited, chain-locked}
use e2_chain.Chain.Forfeits.{claim_payment-forfeits}
use e2_chain.Chain.Payments.{micropayment_calls, chain_payments, chain_payments-IsDistinct}
use e2_chain.Chain.Settlement.{
  IsMoney, IsSettled, total_of, sent, got, spent, gained, lost, chain-IsSettled,
}

-- Free and reserved amounts.
record Book : Type 0 where
  free : ℕ → ℕ
  held : ℕ → ℕ

abbrev shift : Bool → ℕ → ℕ → Book → Book
shift up a n l = record {
  free = λ b. ite (ℕ_discrete a b) (if up then l.free b - n else l.free b + n) (l.free b);
  held = λ b. ite (ℕ_discrete a b) (if up then l.held b + n else l.held b - n) (l.held b);
}

-- What is not there can be neither reserved nor given back.
abbrev reserve : ℕ → ℕ → Book → Outcome Ok × Book
reserve a n l = if ltb (l.free a) n then (err bad_origin, l) else (ok tt, shift true a n l)

abbrev unreserve : ℕ → ℕ → Book → ℕ × Book
unreserve a n l = (n - l.held a, shift false a (min n (l.held a)) l)

reserve-adds :
    (a n : ℕ) (l : Book) → (reserve a n l).0 ≡ ok tt → (reserve a n l).1.held a ≡ l.held a + n
reserve-adds a n l h = ground arith

reserve-fails : (a n : ℕ) (l : Book) → (reserve a n l).0 ≢ ok tt → (reserve a n l).1 ≡ l
reserve-fails a n l h = ground arith

reserve-others : (a b n : ℕ) (l : Book) → a ≢ b → (reserve a n l).1.held b ≡ l.held b
reserve-others a b n l h = ground arith

unreserve-subtracts : (a n : ℕ) (l : Book) → (unreserve a n l).1.held a ≡ l.held a - n
unreserve-subtracts a n l = ground arith

unreserve-others : (a b n : ℕ) (l : Book) → a ≢ b → (unreserve a n l).1.held b ≡ l.held b
unreserve-others a b n l h = ground arith

abbrev reservable : ReservableCurrency ℕ
reservable = record {
  Ledger = Book;
  reserved = λ a l. l.held a;
  reserve = reserve;
  unreserve = unreserve;
  reserve-adds = reserve-adds;
  reserve-fails = reserve-fails;
  reserve-others = reserve-others;
  unreserve-subtracts = unreserve-subtracts;
  unreserve-others = unreserve-others;
}

-- An account with less than 500 is removed.
abbrev reap : ℕ → Book → Book
reap a l =
    if ltb (l.free a + l.held a) 500
    then record {
      free = λ c. ite (ℕ_discrete a c) 0 (l.free c);
      held = λ c. ite (ℕ_discrete a c) 0 (l.held c);
    }
    else l

abbrev moved : ℕ → ℕ → ℕ → Book → Book
moved a b n l = record l {
  free = λ c. ite (ℕ_discrete a c) (l.free c - n) (ite (ℕ_discrete b c) (l.free c + n) (l.free c));
}

abbrev transfer : ℕ → ℕ → ℕ → Book → Outcome Ok × Book
transfer a b n l =
    if n == 0
    then (ok tt, l)
    else ite (ℕ_discrete a b) (ok tt, l)
        (if ltb (l.free a) n then (err bad_origin, l) else (ok tt, reap a (moved a b n l)))

abbrev balances : Balances ℕ
balances = record { reservable = reservable; transfer = λ a b n e l. transfer a b n l }

abbrev worth : ℕ → Book → ℕ
worth a l = l.free a + l.held a

balances-IsMoney : IsMoney balances worth 500
balances-IsMoney = record {
  currency = record {
    fails = λ a b n e l h. ground arith;
    takes = λ a b n e l h ne. (ground arith, ground arith);
    gives = λ a b n e l h ne. ground arith;
    others = λ a b c n e l h k. ground arith;
  };
  reserving = λ a b n l. ground arith;
  unreserving = λ a b n l. ground arith;
}

balances-IsReaping : IsReaping balances worth 500
balances-IsReaping = record {
  reserved_le = λ a l. omega arith;
  keeps = λ a b c n l. ground arith;
  removes = λ b c n l h ne some_amount w. ground arith;
}

-- A fee of one unit for whoever signs, who needs to have it.
abbrev charge : Option ℕ → Book → Option Book
charge none l = some l
charge (some a) l =
    if ltb (l.free a) 1
    then none
    else some (record l { free = λ c. ite (ℕ_discrete a c) (l.free c - 1) (l.free c) })

abbrev crypto : Crypto ℕ
crypto = record {
  encode_account = to_be_bytes 32;
  encode_balance = to_be_bytes 16;
  blake2_256 = λ message. message;
  sr25519_verify = λ signature message key. true;
}

abbrev number : Template.Error → DispatchError
number Template.none_value = module_error 0
number Template.storage_overflow = module_error 1

-- Calls of other pallets: one pays everyone a unit, one is a batch of two calls, one dispatches a call
-- as account 3.
data OtherCall : Type 0 where
  pays_all both_then_pays as_three : OtherCall

abbrev plan : Option ℕ → OtherCall → Plan ℕ (Option ℕ) Book
plan o pays_all = update (λ l. record l { free = λ a. l.free a + 1 }) (finish (ok tt))
plan o both_then_pays =
    wrap o (template_call (TemplateCalls.does_something 4))
      λ r. wrap o (erc20_call (Erc20Calls.inits [] [] 100)) λ q. finish q
plan o as_three =
    wrap (some 3) (deeper_node_call (DeeperNodeCalls.registers_device [] 3)) λ r. finish r

abbrev runtime : Runtime
runtime = record {
  system = test_system ℕ_discrete;
  balances = balances;
  crypto = crypto;
  default_account = 0;
  from_error = number;
  tokens_map = fun_map ℕ_discrete;
  balance_map = fun_map (discrete_pair ℕ_discrete ℕ_discrete);
  allowance_map = fun_map (discrete_triple ℕ_discrete ℕ_discrete ℕ_discrete);
  device_map = fun_map ℕ_discrete;
  server_map = fun_map ℕ_discrete;
  channel_map = fun_map (discrete_pair ℕ_discrete ℕ_discrete);
  nonce_map = fun_map (discrete_pair ℕ_discrete ℕ_discrete);
  session_map =
      fun_double_map (discrete_pair ℕ_discrete ℕ_discrete)
        (discrete_pair (discrete_pair ℕ_discrete ℕ_discrete) ℕ_discrete);
  Other = OtherCall;
  plan = plan;
  pre_dispatch = λ o c n t l. charge o l;
  post_dispatch = λ o c n t r l. l;
}

abbrev endowed : Book
endowed = record { free = λ a. 1000; held = λ a. 0 }

abbrev zeros : List ℕ
zeros = to_be_bytes 64 0

-- Account 1 registers a device, issues a token, and opens a channel to account 2, who claims 5 on it.
abbrev history : List (Extrinsic runtime)
history =
    record {
      now = 1000;
      origin = some 1;
      call = pallet_call (deeper_node_call (DeeperNodeCalls.registers_device [] 3));
      len = 100;
      tip = 0;
    }
    ∷ record {
      now = 1000;
      origin = some 1;
      call = pallet_call (erc20_call (Erc20Calls.inits [] [] 100));
      len = 100;
      tip = 0;
    }
    ∷ record {
      now = 1000;
      origin = some 1;
      call = pallet_call (micropayment_call (MicropaymentCalls.opens 2 10));
      len = 100;
      tip = 0;
    }
    ∷ record { now = 2000; origin = none; call = other_call pays_all; len = 100; tip = 0 }
    ∷ record { now = 2000; origin = some 2; call = other_call both_then_pays; len = 100; tip = 0 }
    ∷ record {
      now = 2000;
      origin = some 2;
      call = pallet_call (micropayment_call (MicropaymentCalls.claims 1 7 5 zeros));
      len = 100;
      tip = 0;
    }
    ∷ []

abbrev first : List (Extrinsic runtime)
first =
    record {
      now = 1000;
      origin = some 1;
      call = pallet_call (deeper_node_call (DeeperNodeCalls.registers_device [] 3));
      len = 100;
      tip = 0;
    }
    ∷ record { now = 2000; origin = none; call = other_call pays_all; len = 100; tip = 0 }
    ∷ []

first-registers :
    DeeperNode.is_registered
      (deeper_node_trait runtime)
      1
      (deeper_node_of runtime (run runtime first (genesis runtime endowed)))
    ≡ true
unfolding run after dispatch dispatch_pallet perform DeeperNodeCalls.dispatch
    DeeperNode.register_device ℕ_discrete
first-registers = refl

history-fits :
    micropayment_calls runtime (actions runtime history (genesis runtime endowed)) < 2 ^ 64
unfolding actions extrinsic_actions call_actions plan_actions after dispatch dispatch_pallet perform
history-fits = ground arith

chain_payments-IsDistinct_example :
    IsDistinct (chain_payments runtime history (genesis runtime endowed))
chain_payments-IsDistinct_example = chain_payments-IsDistinct runtime history endowed history-fits

chain-IsSettled_example :
    let s = genesis runtime endowed in
    let ys = actions runtime history s in
    IsSettled runtime worth 500 1000
      (worth 1 (run runtime history s).ledger)
      (total_of runtime (sent runtime worth 500 1) ys s)
      (total_of runtime (got runtime worth 500 1) ys s)
      (total_of runtime (spent runtime worth 500 1) ys s)
      (total_of runtime (gained runtime worth 500 1) ys s)
      (total_of runtime (lost runtime worth 500 1) ys s)
chain-IsSettled_example = chain-IsSettled runtime worth 500 history endowed 1 balances-IsMoney

-- Account 2 sends a call that registers a device for account 3.
abbrev second : Extrinsic runtime
second = record { now = 3000; origin = some 2; call = other_call as_three; len = 100; tip = 0 }

second-IsSilent :
    IsSilent runtime 1
      (extrinsic_actions runtime second (run runtime first (genesis runtime endowed)))
unfolding extrinsic_actions call_actions plan_actions run after dispatch dispatch_pallet perform
    DeeperNodeCalls.dispatch DeeperNode.register_device ℕ_discrete
second-IsSilent = ((λ e. ground arith), tt)

chain-locked_example :
    let s = run runtime first (genesis runtime endowed) in
    ((DeeperNode.get_device_info
        (deeper_node_trait runtime)
        1
        (deeper_node_of runtime s)).account_id
      ≡ 1)
    × (100
        ≤ s.ledger.held 1
          + total_of runtime
              (forfeited runtime worth 1)
              (actions runtime first (genesis runtime endowed))
              (genesis runtime endowed))
chain-locked_example =
    chain-locked runtime worth 500 balances-IsReaping first endowed 1 first-registers

chain-IsKept_example :
    let s = run runtime first (genesis runtime endowed) in
    IsKept runtime 1 s (after runtime second s)
chain-IsKept_example = chain-IsKept runtime first second endowed 1 second-IsSilent

-- Account 1 has a device, for which 100 is reserved, and an open channel to account 2.
abbrev pledged : State runtime
pledged = record (genesis runtime endowed) {
  device_info =
      runtime.device_map.insert 1 (record { account_id = 1; ipv4 = []; country = 3 })
        runtime.device_map.empty;
  channels =
      runtime.channel_map.insert (1, 2)
        (record { sender = 1; receiver = 2; nonce = 0; opened = 1000; expiration = 11000 })
        runtime.channel_map.empty;
  ledger = record { free = λ a. 900; held = λ a. 100 };
}

pledged-registered :
    DeeperNode.is_registered (deeper_node_trait runtime) 1 (deeper_node_of runtime pledged) ≡ true
unfolding ℕ_discrete
pledged-registered = refl

-- A claim of 700, which leaves account 1 with 300.
pledged-CanPay :
    CanPay
      (micropayment_trait runtime)
      2000
      (some 2)
      1
      2
      7
      700
      zeros
      (micropayment_of runtime pledged)
unfolding discrete_pair ℕ_discrete to_be_bytes
pledged-CanPay = record {
  claim = record { signed = refl; opened = refl };
  live = omega arith;
  unused = refl;
  authentic = record { key_length = refl; signature_length = refl; verified = refl };
  transferred = refl;
}

claim_payment-forfeits_example :
    let (r, s') =
      dispatch_pallet runtime 2000
        (some 2)
        (micropayment_call (MicropaymentCalls.claims 1 7 700 zeros))
        pledged in
    (r ≡ ok tt)
    × (DeeperNode.is_registered (deeper_node_trait runtime) 1 (deeper_node_of runtime s') ≡ true)
    × (s'.ledger.held 1 ≡ 0)
    × (worth 1 s'.ledger ≡ 0)
claim_payment-forfeits_example =
    claim_payment-forfeits runtime worth balances-IsReaping 2000 (some 2) 1 2 7 700 zeros pledged
      pledged-CanPay (λ e. omega arith) (omega arith) pledged-registered (omega arith)
