-- ===== src/DeeperNode/Tests.antt =====
-- Concrete calls of pallets/deeper-node/src/lib.rs, on stores that are functions and a ledger of
-- reserved amounts without a limit.
use e2_chain.Base.{
  ℕ, ◌+◌, ◌-◌, ◌≡◌, ◌≢◌, refl, true, false, Option, some, arith, ite, if_pos, if_neg, ℕ_discrete,
  List, [], ◌∷◌, IsDistinct, ◌⊎◌, ◌++◌,
}
use e2_chain.Frame.{test_system, fun_map, ok, ReservableCurrency}
use e2_chain.DeeperNode.{
  Trait, State, is_registered, get_device_info, get_servers_by_country, register_device,
  unregister_device, register_server, unregister_server, position, try_add_server, ensure_absent,
}
use e2_chain.DeeperNode.Directory.{vacant}
use e2_chain.DeeperNode.Simulation.{directory}
use e2_chain.DeeperNode.Refinement.{steps, directory-run_genesis}
use e2_chain.DeeperNode.Registry.{IsDevice, CanReserve}
use e2_chain.DeeperNode.Requests.{
  Request, registers_device, registers_server, genesis, dispatch, run,
}
use e2_chain.DeeperNode.Invariant.{IsRegistry, run-genesis-IsRegistry, run-IsDistinct}
use e2_chain.DeeperNode.Lifecycle.{Serves, register_server-Serves}
use e2_chain.DeeperNode.Leftovers.{register_device-locks_twice, unregister_device-leaves_server}

abbrev test_currency : ReservableCurrency ℕ
test_currency = record {
  Ledger = ℕ → ℕ;
  reserved = λ a l. l a;
  reserve = λ a n l. (ok tt, λ b. ite (ℕ_discrete a b) (l b + n) (l b));
  unreserve = λ a n l. (n - l a, λ b. ite (ℕ_discrete a b) (l b - n) (l b));
  reserve-adds = λ a n l h. if_pos (ℕ_discrete a a) refl _ _;
  reserve-fails = λ a n l h. absurd (h refl);
  reserve-others = λ a b n l h. if_neg (ℕ_discrete a b) h _ _;
  unreserve-subtracts = λ a n l. if_pos (ℕ_discrete a a) refl _ _;
  unreserve-others = λ a b n l h. if_neg (ℕ_discrete a b) h _ _;
}

abbrev test_trait : Trait
test_trait = record {
  system = test_system ℕ_discrete;
  currency = test_currency;
  default_account = 0;
  device_map = fun_map ℕ_discrete;
  server_map = fun_map ℕ_discrete;
}

abbrev start : State test_trait
start = genesis test_trait (λ a. 0)

-- Account 1 registers a device, and serves country 3.
abbrev history : List (Option ℕ × Request)
history = (some 1, registers_device [] 3) ∷ (some 1, registers_server 3) ∷ []

abbrev served : State test_trait
served = run test_trait history start

served-IsRegistry : IsRegistry test_trait (λ a. 0) served
served-IsRegistry = run-genesis-IsRegistry test_trait history (λ a. 0)

served-registered : is_registered test_trait 1 served ≡ true
unfolding run dispatch register_device register_server try_add_server ensure_absent position
    ℕ_discrete
served-registered = refl

served-IsDevice : IsDevice test_trait (some 1) 1 served
served-IsDevice = record { signed = refl; registered = served-registered }

served-country : (get_device_info test_trait 1 served).country ≡ 3
unfolding run dispatch register_device register_server try_add_server ensure_absent position
    ℕ_discrete
served-country = refl

served-lists : get_servers_by_country test_trait 4 served ≡ []
unfolding run dispatch register_device register_server try_add_server ensure_absent position
    ℕ_discrete
served-lists = refl

run-IsDistinct_example : IsDistinct (get_servers_by_country test_trait 3 served)
run-IsDistinct_example = run-IsDistinct test_trait history (λ a. 0) 3

start-IsRegistry : IsRegistry test_trait (λ a. 0) start
unfolding run
start-IsRegistry = run-genesis-IsRegistry test_trait [] (λ a. 0)

anyone-CanReserve : (s : State test_trait) → CanReserve test_trait (some 1) 1 s
anyone-CanReserve s = record { signed = refl; reserves = refl }

register_device-locks_twice_example :
    let s =
      (unregister_device test_trait
        (some 1)
        (register_device test_trait
          (some 1)
          []
          4
          (register_device test_trait (some 1) [] 3 start).1).1).1 in
    (s.ledger 1 ≡ 100)
    × (is_registered test_trait 1 s ≡ false)
    × ((unregister_device test_trait (some 1) s).0 ≢ ok tt)
    × ((unregister_device test_trait (some 1) s).1 ≡ s)
register_device-locks_twice_example =
    register_device-locks_twice test_trait (some 1) 1 [] [] 3 4 start start-IsRegistry
      (anyone-CanReserve start)
      (anyone-CanReserve (register_device test_trait (some 1) [] 3 start).1)

unregister_device-leaves_server_example :
    let s =
      (unregister_device test_trait
        (some 1)
        (register_server test_trait
          (some 1)
          4
          (register_server test_trait (some 1) 3 served).1).1).1 in
    Serves test_trait 1 3 s
    × (is_registered test_trait 1 s ≡ false)
    × ((unregister_server test_trait (some 1) 3 s).0 ≢ ok tt)
    × ((unregister_server test_trait (some 1) 3 s).1 ≡ s)
unregister_device-leaves_server_example =
    unregister_device-leaves_server test_trait (some 1) 1 3 4 served served-IsRegistry
      served-IsDevice (λ e. omega arith) (rw served-lists tt)

directory-run_genesis_example :
    directory test_trait served ≡ steps test_trait history start (vacant (λ a. 0))
directory-run_genesis_example = directory-run_genesis test_trait history (λ a. 0)

register_server-Serves_example :
    let (r, s) = register_server test_trait (some 1) 4 served in
    (r ≡ ok tt)
    × Serves test_trait 1 4 s
    × ((Serves test_trait 1 4 served × (s ≡ served))
        ⊎ (¬ Serves test_trait 1 4 served
            × (get_servers_by_country test_trait 4 s
                ≡ get_servers_by_country test_trait 4 served ++ 1 ∷ [])
            × ((get_device_info test_trait 1 s).country ≡ 4)))
    × (get_servers_by_country test_trait 3 s ≡ get_servers_by_country test_trait 3 served)
register_server-Serves_example =
    register_server-Serves test_trait (some 1) 1 4 served served-IsDevice 3 (λ e. omega arith)
