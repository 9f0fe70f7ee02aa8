-- ===== src/Template/Tests.antt =====
-- Concrete calls of pallets/template/src/lib.rs.
use e2_chain.Base.{ℕ, ◌+◌, ◌≤◌, ◌<◌, ◌^◌, ◌≡◌, ◌≢◌, ◌⊎◌, none, some, ℕ_discrete, []}
use e2_chain.Frame.{test_system, DispatchError, module_error, System, ok, err, bad_origin}
use e2_chain.Template.{State, Error, none_value, storage_overflow, cause_error}
use e2_chain.Template.Counter.{cause_error-outcomes}

abbrev accounts : System
accounts = test_system ℕ_discrete

abbrev number : Error → DispatchError
number none_value = module_error 0
number storage_overflow = module_error 1

abbrev stored : State accounts
stored = record { something = some 5; events = [] }

cause_error-outcomes_example :
    ((accounts.signer (some 1) ≡ none)
      × (cause_error accounts number (some 1) stored ≡ (err bad_origin, stored)))
    ⊎ ((accounts.signer (some 1) ≢ none)
        × (stored.something ≡ none)
        × (cause_error accounts number (some 1) stored ≡ (err (module_error 0), stored)))
    ⊎ ((n : ℕ) × (accounts.signer (some 1) ≢ none)
        × (stored.something ≡ some n)
        × (2 ^ 32 ≤ n + 1)
        × (cause_error accounts number (some 1) stored ≡ (err (module_error 1), stored)))
    ⊎ ((n : ℕ) × (accounts.signer (some 1) ≢ none)
        × (stored.something ≡ some n)
        × (n + 1 < 2 ^ 32)
        × (cause_error accounts number (some 1) stored
            ≡ (ok tt, record stored { something = some (n + 1) })))
cause_error-outcomes_example = cause_error-outcomes accounts number (some 1) stored
