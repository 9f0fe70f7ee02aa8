-- ===== src/Frame/Ledgers.antt =====
-- `Currency` and `ReservableCurrency` of `frame_support`, as far as the pallets call them: a ledger
-- that some other pallet keeps, with the documented effect of the calls on it.
use e2_chain.Base.{ℕ, ◌+◌, ◌-◌, ◌≡◌, ◌≢◌}
use e2_chain.Frame.Calls.{Outcome, Ok, ok}

-- `ExistenceRequirement`
pub data ExistenceRequirement : Type 0 where
  keep_alive allow_death : ExistenceRequirement

pub record Currency (AccountId : Type 0) : Type 1 where
  pub Ledger : Type 0
  pub transfer : AccountId → AccountId → ℕ → ExistenceRequirement → Ledger → Outcome Ok × Ledger

pub record ReservableCurrency (AccountId : Type 0) : Type 1 where
  pub Ledger : Type 0
  pub reserved : AccountId → Ledger → ℕ
  pub reserve : AccountId → ℕ → Ledger → Outcome Ok × Ledger
  -- the number is what could not be unreserved
  pub unreserve : AccountId → ℕ → Ledger → ℕ × Ledger
  -- A reserve that goes through adds to what is reserved; one that fails changes nothing.
  pub reserve-adds :
      (a : AccountId) (n : ℕ) (l : Ledger)
      → (reserve a n l).0 ≡ ok tt
      → reserved a (reserve a n l).1 ≡ reserved a l + n
  pub reserve-fails :
      (a : AccountId) (n : ℕ) (l : Ledger) → (reserve a n l).0 ≢ ok tt → (reserve a n l).1 ≡ l
  pub reserve-others :
      (a b : AccountId) (n : ℕ) (l : Ledger) → a ≢ b → reserved b (reserve a n l).1 ≡ reserved b l
  -- As much as is reserved goes back, up to the amount.
  pub unreserve-subtracts :
      (a : AccountId) (n : ℕ) (l : Ledger) → reserved a (unreserve a n l).1 ≡ reserved a l - n
  pub unreserve-others :
      (a b : AccountId) (n : ℕ) (l : Ledger) → a ≢ b → reserved b (unreserve a n l).1 ≡ reserved b l

-- `pallet_balances`, which is both: one ledger of free and reserved amounts.
pub record Balances (AccountId : Type 0) : Type 1 where
  pub reservable : ReservableCurrency AccountId
  pub open reservable use *
  pub transfer : AccountId → AccountId → ℕ → ExistenceRequirement → Ledger → Outcome Ok × Ledger

abbrev pub as_currency : {AccountId : Type 0} → Balances AccountId → Currency AccountId
as_currency B = record { Ledger = B.Ledger; transfer = B.transfer }
