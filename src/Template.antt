-- ===== src/Template.antt =====
-- The template pallet of pallets/template/src/lib.rs. `State` holds its one storage value and the
-- events deposited, the latest first. The value is a `u32`. `from_error` is the conversion of the
-- pallet's errors that `decl_error!` generates.
pub mod Counter
pub mod Requests
mod Tests
use e2_chain.Base.{ℕ, Option, none, some, List, ◌∷◌, checked_add}
use e2_chain.Frame.{
  System, Dispatch, DispatchError, Ok, gets, fail, pure, modify, ensure_signed, ◌>>=◌, ◌>>◌,
}

pub data Error : Type 0 where
  none_value storage_overflow : Error

pub data Event (AccountId : Type 0) : Type 0 where
  something_stored : ℕ → AccountId → Event AccountId

pub record State (T : System) : Type 0 where
  pub something : Option ℕ
  pub events : List (Event T.AccountId)

module _ (T : System) (from_error : Error → DispatchError) where
  open T use {AccountId, Origin}

  abbrev pub Call : Type 0
  Call = Dispatch (State T) Ok

  abbrev put : ℕ → Call
  put n = modify λ s. record s { something = some n }

  abbrev deposit_event : Event AccountId → Call
  deposit_event e = modify λ s. record s { events = e ∷ s.events }

  -- `option.ok_or(Error::<T>::..)?`
  abbrev or_error : Option ℕ → Error → Dispatch (State T) ℕ
  or_error none e = fail (from_error e)
  or_error (some n) e = pure n

  pub do_something : Origin → ℕ → Call
  do_something origin something = do
    who ← ensure_signed T origin
    put something
    deposit_event (something_stored something who)

  pub cause_error : Origin → Call
  cause_error origin = do
    ensure_signed T origin
    old ← or_error (← gets (λ s. s.something)) none_value
    new ← or_error (checked_add 32 old 1) storage_overflow
    put new
