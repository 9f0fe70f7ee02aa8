-- ===== src/Frame/Calls.antt =====
-- A dispatchable call: it reads and writes the pallet's state and ends in a `DispatchResult`. What
-- was written before an error stays written, since these calls are not transactional.
use e2_chain.Base.{
  ℕ, String, Bool, true, false, Option, none, some, if◌then◌else◌, ◌≡◌, ◌≢◌, ◌⊎◌, inl, inr, refl,
}

-- `DispatchError`: a failed origin check, a message, or the error of another module
pub data DispatchError : Type 0 where
  bad_origin : DispatchError
  other : String → DispatchError
  module_error : ℕ → DispatchError

-- `panic` is a Rust panic, which stops the call.
pub data Outcome (A : Type 0) : Type 0 where
  ok : A → Outcome A
  err : DispatchError → Outcome A
  panic : Outcome A

abbrev pub Dispatch : Type 0 → Type 0 → Type 0
Dispatch S A = S → Outcome A × S

abbrev pub Ok : Type 0
Ok = Unit

module _ {S A : Type 0} where
  abbrev pub pure : A → Dispatch S A
  pure a s = (ok a, s)

  abbrev pub fail : DispatchError → Dispatch S A
  fail e s = (err e, s)

  abbrev pub gets : (S → A) → Dispatch S A
  gets f s = (ok (f s), s)

  -- `.ok_or(message)?`
  abbrev pub ok_or : Option A → String → Dispatch S A
  ok_or none e = fail (other e)
  ok_or (some a) e = pure a

module _ {S : Type 0} where
  infixl 5 ◌>>=◌ ◌>>◌
  abbrev pub ◌>>=◌ : {A B : Type 0} → Dispatch S A → (A → Dispatch S B) → Dispatch S B
  ◌>>=◌ m f s =
      let (r, s') = m s in elim r [ ok a ↦ f a s' | err e ↦ (err e, s') | panic ↦ (panic, s') ]

  abbrev pub ◌>>◌ : {A B : Type 0} → Dispatch S A → Dispatch S B → Dispatch S B
  m >> k = m >>= λ _. k

  -- `ensure!(test, message)`
  abbrev pub ensure : Bool → String → Dispatch S Ok
  ensure b e s = (if b then ok tt else err (other e), s)

  abbrev pub modify : (S → S) → Dispatch S Ok
  modify f s = (ok tt, f s)

-- `frame_system::Trait`, as far as the pallets use it: accounts, origins, and `ensure_signed`,
-- which gives the account that signed the extrinsic, if one did
pub record System : Type 1 where
  pub AccountId : Type 0
  pub account_discrete : Discrete AccountId
  pub Origin : Type 0
  pub signer : Origin → Option AccountId

module _ (T : System) where
  -- `ensure_signed(origin)?`
  abbrev pub ensure_signed : {S : Type 0} → T.Origin → Dispatch S T.AccountId
  ensure_signed o s = elim (T.signer o) [ none ↦ (err bad_origin, s) | some a ↦ (ok a, s) ]

-- accounts as numbers; an extrinsic is signed or not
abbrev pub test_system : Discrete ℕ → System
test_system d = record { AccountId = ℕ; account_discrete = d; Origin = Option ℕ; signer = λ o. o }

-- `is_ok`
abbrev pub is_ok : Outcome Ok → Bool
is_ok (ok _) = true
is_ok (err _) = false
is_ok panic = false

pub is_ok-eq : (o : Outcome Ok) → is_ok o ≡ true → o ≡ ok tt
is_ok-eq (ok tt) h = refl
is_ok-eq (err e) h = absurd (cc)
is_ok-eq panic h = absurd (cc)

-- How a call ended.
pub Outcome-cases : (o : Outcome Ok) → (o ≡ ok tt) ⊎ (o ≢ ok tt)
Outcome-cases (ok tt) = inl refl
Outcome-cases (err e) = inr (λ p. cc)
Outcome-cases panic = inr (λ p. cc)
