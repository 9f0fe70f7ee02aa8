-- ===== src/Erc20/Standard.antt =====
-- A token standard as a relation on what a holder can see: balances, allowances and supplies, with no
-- storage, no overflow and no order of writes. The pallet of pallets/erc20/src/lib.rs is measured
-- against it.
use e2_chain.Base.{ℕ, ◌+◌, ◌≤◌, ◌≡◌, ◌≢◌, some, at, ℕ_discrete}
use e2_chain.Frame.{System}

pub record Book (AccountId : Type 0) : Type 0 where
  pub balance : ℕ × AccountId → ℕ
  pub allowance : ℕ × AccountId × AccountId → ℕ
  pub supply : ℕ → ℕ

-- `g` is `f` but for `v` more at the key `k`.
abbrev pub Grows : {K : Type 0} → Discrete K → K → ℕ → (K → ℕ) → (K → ℕ) → Type 0
Grows {K} d k v f g = (j : K) → g j ≡ f j + at d k v j

-- `g` is `f` but for `v` that went from the key `k` to the key `l`.
abbrev pub Shifts : {K : Type 0} → Discrete K → K → K → ℕ → (K → ℕ) → (K → ℕ) → Type 0
Shifts {K} d k l v f g = (j : K) → g j + at d k v j ≡ f j + at d l v j

abbrev pub Agrees : {K : Type 0} → (K → ℕ) → (K → ℕ) → Type 0
Agrees {K} f g = (j : K) → g j ≡ f j

module _ (S : System) (balance_discrete : Discrete (ℕ × S.AccountId))
    (allowance_discrete : Discrete (ℕ × S.AccountId × S.AccountId)) where
  open S use {AccountId, Origin, signer}

  -- What an extrinsic of the origin `o` may do to the book.
  pub data Allows (o : Origin) (b b' : Book AccountId) : Type 0 where
    nothing :
        Agrees b.balance b'.balance
        → Agrees b.allowance b'.allowance
        → Agrees b.supply b'.supply
        → Allows o b b'
    -- a token that nobody holds yet, with its whole supply to its owner
    issuing :
        (owner : AccountId) (id supply : ℕ)
        → signer o ≡ some owner
        → ((a : AccountId) → b.balance (id, a) ≡ 0)
        → b.supply id ≡ 0
        → Grows balance_discrete (id, owner) supply b.balance b'.balance
        → Agrees b.allowance b'.allowance
        → Grows ℕ_discrete id supply b.supply b'.supply
        → Allows o b b'
    -- a transfer of the owner
    moving :
        (id : ℕ) (from to : AccountId) (value : ℕ)
        → signer o ≡ some from
        → from ≢ to
        → value ≤ b.balance (id, from)
        → Shifts balance_discrete (id, from) (id, to) value b.balance b'.balance
        → Agrees b.allowance b'.allowance
        → Agrees b.supply b'.supply
        → Allows o b b'
    -- an allowance of the owner
    granting :
        (id : ℕ) (owner spender : AccountId) (value : ℕ)
        → signer o ≡ some owner
        → Agrees b.balance b'.balance
        → Grows allowance_discrete (id, owner, spender) value b.allowance b'.allowance
        → Agrees b.supply b'.supply
        → Allows o b b'
    -- a transfer on an allowance, which it uses up
    drawing :
        (id : ℕ) (from to : AccountId) (value : ℕ)
        → from ≢ to
        → value ≤ b.balance (id, from)
        → value ≤ b.allowance (id, from, to)
        → Shifts balance_discrete (id, from) (id, to) value b.balance b'.balance
        → Grows allowance_discrete (id, from, to) value b'.allowance b.allowance
        → Agrees b.supply b'.supply
        → Allows o b b'
    -- an allowance that is used up for a transfer that fails
    wasting :
        (id : ℕ) (from to : AccountId) (value : ℕ)
        → value ≤ b.allowance (id, from, to)
        → Agrees b.balance b'.balance
        → Grows allowance_discrete (id, from, to) value b'.allowance b.allowance
        → Agrees b.supply b'.supply
        → Allows o b b'
