-- ===== src/Runtime/Transactions.antt =====
-- `create_transaction` of runtime/src/lib.rs, which an offchain worker calls to sign a call: the era
-- that it chooses and the transaction that it builds. What it calls of other crates is a record of
-- functions.
use e2_chain.Base.{
  ℕ, suc, zero, ◌-◌, ◌*◌, ◌/◌, ◌^◌, ◌≤◌, ◌<◌, ◌≡◌, Option, none, some, leb, if◌then◌else◌, arith,
  refl, Bool-cases, Option-cases, inl, inr, ◌⊎◌, ◌∙◌, List, ap,
}
use native.Mathlib.Nat.{pow-suc}

-- `BlockHashCount`
abbrev pub block_hash_count : ℕ
block_hash_count = 2400

-- The first of `p`, `2 * p`, … (`k` of them) that is at least `n`.
double_up : ℕ → ℕ → ℕ → Option ℕ
double_up zero p n = none
double_up (suc k) p n = let next = double_up k (2 * p) n in if leb n p then some p else next

-- `checked_next_power_of_two` of a `u32`
pub checked_next_power_of_two : ℕ → Option ℕ
unfolding double_up
checked_next_power_of_two n = double_up 32 1 n

-- `BlockHashCount::get().checked_next_power_of_two().map(|c| c / 2).unwrap_or(2)`
pub era_period : ℕ → ℕ
unfolding checked_next_power_of_two
era_period n = elim (checked_next_power_of_two n) [ none ↦ 2 | some c ↦ c / 2 ]

-- With `k` doublings to go, the search finds the first power that is large enough.
double_up_lem :
    (k p n : ℕ)
    → n ≤ p * 2 ^ k
    → (q j : ℕ) × (double_up (suc k) p n ≡ some q)
      × (q ≡ p * 2 ^ j)
      × (n ≤ q)
      × ((q ≡ p) ⊎ (q < 2 * n))
unfolding double_up
double_up_lem zero p n h = (p, 0, ground arith, omega arith, ground arith, inl refl)
double_up_lem (suc k) p n h = elim (Bool-cases (leb n p)) [
  | inl big ↦ (p, 0, ground arith, omega arith, ground arith, inl refl)
  | inr small ↦
      let (q, j, found, power, le, least) =
        double_up_lem k (2 * p) n (omega (arith, ap (λ (t : ℕ). p * t) (pow-suc 2 k))) in
      (
        q,
        suc j,
        ground (arith, found),
        omega (arith, power, ap (λ (t : ℕ). p * t) (pow-suc 2 j)),
        le,
        inr (ground (arith, least)),
      )
]

-- For a number of kept block hashes from 2 to 2 ^ 31, the period of an era is a power of two,
-- below that number and at least half of it.
pub era_period-bounds :
    (n : ℕ)
    → 2 ≤ n
    → n ≤ 2 ^ 31
    → (era_period n < n) × (n ≤ 2 * era_period n) × ((j : ℕ) × (era_period n ≡ 2 ^ j))
unfolding era_period checked_next_power_of_two
era_period-bounds n h k =
    let (q, j, found, power, le, least) = double_up_lem 31 1 n (omega arith) in
    rw (found, era_period) (halve q j (omega arith) le least h)
  where
    halve :
        (q j : ℕ)
        → q ≡ 2 ^ j
        → n ≤ q
        → (q ≡ 1) ⊎ (q < 2 * n)
        → 2 ≤ n
        → (q / 2 < n) × (n ≤ 2 * (q / 2)) × ((i : ℕ) × (q / 2 ≡ 2 ^ i))
    halve q zero power le least h = absurd (omega arith)
    halve q (suc j) power le least h =
        let twice : q ≡ 2 ^ j * 2 = power ∙ pow-suc 2 j in
        (omega arith, omega arith, (j, omega arith))

-- What a transaction is signed with besides its call.
pub record Extra (Era : Type 0) : Type 0 where
  pub era : Era
  pub nonce : ℕ
  pub tip : ℕ

-- What `create_transaction` calls, of other crates and of its type parameter `C`.
pub record Signing : Type 1 where
  pub Call : Type 0
  pub Public : Type 0
  pub AccountId : Type 0
  pub Address : Type 0
  pub Signature : Type 0
  pub Era : Type 0
  pub Payload : Type 0
  pub mortal : ℕ → ℕ → Era
  pub new_payload : Call → Extra Era → Option Payload
  pub encode : Payload → List ℕ
  pub deconstruct : Payload → Call × Extra Era
  pub sign : List ℕ → Public → Option Signature
  pub unlookup : AccountId → Address
  -- A payload holds the call and the extra that it was made of.
  pub deconstruct-new_payload :
      (c : Call) (e : Extra Era) (p : Payload) → new_payload c e ≡ some p → deconstruct p ≡ (c, e)

infixl 5 ◌>>=◌
abbrev ◌>>=◌ : {A B : Type 0} → Option A → (A → Option B) → Option B
none >>= f = none
some a >>= f = f a

module _ (S : Signing) where
  open S use {Call, Public, AccountId, Address, Signature, Era, Payload}

  pub create_transaction :
      ℕ → Call → Public → AccountId → ℕ → Option (Call × Address × Signature × Extra Era)
  unfolding era_period
  create_transaction block_number call public account nonce = do
    let period = era_period block_hash_count
    let current_block = block_number - 1
    let era = S.mortal period current_block
    let extra : Extra Era = record { era = era; nonce = nonce; tip = 0 }
    raw_payload ← S.new_payload call extra
    signature ← S.sign (S.encode raw_payload) public
    let address = S.unlookup account
    some ((S.deconstruct raw_payload).0, address, signature, (S.deconstruct raw_payload).1)

  -- The extra of a transaction that is made while block `n` is built.
  abbrev pub extra_of : ℕ → ℕ → Extra Era
  extra_of n nonce = record { era = S.mortal 2048 (n - 1); nonce = nonce; tip = 0 }

  -- A transaction is made in one of three ways: without a payload there is none; with a payload
  -- but no signature of its bytes there is none; otherwise it holds the call, the address, the
  -- signature and an extra with a period of 2048 blocks from the block before, the nonce, and no
  -- tip.
  pub create_transaction-outcomes :
      (n : ℕ) (call : Call) (public : Public) (account : AccountId) (nonce : ℕ)
      → let result = create_transaction n call public account nonce in
        ((S.new_payload call (extra_of n nonce) ≡ none) × (result ≡ none))
        ⊎ ((p : Payload) × (S.new_payload call (extra_of n nonce) ≡ some p)
            × (S.sign (S.encode p) public ≡ none)
            × (result ≡ none))
        ⊎ ((p : Payload) × (signature : Signature) × (S.new_payload call (extra_of n nonce)
              ≡ some p)
            × (S.sign (S.encode p) public ≡ some signature)
            × (result ≡ some (call, S.unlookup account, signature, extra_of n nonce)))
  unfolding create_transaction checked_next_power_of_two double_up
  create_transaction-outcomes n call public account nonce =
      elim (Option-cases (S.new_payload call (extra_of n nonce))) [
        | inl e ↦ inl (e, rw e)
        | inr (p, made) ↦ elim (Option-cases (S.sign (S.encode p) public)) [
          | inl unsigned ↦ inr (inl (p, made, unsigned, rw (made, unsigned)))
          | inr (signature, signed) ↦ inr (
              inr (
                p,
                signature,
                made,
                signed,
                rw (made, signed, S.deconstruct-new_payload call (extra_of n nonce) p made),
              ))
        ]
      ]
