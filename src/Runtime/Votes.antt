-- ===== src/Runtime/Votes.antt =====
-- `CurrencyToVoteHandler` of runtime/src/lib.rs, which scales balances (`u128`) down to votes (`u64`)
-- and back. The total issuance is `Balances::total_issuance()`.
use e2_chain.Base.{ℕ, ◌+◌, ◌-◌, ◌*◌, ◌/◌, ◌%◌, ◌^◌, ◌≤◌, ◌<◌, ◌≡◌, max, wrapping_mul, arith}
use native.Mathlib.Nat.{div-add-mod', mod-lt, mod-eq_of_lt, div-lt_iff_lt-mul}

unfoldable pub factor : ℕ → ℕ
factor total_issuance = max (total_issuance / (2 ^ 64 - 1)) 1

-- `Convert<Balance, u64>`; `as u64` drops the high bits
pub to_vote : ℕ → ℕ → ℕ
unfolding factor
to_vote total_issuance x = x / factor total_issuance % 2 ^ 64

-- `Convert<u128, Balance>`
pub to_balance : ℕ → ℕ → ℕ
unfolding factor
to_balance total_issuance x = wrapping_mul 128 x (factor total_issuance)

pub factor-pos : (t : ℕ) → 1 ≤ factor t
unfolding factor
factor-pos t = omega arith

factor-one : (t : ℕ) → t < 2 ^ 64 → factor t ≡ 1
unfolding factor
factor-one t h = omega arith

-- A small issuance needs no scaling.
pub to_vote-exact :
    (t x : ℕ) → t < 2 ^ 64 → x ≤ t → (to_vote t x ≡ x) × (to_balance t (to_vote t x) ≡ x)
unfolding to_vote to_balance
to_vote-exact t x h k = rw (factor-one t h) (omega arith, omega arith)

-- For a balance below 2 ^ 128 whose quotient by the factor fits in 64 bits, converting to a vote
-- and back gives at most the balance, and less than one factor below it.
pub to_balance-to_vote :
    (t x : ℕ)
    → x < 2 ^ 128
    → x / factor t < 2 ^ 64
    → (to_balance t (to_vote t x) ≤ x) × (x < to_balance t (to_vote t x) + factor t)
unfolding to_vote to_balance
to_balance-to_vote t x h k =
    let parts = div-add-mod' x (factor t) in
    let rest = mod-lt x (factor-pos t) in
    let below : x / factor t * factor t < 2 ^ 128 = omega arith in
    rw (mod-eq_of_lt k, mod-eq_of_lt below) (omega arith, omega arith)

-- at most one bit is lost
pub quotient-lt : (t x : ℕ) → x ≤ t → x / factor t < 2 * 2 ^ 64
unfolding factor
quotient-lt t x h = (div-lt_iff_lt-mul (factor-pos t)).1 (omega arith)

-- For a balance of at most the total issuance whose quotient by the factor does not fit in 64
-- bits, the vote is less than the quotient by exactly 2 ^ 64.
pub to_vote-wraps : (t x : ℕ) → x ≤ t → 2 ^ 64 ≤ x / factor t → to_vote t x + 2 ^ 64 ≡ x / factor t
unfolding to_vote
to_vote-wraps t x h k = omega (arith, quotient-lt t x h)
