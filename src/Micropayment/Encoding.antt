-- ===== src/Micropayment/Encoding.antt =====
-- The signed bytes of pallets/micropayment/src/lib.rs determine what they stand for.
use e2_chain.Base.{
  ℕ, suc, zero, ◌+◌, ◌*◌, ◌/◌, ◌%◌, ◌^◌, ◌<◌, ◌≡◌, refl, ap, List, [], ◌∷◌, ◌++◌, length,
  length-append, arith, sym, ◌∙◌,
}
use native.Mathlib.Nat.{
  mod-lt, div-add-mod', pow-succ', one-le-pow, mul-add-mod_self_right, mod-eq_of_lt,
}
use e2_chain.Micropayment.Message.{Crypto, to_be_bytes, construct_byte_array}

-- The number that bytes stand for, the first the highest.
abbrev pub from_be_bytes : List ℕ → ℕ
from_be_bytes [] = 0
from_be_bytes (b ∷ bs) = b * 256 ^ length bs + from_be_bytes bs

pub length-to_be_bytes : (w n : ℕ) → length (to_be_bytes w n) ≡ w
unfolding to_be_bytes
length-to_be_bytes zero n = refl
length-to_be_bytes (suc w) n = ap suc (length-to_be_bytes w n)

digit_bound : (b p r : ℕ) → b < 256 → r < p → b * p + r < 256 * p
digit_bound b p r h k = grind arith

-- One more digit, in front.
mod-digit : (n p : ℕ) → 0 < p → n % (256 * p) ≡ (n / p % 256) * p + n % p
mod-digit n p h =
    let digits : n ≡ n / p / 256 * (256 * p) + (n / p % 256 * p + n % p) =
      omega (arith, div-add-mod' n p, ap (λ (t : ℕ). t * p) (div-add-mod' (n / p) 256)) in
    let small : n / p % 256 * p + n % p < 256 * p =
      digit_bound (n / p % 256) p (n % p) (omega arith) (mod-lt n h) in
    ap (λ (t : ℕ). t % (256 * p)) digits
    ∙ mul-add-mod_self_right (n / p / 256) (256 * p) (n / p % 256 * p + n % p)
    ∙ mod-eq_of_lt small

from_be_bytes-to_be_bytes_mod : (w n : ℕ) → from_be_bytes (to_be_bytes w n) ≡ n % 256 ^ w
unfolding to_be_bytes
from_be_bytes-to_be_bytes_mod zero n = omega arith
from_be_bytes-to_be_bytes_mod (suc w) n =
    rw (length-to_be_bytes w n, from_be_bytes-to_be_bytes_mod w n, pow-succ' 256 w)
      (sym (mod-digit n (256 ^ w) (one-le-pow w 256 (omega arith))))

-- Reading back a number that fits its bytes.
pub from_be_bytes-to_be_bytes : (w n : ℕ) → n < 256 ^ w → from_be_bytes (to_be_bytes w n) ≡ n
from_be_bytes-to_be_bytes w n h = from_be_bytes-to_be_bytes_mod w n ∙ mod-eq_of_lt h

append-split {ℓ} :
    {A : Type ℓ} (xs ys zs ws : List A)
    → length xs ≡ length ys
    → xs ++ zs ≡ ys ++ ws
    → (xs ≡ ys) × (zs ≡ ws)
append-split [] [] zs ws l e = (refl, e)
append-split [] (y ∷ ys) zs ws l e = absurd (omega arith)
append-split (x ∷ xs) [] zs ws l e = absurd (omega arith)
append-split (x ∷ xs) (y ∷ ys) zs ws l e = ground (arith, append-split xs ys zs ws)

module _ {AccountId : Type 0} (C : Crypto AccountId) where
  -- What the signed bytes rest on of the SCALE codec: account ids are 32 bytes, and different values
  -- (of a balance, a `u128`) are different bytes.
  pub record IsFaithful : Type 0 where
    pub account_length : (a : AccountId) → length (C.encode_account a) ≡ 32
    pub account_injective : (a b : AccountId) → C.encode_account a ≡ C.encode_account b → a ≡ b
    pub balance_injective :
        (m n : ℕ) → m < 2 ^ 128 → n < 2 ^ 128 → C.encode_balance m ≡ C.encode_balance n → m ≡ n

  -- If account ids are encoded as 32 bytes and injectively, and balances below 2 ^ 128
  -- injectively, then two messages with nonces below 2 ^ 64, sessions below 2 ^ 32 and amounts
  -- below 2 ^ 128 that have the same bytes agree in address, nonce, session and amount.
  pub construct_byte_array-injective :
      IsFaithful
      → (a b : AccountId) (nonce nonce' id id' amount amount' : ℕ) → nonce < 2 ^ 64
      → nonce' < 2 ^ 64
      → id < 2 ^ 32
      → id' < 2 ^ 32
      → amount < 2 ^ 128
      → amount' < 2 ^ 128
      → construct_byte_array C a nonce id amount ≡ construct_byte_array C b nonce' id' amount'
      → (a ≡ b) × (nonce ≡ nonce') × (id ≡ id') × (amount ≡ amount')
  unfolding construct_byte_array
  construct_byte_array-injective f a b n n' i i' m m' hn hn' hi hi' hm hm' e =
      let ins = append-split _ _ _ _ (front a n i ∙ sym (front b n' i')) e in
      let heads = append-split _ _ _ _ (middle a n ∙ sym (middle b n')) ins.0 in
      let tops = append-split _ _ _ _ (f.account_length a ∙ sym (f.account_length b)) heads.0 in
      (
        f.account_injective a b tops.0,
        sym (from_be_bytes-to_be_bytes 8 n hn)
            ∙ ap from_be_bytes tops.1
            ∙ from_be_bytes-to_be_bytes 8 n' hn',
        sym (from_be_bytes-to_be_bytes 4 i hi)
            ∙ ap from_be_bytes heads.1
            ∙ from_be_bytes-to_be_bytes 4 i' hi',
        f.balance_injective m m' hm hm' ins.1,
      )
    where
      middle : (c : AccountId) (k : ℕ) → length (C.encode_account c ++ to_be_bytes 8 k) ≡ 40
      middle c k = omega (
        arith,
        length-append (C.encode_account c) (to_be_bytes 8 k),
        f.account_length c,
        length-to_be_bytes 8 k,
      )

      front :
          (c : AccountId) (k j : ℕ)
          → length ((C.encode_account c ++ to_be_bytes 8 k) ++ to_be_bytes 4 j) ≡ 44
      front c k j = omega (
        arith,
        length-append (C.encode_account c ++ to_be_bytes 8 k) (to_be_bytes 4 j),
        middle c k,
        length-to_be_bytes 4 j,
      )
