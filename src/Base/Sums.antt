-- ===== src/Base/Sums.antt =====
-- Sums of a quantity over a list of accounts, and how a shift between two accounts moves them.
use Prim.Native.Nat.{ℕ, ◌+◌, ◌≤◌}
use mathlib.Core.Path.{◌≡◌, refl}
use mathlib.Core.Logic.{◌≢◌, ◌⊎◌, inl, inr, ite}
use mathlib.Core.List.{List, [], ◌∷◌}
use native.Mathlib.Omega.{arith}

module _ {A : Type 0} where
  abbrev pub total : (A → ℕ) → List A → ℕ
  total f [] = 0
  total f (x ∷ xs) = f x + total f xs

  -- `a` is not on the list.
  abbrev pub IsAbsent : A → List A → Type 0
  IsAbsent a [] = Unit
  IsAbsent a (x ∷ xs) = (a ≢ x) × IsAbsent a xs

  -- No account is listed twice.
  abbrev pub IsDistinct : List A → Type 0
  IsDistinct [] = Unit
  IsDistinct (x ∷ xs) = IsAbsent x xs × IsDistinct xs

  -- A pointwise balance of four quantities adds up.
  pub total-balance :
      (f g p q : A → ℕ) (xs : List A)
      → ((x : A) → f x + p x ≡ g x + q x)
      → total f xs + total p xs ≡ total g xs + total q xs
  total-balance f g p q [] h = refl
  total-balance f g p q (x ∷ xs) h = omega (arith, h x, total-balance f g p q xs h)

  pub total-congr : (f g : A → ℕ) (xs : List A) → ((x : A) → f x ≡ g x) → total f xs ≡ total g xs
  total-congr f g [] h = refl
  total-congr f g (x ∷ xs) h = omega (arith, h x, total-congr f g xs h)

  pub total-zero : (f : A → ℕ) (xs : List A) → ((x : A) → f x ≡ 0) → total f xs ≡ 0
  total-zero f [] h = refl
  total-zero f (x ∷ xs) h = omega (arith, h x, total-zero f xs h)

module _ {A : Type 0} (d : Discrete A) where
  -- `v` at the account `a`, nothing elsewhere
  abbrev pub at : A → ℕ → A → ℕ
  at a v x = ite (d a x) v 0

  pub total-at_absent : (a : A) (v : ℕ) (xs : List A) → IsAbsent a xs → total (at a v) xs ≡ 0
  total-at_absent a v [] h = refl
  total-at_absent a v (x ∷ xs) h = ground (arith, total-at_absent a v xs h.1)

  -- On a list without repetition the account stands once or not at all.
  pub total-at_cases :
      (a : A) (v : ℕ) (xs : List A) → IsDistinct xs → (total (at a v) xs ≡ v) ⊎ (IsAbsent a xs)
  total-at_cases a v [] h = inr tt
  total-at_cases a v (x ∷ xs) h = elim (d a x) [
    | yes e ↦ inl (ground (arith, total-at_absent x v xs h.0, total-at_absent a v xs))
    | no n ↦ ground (arith, total-at_cases a v xs h.1)
  ]

  pub total-at-le : (a : A) (v : ℕ) (xs : List A) → IsDistinct xs → total (at a v) xs ≤ v
  total-at-le a v xs h = ground (arith, total-at_cases a v xs h, total-at_absent a v xs)
