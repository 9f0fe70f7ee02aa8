-- ===== src/Base/Covers.antt =====
-- Sums over a list without repetition whose elements stand on another list.
use Prim.Native.Nat.{ℕ, ◌+◌, ◌≤◌}
use mathlib.Core.Path.{◌≡◌, sym, ◌∙◌}
use mathlib.Core.Logic.{◌≢◌, ◌⊎◌, inl, inr}
use mathlib.Core.List.{List, [], ◌∷◌}
use native.Mathlib.Omega.{arith}
use e2_chain.Base.Sums.{total, IsAbsent, IsDistinct}

module _ {A : Type 0} where
  -- `a` is on the list.
  abbrev pub IsPresent : A → List A → Type 0
  IsPresent a [] = ⊥
  IsPresent a (x ∷ xs) = (a ≡ x) ⊎ IsPresent a xs

  module _ (f : A → ℕ) where
    -- Each element of the first list counts nothing or is on the second.
    abbrev pub AllCovered : List A → List A → Type 0
    AllCovered [] ys = Unit
    AllCovered (x ∷ xs) ys = ((f x ≡ 0) ⊎ IsPresent x ys) × AllCovered xs ys

    -- An element taken off a list.
    total-without :
        (a : A) (ys : List A)
        → IsPresent a ys
        → (rest : List A) × (total f ys ≡ f a + total f rest)
          × ((b : A) → a ≢ b → IsPresent b ys → IsPresent b rest)
    total-without a [] h = elim h [ ]
    total-without a (y ∷ ys) (inl e) =
        (ys, ground (arith, e), (λ b n h. elim h [ inl q ↦ absurd (n (e ∙ sym q)) | inr k ↦ k ]))
    total-without a (y ∷ ys) (inr h) =
        let (rest, t, keep) = total-without a ys h in
        (y ∷ rest, omega (arith, t), (λ b n k. elim k [ inl q ↦ inl q | inr m ↦ inr (keep b n m) ]))

    AllCovered-without :
        (a : A) (xs ys rest : List A)
        → ((b : A) → a ≢ b → IsPresent b ys → IsPresent b rest)
        → IsAbsent a xs
        → AllCovered xs ys
        → AllCovered xs rest
    AllCovered-without a [] ys rest keep n h = tt
    AllCovered-without a (x ∷ xs) ys rest keep n h = (
      elim h.0 [ inl z ↦ inl z | inr m ↦ inr (keep x n.0 m) ],
      AllCovered-without a xs ys rest keep n.1 h.1,
    )

    pub total-covered :
        (xs ys : List A) → IsDistinct xs → AllCovered xs ys → total f xs ≤ total f ys
    total-covered [] ys d h = omega arith
    total-covered (x ∷ xs) ys d h = elim h.0 [
      | inl z ↦ omega (arith, z, total-covered xs ys d.1 h.1)
      | inr m ↦
          let (rest, t, keep) = total-without x ys m in
          omega (arith, t, total-covered xs rest d.1 (AllCovered-without x xs ys rest keep d.0 h.1))
    ]

  pub total-le : (f g : A → ℕ) (xs : List A) → ((x : A) → f x ≤ g x) → total f xs ≤ total g xs
  total-le f g [] h = omega arith
  total-le f g (x ∷ xs) h = omega (arith, h x, total-le f g xs h)
