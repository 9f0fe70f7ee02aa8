-- ===== src/DeeperNode/Members.antt =====
-- Whether an account is on a list, for the server lists of pallets/deeper-node/src/lib.rs, and how that
-- follows the changes of the list.
use e2_chain.Base.{
  ℕ, ◌≡◌, inl, inr, refl, Bool, true, false, ◌||◌, arith, ite, some, Option-cases, List, [], ◌∷◌,
  ◌++◌, eqb, IsAbsent, IsDistinct,
}
use e2_chain.DeeperNode.{position}
use e2_chain.DeeperNode.Servers.{erase}

module _ {A : Type 0} (d : Discrete A) where
  abbrev pub is_listed : A → List A → Bool
  is_listed a [] = false
  is_listed a (x ∷ xs) = eqb d x a || is_listed a xs

  pub is_listed-absent : (a : A) (xs : List A) → IsAbsent a xs → is_listed a xs ≡ false
  is_listed-absent a [] h = refl
  is_listed-absent a (x ∷ xs) h = ground (arith, d x a, is_listed-absent a xs h.1)

  pub IsAbsent-is_listed : (a : A) (xs : List A) → is_listed a xs ≡ false → IsAbsent a xs
  IsAbsent-is_listed a [] h = tt
  IsAbsent-is_listed a (x ∷ xs) h =
      (ground (arith, d x a), IsAbsent-is_listed a xs (ground (arith, d x a)))

  pub is_listed-snoc :
      (a b : A) (xs : List A) → is_listed b (xs ++ a ∷ []) ≡ ite (d a b) true (is_listed b xs)
  is_listed-snoc a b [] = ground arith
  is_listed-snoc a b (x ∷ xs) = ground (arith, d x b, is_listed-snoc a b xs)

  pub is_listed-erase :
      (a b : A) (xs : List A)
      → IsDistinct xs
      → is_listed b (erase d a xs) ≡ ite (d a b) false (is_listed b xs)
  is_listed-erase a b [] h = ground arith
  is_listed-erase a b (x ∷ xs) h =
      ground (arith, d x a, d x b, d a b, is_listed-erase a b xs h.1, is_listed-absent x xs h.0)

  pub position-listed :
      (a : A) (xs : List A) (i : ℕ) → position (λ x. eqb d x a) xs ≡ some i → is_listed a xs ≡ true
  unfolding position
  position-listed a [] i h = absurd (ground arith)
  position-listed a (x ∷ xs) i h = elim (d x a) [
    | yes e ↦ ground arith
    | no n ↦ elim (Option-cases (position (λ y. eqb d y a) xs)) [
      | inl k ↦ absurd (ground arith)
      | inr (j, k) ↦ ground (arith, position-listed a xs j k)
    ]
  ]
