-- ===== src/DeeperNode/Servers.antt =====
-- Lists of accounts, for the server lists of pallets/deeper-node/src/lib.rs: taking one out, and
-- adding one at the end.
use e2_chain.Base.{
  ℕ, suc, zero, ◌≡◌, ◌≢◌, ◌⊎◌, ◌↔◌, inl, inr, refl, some, none, arith, ite, List, [], ◌∷◌, ◌++◌,
  eqb, IsAbsent, IsDistinct, sym, ◌∙◌, if_pos, if_neg, subst,
}
use e2_chain.DeeperNode.{position, remove}

module _ {A : Type 0} (d : Discrete A) where
  -- the list with its first `a` taken out
  abbrev pub erase : A → List A → List A
  erase a [] = []
  erase a (x ∷ xs) = ite (d x a) xs (x ∷ erase a xs)

  pub position-none : (a : A) (xs : List A) → position (λ x. eqb d x a) xs ≡ none → IsAbsent a xs
  unfolding position
  position-none a [] h = tt
  position-none a (x ∷ xs) h = (ground arith, position-none a xs (ground arith))

  pub IsAbsent-cases : (a : A) (xs : List A) → IsAbsent a xs ⊎ (¬ IsAbsent a xs)
  IsAbsent-cases a [] = inl tt
  IsAbsent-cases a (x ∷ xs) = elim (d x a) [
    | yes e ↦ inr (λ h. h.0 (sym e))
    | no n ↦ elim (IsAbsent-cases a xs) [
      | inl h ↦ inl ((λ p. n (sym p)), h)
      | inr h ↦ inr (λ k. h k.1)
    ]
  ]

  -- What is at an index that `position` finds is the first `a`.
  pub remove-position :
      (a : A) (xs : List A) (i : ℕ)
      → position (λ x. eqb d x a) xs ≡ some i
      → remove i xs ≡ erase a xs
  unfolding position remove
  remove-position a [] i h = absurd (ground arith)
  remove-position a (x ∷ xs) zero h = ground arith
  remove-position a (x ∷ xs) (suc i) h = ground (arith, remove-position a xs i)

  pub erase-absent : (a : A) (xs : List A) → IsAbsent a xs → erase a xs ≡ xs
  erase-absent a [] h = refl
  erase-absent a (x ∷ xs) h = ground (arith, erase-absent a xs h.1)

  pub erase-IsAbsent : (a : A) (xs : List A) → IsDistinct xs → IsAbsent a (erase a xs)
  erase-IsAbsent a [] h = tt
  erase-IsAbsent a (x ∷ xs) h = elim (d x a) [
    | yes e ↦ rw (if_pos _ e) (subst (λ y. IsAbsent y xs) e h.0)
    | no n ↦ rw (if_neg _ n) ((λ p. n (sym p)), erase-IsAbsent a xs h.1)
  ]

  pub IsAbsent-erase : (a b : A) (xs : List A) → IsAbsent b xs → IsAbsent b (erase a xs)
  IsAbsent-erase a b [] h = tt
  IsAbsent-erase a b (x ∷ xs) h = ground (arith, IsAbsent-erase a b xs h.1)

  pub IsAbsent-of_erase : (a b : A) (xs : List A) → b ≢ a → IsAbsent b (erase a xs) → IsAbsent b xs
  IsAbsent-of_erase a b [] n h = tt
  IsAbsent-of_erase a b (x ∷ xs) n h = elim (d x a) [
    | yes e ↦ ((λ p. n (p ∙ e)), subst (IsAbsent b) (if_pos (d x a) e _ _) h)
    | no m ↦
        let h' : IsAbsent b (x ∷ erase a xs) = subst (IsAbsent b) (if_neg (d x a) m _ _) h in
        (h'.0, IsAbsent-of_erase a b xs n h'.1)
  ]

  pub erase-IsDistinct : (a : A) (xs : List A) → IsDistinct xs → IsDistinct (erase a xs)
  erase-IsDistinct a [] h = tt
  erase-IsDistinct a (x ∷ xs) h =
      ground (arith, IsAbsent-erase a x xs h.0, erase-IsDistinct a xs h.1)

module _ {A : Type 0} where
  pub IsAbsent-snoc :
      (a b : A) (xs : List A) → IsAbsent a (xs ++ b ∷ []) ↔ (IsAbsent a xs × (a ≢ b))
  IsAbsent-snoc a b [] = (λ h. (tt, h.0), λ h. (h.1, tt))
  IsAbsent-snoc a b (x ∷ xs) =
      let ih = IsAbsent-snoc a b xs in
      (λ h. let r = ih.0 h.1 in ((h.0, r.0), r.1), λ h. (h.0.0, ih.1 (h.0.1, h.1)))

  pub IsDistinct-snoc :
      (b : A) (xs : List A) → IsDistinct xs → IsAbsent b xs → IsDistinct (xs ++ b ∷ [])
  IsDistinct-snoc b [] h k = (tt, tt)
  IsDistinct-snoc b (x ∷ xs) h k =
      ((IsAbsent-snoc x b xs).1 (h.0, λ p. k.0 (sym p)), IsDistinct-snoc b xs h.1 k.1)
