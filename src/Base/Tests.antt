-- ===== src/Base/Tests.antt =====
-- Boolean tests on the native numbers, the conditional, and case splits that keep an equation.
use Prim.Native.Nat.{ℕ, compare, Ordering}
use mathlib.Core.Path.{◌≡◌, refl, ap}
use mathlib.Core.Logic.{◌⊎◌, inl, inr, ite}
use mathlib.Core.Bool.{Bool, true, false}
use mathlib.Core.Option.{Option, none, some}

abbrev pub ltb : ℕ → ℕ → Bool
ltb a b = elim (compare a b) [ Ordering.lt ↦ true | _ ↦ false ]

abbrev pub leb : ℕ → ℕ → Bool
leb a b = elim (compare a b) [ Ordering.gt ↦ false | _ ↦ true ]

infix 50 ◌==◌
abbrev pub ◌==◌ : ℕ → ℕ → Bool
a == b = elim (compare a b) [ Ordering.eq ↦ true | _ ↦ false ]

infix 1 if◌then◌else◌
abbrev pub if◌then◌else◌ {ℓ} : {A : Type ℓ} → Bool → A → A → A
if true then x else y = x
if false then x else y = y

pub Bool-cases : (b : Bool) → (b ≡ true) ⊎ (b ≡ false)
Bool-cases true = inl refl
Bool-cases false = inr refl

pub Option-cases {ℓ} : {A : Type ℓ} (o : Option A) → (o ≡ none) ⊎ ((a : A) × (o ≡ some a))
Option-cases none = inl refl
Option-cases (some a) = inr (a, refl)

-- `Option::is_some`, `Option::unwrap_or`
abbrev pub is_some {ℓ} : {A : Type ℓ} → Option A → Bool
is_some none = false
is_some (some _) = true

abbrev pub unwrap_or {ℓ} : {A : Type ℓ} → A → Option A → A
unwrap_or d none = d
unwrap_or d (some a) = a

-- `==` of a type with decidable equality
abbrev pub eqb {ℓ} : {A : Type ℓ} → Discrete A → A → A → Bool
eqb d a b = ite (d a b) true false

-- Equality of pairs, decided by one component after the other.
unfoldable pub discrete_pair : {A B : Type 0} → Discrete A → Discrete B → Discrete (A × B)
discrete_pair {A} {B} d e (a, b) (x, y) = elim (d a x) [
  | no n ↦ no (λ p. n (ap (λ (q : A × B). q.0) p))
  | yes p ↦ elim (e b y) [ no n ↦ no (λ q. n (ap (λ (r : A × B). r.1) q)) | yes q ↦ yes (cc) ]
]

unfoldable pub discrete_triple :
    {A B C : Type 0} → Discrete A → Discrete B → Discrete C → Discrete (A × B × C)
discrete_triple {A} {B} {C} d e f (a, b, c) (x, y, z) = elim (d a x) [
  | no n ↦ no (λ p. n (ap (λ (q : A × B × C). q.0) p))
  | yes p ↦ elim (e b y) [
    | no n ↦ no (λ q. n (ap (λ (r : A × B × C). r.1) q))
    | yes q ↦ elim (f c z) [ no n ↦ no (λ q. n (ap (λ (r : A × B × C). r.2) q)) | yes r ↦ yes cc ]
  ]
]
