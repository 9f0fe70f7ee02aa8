-- ===== src/Template/Counter.antt =====
-- The stored value of pallets/template/src/lib.rs as a counter that cannot overflow.
use e2_chain.Base.{
  ℕ, suc, zero, ◌+◌, ◌≤◌, ◌<◌, ◌^◌, ◌≡◌, ◌≢◌, ◌⊎◌, inl, inr, none, some, arith, Option-cases,
  Bool-cases, ltb, ◌∷◌,
}
use e2_chain.Frame.{System, DispatchError, ok, err, bad_origin}
use e2_chain.Template.{
  State, Error, none_value, storage_overflow, something_stored, do_something, cause_error,
}

module _ (T : System) (from_error : Error → DispatchError) where
  open T use {AccountId, Origin, signer}

  pub do_something-stores :
      (o : Origin) (a : AccountId) (n : ℕ) (s : State T)
      → signer o ≡ some a
      → do_something T from_error o n s
        ≡ (ok tt, record { something = some n; events = something_stored n a ∷ s.events })
  unfolding do_something
  do_something-stores o a n s e = ground arith

  -- The call ends in one of four ways: unsigned, it fails with a bad origin; with no value
  -- stored, with the error for that; with the largest `u32` stored, with the error for an
  -- overflow; each without a change; otherwise it succeeds and counts the stored value up by
  -- one.
  pub cause_error-outcomes :
      (o : Origin) (s : State T)
      → ((signer o ≡ none) × (cause_error T from_error o s ≡ (err bad_origin, s)))
        ⊎ ((signer o ≢ none)
            × (s.something ≡ none)
            × (cause_error T from_error o s ≡ (err (from_error none_value), s)))
        ⊎ ((n : ℕ) × (signer o ≢ none)
            × (s.something ≡ some n)
            × (2 ^ 32 ≤ n + 1)
            × (cause_error T from_error o s ≡ (err (from_error storage_overflow), s)))
        ⊎ ((n : ℕ) × (signer o ≢ none)
            × (s.something ≡ some n)
            × (n + 1 < 2 ^ 32)
            × (cause_error T from_error o s ≡ (ok tt, record s { something = some (n + 1) })))
  unfolding cause_error
  cause_error-outcomes o s = elim (Option-cases (signer o)) [
    | inl e ↦ inl (e, ground arith)
    | inr (a, e) ↦ elim (Option-cases s.something) [
      | inl h ↦ inr (inl (ground arith, h, ground arith))
      | inr (n, h) ↦ elim (Bool-cases (ltb (n + 1) (2 ^ 32))) [
        | inl fits ↦ inr (inr (inr (n, ground arith, h, ground arith, ground arith)))
        | inr full ↦ inr (inr (inl (n, ground arith, h, ground arith, ground arith)))
      ]
    ]
  ]

  -- `cause_error`, `k` times
  abbrev pub repeats : ℕ → Origin → State T → State T
  repeats zero o s = s
  repeats (suc k) o s = repeats k o (cause_error T from_error o s).1

  -- Repeated calls count.
  pub cause_error-counts :
      (o : Origin) (a : AccountId) (k n : ℕ) (s : State T)
      → signer o ≡ some a
      → s.something ≡ some n
      → n + k < 2 ^ 32
      → (repeats k o s).something ≡ some (n + k)
  unfolding cause_error
  cause_error-counts o a zero n s e h room = ground arith
  cause_error-counts o a (suc k) n s e h room =
      ground (arith, cause_error-counts o a k (n + 1) (cause_error T from_error o s).1 e)
