-- ===== src/Erc20/Transfer.antt =====
-- When `_transfer` of pallets/erc20/src/lib.rs goes through, and what it does to the balances.
use e2_chain.Base.{
  ℕ, ◌+◌, ◌-◌, ◌≤◌, ◌<◌, ◌^◌, ◌≡◌, ◌≢◌, ◌↔◌, true, some, arith, ite, ap, ℕ_discrete,
}
use e2_chain.Frame.{contains_key, lookup-insert, ok}
use e2_chain.Erc20.{Trait, State, balance_bits, balance_of, move_balance}

module _ (T : Trait) where
  open T use {AccountId}

  -- The conditions under which a transfer is carried out.
  pub record CanMove (id : ℕ) (from to : AccountId) (value : ℕ) (s : State T) : Type 0 where
    pub owns : contains_key T.balance_map (id, from) s.balances ≡ true
    pub covered : value ≤ balance_of T (id, from) s
    pub fits : balance_of T (id, to) s + value < 2 ^ balance_bits

  -- A transfer succeeds if and only if the sender has an entry for the token, the value is
  -- covered by its balance, and the balance of the receiver plus the value fits in 64 bits.
  pub move_balance-succeeds :
      (id : ℕ) (from to : AccountId) (value : ℕ) (s : State T)
      → ((move_balance T id from to value s).0 ≡ ok tt) ↔ CanMove id from to value s
  unfolding move_balance
  move_balance-succeeds id from to value s = ground arith

  -- A transfer of balance that does not succeed leaves the whole state as it was.
  pub move_balance-atomic :
      (id : ℕ) (from to : AccountId) (value : ℕ) (s : State T)
      → (move_balance T id from to value s).0 ≢ ok tt
      → (move_balance T id from to value s).1 ≡ s
  unfolding move_balance
  move_balance-atomic id from to value s h = ground arith

  pub key_discrete : Discrete (ℕ × AccountId)
  key_discrete = hlevel (ℕ_discrete, T.account_discrete)

  pub ne-key : (i j : ℕ) (a b : AccountId) → a ≢ b → ◌≢◌ {A = ℕ × AccountId} (i, a) (j, b)
  ne-key i j a b n e = n (ap (λ (k : ℕ × AccountId). k.1) e)

  pub ne-id : (i j : ℕ) (a b : AccountId) → i ≢ j → ◌≢◌ {A = ℕ × AccountId} (i, a) (j, b)
  ne-id i j a b n e = n (ap (λ (k : ℕ × AccountId). k.0) e)

  -- The two writes, in their order: where `from` is `to`, the second one stays.
  pub move_balance-lookup :
      (id : ℕ) (from to : AccountId) (value : ℕ) (s : State T)
      → CanMove id from to value s
      → (k : ℕ × AccountId)
      → T.balance_map.lookup k (move_balance T id from to value s).1.balances
        ≡ ite (key_discrete (id, to) k) (some (balance_of T (id, to) s + value)) (
            ite
              (key_discrete (id, from) k)
              (some (balance_of T (id, from) s - value))
              (T.balance_map.lookup k s.balances))
  unfolding move_balance
  move_balance-lookup id from to value s can k = ground (
    arith,
    lookup-insert T.balance_map key_discrete k (id, to) (balance_of T (id, to) s + value)
        (T.balance_map.insert (id, from) (balance_of T (id, from) s - value) s.balances),
    lookup-insert T.balance_map key_discrete k (id, from) (balance_of T (id, from) s - value)
        s.balances,
  )

  pub move_balance-moves :
      (id : ℕ) (from to : AccountId) (value : ℕ) (s : State T)
      → CanMove id from to value s
      → from ≢ to
      → let s' = (move_balance T id from to value s).1 in
        (balance_of T (id, from) s' + value ≡ balance_of T (id, from) s)
        × (balance_of T (id, to) s' ≡ balance_of T (id, to) s + value)
  move_balance-moves id from to value s can ne = (
    ground (
      arith,
      can.covered,
      ne-key id id from to ne,
      move_balance-lookup id from to value s can (id, from),
    ),
    ground (arith, move_balance-lookup id from to value s can (id, to)),
  )

  -- A transfer between two different accounts that meets its conditions takes the value from the
  -- sender, gives it to the receiver, and leaves the balance under any other key as it was.
  pub move_balance-effect :
      (id : ℕ) (from to : AccountId) (value : ℕ) (s : State T)
      → CanMove id from to value s
      → from ≢ to
      → (k : ℕ × AccountId) → k ≢ (id, from)
      → k ≢ (id, to)
      → let s' = (move_balance T id from to value s).1 in
        (balance_of T (id, from) s' + value ≡ balance_of T (id, from) s)
        × (balance_of T (id, to) s' ≡ balance_of T (id, to) s + value)
        × (balance_of T k s' ≡ balance_of T k s)
  move_balance-effect id from to value s can ne k nf nt =
      let moved = move_balance-moves id from to value s can ne in
      (moved.0, moved.1, ground (arith, move_balance-lookup id from to value s can k))

  -- A transfer of an account to itself that meets the conditions of a transfer adds the value to
  -- its balance.
  pub move_balance_self :
      (id : ℕ) (a : AccountId) (value : ℕ) (s : State T)
      → CanMove id a a value s
      → balance_of T (id, a) (move_balance T id a a value s).1 ≡ balance_of T (id, a) s + value
  move_balance_self id a value s can =
      ground (arith, move_balance-lookup id a a value s can (id, a))

  -- A transfer touches balances and events only, however it ends.
  pub move_balance-fixed :
      (id : ℕ) (from to : AccountId) (value : ℕ) (s : State T)
      → let s' = (move_balance T id from to value s).1 in
        (s'.tokens ≡ s.tokens) × (s'.allowances ≡ s.allowances) × (s'.next_id ≡ s.next_id)
  unfolding move_balance
  move_balance-fixed id from to value s = ground arith
