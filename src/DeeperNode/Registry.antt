-- ===== src/DeeperNode/Registry.antt =====
-- Each dispatchable of pallets/deeper-node/src/lib.rs, reduced to what it writes and when.
use e2_chain.Base.{
  ℕ, ◌≡◌, ◌≢◌, ◌⊎◌, inl, inr, true, false, some, arith, Option-cases, Bool-cases, List, ◌∷◌,
}
use e2_chain.Frame.{ok}
use e2_chain.DeeperNode.{
  Trait, State, min_lock_amt, is_registered, get_device_info, get_servers_by_country,
  try_remove_server, try_add_server, register_device, unregister_device, register_server,
  unregister_server, register_node, unregister_node,
}
use e2_chain.DeeperNode.Listing.{
  try_remove_server-ok, try_add_server-listed, try_add_server-unlisted,
}
use e2_chain.DeeperNode.Servers.{IsAbsent-cases}

module _ (T : Trait) where
  open T use {AccountId, Origin, signer, account_discrete, currency}

  -- The signer of a call is registered.
  pub record IsDevice (o : Origin) (a : AccountId) (s : State T) : Type 0 where
    pub signed : signer o ≡ some a
    pub registered : is_registered T a s ≡ true

  pub record CanReserve (o : Origin) (a : AccountId) (s : State T) : Type 0 where
    pub signed : signer o ≡ some a
    pub reserves : (currency.reserve a min_lock_amt s.ledger).0 ≡ ok tt

  pub register_device-registers :
      (o : Origin) (a : AccountId) (ip : List ℕ) (c : ℕ) (s : State T)
      → CanReserve o a s
      → register_device T o ip c s ≡ (
        ok tt,
        record s {
          device_info =
              T.device_map.insert a
                (record { account_id = a; ipv4 = ip; country = c })
                s.device_info;
          ledger = (currency.reserve a min_lock_amt s.ledger).1;
          events = register_node a ip c ∷ s.events;
        },
      )
  unfolding register_device
  register_device-registers o a ip c s can = ground arith

  pub register_device-refused :
      (o : Origin) (ip : List ℕ) (c : ℕ) (s : State T)
      → (register_device T o ip c s).0 ≢ ok tt
      → (register_device T o ip c s).1 ≡ s
  unfolding register_device
  register_device-refused o ip c s h = elim (Option-cases (signer o)) [
    | inl e ↦ ground arith
    | inr (a, e) ↦ ground (arith, currency.reserve-fails a min_lock_amt s.ledger)
  ]

  pub register_device-succeeds :
      (o : Origin) (ip : List ℕ) (c : ℕ) (s : State T)
      → (register_device T o ip c s).0 ≡ ok tt
      → (a : AccountId) × CanReserve o a s
  unfolding register_device
  register_device-succeeds o ip c s h = elim (Option-cases (signer o)) [
    | inl e ↦ absurd (ground arith)
    | inr (a, e) ↦ (a, ground arith)
  ]

  -- The state of an unregistered device, once it is off the list of its country.
  abbrev dropped : AccountId → State T → State T
  dropped a s = record s {
    device_info = T.device_map.remove a s.device_info;
    ledger = (currency.unreserve a min_lock_amt s.ledger).1;
    events = unregister_node a ∷ s.events;
  }

  pub unregister_device-drops :
      (o : Origin) (a : AccountId) (s : State T)
      → IsDevice o a s
      → unregister_device T o s
        ≡ (ok tt, dropped a (try_remove_server T a (get_device_info T a s).country s).1)
  unfolding unregister_device
  unregister_device-drops o a s d =
      ground (arith, try_remove_server-ok T a (get_device_info T a s).country s)

  pub unregister_device-refused :
      (o : Origin) (s : State T)
      → ((a : AccountId) → ¬ IsDevice o a s)
      → ((unregister_device T o s).0 ≢ ok tt) × ((unregister_device T o s).1 ≡ s)
  unfolding unregister_device
  unregister_device-refused o s h = elim (Option-cases (signer o)) [
    | inl e ↦ ground arith
    | inr (a, e) ↦ ground (arith, h a)
  ]

  pub register_server-adds :
      (o : Origin) (a : AccountId) (c : ℕ) (s : State T)
      → IsDevice o a s
      → register_server T o c s ≡ (ok tt, (try_add_server T a c s).1)
  unfolding register_server
  register_server-adds o a c s d =
      elim (IsAbsent-cases account_discrete a (get_servers_by_country T c s)) [
        | inl h ↦ ground (arith, try_add_server-unlisted T a c s h)
        | inr h ↦ ground (arith, try_add_server-listed T a c s h)
      ]

  pub unregister_server-removes :
      (o : Origin) (a : AccountId) (c : ℕ) (s : State T)
      → IsDevice o a s
      → unregister_server T o c s ≡ (ok tt, (try_remove_server T a c s).1)
  unfolding unregister_server
  unregister_server-removes o a c s d = ground (arith, try_remove_server-ok T a c s)

  -- Without a registered signer the two server calls fail and change nothing.
  pub server-refused :
      (o : Origin) (c : ℕ) (s : State T)
      → ((a : AccountId) → ¬ IsDevice o a s)
      → ((register_server T o c s).0 ≢ ok tt)
        × ((register_server T o c s).1 ≡ s)
        × ((unregister_server T o c s).0 ≢ ok tt)
        × ((unregister_server T o c s).1 ≡ s)
  unfolding register_server unregister_server
  server-refused o c s h = elim (Option-cases (signer o)) [
    | inl e ↦ ground arith
    | inr (a, e) ↦ ground (arith, h a)
  ]

  not-IsDevice :
      (o : Origin) (a b : AccountId) (s : State T)
      → signer o ≡ some a
      → is_registered T a s ≡ false
      → ¬ IsDevice o b s
  not-IsDevice o a b s e r d = ground arith

  pub IsDevice-cases :
      (o : Origin) (s : State T)
      → ((a : AccountId) × IsDevice o a s) ⊎ ((a : AccountId) → ¬ IsDevice o a s)
  IsDevice-cases o s = elim (Option-cases (signer o)) [
    | inl e ↦ inr (λ a d. ground arith)
    | inr (a, e) ↦ elim (Bool-cases (is_registered T a s)) [
      | inl r ↦ inl (a, ground arith)
      | inr r ↦ inr (λ b d. not-IsDevice o a b s e r d)
    ]
  ]
