-- ===== src/DeeperNode/Leftovers.antt =====
-- What pallets/deeper-node/src/lib.rs leaves behind: a deposit that was reserved twice and is given
-- back once, and servers of devices that are gone.
use e2_chain.Base.{
  ℕ, ◌≡◌, ◌≢◌, ◌+◌, inl, inr, refl, false, some, arith, ap, List, IsAbsent, sym, ◌∙◌, subst,
  is_some,
}
use e2_chain.Frame.{ok}
use e2_chain.DeeperNode.{
  Trait, State, min_lock_amt, is_registered, get_device_info, get_servers_by_country,
  register_device, unregister_device, register_server, unregister_server,
}
use e2_chain.DeeperNode.Listing.{try_add_server-listed, try_add_server-unlisted}
use e2_chain.DeeperNode.Servers.{IsAbsent-cases}
use e2_chain.DeeperNode.Registry.{
  IsDevice, CanReserve, register_device-registers, unregister_device-refused, register_server-adds,
  server-refused,
}
use e2_chain.DeeperNode.Invariant.{
  IsRegistry, register_device-IsRegistry, register_server-IsRegistry,
}
use e2_chain.DeeperNode.Lifecycle.{
  Serves, register_server-unlisted, register_server-lists, unregister_device-clears,
}

module _ (T : Trait) where
  open T use {AccountId, Origin, signer, account_discrete, currency}

  -- A registration reserves the deposit and leaves the account registered.
  pub register_device-deposits :
      (o : Origin) (a : AccountId) (ip : List ℕ) (c : ℕ) (s : State T)
      → CanReserve T o a s
      → let (r, s') = register_device T o ip c s in
        (r ≡ ok tt)
        × IsDevice T o a s'
        × (currency.reserved a s'.ledger ≡ currency.reserved a s.ledger + min_lock_amt)
        × ((j : ℕ) → get_servers_by_country T j s' ≡ get_servers_by_country T j s)
  register_device-deposits o a ip c s can = rw (register_device-registers T o a ip c s can) (
    refl,
    record {
      signed = can.signed;
      registered = ap is_some (T.device_map.lookup-insert_self a _ s.device_info);
    },
    currency.reserve-adds a min_lock_amt s.ledger can.reserves,
    λ j. refl,
  )

  gone :
      (o : Origin) (a : AccountId) (s : State T)
      → signer o ≡ some a
      → is_registered T a s ≡ false
      → (b : AccountId) → ¬ IsDevice T o b s
  gone o a s e r b d = ground arith

  -- In a state that meets the invariant, an account that can reserve the deposit, registers its
  -- device, can reserve it again, registers again, and then unregisters is left with no device
  -- and one deposit still reserved, and unregistering once more fails and changes nothing.
  pub register_device-locks_twice :
      (o : Origin) (a : AccountId) (ip ip' : List ℕ) (c c' : ℕ) (s : State T)
      → IsRegistry T (λ a. 0) s
      → CanReserve T o a s
      → CanReserve T o a (register_device T o ip c s).1
      → let s' =
          (unregister_device T o (register_device T o ip' c' (register_device T o ip c s).1).1).1 in
        (currency.reserved a s'.ledger ≡ currency.reserved a s.ledger + min_lock_amt)
        × (is_registered T a s' ≡ false)
        × ((unregister_device T o s').0 ≢ ok tt)
        × ((unregister_device T o s').1 ≡ s')
  register_device-locks_twice o a ip ip' c c' s v can can' =
      let s₁ = (register_device T o ip c s).1 in
      let s₂ = (register_device T o ip' c' s₁).1 in
      let v₂ = register_device-IsRegistry T o ip' c' s₁ (register_device-IsRegistry T o ip c s v) in
      let once = register_device-deposits o a ip c s can in
      let twice = register_device-deposits o a ip' c' s₁ can' in
      let left = unregister_device-clears T o a s₂ v₂ twice.1 in
      let refused =
        unregister_device-refused T o (unregister_device T o s₂).1
          (gone o a (unregister_device T o s₂).1 can.signed left.1) in
      (omega (arith, once.2, twice.2, left.2), left.1, refused.0, refused.1)

  register_server-IsDevice :
      (o : Origin) (a : AccountId) (c : ℕ) (s : State T)
      → IsDevice T o a s
      → IsDevice T o a (register_server T o c s).1
  register_server-IsDevice o a c s d =
      elim (IsAbsent-cases account_discrete a (get_servers_by_country T c s)) [
        | inr listed ↦ rw (register_server-adds T o a c s d, try_add_server-listed T a c s listed) d
        | inl absent ↦
            rw (register_server-adds T o a c s d, try_add_server-unlisted T a c s absent)
              (record {
                signed = d.signed;
                registered = ap is_some (T.device_map.lookup-insert_self a _ s.device_info);
              })
      ]

  -- In a state that meets the invariant, a device that registers as a server of one country and
  -- then of another, whose list did not name it, and then unregisters, still serves the first
  -- country while it is registered no more, and unregistering from that country fails and
  -- changes nothing.
  pub unregister_device-leaves_server :
      (o : Origin) (a : AccountId) (c c' : ℕ) (s : State T)
      → IsRegistry T (λ a. 0) s
      → IsDevice T o a s
      → c ≢ c'
      → IsAbsent a (get_servers_by_country T c' s)
      → let s' = (unregister_device T o (register_server T o c' (register_server T o c s).1).1).1 in
        Serves T a c s'
        × (is_registered T a s' ≡ false)
        × ((unregister_server T o c s').0 ≢ ok tt)
        × ((unregister_server T o c s').1 ≡ s')
  unregister_device-leaves_server o a c c' s v d ne new =
      let s₁ = (register_server T o c s).1 in
      let s₂ = (register_server T o c' s₁).1 in
      let s₃ = (unregister_device T o s₂).1 in
      let d₁ = register_server-IsDevice o a c s d in
      let d₂ = register_server-IsDevice o a c' s₁ d₁ in
      let v₂ = register_server-IsRegistry T o c' s₁ (register_server-IsRegistry T o c s v) in
      let first = register_server-lists T o a c s d in
      let other : IsAbsent a (get_servers_by_country T c' s₁) =
        subst (IsAbsent a) (sym (first.3 c' (λ p. ne (sym p)))) new in
      let second = register_server-unlisted T o a c' s₁ d₁ other in
      let left = unregister_device-clears T o a s₂ v₂ d₂ in
      let away : c ≢ (get_device_info T a s₂).country = λ p. ne (p ∙ second.2) in
      let kept : get_servers_by_country T c s₃ ≡ get_servers_by_country T c s₁ =
        left.4 c away ∙ second.1 c ne in
      let refused = server-refused T o c s₃ (gone o a s₃ d.signed left.1) in
      ((λ h. first.1 (subst (IsAbsent a) kept h)), left.1, refused.2, refused.3)
