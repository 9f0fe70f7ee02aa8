-- ===== src/DeeperNode/Lifecycle.antt =====
-- A device over its life in pallets/deeper-node/src/lib.rs: registering, serving countries, leaving,
-- and what is left behind.
use e2_chain.Base.{
  ℕ, ◌≡◌, ◌≢◌, ◌+◌, ◌⊎◌, ◌↔◌, inl, inr, refl, false, arith, ap, if_neg, if_pos, [], ◌∷◌, ◌++◌,
  IsAbsent, IsDistinct, ℕ_discrete, sym, ◌∙◌, subst, is_some,
}
use e2_chain.Frame.{ok}
use e2_chain.DeeperNode.{
  Trait, State, min_lock_amt, is_registered, get_device_info, get_servers_by_country,
  try_remove_server, unregister_device, register_server, unregister_server,
}
use e2_chain.DeeperNode.Listing.{
  IsRemoval, try_remove_server-IsRemoval, try_add_server-listed, try_add_server-unlisted,
}
use e2_chain.DeeperNode.Servers.{
  IsAbsent-cases, IsAbsent-snoc, IsAbsent-erase, IsAbsent-of_erase, erase, erase-IsAbsent,
}
use e2_chain.DeeperNode.Registry.{
  IsDevice, unregister_device-drops, register_server-adds, unregister_server-removes,
}
use e2_chain.DeeperNode.Invariant.{IsRegistry}

module _ (T : Trait) where
  open T use {AccountId, Origin, signer, account_discrete, currency}

  -- The account is on the list of the country's servers.
  abbrev pub Serves : AccountId → ℕ → State T → Type 0
  Serves a c s = ¬ IsAbsent a (get_servers_by_country T c s)

  -- A new server goes to the end of the list of its country.
  pub register_server-unlisted :
      (o : Origin) (a : AccountId) (c : ℕ) (s : State T)
      → IsDevice T o a s
      → IsAbsent a (get_servers_by_country T c s)
      → let s' = (register_server T o c s).1 in
        (get_servers_by_country T c s' ≡ get_servers_by_country T c s ++ a ∷ [])
        × ((j : ℕ) → j ≢ c → get_servers_by_country T j s' ≡ get_servers_by_country T j s)
        × ((get_device_info T a s').country ≡ c)
  register_server-unlisted o a c s d absent =
      let node = record (get_device_info T a s) { country = c } in
      let list = get_servers_by_country T c s ++ a ∷ [] in
      rw (register_server-adds T o a c s d, try_add_server-unlisted T a c s absent)
        (
          ground (arith, T.server_map.lookup-insert_self c list s.servers_by_country),
          λ j n.
              ground (
                arith,
                T.server_map.lookup-insert_ne j c list s.servers_by_country (λ p. n (sym p)),
              ),
          ground (arith, T.device_map.lookup-insert_self a node s.device_info),
        )

  pub register_server-lists :
      (o : Origin) (a : AccountId) (c : ℕ) (s : State T)
      → IsDevice T o a s
      → let (r, s') = register_server T o c s in
        (r ≡ ok tt)
        × Serves a c s'
        × ((Serves a c s × (s' ≡ s))
            ⊎ (¬ Serves a c s
                × (get_servers_by_country T c s' ≡ get_servers_by_country T c s ++ a ∷ [])
                × ((get_device_info T a s').country ≡ c)))
        × ((j : ℕ) → j ≢ c → get_servers_by_country T j s' ≡ get_servers_by_country T j s)
  register_server-lists o a c s d =
      elim (IsAbsent-cases account_discrete a (get_servers_by_country T c s)) [
        | inr listed ↦
            rw (register_server-adds T o a c s d, try_add_server-listed T a c s listed)
              (refl, listed, inl (listed, refl), λ j n. refl)
        | inl absent ↦
            let new = register_server-unlisted o a c s d absent in
            (
              ap (λ r. r.0) (register_server-adds T o a c s d),
              (λ h.
                  ((IsAbsent-snoc a a (get_servers_by_country T c s)).0
                      (subst (IsAbsent a) new.0 h)).1
                    refl),
              inr ((λ listed. listed absent), new.0, new.2),
              new.1,
            )
      ]

  -- If the signer has a device, registering it as a server of a country succeeds and it serves
  -- the country afterwards: either it did before and nothing changes, or it is appended to the
  -- list and the country of its device is set. The list of any other country stays.
  pub register_server-Serves :
      (o : Origin) (a : AccountId) (c : ℕ) (s : State T)
      → IsDevice T o a s
      → (j : ℕ) → j ≢ c
      → let (r, s') = register_server T o c s in
        (r ≡ ok tt)
        × Serves a c s'
        × ((Serves a c s × (s' ≡ s))
            ⊎ (¬ Serves a c s
                × (get_servers_by_country T c s' ≡ get_servers_by_country T c s ++ a ∷ [])
                × ((get_device_info T a s').country ≡ c)))
        × (get_servers_by_country T j s' ≡ get_servers_by_country T j s)
  register_server-Serves o a c s d j n =
      let listed = register_server-lists o a c s d in (listed.0, listed.1, listed.2, listed.3 j n)

  removal-leaves :
      (a : AccountId) (c : ℕ) (s s' : State T)
      → IsDistinct (get_servers_by_country T c s)
      → IsRemoval T a c s s'
      → ¬ Serves a c s'
        × ((b : AccountId) → b ≢ a → Serves b c s' ↔ Serves b c s)
        × ((j : ℕ) → j ≢ c → get_servers_by_country T j s' ≡ get_servers_by_country T j s)
  removal-leaves a c s s' u m =
      let list = get_servers_by_country T c s in
      let here : get_servers_by_country T c s' ≡ erase account_discrete a list =
        m.lists c ∙ if_pos (ℕ_discrete c c) refl _ _ in
      (
        (λ listed.
            listed (subst (IsAbsent a) (sym here) (erase-IsAbsent account_discrete a list u))),
        (λ b n. (
          (λ listed k.
              listed (subst (IsAbsent b) (sym here) (IsAbsent-erase account_discrete a b list k))),
          λ listed k.
              listed (IsAbsent-of_erase account_discrete a b list n (subst (IsAbsent b) here k)),
        )),
        λ j n. m.lists j ∙ if_neg (ℕ_discrete c j) (λ p. n (sym p)) _ _,
      )

  -- In a state that meets the invariant, if the signer has a device, unregistering it from a
  -- country succeeds, it does not serve the country afterwards, any other account serves it if
  -- and only if it did before, and the list of any other country stays.
  pub unregister_server-leaves :
      (o : Origin) (a : AccountId) (c : ℕ) (s : State T)
      → IsRegistry T (λ a. 0) s
      → IsDevice T o a s
      → (b : AccountId) → b ≢ a
      → (j : ℕ) → j ≢ c
      → let (r, s') = unregister_server T o c s in
        (r ≡ ok tt)
        × ¬ Serves a c s'
        × (Serves b c s' ↔ Serves b c s)
        × (get_servers_by_country T j s' ≡ get_servers_by_country T j s)
  unregister_server-leaves o a c s v d b n j ne = rw (unregister_server-removes T o a c s d) (
      let left = removal-leaves a c s _ (v.distinct c) (try_remove_server-IsRemoval T a c s) in
      (refl, left.0, left.1 b n, left.2 j ne))

  -- Leaving takes the device, its deposit, and the entry of its current country away, but no other
  -- entry.
  pub unregister_device-clears :
      (o : Origin) (a : AccountId) (s : State T)
      → IsRegistry T (λ a. 0) s
      → IsDevice T o a s
      → let (r, s') = unregister_device T o s in
        let c = (get_device_info T a s).country in
        (r ≡ ok tt)
        × (is_registered T a s' ≡ false)
        × (currency.reserved a s'.ledger + min_lock_amt ≡ currency.reserved a s.ledger)
        × ¬ Serves a c s'
        × ((j : ℕ) → j ≢ c → get_servers_by_country T j s' ≡ get_servers_by_country T j s)
        × ((b : AccountId)
            → a ≢ b
            → T.device_map.lookup b s'.device_info ≡ T.device_map.lookup b s.device_info)
  unregister_device-clears o a s v d =
      let c = (get_device_info T a s).country in
      let m = try_remove_server-IsRemoval T a c s in
      let mid = (try_remove_server T a c s).1 in
      let left = removal-leaves a c s mid (v.distinct c) m in
      rw (unregister_device-drops T o a s d) (
        refl,
        ap is_some (T.device_map.lookup-remove_self a mid.device_info),
        omega (
          arith,
          v.locked a d.registered,
          currency.unreserve-subtracts a min_lock_amt mid.ledger,
          ap (currency.reserved a) m.same_ledger,
        ),
        left.0,
        left.2,
        λ b n. T.device_map.lookup-remove_ne b a mid.device_info n ∙ m.others b n,
      )

  -- In a state that meets the invariant, if the signer has a device, unregistering it succeeds,
  -- removes the device, gives the deposit back, and takes it off the list of the country of its
  -- device; the list of any other country and the device of any other account stay.
  pub unregister_device-leaves :
      (o : Origin) (a : AccountId) (s : State T)
      → IsRegistry T (λ a. 0) s
      → IsDevice T o a s
      → (j : ℕ) → j ≢ (get_device_info T a s).country
      → (b : AccountId) → a ≢ b
      → let (r, s') = unregister_device T o s in
        (r ≡ ok tt)
        × (is_registered T a s' ≡ false)
        × (currency.reserved a s'.ledger + min_lock_amt ≡ currency.reserved a s.ledger)
        × ¬ Serves a (get_device_info T a s).country s'
        × (get_servers_by_country T j s' ≡ get_servers_by_country T j s)
        × (T.device_map.lookup b s'.device_info ≡ T.device_map.lookup b s.device_info)
  unregister_device-leaves o a s v d j n b m =
      let left = unregister_device-clears o a s v d in
      (left.0, left.1, left.2, left.3, left.4 j n, left.5 b m)
