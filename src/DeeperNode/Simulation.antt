-- ===== src/DeeperNode/Simulation.antt =====
-- The calls of pallets/deeper-node/src/lib.rs do what the directory says.
use e2_chain.Base.{
  ℕ, ◌≡◌, inl, inr, refl, true, arith, some, Option-cases, Bool-cases, List, [], ◌∷◌, ◌++◌, eqb,
  IsDistinct, ℕ_discrete,
}
use e2_chain.Frame.{ok, lookup-insert, lookup-remove}
use e2_chain.DeeperNode.{
  Trait, State, Node, min_lock_amt, is_registered, get_device_info, get_servers_by_country,
  position, try_remove_server, try_add_server, register_device, unregister_device,
}
use e2_chain.DeeperNode.Servers.{erase, position-none, remove-position}
use e2_chain.DeeperNode.Listing.{
  try_remove_server-absent, try_remove_server-present, try_add_server-listed,
  try_add_server-unlisted,
}
use e2_chain.DeeperNode.Registry.{IsDevice, register_device-registers, unregister_device-drops}
use e2_chain.DeeperNode.Members.{
  is_listed, is_listed-absent, IsAbsent-is_listed, is_listed-snoc, is_listed-erase, position-listed,
}
use e2_chain.DeeperNode.Directory.{Directory, IsSame, join, serve, stop, leave}

module _ (T : Trait) where
  open T use {AccountId, Origin, signer, account_discrete, currency}

  -- The directory that a state of the pallet stands for.
  abbrev pub directory : State T → Directory AccountId
  directory s = record {
    registered = λ a. is_registered T a s;
    country = λ a. (get_device_info T a s).country;
    lists = λ c a. is_listed account_discrete a (get_servers_by_country T c s);
    deposit = λ a. currency.reserved a s.ledger;
  }

  pub unchanged : (v : Directory AccountId) → IsSame v v
  unchanged v = record {
    registered = λ a. refl;
    country = λ a. refl;
    lists = λ c a. refl;
    deposit = λ a. refl;
  }

  pub stops :
      (a : AccountId) (c : ℕ) (s : State T)
      → is_registered T a s ≡ true
      → IsDistinct (get_servers_by_country T c s)
      → IsSame (directory (try_remove_server T a c s).1) (stop account_discrete a c (directory s))
  stops a c s dev distinct =
      let servers = get_servers_by_country T c s in
      elim (Option-cases (position (λ x. eqb account_discrete x a) servers)) [
        | inl e ↦
            rw
              (
                try_remove_server-absent T a c s e,
                is_listed-absent account_discrete a servers
                    (position-none account_discrete a servers e),
              )
              (unchanged (directory s))
        | inr (i, e) ↦
            let node = record (get_device_info T a s) { country = 0 } in
            rw
              (
                try_remove_server-present T a c s i e,
                position-listed account_discrete a servers i e,
                remove-position account_discrete a servers i e,
              )
              (record {
                registered = λ b.
                    ground
                      (arith, lookup-insert T.device_map account_discrete b a node s.device_info);
                country = λ b.
                    ground
                      (arith, lookup-insert T.device_map account_discrete b a node s.device_info);
                lists = λ j b. ground (
                  arith,
                  lookup-insert T.server_map ℕ_discrete j c (erase account_discrete a servers)
                      s.servers_by_country,
                  is_listed-erase account_discrete a b servers distinct,
                );
                deposit = λ b. refl;
              })
      ]

  pub serves :
      (a : AccountId) (c : ℕ) (s : State T)
      → is_registered T a s ≡ true
      → IsSame (directory (try_add_server T a c s).1) (serve account_discrete a c (directory s))
  serves a c s dev =
      let servers = get_servers_by_country T c s in
      elim (Bool-cases (is_listed account_discrete a servers)) [
        | inl there ↦
            rw
              (
                try_add_server-listed T a c s
                    (λ h. cc (there, is_listed-absent account_discrete a servers h)),
                there,
              )
              (unchanged (directory s))
        | inr missing ↦
            let node = record (get_device_info T a s) { country = c } in
            rw
              (
                try_add_server-unlisted T a c s
                    (IsAbsent-is_listed account_discrete a servers missing),
                missing,
              )
              (record {
                registered = λ b.
                    ground
                      (arith, lookup-insert T.device_map account_discrete b a node s.device_info);
                country = λ b.
                    ground
                      (arith, lookup-insert T.device_map account_discrete b a node s.device_info);
                lists = λ j b. ground (
                  arith,
                  lookup-insert T.server_map ℕ_discrete j c (servers ++ a ∷ [])
                      s.servers_by_country,
                  is_listed-snoc account_discrete a b servers,
                );
                deposit = λ b. refl;
              })
      ]

  pub leaves :
      (o : Origin) (a : AccountId) (s : State T)
      → IsDevice T o a s
      → ((c : ℕ) → IsDistinct (get_servers_by_country T c s))
      → IsSame (directory (unregister_device T o s).1) (leave account_discrete a (directory s))
  leaves o a s d distinct =
      let c = (get_device_info T a s).country in
      let s' = (try_remove_server T a c s).1 in
      let w = stops a c s d.registered (distinct c) in
      rw (unregister_device-drops T o a s d) (record {
        registered = λ b.
            ground (
              arith,
              w.registered b,
              lookup-remove T.device_map account_discrete b a s'.device_info,
            );
        country = λ b.
            ground
              (arith, w.country b, lookup-remove T.device_map account_discrete b a s'.device_info);
        lists = λ j b. w.lists j b;
        deposit = λ b. ground (
          arith,
          w.deposit a,
          w.deposit b,
          account_discrete a b,
          currency.unreserve-subtracts a min_lock_amt s'.ledger,
          currency.unreserve-others a b min_lock_amt s'.ledger,
        );
      })

  pub joins :
      (o : Origin) (a : AccountId) (ip : List ℕ) (c : ℕ) (s : State T)
      → signer o ≡ some a
      → (currency.reserve a min_lock_amt s.ledger).0 ≡ ok tt
      → IsSame (directory (register_device T o ip c s).1) (join account_discrete a c (directory s))
  joins o a ip c s e done =
      let node : Node AccountId = record { account_id = a; ipv4 = ip; country = c } in
      rw (register_device-registers T o a ip c s (record { signed = e; reserves = done })) (record {
        registered =
            λ b. ground (arith, lookup-insert T.device_map account_discrete b a node s.device_info);
        country =
            λ b. ground (arith, lookup-insert T.device_map account_discrete b a node s.device_info);
        lists = λ j b. refl;
        deposit = λ b. ground (
          arith,
          account_discrete a b,
          currency.reserve-adds a min_lock_amt s.ledger done,
          currency.reserve-others a b min_lock_amt s.ledger,
        );
      })
