-- ===== src/DeeperNode/Invariant.antt =====
-- The invariant of the registry of pallets/deeper-node/src/lib.rs, kept by each of its calls.
use e2_chain.Base.{
  ℕ, ◌+◌, ◌≡◌, ◌≤◌, inl, inr, true, arith, List, [], ◌∷◌, ◌++◌, IsDistinct, ℕ_discrete,
}
use e2_chain.Frame.{Outcome-cases, lookup-insert, lookup-remove}
use e2_chain.DeeperNode.{
  Trait, State, Node, min_lock_amt, is_registered, get_device_info, get_servers_by_country,
  try_remove_server, try_add_server, register_device, unregister_device, register_server,
}
use e2_chain.DeeperNode.Listing.{
  IsRemoval, try_remove_server-IsRemoval, try_add_server-listed, try_add_server-unlisted,
}
use e2_chain.DeeperNode.Servers.{IsAbsent-cases, IsDistinct-snoc, erase-IsDistinct}
use e2_chain.DeeperNode.Requests.{
  Request, registers_device, unregisters_device, registers_server, unregisters_server, genesis,
  dispatch, run,
}
use e2_chain.DeeperNode.Registry.{
  IsDevice-cases, register_device-registers, register_device-refused, register_device-succeeds,
  unregister_device-drops, unregister_device-refused, register_server-adds,
  unregister_server-removes, server-refused,
}

module _ (T : Trait) where
  open T use {AccountId, Origin, signer, account_discrete, currency}

  -- Each device stands under its own account and has the deposit reserved, up to what it is waived,
  -- and no list of servers names an account twice.
  pub record IsRegistry (waived : AccountId → ℕ) (s : State T) : Type 0 where
    pub named :
        (a : AccountId) → is_registered T a s ≡ true → (get_device_info T a s).account_id ≡ a
    pub locked :
        (a : AccountId)
        → is_registered T a s ≡ true
        → min_lock_amt ≤ currency.reserved a s.ledger + waived a
    pub distinct : (c : ℕ) → IsDistinct (get_servers_by_country T c s)

  removal-IsRegistry :
      {w : AccountId → ℕ} (a : AccountId) (c : ℕ) (s s' : State T)
      → is_registered T a s ≡ true
      → IsRemoval T a c s s'
      → IsRegistry w s
      → IsRegistry w s'
  removal-IsRegistry a c s s' dev m v = record {
    named = λ b h. ground (arith, account_discrete a b, m.others b, m.same_id, v.named b);
    locked = λ b h. ground (arith, account_discrete a b, m.others b, m.same_ledger, v.locked b);
    distinct = λ j. rw (m.lists j) (
        ground (
          arith,
          v.distinct j,
          erase-IsDistinct account_discrete a (get_servers_by_country T c s) (v.distinct c),
        ));
  }

  adding-IsRegistry :
      {w : AccountId → ℕ} (a : AccountId) (c : ℕ) (s : State T)
      → is_registered T a s ≡ true
      → IsRegistry w s
      → IsRegistry w (try_add_server T a c s).1
  adding-IsRegistry a c s dev v =
      elim (IsAbsent-cases account_discrete a (get_servers_by_country T c s)) [
        | inr listed ↦ rw (try_add_server-listed T a c s listed) v
        | inl absent ↦
            let node = record (get_device_info T a s) { country = c } in
            rw (try_add_server-unlisted T a c s absent) (record {
              named = λ b h. ground (
                arith,
                v.named b,
                lookup-insert T.device_map account_discrete b a node s.device_info,
              );
              locked = λ b h. ground (
                arith,
                v.locked b,
                lookup-insert T.device_map account_discrete b a node s.device_info,
              );
              distinct = λ j. ground (
                arith,
                v.distinct j,
                lookup-insert T.server_map ℕ_discrete j c (get_servers_by_country T c s ++ a ∷ [])
                    s.servers_by_country,
                IsDistinct-snoc a (get_servers_by_country T c s) (v.distinct c) absent,
              );
            })
      ]

  pub register_device-IsRegistry :
      {w : AccountId → ℕ} (o : Origin) (ip : List ℕ) (c : ℕ) (s : State T)
      → IsRegistry w s
      → IsRegistry w (register_device T o ip c s).1
  register_device-IsRegistry o ip c s v = elim (Outcome-cases (register_device T o ip c s).0) [
    | inr failed ↦ rw (register_device-refused T o ip c s failed) v
    | inl done ↦
        let (a, can) = register_device-succeeds T o ip c s done in
        let node : Node AccountId = record { account_id = a; ipv4 = ip; country = c } in
        rw (register_device-registers T o a ip c s can) (record {
          named = λ b h. ground (
            arith,
            v.named b,
            lookup-insert T.device_map account_discrete b a node s.device_info,
          );
          locked = λ b h. ground (
            arith,
            v.locked b,
            account_discrete a b,
            lookup-insert T.device_map account_discrete b a node s.device_info,
            currency.reserve-adds a min_lock_amt s.ledger can.reserves,
            currency.reserve-others a b min_lock_amt s.ledger,
          );
          distinct = v.distinct;
        })
  ]

  unregister_device-IsRegistry :
      {w : AccountId → ℕ} (o : Origin) (s : State T)
      → IsRegistry w s
      → IsRegistry w (unregister_device T o s).1
  unregister_device-IsRegistry o s v = elim (IsDevice-cases T o s) [
    | inr h ↦ rw (unregister_device-refused T o s h).1 v
    | inl (a, d) ↦
        let s' = (try_remove_server T a (get_device_info T a s).country s).1 in
        let v' =
          removal-IsRegistry a _ s s' d.registered
            (try_remove_server-IsRemoval T a (get_device_info T a s).country s) v in
        rw (unregister_device-drops T o a s d) (record {
          named = λ b h.
              ground
                (arith, v'.named b, lookup-remove T.device_map account_discrete b a s'.device_info);
          locked = λ b h. ground (
            arith,
            v'.locked b,
            account_discrete a b,
            lookup-remove T.device_map account_discrete b a s'.device_info,
            currency.unreserve-others a b min_lock_amt s'.ledger,
          );
          distinct = v'.distinct;
        })
  ]

  pub register_server-IsRegistry :
      {w : AccountId → ℕ} (o : Origin) (c : ℕ) (s : State T)
      → IsRegistry w s
      → IsRegistry w (register_server T o c s).1
  register_server-IsRegistry o c s v = elim (IsDevice-cases T o s) [
    | inr h ↦ rw (server-refused T o c s h).1 v
    | inl (a, d) ↦ rw (register_server-adds T o a c s d) (adding-IsRegistry a c s d.registered v)
  ]

  -- Every extrinsic keeps the invariant, whether it succeeds or fails.
  pub dispatch-IsRegistry :
      {w : AccountId → ℕ} (o : Origin) (r : Request) (s : State T)
      → IsRegistry w s
      → IsRegistry w (dispatch T o r s).1
  unfolding dispatch
  dispatch-IsRegistry o (registers_device ip c) s v = register_device-IsRegistry o ip c s v
  dispatch-IsRegistry o unregisters_device s v = unregister_device-IsRegistry o s v
  dispatch-IsRegistry o (registers_server c) s v = register_server-IsRegistry o c s v
  dispatch-IsRegistry o (unregisters_server c) s v = elim (IsDevice-cases T o s) [
    | inr h ↦ rw (server-refused T o c s h).3 v
    | inl (a, d) ↦
        rw (unregister_server-removes T o a c s d)
          (removal-IsRegistry a c s _ d.registered (try_remove_server-IsRemoval T a c s) v)
  ]

  run-IsRegistry :
      (rs : List (Origin × Request)) (s : State T)
      → IsRegistry (λ a. 0) s
      → IsRegistry (λ a. 0) (run T rs s)
  unfolding run
  run-IsRegistry [] s v = v
  run-IsRegistry ((o, r) ∷ rs) s v =
      run-IsRegistry rs (dispatch T o r s).1 (dispatch-IsRegistry o r s v)

  pub genesis-IsRegistry : {w : AccountId → ℕ} (l : currency.Ledger) → IsRegistry w (genesis T l)
  genesis-IsRegistry l = record {
    named = λ a h. absurd (ground (arith, T.device_map.lookup-empty a));
    locked = λ a h. absurd (ground (arith, T.device_map.lookup-empty a));
    distinct = λ c. ground (arith, T.server_map.lookup-empty c);
  }

  pub run-genesis-IsRegistry :
      (rs : List (Origin × Request)) (l : currency.Ledger)
      → IsRegistry (λ a. 0) (run T rs (genesis T l))
  run-genesis-IsRegistry rs l = run-IsRegistry rs (genesis T l) (genesis-IsRegistry l)

  -- After any sequence of extrinsics from the genesis, no account stands twice on the list of
  -- servers of a country.
  pub run-IsDistinct :
      (rs : List (Origin × Request)) (l : currency.Ledger) (c : ℕ)
      → IsDistinct (get_servers_by_country T c (run T rs (genesis T l)))
  run-IsDistinct rs l = (run-genesis-IsRegistry rs l).distinct
