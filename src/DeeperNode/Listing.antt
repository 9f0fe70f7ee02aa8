-- ===== src/DeeperNode/Listing.antt =====
-- The server lists of pallets/deeper-node/src/lib.rs: what `try_add_server` and
-- `try_remove_server` do to them.
use e2_chain.Base.{
  ℕ, ◌≡◌, ◌≢◌, inl, inr, refl, true, some, none, arith, ap, ite, Option-cases, List, [], ◌∷◌, ◌++◌,
  eqb, IsAbsent, ℕ_discrete, sym, is_some,
}
use e2_chain.Frame.{ok, lookup-insert, err, other}
use e2_chain.DeeperNode.{
  Trait, State, position, remove, is_registered, get_device_info, get_servers_by_country,
  try_remove_server, try_add_server, ensure_absent, server_removed, server_added,
}
use e2_chain.DeeperNode.Servers.{erase, position-none, remove-position, erase-absent}

module _ (T : Trait) where
  open T use {AccountId, account_discrete}

  -- Taking an account off a list on which it does not stand does nothing.
  pub try_remove_server-absent :
      (a : AccountId) (c : ℕ) (s : State T)
      → position (λ x. eqb account_discrete x a) (get_servers_by_country T c s) ≡ none
      → try_remove_server T a c s ≡ (ok tt, s)
  unfolding try_remove_server
  try_remove_server-absent a c s h = ground arith

  pub try_remove_server-present :
      (a : AccountId) (c : ℕ) (s : State T) (i : ℕ)
      → position (λ x. eqb account_discrete x a) (get_servers_by_country T c s) ≡ some i
      → try_remove_server T a c s ≡ (
        ok tt,
        record s {
          servers_by_country =
              T.server_map.insert c (remove i (get_servers_by_country T c s)) s.servers_by_country;
          device_info =
              T.device_map.insert a (record (get_device_info T a s) { country = 0 }) s.device_info;
          events = server_removed a c ∷ s.events;
        },
      )
  unfolding try_remove_server
  try_remove_server-present a c s i h = ground arith

  -- What `try_remove_server` does to the storage, whether the account was listed or not.
  pub record IsRemoval (a : AccountId) (c : ℕ) (s s' : State T) : Type 0 where
    pub lists :
        (j : ℕ)
        → get_servers_by_country T j s'
          ≡ ite
              (ℕ_discrete c j)
              (erase account_discrete a (get_servers_by_country T c s))
              (get_servers_by_country T j s)
    pub same_ledger : s'.ledger ≡ s.ledger
    pub others :
        (b : AccountId)
        → a ≢ b
        → T.device_map.lookup b s'.device_info ≡ T.device_map.lookup b s.device_info
    pub stays : is_registered T a s ≡ true → is_registered T a s' ≡ true
    pub same_id : (get_device_info T a s').account_id ≡ (get_device_info T a s).account_id

  pub try_remove_server-ok :
      (a : AccountId) (c : ℕ) (s : State T) → (try_remove_server T a c s).0 ≡ ok tt
  unfolding try_remove_server
  try_remove_server-ok a c s = ground arith

  pub try_remove_server-IsRemoval :
      (a : AccountId) (c : ℕ) (s : State T) → IsRemoval a c s (try_remove_server T a c s).1
  try_remove_server-IsRemoval a c s =
      elim (Option-cases
        (position (λ x. eqb account_discrete x a) (get_servers_by_country T c s))) [
          | inl e ↦ rw (try_remove_server-absent a c s e) (record {
            lists = λ j. ground (
              arith,
              erase-absent account_discrete a (get_servers_by_country T c s)
                  (position-none account_discrete a (get_servers_by_country T c s) e),
            );
            same_ledger = refl;
            others = λ b n. refl;
            stays = λ h. h;
            same_id = refl;
          })
          | inr (i, e) ↦
              let node = record (get_device_info T a s) { country = 0 } in
              let list = remove i (get_servers_by_country T c s) in
              rw (try_remove_server-present a c s i e) (record {
                lists = λ j. ground (
                  arith,
                  remove-position account_discrete a (get_servers_by_country T c s) i e,
                  lookup-insert T.server_map ℕ_discrete j c list s.servers_by_country,
                );
                same_ledger = refl;
                others = λ b n. T.device_map.lookup-insert_ne b a node s.device_info n;
                stays = λ h. ap is_some (T.device_map.lookup-insert_self a node s.device_info);
                same_id = ground (arith, T.device_map.lookup-insert_self a node s.device_info);
              })
        ]

  -- The loop of `try_add_server` lets the account through if it is not listed.
  ensure_absent-passes :
      (a : AccountId) (xs : List AccountId) (s : State T)
      → IsAbsent a xs
      → ensure_absent T a xs s ≡ (ok tt, s)
  unfolding ensure_absent
  ensure_absent-passes a [] s h = refl
  ensure_absent-passes a (x ∷ xs) s h = ground (arith, ensure_absent-passes a xs s h.1)

  ensure_absent-stops :
      (a : AccountId) (xs : List AccountId) (s : State T)
      → ¬ IsAbsent a xs
      → ensure_absent T a xs s ≡ (err (other "double registration not allowed!"), s)
  unfolding ensure_absent
  ensure_absent-stops a [] s h = absurd (h tt)
  ensure_absent-stops a (x ∷ xs) s h = elim (account_discrete x a) [
    | yes e ↦ ground arith
    | no n ↦ ground (arith, ensure_absent-stops a xs s (λ k. h ((λ p. n (sym p)), k)))
  ]

  -- An account that is listed already is turned away.
  pub try_add_server-listed :
      (a : AccountId) (c : ℕ) (s : State T)
      → ¬ IsAbsent a (get_servers_by_country T c s)
      → try_add_server T a c s ≡ (err (other "double registration not allowed!"), s)
  unfolding try_add_server
  try_add_server-listed a c s h =
      ground (arith, ensure_absent-stops a (get_servers_by_country T c s) s h)

  pub try_add_server-unlisted :
      (a : AccountId) (c : ℕ) (s : State T)
      → IsAbsent a (get_servers_by_country T c s)
      → try_add_server T a c s ≡ (
        ok tt,
        record s {
          servers_by_country =
              T.server_map.insert c (get_servers_by_country T c s ++ a ∷ []) s.servers_by_country;
          device_info =
              T.device_map.insert a (record (get_device_info T a s) { country = c }) s.device_info;
          events = server_added a c ∷ s.events;
        },
      )
  unfolding try_add_server
  try_add_server-unlisted a c s h =
      ground (arith, ensure_absent-passes a (get_servers_by_country T c s) s h)
