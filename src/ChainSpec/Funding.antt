-- ===== src/ChainSpec/Funding.antt =====
-- The genesis states of node/src/chain_spec.rs are consistent: who stakes has the funds for it, and
-- the lists of stakers, session keys and invulnerable accounts name the same accounts.
use Prim.Native.String.{◌++◌ as str_append}
use e2_chain.Base.{
  IsPresent, ℕ, String, ◌*◌, ◌≤◌, ◌<◌, ◌^◌, ◌≡◌, ◌⊎◌, inl, inr, refl, ap, Option, some, List, [],
  ◌∷◌, map, length, arith, true, Bool, sym, ◌∙◌, length-map,
}
use e2_chain.ChainSpec.Genesis.{
  Keys, Authority, GenesisConfig, StakerStatus, testnet_genesis, endowment, stash_bond,
  get_from_seed, get_account_id_from_seed,
}
use e2_chain.ChainSpec.Configs.{
  Result, ok, Spec, authority_keys_from_seed, all_of, genesis_of, development_endowed,
  local_endowed, development_config, local_testnet_config,
}

module _ (K : Keys) where
  open K use {AccountId, BabeId, GrandpaId}

  -- The account has a balance of at least `n` at the genesis.
  abbrev pub IsEndowed : AccountId → ℕ → List (AccountId × ℕ) → Type 0
  IsEndowed a n [] = ⊥
  IsEndowed a n ((b, m) ∷ rest) = ((a ≡ b) × (n ≤ m)) ⊎ IsEndowed a n rest

  -- Every staker can pay its bond.
  abbrev pub AreFunded :
      List (AccountId × AccountId × ℕ × StakerStatus) → List (AccountId × ℕ) → Type 0
  AreFunded [] balances = Unit
  AreFunded (s ∷ rest) balances = IsEndowed s.0 s.2 balances × AreFunded rest balances

  abbrev pub IsAmong : AccountId → List AccountId → Type 0
  IsAmong a [] = ⊥
  IsAmong a (b ∷ rest) = (a ≡ b) ⊎ IsAmong a rest

  abbrev pub AreAmong : List (Authority K) → List AccountId → Type 0
  AreAmong [] accounts = Unit
  AreAmong (x ∷ rest) accounts = IsAmong x.0 accounts × AreAmong rest accounts

  endow :
      (a : AccountId) (accounts : List AccountId)
      → IsAmong a accounts
      → IsEndowed a stash_bond (map (λ k. (k, endowment)) accounts)
  endow a [] h = h
  endow a (b ∷ rest) (inl e) = inl (e, omega arith)
  endow a (b ∷ rest) (inr h) = inr (endow a rest h)

  fund :
      (authorities : List (Authority K)) (accounts : List AccountId)
      → AreAmong authorities accounts
      → AreFunded
          (map (λ x. (x.0, x.1, stash_bond, StakerStatus.validator)) authorities)
          (map (λ k. (k, endowment)) accounts)
  fund [] accounts h = tt
  fund (x ∷ rest) accounts h = (endow x.0 accounts h.0, fund rest accounts h.1)

  abbrev as_staker : Authority K → AccountId × AccountId × ℕ × StakerStatus
  as_staker x = (x.0, x.1, stash_bond, StakerStatus.validator)

  -- What a genesis state promises.
  pub record IsConsistent (g : GenesisConfig K) : Type 0 where
    pub funded : AreFunded g.stakers g.balances
    pub keyed : map (λ x. x.0) g.session_keys ≡ map (λ x. x.0) g.stakers
    pub own_keys : map (λ x. x.0) g.session_keys ≡ map (λ x. x.1) g.session_keys
    pub protected : g.invulnerables ≡ map (λ x. x.0) g.stakers
    pub counted : g.minimum_validator_count ≡ length g.stakers
    pub doubled : g.validator_count ≡ 2 * length g.stakers

  map-map {ℓ} :
      {A B C : Type ℓ} (f : A → B) (g : B → C) (xs : List A)
      → map g (map f xs) ≡ map (λ x. g (f x)) xs
  map-map f g [] = refl
  map-map f g (x ∷ xs) = ap (λ l. g (f x) ∷ l) (map-map f g xs)

  -- If every stash account is endowed, the genesis is consistent.
  pub testnet_genesis-IsConsistent :
      (wasm : List ℕ) (authorities : List (Authority K)) (root : AccountId)
      (accounts : List AccountId) (println : Bool)
      → length authorities < 2 ^ 31
      → AreAmong authorities accounts
      → IsConsistent (testnet_genesis K wasm authorities root accounts println)
  unfolding testnet_genesis
  testnet_genesis-IsConsistent wasm authorities root accounts println small among = record {
    funded = fund authorities accounts among;
    keyed = map-map _ _ authorities ∙ sym (map-map _ _ authorities);
    own_keys = map-map _ _ authorities ∙ sym (map-map _ _ authorities);
    protected = sym (map-map _ _ authorities);
    counted = omega (arith, length-map authorities as_staker);
    doubled = omega (arith, length-map authorities as_staker);
  }

  -- The seeds of the authorities of both configurations.
  abbrev pub authority_seeds : List String
  authority_seeds = "Alice" ∷ "Bob" ∷ []

  -- The seeds of both configurations are valid: the static strings `//..` that they derive keys from.
  pub record IsDerivable : Type 0 where
    pub account : String → AccountId
    pub babe : String → BabeId
    pub grandpa : String → GrandpaId
    pub account_eq :
        (s : String)
        → IsPresent s (local_endowed K)
        → get_account_id_from_seed K s ≡ some (account s)
    pub babe_eq :
        (s : String) → IsPresent s authority_seeds → get_from_seed K K.babe_key s ≡ some (babe s)
    pub grandpa_eq :
        (s : String)
        → IsPresent s authority_seeds
        → get_from_seed K K.grandpa_key s ≡ some (grandpa s)

  authority : IsDerivable → String → Authority K
  authority v s = (v.account (str_append s "//stash"), v.account s, v.babe s, v.grandpa s)

  -- The seeds of an authority's accounts are among those of the endowed accounts.
  endowed_seed : (s : String) → IsPresent s authority_seeds → IsPresent s (local_endowed K)
  endowed_seed s (inl e) = inl e
  endowed_seed s (inr (inl e)) = inr (inl e)
  endowed_seed s (inr (inr x)) = elim x [ ]

  stash_seed :
      (s : String)
      → IsPresent s authority_seeds
      → IsPresent (str_append s "//stash") (local_endowed K)
  stash_seed s (inl e) =
      inr (inr (inr (inr (inr (inr (inl (ap (λ x. str_append x "//stash") e)))))))
  stash_seed s (inr (inl e)) =
      inr (inr (inr (inr (inr (inr (inr (inl (ap (λ x. str_append x "//stash") e))))))))
  stash_seed s (inr (inr x)) = elim x [ ]

  development_seed :
      (s : String) → IsPresent s (development_endowed K) → IsPresent s (local_endowed K)
  development_seed s (inl e) = inl e
  development_seed s (inr (inl e)) = inr (inl e)
  development_seed s (inr (inr (inl e))) = inr (inr (inr (inr (inr (inr (inl e))))))
  development_seed s (inr (inr (inr (inl e)))) = inr (inr (inr (inr (inr (inr (inr (inl e)))))))
  development_seed s (inr (inr (inr (inr x)))) = elim x [ ]

  authority_keys_from_seed-eq :
      (v : IsDerivable) (s : String)
      → IsPresent s authority_seeds
      → authority_keys_from_seed K s ≡ some (authority v s)
  unfolding authority_keys_from_seed authority
  authority_keys_from_seed-eq v s m =
      rw
        (
          v.account_eq (str_append s "//stash") (stash_seed s m),
          v.account_eq s (endowed_seed s m),
          v.babe_eq s m,
          v.grandpa_eq s m,
        )
        refl

  all_of-eq :
      {A : Type 0} (f : String → Option A) (g : String → A) (ss : List String)
      → ((s : String) → IsPresent s ss → f s ≡ some (g s))
      → all_of K f ss ≡ some (map g ss)
  all_of-eq f g [] h = refl
  all_of-eq f g (s ∷ ss) h = rw (h s (inl refl), all_of-eq f g ss (λ x m. h x (inr m))) refl

  genesis_of-eq :
      (v : IsDerivable) (wasm : List ℕ) (authorities : List String) (root : String)
      (endowed : List String)
      → ((s : String) → IsPresent s authorities → IsPresent s authority_seeds)
      → IsPresent root (local_endowed K)
      → ((s : String) → IsPresent s endowed → IsPresent s (local_endowed K))
      → genesis_of K wasm authorities root endowed
        ≡ some (
            testnet_genesis K wasm
              (map (authority v) authorities)
              (v.account root)
              (map v.account endowed)
              true)
  genesis_of-eq v wasm authorities root endowed h k m =
      rw
        (
          all_of-eq (authority_keys_from_seed K) (authority v) authorities
              (λ s i. authority_keys_from_seed-eq v s (h s i)),
          v.account_eq root k,
          all_of-eq (get_account_id_from_seed K) v.account endowed (λ s i. v.account_eq s (m s i)),
        )
        refl

  -- The specification comes with a genesis, and that is consistent.
  abbrev pub IsUsable : Result (Spec K) → Type 0
  IsUsable r =
      (spec : Spec K) × (g : GenesisConfig K) × (r ≡ ok spec)
      × (spec.genesis ≡ some g)
      × IsConsistent g

  -- If the runtime was built and the seeds give keys, the development specification has a
  -- genesis, in which each staker can pay its bond, stakers, session keys and invulnerable
  -- accounts name the same accounts, and the validator counts follow the number of stakers.
  pub development_config-IsUsable :
      (wasm : List ℕ) → IsDerivable → IsUsable (development_config K (some wasm))
  unfolding development_config authority
  development_config-IsUsable wasm v = (
    _,
    _,
    refl,
    genesis_of-eq v wasm ("Alice" ∷ []) "Alice" (development_endowed K)
        (λ s m. elim m [ inl e ↦ inl e | inr x ↦ elim x [ ] ]) (inl refl) development_seed,
    testnet_genesis-IsConsistent wasm _ _ _ true (omega arith) (inr (inr (inl refl)), tt),
  )

  -- If the runtime was built and the seeds give keys, the local test network has a genesis, in
  -- which each staker can pay its bond, stakers, session keys and invulnerable accounts name the
  -- same accounts, and the validator counts follow the number of stakers.
  pub local_testnet_config-IsUsable :
      (wasm : List ℕ) → IsDerivable → IsUsable (local_testnet_config K (some wasm))
  unfolding local_testnet_config authority
  local_testnet_config-IsUsable wasm v = (
    _,
    _,
    refl,
    genesis_of-eq v wasm ("Alice" ∷ "Bob" ∷ []) "Alice" (local_endowed K) (λ s m. m) (inl refl)
        (λ s m. m),
    testnet_genesis-IsConsistent wasm _ _ _ true (omega arith) (
      inr (inr (inr (inr (inr (inr (inl refl)))))),
      (inr (inr (inr (inr (inr (inr (inr (inl refl))))))), tt),
    ),
  )
