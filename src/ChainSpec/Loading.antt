-- ===== src/ChainSpec/Loading.antt =====
-- Which specification `load_spec` of node/src/command.rs loads.
use text.Mathlib.TextEquality.{eq_iff}
use e2_chain.Base.{ℕ, String, ◌≡◌, ◌≢◌, ◌⊎◌, inl, inr, refl, Option, none, some, List, arith}
use e2_chain.ChainSpec.Genesis.{Keys}
use e2_chain.ChainSpec.Configs.{
  Result, err, Spec, development_config, local_testnet_config, load_spec,
}
use e2_chain.ChainSpec.Funding.{
  IsDerivable, IsUsable, development_config-IsUsable, local_testnet_config-IsUsable,
}

module _ (K : Keys) where
  -- A specification that `wasm` decides about: without the runtime an error, else one with a
  -- genesis that is consistent.
  abbrev pub IsBuilt : Option (List ℕ) → Result (Spec K) → Type 0
  IsBuilt wasm r = ((wasm ≡ none) × (e : String) × (r ≡ err e)) ⊎ IsUsable K r

  development_config-IsBuilt :
      (wasm : Option (List ℕ)) → IsDerivable K → IsBuilt wasm (development_config K wasm)
  unfolding development_config
  development_config-IsBuilt none v = inl (refl, _, refl)
  development_config-IsBuilt (some w) v = inr (development_config-IsUsable K w v)

  local_testnet_config-IsBuilt :
      (wasm : Option (List ℕ)) → IsDerivable K → IsBuilt wasm (local_testnet_config K wasm)
  unfolding local_testnet_config
  local_testnet_config-IsBuilt none v = inl (refl, _, refl)
  local_testnet_config-IsBuilt (some w) v = inr (local_testnet_config-IsUsable K w v)

module _ (K : Keys) (wasm : Option (List ℕ)) (from_json_file : String → Result (Spec K)) where
  load_spec-selects :
      (id : String)
      → ((id ≡ "dev") × (load_spec K wasm from_json_file id ≡ development_config K wasm))
        ⊎ (((id ≡ "") ⊎ (id ≡ "local"))
            × (load_spec K wasm from_json_file id ≡ local_testnet_config K wasm))
        ⊎ ((id ≢ "dev")
            × (id ≢ "")
            × (id ≢ "local")
            × (load_spec K wasm from_json_file id ≡ from_json_file id))
  unfolding load_spec
  load_spec-selects id = ground (arith, eq_iff id "dev", eq_iff id "", eq_iff id "local")

  -- If the seeds that the two configurations name give keys, those of the endowed accounts
  -- account ids and those of the authorities session keys, the id `dev` loads the development
  -- specification, the empty id and `local` load the local one, and any other id is loaded as
  -- the path of a file. The first two fail if the runtime was not built, and otherwise have a
  -- genesis in which each staker can pay its bond, stakers, session keys and invulnerable
  -- accounts name the same accounts, and the validator counts follow the number of stakers.
  pub load_spec-outcomes :
      (id : String)
      → IsDerivable K
      → let r = load_spec K wasm from_json_file id in
        ((id ≡ "dev") × (r ≡ development_config K wasm) × IsBuilt K wasm r)
        ⊎ (((id ≡ "") ⊎ (id ≡ "local")) × (r ≡ local_testnet_config K wasm) × IsBuilt K wasm r)
        ⊎ ((id ≢ "dev") × (id ≢ "") × (id ≢ "local") × (r ≡ from_json_file id))
  load_spec-outcomes id v = elim (load_spec-selects id) [
    | inl (is, e) ↦ inl (is, e, rw e (development_config-IsBuilt K wasm v))
    | inr (inl (is, e)) ↦ inr (inl (is, e, rw e (local_testnet_config-IsBuilt K wasm v)))
    | inr (inr (a, b, c, e)) ↦ inr (inr (a, b, c, e))
  ]
