-- ===== src/ChainSpec/Configs.antt =====
-- The development and local chain specifications of node/src/chain_spec.rs, and `load_spec` of
-- node/src/command.rs, which chooses one by its id.
use Prim.Native.String.{◌++◌ as str_append}
use text.Mathlib.Text.{◌==◌ as str_eq}
use e2_chain.Base.{ℕ, String, Option, none, some, List, [], ◌∷◌, true, if◌then◌else◌, ◌||◌}
use e2_chain.ChainSpec.Genesis.{
  Keys, Authority, GenesisConfig, testnet_genesis, get_from_seed, get_account_id_from_seed,
}

-- `Result<T, String>`
pub data Result (A : Type 0) : Type 0 where
  ok : A → Result A
  err : String → Result A

pub data ChainType : Type 0 where
  development local : ChainType

infixl 5 ◌>>=◌
abbrev pub ◌>>=◌ : {A B : Type 0} → Option A → (A → Option B) → Option B
none >>= f = none
some a >>= f = f a

module _ (K : Keys) where
  open K use {AccountId, BabeId, GrandpaId}

  -- What is passed to `ChainSpec::from_genesis`, and not empty. The genesis is built by a closure,
  -- which panics (`none`) where a seed is not valid.
  pub record Spec : Type 0 where
    pub name : String
    pub id : String
    pub chain_type : ChainType
    pub genesis : Option (GenesisConfig K)

  unfoldable pub authority_keys_from_seed : String → Option (Authority K)
  authority_keys_from_seed s = do
    stash ← get_account_id_from_seed K (str_append s "//stash")
    controller ← get_account_id_from_seed K s
    babe ← get_from_seed K K.babe_key s
    grandpa ← get_from_seed K K.grandpa_key s
    some (stash, controller, babe, grandpa)

  -- `vec![..]` of derived keys
  abbrev pub all_of : {A : Type 0} → (String → Option A) → List String → Option (List A)
  all_of f [] = some []
  all_of f (s ∷ ss) = f s >>= λ a. all_of f ss >>= λ rest. some (a ∷ rest)

  abbrev pub genesis_of : List ℕ → List String → String → List String → Option (GenesisConfig K)
  genesis_of wasm_binary authorities root endowed = do
    initial_authorities ← all_of authority_keys_from_seed authorities
    root_key ← get_account_id_from_seed K root
    endowed_accounts ← all_of (get_account_id_from_seed K) endowed
    some (testnet_genesis K wasm_binary initial_authorities root_key endowed_accounts true)

  abbrev pub development_endowed : List String
  development_endowed = "Alice" ∷ "Bob" ∷ "Alice//stash" ∷ "Bob//stash" ∷ []

  abbrev pub local_endowed : List String
  local_endowed =
      "Alice" ∷ "Bob" ∷ "Charlie" ∷ "Dave" ∷ "Eve" ∷ "Ferdie" ∷ "Alice//stash" ∷ "Bob//stash"
      ∷ "Charlie//stash" ∷ "Dave//stash" ∷ "Eve//stash" ∷ "Ferdie//stash" ∷ []

  -- `WASM_BINARY` is `None` where the runtime was not built for wasm.
  unfoldable pub development_config : Option (List ℕ) → Result Spec
  development_config none = err "Development wasm binary not available"
  development_config (some wasm_binary) = ok (record {
    name = "Development";
    id = "dev";
    chain_type = development;
    genesis = genesis_of wasm_binary ("Alice" ∷ []) "Alice" development_endowed;
  })

  unfoldable pub local_testnet_config : Option (List ℕ) → Result Spec
  local_testnet_config none = err "Development wasm binary not available"
  local_testnet_config (some wasm_binary) = ok (record {
    name = "Local Testnet";
    id = "local_testnet";
    chain_type = local;
    genesis = genesis_of wasm_binary ("Alice" ∷ "Bob" ∷ []) "Alice" local_endowed;
  })

  -- `load_spec`; reading a file is an argument
  unfoldable pub load_spec : Option (List ℕ) → (String → Result Spec) → String → Result Spec
  load_spec wasm from_json_file id =
      if str_eq id "dev"
      then development_config wasm
      else if str_eq id "" || str_eq id "local"
      then local_testnet_config wasm
      else from_json_file id
