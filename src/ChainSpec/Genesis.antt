-- ===== src/ChainSpec/Genesis.antt =====
-- `testnet_genesis` of node/src/chain_spec.rs: the genesis state that is made of the authorities, the
-- root key and the endowed accounts.
use Prim.Native.String.{◌++◌ as str_append}
use e2_chain.Base.{ℕ, String, ◌*◌, ◌%◌, ◌^◌, Option, List, [], map, length, Bool}

-- runtime/src/constants.rs
abbrev pub millicents : ℕ
millicents = 1000000000

abbrev pub cents : ℕ
cents = 1000 * millicents

abbrev pub dpr : ℕ
dpr = 100 * cents

abbrev pub dollars : ℕ
dollars = dpr

-- `STASH`
abbrev pub stash_bond : ℕ
stash_bond = 100 * dollars

-- `1 << 60`
abbrev pub endowment : ℕ
endowment = 2 ^ 60

-- The key types, and `Pair::from_string(..).public()` for each: `none` where the string is no valid
-- secret.
pub record Keys : Type 1 where
  pub AccountId : Type 0
  pub BabeId : Type 0
  pub GrandpaId : Type 0
  pub sr25519_account : String → Option AccountId
  pub babe_key : String → Option BabeId
  pub grandpa_key : String → Option GrandpaId

pub data StakerStatus : Type 0 where
  validator : StakerStatus

module _ (K : Keys) where
  open K use {AccountId, BabeId, GrandpaId}

  -- `opaque::SessionKeys`
  pub record SessionKeys : Type 0 where
    pub babe : BabeId
    pub grandpa : GrandpaId

  abbrev pub Authority : Type 0
  Authority = AccountId × AccountId × BabeId × GrandpaId

  -- `GenesisConfig`, the fields that are set
  pub record GenesisConfig : Type 0 where
    pub code : List ℕ
    pub indices : List (ℕ × AccountId)
    pub balances : List (AccountId × ℕ)
    pub babe_authorities : List (BabeId × ℕ)
    pub grandpa_authorities : List (GrandpaId × ℕ)
    pub sudo_key : AccountId
    pub session_keys : List (AccountId × AccountId × SessionKeys)
    pub validator_count : ℕ
    pub minimum_validator_count : ℕ
    pub stakers : List (AccountId × AccountId × ℕ × StakerStatus)
    pub invulnerables : List AccountId
    -- in percent
    pub slash_reward_fraction : ℕ

  unfoldable pub session_keys_of : BabeId → GrandpaId → SessionKeys
  session_keys_of babe grandpa = record { babe = babe; grandpa = grandpa }

  unfoldable pub testnet_genesis :
      List ℕ → List Authority → AccountId → List AccountId → Bool → GenesisConfig
  unfolding session_keys_of
  testnet_genesis wasm_binary initial_authorities root_key endowed_accounts enable_println =
      record {
        code = wasm_binary;
        indices = [];
        balances = map (λ k. (k, endowment)) endowed_accounts;
        babe_authorities = [];
        grandpa_authorities = [];
        sudo_key = root_key;
        session_keys = map (λ x. (x.0, x.0, session_keys_of x.2 x.3)) initial_authorities;
        validator_count = (length initial_authorities % 2 ^ 32) * 2 % 2 ^ 32;
        minimum_validator_count = length initial_authorities % 2 ^ 32;
        stakers = map (λ x. (x.0, x.1, stash_bond, validator)) initial_authorities;
        invulnerables = map (λ x. x.0) initial_authorities;
        slash_reward_fraction = 10;
      }

  -- `get_from_seed`
  abbrev pub get_from_seed : {P : Type 0} → (String → Option P) → String → Option P
  get_from_seed from_string seed = from_string (str_append "//" seed)

  abbrev pub get_account_id_from_seed : String → Option AccountId
  get_account_id_from_seed = get_from_seed K.sr25519_account
