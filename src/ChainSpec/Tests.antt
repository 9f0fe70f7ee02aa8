-- ===== src/ChainSpec/Tests.antt =====
-- The specifications of node/src/chain_spec.rs with key types that are strings.
use text.Mathlib.Text.{◌==◌ as str_eq}
use e2_chain.Base.{
  Option, none, inl, inr, IsPresent, if◌then◌else◌, ℕ, String, ◌≡◌, ◌≢◌, ◌⊎◌, refl, some, List, [],
  ◌∷◌,
}
use Prim.Native.String.{◌++◌ as str_append}
use e2_chain.ChainSpec.Genesis.{Keys}
use e2_chain.ChainSpec.Configs.{
  Result, err, Spec, development_config, local_testnet_config, load_spec,
}
use e2_chain.ChainSpec.Funding.{IsDerivable, authority_seeds}
use e2_chain.ChainSpec.Loading.{IsBuilt, load_spec-outcomes}

-- A key is the string that it is derived from; the empty seed gives none.
abbrev secret : String → Option String
secret s = if str_eq s "//" then none else some s

abbrev test_keys : Keys
test_keys = record {
  AccountId = String;
  BabeId = String;
  GrandpaId = String;
  sr25519_account = λ s. some s;
  babe_key = secret;
  grandpa_key = secret;
}

secret-eq :
    (s : String)
    → IsPresent s (authority_seeds test_keys)
    → secret (str_append "//" s) ≡ some (str_append "//" s)
secret-eq s (inl e) = rw e refl
secret-eq s (inr (inl e)) = rw e refl
secret-eq s (inr (inr x)) = elim x [ ]

test_keys-IsDerivable : IsDerivable test_keys
test_keys-IsDerivable = record {
  account = λ s. str_append "//" s;
  babe = λ s. str_append "//" s;
  grandpa = λ s. str_append "//" s;
  account_eq = λ s m. refl;
  babe_eq = secret-eq;
  grandpa_eq = secret-eq;
}

abbrev wasm : List ℕ
wasm = 0 ∷ 97 ∷ 115 ∷ 109 ∷ []

abbrev no_file : String → Result (Spec test_keys)
no_file path = err "no such file"

load_spec-outcomes_example :
    let id : String = "dev" in
    let r = load_spec test_keys (some wasm) no_file id in
    ((id ≡ "dev")
      × (r ≡ development_config test_keys (some wasm))
      × IsBuilt test_keys (some wasm) r)
    ⊎ (((id ≡ "") ⊎ (id ≡ "local"))
        × (r ≡ local_testnet_config test_keys (some wasm))
        × IsBuilt test_keys (some wasm) r)
    ⊎ ((id ≢ "dev") × (id ≢ "") × (id ≢ "local") × (r ≡ no_file id))
load_spec-outcomes_example =
    load_spec-outcomes test_keys (some wasm) no_file "dev" test_keys-IsDerivable
