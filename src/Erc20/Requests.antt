-- ===== src/Erc20/Requests.antt =====
-- Extrinsics to the pallet of pallets/erc20/src/lib.rs, one after another, as `decl_module!`
-- dispatches them, from the empty storage of a chain whose genesis holds no token.
use e2_chain.Base.{ℕ, List, [], ◌∷◌}
use e2_chain.Erc20.{Trait, State, Call, init, transfer, approve, transfer_from}

-- The pallet's `enum Call`.
pub data Request (AccountId : Type 0) : Type 0 where
  inits : List ℕ → List ℕ → ℕ → Request AccountId
  transfers : ℕ → AccountId → ℕ → Request AccountId
  approves : ℕ → AccountId → ℕ → Request AccountId
  transfers_from : ℕ → AccountId → AccountId → ℕ → Request AccountId

module _ (T : Trait) where
  open T use {AccountId, Origin}

  abbrev pub genesis : State T
  genesis = record {
    next_id = 0;
    tokens = T.tokens_map.empty;
    balances = T.balance_map.empty;
    allowances = T.allowance_map.empty;
    events = [];
  }

  unfoldable pub dispatch : Origin → Request AccountId → Call T
  dispatch o (inits name ticker supply) = init T o name ticker supply
  dispatch o (transfers id to value) = transfer T o id to value
  dispatch o (approves id spender value) = approve T o id spender value
  dispatch o (transfers_from id from to value) = transfer_from T o id from to value

  -- The state after a sequence of extrinsics; a failed one leaves what it wrote.
  unfoldable pub run : List (Origin × Request AccountId) → State T → State T
  run [] s = s
  run ((o, r) ∷ rs) s = run rs (dispatch o r s).1
