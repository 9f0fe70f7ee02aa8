-- ===== src/DeeperNode/Requests.antt =====
-- Extrinsics to the pallet of pallets/deeper-node/src/lib.rs, one after another, as `decl_module!`
-- dispatches them.
use e2_chain.Base.{ℕ, List, [], ◌∷◌}
use e2_chain.DeeperNode.{
  Trait, State, Call, register_device, unregister_device, register_server, unregister_server,
}

-- The pallet's `enum Call`.
pub data Request : Type 0 where
  registers_device : List ℕ → ℕ → Request
  unregisters_device : Request
  registers_server : ℕ → Request
  unregisters_server : ℕ → Request

module _ (T : Trait) where
  open T use {Origin, currency}

  -- No device is registered at first, whatever the ledger holds.
  abbrev pub genesis : currency.Ledger → State T
  genesis l = record {
    device_info = T.device_map.empty;
    servers_by_country = T.server_map.empty;
    ledger = l;
    events = [];
  }

  unfoldable pub dispatch : Origin → Request → Call T
  dispatch o (registers_device ip country) = register_device T o ip country
  dispatch o unregisters_device = unregister_device T o
  dispatch o (registers_server country) = register_server T o country
  dispatch o (unregisters_server country) = unregister_server T o country

  -- The state after a sequence of extrinsics; a failed one leaves what it wrote.
  unfoldable pub run : List (Origin × Request) → State T → State T
  run [] s = s
  run ((o, r) ∷ rs) s = run rs (dispatch o r s).1
