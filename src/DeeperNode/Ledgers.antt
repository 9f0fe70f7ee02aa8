-- ===== src/DeeperNode/Ledgers.antt =====
-- What the calls of pallets/deeper-node/src/lib.rs do to the ledger: a registration reserves, and
-- giving it up unreserves; no other call touches it.
use e2_chain.Base.{ℕ, ◌≡◌, inl, inr, refl, ◌∙◌, ap}
use e2_chain.Frame.{Outcome-cases}
use e2_chain.DeeperNode.{
  Trait, State, min_lock_amt, get_device_info, get_servers_by_country, try_remove_server,
  try_add_server, register_device,
}
use e2_chain.DeeperNode.Servers.{IsAbsent-cases}
use e2_chain.DeeperNode.Listing.{
  try_remove_server-IsRemoval, try_add_server-listed, try_add_server-unlisted,
}
use e2_chain.DeeperNode.Registry.{
  IsDevice-cases, register_device-registers, register_device-refused, register_device-succeeds,
  unregister_device-drops, unregister_device-refused, register_server-adds,
  unregister_server-removes, server-refused,
}
use e2_chain.DeeperNode.Requests.{
  Request, registers_device, unregisters_device, registers_server, unregisters_server, dispatch,
}

module _ (T : Trait) where
  open T use {AccountId, Origin, account_discrete, currency}

  try_add_server-ledger :
      (a : AccountId) (c : ℕ) (s : State T) → (try_add_server T a c s).1.ledger ≡ s.ledger
  try_add_server-ledger a c s =
      elim (IsAbsent-cases account_discrete a (get_servers_by_country T c s)) [
        | inl h ↦ rw (try_add_server-unlisted T a c s h) refl
        | inr h ↦ rw (try_add_server-listed T a c s h) refl
      ]

  -- What neither reserving nor unreserving changes, a quantity of the ledger, no call changes.
  module _ (f : currency.Ledger → ℕ)
      (reserving : (a : AccountId) (n : ℕ) (l : currency.Ledger)
        → f (currency.reserve a n l).1 ≡ f l)
      (unreserving : (a : AccountId) (n : ℕ) (l : currency.Ledger)
        → f (currency.unreserve a n l).1 ≡ f l) where
    pub dispatch-ledger :
        (o : Origin) (r : Request) (s : State T) → f (dispatch T o r s).1.ledger ≡ f s.ledger
    unfolding dispatch
    dispatch-ledger o (registers_device ip c) s =
        elim (Outcome-cases (register_device T o ip c s).0) [
          | inr failed ↦ rw (register_device-refused T o ip c s failed) refl
          | inl done ↦
              let (a, can) = register_device-succeeds T o ip c s done in
              rw (register_device-registers T o a ip c s can) (reserving a min_lock_amt s.ledger)
        ]
    dispatch-ledger o unregisters_device s = elim (IsDevice-cases T o s) [
      | inr h ↦ rw (unregister_device-refused T o s h).1 refl
      | inl (a, d) ↦
          let c = (get_device_info T a s).country in
          rw (unregister_device-drops T o a s d) (
            unreserving a min_lock_amt (try_remove_server T a c s).1.ledger
            ∙ ap f (try_remove_server-IsRemoval T a c s).same_ledger)
    ]
    dispatch-ledger o (registers_server c) s = elim (IsDevice-cases T o s) [
      | inr h ↦ rw (server-refused T o c s h).1 refl
      | inl (a, d) ↦ rw (register_server-adds T o a c s d) (ap f (try_add_server-ledger a c s))
    ]
    dispatch-ledger o (unregisters_server c) s = elim (IsDevice-cases T o s) [
      | inr h ↦ rw (server-refused T o c s h).3 refl
      | inl (a, d) ↦
          rw (unregister_server-removes T o a c s d)
            (ap f (try_remove_server-IsRemoval T a c s).same_ledger)
    ]
