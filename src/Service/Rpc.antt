-- ===== src/Service/Rpc.antt =====
-- The RPC server of a full node: `create_full` of node/src/rpc.rs, and the `rpc_extensions_builder`
-- that `new_full` of node/src/service.rs gives to `spawn_tasks`, which is called with the policy on
-- unsafe calls of each connection.
use e2_chain.Base.{String, ◌≡◌, ◌⊎◌, inl, inr, Option, Option-cases, none, some, refl}

-- Of other crates: an API is made into a delegate, which is a list of methods by their names; an
-- `IoHandler` finds a method by its name, and a delegate that it is extended with comes first.
pub record RpcKit : Type 1 where
  pub Client : Type 0
  pub Pool : Type 0
  pub DenyUnsafe : Type 0
  pub Method : Type 0
  pub Delegate : Type 0
  pub IoHandler : Type 0
  pub method_of : Delegate → String → Option Method
  pub find : IoHandler → String → Option Method
  pub default : IoHandler
  pub extend_with : Delegate → IoHandler → IoHandler
  -- `FullSystem::new`, `TransactionPayment::new`, each with `to_delegate` of its API
  pub full_system : Client → Pool → DenyUnsafe → Delegate
  pub transaction_payment : Client → Delegate
  pub find-default : (name : String) → find default name ≡ none
  pub find-extend_with :
      (d : Delegate) (io : IoHandler) (name : String)
      → find (extend_with d io) name
        ≡ elim (method_of d name) [ none ↦ find io name | some m ↦ some m ]

-- A list of methods before one that lacks the name.
or_none :
    {A : Type 0} (o fallback : Option A)
    → fallback ≡ none
    → elim o [ none ↦ fallback | some m ↦ some m ] ≡ o
or_none none fallback e = e
or_none (some m) fallback e = refl

module _ (K : RpcKit) where
  open K use {Client, Pool, DenyUnsafe, IoHandler, Method, find, method_of}

  pub record FullDeps : Type 0 where
    pub client : Client
    pub pool : Pool
    pub deny_unsafe : DenyUnsafe

  unfoldable pub create_full : FullDeps → IoHandler
  create_full deps =
      let io = K.default in
      let io = K.extend_with (K.full_system deps.client deps.pool deps.deny_unsafe) io in
      K.extend_with (K.transaction_payment deps.client) io

  unfoldable pub rpc_extensions_builder : Client → Pool → DenyUnsafe → IoHandler
  rpc_extensions_builder client pool deny_unsafe =
      create_full (record { client = client; pool = pool; deny_unsafe = deny_unsafe })

  -- The server of a full node, built with any two policies on unsafe calls, finds a method by
  -- its name in one of two ways: a method of the payment API is the same under both policies;
  -- any other name is looked up in the system API that was made with the policy.
  pub find-outcomes :
      (client : Client) (pool : Pool) (p q : DenyUnsafe) (name : String)
      → let io = rpc_extensions_builder client pool in
        ((m : Method) × (method_of (K.transaction_payment client) name ≡ some m)
          × (find (io p) name ≡ some m)
          × (find (io q) name ≡ some m))
        ⊎ ((method_of (K.transaction_payment client) name ≡ none)
            × (find (io p) name ≡ method_of (K.full_system client pool p) name)
            × (find (io q) name ≡ method_of (K.full_system client pool q) name))
  unfolding create_full rpc_extensions_builder
  find-outcomes client pool p q name =
      elim (Option-cases (method_of (K.transaction_payment client) name)) [
        | inl e ↦ inr (
          e,
          simp (K.find-extend_with, e)
              (or_none (method_of (K.full_system client pool p) name) _ (K.find-default name)),
          simp (K.find-extend_with, e)
              (or_none (method_of (K.full_system client pool q) name) _ (K.find-default name)),
        )
        | inr (m, e) ↦ inl (m, e, simp (K.find-extend_with, e), simp (K.find-extend_with, e))
      ]
