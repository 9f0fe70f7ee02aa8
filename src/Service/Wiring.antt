-- ===== src/Service/Wiring.antt =====
-- How the parts of a full node of node/src/service.rs are connected: what each call of `new_full` is
-- given, whether the start succeeds or fails half-way.
use e2_chain.Base.{
  Bool, true, false, ◌≡◌, refl, sym, ap, subst, ◌∙◌, arith, Option, none, some, List, [], ◌∷◌,
  if◌then◌else◌, not,
}
use e2_chain.Service.Crates.{Kit, Configuration}
use e2_chain.Service.Steps.{
  Parts, PartialComponents, BuildNetworkParams, Step, Answer, Effect, Result, ok, err,
  new_full_parts, build_network, setup_disabled_grandpa, done,
}
use e2_chain.Service.{
  Program, ◌>>=◌, pure, emit, call, propose, vote, new_partial, new_full, grandpa_config,
}
use e2_chain.Service.Connections.{Takes, Uses, IsWired, network_of, built, pool}

module _ (K : Kit) (answer : (x : Step K) → Result K (Answer K x)) (config : Configuration K)
    (parts : Parts K) where
  result-ok : {A : Type 0} {a b : A} → ◌≡◌ {A = Result K A} (ok a) (ok b) → a ≡ b
  result-ok e = cc e

  -- From a trace that meets `I`, `m` makes a wired one, and if it succeeds, one that meets `J`.
  record Ensures {A : Type 0} (I : List (Effect K) → Type 0) (m : Program K answer A)
      (J : A → List (Effect K) → Type 0) : Type 0 where
    ensures :
        (t : List (Effect K))
        → I t
        → (IsWired K answer config parts) (m t).1 × ((a : A) → (m t).0 ≡ ok a → J a (m t).1)

  Ensures-result :
      {A B : Type 0} (J : A → List (Effect K) → Type 0) (L : B → List (Effect K) → Type 0)
      (r : Result K A) (t : List (Effect K)) (f : A → Program K answer B)
      → (IsWired K answer config parts) t × ((a : A) → r ≡ ok a → J a t)
      → ((a : A) → Ensures (J a) (f a) L)
      → let (o, t') : Result K B × List (Effect K) = elim r [ ok a ↦ f a t | err e ↦ (err e, t) ] in
        (IsWired K answer config parts) t' × ((b : B) → o ≡ ok b → L b t')
  Ensures-result J L (ok a) t f h k = (k a).ensures t (h.1 a refl)
  Ensures-result J L (err e) t f h k = (h.0, (λ b q. absurd (ground (arith, q))))

  Ensures-bind :
      {A B : Type 0} {I : List (Effect K) → Type 0} {J : A → List (Effect K) → Type 0}
      {L : B → List (Effect K) → Type 0} (m : Program K answer A) (f : A → Program K answer B)
      → Ensures I m J
      → ((a : A) → Ensures (J a) (f a) L)
      → Ensures I (◌>>=◌ K answer m f) L
  Ensures-bind {J = J} {L = L} m f h k = record {
    ensures = λ t i. Ensures-result J L (m t).0 (m t).1 f (h.ensures t i) k;
  }

  call-result :
      (x : Step K) (J : Answer K x → List (Effect K) → Type 0) (t : List (Effect K))
      (r : Result K (Answer K x))
      → answer x ≡ r
      → (IsWired K answer config parts) t
      → ((a : Answer K x)
          → answer x ≡ ok a
          → (Takes K answer config parts) ((network_of K answer config parts) t) x
            × J a (done x ∷ t))
      → let (o, t') : Result K (Answer K x) × List (Effect K) = elim r [
        | ok a ↦ (ok a, done x ∷ t)
        | err e ↦ (err e, t)
      ] in
        (IsWired K answer config parts) t' × ((a : Answer K x) → o ≡ ok a → J a t')
  call-result x J t (ok a) e w h = (((h a e).0, w), (λ b q. (h b (e ∙ q)).1))
  call-result x J t (err e) q w h = (w, (λ b q. absurd (ground (arith, q))))

  Ensures-call :
      {I : List (Effect K) → Type 0} {x : Step K} {J : Answer K x → List (Effect K) → Type 0}
      → ((t : List (Effect K)) → I t → (IsWired K answer config parts) t)
      → ((t : List (Effect K)) (a : Answer K x)
          → I t
          → answer x ≡ ok a
          → (Takes K answer config parts) ((network_of K answer config parts) t) x
            × J a (done x ∷ t))
      → Ensures I (call K answer x) J
  Ensures-call {x = x} {J = L} h k = record {
    ensures = λ t i. call-result x L t (answer x) refl (h t i) (λ a e. k t a i e);
  }

  -- The components that the parts make.
  record IsFrom (c : PartialComponents K) : Type 0 where
    client : c.client ≡ parts.client
    backend : c.backend ≡ parts.backend
    task_manager : c.task_manager ≡ parts.task_manager
    keystore : c.keystore ≡ parts.keystore
    select_chain : c.select_chain ≡ K.longest_chain parts.backend
    transaction_pool : c.transaction_pool ≡ (pool K answer config parts)

  Ensures-pure :
      {A : Type 0} {I : List (Effect K) → Type 0} {J : A → List (Effect K) → Type 0} (a : A)
      → ((t : List (Effect K)) → I t → (IsWired K answer config parts) t × J a t)
      → Ensures I (pure K answer a) J
  Ensures-pure {J = L} a h = record {
    ensures = λ t i. let (w, j) = h t i in (w, (λ b q. subst (λ z. L z t) (result-ok q) j));
  }

  -- After the parts were made, while there is no network.
  abbrev From : Parts K → List (Effect K) → Type 0
  From p t = (p ≡ parts) × (IsWired K answer config parts) t

  Ensures-part :
      {p : Parts K} (x : Step K)
      → (p ≡ parts → (net : Option K.Network) → (Takes K answer config parts) net x)
      → Ensures (From p) (call K answer x) (λ _. From p)
  Ensures-part {p} x u =
      Ensures-call {J = λ _. From p} (λ t i. i.1)
        λ t a i e. (
          u i.0 ((network_of K answer config parts) t),
          (i.0, (u i.0 ((network_of K answer config parts) t), i.1)),
        )

  -- After the components were made, and then once there is a network.
  abbrev Made : PartialComponents K → List (Effect K) → Type 0
  Made c t = IsFrom c × (IsWired K answer config parts) t

  abbrev Linked : PartialComponents K → K.Network → List (Effect K) → Type 0
  Linked c n t =
      IsFrom c × ((network_of K answer config parts) t ≡ some n) × (IsWired K answer config parts) t

  -- A step, or another effect, that builds no network.
  Ensures-next :
      {c : PartialComponents K} {n : K.Network} (x : Step K)
      → ((t : List (Effect K))
          → (network_of K answer config parts) (done x ∷ t) ≡ (network_of K answer config parts) t)
      → (IsFrom c → (net : Option K.Network) → net ≡ some n → (Takes K answer config parts) net x)
      → Ensures (Linked c n) (call K answer x) (λ _. Linked c n)
  Ensures-next {c} {n} x same u =
      Ensures-call {J = λ _. Linked c n} (λ t i. i.2)
        λ t a i e.
          let v = u i.0 ((network_of K answer config parts) t) i.1 in
          (v, (i.0, same t ∙ i.1, (v, i.2)))

  Ensures-emit :
      {c : PartialComponents K} {n : K.Network} {x : Effect K}
      → ((t : List (Effect K))
          → (network_of K answer config parts) (x ∷ t) ≡ (network_of K answer config parts) t)
      → (IsFrom c → (net : Option K.Network) → net ≡ some n → (Uses K answer config parts) net x)
      → Ensures (Linked c n) (emit K answer x) (λ _. Linked c n)
  Ensures-emit same u = record {
    ensures = λ t i.
        let v = u i.0 ((network_of K answer config parts) t) i.1 in
        ((v, i.2), (λ a e. (i.0, same t ∙ i.1, (v, i.2))));
  }

  Ensures-if :
      {A : Type 0} {I : List (Effect K) → Type 0} {J : A → List (Effect K) → Type 0} (w : Bool)
      (m n : Program K answer A)
      → Ensures I m J
      → Ensures I n J
      → Ensures I (if w then m else n) J
  Ensures-if true m n h k = h
  Ensures-if false m n h k = k

  module _ (given : answer (new_full_parts config) ≡ ok parts) where
    Ensures-partial : Ensures (IsWired K answer config parts) (new_partial K answer config) Made
    unfolding new_partial
    Ensures-partial =
        Ensures-bind _ _
          (Ensures-call {J = From} (λ t i. i)
            (λ t a i e. (refl, (result-ok (sym e ∙ given), (refl, i)))))
          λ p. Ensures-bind _ _ (Ensures-part _ λ q net. (cc q, cc q, cc q)) λ g.
            Ensures-bind _ _ (Ensures-part _ λ q net. cc q) λ b.
              Ensures-bind _ _ (Ensures-part _ λ q net. cc q) λ l.
                Ensures-bind _ _ (Ensures-part _ λ q net. (cc q, cc q, cc q)) λ k.
                  Ensures-pure _ λ t i. (
                    i.1,
                    (
                      record {
                        client = cc i.0;
                        backend = cc i.0;
                        task_manager = cc i.0;
                        keystore = cc i.0;
                        select_chain = cc i.0;
                        transaction_pool = cc i.0;
                      },
                      i.1,
                    ),
                  )

    -- The network is (built K answer config parts) from the components.
    Ensures-network :
        (c : PartialComponents K) (q : BuildNetworkParams K)
        → (IsFrom c
            → (net : Option K.Network) → (Takes K answer config parts) net (build_network q))
        → Ensures (Made c) (call K answer (build_network q)) (λ n. Linked c n.network)
    Ensures-network c q u =
        Ensures-call {x = build_network q} {J = λ n. Linked c n.network} (λ t i. i.1)
          λ t a i e.
            let v = u i.0 ((network_of K answer config parts) t) in
            (v, (i.0, ap (built K answer config parts) e, (v, i.1)))

    Ensures-propose :
        (c : PartialComponents K) (n : K.Network)
        → Ensures (Linked c n) (propose K answer config c n) (λ _. Linked c n)
    Ensures-propose c n =
        Ensures-bind _ _
          (Ensures-next _ (λ t. refl)
            λ f net e. (f.client, f.keystore, f.select_chain, cc (f.client, f.transaction_pool), e))
          λ babe. Ensures-emit (λ t. refl) λ f net e. f.task_manager

    Ensures-vote :
        (c : PartialComponents K) (n : K.Network)
        → Ensures (Linked c n) (vote K answer config c n) (λ _. Linked c n)
    unfolding grandpa_config
    Ensures-vote c n =
        Ensures-bind _ _
          (Ensures-next _ (λ t. refl)
            λ f net e.
              (ap (λ k. if K.is_authority config.role then some k else none) f.keystore, e))
          λ voter. Ensures-emit (λ t. refl) λ f net e. f.task_manager

    Ensures-full :
        Ensures
          (IsWired K answer config parts)
          (new_full K answer config)
          (λ m. (IsWired K answer config parts))
    unfolding new_full
    Ensures-full = Ensures-bind _ _ Ensures-partial λ c.
        Ensures-bind _ _
          (Ensures-network c _ λ f net. (f.client, f.transaction_pool, cc f.task_manager))
          λ n.
            Ensures-bind _ _
              (Ensures-if config.offchain_worker_enabled _ _
                (Ensures-emit (λ t. refl) λ f net e. (f.backend, cc f.task_manager, f.client, e))
                (Ensures-pure tt λ t i. (i.2, i)))
              λ _.
                Ensures-bind _ _
                  (Ensures-next _ (λ t. refl)
                    λ f net e. (
                      f.client,
                      f.backend,
                      f.keystore,
                      f.task_manager,
                      f.transaction_pool,
                      cc (f.client, f.transaction_pool),
                      e,
                    ))
                  λ _.
                    Ensures-bind _ _
                      (Ensures-if (K.is_authority config.role) (propose K answer config c n.network)
                        (pure K answer tt) (Ensures-propose c n.network)
                        (Ensures-pure tt λ t i. (i.2, i)))
                      λ _.
                        Ensures-bind _ _
                          (Ensures-if (not config.disable_grandpa)
                            (vote K answer config c n.network) _ (Ensures-vote c n.network)
                            (Ensures-next
                              (setup_disabled_grandpa c.client c.inherent_data_providers n.network)
                              (λ t. refl) λ f net e. (f.client, e)))
                          λ _.
                            Ensures-bind _ _ (Ensures-emit (λ t. refl) λ f net e. tt)
                              λ _. Ensures-pure c.task_manager λ t i. (i.2, i.2)

    -- If the first call of the start of a full node returns the parts of the node, then each
    -- call that the start makes, whether it ends well or not, is given the client, backend,
    -- keystore and task manager of these parts where it takes them, the pool that is made of
    -- them, and the network that was built before it; the RPC server is built from the client
    -- and the pool, the finality voter gets the keystore if and only if the node is an
    -- authority, and no call is one of a light client or of the runner.
    pub new_full-IsWired : (IsWired K answer config parts) (new_full K answer config []).1
    new_full-IsWired = (Ensures-full.ensures [] tt).0
