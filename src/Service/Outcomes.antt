-- ===== src/Service/Outcomes.antt =====
-- How a start of the node in node/src/service.rs can end: with the network started, or without it.
use e2_chain.Base.{
  Bool, true, false, not, ◌||◌, ◌≡◌, ◌⊎◌, inl, inr, refl, Bool-cases, List, arith, if◌then◌else◌,
}
use e2_chain.Service.Crates.{Kit, Configuration}
use e2_chain.Service.Steps.{
  Step, Answer, Effect, babe_proposer_spawned, grandpa_voter_spawned, network_started,
  setup_disabled_grandpa, run_until_exit, Result, ok, err,
}
use e2_chain.Service.{
  Program, ◌>>=◌, ◌>>◌, pure, emit, call, when, propose, vote, new_partial, new_full, new_light,
  start_node, run_node,
}
use e2_chain.Service.Launch.{
  Adds-node, expected, Result-cases, Task, step_taken, task, is_start, occurs,
}

module _ (K : Kit) (answer : (x : Step K) → Result K (Answer K x)) where
  -- `m` does nothing that passes the test.
  pub record Keeps {A : Type 0} (p : Task → Bool) (m : Program K answer A) : Type 0 where
    pub keeps :
        (t : List (Effect K)) → occurs K answer p t ≡ false → occurs K answer p (m t).1 ≡ false

  -- `m` does not start the network if it fails.
  pub record Stops {A : Type 0} (m : Program K answer A) : Type 0 where
    pub stops :
        (t : List (Effect K)) (e : K.ServiceError)
        → (m t).0 ≡ err e
        → occurs K answer is_start t ≡ false
        → occurs K answer is_start (m t).1 ≡ false

  pub Keeps-bind :
      {A B : Type 0} {p : Task → Bool} (m : Program K answer A) (f : A → Program K answer B)
      → Keeps p m
      → ((a : A) → Keeps p (f a))
      → Keeps p (◌>>=◌ K answer m f)
  Keeps-bind m f h k = record {
    keeps = λ t q. elim (Result-cases (m t).0) [
      | inl (x, r) ↦ ground (arith, h.keeps t q, (k x).keeps (m t).1)
      | inr (x, r) ↦ ground (arith, h.keeps t q)
    ];
  }

  pub Keeps-call : {p : Task → Bool} (x : Step K) → p step_taken ≡ false → Keeps p (call K answer x)
  Keeps-call x h = record { keeps = λ t q. ground arith }

  pub Keeps-when :
      {p : Task → Bool} (w : Bool) (m : Program K answer Unit)
      → Keeps p m
      → Keeps p (when K answer w m)
  Keeps-when true m h = h
  Keeps-when false m h = record { keeps = λ t q. q }

  pub Keeps-if :
      {A : Type 0} {p : Task → Bool} (w : Bool) (m n : Program K answer A)
      → Keeps p m
      → Keeps p n
      → Keeps p (if w then m else n)
  Keeps-if true m n h k = h
  Keeps-if false m n h k = k

  pub Stops-bind :
      {A B : Type 0} (m : Program K answer A) (f : A → Program K answer B)
      → Keeps is_start m
      → ((a : A) → Stops (f a))
      → Stops (◌>>=◌ K answer m f)
  Stops-bind m f h k = record {
    stops = λ t e r q. elim (Result-cases (m t).0) [
      | inl (x, o) ↦ ground (arith, h.keeps t q, (k x).stops (m t).1 e)
      | inr (x, o) ↦ ground (arith, h.keeps t q)
    ];
  }

  Stops-emit : (x : Effect K) → Stops (emit K answer x)
  Stops-emit x = record { stops = λ t e r q. absurd (ground arith) }

  Keeps-emit : {p : Task → Bool} (x : Effect K) → p (task x) ≡ false → Keeps p (emit K answer x)
  Keeps-emit x h = record { keeps = λ t q. ground arith }

  pub Keeps-pure : {A : Type 0} {p : Task → Bool} (a : A) → Keeps p (λ t. (ok a, t))
  Keeps-pure a = record { keeps = λ t q. q }

  pub Keeps-partial :
      (p : Task → Bool) (c : Configuration K)
      → p step_taken ≡ false
      → Keeps p (new_partial K answer c)
  unfolding new_partial
  Keeps-partial p c quiet = Keeps-bind _ _ (Keeps-call _ quiet) λ _.
      Keeps-bind _ _ (Keeps-call _ quiet) λ _. Keeps-bind _ _ (Keeps-call _ quiet) λ _.
        Keeps-bind _ _ (Keeps-call _ quiet)
          λ _. Keeps-bind _ _ (Keeps-call _ quiet) λ _. Keeps-pure _

  -- The network is started, and then nothing fails.
  Stops-start :
      (starter : K.NetworkStarter) (m : K.TaskManager)
      → Stops (◌>>◌ K answer (emit K answer (network_started starter)) (pure K answer m))
  Stops-start starter m = record { stops = λ t e r q. absurd (ground arith) }

  Stops-full : (c : Configuration K) → Stops (new_full K answer c)
  unfolding new_full
  Stops-full c = Stops-bind _ _ (Keeps-partial is_start c refl) λ x.
      Stops-bind _ _ (Keeps-call _ refl) λ n.
        Stops-bind _ _ (Keeps-when c.offchain_worker_enabled _ (Keeps-emit _ refl)) λ _.
          Stops-bind _ _ (Keeps-call _ refl) λ _.
            Stops-bind _ _
              (Keeps-when (K.is_authority c.role) (propose K answer c x n.network) (
                Keeps-bind _ _ (Keeps-call _ refl)
                  λ babe. Keeps-emit (babe_proposer_spawned x.task_manager babe) refl))
              λ _.
                Stops-bind _ _
                  (Keeps-if (not c.disable_grandpa) (vote K answer c x n.network)
                    (call K answer
                      (setup_disabled_grandpa x.client x.inherent_data_providers n.network))
                    (Keeps-bind _ _ (Keeps-call _ refl)
                      λ v. Keeps-emit (grandpa_voter_spawned x.task_manager v) refl)
                    (Keeps-call {p = is_start}
                      (setup_disabled_grandpa x.client x.inherent_data_providers n.network) refl))
                  λ _. Stops-start n.network_starter x.task_manager

  Stops-light : (c : Configuration K) → Stops (new_light K answer c)
  unfolding new_light
  Stops-light c = Stops-bind _ _ (Keeps-call _ refl) λ x. Stops-bind _ _ (Keeps-call _ refl) λ _.
      Stops-bind _ _ (Keeps-call _ refl) λ _. Stops-bind _ _ (Keeps-call _ refl) λ _.
        Stops-bind _ _ (Keeps-call _ refl) λ _. Stops-bind _ _ (Keeps-call _ refl) λ n.
          Stops-bind _ _ (Keeps-when _ _ (Keeps-emit _ refl)) λ _.
            Stops-bind _ _ (Keeps-call _ refl) λ _. Stops-start n.network_starter x.0.task_manager

  Stops-node : (c : Configuration K) → Stops (start_node K answer c)
  unfolding start_node
  Stops-node c = elim (Bool-cases (K.is_light c.role)) [
    | inl e ↦ rw e (Stops-light c)
    | inr e ↦ rw e (Stops-full c)
  ]

  -- From `t` to `u`, everything was started that `c` asks for, and then the running node failed.
  pub record IsLate (c : Configuration K) (e : K.ServiceError) (t u : List (Effect K))
      : Type 0 where
    pub manager : K.TaskManager
    pub failed : answer (run_until_exit manager) ≡ err e
    pub started :
        (p : Task → Bool)
        → p step_taken ≡ false
        → occurs K answer p u ≡ expected K answer p c || occurs K answer p t

  -- A node that fails did not start the network, or failed once it was running.
  pub run_node-fails :
      (c : Configuration K) (t : List (Effect K)) (e : K.ServiceError)
      → (run_node K answer c t).0 ≡ err e
      → occurs K answer is_start t ≡ false
      → let u = (run_node K answer c t).1 in (occurs K answer is_start u ≡ false) ⊎ IsLate c e t u
  unfolding run_node
  run_node-fails c t e h q = elim (Result-cases (start_node K answer c t).0) [
    | inr (x, o) ↦ inl (ground (arith, o, (Stops-node c).stops t x o q))
    | inl (m, o) ↦ elim (Result-cases (answer (run_until_exit m))) [
      | inl (x, k) ↦ absurd (ground (arith, o, k))
      | inr (x, k) ↦ inr (record {
        manager = m;
        failed = ground (arith, o, k, h);
        started = λ p quiet. ground (arith, o, k, (Adds-node K answer p c quiet).adds t m o);
      })
    ]
  ]
