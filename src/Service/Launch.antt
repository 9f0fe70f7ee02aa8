-- ===== src/Service/Launch.antt =====
-- What runs once node/src/service.rs has started the node, and what a failure leaves.
use e2_chain.Base.{
  Bool, true, false, not, ◌&&◌, ◌||◌, ◌≡◌, ◌⊎◌, inl, inr, refl, List, [], ◌∷◌, arith, if◌then◌else◌,
}
use e2_chain.Service.Crates.{Kit, Configuration}
use e2_chain.Service.Steps.{
  PartialComponents, Step, Answer, Effect, done, offchain_workers_built, babe_proposer_spawned,
  grandpa_voter_spawned, network_started, setup_disabled_grandpa, Result, ok, err,
}
use e2_chain.Service.{
  Program, ◌>>=◌, ◌>>◌, pure, emit, call, when, propose, vote, new_partial, new_full, new_light,
  start_node,
}

pub Result-cases :
    {K : Kit} {A : Type 0} (r : Result K A)
    → ((a : A) × (r ≡ ok a)) ⊎ ((e : K.ServiceError) × (r ≡ err e))
Result-cases (ok a) = inl (a, refl)
Result-cases (err e) = inr (e, refl)

-- What an effect is, without the values in it.
pub data Task : Type 0 where
  step_taken offchain_workers proposer voter start : Task

abbrev pub task : {K : Kit} → Effect K → Task
task (done x) = step_taken
task (offchain_workers_built config backend handle client network) = offchain_workers
task (babe_proposer_spawned manager babe) = proposer
task (grandpa_voter_spawned manager v) = voter
task (network_started starter) = start

abbrev pub is_offchain : Task → Bool
is_offchain offchain_workers = true
is_offchain _ = false

abbrev pub is_proposer : Task → Bool
is_proposer proposer = true
is_proposer _ = false

abbrev pub is_voter : Task → Bool
is_voter voter = true
is_voter _ = false

abbrev pub is_start : Task → Bool
is_start start = true
is_start _ = false

module _ (K : Kit) (answer : (x : Step K) → Result K (Answer K x)) where
  -- Something in the trace passes the test.
  abbrev pub occurs : (Task → Bool) → List (Effect K) → Bool
  occurs p [] = false
  occurs p (x ∷ xs) = p (task x) || occurs p xs

  -- A run of `m` that succeeds does something that passes the test if and only if `b`.
  pub record Adds {A : Type 0} (p : Task → Bool) (b : Bool) (m : Program K answer A) : Type 0 where
    pub adds : (t : List (Effect K)) (a : A) → (m t).0 ≡ ok a → occurs p (m t).1 ≡ b || occurs p t

  pub Adds-bind :
      {A B : Type 0} (p : Task → Bool) (b c : Bool) (m : Program K answer A)
      (f : A → Program K answer B)
      → Adds p b m
      → ((a : A) → Adds p c (f a))
      → Adds p (b || c) (◌>>=◌ K answer m f)
  Adds-bind p b c m f h k = record {
    adds = λ t a e. elim (Result-cases (m t).0) [
      | inl (x, r) ↦ ground (arith, h.adds t x r, (k x).adds (m t).1 a)
      | inr (x, r) ↦ absurd (ground arith)
    ];
  }

  pub Adds-call :
      (p : Task → Bool) (x : Step K) → p step_taken ≡ false → Adds p false (call K answer x)
  Adds-call p x q = record { adds = λ t a e. ground arith }

  Adds-emit : (p : Task → Bool) (x : Effect K) → Adds p (p (task x)) (emit K answer x)
  Adds-emit p x = record { adds = λ t a e. refl }

  pub Adds-when :
      (p : Task → Bool) (w b : Bool) (m : Program K answer Unit)
      → Adds p b m
      → Adds p (w && b) (when K answer w m)
  Adds-when p true b m h = h
  Adds-when p false b m h = record { adds = λ t a e. refl }

  pub Adds-last :
      {A B : Type 0} (p : Task → Bool) (b : Bool) (m : Program K answer A)
      (f : A → Program K answer B)
      → Adds p b m
      → ((a : A) → Adds p false (f a))
      → Adds p b (◌>>=◌ K answer m f)
  Adds-last p b m f h k = record {
    adds = λ t a e. ground (arith, (Adds-bind p b false m f h k).adds t a e);
  }

  Adds-if :
      {A : Type 0} (p : Task → Bool) (w b c : Bool) (m n : Program K answer A)
      → Adds p b m
      → Adds p c n
      → Adds p (if w then b else c) (if w then m else n)
  Adds-if p true b c m n h k = h
  Adds-if p false b c m n h k = k

  pub Adds-same :
      {A : Type 0} (p : Task → Bool) (w b : Bool) (m n : Program K answer A)
      → Adds p b m
      → Adds p b n
      → Adds p b (if w then m else n)
  Adds-same p true b m n h k = h
  Adds-same p false b m n h k = k

  pub Adds-pure : {A : Type 0} (p : Task → Bool) (a : A) → Adds p false (λ t. (ok a, t))
  Adds-pure p a = record { adds = λ t x e. refl }

  module _ (p : Task → Bool) (quiet : p step_taken ≡ false) where
    pub Adds-then :
        {B : Type 0} (x : Step K) (c : Bool) (f : Answer K x → Program K answer B)
        → ((a : Answer K x) → Adds p c (f a))
        → Adds p c (◌>>=◌ K answer (call K answer x) f)
    Adds-then x c f k = Adds-bind p false c (call K answer x) f (Adds-call p x quiet) k

    pub Adds-partial : (c : Configuration K) → Adds p false (new_partial K answer c)
    unfolding new_partial
    Adds-partial c = Adds-then _ _ _ λ _.
        Adds-then _ _ _
          λ _. Adds-then _ _ _ λ _. Adds-then _ _ _ λ _. Adds-then _ _ _ λ _. Adds-pure p _

    Adds-propose :
        (c : Configuration K) (x : PartialComponents K) (n : K.Network)
        → Adds p (p proposer) (propose K answer c x n)
    Adds-propose c x n =
        Adds-then _ _ _ λ babe. Adds-emit p (babe_proposer_spawned x.task_manager babe)

    Adds-vote :
        (c : Configuration K) (x : PartialComponents K) (n : K.Network)
        → Adds p (if not c.disable_grandpa then p voter else false) (
            if not c.disable_grandpa
            then vote K answer c x n
            else call K answer (setup_disabled_grandpa x.client x.inherent_data_providers n))
    Adds-vote c x n =
        Adds-if p (not c.disable_grandpa) (p voter) false _ _
          (Adds-then _ _ _ λ v. Adds-emit p (grandpa_voter_spawned x.task_manager v))
          (Adds-call p (setup_disabled_grandpa x.client x.inherent_data_providers n) quiet)

    Adds-start :
        (starter : K.NetworkStarter) (m : K.TaskManager)
        → Adds p
            (p start)
            (◌>>◌ K answer (emit K answer (network_started starter)) (pure K answer m))
    Adds-start starter m =
        Adds-last p (p start) _ _ (Adds-emit p (network_started starter)) λ _. Adds-pure p m

    -- What a full node that starts has done.
    Adds-full :
        (c : Configuration K)
        → Adds p
            ((c.offchain_worker_enabled && p offchain_workers)
              || ((K.is_authority c.role && p proposer)
                  || ((if not c.disable_grandpa then p voter else false) || p start)))
            (new_full K answer c)
    unfolding new_full
    Adds-full c = Adds-bind p false _ _ _ (Adds-partial c) λ x. Adds-then _ _ _ λ n.
        Adds-bind p _ _ _ _
          (Adds-when p c.offchain_worker_enabled (p offchain_workers) _ (Adds-emit p _))
          λ _. Adds-then _ _ _ λ _.
            Adds-bind p _ _ _ _
              (Adds-when p (K.is_authority c.role) (p proposer) _ (Adds-propose c x n.network))
              λ _.
                Adds-bind p _ _ _ _ (Adds-vote c x n.network)
                  λ _. Adds-start n.network_starter x.task_manager

    -- What a light client that starts has done.
    Adds-light :
        (c : Configuration K)
        → Adds p
            ((c.offchain_worker_enabled && p offchain_workers) || p start)
            (new_light K answer c)
    unfolding new_light
    Adds-light c = Adds-then _ _ _ λ x. Adds-then _ _ _ λ _. Adds-then _ _ _ λ _.
        Adds-then _ _ _ λ _. Adds-then _ _ _ λ _. Adds-then _ _ _ λ n.
          Adds-bind p _ _ _ _
            (Adds-when p c.offchain_worker_enabled (p offchain_workers) _ (Adds-emit p _))
            λ _. Adds-then _ _ _ λ _. Adds-start n.network_starter x.0.task_manager

  -- Whether a node that starts does something that passes the test.
  abbrev pub expected : (Task → Bool) → Configuration K → Bool
  expected p c =
      if K.is_light c.role
      then (c.offchain_worker_enabled && p offchain_workers) || p start
      else ((c.offchain_worker_enabled && p offchain_workers)
          || ((K.is_authority c.role && p proposer)
              || ((if not c.disable_grandpa then p voter else false) || p start)))

  pub Adds-node :
      (p : Task → Bool) (c : Configuration K)
      → p step_taken ≡ false
      → Adds p (expected p c) (start_node K answer c)
  unfolding start_node
  Adds-node p c quiet =
      Adds-if p (K.is_light c.role) _ _ _ _ (Adds-light p quiet c) (Adds-full p quiet c)
