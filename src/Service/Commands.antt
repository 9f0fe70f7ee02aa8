-- ===== src/Service/Commands.antt =====
-- How `run` of node/src/command.rs ends: a subcommand, or a node that is started and run.
use e2_chain.Base.{
  Bool, false, not, ◌&&◌, if◌then◌else◌, ◌≡◌, ◌⊎◌, inl, inr, refl, Option, none, some, is_some,
  List, [], ◌∷◌, ◌||◌, arith,
}
use e2_chain.Service.Crates.{Kit, Configuration}
use e2_chain.Service.Steps.{
  Step, Answer, Effect, done, Result, ok, err, create_runner, run_until_exit, run_subcommand,
}
use e2_chain.Service.{◌>>=◌, pure, parts_of, run_node, run}
use e2_chain.Service.Launch.{
  Result-cases, Task, step_taken, is_start, is_offchain, is_proposer, is_voter, occurs, expected,
  Adds, Adds-bind, Adds-last, Adds-same, Adds-pure, Adds-call, Adds-then, Adds-partial, Adds-node,
}
use e2_chain.Service.Outcomes.{
  Keeps, Keeps-bind, Keeps-call, Keeps-if, Keeps-pure, Keeps-partial, run_node-fails,
}

module _ (K : Kit) (answer : (x : Step K) → Result K (Answer K x)) where
  Adds-parts :
      (p : Task → Bool) (subcommand : K.Subcommand) (c : Configuration K)
      → p step_taken ≡ false
      → Adds K answer p false (
          if K.needs_parts subcommand
          then ◌>>=◌ K answer (parts_of K answer c) (λ parts. pure K answer (some parts))
          else pure K answer none)
  Adds-parts p subcommand c quiet =
      Adds-same K answer p (K.needs_parts subcommand) false _ _
        (Adds-last K answer p false _ _
          (Adds-last K answer p false _ _ (Adds-partial K answer p quiet c)
            λ x. Adds-pure K answer p _)
          λ parts. Adds-pure K answer p (some parts))
        (Adds-pure K answer p none)

  -- What a command that succeeds does.
  Adds-run :
      (p : Task → Bool) (command : Option K.Subcommand) (c : Configuration K)
      → p step_taken ≡ false
      → Adds K answer p (not (is_some command) && expected K answer p c) (run K answer command c)
  unfolding run run_node
  Adds-run p none c quiet =
      Adds-then K answer p quiet create_runner (expected K answer p c) (λ _. run_node K answer c)
        λ _.
          Adds-last K answer p (expected K answer p c) _ _ (Adds-node K answer p c quiet)
            λ manager. Adds-call K answer p (run_until_exit manager) quiet
  Adds-run p (some subcommand) c quiet = Adds-then K answer p quiet create_runner false _ λ _.
      Adds-bind K answer p false false _ _ (Adds-parts p subcommand c quiet)
        λ parts. Adds-call K answer p (run_subcommand subcommand parts) quiet

  -- A subcommand does nothing that passes the test, however it ends.
  Keeps-run :
      (p : Task → Bool) (subcommand : K.Subcommand) (c : Configuration K)
      → p step_taken ≡ false
      → Keeps K answer p (run K answer (some subcommand) c)
  unfolding run
  Keeps-run p subcommand c quiet =
      Keeps-bind K answer _ _ (Keeps-call K answer create_runner quiet) λ _.
        Keeps-bind K answer _ _
          (Keeps-if K answer (K.needs_parts subcommand) _ _
            (Keeps-bind K answer _ _
              (Keeps-bind K answer _ _ (Keeps-partial K answer p c quiet)
                λ x. Keeps-pure K answer _)
              λ parts. Keeps-pure K answer (some parts))
            (Keeps-pure K answer none))
          λ parts. Keeps-call K answer (run_subcommand subcommand parts) quiet

  -- The network is started if and only if there is no subcommand; offchain workers, the proposer and
  -- the finality voter run if and only if the node is to have them.
  abbrev pub IsRunning : Option K.Subcommand → Configuration K → List (Effect K) → Type 0
  IsRunning command c t =
      let node = not (is_some command) in
      let full = node && not (K.is_light c.role) in
      (occurs K answer is_start t ≡ node)
      × (occurs K answer is_offchain t ≡ node && c.offchain_worker_enabled)
      × (occurs K answer is_proposer t ≡ full && K.is_authority c.role)
      × (occurs K answer is_voter t ≡ full && not c.disable_grandpa)

  IsRunning-expected :
      (command : Option K.Subcommand) (c : Configuration K) (t : List (Effect K))
      → ((p : Task → Bool)
          → p step_taken ≡ false
          → occurs K answer p t ≡ (not (is_some command) && expected K answer p c) || false)
      → IsRunning command c t
  IsRunning-expected command c t h = (
    ground (arith, h is_start refl),
    ground (arith, h is_offchain refl),
    ground (arith, h is_proposer refl),
    ground (arith, h is_voter refl),
  )

  -- A node that the runner starts and that fails.
  node-fails :
      (c : Configuration K) (e : K.ServiceError)
      → let (r, t) = run K answer none c [] in
        r ≡ err e
        → (occurs K answer is_start t ≡ false)
          ⊎ ((manager : K.TaskManager) × (answer (run_until_exit manager) ≡ err e)
              × IsRunning none c t)
  unfolding run
  node-fails c e h = elim (Result-cases (answer create_runner)) [
    | inr (x, q) ↦ inl (ground (arith, q))
    | inl (x, q) ↦
        elim (run_node-fails K answer c (done create_runner ∷ []) e (ground (arith, q, h)) refl) [
          | inl k ↦ inl (ground (arith, q, k))
          | inr late ↦ inr (
            late.manager,
            late.failed,
            IsRunning-expected none c (run K answer none c []).1
                (λ p quiet. ground (arith, q, quiet, late.started p quiet)),
          )
        ]
  ]

  -- The ways in which a command can end.
  abbrev pub Ends : Option K.Subcommand → Configuration K → Type 0
  Ends command c =
      let (r, t) = run K answer command c [] in
      ((r ≡ ok tt) × IsRunning command c t)
      ⊎ ((e : K.ServiceError) × (r ≡ err e) × (occurs K answer is_start t ≡ false))
      ⊎ ((e : K.ServiceError) × (manager : K.TaskManager) × (r ≡ err e)
          × (command ≡ none)
          × (answer (run_until_exit manager) ≡ err e)
          × IsRunning command c t)

  command-fails :
      (command : Option K.Subcommand) (c : Configuration K) (e : K.ServiceError)
      → (run K answer command c []).0 ≡ err e
      → Ends command c
  command-fails (some subcommand) c e r =
      inr (inl (e, r, (Keeps-run is_start subcommand c refl).keeps [] refl))
  command-fails none c e r = elim (node-fails c e r) [
    | inl k ↦ inr (inl (e, r, k))
    | inr (m, q, k) ↦ inr (inr (e, m, r, refl, q, k))
  ]

  -- A command ends in one of three ways. If it succeeds, the network was started if and only if
  -- there was no subcommand; and then offchain workers were built if and only if they are
  -- enabled, blocks are proposed if and only if the node is an authority and not a light client,
  -- and the finality voter runs if and only if it is not disabled and the node is not a light
  -- client; with a subcommand there is none of these. If it fails, either the network was not
  -- started, or there was no subcommand, the node was started as in the first case, and its
  -- tasks failed afterwards, with the error of the command.
  pub run-outcomes : (command : Option K.Subcommand) (c : Configuration K) → Ends command c
  run-outcomes command c = elim (Result-cases (run K answer command c []).0) [
    | inl (tt, r) ↦ inl (
      r,
      IsRunning-expected command c (run K answer command c []).1
          (λ p quiet. (Adds-run p command c quiet).adds [] tt r),
    )
    | inr (e, r) ↦ command-fails command c e r
  ]
