-- ===== src/DeeperNode/Refinement.antt =====
-- Every extrinsic to the pallet of pallets/deeper-node/src/lib.rs is a step of the directory, and what
-- that means to an account.
use e2_chain.Base.{
  ap, [], ◌∷◌, ℕ, ◌≡◌, ◌≢◌, inl, inr, refl, Bool, false, arith, Option, none, some, Option-cases,
  Bool-cases, List, ◌∙◌, IsDistinct,
}
use e2_chain.Frame.{Outcome, Ok, is_ok, ok, err, panic, Outcome-cases}
use e2_chain.DeeperNode.{
  Trait, State, min_lock_amt, is_registered, get_device_info, get_servers_by_country,
  register_device,
}
use e2_chain.DeeperNode.Registry.{
  IsDevice, register_device-refused, register_device-succeeds, unregister_device-refused,
  register_server-adds, unregister_server-removes, server-refused,
}
use e2_chain.DeeperNode.Requests.{
  Request, registers_device, unregisters_device, registers_server, unregisters_server, genesis,
  dispatch, run,
}
use e2_chain.DeeperNode.Invariant.{IsRegistry, dispatch-IsRegistry, genesis-IsRegistry}
use e2_chain.DeeperNode.Members.{is_listed}
use e2_chain.DeeperNode.Directory.{Directory, IsSame, IsSame-eq, vacant, step}
use e2_chain.DeeperNode.Simulation.{directory, unchanged, stops, serves, leaves, joins}

module _ {A : Type 0} (d : Discrete A) where
  -- A step of the directory is about the account that signed it and no other.
  step-others :
      (who : Option A) (reserves : A → Bool) (r : Request) (v : Directory A) (b : A)
      → who ≢ some b
      → let w = step d who reserves r v in
        (w.registered b ≡ v.registered b)
        × (w.country b ≡ v.country b)
        × ((c : ℕ) → w.lists c b ≡ v.lists c b)
        × (w.deposit b ≡ v.deposit b)
  step-others none reserves r v b n = (refl, refl, λ c. refl, refl)
  step-others (some a) reserves (registers_device ip c) v b n =
      (ground arith, ground arith, λ j. ground arith, ground arith)
  step-others (some a) reserves unregisters_device v b n =
      (ground arith, ground arith, λ j. ground arith, ground arith)
  step-others (some a) reserves (registers_server c) v b n =
      (ground arith, ground arith, λ j. ground arith, ground arith)
  step-others (some a) reserves (unregisters_server c) v b n =
      (ground arith, ground arith, λ j. ground arith, ground arith)

module _ (T : Trait) where
  open T use {AccountId, Origin, signer, account_discrete, currency}

  -- Whether an account can make the deposit.
  abbrev pub reserves : State T → AccountId → Bool
  reserves s a = is_ok (currency.reserve a min_lock_amt s.ledger).0

  abbrev Refines : Origin → Request → State T → State T → Type 0
  Refines o r s s' =
      IsSame (directory T s') (step account_discrete (signer o) (reserves s) r (directory T s))

  unsigned-Refines :
      (o : Origin) (r : Request) (s : State T)
      → signer o ≡ none
      → Refines o r s (dispatch T o r s).1
  unfolding dispatch
  unsigned-Refines o (registers_device ip c) s e =
      rw
        (
          e,
          register_device-refused T o ip c s
              (λ p. let (a, can) = register_device-succeeds T o ip c s p in cc (e, can.signed)),
        )
        (unchanged T (directory T s))
  unsigned-Refines o unregisters_device s e =
      rw (e, (unregister_device-refused T o s (λ a d. cc (e, d.signed))).1)
        (unchanged T (directory T s))
  unsigned-Refines o (registers_server c) s e =
      rw (e, (server-refused T o c s (λ a d. cc (e, d.signed))).1) (unchanged T (directory T s))
  unsigned-Refines o (unregisters_server c) s e =
      rw (e, (server-refused T o c s (λ a d. cc (e, d.signed))).3) (unchanged T (directory T s))

  is_ok-failed : (r : Outcome Ok) → r ≢ ok tt → is_ok r ≡ false
  is_ok-failed (ok tt) h = absurd (h refl)
  is_ok-failed (err e) h = refl
  is_ok-failed panic h = refl

  -- A signer without a device is nobody's device.
  no-IsDevice :
      (o : Origin) (a : AccountId) (s : State T)
      → signer o ≡ some a
      → is_registered T a s ≡ false
      → (b : AccountId) → ¬ IsDevice T o b s
  no-IsDevice o a s e f b d = ground (arith, d.signed, d.registered)

  register_device-Refines :
      (o : Origin) (a : AccountId) (ip : List ℕ) (c : ℕ) (s : State T)
      → signer o ≡ some a
      → Refines o (registers_device ip c) s (register_device T o ip c s).1
  register_device-Refines o a ip c s e =
      elim (Outcome-cases (currency.reserve a min_lock_amt s.ledger).0) [
        | inl done ↦ rw (e, done) (joins T o a ip c s e done)
        | inr failed ↦
            rw
              (
                e,
                is_ok-failed _ failed,
                register_device-refused T o ip c s (λ p.
                    let (b, can) = register_device-succeeds T o ip c s p in
                    ground (arith, e, can.signed, can.reserves, failed)),
              )
              (unchanged T (directory T s))
      ]

  signed-Refines :
      (o : Origin) (a : AccountId) (r : Request) (s : State T)
      → signer o ≡ some a
      → ((c : ℕ) → IsDistinct (get_servers_by_country T c s))
      → Refines o r s (dispatch T o r s).1
  unfolding dispatch
  signed-Refines o a (registers_device ip c) s e distinct = register_device-Refines o a ip c s e
  signed-Refines o a unregisters_device s e distinct = elim (Bool-cases (is_registered T a s)) [
    | inl r ↦ rw (e, r) (leaves T o a s (record { signed = e; registered = r }) distinct)
    | inr f ↦
        rw (e, f, (unregister_device-refused T o s (no-IsDevice o a s e f)).1)
          (unchanged T (directory T s))
  ]
  signed-Refines o a (registers_server c) s e distinct = elim (Bool-cases (is_registered T a s)) [
    | inl r ↦
        rw (e, r, register_server-adds T o a c s (record { signed = e; registered = r }))
          (serves T a c s r)
    | inr f ↦
        rw (e, f, (server-refused T o c s (no-IsDevice o a s e f)).1) (unchanged T (directory T s))
  ]
  signed-Refines o a (unregisters_server c) s e distinct = elim (Bool-cases (is_registered T a s)) [
    | inl r ↦
        rw (e, r, unregister_server-removes T o a c s (record { signed = e; registered = r }))
          (stops T a c s r (distinct c))
    | inr f ↦
        rw (e, f, (server-refused T o c s (no-IsDevice o a s e f)).3) (unchanged T (directory T s))
  ]

  dispatch-Refines :
      (o : Origin) (r : Request) (s : State T)
      → ((c : ℕ) → IsDistinct (get_servers_by_country T c s))
      → Refines o r s (dispatch T o r s).1
  dispatch-Refines o r s v = elim (Option-cases (signer o)) [
    | inl e ↦ unsigned-Refines o r s e
    | inr (a, e) ↦ signed-Refines o a r s e v
  ]

  -- The steps of the directory for a sequence of extrinsics; whether a deposit can be made is up to
  -- the ledger.
  pub steps : List (Origin × Request) → State T → Directory AccountId → Directory AccountId
  steps [] s v = v
  steps ((o, r) ∷ rs) s v =
      steps rs (dispatch T o r s).1 (step account_discrete (signer o) (reserves s) r v)

  directory-run :
      (rs : List (Origin × Request)) (s : State T)
      → IsRegistry T (λ a. 0) s
      → directory T (run T rs s) ≡ steps rs s (directory T s)
  unfolding run steps
  directory-run [] s v = refl
  directory-run ((o, r) ∷ rs) s v =
      let s' = (dispatch T o r s).1 in
      directory-run rs s' (dispatch-IsRegistry T o r s v)
      ∙ ap (steps rs s') (IsSame-eq _ _ (dispatch-Refines o r s v.distinct))

  genesis-vacant :
      (l : currency.Ledger) → directory T (genesis T l) ≡ vacant (λ a. currency.reserved a l)
  genesis-vacant l = IsSame-eq _ _ (record {
    registered = λ a. ground (arith, T.device_map.lookup-empty a);
    country = λ a. ground (arith, T.device_map.lookup-empty a);
    lists = λ c a. ground (arith, T.server_map.lookup-empty c);
    deposit = λ a. refl;
  })

  -- What any sequence of extrinsics makes of the genesis, as a directory of registrations,
  -- countries, membership of the lists of servers and deposits, is what the steps of the
  -- directory make of a vacant one, one step for each extrinsic, given its signer, its request,
  -- and whether the signer can make a deposit.
  pub directory-run_genesis :
      (rs : List (Origin × Request)) (l : currency.Ledger)
      → directory T (run T rs (genesis T l))
        ≡ steps rs (genesis T l) (vacant (λ a. currency.reserved a l))
  directory-run_genesis rs l =
      directory-run rs (genesis T l) (genesis-IsRegistry T l)
      ∙ ap (steps rs (genesis T l)) (genesis-vacant l)

  -- An extrinsic leaves what the directory says of every account that did not sign it as it was.
  pub dispatch-others :
      (o : Origin) (r : Request) (s : State T) (b : AccountId)
      → ((c : ℕ) → IsDistinct (get_servers_by_country T c s))
      → signer o ≢ some b
      → let s' = (dispatch T o r s).1 in
        (is_registered T b s' ≡ is_registered T b s)
        × ((get_device_info T b s').country ≡ (get_device_info T b s).country)
        × ((c : ℕ)
            → is_listed account_discrete b (get_servers_by_country T c s')
              ≡ is_listed account_discrete b (get_servers_by_country T c s))
        × (currency.reserved b s'.ledger ≡ currency.reserved b s.ledger)
  dispatch-others o r s b v n =
      let same = dispatch-Refines o r s v in
      let kept = step-others account_discrete (signer o) (reserves s) r (directory T s) b n in
      (
        same.registered b ∙ kept.0,
        same.country b ∙ kept.1,
        λ c. same.lists c b ∙ kept.2 c,
        same.deposit b ∙ kept.3,
      )
