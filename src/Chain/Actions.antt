-- ===== src/Chain/Actions.antt =====
-- A chain of runtime/src/lib.rs as a plain sequence of actions: the calls of the four pallets, wrapped or
-- not, and the changes that other pallets make to the ledger.
use e2_chain.Base.{
  ℕ, ◌≡◌, refl, sym, ◌∙◌, ap, inl, inr, Option-cases, none, some, List, [], ◌∷◌, ◌++◌,
}
use e2_chain.Chain.{
  Runtime, State, PalletCall, Plan, finish, look, update, wrap, Call, pallet_call, other_call,
  Extrinsic, put_ledger, dispatch_pallet, perform, dispatch, after, run,
}

pub data Action (R : Runtime) : Type 0 where
  calls : ℕ → R.Origin → PalletCall R.AccountId → Action R
  changes : (R.balances.Ledger → R.balances.Ledger) → Action R

module _ (R : Runtime) where
  open R use {AccountId, Origin, balances}

  unfoldable pub act : Action R → State R → State R
  act (calls now o c) s = (dispatch_pallet R now o c s).1
  act (changes f) s = put_ledger R (f s.ledger) s

  unfoldable pub play : List (Action R) → State R → State R
  play [] s = s
  play (x ∷ xs) s = play xs (act x s)

  unfoldable pub plan_actions :
      ℕ → Plan AccountId Origin balances.Ledger → State R → List (Action R)
  plan_actions now (finish r) s = []
  plan_actions now (look p) s = plan_actions now (p s.ledger) s
  plan_actions now (update f p) s = changes f ∷ plan_actions now p (put_ledger R (f s.ledger) s)
  plan_actions now (wrap o c p) s =
      let (r, s') = dispatch_pallet R now o c s in calls now o c ∷ plan_actions now (p r) s'

  unfoldable pub call_actions : ℕ → Origin → Call AccountId R.Other → State R → List (Action R)
  call_actions now o (pallet_call c) s = calls now o c ∷ []
  call_actions now o (other_call c) s = plan_actions now (R.plan o c) s

  -- The actions of one extrinsic, and of a sequence of them.
  unfoldable pub extrinsic_actions : Extrinsic R → State R → List (Action R)
  extrinsic_actions x s = elim (R.pre_dispatch x.origin x.call x.len x.tip s.ledger) [
    | none ↦ []
    | some l ↦
        let (r, s') = dispatch R x.now x.origin x.call (put_ledger R l s) in
        changes (λ _. l)
        ∷ (call_actions x.now x.origin x.call (put_ledger R l s)
            ++ changes (R.post_dispatch x.origin x.call x.len x.tip r) ∷ [])
  ]

  unfoldable pub actions : List (Extrinsic R) → State R → List (Action R)
  actions [] s = []
  actions (x ∷ xs) s = extrinsic_actions x s ++ actions xs (after R x s)

  play-append : (xs ys : List (Action R)) (s : State R) → play (xs ++ ys) s ≡ play ys (play xs s)
  unfolding play
  play-append [] ys s = refl
  play-append (x ∷ xs) ys s = play-append xs ys (act x s)

  perform-play :
      (now : ℕ) (p : Plan AccountId Origin balances.Ledger) (s : State R)
      → (perform R now p s).1 ≡ play (plan_actions now p s) s
  unfolding perform play act plan_actions
  perform-play now (finish r) s = refl
  perform-play now (look p) s = perform-play now (p s.ledger) s
  perform-play now (update f p) s = perform-play now p (put_ledger R (f s.ledger) s)
  perform-play now (wrap o c p) s =
      let (r, s') = dispatch_pallet R now o c s in perform-play now (p r) s'

  dispatch-play :
      (now : ℕ) (o : Origin) (c : Call AccountId R.Other) (s : State R)
      → (dispatch R now o c s).1 ≡ play (call_actions now o c s) s
  unfolding dispatch call_actions play act
  dispatch-play now o (pallet_call c) s = refl
  dispatch-play now o (other_call c) s = perform-play now (R.plan o c) s

  pub after-play : (x : Extrinsic R) (s : State R) → after R x s ≡ play (extrinsic_actions x s) s
  unfolding after extrinsic_actions play act
  after-play x s = elim (Option-cases (R.pre_dispatch x.origin x.call x.len x.tip s.ledger)) [
    | inl e ↦ rw (after, extrinsic_actions, e) refl
    | inr (l, e) ↦
        let t = put_ledger R l s in
        let settled =
          changes
            (R.post_dispatch x.origin x.call x.len x.tip (dispatch R x.now x.origin x.call t).0) in
        rw (after, extrinsic_actions, e)
          (ap (act settled) (dispatch-play x.now x.origin x.call t)
            ∙ sym (play-append (call_actions x.now x.origin x.call t) (settled ∷ []) t))
  ]

  -- A chain comes to what its actions come to.
  pub run-play : (xs : List (Extrinsic R)) (s : State R) → run R xs s ≡ play (actions xs s) s
  unfolding run actions play
  run-play [] s = refl
  run-play (x ∷ xs) s =
      run-play xs (after R x s)
      ∙ (ap (play (actions xs (after R x s))) (after-play x s)
          ∙ sym (play-append (extrinsic_actions x s) (actions xs (after R x s)) s))
