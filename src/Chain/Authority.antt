-- ===== src/Chain/Authority.antt =====
-- Who can change what a chain says of a device, by the composition in runtime/src/lib.rs.
use e2_chain.Base.{ℕ, ◌≡◌, ◌≢◌, refl, sym, subst, ◌∙◌, some, arith, List, [], ◌∷◌}
use e2_chain.Chain.{
  Runtime, State, PalletCall, template_call, erc20_call, deeper_node_call, micropayment_call,
  Extrinsic, deeper_node_trait, deeper_node_of, genesis, put_ledger, dispatch_pallet, after, run,
}
use e2_chain.Chain.Actions.{Action, calls, changes, act, play, extrinsic_actions, after-play}
use e2_chain.DeeperNode.{is_registered, get_device_info, get_servers_by_country}
use e2_chain.DeeperNode.Members.{is_listed}
use e2_chain.DeeperNode.Refinement.{dispatch-others}
use e2_chain.Chain.Deposits.{IsOrdered, play-IsOrdered, run-IsOrdered}

module _ (R : Runtime) where
  open R use {AccountId, Origin, signer, account_discrete, balances}

  -- The second state says the same of the device of `b`.
  pub record IsKept (b : AccountId) (s s' : State R) : Type 0 where
    pub registered :
        is_registered (deeper_node_trait R) b (deeper_node_of R s')
        ≡ is_registered (deeper_node_trait R) b (deeper_node_of R s)
    pub country :
        (get_device_info (deeper_node_trait R) b (deeper_node_of R s')).country
        ≡ (get_device_info (deeper_node_trait R) b (deeper_node_of R s)).country
    pub listed :
        (c : ℕ)
        → is_listed account_discrete b
            (get_servers_by_country (deeper_node_trait R) c (deeper_node_of R s'))
          ≡ is_listed account_discrete b
              (get_servers_by_country (deeper_node_trait R) c (deeper_node_of R s))

  -- The account signs no call among the actions.
  abbrev pub IsSilent : AccountId → List (Action R) → Type 0
  IsSilent b [] = Unit
  IsSilent b (calls now o c ∷ xs) = (signer o ≢ some b) × IsSilent b xs
  IsSilent b (changes f ∷ xs) = IsSilent b xs

  IsKept-trans : (b : AccountId) (s t u : State R) → IsKept b s t → IsKept b t u → IsKept b s u
  IsKept-trans b s t u h k = record {
    registered = k.registered ∙ h.registered;
    country = k.country ∙ h.country;
    listed = λ c. k.listed c ∙ h.listed c;
  }

  -- What leaves the pallet's storage alone.
  storage-IsKept :
      (b : AccountId) (s s' : State R)
      → s'.device_info ≡ s.device_info
      → s'.servers_by_country ≡ s.servers_by_country
      → IsKept b s s'
  storage-IsKept b s s' d l = record {
    registered = ground (arith, d);
    country = ground (arith, d);
    listed = λ c. ground (arith, l);
  }

  dispatch_pallet-IsKept :
      (now : ℕ) (o : Origin) (c : PalletCall AccountId) (s : State R) (b : AccountId)
      {w : AccountId → ℕ}
      → IsOrdered R w s
      → signer o ≢ some b
      → IsKept b s (dispatch_pallet R now o c s).1
  unfolding dispatch_pallet
  dispatch_pallet-IsKept now o (template_call r) s b v n = storage-IsKept b s _ refl refl
  dispatch_pallet-IsKept now o (erc20_call r) s b v n = storage-IsKept b s _ refl refl
  dispatch_pallet-IsKept now o (deeper_node_call r) s b v n =
      let kept = dispatch-others (deeper_node_trait R) o r (deeper_node_of R s) b v.distinct n in
      record { registered = kept.0; country = kept.1; listed = kept.2 }
  dispatch_pallet-IsKept now o (micropayment_call r) s b v n = storage-IsKept b s _ refl refl

  play-IsKept :
      (xs : List (Action R)) (s : State R) (b : AccountId) {w : AccountId → ℕ}
      → IsOrdered R w s
      → IsSilent b xs
      → IsKept b s (play R xs s)
  unfolding play act
  play-IsKept [] s b v q = storage-IsKept b s s refl refl
  play-IsKept (calls now o c ∷ xs) s b v q =
      IsKept-trans b s (dispatch_pallet R now o c s).1 _ (dispatch_pallet-IsKept now o c s b v q.0)
        (play-IsKept xs (dispatch_pallet R now o c s).1 b
          (play-IsOrdered R _ (calls now o c ∷ []) s v) q.1)
  play-IsKept (changes f ∷ xs) s b v q =
      IsKept-trans b s (put_ledger R (f s.ledger) s) _
        (storage-IsKept b s (put_ledger R (f s.ledger) s) refl refl)
        (play-IsKept xs (put_ledger R (f s.ledger) s) b (play-IsOrdered R _ (changes f ∷ []) s v) q)

  -- After any sequence of extrinsics of a chain from the genesis, with any fees and any plans of
  -- other pallets, the next extrinsic leaves the registration, the country and the places on
  -- lists of servers of an account as they were, unless the account signs a call that the
  -- extrinsic dispatches, by itself or from within a call of another pallet.
  pub chain-IsKept :
      (xs : List (Extrinsic R)) (x : Extrinsic R) (l : balances.Ledger) (b : AccountId)
      → IsSilent b (extrinsic_actions R x (run R xs (genesis R l)))
      → IsKept b (run R xs (genesis R l)) (after R x (run R xs (genesis R l)))
  chain-IsKept xs x l b silent =
      let s = run R xs (genesis R l) in
      subst (IsKept b s) (sym (after-play R x s))
        (play-IsKept (extrinsic_actions R x s) s b (run-IsOrdered R xs l) silent)
