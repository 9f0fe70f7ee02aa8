-- ===== src/DeeperNode/Directory.antt =====
-- What the pallet of pallets/deeper-node/src/lib.rs promises, without the lists in which it is
-- stored: who is registered, which countries he serves, and what he has deposited.
use e2_chain.Base.{
  ℕ, ◌+◌, ◌-◌, ◌≡◌, Bool, true, false, ite, if◌then◌else◌, Option, none, some, ℕ_discrete,
}
use e2_chain.DeeperNode.{min_lock_amt}
use e2_chain.DeeperNode.Requests.{
  Request, registers_device, unregisters_device, registers_server, unregisters_server,
}

pub record Directory (A : Type 0) : Type 0 where
  pub registered : A → Bool
  -- the country of a device is 0 where there is none
  pub country : A → ℕ
  pub lists : ℕ → A → Bool
  pub deposit : A → ℕ

-- Two directories say the same.
pub record IsSame {A : Type 0} (v w : Directory A) : Type 0 where
  pub registered : (a : A) → v.registered a ≡ w.registered a
  pub country : (a : A) → v.country a ≡ w.country a
  pub lists : (c : ℕ) (a : A) → v.lists c a ≡ w.lists c a
  pub deposit : (a : A) → v.deposit a ≡ w.deposit a

-- Then they are equal.
pub IsSame-eq : {A : Type 0} (v w : Directory A) → IsSame v w → v ≡ w
IsSame-eq v w h = λ i. record {
  registered = λ a. h.registered a i;
  country = λ a. h.country a i;
  lists = λ c a. h.lists c a i;
  deposit = λ a. h.deposit a i;
}

-- Nobody is registered; deposits may be there.
abbrev pub vacant : {A : Type 0} → (A → ℕ) → Directory A
vacant deposit = record {
  registered = λ a. false;
  country = λ a. 0;
  lists = λ c a. false;
  deposit = deposit;
}

module _ {A : Type 0} (d : Discrete A) where
  -- `x` for the account `a`
  abbrev pub put : {X : Type 0} → A → X → (A → X) → A → X
  put a x f b = ite (d a b) x (f b)

  abbrev pub put_listed : ℕ → A → Bool → (ℕ → A → Bool) → ℕ → A → Bool
  put_listed c a x f j b = ite (ℕ_discrete c j) (put a x (f j) b) (f j b)

  abbrev pub join : A → ℕ → Directory A → Directory A
  join a c v = record v {
    registered = put a true v.registered;
    country = put a c v.country;
    deposit = put a (v.deposit a + min_lock_amt) v.deposit;
  }

  abbrev pub serve : A → ℕ → Directory A → Directory A
  serve a c v =
      if v.lists c a
      then v
      else record v { lists = put_listed c a true v.lists; country = put a c v.country }

  abbrev pub stop : A → ℕ → Directory A → Directory A
  stop a c v =
      if v.lists c a
      then record v { lists = put_listed c a false v.lists; country = put a 0 v.country }
      else v

  abbrev pub leave : A → Directory A → Directory A
  leave a v =
      let w = stop a (v.country a) v in
      record w {
        registered = put a false w.registered;
        country = put a 0 w.country;
        deposit = put a (w.deposit a - min_lock_amt) w.deposit;
      }

  -- A request of an account that may be able to make a deposit: a registration needs one, and
  -- anything else a registration.
  abbrev pub asked : A → Bool → Request → Directory A → Directory A
  asked a reserves (registers_device ip c) v = if reserves then join a c v else v
  asked a reserves unregisters_device v = if v.registered a then leave a v else v
  asked a reserves (registers_server c) v = if v.registered a then serve a c v else v
  asked a reserves (unregisters_server c) v = if v.registered a then stop a c v else v

  -- Nothing is done for a request that nobody signed.
  abbrev pub step : Option A → (A → Bool) → Request → Directory A → Directory A
  step none reserves r v = v
  step (some a) reserves r v = asked a (reserves a) r v
