-- ===== src/Runtime/Weights.antt =====
-- The weights of runtime/src/weights/frame_system.rs and runtime/src/weights/pallet_utility.rs. A
-- weight is a `u64`. `T::DbWeight` is a record of two functions.
use e2_chain.Base.{ℕ, ◌+◌, ◌*◌, ◌^◌, ◌≤◌, ◌<◌, ◌≡◌, saturating_add, saturating_mul, arith, ap}

pub record DbWeight : Type 0 where
  pub reads : ℕ → ℕ
  pub writes : ℕ → ℕ

module _ (D : DbWeight) where
  open D use {reads, writes}

  pub set_heap_pages : ℕ
  set_heap_pages = saturating_add 64 2023000 (writes 1)

  pub set_changes_trie_config : ℕ
  set_changes_trie_config = saturating_add 64 (saturating_add 64 10026000 (reads 1)) (writes 2)

  pub set_storage : ℕ → ℕ
  set_storage i =
      saturating_add 64 (saturating_add 64 0 (saturating_mul 64 656000 i))
        (writes (saturating_mul 64 1 i))

  pub kill_storage : ℕ → ℕ
  kill_storage i =
      saturating_add 64 (saturating_add 64 4327000 (saturating_mul 64 478000 i))
        (writes (saturating_mul 64 1 i))

  pub kill_prefix : ℕ → ℕ
  kill_prefix p =
      saturating_add 64 (saturating_add 64 8349000 (saturating_mul 64 838000 p))
        (writes (saturating_mul 64 1 p))

  count_fits : (i : ℕ) → i < 2 ^ 32 → saturating_mul 64 1 i ≡ i
  count_fits i h = omega arith

  -- The weights that depend on a count: at least their base, within the type, and growing with the
  -- count if the weight of the writes does.
  pub storage_weights_bounds :
      (i : ℕ)
      → (set_storage i < 2 ^ 64)
        × (4327000 ≤ kill_storage i)
        × (kill_storage i < 2 ^ 64)
        × (8349000 ≤ kill_prefix i)
        × (kill_prefix i < 2 ^ 64)
  unfolding set_storage kill_storage kill_prefix
  storage_weights_bounds i = omega arith

  -- For two counts in order, below 2 ^ 32, whose writes weigh in the same order, the weights of
  -- setting and of killing storage and of killing a prefix are in that order.
  pub storage_weights_mono :
      (i j : ℕ)
      → i ≤ j
      → j < 2 ^ 32
      → writes i ≤ writes j
      → (set_storage i ≤ set_storage j)
        × (kill_storage i ≤ kill_storage j)
        × (kill_prefix i ≤ kill_prefix j)
  unfolding set_storage kill_storage kill_prefix
  storage_weights_mono i j h k w =
      let at_i = ap writes (count_fits i (omega arith)) in
      let at_j = ap writes (count_fits j k) in omega arith

abbrev pub remark : ℕ
remark = 1305000

abbrev pub suicide : ℕ
suicide = 29247000

pub batch : ℕ → ℕ
batch c = saturating_add 64 16461000 (saturating_mul 64 1982000 c)

abbrev pub as_derivative : ℕ
as_derivative = 4086000

-- A batch of any number of calls, a `u32`, has its exact weight: nothing saturates.
pub batch-exact : (c : ℕ) → c < 2 ^ 32 → batch c ≡ 16461000 + 1982000 * c
unfolding batch
batch-exact c h = omega arith
