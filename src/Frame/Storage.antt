-- ===== src/Frame/Storage.antt =====
-- `StorageMap` and `StorageDoubleMap` of `frame_support`: interfaces with the documented laws of a
-- key-value store, the accessors that the pallets call, and a value that meets the laws.
use e2_chain.Base.{
  ap, ◌≡◌, refl, ◌≢◌, sym, Bool, Option, none, some, is_some, unwrap_or, ite, if_pos, if_neg,
}

-- a storage item `Item: map hasher(..) K => V`
pub record StorageMap (K V : Type 0) : Type 1 where
  pub Map : Type 0
  pub empty : Map
  pub lookup : K → Map → Option V
  pub insert : K → V → Map → Map
  pub remove : K → Map → Map
  pub lookup-empty : (k : K) → lookup k empty ≡ none
  pub lookup-insert_self : (k : K) (v : V) (m : Map) → lookup k (insert k v m) ≡ some v
  pub lookup-insert_ne : (j k : K) (v : V) (m : Map) → k ≢ j → lookup j (insert k v m) ≡ lookup j m
  pub lookup-remove_self : (k : K) (m : Map) → lookup k (remove k m) ≡ none
  pub lookup-remove_ne : (j k : K) (m : Map) → k ≢ j → lookup j (remove k m) ≡ lookup j m

module _ {K V : Type 0} (M : StorageMap K V) where
  -- `contains_key`
  abbrev pub contains_key : K → M.Map → Bool
  contains_key k m = is_some (M.lookup k m)

  -- `get` of an item with a default value
  abbrev pub get : V → K → M.Map → V
  get d k m = unwrap_or d (M.lookup k m)

  -- The laws of the two writes as one equation each, for keys with decidable equality.
  pub lookup-insert :
      (d : Discrete K) (j k : K) (v : V) (m : M.Map)
      → M.lookup j (M.insert k v m) ≡ ite (d k j) (some v) (M.lookup j m)
  lookup-insert d j k v m = elim (d k j) [
    | yes e ↦ rw (if_pos _ e, sym e) (M.lookup-insert_self k v m)
    | no n ↦ rw (if_neg _ n) (M.lookup-insert_ne j k v m n)
  ]

  pub lookup-remove :
      (d : Discrete K) (j k : K) (m : M.Map)
      → M.lookup j (M.remove k m) ≡ ite (d k j) none (M.lookup j m)
  lookup-remove d j k m = elim (d k j) [
    | yes e ↦ rw (if_pos _ e, sym e) (M.lookup-remove_self k m)
    | no n ↦ rw (if_neg _ n) (M.lookup-remove_ne j k m n)
  ]

-- Functions meet the laws.
abbrev pub fun_map : {K V : Type 0} → Discrete K → StorageMap K V
fun_map {K} {V} d = record {
  Map = K → Option V;
  empty = λ k. none;
  lookup = λ k m. m k;
  insert = λ k v m j. ite (d k j) (some v) (m j);
  remove = λ k m j. ite (d k j) none (m j);
  lookup-empty = λ k. refl;
  lookup-insert_self = λ k v m. if_pos (d k k) refl _ _;
  lookup-insert_ne = λ j k v m n. if_neg (d k j) n _ _;
  lookup-remove_self = λ k m. if_pos (d k k) refl _ _;
  lookup-remove_ne = λ j k m n. if_neg (d k j) n _ _;
}

-- a storage item `Item: double_map hasher(..) K, hasher(..) L => V`
pub record StorageDoubleMap (K L V : Type 0) : Type 1 where
  pub Map : Type 0
  pub empty : Map
  pub lookup : K → L → Map → Option V
  pub insert : K → L → V → Map → Map
  pub remove_prefix : K → Map → Map
  pub lookup-empty : (k : K) (l : L) → lookup k l empty ≡ none
  pub lookup-insert_self : (k : K) (l : L) (v : V) (m : Map) → lookup k l (insert k l v m) ≡ some v
  pub lookup-insert_ne :
      (i k : K) (j l : L) (v : V) (m : Map)
      → ◌≢◌ {A = K × L} (k, l) (i, j)
      → lookup i j (insert k l v m) ≡ lookup i j m
  pub lookup-remove_prefix_self : (k : K) (l : L) (m : Map) → lookup k l (remove_prefix k m) ≡ none
  pub lookup-remove_prefix_ne :
      (i k : K) (j : L) (m : Map) → k ≢ i → lookup i j (remove_prefix k m) ≡ lookup i j m

module _ {K L V : Type 0} (M : StorageDoubleMap K L V) where
  -- `contains_key` of a double map
  abbrev pub contains_keys : K → L → M.Map → Bool
  contains_keys k l m = is_some (M.lookup k l m)

  pub lookup-insert_double :
      (d : Discrete (K × L)) (i k : K) (j l : L) (v : V) (m : M.Map)
      → M.lookup i j (M.insert k l v m) ≡ ite (d (k, l) (i, j)) (some v) (M.lookup i j m)
  lookup-insert_double d i k j l v m = elim (d (k, l) (i, j)) [
    | yes e ↦
        rw (if_pos _ e, sym (ap (λ (p : K × L). p.0) e), sym (ap (λ (p : K × L). p.1) e))
          (M.lookup-insert_self k l v m)
    | no n ↦ rw (if_neg _ n) (M.lookup-insert_ne i k j l v m n)
  ]

  pub lookup-remove_prefix :
      (d : Discrete K) (i k : K) (j : L) (m : M.Map)
      → M.lookup i j (M.remove_prefix k m) ≡ ite (d k i) none (M.lookup i j m)
  lookup-remove_prefix d i k j m = elim (d k i) [
    | yes e ↦ rw (if_pos _ e, sym e) (M.lookup-remove_prefix_self k j m)
    | no n ↦ rw (if_neg _ n) (M.lookup-remove_prefix_ne i k j m n)
  ]

abbrev pub fun_double_map :
    {K L V : Type 0} → Discrete K → Discrete (K × L) → StorageDoubleMap K L V
fun_double_map {K} {L} {V} d e = record {
  Map = K → L → Option V;
  empty = λ k l. none;
  lookup = λ k l m. m k l;
  insert = λ k l v m i j. ite (e (k, l) (i, j)) (some v) (m i j);
  remove_prefix = λ k m i j. ite (d k i) none (m i j);
  lookup-empty = λ k l. refl;
  lookup-insert_self = λ k l v m. if_pos (e (k, l) (k, l)) refl _ _;
  lookup-insert_ne = λ i k j l v m n. if_neg (e (k, l) (i, j)) n _ _;
  lookup-remove_prefix_self = λ k l m. if_pos (d k k) refl _ _;
  lookup-remove_prefix_ne = λ i k j m n. if_neg (d k i) n _ _;
}
