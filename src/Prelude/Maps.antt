-- ===== src/Prelude/Maps.antt =====
-- `BTreeMap` with keys that order like numbers, as the ascending list of its entries.
use Prim.Native.Nat.{ℕ, suc, ◌≤◌, ◌<◌}
use mathlib.Core.Path.{◌≡◌, refl}
use mathlib.Core.Bool.{Bool, true, false}
use mathlib.Core.Option.{Option, none, some}
use mathlib.Core.List.{List, [], ◌∷◌}
use native.Mathlib.Omega.{arith}
use shield_net.Prelude.Tests.{ltb, ◌==◌, if◌then◌else◌}

abbrev pub Map {ℓ} : Type ℓ → Type ℓ
Map V = List (ℕ × V)

module _ {ℓ} {A : Type ℓ} where
  abbrev pub length : List A → ℕ
  length [] = 0
  length (x ∷ xs) = suc (length xs)

module _ {ℓ} {V : Type ℓ} where
  unfoldable pub get : Map V → ℕ → Option V
  get [] k = none
  get ((j, v) ∷ m) k = if j == k then some v else get m k

  unfoldable pub contains_key : Map V → ℕ → Bool
  unfolding get
  contains_key m k = elim (get m k) [ none ↦ false | some v ↦ true ]

  unfoldable pub insert : Map V → ℕ → V → Map V
  insert [] k v = (k, v) ∷ []
  insert ((j, w) ∷ m) k v =
      let rest = insert m k v in
      if ltb k j then (k, v) ∷ (j, w) ∷ m else if j == k then (k, v) ∷ m else (j, w) ∷ rest

  unfoldable pub remove : Map V → ℕ → Map V
  remove [] k = []
  remove ((j, w) ∷ m) k = let rest = remove m k in if j == k then rest else (j, w) ∷ rest

  -- `map.split_off(&k)`: the entries at `k` and above.
  unfoldable pub split_off : Map V → ℕ → Map V
  split_off [] k = []
  split_off ((j, w) ∷ m) k = let rest = split_off m k in if ltb j k then rest else (j, w) ∷ rest

  -- The entries below `k`.
  unfoldable pub below : Map V → ℕ → Map V
  below [] k = []
  below ((j, w) ∷ m) k = let rest = below m k in if ltb j k then (j, w) ∷ rest else rest

  unfoldable pub last_key_value : Map V → Option (ℕ × V)
  last_key_value [] = none
  last_key_value (e ∷ []) = some e
  last_key_value (e ∷ f ∷ m) = last_key_value (f ∷ m)

  -- Every key lies above `k`.
  abbrev pub Above : ℕ → Map V → Type 0
  Above k [] = Unit
  Above k ((j, v) ∷ m) = (k < j) × Above k m

  abbrev pub IsSorted : Map V → Type 0
  IsSorted [] = Unit
  IsSorted ((j, v) ∷ m) = Above j m × IsSorted m

module _ {ℓ} {V : Type ℓ} where
  pub get-insert :
      (m : Map V) (k j : ℕ) (v : V) → get (insert m k v) j ≡ (if k == j then some v else get m j)
  unfolding get insert
  get-insert [] k j v = ground arith
  get-insert ((i, w) ∷ m) k j v = ground (arith, get-insert m k j v)

  pub get-remove : (m : Map V) (k j : ℕ) → get (remove m k) j ≡ (if k == j then none else get m j)
  unfolding get remove
  get-remove [] k j = ground arith
  get-remove ((i, w) ∷ m) k j = ground (arith, get-remove m k j)

  pub get-split_off :
      (m : Map V) (k j : ℕ) → get (split_off m k) j ≡ (if ltb j k then none else get m j)
  unfolding get split_off
  get-split_off [] k j = ground arith
  get-split_off ((i, w) ∷ m) k j = ground (arith, get-split_off m k j)

  pub Above-trans : (m : Map V) (i j : ℕ) → i ≤ j → Above j m → Above i m
  Above-trans [] i j h a = tt
  Above-trans ((k, v) ∷ m) i j h a = (omega arith, Above-trans m i j h a.1)

  pub get_of_Above : (m : Map V) (k j : ℕ) → j ≤ k → Above k m → get m j ≡ none
  unfolding get
  get_of_Above [] k j h a = refl
  get_of_Above ((i, v) ∷ m) k j h a = ground (arith, get_of_Above m k j h a.1)

  Above-insert : (m : Map V) (i k : ℕ) (v : V) → i < k → Above i m → Above i (insert m k v)
  unfolding insert
  Above-insert [] i k v h a = (h, tt)
  Above-insert ((j, w) ∷ m) i k v h a = ground (arith, Above-insert m i k v h a.1)

  pub insert-IsSorted : (m : Map V) (k : ℕ) (v : V) → IsSorted m → IsSorted (insert m k v)
  unfolding insert
  insert-IsSorted [] k v s = (tt, tt)
  insert-IsSorted ((j, w) ∷ m) k v s =
      ground (arith, insert-IsSorted m k v s.1, Above-insert m j k v, Above-trans m k j)

  Above-remove : (m : Map V) (i k : ℕ) → Above i m → Above i (remove m k)
  unfolding remove
  Above-remove [] i k a = tt
  Above-remove ((j, w) ∷ m) i k a = ground (arith, Above-remove m i k a.1)

  pub remove-IsSorted : (m : Map V) (k : ℕ) → IsSorted m → IsSorted (remove m k)
  unfolding remove
  remove-IsSorted [] k s = tt
  remove-IsSorted ((j, w) ∷ m) k s = ground (arith, remove-IsSorted m k s.1, Above-remove m j k s.0)

  Above-split_off : (m : Map V) (i k : ℕ) → Above i m → Above i (split_off m k)
  unfolding split_off
  Above-split_off [] i k a = tt
  Above-split_off ((j, w) ∷ m) i k a = ground (arith, Above-split_off m i k a.1)

  pub split_off-IsSorted : (m : Map V) (k : ℕ) → IsSorted m → IsSorted (split_off m k)
  unfolding split_off
  split_off-IsSorted [] k s = tt
  split_off-IsSorted ((j, w) ∷ m) k s =
      ground (arith, split_off-IsSorted m k s.1, Above-split_off m j k s.0)

  pub get-below : (m : Map V) (k j : ℕ) → get (below m k) j ≡ (if ltb j k then get m j else none)
  unfolding get below
  get-below [] k j = ground arith
  get-below ((i, w) ∷ m) k j = ground (arith, get-below m k j)

  Above-below : (m : Map V) (i k : ℕ) → Above i m → Above i (below m k)
  unfolding below
  Above-below [] i k a = tt
  Above-below ((j, w) ∷ m) i k a = ground (arith, Above-below m i k a.1)

  pub below-IsSorted : (m : Map V) (k : ℕ) → IsSorted m → IsSorted (below m k)
  unfolding below
  below-IsSorted [] k s = tt
  below-IsSorted ((j, w) ∷ m) k s = ground (arith, below-IsSorted m k s.1, Above-below m j k s.0)

  pub get_of_not-contains_key : (m : Map V) (k : ℕ) → contains_key m k ≡ false → get m k ≡ none
  unfolding contains_key
  get_of_not-contains_key m k h = ground arith

  pub contains_key_of_get : (m : Map V) (k : ℕ) (v : V) → get m k ≡ some v → contains_key m k ≡ true
  unfolding contains_key
  contains_key_of_get m k v h = ground arith

  pub contains_key_of_not-get : (m : Map V) (k : ℕ) → get m k ≡ none → contains_key m k ≡ false
  unfolding contains_key
  contains_key_of_not-get m k h = ground arith

  pub get-cons :
      (m : Map V) (j k : ℕ) (v : V) → get ((j, v) ∷ m) k ≡ (if j == k then some v else get m k)
  unfolding get
  get-cons m j k v = refl
