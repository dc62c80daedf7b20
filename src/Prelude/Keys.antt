-- ===== src/Prelude/Keys.antt =====
-- Bounds on the keys of a map: what lies below a key, and what is last.
use Prim.Native.Nat.{ℕ, ◌+◌, ◌≤◌, ◌<◌}
use mathlib.Core.Path.{◌≡◌, refl}
use mathlib.Core.Option.{none, some}
use mathlib.Core.List.{[], ◌∷◌}
use native.Mathlib.Omega.{arith}
use shield_net.Prelude.Maps.{Map, get, insert, below, split_off, last_key_value, Above, IsSorted}

-- Every key lies below `k`.
abbrev pub KeysBelow {ℓ} : {V : Type ℓ} → ℕ → Map V → Type 0
KeysBelow k [] = Unit
KeysBelow k ((j, v) ∷ m) = (j < k) × KeysBelow k m

module _ {ℓ} {V : Type ℓ} where
  pub KeysBelow-mono : (m : Map V) (i k : ℕ) → i ≤ k → KeysBelow i m → KeysBelow k m
  KeysBelow-mono [] i k h b = tt
  KeysBelow-mono ((j, v) ∷ m) i k h b = (omega arith, KeysBelow-mono m i k h b.1)

  pub below-KeysBelow : (m : Map V) (k : ℕ) → KeysBelow k (below m k)
  unfolding below
  below-KeysBelow [] k = tt
  below-KeysBelow ((j, w) ∷ m) k = ground (arith, below-KeysBelow m k)

  pub insert-KeysBelow :
      (m : Map V) (i k : ℕ) (v : V) → k < i → KeysBelow i m → KeysBelow i (insert m k v)
  unfolding insert
  insert-KeysBelow [] i k v h b = (h, tt)
  insert-KeysBelow ((j, w) ∷ m) i k v h b = ground (arith, insert-KeysBelow m i k v h b.1)

  pub below_self : (m : Map V) (k : ℕ) → KeysBelow k m → below m k ≡ m
  unfolding below
  below_self [] k b = refl
  below_self ((j, w) ∷ m) k b = ground (arith, below_self m k b.1)

  -- What is put at `l` or above does not show below `l`.
  pub below-insert : (m : Map V) (k l : ℕ) (v : V) → l ≤ k → below (insert m k v) l ≡ below m l
  unfolding below insert
  below-insert [] k l v h = ground arith
  below-insert ((j, w) ∷ m) k l v h = ground (arith, below-insert m k l v h)

  pub below-below : (m : Map V) (k l : ℕ) → l ≤ k → below (below m k) l ≡ below m l
  unfolding below
  below-below [] k l h = refl
  below-below ((j, w) ∷ m) k l h = ground (arith, below-below m k l h)

  -- What is put above every key is last.
  pub last_key_value-insert :
      (m : Map V) (k : ℕ) (v : V) → KeysBelow k m → last_key_value (insert m k v) ≡ some (k, v)
  unfolding insert last_key_value
  last_key_value-insert [] k v b = refl
  last_key_value-insert ((j, w) ∷ []) k v b = ground arith
  last_key_value-insert ((j, w) ∷ (i, u) ∷ m) k v b =
      ground (arith, last_key_value-insert ((i, u) ∷ m) k v b.1)

  pub get_of_KeysBelow : (m : Map V) (k j : ℕ) → k ≤ j → KeysBelow k m → get m j ≡ none
  unfolding get
  get_of_KeysBelow [] k j h b = refl
  get_of_KeysBelow ((i, v) ∷ m) k j h b = ground (arith, get_of_KeysBelow m k j h b.1)

  pub last-le : (m : Map V) (j l : ℕ) (v : V) → Above j m → last_key_value m ≡ some (l, v) → j < l
  unfolding last_key_value
  last-le [] j l v a h = ground arith
  last-le ((i, w) ∷ []) j l v a h = ground arith
  last-le ((i, w) ∷ e ∷ m) j l v a h = last-le (e ∷ m) j l v a.1 h

  -- The last key is the greatest.
  pub KeysBelow-of_last :
      (m : Map V) (l : ℕ) (v : V)
      → IsSorted m
      → last_key_value m ≡ some (l, v)
      → KeysBelow (l + 1) m
  unfolding last_key_value
  KeysBelow-of_last [] l v s h = tt
  KeysBelow-of_last ((i, w) ∷ []) l v s h = (ground arith, tt)
  KeysBelow-of_last ((i, w) ∷ e ∷ m) l v s h =
      (omega (arith, last-le (e ∷ m) i l v s.0 h), KeysBelow-of_last (e ∷ m) l v s.1 h)

  pub eq_nil_of_last : (m : Map V) → last_key_value m ≡ none → m ≡ []
  unfolding last_key_value
  eq_nil_of_last [] h = refl
  eq_nil_of_last (e ∷ []) h = ground (arith, h)
  eq_nil_of_last (e ∷ f ∷ m) h = ground (arith, eq_nil_of_last (f ∷ m) h)

  pub split_off-insert :
      (m : Map V) (k c : ℕ) (v : V)
      → c ≤ k
      → split_off (insert m k v) c ≡ insert (split_off m c) k v
  unfolding split_off insert
  split_off-insert [] k c v h = ground arith
  split_off-insert ((i, w) ∷ m) k c v h = ground (arith, split_off-insert m k c v h)
