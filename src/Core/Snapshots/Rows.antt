-- ===== src/Core/Snapshots/Rows.antt =====
-- Which rows of the snapshot table a query leaves.
use shield_net.Prelude.{
  ℕ, ◌≤◌, ◌<◌, ◌≡◌, refl, ◌||◌, none, some, [], ◌∷◌, arith, leb, if◌then◌else◌, Map, get,
  last_key_value,
}
use shield_net.Core.Snapshots.{keep_rows, delete_below}

module _ {T : Type 0} where
  pub get-keep_rows :
      (m : Map T) (safe max k : ℕ)
      → get (keep_rows m safe max) k ≡ (if leb safe k || leb max k then get m k else none)
  unfolding get keep_rows
  get-keep_rows [] safe max k = ground arith
  get-keep_rows ((j, v) ∷ m) safe max k = ground (arith, get-keep_rows m safe max k)

  last-cons :
      (e : ℕ × T) (m : Map T) (x : ℕ × T)
      → last_key_value m ≡ some x
      → last_key_value (e ∷ m) ≡ some x
  unfolding last_key_value
  last-cons e [] x h = ground arith
  last-cons e (f ∷ m) x h = h

  pub last-keep_rows :
      (m : Map T) (safe max : ℕ) (v : T)
      → last_key_value m ≡ some (max, v)
      → last_key_value (keep_rows m safe max) ≡ some (max, v)
  unfolding last_key_value keep_rows
  last-keep_rows [] safe max v h = ground arith
  last-keep_rows ((k, w) ∷ []) safe max v h = ground arith
  last-keep_rows ((k, w) ∷ f ∷ m) safe max v h = ground (
    arith,
    last-keep_rows (f ∷ m) safe max v h,
    last-cons (k, w) (keep_rows (f ∷ m) safe max) (max, v),
  )

  pub last-delete_below :
      (m : Map T) (safe : ℕ) → last_key_value (delete_below m safe) ≡ last_key_value m
  unfolding delete_below
  last-delete_below m safe =
      (elim (last_key_value m)
          as (λ o. last_key_value m ≡ o → last_key_value (delete_below m safe) ≡ o) [
            | none ↦ λ e. ground (arith, e)
            | some (max, v) ↦ λ e. ground (arith, e, last-keep_rows m safe max v e)
          ])
        refl

  -- A row at `safe` or above stays as it is.
  pub get-delete_below : (m : Map T) (safe k : ℕ) → safe ≤ k → get (delete_below m safe) k ≡ get m k
  unfolding delete_below
  get-delete_below m safe k h =
      (elim (last_key_value m)
          as (λ o. last_key_value m ≡ o → get (delete_below m safe) k ≡ get m k) [
            | none ↦ λ e. ground (arith, e)
            | some (max, v) ↦ λ e. ground (arith, e, get-keep_rows m safe max k)
          ])
        refl

  -- A row below both `safe` and the last row is gone.
  pub get-delete_below_old :
      (m : Map T) (safe k latest : ℕ) (v : T)
      → last_key_value m ≡ some (latest, v)
      → k < safe
      → k < latest
      → get (delete_below m safe) k ≡ none
  unfolding delete_below
  get-delete_below_old m safe k latest v e h l = ground (arith, e, get-keep_rows m safe latest k)
