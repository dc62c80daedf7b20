-- ===== src/Core/Snapshots.antt =====
-- crates/core/src/state/storage.rs: the snapshot table. A row is an entry of a map from the block
-- number to the encoded state; a query is the operation on the map that its SQL text says.
-- A transaction that is dropped leaves the table of its caller.
pub mod Rows
pub mod Recover
use shield_net.Prelude.{
  ℕ, suc, ◌-◌, ◌^◌, Bool, ◌||◌, Option, none, some, List, [], ◌∷◌, leb, ltb, if◌then◌else◌, Map,
  get, insert, below, last_key_value, Result, ok, err, ok_or, ◌>>=◌, checked_sub,
}

pub data Error : Type 0 where
  serialization block_number_overflow : Error
  missing_snapshot : ℕ → Error

-- `serde_json` at the state's type: a dependency of the crate.
pub record Codec (S T : Type 0) : Type 0 where
  pub to_string : S → Option T
  pub from_str : T → Option S

pub record BlockStatus : Type 0 where
  pub latest : ℕ
  pub safe : ℕ

abbrev pub i64_max : ℕ
i64_max = 2 ^ 63 - 1

-- `i64::try_from(block_number)?`
unfoldable pub to_i64 : ℕ → Result Error ℕ
to_i64 n = if ltb i64_max n then err block_number_overflow else ok n

module _ {S T : Type 0} (codec : Codec S T) where
  unfoldable pub decode_row : Option (ℕ × T) → Result Error (Option (ℕ × S))
  decode_row none = ok none
  decode_row (some (n, text)) = do s ← ok_or serialization (codec.from_str text); ok (some (n, s))

  -- ORDER BY block_number DESC LIMIT 1
  unfoldable pub current : Map T → Result Error (Option (ℕ × S))
  unfolding decode_row
  current m = decode_row (last_key_value m)

  unfoldable pub commit : Map T → ℕ → S → Result Error (Map T)
  unfolding to_i64
  commit m block_number s = do
    text ← ok_or serialization (codec.to_string s)
    n ← to_i64 block_number
    ok (insert m n text)

  -- The table that is left, the parent block and its state.
  unfoldable pub reorg : Map T → ℕ → Result Error (Map T × ℕ × S)
  unfolding to_i64 checked_sub
  reorg m uncle = do
    parent ← ok_or block_number_overflow (checked_sub uncle 1)
    n ← to_i64 uncle
    let kept = below m n
    p ← to_i64 parent
    text ← ok_or (missing_snapshot parent) (get kept p)
    s ← ok_or serialization (codec.from_str text)
    ok (kept, parent, s)

module _ {T : Type 0} where
  first_key : Map T → Option ℕ
  first_key [] = none
  first_key ((k, v) ∷ m) = some k

  -- SELECT MIN(block_number), MAX(block_number)
  unfoldable pub status : Map T → Option BlockStatus
  unfolding first_key
  status m = elim (first_key m) [
    | none ↦ none
    | some safe ↦ elim (last_key_value m) [
      | none ↦ none
      | some (latest, v) ↦ some (record { latest = latest; safe = safe })
    ]
  ]

  -- DELETE WHERE block_number < safe AND block_number < max
  unfoldable pub keep_rows : Map T → ℕ → ℕ → Map T
  keep_rows [] safe max = []
  keep_rows ((k, v) ∷ m) safe max =
      let rest = keep_rows m safe max in if leb safe k || leb max k then (k, v) ∷ rest else rest

  unfoldable pub delete_below : Map T → ℕ → Map T
  unfolding keep_rows
  delete_below m safe = elim (last_key_value m) [ none ↦ m | some (max, v) ↦ keep_rows m safe max ]

  unfoldable pub prune : Map T → ℕ → Result Error (Map T)
  unfolding to_i64 delete_below
  prune m safe_block = do n ← to_i64 safe_block; ok (delete_below m n)
