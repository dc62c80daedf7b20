-- ===== src/Validator/Epoch.antt =====
-- crates/validator/src/consensus/epoch.rs. A `NonZeroU64` is a number; `from_raw` makes no other.
use shield_net.Prelude.{ℕ, zero, suc, ◌/◌, Option, none, some, ltb, if◌then◌else◌, saturating_add}

pub data EpochId : Type 0 where
  genesis : EpochId
  number : ℕ → EpochId

unfoldable pub next_number : ℕ → ℕ → ℕ
unfolding saturating_add
next_number block blocks_per_epoch = saturating_add 1 (block / blocks_per_epoch)

unfoldable pub from_raw : ℕ → EpochId
from_raw zero = genesis
from_raw (suc n) = number (suc n)

abbrev pub raw_value : EpochId → ℕ
raw_value genesis = 0
raw_value (number n) = n

unfoldable pub get_number : EpochId → Option ℕ
get_number genesis = none
get_number (number n) = some n

-- `Ord::min` by `cmp` on the raw values.
unfoldable pub min_epoch : EpochId → EpochId → EpochId
min_epoch a b = if ltb (raw_value b) (raw_value a) then b else a
