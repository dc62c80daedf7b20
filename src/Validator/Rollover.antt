-- ===== src/Validator/Rollover.antt =====
-- The epochs over a run: the active one, and the one that the rollover works toward.
pub mod Onward
pub mod Ahead
pub mod Turns
pub mod Lineage
pub mod Service
use shield_net.Prelude.{ℕ, ◌<◌, ◌≡◌, ◌⊎◌, Bool, true, false, Option, none, some}
use shield_net.Validator.Epoch.{EpochId, genesis, number, raw_value}
use shield_net.Validator.Types.{RolloverState, State}
use shield_net.Validator.Keygen.{next_epoch}

-- A group whose key generation is over: it is signed for or staged.
abbrev pub is_settled : RolloverState → Bool
is_settled (RolloverState.epoch_staged n) = true
is_settled (RolloverState.signing_rollover n g k m) = true
is_settled _ = false

-- The active epoch stays, and the target too, unless the rollover halts; and no group is settled.
abbrev pub Onward : State → State → Type 0
Onward s s' =
    (s'.active_epoch ≡ s.active_epoch)
    × ((next_epoch s'.rollover ≡ next_epoch s.rollover) ⊎ (s'.rollover ≡ RolloverState.halted))
    × ((s'.rollover ≡ s.rollover) ⊎ (is_settled s'.rollover ≡ false))

-- The target lies after the active epoch; before genesis has completed, genesis is both.
abbrev pub Targets : EpochId → Option EpochId → Type 0
Targets active none = Unit
Targets active (some genesis) = active ≡ genesis
Targets active (some (number n)) = raw_value active < n

abbrev pub IsAhead : State → Type 0
IsAhead s = Targets s.active_epoch (next_epoch s.rollover)
