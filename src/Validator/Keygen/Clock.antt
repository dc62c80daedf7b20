-- ===== src/Validator/Keygen/Clock.antt =====
-- crates/validator/src/state/keygen.rs: what a new block does to the rollover.
use shield_net.Prelude.{
  ℕ, Bool, true, false, not, ◌&&◌, Option, none, some, List, [], ◌∷◌, leb, ◌==◌, if◌then◌else◌, Map,
  length, as_u16, saturating_add,
}
use shield_net.Validator.Epoch.{EpochId, number, get_number, next_number}
use shield_net.Validator.Types.{
  Set, KeyGenCommitment, Complaint, RolloverState, State, Command, ParticipantSet, Transition,
}
use shield_net.Validator.Groups.{participants_set, GroupEpoch, also_exclude, exclude_all_others}
use shield_net.Validator.Keygen.Ceremony.{
  next_epoch, start_key_gen, restart_key_gen_excluding, fail_rollover,
}

-- `rollover.next_epoch().and_then(|epoch| epoch.number())`
unfoldable pub target_epoch : RolloverState → Option ℕ
unfolding get_number
target_epoch rollover = elim (next_epoch rollover) [ none ↦ none | some e ↦ get_number e ]

-- A staged epoch becomes the active one.
abbrev pub activate : State → ℕ → RolloverState → State
activate s target (RolloverState.epoch_staged n) = record s { active_epoch = number target }
activate s target _ = s

abbrev pub fresh_key_gen : Transition → State → ℕ → ℕ → Option ParticipantSet → State × List Command
fresh_key_gen t s block n none = (record s { rollover = RolloverState.epoch_skipped n }, [])
fresh_key_gen t s block n (some participants) =
    start_key_gen t s (number n) participants (some (saturating_add block t.key_gen_timeout))

unfoldable pub roll_over : Transition → State → ℕ → Option ℕ → State × List Command
unfolding next_number
roll_over t s block none = (s, [])
roll_over t s block (some target) =
    let next = next_number block t.blocks_per_epoch in
    if leb next target
    then (s, [])
    else fresh_key_gen t (activate s target s.rollover) block next
        (participants_set t.keccak256 t.participants (GroupEpoch.number t.consensus next []))

unfoldable pub handle_rollover_new_block : Transition → State → ℕ → State × List Command
unfolding roll_over target_epoch
handle_rollover_new_block t s block = roll_over t s block (target_epoch s.rollover)

-- `keys()`
unfoldable pub key_set {ℓ} : {V : Type ℓ} → Map V → Set
key_set [] = []
key_set ((k, v) ∷ rest) = (k, tt) ∷ key_set rest

unfoldable pub unresponded_to : Map Complaint → Set
unresponded_to [] = []
unresponded_to ((k, c) ∷ rest) =
    let others = unresponded_to rest in if leb 1 c.unresponded then (k, tt) ∷ others else others

abbrev pub is_empty {ℓ} : {V : Type ℓ} → Map V → Bool
is_empty [] = true
is_empty (e ∷ rest) = false

-- A round that everyone committed to, without this validator's own setup.
unfoldable pub stuck_epoch : RolloverState → ℕ → Option EpochId
stuck_epoch
      (RolloverState.collecting_commitments epoch group
        (KeyGenCommitment.participating poap none)
        commitments
        (some deadline))
      block =
    if leb deadline block && (as_u16 (length commitments) == group.count) then some epoch else none
stuck_epoch _ block = none

-- The epoch whose round has stalled, with what its restart excludes.
unfoldable pub stalled_round : RolloverState → ℕ → Option (EpochId × Set)
unfolding key_set unresponded_to exclude_all_others also_exclude
stalled_round (RolloverState.collecting_commitments epoch group secrets commitments (some deadline))
      block =
    if leb deadline block
    then some (epoch, exclude_all_others group (key_set commitments))
    else none
stalled_round
      (RolloverState.collecting_shares epoch group participation public_keys shares complaints
        (some deadline))
      block =
    if leb deadline block
    then some (epoch, exclude_all_others group (key_set public_keys))
    else none
stalled_round
      (RolloverState.collecting_confirmations epoch group participation status confirmations
        complaints
        (some deadlines))
      block =
    let unresponded = unresponded_to complaints in
    if leb deadlines.response block && not (is_empty unresponded)
    then some (epoch, also_exclude group unresponded)
    else if leb deadlines.confirm block
    then some (epoch, exclude_all_others group confirmations)
    else none
stalled_round _ block = none

abbrev pub restart_stalled : Transition → State → ℕ → Option (EpochId × Set) → State × List Command
restart_stalled t s block none = (s, [])
restart_stalled t s block (some (epoch, excluded)) =
    restart_key_gen_excluding t s epoch excluded (some (saturating_add block t.key_gen_timeout))

unfoldable pub handle_key_gen_timeouts : Transition → State → ℕ → State × List Command
unfolding stuck_epoch stalled_round
handle_key_gen_timeouts t s block = elim (stuck_epoch s.rollover block) [
  | some epoch ↦ fail_rollover s epoch
  | none ↦ restart_stalled t s block (stalled_round s.rollover block)
]
