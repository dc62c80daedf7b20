-- ===== src/Validator/Keygen/Confirming.antt =====
-- crates/validator/src/state/keygen.rs: the round of confirmations, and the staged epoch.
use shield_net.Prelude.{
  ℕ, zero, suc, not, Option, none, some, List, [], ◌==◌, if◌then◌else◌, Map, get, insert, length,
  saturating_add, saturating_mul, as_u16,
}
use shield_net.Validator.Epoch.{EpochId, genesis, number, raw_value, next_number}
use shield_net.Validator.Types.{
  B256, Address, KeyShare, Opaque, Group, Epoch, KeyGenParticipation, Packet, SigningState,
  RolloverState, State, Command, ParticipantSet, Transition, KeyGenConfirmed, EpochStaged,
}
use shield_net.Validator.Groups.{participants_set, GroupEpoch}
use shield_net.Validator.Sign.{handle_sign_attested}
use shield_net.Validator.Keygen.Ceremony.{
  start_key_gen, finalize_key_gen, commitments_of, key_share_of,
}
use shield_net.Validator.Keygen.Collecting.{prefixed}

-- consensus/hashing.rs
unfoldable pub epoch_rollover_hash : Transition → EpochId → ℕ → ℕ → Opaque → B256
epoch_rollover_hash t active_epoch proposed_epoch rollover_block group_key =
    t.epoch_rollover_signing_hash (raw_value active_epoch) proposed_epoch rollover_block group_key

-- The first regular key generation, right after genesis.
abbrev pub first_key_gen : Transition → State → ℕ → ℕ → Option ParticipantSet → State × List Command
first_key_gen t s block n none = (s, [])
first_key_gen t s block n (some participants) =
    start_key_gen t s (number n) participants (some (saturating_add block t.key_gen_timeout))

unfoldable pub confirm_genesis :
    Transition → State → ℕ → Group → Option KeyShare → State × List Command
unfolding next_number finalize_key_gen
confirm_genesis t s block group key_share =
    let n = next_number block t.blocks_per_epoch in
    let (s', commands) =
      finalize_key_gen (record s { rollover = RolloverState.epoch_skipped n }) genesis group
        key_share in
    prefixed commands (
      first_key_gen t s' block n
        (participants_set t.keccak256 t.participants (GroupEpoch.number t.consensus n [])))

-- The rollover packet, where this validator is part of the active epoch.
abbrev pub register_rollover :
    Transition
    → State
    → ℕ
    → Address
    → B256
    → ℕ
    → ℕ
    → B256
    → Opaque
    → Option Epoch
    → Map SigningState
register_rollover t s block participant message n rollover_block group_id group_key none = s.signing
register_rollover t s block participant message n rollover_block group_id group_key (some e) =
    insert s.signing message (
      SigningState.waiting_for_request e.key_share e.group.id (some participant)
        (Packet.epoch_rollover s.active_epoch n rollover_block group_id group_key)
        e.group.participants (saturating_add block t.signing_timeout))

unfoldable pub rollover_block_of : Transition → ℕ → ℕ
unfolding saturating_mul
rollover_block_of t n = saturating_mul n t.blocks_per_epoch

-- The hash that the active epoch signs for the group of epoch `n`.
unfoldable pub rollover_message : Transition → State → ℕ → KeyGenParticipation → B256
unfolding epoch_rollover_hash rollover_block_of
rollover_message t s n participation =
    epoch_rollover_hash t s.active_epoch n (rollover_block_of t n)
      (t.frost.group_key (commitments_of t participation))

unfoldable pub confirm_regular :
    Transition
    → State
    → ℕ
    → Address
    → ℕ
    → Group
    → KeyGenParticipation
    → Option KeyShare
    → State × List Command
unfolding rollover_message
confirm_regular t s block participant n group participation key_share =
    let group_key = t.frost.group_key (commitments_of t participation) in
    let message = rollover_message t s n participation in
    (
      record s {
        signing =
            register_rollover t s block participant message n (rollover_block_of t n) group.id
              group_key (get s.epochs (raw_value s.active_epoch));
        rollover = RolloverState.signing_rollover n group key_share message;
      },
      [],
    )

unfoldable pub confirm_all :
    Transition
    → State
    → ℕ
    → Address
    → EpochId
    → Group
    → KeyGenParticipation
    → Option KeyShare
    → State × List Command
unfolding confirm_genesis confirm_regular
confirm_all t s block participant genesis group participation key_share =
    confirm_genesis t s block group key_share
confirm_all t s block participant (number n) group participation key_share =
    confirm_regular t s block participant n group participation key_share

unfoldable pub confirmed_in :
    Transition → State → ℕ → KeyGenConfirmed → RolloverState → State × List Command
unfolding confirm_all
confirmed_in t s block event
      (RolloverState.collecting_confirmations epoch group participation status confirmations
        complaints deadlines) =
    let confirmations' = insert confirmations event.participant tt in
    if group.id == event.gid
    then (if not (as_u16 (length confirmations') == group.count)
        then (
          record s {
            rollover =
                RolloverState.collecting_confirmations epoch group participation status
                  confirmations' complaints deadlines;
          },
          [],
        )
        else confirm_all t s block event.participant epoch group participation
            (key_share_of status))
    else (s, [])
confirmed_in t s block event _ = (s, [])

unfoldable pub handle_key_gen_confirmed :
    Transition → State → ℕ → KeyGenConfirmed → State × List Command
unfolding confirmed_in
handle_key_gen_confirmed t s block event = confirmed_in t s block event s.rollover

-- `NonZeroU64::new(proposed_epoch)`
abbrev pub skip_to : ℕ → RolloverState
skip_to zero = RolloverState.halted
skip_to (suc n) = RolloverState.epoch_skipped (suc n)

abbrev pub after_attested : B256 → State × List Command → State × List Command
after_attested message (s, commands) = prefixed commands (handle_sign_attested s message)

unfoldable pub staged_in : State → EpochStaged → RolloverState → State × List Command
unfolding finalize_key_gen handle_sign_attested
staged_in s event (RolloverState.signing_rollover n group key_share message) =
    if group.id == event.group_id
    then after_attested message (
        finalize_key_gen (record s { rollover = RolloverState.epoch_staged n }) (number n) group
          key_share)
    else (s, [])
staged_in s event RolloverState.waiting_for_genesis =
    (record s { rollover = skip_to event.proposed_epoch }, [])
staged_in s event _ = (s, [])

unfoldable pub handle_epoch_staged : State → EpochStaged → State × List Command
unfolding staged_in
handle_epoch_staged s event = staged_in s event s.rollover
