-- ===== src/Validator/Keygen/Collecting.antt =====
-- crates/validator/src/state/keygen.rs: the round of commitments.
use shield_net.Prelude.{
  ℕ, Bool, true, false, not, ◌&&◌, Option, none, some, List, [], ◌∷◌, ◌++◌, ◌==◌, if◌then◌else◌,
  Map, insert, contains_key, length, saturating_add, as_u16,
}
use shield_net.Validator.Epoch.{EpochId}
use shield_net.Validator.Types.{
  B256, Opaque, Group, KeyGenCommitment, RolloverState, State, Action, Command, action, Transition,
  KeyGen, KeyGenCommitted,
}
use shield_net.Validator.Participation.{group_and_participants_tree}
use shield_net.Validator.Keygen.Ceremony.{start_key_gen, finalize_key_gen_commitments}

-- `deadline.map(|_| block.saturating_add(key_gen_timeout))`
abbrev pub fresh_deadline : Transition → ℕ → Option ℕ → Option ℕ
fresh_deadline t block none = none
fresh_deadline t block (some _) = some (saturating_add block t.key_gen_timeout)

-- `self.genesis.group().id()`; `none` is the panic of `group`.
unfoldable pub is_genesis_group : Transition → B256 → Bool
is_genesis_group t gid = elim (group_and_participants_tree t.keccak256 t.genesis) [
  | none ↦ false
  | some (group, tree) ↦ gid == group.id
]

abbrev pub is_waiting_for_genesis : RolloverState → Bool
is_waiting_for_genesis RolloverState.waiting_for_genesis = true
is_waiting_for_genesis _ = false

unfoldable pub handle_genesis_key_gen : Transition → State → KeyGen → State × List Command
unfolding is_genesis_group start_key_gen
handle_genesis_key_gen t s event =
    if is_waiting_for_genesis s.rollover && is_genesis_group t event.gid
    then start_key_gen t s EpochId.genesis t.genesis none
    else (s, [])

-- `deadline.map(|deadline| deadline.saturating_add(key_gen_timeout))`
abbrev pub extended_deadline : Transition → Option ℕ → Option ℕ
extended_deadline t none = none
extended_deadline t (some deadline) = some (saturating_add deadline t.key_gen_timeout)

abbrev pub set_rollover : State → RolloverState × List Command → State × List Command
set_rollover s (rollover, commands) = (record s { rollover = rollover }, commands)

abbrev pub prefixed : List Command → State × List Command → State × List Command
prefixed commands (s, more) = (s, commands ++ more)

-- The setup of the group that is collecting commitments.
unfoldable pub set_up :
    Transition
    → State
    → EpochId
    → Group
    → List B256
    → Map Opaque
    → Option ℕ
    → Opaque
    → State × List Command
unfolding finalize_key_gen_commitments
set_up t s epoch group poap commitments deadline secrets =
    let commands =
      if contains_key commitments t.account
      then []
      else action (
          Action.key_gen_and_commit group.root group.count group.threshold group.context poap
            (t.frost.commitment secrets) deadline)
        ∷ [] in
    if not (as_u16 (length commitments) == group.count)
    then (
      record s {
        rollover =
            RolloverState.collecting_commitments epoch group
              (KeyGenCommitment.participating poap (some secrets)) commitments deadline;
      },
      commands,
    )
    else prefixed commands (
        set_rollover s (
          finalize_key_gen_commitments t epoch group (some secrets) commitments
            (extended_deadline t deadline)))

unfoldable pub setup_in : Transition → State → B256 → Opaque → RolloverState → State × List Command
unfolding set_up
setup_in t s group_id secrets
      (RolloverState.collecting_commitments epoch group
        (KeyGenCommitment.participating poap none)
        commitments
        deadline) =
    if group_id == group.id
    then set_up t s epoch group poap commitments deadline secrets
    else (s, [])
setup_in t s group_id secrets _ = (s, [])

unfoldable pub handle_key_gen_setup : Transition → State → B256 → Opaque → State × List Command
unfolding setup_in
handle_key_gen_setup t s group_id secrets = setup_in t s group_id secrets s.rollover

abbrev pub insert_valid : Map Opaque → ℕ → Option Opaque → Map Opaque
insert_valid m participant none = m
insert_valid m participant (some v) = insert m participant v

-- All have committed: the round closes, unless this validator's own setup is still to come.
unfoldable pub close_commitments :
    Transition
    → State
    → ℕ
    → EpochId
    → Group
    → KeyGenCommitment
    → Map Opaque
    → Option ℕ
    → State × List Command
unfolding finalize_key_gen_commitments
close_commitments t s block epoch group KeyGenCommitment.observing commitments deadline =
    set_rollover s (
      finalize_key_gen_commitments t epoch group none commitments (fresh_deadline t block deadline))
close_commitments t s block epoch group (KeyGenCommitment.participating poap (some secrets))
      commitments deadline =
    set_rollover s (
      finalize_key_gen_commitments t epoch group (some secrets) commitments
        (fresh_deadline t block deadline))
close_commitments t s block epoch group (KeyGenCommitment.participating poap none) commitments
      deadline =
    (
      record s {
        rollover =
            RolloverState.collecting_commitments epoch group
              (KeyGenCommitment.participating poap none) commitments deadline;
      },
      [],
    )

unfoldable pub committed_in :
    Transition → State → ℕ → KeyGenCommitted → RolloverState → State × List Command
unfolding close_commitments
committed_in t s block event
      (RolloverState.collecting_commitments epoch group secrets commitments deadline) =
    let commitments' =
      insert_valid commitments event.participant
        (t.frost.verify_commitment event.participant event.commitment) in
    if group.id == event.gid
    then (if not (as_u16 (length commitments') == group.count)
        then (
          record s {
            rollover =
                RolloverState.collecting_commitments epoch group secrets commitments' deadline;
          },
          [],
        )
        else close_commitments t s block epoch group secrets commitments' deadline)
    else (s, [])
committed_in t s block event _ = (s, [])

unfoldable pub handle_key_gen_committed :
    Transition → State → ℕ → KeyGenCommitted → State × List Command
unfolding committed_in
handle_key_gen_committed t s block event = committed_in t s block event s.rollover
