-- ===== src/Validator/Keygen/Ceremony.antt =====
-- crates/validator/src/state/keygen.rs: how a key generation starts, starts again, and closes its rounds.
use shield_net.Prelude.{ℕ, Option, none, some, List, [], ◌∷◌, Map, insert, saturating_mul}
use shield_net.Validator.Epoch.{EpochId, genesis, number, raw_value}
use shield_net.Validator.Types.{
  B256, KeyShare, Opaque, Set, Group, NonceState, KeyGenCommitment, KeyGenParticipation,
  KeyGenConfirmation, ConfirmationDeadlines, RolloverState, State, Callback, Action, Effect,
  Command, action, effect, ParticipantSet, Transition,
}
use shield_net.Validator.Nonces.{reserve_chunk}
use shield_net.Validator.Groups.{participants_set, GroupEpoch}
use shield_net.Validator.Participation.{participate_as, group_and_participants_tree}

abbrev pub next_epoch : RolloverState → Option EpochId
next_epoch RolloverState.waiting_for_genesis = some genesis
next_epoch RolloverState.halted = none
next_epoch (RolloverState.epoch_staged n) = some (number n)
next_epoch (RolloverState.epoch_skipped n) = some (number n)
next_epoch (RolloverState.collecting_commitments e _ _ _ _) = some e
next_epoch (RolloverState.collecting_shares e _ _ _ _ _ _) = some e
next_epoch (RolloverState.collecting_confirmations e _ _ _ _ _ _) = some e
next_epoch (RolloverState.signing_rollover n _ _ _) = some (number n)

-- `KeyGenParticipation::group_commitments`
abbrev pub commitments_of : Transition → KeyGenParticipation → Opaque
commitments_of t (KeyGenParticipation.participating sharing_state) =
    t.frost.sharing_commitments sharing_state
commitments_of t (KeyGenParticipation.observing group_commitments) = group_commitments

abbrev pub key_share_of : KeyGenConfirmation → Option KeyShare
key_share_of (KeyGenConfirmation.confirmed key_share) = some key_share
key_share_of _ = none

abbrev pub rollover_failure : EpochId → RolloverState
rollover_failure genesis = RolloverState.halted
rollover_failure (number n) = RolloverState.epoch_skipped n

abbrev pub fail_rollover : State → EpochId → State × List Command
fail_rollover s epoch = (record s { rollover = rollover_failure epoch }, [])

-- As an observer, once the group is computed.
abbrev pub observe_key_gen :
    State → EpochId → Option ℕ → Option (Group × List (List B256)) → State × List Command
observe_key_gen s epoch deadline none = (s, [])
observe_key_gen s epoch deadline (some (group, tree)) = (
  record s {
    rollover =
        RolloverState.collecting_commitments epoch group KeyGenCommitment.observing [] deadline;
  },
  [],
)

-- As a participant, once the proof is computed. A panic leaves the state as it was; it is unreachable for the
-- sets that `participants_set` returns.
unfoldable pub join_key_gen :
    Transition
    → State
    → EpochId
    → ParticipantSet
    → Option ℕ
    → Option (Option (Group × List B256))
    → State × List Command
join_key_gen t s epoch participants deadline none = (s, [])
join_key_gen t s epoch participants deadline (some none) =
    observe_key_gen s epoch deadline (group_and_participants_tree t.keccak256 participants)
join_key_gen t s epoch participants deadline (some (some (group, poap))) = (
  record s {
    rollover =
        RolloverState.collecting_commitments epoch group (KeyGenCommitment.participating poap none)
          [] deadline;
  },
  effect (Effect.key_gen_setup group.id group.count group.threshold) ∷ [],
)

unfoldable pub start_key_gen :
    Transition → State → EpochId → ParticipantSet → Option ℕ → State × List Command
unfolding join_key_gen
start_key_gen t s epoch participants deadline =
    join_key_gen t s epoch participants deadline (participate_as t.keccak256 participants t.account)

-- The participant set for a restart; genesis has none.
unfoldable pub remaining : Transition → EpochId → Set → Option ParticipantSet
remaining t genesis excluded = none
remaining t (number n) excluded =
    participants_set t.keccak256 t.participants (GroupEpoch.number t.consensus n excluded)

unfoldable pub restart_with :
    Transition → State → EpochId → Option ℕ → Option ParticipantSet → State × List Command
unfolding start_key_gen
restart_with t s epoch deadline none = fail_rollover s epoch
restart_with t s epoch deadline (some participants) = start_key_gen t s epoch participants deadline

unfoldable pub restart_key_gen_excluding :
    Transition → State → EpochId → Set → Option ℕ → State × List Command
unfolding remaining restart_with
restart_key_gen_excluding t s epoch excluded deadline =
    restart_with t s epoch deadline (remaining t epoch excluded)

-- The secret-share round that follows the commitments.
abbrev pub share_round : EpochId → Group → Option ℕ → KeyGenParticipation → RolloverState
share_round epoch group deadline participation =
    RolloverState.collecting_shares epoch group participation [] [] [] deadline

unfoldable pub finalize_key_gen_commitments :
    Transition
    → EpochId
    → Group
    → Option Opaque
    → Map Opaque
    → Option ℕ
    → RolloverState × List Command
finalize_key_gen_commitments t epoch group (some secrets) commitments deadline =
    elim (t.frost.generate_secret_shares secrets commitments) [
      | none ↦ (rollover_failure epoch, [])
      | some (sharing_state, share) ↦ (
        share_round epoch group deadline (KeyGenParticipation.participating sharing_state),
        action (Action.key_gen_secret_share group.id share deadline) ∷ [],
      )
    ]
finalize_key_gen_commitments t epoch group none commitments deadline =
    elim (t.frost.group_commitments commitments) [
      | none ↦ (rollover_failure epoch, [])
      | some group_commitments ↦
          (share_round epoch group deadline (KeyGenParticipation.observing group_commitments), [])
    ]

-- `NonceState::default()`
abbrev pub no_nonces : NonceState
no_nonces = record { next_sequence = 0; chunks = [] }

unfoldable pub finalize_key_gen : State → EpochId → Group → Option KeyShare → State × List Command
unfolding reserve_chunk
finalize_key_gen s epoch group none = (s, [])
finalize_key_gen s epoch group (some key_share) = (
  record s {
    epochs =
        insert s.epochs (raw_value epoch)
          (record { group = group; key_share = key_share; nonces = (reserve_chunk no_nonces).0 });
  },
  effect (Effect.nonce_tree group.id) ∷ [],
)

unfoldable pub key_gen_confirmation_callback : Transition → EpochId → Option Callback
unfolding saturating_mul
key_gen_confirmation_callback t genesis = none
key_gen_confirmation_callback t (number n) = some (record {
  target = t.consensus;
  context = t.abi_propose_epoch n (saturating_mul n t.blocks_per_epoch);
})

abbrev pub confirm_of : Option ConfirmationDeadlines → Option ℕ
confirm_of none = none
confirm_of (some deadlines) = some deadlines.confirm

unfoldable pub confirm_key_gen :
    Transition
    → EpochId
    → Group
    → Opaque
    → Map Opaque
    → Option ConfirmationDeadlines
    → Option (KeyGenConfirmation × List Command)
unfolding key_gen_confirmation_callback
confirm_key_gen t epoch group sharing_state shares deadlines =
    elim (t.frost.finalize sharing_state shares) [
      | none ↦ none
      | some key_share ↦ some (
        KeyGenConfirmation.confirmed key_share,
        action (
              Action.key_gen_confirm group.id (key_gen_confirmation_callback t epoch)
                (confirm_of deadlines))
            ∷ effect (Effect.start_nonce_generation group.id key_share)
            ∷ [],
      )
    ]
