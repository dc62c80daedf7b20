-- ===== src/Validator/Keygen/Sharing.antt =====
-- crates/validator/src/state/keygen.rs: the round of secret shares.
use shield_net.Prelude.{
  ℕ, not, Option, none, some, List, [], ◌∷◌, ◌++◌, ◌==◌, if◌then◌else◌, Map, insert, length,
  saturating_add, saturating_mul, as_u16,
}
use shield_net.Validator.Epoch.{EpochId}
use shield_net.Validator.Types.{
  Opaque, Group, KeyGenParticipation, KeyGenConfirmation, Complaint, ConfirmationDeadlines,
  RolloverState, State, Action, Command, action, Transition, KeyGenSecretShared,
}
use shield_net.Validator.Keygen.Ceremony.{confirm_key_gen, commitments_of, fail_rollover}
use shield_net.Validator.Keygen.Collecting.{fresh_deadline}

-- What a verified or rejected encrypted share does: the shares and the complaint.
unfoldable pub receive_share :
    Transition
    → ℕ
    → Group
    → KeyGenParticipation
    → Option ℕ
    → ℕ
    → Map Opaque
    → Option (Opaque × Opaque)
    → Map Opaque × List Command
receive_share t block group (KeyGenParticipation.participating sharing_state) deadline participant
      shares (some (public_key, encrypted)) =
    elim (t.frost.verify_encrypted_secret_share sharing_state participant encrypted) [
      | some share ↦ (insert shares participant share, [])
      | none ↦ (
        shares,
        action (Action.key_gen_complain group.id participant (fresh_deadline t block deadline))
            ∷ [],
      )
    ]
receive_share t block group _ deadline participant shares _ = (shares, [])

abbrev pub insert_public_key : Map Opaque → ℕ → Option (Opaque × Opaque) → Map Opaque
insert_public_key m participant none = m
insert_public_key m participant (some (public_key, encrypted)) = insert m participant public_key

unfoldable pub confirmation_deadlines : Transition → ℕ → Option ℕ → Option ConfirmationDeadlines
unfolding saturating_mul
confirmation_deadlines t block none = none
confirmation_deadlines t block (some _) = some (record {
  complain = saturating_add block t.key_gen_timeout;
  response = saturating_add block (saturating_mul t.key_gen_timeout 2);
  confirm = saturating_add block (saturating_mul t.key_gen_timeout 3);
})

-- The confirmation round, with the status of this validator and the commands that confirm it.
unfoldable pub confirmation_round :
    Transition
    → State
    → EpochId
    → Group
    → KeyGenParticipation
    → Map Complaint
    → Option ConfirmationDeadlines
    → List Command
    → Option (KeyGenConfirmation × List Command)
    → State × List Command
confirmation_round t s epoch group participation complaints deadlines commands none =
    fail_rollover s epoch
confirmation_round t s epoch group participation complaints deadlines commands
      (some (status, more)) =
    (
      record s {
        rollover =
            RolloverState.collecting_confirmations epoch group participation status [] complaints
              deadlines;
      },
      commands ++ more,
    )

-- The status in which a validator enters the confirmation round.
unfoldable pub first_status :
    Transition
    → EpochId
    → Group
    → KeyGenParticipation
    → Map Opaque
    → Option ConfirmationDeadlines
    → Option (KeyGenConfirmation × List Command)
unfolding confirm_key_gen
first_status t epoch group (KeyGenParticipation.participating sharing_state) shares deadlines =
    if as_u16 (length shares) == group.count
    then confirm_key_gen t epoch group sharing_state shares deadlines
    else some (KeyGenConfirmation.collecting shares, [])
first_status t epoch group (KeyGenParticipation.observing group_commitments) shares deadlines =
    some (KeyGenConfirmation.observing, [])

unfoldable pub secret_shared_in :
    Transition → State → ℕ → KeyGenSecretShared → RolloverState → State × List Command
unfolding receive_share confirmation_deadlines confirmation_round first_status
secret_shared_in t s block event
      (RolloverState.collecting_shares epoch group participation public_keys shares complaints
        deadline) =
    let verified =
      t.frost.verify_secret_share (commitments_of t participation) event.participant event.share in
    let public_keys' = insert_public_key public_keys event.participant verified in
    let (shares', commands) =
      receive_share t block group participation deadline event.participant shares verified in
    let deadlines = confirmation_deadlines t block deadline in
    if group.id == event.gid
    then (if not (as_u16 (length public_keys') == group.count)
        then (
          record s {
            rollover =
                RolloverState.collecting_shares epoch group participation public_keys' shares'
                  complaints deadline;
          },
          commands,
        )
        else confirmation_round t s epoch group participation complaints deadlines commands
            (first_status t epoch group participation shares' deadlines))
    else (s, [])
secret_shared_in t s block event _ = (s, [])

unfoldable pub handle_key_gen_secret_shared :
    Transition → State → ℕ → KeyGenSecretShared → State × List Command
unfolding secret_shared_in
handle_key_gen_secret_shared t s block event = secret_shared_in t s block event s.rollover
