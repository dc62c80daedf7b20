-- ===== src/Validator/Keygen/Complaints.antt =====
-- crates/validator/src/state/keygen.rs: complaints and the responses to them.
use shield_net.Prelude.{
  ℕ, ◌+◌, ◌-◌, Bool, true, ◌&&◌, Option, none, some, List, [], ◌∷◌, leb, ◌==◌, if◌then◌else◌, Map,
  get, insert, length, as_u16, saturating_add,
}
use shield_net.Validator.Epoch.{EpochId}
use shield_net.Validator.Types.{
  Address, Opaque, Group, KeyGenParticipation, KeyGenConfirmation, Complaint, ConfirmationDeadlines,
  RolloverState, State, Action, Command, action, Transition, KeyGenComplained,
  KeyGenComplaintResponded,
}
use shield_net.Validator.Groups.{also_exclude}
use shield_net.Validator.Keygen.Ceremony.{
  restart_key_gen_excluding, confirm_key_gen, commitments_of, fail_rollover,
}
use shield_net.Validator.Keygen.Collecting.{fresh_deadline}

-- `deadlines.as_ref().is_none_or(|deadlines| block <= deadlines.complain)`
abbrev pub can_complain : ℕ → Option ConfirmationDeadlines → Bool
can_complain block none = true
can_complain block (some deadlines) = leb block deadlines.complain

abbrev pub can_respond : ℕ → Option ConfirmationDeadlines → Bool
can_respond block none = true
can_respond block (some deadlines) = leb block deadlines.response

abbrev pub response_of : Option ConfirmationDeadlines → Option ℕ
response_of none = none
response_of (some deadlines) = some deadlines.response

-- `complaints.entry(accused).or_default()`, with one more complaint.
abbrev pub complained : Option Complaint → Complaint
complained none = record { total = 1; unresponded = 1 }
complained (some c) = record {
  total = as_u16 (c.total + 1);
  unresponded = as_u16 (c.unresponded + 1);
}

-- The response, if this validator takes part and is the one accused.
unfoldable pub reveal_to :
    Transition → Group → KeyGenParticipation → KeyGenComplained → Option ℕ → List Command
reveal_to t group (KeyGenParticipation.participating sharing_state) event expires_at =
    if event.accused == t.account
    then (elim (t.frost.reveal_secret_share sharing_state event.plaintiff) [
      | none ↦ []
      | some secret_share ↦
          action
            (Action.key_gen_complaint_response group.id event.plaintiff secret_share expires_at)
          ∷ []
    ])
    else []
reveal_to t group (KeyGenParticipation.observing _) event expires_at = []

-- The complaint is entered into the rollover by `put`; the deadlines are the restart's and the response's.
unfoldable pub complain :
    Transition
    → State
    → EpochId
    → Group
    → KeyGenParticipation
    → Map Complaint
    → (Map Complaint → RolloverState)
    → KeyGenComplained
    → Option ℕ
    → Option ℕ
    → State × List Command
unfolding restart_key_gen_excluding also_exclude reveal_to
complain t s epoch group participation complaints put event restart_deadline response_expires_at =
    let complaint = complained (get complaints event.accused) in
    let s' = record s { rollover = put (insert complaints event.accused complaint) } in
    if leb group.threshold complaint.total
    then restart_key_gen_excluding t s' epoch (also_exclude group ((event.accused, tt) ∷ []))
        restart_deadline
    else (s', reveal_to t group participation event response_expires_at)

abbrev pub some_deadline : Transition → ℕ → Option ConfirmationDeadlines → Option ℕ
some_deadline t block none = none
some_deadline t block (some _) = some (saturating_add block t.key_gen_timeout)

unfoldable pub complained_in :
    Transition → State → ℕ → KeyGenComplained → RolloverState → State × List Command
unfolding complain
complained_in t s block event
      (RolloverState.collecting_shares epoch group participation public_keys shares complaints
        deadline) =
    if group.id == event.gid
    then complain t s epoch group participation complaints
        (λ c.
          RolloverState.collecting_shares epoch group participation public_keys shares c deadline)
        event (fresh_deadline t block deadline) (fresh_deadline t block deadline)
    else (s, [])
complained_in t s block event
      (RolloverState.collecting_confirmations epoch group participation status confirmations
        complaints deadlines) =
    if group.id == event.gid && can_complain block deadlines
    then complain t s epoch group participation complaints
        (λ c.
          RolloverState.collecting_confirmations epoch group participation status confirmations c
            deadlines)
        event (some_deadline t block deadlines) (response_of deadlines)
    else (s, [])
complained_in t s block event _ = (s, [])

unfoldable pub handle_key_gen_complained :
    Transition → State → ℕ → KeyGenComplained → State × List Command
unfolding complained_in
handle_key_gen_complained t s block event = complained_in t s block event s.rollover

-- What a status collects, and the status with one more share.
abbrev pub with_share : Address → Opaque → KeyGenConfirmation → KeyGenConfirmation
with_share accused share (KeyGenConfirmation.collecting shares) =
    KeyGenConfirmation.collecting (insert shares accused share)
with_share accused share status = status

-- The key share, once the last share of a validator that still collects has come.
unfoldable pub finish_confirmation : Transition → State → RolloverState → State × List Command
unfolding confirm_key_gen
finish_confirmation t s
      (RolloverState.collecting_confirmations epoch group
        (KeyGenParticipation.participating sharing_state)
        (KeyGenConfirmation.collecting shares)
        confirmations
        complaints
        deadlines) =
    if as_u16 (length shares) == group.count
    then (elim (confirm_key_gen t epoch group sharing_state shares deadlines) [
      | none ↦ fail_rollover s epoch
      | some (status, commands) ↦ (
        record s {
          rollover =
              RolloverState.collecting_confirmations epoch group
                (KeyGenParticipation.participating sharing_state) status confirmations complaints
                deadlines;
        },
        commands,
      )
    ])
    else (s, [])
finish_confirmation t s _ = (s, [])

abbrev pub answered : Complaint → Complaint
answered c = record c { unresponded = c.unresponded - 1 }

-- `get_mut(&accused).filter(|complaint| complaint.unresponded > 0)`
abbrev pub open_complaint : Option Complaint → Option Complaint
open_complaint none = none
open_complaint (some c) = if leb 1 c.unresponded then some c else none

-- The answer to an open complaint. `put` enters the complaints and the share for the plaintiff.
unfoldable pub answer :
    Transition
    → State
    → ℕ
    → KeyGenComplaintResponded
    → EpochId
    → Group
    → KeyGenParticipation
    → Map Complaint
    → Option ℕ
    → (Map Complaint → Option Opaque → RolloverState)
    → Option Complaint
    → State × List Command
unfolding finish_confirmation restart_key_gen_excluding also_exclude
answer t s block event epoch group participation complaints deadline put none = (s, [])
answer t s block event epoch group participation complaints deadline put (some complaint) =
    elim (t.frost.verify_revealed_secret_share (commitments_of t participation) event.plaintiff
      event.accused event.secret_share) [
        | none ↦
            restart_key_gen_excluding t s epoch (also_exclude group ((event.accused, tt) ∷ []))
              (fresh_deadline t block deadline)
        | some share ↦
            let rollover' =
              put (insert complaints event.accused (answered complaint))
                (if event.plaintiff == t.account then some share else none) in
            finish_confirmation t (record s { rollover = rollover' }) rollover'
      ]

abbrev pub insert_share : Map Opaque → Address → Option Opaque → Map Opaque
insert_share shares accused none = shares
insert_share shares accused (some share) = insert shares accused share

abbrev pub status_with : Address → KeyGenConfirmation → Option Opaque → KeyGenConfirmation
status_with accused status none = status
status_with accused status (some share) = with_share accused share status

unfoldable pub responded_in :
    Transition → State → ℕ → KeyGenComplaintResponded → RolloverState → State × List Command
unfolding answer
responded_in t s block event
      (RolloverState.collecting_shares epoch group participation public_keys shares complaints
        deadline) =
    if group.id == event.gid
    then answer t s block event epoch group participation complaints deadline
        (λ c x.
          RolloverState.collecting_shares epoch group participation public_keys
            (insert_share shares event.accused x) c deadline)
        (open_complaint (get complaints event.accused))
    else (s, [])
responded_in t s block event
      (RolloverState.collecting_confirmations epoch group participation status confirmations
        complaints deadlines) =
    if group.id == event.gid && can_respond block deadlines
    then answer t s block event epoch group participation complaints (response_of deadlines)
        (λ c x.
          RolloverState.collecting_confirmations epoch group participation
            (status_with event.accused status x) confirmations c deadlines)
        (open_complaint (get complaints event.accused))
    else (s, [])
responded_in t s block event _ = (s, [])

unfoldable pub handle_key_gen_complaint_responded :
    Transition → State → ℕ → KeyGenComplaintResponded → State × List Command
unfolding responded_in
handle_key_gen_complaint_responded t s block event = responded_in t s block event s.rollover
