-- ===== src/Sentinel/Tally.antt =====
-- crates/sentinel/src/service.rs: the reveals, the deadlines and the step that finalizes a request.
use shield_net.Prelude.{
  ℕ, true, false, not, ◌&&◌, Option, none, some, List, [], ◌∷◌, ◌++◌, leb, ltb, ◌==◌, if◌then◌else◌,
  get, insert, remove,
}
use shield_net.Sentinel.Types.{
  B256, Request, SentinelRequestState, waiting_for_engine_check, waiting_for_request,
  collecting_commitments, collecting_votes, waiting_for_outcome, waiting_for_dispute_resolution,
  State, reveal, finalize, Command, action,
}
use shield_net.Sentinel.Events.{Revealed}
use shield_net.Sentinel.Hashing.{SentinelTransition, reveal_salt}
use shield_net.Sentinel.Voting.{increment}

-- `SentinelTransition::finalize`
unfoldable pub finalize_votes :
    SentinelRequestState → B256 → Option SentinelRequestState × List Command
finalize_votes
      (collecting_votes approve slash_amount reveal_deadline committed_count revealed_count
        approve_count deny_count self_revealed)
      request_id =
    let timed_out = revealed_count == 0 in
    if not self_revealed && not timed_out then (none, []) else (
      some (waiting_for_outcome approve slash_amount),
      action (record { kind = finalize request_id; expires_at = none }) ∷ [],
    )
finalize_votes state request_id = (none, [])

unfoldable pub set_entry : State → B256 → Option SentinelRequestState → State
set_entry s id none = remove s id
set_entry s id (some entry) = insert s id entry

-- The counters after a reveal, and what they come to.
unfoldable pub tally_reveal :
    SentinelTransition
    → B256
    → SentinelRequestState
    → Revealed
    → Option (Option SentinelRequestState × List Command)
unfolding finalize_votes
tally_reveal t id
      (collecting_votes approve slash_amount reveal_deadline committed_count revealed_count
        approve_count deny_count self_revealed)
      event =
    let counted =
      collecting_votes approve slash_amount reveal_deadline committed_count
        (increment revealed_count)
        (if event.approved then increment approve_count else approve_count)
        (if event.approved then deny_count else increment deny_count)
        (if event.sentinel == t.account then true else self_revealed) in
    some (
      if ltb (increment revealed_count) committed_count
      then (some counted, [])
      else finalize_votes counted id)
tally_reveal t id entry event = none

unfoldable pub handle_revealed : SentinelTransition → State → Revealed → State × List Command
unfolding tally_reveal set_entry
handle_revealed t s event = elim (get s event.request_id) [
  | none ↦ (s, [])
  | some entry ↦ elim (tally_reveal t event.request_id entry event) [
    | none ↦ (s, [])
    | some (update, actions) ↦ (set_entry s event.request_id update, actions)
  ]
]

-- `request.as_ref().map_or(*deadline, |request| request.commit_deadline)`
abbrev pub engine_cutoff : ℕ → Option Request → ℕ
engine_cutoff deadline none = deadline
engine_cutoff deadline (some request) = request.commit_deadline

-- The closure of `retain`: the entry that stays, and the actions that it pushes.
unfoldable pub advance_entry :
    SentinelTransition
    → ℕ
    → B256
    → SentinelRequestState
    → Option SentinelRequestState × List Command
unfolding finalize_votes reveal_salt
advance_entry t block id (waiting_for_engine_check deadline request) = (
  if leb block (engine_cutoff deadline request)
      then some (waiting_for_engine_check deadline request)
      else none,
  [],
)
advance_entry t block id (waiting_for_request approve reason deadline) =
    (if leb block deadline then some (waiting_for_request approve reason deadline) else none, [])
advance_entry t block id
      (collecting_commitments approve reason slash_amount commit_deadline reveal_deadline
        committed_count self_committed) =
    if leb block commit_deadline
    then (
      some (
          collecting_commitments approve reason slash_amount commit_deadline reveal_deadline
            committed_count self_committed),
      [],
    )
    else if not self_committed
    then (none, [])
    else (
      some (collecting_votes approve slash_amount reveal_deadline committed_count 0 0 0 false),
      action (record {
        kind = reveal id approve (reveal_salt t id) reason;
        expires_at = some reveal_deadline;
      })
          ∷ [],
    )
advance_entry t block id
      (collecting_votes approve slash_amount reveal_deadline committed_count revealed_count
        approve_count deny_count self_revealed) =
    let entry =
      collecting_votes approve slash_amount reveal_deadline committed_count revealed_count
        approve_count deny_count self_revealed in
    if leb block reveal_deadline then (some entry, []) else finalize_votes entry id
advance_entry t block id (waiting_for_outcome approve slash_amount) =
    (some (waiting_for_outcome approve slash_amount), [])
advance_entry t block id (waiting_for_dispute_resolution approve slash_amount) =
    (some (waiting_for_dispute_resolution approve slash_amount), [])

unfoldable pub put_back : B256 → Option SentinelRequestState → State → State
put_back id none m = m
put_back id (some entry) m = (id, entry) ∷ m

-- `retain` visits the entries of a hash map in no order that it promises; here it is that of their keys.
unfoldable pub handle_block_advance : SentinelTransition → State → ℕ → State × List Command
unfolding advance_entry put_back
handle_block_advance t [] block = ([], [])
handle_block_advance t ((id, entry) ∷ s) block =
    let (kept, actions) = advance_entry t block id entry in
    let (rest, more) = handle_block_advance t s block in (put_back id kept rest, actions ++ more)
