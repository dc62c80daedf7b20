-- ===== src/Sentinel/Voting.antt =====
-- crates/sentinel/src/service.rs: the handlers up to the commitment of a vote.
use shield_net.Prelude.{
  ℕ, ◌+◌, ◌%◌, ◌^◌, Bool, true, false, not, ◌&&◌, Option, none, some, List, [], ◌∷◌, ◌==◌,
  if◌then◌else◌, get, insert, remove, saturating_add, Bytes,
}
use shield_net.Sentinel.Types.{
  B256, Request, waiting_for_engine_check, waiting_for_request, collecting_commitments, State,
  CheckOutcome, approved, denied, unknown, engine_check, approve_token, commit, Command, action,
  effect,
}
use shield_net.Sentinel.Events.{TransactionProposed, NewRequest, Committed}
use shield_net.Sentinel.Engine.{rule_to_string}
use shield_net.Sentinel.Hashing.{
  SentinelTransition, reveal_salt, commit_hash, oracle_tx_proposal_hash,
}

-- The request id of a proposal.
unfoldable pub proposal_id : SentinelTransition → TransactionProposed → B256
unfolding oracle_tx_proposal_hash
proposal_id t e = oracle_tx_proposal_hash t e.epoch e.oracle e.oracle_data e.safe_tx_hash

unfoldable pub handle_oracle_transaction_proposed :
    SentinelTransition → State → (block : ℕ) → TransactionProposed → State × List Command
unfolding proposal_id
handle_oracle_transaction_proposed t s block event =
    if not (event.oracle == t.oracle) then (s, []) else (elim (get s (proposal_id t event)) [
      | some entry ↦ (s, [])
      | none ↦
          let deadline = saturating_add block t.voting_window in
          (
            insert s (proposal_id t event) (waiting_for_engine_check deadline none),
            effect (engine_check (proposal_id t event) event.transaction block) ∷ [],
          )
    ])

unfoldable pub commit_vote :
    SentinelTransition
    → State
    → B256
    → (approve : Bool) (reason : Bytes) → Request
    → State × List Command
unfolding reveal_salt commit_hash
commit_vote t s request_id approve reason request =
    let salt = reveal_salt t request_id in
    let hash = commit_hash t.keccak256 t.account request_id approve salt reason in
    (
      insert s request_id (
          collecting_commitments approve reason request.slash_amount request.commit_deadline
            request.reveal_deadline 0 false),
      action (record {
        kind = approve_token request.bond_target;
        expires_at = some request.commit_deadline;
      })
          ∷ action
              (record { kind = commit request_id hash; expires_at = some request.commit_deadline })
          ∷ [],
    )

-- The vote that an outcome asks for.
unfoldable pub vote_of : CheckOutcome → Option (Bool × Bytes)
unfolding rule_to_string
vote_of approved = some (true, [])
vote_of (denied rule) = some (false, rule_to_string rule)
vote_of unknown = none

unfoldable pub handle_engine_check_result :
    SentinelTransition → State → B256 → CheckOutcome → State × List Command
unfolding commit_vote vote_of
handle_engine_check_result t s request_id outcome =
    let removed = remove s request_id in
    elim (get s request_id) [
      | none ↦ (removed, [])
      | some (waiting_for_engine_check deadline request) ↦ elim (vote_of outcome) [
        | none ↦ (removed, [])
        | some (approve, reason) ↦ elim request [
          | some request ↦ commit_vote t removed request_id approve reason request
          | none ↦ (insert removed request_id (waiting_for_request approve reason deadline), [])
        ]
      ]
      | some entry ↦ (insert removed request_id entry, [])
    ]

unfoldable pub request_of : NewRequest → Request
request_of event = record {
  bond_target = event.bond_target;
  slash_amount = event.slash_amount;
  commit_deadline = event.commit_deadline;
  reveal_deadline = event.reveal_deadline;
}

unfoldable pub handle_new_request : SentinelTransition → State → NewRequest → State × List Command
unfolding commit_vote request_of
handle_new_request t s event =
    let removed = remove s event.request_id in
    elim (get s event.request_id) [
      | some (waiting_for_request approve reason deadline) ↦
          commit_vote t removed event.request_id approve reason (request_of event)
      | some (waiting_for_engine_check deadline none) ↦ (
        insert removed event.request_id
            (waiting_for_engine_check deadline (some (request_of event))),
        [],
      )
      | some entry ↦ (insert removed event.request_id entry, [])
      | none ↦ (removed, [])
    ]

-- `*count += 1` on a `u64`, without overflow checks
abbrev pub increment : ℕ → ℕ
increment n = (n + 1) % 2 ^ 64

unfoldable pub handle_committed : SentinelTransition → State → Committed → State × List Command
handle_committed t s event = elim (get s event.request_id) [
  | some
        (collecting_commitments approve reason slash_amount commit_deadline reveal_deadline
          committed_count self_committed) ↦
      (
        insert s event.request_id (
            collecting_commitments approve reason slash_amount commit_deadline reveal_deadline
              (increment committed_count)
              (if not self_committed && (event.sentinel == t.account)
                then true
                else self_committed)),
        [],
      )
  | some entry ↦ (s, [])
  | none ↦ (s, [])
]
