-- ===== src/Sentinel/Outcomes.antt =====
-- crates/sentinel/src/service.rs: the handlers of what the oracle decides on a request.
use shield_net.Prelude.{none, some, List, [], ◌∷◌, get, insert, remove}
use shield_net.Sentinel.Types.{
  B256, waiting_for_dispute_resolution, approve_and_slash_amount, State, claim, Command, action,
}
use shield_net.Sentinel.Events.{DisputeResolved, OracleResult, Claimed}

abbrev pub claim_action : B256 → Command
claim_action id = action (record { kind = claim id; expires_at = none })

unfoldable pub handle_resolved : State → DisputeResolved → State × List Command
handle_resolved s event =
    let removed = remove s event.request_id in
    elim (get s event.request_id) [
      | some (waiting_for_dispute_resolution approve slash_amount) ↦
          (removed, claim_action event.request_id ∷ [])
      | some entry ↦ (insert removed event.request_id entry, [])
      | none ↦ (removed, [])
    ]

unfoldable pub handle_arbitration_timeout : State → B256 → State × List Command
handle_arbitration_timeout s request_id =
    let removed = remove s request_id in
    elim (get s request_id) [
      | some entry ↦ (removed, claim_action request_id ∷ [])
      | none ↦ (removed, [])
    ]

-- Only the metrics read the event.
unfoldable pub handle_claimed : State → Claimed → State × List Command
handle_claimed s event = (s, [])

unfoldable pub handle_request_timed_out : State → B256 → State × List Command
unfolding approve_and_slash_amount
handle_request_timed_out s request_id =
    let removed = remove s request_id in
    elim (get s request_id) [
      | none ↦ (removed, [])
      | some entry ↦ elim (approve_and_slash_amount entry) [
        | none ↦ (removed, [])
        | some (approve, slash_amount) ↦ (removed, claim_action request_id ∷ [])
      ]
    ]

unfoldable pub handle_dispute_triggered : State → B256 → State × List Command
unfolding approve_and_slash_amount
handle_dispute_triggered s request_id =
    let removed = remove s request_id in
    elim (get s request_id) [
      | none ↦ (removed, [])
      | some entry ↦ elim (approve_and_slash_amount entry) [
        | none ↦ (removed, [])
        | some (approve, slash_amount) ↦
            (insert removed request_id (waiting_for_dispute_resolution approve slash_amount), [])
      ]
    ]

unfoldable pub handle_oracle_result : State → OracleResult → State × List Command
unfolding approve_and_slash_amount
handle_oracle_result s event =
    let removed = remove s event.request_id in
    elim (get s event.request_id) [
      | none ↦ (removed, [])
      | some entry ↦ elim (approve_and_slash_amount entry) [
        | none ↦ (removed, [])
        | some (approve, slash_amount) ↦ (removed, claim_action event.request_id ∷ [])
      ]
    ]
