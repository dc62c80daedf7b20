-- ===== src/Sentinel/Pointwise.antt =====
-- crates/sentinel/src/service.rs against the life of one request: the transition treats every request on its
-- own.
use shield_net.Prelude.{
  ℕ, ◌≡◌, List, arith, ◌==◌, Bytes, if◌then◌else◌, get, get-insert, get-remove, IsSorted,
  insert-IsSorted, remove-IsSorted,
}
use shield_net.Sentinel.Types.{B256, State, CheckOutcome, Command}
use shield_net.Sentinel.Events.{
  TransactionProposed, NewRequest, Committed, Revealed, DisputeResolved, OracleResult,
  transaction_proposed, new_request, committed, revealed, request_timed_out, oracle_result,
  dispute_triggered, dispute_resolved, arbitration_timed_out, dispute_out_of_scope,
}
use shield_net.Sentinel.Hashing.{SentinelTransition}
use shield_net.Sentinel.Voting.{
  proposal_id, commit_vote, handle_oracle_transaction_proposed, handle_engine_check_result,
  handle_new_request, handle_committed,
}
use shield_net.Sentinel.Tally.{set_entry, handle_revealed}
use shield_net.Sentinel.Outcomes.{
  handle_resolved, handle_arbitration_timeout, handle_request_timed_out, handle_dispute_triggered,
  handle_oracle_result,
}
use shield_net.Sentinel.Lifecycle.{Step, react, answer}

-- A handler's result is the reaction of the one entry at `k`.
pub record Reacts (s : State) (k : B256) (r : State × List Command) (after : Step) : Type 0 where
  pub entries : (j : B256) → get r.0 j ≡ (if k == j then after.0 else get s j)
  pub commands : r.1 ≡ after.1
  pub sorted : IsSorted s → IsSorted r.0

module _ (t : SentinelTransition) (s : State) (block : ℕ) where
  pub handle_oracle_transaction_proposed-Reacts :
      (e : TransactionProposed)
      → Reacts s
          (proposal_id t e)
          (handle_oracle_transaction_proposed t s block e)
          (react t (proposal_id t e) block (transaction_proposed e) (get s (proposal_id t e)))
  unfolding handle_oracle_transaction_proposed react
  handle_oracle_transaction_proposed-Reacts e = record {
    entries = λ j. grind (arith, get-insert);
    commands = ground arith;
    sorted = λ h. grind (arith, insert-IsSorted, h);
  }

  pub handle_committed-Reacts :
      (e : Committed)
      → Reacts s e.request_id
          (handle_committed t s e)
          (react t e.request_id block (committed e) (get s e.request_id))
  unfolding handle_committed react
  handle_committed-Reacts e = record {
    entries = λ j. grind (arith, get-insert);
    commands = ground arith;
    sorted = λ h. grind (arith, insert-IsSorted, h);
  }

  pub handle_new_request-Reacts :
      (e : NewRequest)
      → Reacts s e.request_id
          (handle_new_request t s e)
          (react t e.request_id block (new_request e) (get s e.request_id))
  unfolding handle_new_request react
  handle_new_request-Reacts e = record {
    entries = λ j. grind (arith, get-insert, get-remove);
    commands = ground arith;
    sorted = λ h. grind (arith, insert-IsSorted, remove-IsSorted, h);
  }

  pub handle_revealed-Reacts :
      (e : Revealed)
      → Reacts s e.request_id
          (handle_revealed t s e)
          (react t e.request_id block (revealed e) (get s e.request_id))
  unfolding handle_revealed react set_entry
  handle_revealed-Reacts e = record {
    entries = λ j. grind (arith, get-insert, get-remove);
    commands = ground arith;
    sorted = λ h. grind (arith, insert-IsSorted, remove-IsSorted, h);
  }

  pub handle_request_timed_out-Reacts :
      (id : B256)
      → Reacts s id
          (handle_request_timed_out s id)
          (react t id block (request_timed_out id) (get s id))
  unfolding handle_request_timed_out react
  handle_request_timed_out-Reacts id = record {
    entries = λ j. grind (arith, get-insert, get-remove);
    commands = ground arith;
    sorted = λ h. grind (arith, insert-IsSorted, remove-IsSorted, h);
  }

  pub handle_oracle_result-Reacts :
      (e : OracleResult)
      → Reacts s e.request_id
          (handle_oracle_result s e)
          (react t e.request_id block (oracle_result e) (get s e.request_id))
  unfolding handle_oracle_result react
  handle_oracle_result-Reacts e = record {
    entries = λ j. grind (arith, get-insert, get-remove);
    commands = ground arith;
    sorted = λ h. grind (arith, insert-IsSorted, remove-IsSorted, h);
  }

  pub handle_dispute_triggered-Reacts :
      (id : B256) (deadline : ℕ)
      → Reacts s id
          (handle_dispute_triggered s id)
          (react t id block (dispute_triggered id deadline) (get s id))
  unfolding handle_dispute_triggered react
  handle_dispute_triggered-Reacts id deadline = record {
    entries = λ j. grind (arith, get-insert, get-remove);
    commands = ground arith;
    sorted = λ h. grind (arith, insert-IsSorted, remove-IsSorted, h);
  }

  pub handle_resolved-Reacts :
      (e : DisputeResolved)
      → Reacts s e.request_id
          (handle_resolved s e)
          (react t e.request_id block (dispute_resolved e) (get s e.request_id))
  unfolding handle_resolved react
  handle_resolved-Reacts e = record {
    entries = λ j. grind (arith, get-insert, get-remove);
    commands = ground arith;
    sorted = λ h. grind (arith, insert-IsSorted, remove-IsSorted, h);
  }

  pub handle_arbitration_timeout-Reacts :
      (id : B256)
      → Reacts s id
          (handle_arbitration_timeout s id)
          (react t id block (arbitration_timed_out id) (get s id))
  unfolding handle_arbitration_timeout react
  handle_arbitration_timeout-Reacts id = record {
    entries = λ j. grind (arith, get-insert, get-remove);
    commands = ground arith;
    sorted = λ h. grind (arith, insert-IsSorted, remove-IsSorted, h);
  }

  pub handle_arbitration_timeout-Reacts_scope :
      (id : B256) (context : Bytes)
      → Reacts s id
          (handle_arbitration_timeout s id)
          (react t id block (dispute_out_of_scope id context) (get s id))
  unfolding handle_arbitration_timeout react
  handle_arbitration_timeout-Reacts_scope id context = record {
    entries = λ j. grind (arith, get-insert, get-remove);
    commands = ground arith;
    sorted = λ h. grind (arith, insert-IsSorted, remove-IsSorted, h);
  }

  pub handle_engine_check_result-Reacts :
      (id : B256) (outcome : CheckOutcome)
      → Reacts s id (handle_engine_check_result t s id outcome) (answer t id outcome (get s id))
  unfolding handle_engine_check_result answer commit_vote
  handle_engine_check_result-Reacts id outcome = record {
    entries = λ j. grind (arith, get-insert, get-remove);
    commands = ground arith;
    sorted = λ h. grind (arith, insert-IsSorted, remove-IsSorted, h);
  }
