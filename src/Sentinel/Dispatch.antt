-- ===== src/Sentinel/Dispatch.antt =====
-- crates/sentinel/src/service.rs: `SentinelTransition::apply_transition`, which dispatches a message to its
-- handler, and `SentinelEncoder`, which turns an action into a transaction.
use shield_net.Prelude.{ℕ, Bool, Option, List, Bytes}
use shield_net.Core.Machine.{Message}
use shield_net.Core.Transactions.{Transaction}
use shield_net.Sentinel.Types.{
  B256, Address, State, Resume, engine_check_result, SentinelActionKind, approve_token, commit,
  reveal, finalize, claim, SentinelAction, Command,
}
use shield_net.Sentinel.Events.{
  SentinelEvents, transaction_proposed, new_request, committed, revealed, request_timed_out,
  oracle_result, dispute_triggered, dispute_resolved, arbitration_timed_out, dispute_out_of_scope,
  claimed,
}
use shield_net.Sentinel.Hashing.{SentinelTransition}
use shield_net.Sentinel.Voting.{
  handle_oracle_transaction_proposed, handle_engine_check_result, handle_new_request,
  handle_committed,
}
use shield_net.Sentinel.Tally.{handle_revealed, handle_block_advance}
use shield_net.Sentinel.Outcomes.{
  handle_resolved, handle_arbitration_timeout, handle_claimed, handle_request_timed_out,
  handle_dispute_triggered, handle_oracle_result,
}

unfoldable pub apply_event :
    SentinelTransition → State → (block : ℕ) → SentinelEvents → State × List Command
apply_event t s block (transaction_proposed e) = handle_oracle_transaction_proposed t s block e
apply_event t s block (new_request e) = handle_new_request t s e
apply_event t s block (committed e) = handle_committed t s e
apply_event t s block (revealed e) = handle_revealed t s e
apply_event t s block (request_timed_out id) = handle_request_timed_out s id
apply_event t s block (oracle_result e) = handle_oracle_result s e
apply_event t s block (dispute_triggered id deadline) = handle_dispute_triggered s id
apply_event t s block (dispute_resolved e) = handle_resolved s e
apply_event t s block (arbitration_timed_out id) = handle_arbitration_timeout s id
apply_event t s block (dispute_out_of_scope id context) = handle_arbitration_timeout s id
apply_event t s block (claimed e) = handle_claimed s e

unfoldable pub apply_transition :
    SentinelTransition → State → Message SentinelEvents Resume → State × List Command
unfolding apply_event
apply_transition t s (Message.new_block block) = handle_block_advance t s block
apply_transition t s (Message.event log) = apply_event t s log.block log.event
apply_transition t s (Message.resume (engine_check_result request_id outcome)) =
    handle_engine_check_result t s request_id outcome

-- The fields of `SentinelEncoder`, and the call encodings of `alloy`.
pub record SentinelEncoder : Type 0 where
  pub oracle : Address
  pub fee_token : Address
  pub abi_approve : (spender : Address) (amount : ℕ) → Bytes
  pub abi_commit : (request_id commit_hash : B256) → Bytes
  pub abi_reveal : (request_id : B256) (approve : Bool) (salt : B256) (reason : Bytes) → Bytes
  pub abi_finalize : (request_id : B256) → Bytes
  pub abi_claim : (request_id : B256) → Bytes

unfoldable pub encode_action_kind : SentinelEncoder → SentinelActionKind → Transaction
encode_action_kind c (approve_token bond) = record {
  to = c.fee_token;
  value = 0;
  calldata = c.abi_approve c.oracle bond;
  gas = 55_000;
}
encode_action_kind c (commit id hash) = record {
  to = c.oracle;
  value = 0;
  calldata = c.abi_commit id hash;
  gas = 250_000;
}
encode_action_kind c (reveal id approve salt reason) = record {
  to = c.oracle;
  value = 0;
  calldata = c.abi_reveal id approve salt reason;
  gas = 250_000;
}
encode_action_kind c (finalize id) = record {
  to = c.oracle;
  value = 0;
  calldata = c.abi_finalize id;
  gas = 250_000;
}
encode_action_kind c (claim id) = record {
  to = c.oracle;
  value = 0;
  calldata = c.abi_claim id;
  gas = 250_000;
}

unfoldable pub encode_action : SentinelEncoder → SentinelAction → Transaction × Option ℕ
unfolding encode_action_kind
encode_action c a = (encode_action_kind c a.kind, a.expires_at)
