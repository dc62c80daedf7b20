-- ===== src/Sentinel/Events.antt =====
-- crates/sentinel/src/bindings.rs: the events of the oracle and of the consensus contract, with the fields that
-- the handlers read or pass on.
use shield_net.Prelude.{ℕ, Bool, Bytes}
use shield_net.Sentinel.Types.{B256, Address, SafeTransaction}

pub data OracleRequestState : Type 0 where
  none pending frozen resolved_approved resolved_denied timed_out : OracleRequestState

pub record NewRequest : Type 0 where
  pub request_id : B256
  pub sponsor : Address
  pub fee : ℕ
  pub bond_target : ℕ
  pub slash_amount : ℕ
  pub commit_deadline : ℕ
  pub reveal_deadline : ℕ

pub record Committed : Type 0 where
  pub request_id : B256
  pub sentinel : Address
  pub bond_amount : ℕ

pub record Revealed : Type 0 where
  pub request_id : B256
  pub sentinel : Address
  pub approved : Bool
  pub bond_amount : ℕ
  pub reason : Bytes

pub record DisputeResolved : Type 0 where
  pub request_id : B256
  pub outcome : OracleRequestState
  pub slashed : ℕ
  pub context : Bytes

pub record OracleResult : Type 0 where
  pub request_id : B256
  pub sponsor : Address
  pub outcome : Bytes
  pub approved : Bool

pub record Claimed : Type 0 where
  pub request_id : B256
  pub sentinel : Address
  pub bond_return : ℕ
  pub fee_reward : ℕ

pub record TransactionProposed : Type 0 where
  pub safe_tx_hash : B256
  pub safe_id : B256
  pub oracle : Address
  pub epoch : ℕ
  pub oracle_data : Bytes
  pub transaction : SafeTransaction

pub data SentinelEvents : Type 0 where
  transaction_proposed : TransactionProposed → SentinelEvents
  new_request : NewRequest → SentinelEvents
  committed : Committed → SentinelEvents
  revealed : Revealed → SentinelEvents
  request_timed_out : (request_id : B256) → SentinelEvents
  oracle_result : OracleResult → SentinelEvents
  dispute_triggered : (request_id : B256) (deadline : ℕ) → SentinelEvents
  dispute_resolved : DisputeResolved → SentinelEvents
  arbitration_timed_out : (request_id : B256) → SentinelEvents
  dispute_out_of_scope : (request_id : B256) (context : Bytes) → SentinelEvents
  claimed : Claimed → SentinelEvents
