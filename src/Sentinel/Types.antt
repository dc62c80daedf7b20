-- ===== src/Sentinel/Types.antt =====
-- crates/sentinel/src/{state,action,effect,bindings}.rs and engine.rs: the data of the sentinel. Words and
-- addresses are numbers, and text is the list of its bytes.
use shield_net.Prelude.{ℕ, Bool, Option, none, some, Map, Bytes, if◌then◌else◌}

abbrev pub B256 : Type 0
B256 = ℕ

abbrev pub Address : Type 0
Address = ℕ

pub record Request : Type 0 where
  pub bond_target : ℕ
  pub slash_amount : ℕ
  pub commit_deadline : ℕ
  pub reveal_deadline : ℕ

pub data SentinelRequestState : Type 0 where
  waiting_for_engine_check : (deadline : ℕ) (request : Option Request) → SentinelRequestState
  waiting_for_request : (approve : Bool) (reason : Bytes) (deadline : ℕ) → SentinelRequestState
  collecting_commitments :
      (approve : Bool) (reason : Bytes)
      (slash_amount commit_deadline reveal_deadline committed_count : ℕ) (self_committed : Bool)
      → SentinelRequestState
  collecting_votes :
      (approve : Bool)
      (slash_amount reveal_deadline committed_count revealed_count approve_count deny_count : ℕ)
      (self_revealed : Bool)
      → SentinelRequestState
  waiting_for_outcome : (approve : Bool) (slash_amount : ℕ) → SentinelRequestState
  waiting_for_dispute_resolution : (approve : Bool) (slash_amount : ℕ) → SentinelRequestState

unfoldable pub approve_and_slash_amount : SentinelRequestState → Option (Bool × ℕ)
approve_and_slash_amount (waiting_for_engine_check deadline request) = none
approve_and_slash_amount (waiting_for_request approve reason deadline) = none
approve_and_slash_amount
      (collecting_commitments approve reason slash_amount commit_deadline reveal_deadline
        committed_count self_committed) =
    if self_committed then some (approve, slash_amount) else none
approve_and_slash_amount
      (collecting_votes approve slash_amount reveal_deadline committed_count revealed_count
        approve_count deny_count self_revealed) =
    some (approve, slash_amount)
approve_and_slash_amount (waiting_for_outcome approve slash_amount) = some (approve, slash_amount)
approve_and_slash_amount (waiting_for_dispute_resolution approve slash_amount) =
    some (approve, slash_amount)

abbrev pub State : Type 0
State = Map SentinelRequestState

pub record SafeTransaction : Type 0 where
  pub chain_id : ℕ
  pub safe : Address
  pub to : Address
  pub value : ℕ
  pub call_data : Bytes
  pub operation : ℕ
  pub safe_tx_gas : ℕ
  pub base_gas : ℕ
  pub gas_price : ℕ
  pub gas_token : Address
  pub refund_receiver : Address
  pub nonce : ℕ

-- engine.rs
pub record RuleId : Type 0 where
  pub section : ℕ
  pub rule : ℕ

pub data CheckOutcome : Type 0 where
  approved unknown : CheckOutcome
  denied : RuleId → CheckOutcome

pub data Effect : Type 0 where
  engine_check : (request_id : B256) (transaction : SafeTransaction) (block : ℕ) → Effect

pub data Resume : Type 0 where
  engine_check_result : (request_id : B256) (outcome : CheckOutcome) → Resume

pub data SentinelActionKind : Type 0 where
  approve_token : (bond : ℕ) → SentinelActionKind
  commit : (id hash : B256) → SentinelActionKind
  reveal : (id : B256) (approve : Bool) (salt : B256) (reason : Bytes) → SentinelActionKind
  finalize claim : (id : B256) → SentinelActionKind

pub record SentinelAction : Type 0 where
  pub kind : SentinelActionKind
  pub expires_at : Option ℕ

-- crates/core/src/state/mod.rs, over the sentinel's actions and effects
pub data Command : Type 0 where
  action : SentinelAction → Command
  effect : Effect → Command
