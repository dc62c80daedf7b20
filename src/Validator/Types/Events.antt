-- ===== src/Validator/Types/Events.antt =====
-- crates/validator/src/bindings.rs: the coordinator's, the consensus contract's and the oracle's events, with the
-- fields that the handlers read.
use shield_net.Prelude.{ℕ, Bool}
use shield_net.Validator.Types.Words.{B256, Address, Opaque, Bytes}
use shield_net.Validator.Types.States.{SafeTransaction}

pub record SignEvent : Type 0 where
  pub gid : B256
  pub message : B256
  pub sid : B256
  pub sequence : ℕ

pub record SignRevealedNonces : Type 0 where
  pub sid : B256
  pub participant : Address
  pub nonces : Opaque

pub record SignShared : Type 0 where
  pub sid : B256
  pub participant : Address
  pub selection_root : B256

pub record OracleResult : Type 0 where
  pub request_id : B256
  pub approved : Bool

pub record PreprocessEvent : Type 0 where
  pub gid : B256
  pub participant : Address
  pub chunk : ℕ
  pub commitment : B256

pub record TransactionProposed : Type 0 where
  pub epoch : ℕ
  pub oracle : Address
  pub oracle_data : Bytes
  pub transaction : SafeTransaction

pub record TransactionAttested : Type 0 where
  pub epoch : ℕ
  pub oracle : Address
  pub oracle_data_hash : B256
  pub safe_tx_hash : B256
  pub signature_id : B256

pub record KeyGen : Type 0 where
  pub gid : B256

pub record KeyGenCommitted : Type 0 where
  pub gid : B256
  pub participant : Address
  pub commitment : Opaque

pub record KeyGenSecretShared : Type 0 where
  pub gid : B256
  pub participant : Address
  pub share : Opaque

pub record KeyGenConfirmed : Type 0 where
  pub gid : B256
  pub participant : Address

pub record KeyGenComplained : Type 0 where
  pub gid : B256
  pub plaintiff : Address
  pub accused : Address

pub record KeyGenComplaintResponded : Type 0 where
  pub gid : B256
  pub plaintiff : Address
  pub accused : Address
  pub secret_share : ℕ

pub record EpochStaged : Type 0 where
  pub proposed_epoch : ℕ
  pub group_id : B256
  pub signature_id : B256
