-- ===== src/Validator/Types/States.antt =====
-- crates/validator/src/state/mod.rs: the snapshotted state.
use shield_net.Prelude.{ℕ, Option, List, Map}
use shield_net.Validator.Epoch.{EpochId}
use shield_net.Validator.Types.Words.{B256, Address, KeyShare, Opaque, Bytes, Set}

-- consensus/group.rs
pub record Group : Type 0 where
  pub id : B256
  pub root : B256
  pub participants : Set
  pub excluded : Set
  pub count : ℕ
  pub threshold : ℕ
  pub context : B256

pub record NonceState : Type 0 where
  pub next_sequence : ℕ
  pub chunks : Map (Option B256)

pub record NonceIndex : Type 0 where
  pub root : B256
  pub offset : ℕ

pub record Epoch : Type 0 where
  pub group : Group
  pub key_share : KeyShare
  pub nonces : NonceState

pub record SafeTransaction : Type 0 where
  pub chain_id : ℕ
  pub safe : Address
  pub to : Address
  pub value : ℕ
  pub call_data : Bytes
  pub operation : ℕ
  pub safe_tx_gas : ℕ
  pub base_gas : ℕ
  pub gas_price : ℕ
  pub gas_token : Address
  pub refund_receiver : Address
  pub nonce : ℕ

pub data Packet : Type 0 where
  -- active_epoch, proposed_epoch, rollover_block, group_id, group_key
  epoch_rollover : EpochId → ℕ → ℕ → B256 → Opaque → Packet
  -- epoch, oracle, oracle_data, transaction
  transaction : EpochId → Address → Bytes → SafeTransaction → Packet

pub record SigningSelection : Type 0 where
  pub shares_from : Set
  pub last_signer : Option Address

pub data SigningState : Type 0 where
  waiting_for_request :
      (key_share : KeyShare) (group_id : B256) (responsible : Option Address) (packet : Packet)
      (signers : Set) (deadline : ℕ)
      → SigningState
  waiting_for_oracle :
      (key_share : KeyShare) (oracle : Address) (group_id signature_id : B256) (nonce : NonceIndex)
      (packet : Packet) (signers : Set) (deadline : ℕ)
      → SigningState
  collect_nonce_commitments :
      (key_share : KeyShare) (group_id signature_id : B256) (nonce : NonceIndex)
      (revealed : Map Opaque) (last_signer : Option Address) (packet : Packet) (signers : Set)
      (deadline : ℕ)
      → SigningState
  collect_signing_shares :
      (key_share : KeyShare) (group_id signature_id : B256) (revealed : Map Opaque)
      (selections : Map SigningSelection) (packet : Packet) (signers : Set) (deadline : ℕ)
      → SigningState
  waiting_for_attestation : (signature_id : B256) (packet : Packet) (deadline : ℕ) → SigningState

pub data KeyGenCommitment : Type 0 where
  participating : (poap : List B256) (secrets : Option Opaque) → KeyGenCommitment
  observing : KeyGenCommitment

pub data KeyGenParticipation : Type 0 where
  participating observing : Opaque → KeyGenParticipation

pub data KeyGenConfirmation : Type 0 where
  observing : KeyGenConfirmation
  collecting : Map Opaque → KeyGenConfirmation
  confirmed : KeyShare → KeyGenConfirmation

pub record Complaint : Type 0 where
  pub total : ℕ
  pub unresponded : ℕ

pub record ConfirmationDeadlines : Type 0 where
  pub complain : ℕ
  pub response : ℕ
  pub confirm : ℕ

pub data RolloverState : Type 0 where
  waiting_for_genesis halted : RolloverState
  epoch_staged epoch_skipped : (next_epoch : ℕ) → RolloverState
  collecting_commitments :
      (next_epoch : EpochId) (group : Group) (secrets : KeyGenCommitment) (commitments : Map Opaque)
      (deadline : Option ℕ)
      → RolloverState
  collecting_shares :
      (next_epoch : EpochId) (group : Group) (participation : KeyGenParticipation)
      (public_keys shares : Map Opaque) (complaints : Map Complaint) (deadline : Option ℕ)
      → RolloverState
  collecting_confirmations :
      (next_epoch : EpochId) (group : Group) (participation : KeyGenParticipation)
      (status : KeyGenConfirmation) (confirmations : Set) (complaints : Map Complaint)
      (deadlines : Option ConfirmationDeadlines)
      → RolloverState
  signing_rollover :
      (next_epoch : ℕ) (group : Group) (key_share : Option KeyShare) (message : B256)
      → RolloverState

-- `epochs` is keyed by the raw value of the epoch id, which its order compares.
pub record State : Type 0 where
  pub rollover : RolloverState
  pub active_epoch : EpochId
  pub epochs : Map Epoch
  pub signing : Map SigningState
  pub signature_id_to_message : Map B256
