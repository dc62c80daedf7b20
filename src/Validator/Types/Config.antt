-- ===== src/Validator/Types/Config.antt =====
-- crates/validator/src/state/mod.rs, config.rs and frost: what the transition is built with.
use shield_net.Prelude.{ℕ, Option, List, Map}
use shield_net.Validator.Types.Words.{B256, Address, KeyShare, Opaque, Bytes, Set}
use shield_net.Validator.Types.States.{SafeTransaction}

-- frost/sign.rs
pub record SignatureShare : Type 0 where
  pub selection : Opaque
  pub share : Opaque
  pub proof : List B256

-- config.rs
pub record Participant : Type 0 where
  pub address : Address
  pub active_from : ℕ
  pub active_before : Option ℕ

pub record ParticipantSet : Type 0 where
  pub addresses : Set
  pub excluded : Set
  pub context : B256

-- crates/validator/src/frost/keygen.rs, whose functions call the `frost_secp256k1` crate; an error is `none`.
pub record FrostKeygen : Type 0 where
  -- of a validator's secrets
  pub commitment : Opaque → Opaque
  pub verify_commitment : Address → Opaque → Option Opaque
  -- the public key share and the encrypted shares
  pub verify_secret_share :
      (group_commitments : Opaque) → Address → Opaque → Option (Opaque × Opaque)
  pub verify_encrypted_secret_share : (sharing_state : Opaque) → Address → Opaque → Option Opaque
  -- the sharing state and the share to publish
  pub generate_secret_shares : (secrets : Opaque) → Map Opaque → Option (Opaque × Opaque)
  pub group_commitments : Map Opaque → Option Opaque
  -- `SharingState::group_commitments`
  pub sharing_commitments : Opaque → Opaque
  pub group_key : (group_commitments : Opaque) → Opaque
  pub finalize : (sharing_state : Opaque) → Map Opaque → Option KeyShare
  pub reveal_secret_share : (sharing_state : Opaque) → (peer : Address) → Option ℕ
  pub verify_revealed_secret_share :
      (group_commitments : Opaque) (plaintiff accused : Address) (secret_share : ℕ) → Option Opaque

-- The fields of `Transition` that the handlers read, and the functions of its dependencies: `frost`
-- (`group_threshold`, `verify_revealed_nonces`, `signature_share`), `alloy` (`keccak256`, the EIP-712 and
-- ABI encodings).
pub record Transition : Type 0 where
  pub account : Address
  pub oracle_timeout : ℕ
  pub signing_timeout : ℕ
  pub oracles : Set
  pub consensus : Address
  pub domain_separator : B256
  pub group_threshold : KeyShare → ℕ
  pub verify_revealed_nonces : Address → Opaque → Option Opaque
  pub signature_share : KeyShare → Opaque → Map Opaque → B256 → Option SignatureShare
  pub keccak256 : Bytes → B256
  pub proposal_encode_type : Bytes
  pub safe_tx_struct_hash : SafeTransaction → B256
  pub safe_tx_hash : SafeTransaction → B256
  pub abi_stage_epoch : (proposed_epoch rollover_block : ℕ) (group_id signature_id : B256) → Bytes
  pub abi_attest_transaction :
      (epoch : ℕ) (oracle : Address) (oracle_data_hash : B256) (chain_id : ℕ) (safe : Address)
      (safe_tx_struct_hash signature_id : B256)
      → Bytes
  pub genesis : ParticipantSet
  pub participants : List Participant
  pub blocks_per_epoch : ℕ
  pub key_gen_timeout : ℕ
  pub abi_propose_epoch : (proposed_epoch rollover_block : ℕ) → Bytes
  pub epoch_rollover_signing_hash :
      (active_epoch proposed_epoch rollover_block : ℕ) (group_key : Opaque) → B256
  pub frost : FrostKeygen
