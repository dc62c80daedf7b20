-- ===== src/Validator/Types/Commands.antt =====
-- crates/validator/src/service/action.rs and service/effect.rs: what the transition asks for, and what comes back.
use shield_net.Prelude.{ℕ, Option, List, Map}
use shield_net.Validator.Epoch.{EpochId}
use shield_net.Validator.Types.Words.{B256, Address, KeyShare, Opaque, Bytes}

pub record Callback : Type 0 where
  pub target : Address
  pub context : Bytes

-- Fields as in the source, in its order.
pub data Action : Type 0 where
  key_gen_and_commit :
      (participants : B256) (count threshold : ℕ) (context : B256) (poap : List B256)
      (commitment : Opaque) (expires_at : Option ℕ)
      → Action
  key_gen_secret_share : (group_id : B256) (share : Opaque) (expires_at : Option ℕ) → Action
  key_gen_complain : (group_id : B256) (accused : Address) (expires_at : Option ℕ) → Action
  key_gen_confirm : (group_id : B256) (callback : Option Callback) (expires_at : Option ℕ) → Action
  key_gen_complaint_response :
      (group_id : B256) (plaintiff : Address) (secret_share : ℕ) (expires_at : Option ℕ) → Action
  preprocess : (group_id nonces_commitment : B256) → Action
  reveal_nonce_commitments :
      (signature_id : B256) (nonces : Opaque) (proof : List B256) (expires_at : ℕ) → Action
  sign_share :
      (signature_id : B256) (selection share : Opaque) (proof : List B256) (callback : Callback)
      (expires_at : ℕ)
      → Action
  sign : (group_id message : B256) (expires_at : ℕ) → Action
  attest_transaction :
      (epoch : EpochId) (oracle : Address) (oracle_data_hash : B256) (chain_id : ℕ) (safe : Address)
      (safe_tx_struct_hash signature_id : B256) (expires_at : ℕ)
      → Action
  stage_epoch :
      (proposed_epoch rollover_block : ℕ) (group_id signature_id : B256) (expires_at : ℕ) → Action
  set_validator_staker : (staker : Address) → Action

pub data Effect : Type 0 where
  key_gen_setup : (group_id : B256) (count threshold : ℕ) → Effect
  start_nonce_generation : (group_id : B256) (key_share : KeyShare) → Effect
  nonce_tree : (group_id : B256) → Effect
  reveal_nonce_commitments : (signature_id message root : B256) (offset : ℕ) → Effect
  use_nonce : (message root : B256) (offset : ℕ) → Effect
  reconcile_group_secrets : (groups : Map (Option KeyShare)) → Effect

-- safenet_core::state::Command
pub data Command : Type 0 where
  action : Action → Command
  effect : Effect → Command

-- service/effect.rs
pub data Resume : Type 0 where
  noop : Resume
  setup : (group_id : B256) (secrets : Opaque) → Resume
  nonce_tree : (group_id nonces_commitment : B256) → Resume
  nonce_commitments : (signature_id message : B256) (nonces : Opaque) (proof : List B256) → Resume
  nonce : (message : B256) (nonces : Opaque) → Resume
