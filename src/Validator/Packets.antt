-- ===== src/Validator/Packets.antt =====
-- crates/validator/src/state/sign.rs (`Packet`) and consensus/hashing.rs: what a packet signs and what its
-- completed signature calls.
use shield_net.Prelude.{ℕ, ◌∷◌, ◌++◌, be_bytes}
use shield_net.Validator.Epoch.{EpochId, raw_value}
use shield_net.Validator.Types.{
  B256, Address, Bytes, Packet, epoch_rollover, transaction, SafeTransaction, Callback, Action,
  Transition,
}

unfoldable pub transaction_proposal_hash : Transition → EpochId → Address → B256 → B256 → B256
transaction_proposal_hash t epoch oracle oracle_data_hash safe_tx_hash =
    let struct_hash = t.keccak256 (
      be_bytes 32 (t.keccak256 t.proposal_encode_type)
      ++ be_bytes 32 (raw_value epoch)
      ++ be_bytes 32 oracle
      ++ be_bytes 32 oracle_data_hash
      ++ be_bytes 32 safe_tx_hash) in
    t.keccak256 (0x19 ∷ 0x01 ∷ (be_bytes 32 t.domain_separator ++ be_bytes 32 struct_hash))

unfoldable pub transaction_packet_hash :
    Transition → EpochId → Address → Bytes → SafeTransaction → B256
transaction_packet_hash t epoch oracle oracle_data tx =
    transaction_proposal_hash t epoch oracle (t.keccak256 oracle_data) (t.safe_tx_hash tx)

unfoldable pub attestation_callback : Transition → Packet → Callback
attestation_callback t
      (epoch_rollover active_epoch proposed_epoch rollover_block group_id group_key) =
    record {
      target = t.consensus;
      context = t.abi_stage_epoch proposed_epoch rollover_block group_id 0;
    }
attestation_callback t (transaction epoch oracle oracle_data tx) = record {
  target = t.consensus;
  context =
      t.abi_attest_transaction (raw_value epoch) oracle (t.keccak256 oracle_data) tx.chain_id
        tx.safe (t.safe_tx_struct_hash tx) 0;
}

unfoldable pub attestation_action : Transition → Packet → B256 → ℕ → Action
attestation_action t (epoch_rollover active_epoch proposed_epoch rollover_block group_id group_key)
      signature_id expires_at =
    Action.stage_epoch proposed_epoch rollover_block group_id signature_id expires_at
attestation_action t (transaction epoch oracle oracle_data tx) signature_id expires_at =
    Action.attest_transaction epoch oracle (t.keccak256 oracle_data) tx.chain_id tx.safe
      (t.safe_tx_struct_hash tx) signature_id expires_at
