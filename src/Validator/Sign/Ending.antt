-- ===== src/Validator/Sign/Ending.antt =====
-- crates/validator/src/state/transactions.rs, with `handle_sign_attested` of sign.rs.
use shield_net.Prelude.{
  ℕ, Option, none, some, List, [], if◌then◌else◌, get, contains_key, saturating_add,
}
use shield_net.Validator.Epoch.{from_raw, raw_value}
use shield_net.Validator.Types.{
  B256, Epoch, Packet, SigningState, waiting_for_request, State, Command, TransactionProposed,
  TransactionAttested, Transition,
}
use shield_net.Validator.Packets.{transaction_packet_hash, transaction_proposal_hash}
use shield_net.Validator.Sign.Opening.{signature_id, put_session, take_session, unlink_signature}

-- `signing.as_ref().and_then(|signing| signing.signature_id())`, and the removal.
abbrev pub unlink_session : State → Option SigningState → State
unlink_session s none = s
unlink_session s (some signing) = elim (signature_id signing) [
  | none ↦ s
  | some sid ↦ unlink_signature s sid
]

unfoldable pub handle_sign_attested : State → B256 → State × List Command
handle_sign_attested s message =
    (unlink_session (take_session s message) (get s.signing message), [])

unfoldable pub propose : Transition → State → ℕ → TransactionProposed → Option Epoch → State
unfolding saturating_add
propose t s block event none = s
propose t s block event (some e) =
    let message =
      transaction_packet_hash t (from_raw event.epoch) event.oracle event.oracle_data
        event.transaction in
    if contains_key t.oracles event.oracle
    then (if contains_key s.signing message
        then s
        else put_session s message (
            waiting_for_request e.key_share e.group.id none
              (Packet.transaction (from_raw event.epoch) event.oracle event.oracle_data
                event.transaction)
              e.group.participants (saturating_add block t.signing_timeout)))
    else s

unfoldable pub handle_transaction_proposed :
    Transition → State → ℕ → TransactionProposed → State × List Command
unfolding propose
handle_transaction_proposed t s block event =
    (propose t s block event (get s.epochs (raw_value (from_raw event.epoch))), [])

unfoldable pub handle_transaction_attested :
    Transition → State → TransactionAttested → State × List Command
unfolding handle_sign_attested
handle_transaction_attested t s event = handle_sign_attested s (
    transaction_proposal_hash t (from_raw event.epoch) event.oracle event.oracle_data_hash
      event.safe_tx_hash)
