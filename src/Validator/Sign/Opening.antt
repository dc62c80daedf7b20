-- ===== src/Validator/Sign/Opening.antt =====
-- crates/validator/src/state/sign.rs: the sign request, the nonce commitments and the oracle's result.
use shield_net.Prelude.{
  ℕ, ◌==◌, not, ◌&&◌, Option, none, some, List, [], ◌∷◌, if◌then◌else◌, Map, get, insert, remove,
  saturating_add,
}
use shield_net.Validator.Types.{
  B256, Address, KeyShare, Opaque, Set, NonceIndex, Epoch, Packet, SigningState,
  waiting_for_request, waiting_for_oracle, collect_nonce_commitments, collect_signing_shares,
  waiting_for_attestation, State, Command, action, effect, Action, Effect, SignEvent, OracleResult,
  Transition,
}
use shield_net.Validator.Nonces.{observe}

abbrev pub signature_id : SigningState → Option B256
signature_id (waiting_for_request _ _ _ _ _ _) = none
signature_id (waiting_for_oracle _ _ _ sid _ _ _ _) = some sid
signature_id (collect_nonce_commitments _ _ sid _ _ _ _ _ _) = some sid
signature_id (collect_signing_shares _ _ sid _ _ _ _ _) = some sid
signature_id (waiting_for_attestation sid _ _) = some sid

-- The epoch of the event's group observes the sequence; its nonce is the result.
unfoldable pub observe_group : Map Epoch → B256 → ℕ → Map Epoch × Option NonceIndex
observe_group [] gid sequence = ([], none)
observe_group ((k, e) ∷ rest) gid sequence =
    let (rest', found) = observe_group rest gid sequence in
    let (nonces', nonce) = observe e.nonces sequence in
    if e.group.id == gid
    then ((k, record e { nonces = nonces' }) ∷ rest, nonce)
    else ((k, e) ∷ rest', found)

abbrev pub put_session : State → B256 → SigningState → State
put_session s message signing = record s { signing = insert s.signing message signing }

abbrev pub take_session : State → B256 → State
take_session s message = record s { signing = remove s.signing message }

abbrev pub link_signature : State → B256 → B256 → State
link_signature s sid message = record s {
  signature_id_to_message = insert s.signature_id_to_message sid message;
}

abbrev pub unlink_signature : State → B256 → State
unlink_signature s sid = record s { signature_id_to_message = remove s.signature_id_to_message sid }

-- The round that a sign request opens, by the kind of its packet.
unfoldable pub open_round :
    Transition
    → State
    → ℕ
    → SignEvent
    → NonceIndex
    → KeyShare
    → B256
    → Set
    → Packet
    → State × List Command
unfolding saturating_add
open_round t s block event nonce key_share group_id signers
      (Packet.transaction epoch oracle oracle_data transaction) =
    (
      link_signature
          (put_session s event.message (
            waiting_for_oracle key_share oracle group_id event.sid nonce
              (Packet.transaction epoch oracle oracle_data transaction) signers
              (saturating_add block t.oracle_timeout)))
          event.sid event.message,
      [],
    )
open_round t s block event nonce key_share group_id signers
      (Packet.epoch_rollover active proposed rollover_block gid key) =
    (
      link_signature
          (put_session s event.message (
            collect_nonce_commitments key_share event.gid event.sid nonce [] none
              (Packet.epoch_rollover active proposed rollover_block gid key) signers
              (saturating_add block t.signing_timeout)))
          event.sid event.message,
      effect (Effect.reveal_nonce_commitments event.sid event.message nonce.root nonce.offset) ∷ [],
    )

-- The `match` of `handle_sign` on the nonce and the session that was taken out of `s`.
unfoldable pub sign_request :
    Transition
    → State
    → ℕ
    → SignEvent
    → Option NonceIndex
    → Option SigningState
    → State × List Command
unfolding open_round
sign_request t s block event (some nonce)
      (some (waiting_for_request key_share group_id responsible packet signers deadline)) =
    if group_id == event.gid
    then open_round t s block event nonce key_share group_id signers packet
    else (
      put_session s event.message
          (waiting_for_request key_share group_id responsible packet signers deadline),
      [],
    )
sign_request t s block event none
      (some (waiting_for_request key_share group_id responsible packet signers deadline)) =
    (s, [])
sign_request t s block event _ (some other) = (put_session s event.message other, [])
sign_request t s block event _ none = (s, [])

unfoldable pub handle_sign : Transition → State → ℕ → SignEvent → State × List Command
unfolding sign_request
handle_sign t s block event =
    let (epochs', nonce) = observe_group s.epochs event.gid event.sequence in
    sign_request t (take_session (record s { epochs = epochs' }) event.message) block event nonce
      (get s.signing event.message)

unfoldable pub reveal_action :
    State → B256 → Opaque → List B256 → Option SigningState → State × List Command
reveal_action s signature_id nonces proof
      (some (collect_nonce_commitments _ _ sid _ _ _ _ _ deadline)) =
    if sid == signature_id
    then (s, action (Action.reveal_nonce_commitments signature_id nonces proof deadline) ∷ [])
    else (s, [])
reveal_action s signature_id nonces proof _ = (s, [])

unfoldable pub handle_nonce_commitments :
    State → B256 → B256 → Opaque → List B256 → State × List Command
unfolding reveal_action
handle_nonce_commitments s signature_id message nonces proof =
    reveal_action s signature_id nonces proof (get s.signing message)

-- The `match` of `handle_oracle_result` on the session that was taken out of `s`.
unfoldable pub oracle_verdict :
    Transition → State → ℕ → Address → OracleResult → Option SigningState → State × List Command
unfolding saturating_add
oracle_verdict t s block oracle event
      (some (
        waiting_for_oracle key_share expected group_id signature_id nonce packet signers
          deadline)) =
    if expected == oracle && event.approved
    then (
      put_session s event.request_id (
          collect_nonce_commitments key_share group_id signature_id nonce [] none packet signers
            (saturating_add block t.signing_timeout)),
      effect (Effect.reveal_nonce_commitments signature_id event.request_id nonce.root nonce.offset)
          ∷ [],
    )
    else if expected == oracle && not event.approved
    then (unlink_signature s signature_id, [])
    else (
      put_session s event.request_id (
          waiting_for_oracle key_share expected group_id signature_id nonce packet signers
            deadline),
      [],
    )
oracle_verdict t s block oracle event (some other) = (put_session s event.request_id other, [])
oracle_verdict t s block oracle event none = (s, [])

unfoldable pub handle_oracle_result :
    Transition → State → ℕ → Address → OracleResult → State × List Command
unfolding oracle_verdict
handle_oracle_result t s block oracle event =
    oracle_verdict t (take_session s event.request_id) block oracle event
      (get s.signing event.request_id)
