-- ===== src/Validator/Links/Sorted.antt =====
-- The order of the sessions' keys, for each handler of an event or a resume.
use shield_net.Prelude.{
  ℕ, Bool, true, false, not, ◌&&◌, Option, none, some, List, ◌==◌, if◌then◌else◌, Map, get, insert,
  remove, contains_key, length, ltb, IsSorted, insert-IsSorted, remove-IsSorted,
}
use shield_net.Validator.Epoch.{from_raw, raw_value}
use shield_net.Validator.Types.{
  B256, Address, KeyShare, Set, NonceIndex, Packet, epoch_rollover, transaction, Epoch,
  SigningState, waiting_for_request, waiting_for_oracle, collect_nonce_commitments,
  collect_signing_shares, waiting_for_attestation, State, Command, SignEvent, SignRevealedNonces,
  SignShared, OracleResult, TransactionProposed, TransactionAttested, Transition,
}
use shield_net.Validator.Packets.{transaction_packet_hash}
use shield_net.Validator.Sign.{
  observe_group, take_session, sign_request, open_round, handle_sign, oracle_verdict,
  handle_oracle_result, collect_reveal, record_reveal, handle_sign_revealed_nonces, on_linked,
  collect_share, handle_sign_shared, complete_round, handle_sign_completed, unlink_session,
  handle_sign_attested, propose, handle_transaction_proposed, handle_transaction_attested,
}

abbrev pub Ordered : State → Type 0
Ordered s = IsSorted s.signing

module _ (s : State) (o : Ordered s) where
  put : (m : B256) (st : SigningState) → IsSorted (insert (remove s.signing m) m st)
  put m st = insert-IsSorted (remove s.signing m) m st (remove-IsSorted s.signing m o)

  take : (m : B256) → IsSorted (remove s.signing m)
  take m = remove-IsSorted s.signing m o

if_Ordered :
    (b : Bool) (x y : State × List Command)
    → Ordered x.0
    → Ordered y.0
    → Ordered (if b then x else y).0
if_Ordered true x y p q = p
if_Ordered false x y p q = q

either_Ordered : (b : Bool) (x y : State) → Ordered x → Ordered y → Ordered (if b then x else y)
either_Ordered true x y p q = p
either_Ordered false x y p q = q

module _ (t : Transition) (s : State) (o : Ordered s) where
  open_round-Ordered :
      (block : ℕ) (event : SignEvent) (nonce : NonceIndex) (epochs' : Map Epoch)
      (key_share : KeyShare) (group_id : B256) (signers : Set) (packet : Packet)
      → Ordered
          (open_round t
            (take_session (record s { epochs = epochs' }) event.message)
            block
            event
            nonce
            key_share
            group_id
            signers
            packet).0
  unfolding open_round
  open_round-Ordered block event nonce epochs' k g sg (epoch_rollover a p r i y) =
      put s o event.message _
  open_round-Ordered block event nonce epochs' k g sg (transaction a p r i) =
      put s o event.message _

  sign_request-Ordered :
      (block : ℕ) (event : SignEvent) (epochs' : Map Epoch) (nonce : Option NonceIndex)
      (x : Option SigningState)
      → Ordered
          (sign_request t
            (take_session (record s { epochs = epochs' }) event.message)
            block
            event
            nonce
            x).0
  unfolding sign_request
  sign_request-Ordered block event epochs' (some nonce)
        (some (waiting_for_request k gid r packet signers d)) =
      if_Ordered (gid == event.gid) _ _
        (open_round-Ordered block event nonce epochs' k gid signers packet)
        (put s o event.message _)
  sign_request-Ordered block event epochs' none
        (some (waiting_for_request k gid r packet signers d)) =
      take s o event.message
  sign_request-Ordered block event epochs' _ (some other) = put s o event.message other
  sign_request-Ordered block event epochs' _ none = take s o event.message

  pub handle_sign-Ordered :
      (block : ℕ) (event : SignEvent) → Ordered (handle_sign t s block event).0
  unfolding handle_sign
  handle_sign-Ordered block event =
      sign_request-Ordered block event (observe_group s.epochs event.gid event.sequence).0
        (observe_group s.epochs event.gid event.sequence).1 (get s.signing event.message)

  oracle_verdict-Ordered :
      (block : ℕ) (oracle : Address) (event : OracleResult) (x : Option SigningState)
      → Ordered (oracle_verdict t (take_session s event.request_id) block oracle event x).0
  unfolding oracle_verdict
  oracle_verdict-Ordered block oracle event (some (waiting_for_oracle k x gid sid n p sg d)) =
      if_Ordered (x == oracle && event.approved) _ _ (put s o event.request_id _) (
        if_Ordered (x == oracle && not event.approved) _ _ (take s o event.request_id)
          (put s o event.request_id _))
  oracle_verdict-Ordered block oracle event (some other) = put s o event.request_id other
  oracle_verdict-Ordered block oracle event none = take s o event.request_id

  pub handle_oracle_result-Ordered :
      (block : ℕ) (oracle : Address) (event : OracleResult)
      → Ordered (handle_oracle_result t s block oracle event).0
  unfolding handle_oracle_result
  handle_oracle_result-Ordered block oracle event =
      oracle_verdict-Ordered block oracle event (get s.signing event.request_id)

  on_linked-Ordered :
      (x : Option B256) (k : B256 → State × List Command)
      → ((message : B256) → Ordered (k message).0)
      → Ordered (on_linked s x k).0
  unfolding on_linked
  on_linked-Ordered none k p = o
  on_linked-Ordered (some message) k p = p message

  collect_reveal-Ordered :
      (block : ℕ) (message : B256) (event : SignRevealedNonces) (x : Option SigningState)
      → Ordered (collect_reveal t (take_session s message) block message event x).0
  unfolding collect_reveal
  collect_reveal-Ordered block message event
        (some (collect_nonce_commitments k gid sid n r l p sg d)) =
      if_Ordered (ltb (length (record_reveal t event sg r l).0) (length sg)) _ _ (put s o message _)
        (put s o message _)
  collect_reveal-Ordered block message event (some other) = put s o message other
  collect_reveal-Ordered block message event none = take s o message

  pub handle_sign_revealed_nonces-Ordered :
      (block : ℕ) (event : SignRevealedNonces)
      → Ordered (handle_sign_revealed_nonces t s block event).0
  unfolding handle_sign_revealed_nonces
  handle_sign_revealed_nonces-Ordered block event =
      on_linked-Ordered (get s.signature_id_to_message event.sid) _
        (λ message. collect_reveal-Ordered block message event (get s.signing message))

  collect_share-Ordered :
      (message : B256) (event : SignShared) (x : Option SigningState)
      → Ordered (collect_share s message event x).0
  unfolding collect_share
  collect_share-Ordered message event (some (collect_signing_shares k gid sid r sel p sg d)) =
      insert-IsSorted s.signing message _ o
  collect_share-Ordered message event _ = o

  pub handle_sign_shared-Ordered : (event : SignShared) → Ordered (handle_sign_shared s event).0
  unfolding handle_sign_shared
  handle_sign_shared-Ordered event =
      on_linked-Ordered (get s.signature_id_to_message event.sid) _
        (λ message. collect_share-Ordered message event (get s.signing message))

  complete_round-Ordered :
      (block : ℕ) (message : B256) (x : Option SigningState)
      → Ordered (complete_round t (take_session s message) block message x).0
  unfolding complete_round
  complete_round-Ordered block message (some (collect_signing_shares k gid sid r sel p sg d)) =
      put s o message _
  complete_round-Ordered block message (some other) = put s o message other
  complete_round-Ordered block message none = take s o message

  pub handle_sign_completed-Ordered :
      (block : ℕ) (sid : B256) → Ordered (handle_sign_completed t s block sid).0
  unfolding handle_sign_completed
  handle_sign_completed-Ordered block sid =
      on_linked-Ordered (get s.signature_id_to_message sid) _
        (λ message. complete_round-Ordered block message (get s.signing message))

  unlink_session-Ordered :
      (message : B256) (x : Option SigningState)
      → Ordered (unlink_session (take_session s message) x)
  unlink_session-Ordered message (some (waiting_for_request k gid r p sg d)) = take s o message
  unlink_session-Ordered message (some (waiting_for_oracle k x gid sid n p sg d)) = take s o message
  unlink_session-Ordered message (some (collect_nonce_commitments k gid sid n r l p sg d)) =
      take s o message
  unlink_session-Ordered message (some (collect_signing_shares k gid sid r sel p sg d)) =
      take s o message
  unlink_session-Ordered message (some (waiting_for_attestation sid p d)) = take s o message
  unlink_session-Ordered message none = take s o message

  pub handle_sign_attested-Ordered : (message : B256) → Ordered (handle_sign_attested s message).0
  unfolding handle_sign_attested
  handle_sign_attested-Ordered message = unlink_session-Ordered message (get s.signing message)

  propose-Ordered :
      (block : ℕ) (event : TransactionProposed) (x : Option Epoch)
      → Ordered (propose t s block event x)
  unfolding propose
  propose-Ordered block event none = o
  propose-Ordered block event (some e) =
      let message =
        transaction_packet_hash t (from_raw event.epoch) event.oracle event.oracle_data
          event.transaction in
      either_Ordered (contains_key t.oracles event.oracle) _ _
        (either_Ordered (contains_key s.signing message) _ _ o
          (insert-IsSorted s.signing message _ o))
        o

  pub handle_transaction_proposed-Ordered :
      (block : ℕ) (event : TransactionProposed)
      → Ordered (handle_transaction_proposed t s block event).0
  unfolding handle_transaction_proposed
  handle_transaction_proposed-Ordered block event =
      propose-Ordered block event (get s.epochs (raw_value (from_raw event.epoch)))

  pub handle_transaction_attested-Ordered :
      (event : TransactionAttested) → Ordered (handle_transaction_attested t s event).0
  unfolding handle_transaction_attested
  handle_transaction_attested-Ordered event = handle_sign_attested-Ordered _
