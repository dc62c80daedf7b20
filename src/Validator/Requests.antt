-- ===== src/Validator/Requests.antt =====
-- How a session starts and ends: the proposal, the sign request, the attestation.
use shield_net.Prelude.{
  some_inj, ℕ, ◌≡◌, refl, sym, ◌∙◌, true, false, Option-cases, Option, none, some, inl, inr, arith,
  ◌==◌, get, contains_key, get-insert, get-remove, saturating_add, contains_key_of_get,
  contains_key_of_not-get,
}
use shield_net.Validator.Epoch.{from_raw, raw_value}
use shield_net.Validator.Types.{
  B256, Packet, Epoch, SigningState, waiting_for_request, State, Transition, TransactionProposed,
  TransactionAttested,
}
use shield_net.Validator.Packets.{transaction_packet_hash, transaction_proposal_hash}
use shield_net.Validator.Sign.{
  propose, handle_transaction_proposed, handle_transaction_attested, handle_sign_attested,
  unlink_session, take_session,
}

signing-unlink : (s : State) (o : Option SigningState) → (unlink_session s o).signing ≡ s.signing
signing-unlink s none = refl
signing-unlink s (some (SigningState.waiting_for_request k g r p sg d)) = refl
signing-unlink s (some (SigningState.waiting_for_oracle k o g sid n p sg d)) = refl
signing-unlink s (some (SigningState.collect_nonce_commitments k g sid n rv l p sg d)) = refl
signing-unlink s (some (SigningState.collect_signing_shares k g sid rv sel p sg d)) = refl
signing-unlink s (some (SigningState.waiting_for_attestation sid p d)) = refl

proposed_at :
    (t : Transition) (s : State) (block : ℕ) (e : Epoch) (proposed : TransactionProposed)
    → get s.epochs (raw_value (from_raw proposed.epoch)) ≡ some e
    → contains_key t.oracles proposed.oracle ≡ true
    → let message =
        transaction_packet_hash t
          (from_raw proposed.epoch)
          proposed.oracle
          proposed.oracle_data
          proposed.transaction in
      (x : SigningState) × (get (handle_transaction_proposed t s block proposed).0.signing message
        ≡ some x)
      × ((st : SigningState) → get s.signing message ≡ some st → x ≡ st)
unfolding handle_transaction_proposed propose
proposed_at t s block e proposed g o =
    let message =
      transaction_packet_hash t (from_raw proposed.epoch) proposed.oracle proposed.oracle_data
        proposed.transaction in
    let fresh =
      waiting_for_request e.key_share e.group.id none
        (Packet.transaction (from_raw proposed.epoch) proposed.oracle proposed.oracle_data
          proposed.transaction)
        e.group.participants (saturating_add block t.signing_timeout) in
    elim (Option-cases (get s.signing message)) [
      | inl n ↦
          let c : contains_key s.signing message ≡ false =
            contains_key_of_not-get s.signing message n in
          (
            fresh,
            rw g (rw (o, c) (ground (arith, get-insert s.signing message message fresh))),
            λ st q. absurd (ground (arith, n, q)),
          )
      | inr (x, q) ↦
          let c : contains_key s.signing message ≡ true =
            contains_key_of_get s.signing message x q in
          (x, rw g (rw (o, c) q), λ st p. some_inj x st (sym q ∙ p))
    ]

attested_at :
    (t : Transition) (s : State) (attested : TransactionAttested) (message : B256)
    → transaction_proposal_hash t
        (from_raw attested.epoch)
        attested.oracle
        attested.oracle_data_hash
        attested.safe_tx_hash
      ≡ message
    → (get (handle_transaction_attested t s attested).0.signing message ≡ none)
      × ((j : B256)
          → (message == j) ≡ false
          → get (handle_transaction_attested t s attested).0.signing j ≡ get s.signing j)
unfolding handle_transaction_attested handle_sign_attested
attested_at t s attested message h = rw h (
  rw (signing-unlink (take_session s message) (get s.signing message))
      (ground (arith, get-remove s.signing message message)),
  λ j q.
      rw (signing-unlink (take_session s message) (get s.signing message))
        (ground (arith, get-remove s.signing message j)),
)

-- The session of a proposed transaction is the one that its attestation ends. A proposal of an allowed oracle
-- for an epoch of the validator leaves a session at the packet's hash, and one that was there as it was; an
-- attestation with the same epoch, oracle and Safe transaction hash and the hash of the same oracle data
-- leaves, in any state, no session at that hash and every other session as it was.
pub attested-proposed :
    (t : Transition) (s s' : State) (block : ℕ) (e : Epoch) (proposed : TransactionProposed)
    (attested : TransactionAttested)
    → get s.epochs (raw_value (from_raw proposed.epoch)) ≡ some e
    → contains_key t.oracles proposed.oracle ≡ true
    → attested.epoch ≡ proposed.epoch
    → attested.oracle ≡ proposed.oracle
    → attested.oracle_data_hash ≡ t.keccak256 proposed.oracle_data
    → attested.safe_tx_hash ≡ t.safe_tx_hash proposed.transaction
    → let message =
        transaction_packet_hash t
          (from_raw proposed.epoch)
          proposed.oracle
          proposed.oracle_data
          proposed.transaction in
      ((x : SigningState) × (get (handle_transaction_proposed t s block proposed).0.signing message
          ≡ some x)
        × ((st : SigningState) → get s.signing message ≡ some st → x ≡ st))
      × (get (handle_transaction_attested t s' attested).0.signing message ≡ none)
      × ((j : B256)
          → (message == j) ≡ false
          → get (handle_transaction_attested t s' attested).0.signing j ≡ get s'.signing j)
attested-proposed t s s' block e proposed attested g o pe po pd ph =
    let message =
      transaction_packet_hash t (from_raw proposed.epoch) proposed.oracle proposed.oracle_data
        proposed.transaction in
    let (gone, others) =
      attested_at t s' attested message
        (unfold transaction_packet_hash in rw (pe, po, pd, ph) refl) in
    (proposed_at t s block e proposed g o, gone, others)
