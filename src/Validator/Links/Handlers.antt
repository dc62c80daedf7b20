-- ===== src/Validator/Links/Handlers.antt =====
-- The index against the sessions, for each handler of an event or a resume.
use shield_net.Prelude.{
  ℕ, ◌≡◌, refl, ap, sym, not, ◌&&◌, Bool-cases, Option, none, some, List, [], inl, inr, arith, ◌==◌,
  Map, get, insert, contains_key, length, ltb, some_inj, get_of_not-contains_key,
}
use shield_net.Validator.Epoch.{from_raw, raw_value}
use shield_net.Validator.Types.{
  B256, Address, KeyShare, Set, NonceIndex, Packet, epoch_rollover, transaction, Epoch,
  SigningState, waiting_for_request, waiting_for_oracle, collect_nonce_commitments,
  collect_signing_shares, waiting_for_attestation, State, Command, SignEvent, SignRevealedNonces,
  SignShared, OracleResult, TransactionProposed, TransactionAttested, Transition,
}
use shield_net.Validator.Packets.{transaction_packet_hash}
use shield_net.Validator.Sign.{
  signature_id, observe_group, take_session, sign_request, open_round, handle_sign, oracle_verdict,
  handle_oracle_result, collect_reveal, record_reveal, handle_sign_revealed_nonces, on_linked,
  collect_share, record_share, handle_sign_shared, complete_round, handle_sign_completed,
  unlink_session, handle_sign_attested, propose, handle_transaction_proposed,
  handle_transaction_attested,
}
use shield_net.Validator.Links.{Linked}
use shield_net.Validator.Links.Moves.{IsLinked-replace, IsLinked-unsigned, At-insert}
use shield_net.Validator.Links.Sessions.{
  put_back, replace_in, take_none, take_unsigned, open_in, drop_in, if_Linked, if_State,
}

module _ (t : Transition) (s : State) (h : Linked s) where
  open_round-Linked :
      (block : ℕ) (event : SignEvent) (nonce : NonceIndex) (epochs' : Map Epoch)
      (key_share : KeyShare) (group_id : B256) (signers : Set) (packet : Packet) (st : SigningState)
      → get s.signing event.message ≡ some st
      → signature_id st ≡ none
      → get s.signature_id_to_message event.sid ≡ none
      → Linked
          (open_round t
            (take_session (record s { epochs = epochs' }) event.message)
            block
            event
            nonce
            key_share
            group_id
            signers
            packet).0
  unfolding open_round
  open_round-Linked block event nonce epochs' key_share group_id signers (epoch_rollover a p r i k)
        st g e f =
      open_in s.signing s.signature_id_to_message event.message h st
        (collect_nonce_commitments key_share event.gid event.sid nonce [] none
          (epoch_rollover a p r i k) signers _)
        event.sid g e refl f
  open_round-Linked block event nonce epochs' key_share group_id signers (transaction a p r i) st g
        e f =
      open_in s.signing s.signature_id_to_message event.message h st
        (waiting_for_oracle key_share p group_id event.sid nonce (transaction a p r i) signers _)
        event.sid g e refl f

  sign_request-Linked :
      (block : ℕ) (event : SignEvent) (epochs' : Map Epoch) (nonce : Option NonceIndex)
      (o : Option SigningState)
      → get s.signing event.message ≡ o
      → get s.signature_id_to_message event.sid ≡ none
      → Linked
          (sign_request t
            (take_session (record s { epochs = epochs' }) event.message)
            block
            event
            nonce
            o).0
  unfolding sign_request
  sign_request-Linked block event epochs' (some nonce)
        (some (waiting_for_request k gid r packet signers d)) g f =
      elim (Bool-cases (gid == event.gid)) [
        | inl q ↦ rw q (
            open_round-Linked block event nonce epochs' k gid signers packet
              (waiting_for_request k gid r packet signers d) g refl f)
        | inr q ↦ rw q (
            put_back s.signing s.signature_id_to_message event.message h
              (waiting_for_request k gid r packet signers d) g)
      ]
  sign_request-Linked block event epochs' none (some (waiting_for_request k gid r packet signers d))
        g f =
      take_unsigned s.signing s.signature_id_to_message event.message h
        (waiting_for_request k gid r packet signers d) g refl
  sign_request-Linked block event epochs' _ (some other) g f =
      put_back s.signing s.signature_id_to_message event.message h other g
  sign_request-Linked block event epochs' _ none g f =
      take_none s.signing s.signature_id_to_message event.message h g

  -- A sign request keeps the links, provided that its signature id is new.
  pub handle_sign-Linked :
      (block : ℕ) (event : SignEvent)
      → get s.signature_id_to_message event.sid ≡ none
      → Linked (handle_sign t s block event).0
  unfolding handle_sign
  handle_sign-Linked block event f =
      sign_request-Linked block event (observe_group s.epochs event.gid event.sequence).0
        (observe_group s.epochs event.gid event.sequence).1 (get s.signing event.message) refl f

  oracle_verdict-Linked :
      (block : ℕ) (oracle : Address) (event : OracleResult) (o : Option SigningState)
      → get s.signing event.request_id ≡ o
      → Linked (oracle_verdict t (take_session s event.request_id) block oracle event o).0
  unfolding oracle_verdict
  oracle_verdict-Linked block oracle event (some (waiting_for_oracle k x gid sid n p sg d)) g =
      let st = waiting_for_oracle k x gid sid n p sg d in
      if_Linked (x == oracle && event.approved) _ _
        (λ _.
          replace_in s.signing s.signature_id_to_message event.request_id h st
            (collect_nonce_commitments k gid sid n [] none p sg _) g refl)
        (λ _.
          if_Linked (x == oracle && not event.approved) _ _
            (λ _. drop_in s.signing s.signature_id_to_message event.request_id h st sid g refl)
            (λ _. put_back s.signing s.signature_id_to_message event.request_id h st g))
  oracle_verdict-Linked block oracle event (some other) g =
      put_back s.signing s.signature_id_to_message event.request_id h other g
  oracle_verdict-Linked block oracle event none g =
      take_none s.signing s.signature_id_to_message event.request_id h g

  -- An oracle's result, whatever it says and whoever sends it, keeps the links.
  pub handle_oracle_result-Linked :
      (block : ℕ) (oracle : Address) (event : OracleResult)
      → Linked (handle_oracle_result t s block oracle event).0
  unfolding handle_oracle_result
  handle_oracle_result-Linked block oracle event =
      oracle_verdict-Linked block oracle event (get s.signing event.request_id) refl

  on_linked-Linked :
      (o : Option B256) (k : B256 → State × List Command)
      → ((message : B256) → Linked (k message).0)
      → Linked (on_linked s o k).0
  unfolding on_linked
  on_linked-Linked none k p = h
  on_linked-Linked (some message) k p = p message

  collect_reveal-Linked :
      (block : ℕ) (message : B256) (event : SignRevealedNonces) (o : Option SigningState)
      → get s.signing message ≡ o
      → Linked (collect_reveal t (take_session s message) block message event o).0
  unfolding collect_reveal
  collect_reveal-Linked block message event
        (some (collect_nonce_commitments k gid sid n r l p sg d)) g =
      let st = collect_nonce_commitments k gid sid n r l p sg d in
      let (r', l') = record_reveal t event sg r l in
      if_Linked (ltb (length r') (length sg)) _ _
        (λ _.
          replace_in s.signing s.signature_id_to_message message h st
            (collect_nonce_commitments k gid sid n r' l' p sg d) g refl)
        (λ _.
          replace_in s.signing s.signature_id_to_message message h st
            (collect_signing_shares k gid sid r' [] p sg _) g refl)
  collect_reveal-Linked block message event (some other) g =
      put_back s.signing s.signature_id_to_message message h other g
  collect_reveal-Linked block message event none g =
      take_none s.signing s.signature_id_to_message message h g

  pub handle_sign_revealed_nonces-Linked :
      (block : ℕ) (event : SignRevealedNonces)
      → Linked (handle_sign_revealed_nonces t s block event).0
  unfolding handle_sign_revealed_nonces
  handle_sign_revealed_nonces-Linked block event =
      on_linked-Linked (get s.signature_id_to_message event.sid) _
        (λ message. collect_reveal-Linked block message event (get s.signing message) refl)

  collect_share-Linked :
      (message : B256) (event : SignShared) (o : Option SigningState)
      → get s.signing message ≡ o
      → Linked (collect_share s message event o).0
  unfolding collect_share
  collect_share-Linked message event (some (collect_signing_shares k gid sid r sel p sg d)) g =
      let st' = collect_signing_shares k gid sid r (record_share sel event) p sg d in
      IsLinked-replace s.signing (insert s.signing message st') s.signature_id_to_message
        s.signature_id_to_message message h (collect_signing_shares k gid sid r sel p sg d) st' g
        refl (At-insert s.signing message st')
  collect_share-Linked message event _ g = h

  pub handle_sign_shared-Linked : (event : SignShared) → Linked (handle_sign_shared s event).0
  unfolding handle_sign_shared
  handle_sign_shared-Linked event =
      on_linked-Linked (get s.signature_id_to_message event.sid) _
        (λ message. collect_share-Linked message event (get s.signing message) refl)

  complete_round-Linked :
      (block : ℕ) (message : B256) (o : Option SigningState)
      → get s.signing message ≡ o
      → Linked (complete_round t (take_session s message) block message o).0
  unfolding complete_round
  complete_round-Linked block message (some (collect_signing_shares k gid sid r sel p sg d)) g =
      replace_in s.signing s.signature_id_to_message message h
        (collect_signing_shares k gid sid r sel p sg d) (waiting_for_attestation sid p _) g refl
  complete_round-Linked block message (some other) g =
      put_back s.signing s.signature_id_to_message message h other g
  complete_round-Linked block message none g =
      take_none s.signing s.signature_id_to_message message h g

  pub handle_sign_completed-Linked :
      (block : ℕ) (sid : B256) → Linked (handle_sign_completed t s block sid).0
  unfolding handle_sign_completed
  handle_sign_completed-Linked block sid =
      on_linked-Linked (get s.signature_id_to_message sid) _
        (λ message. complete_round-Linked block message (get s.signing message) refl)

  unlink_session-Linked :
      (message : B256) (o : Option SigningState)
      → get s.signing message ≡ o
      → Linked (unlink_session (take_session s message) o)
  unlink_session-Linked message (some (waiting_for_request k gid r p sg d)) g =
      take_unsigned s.signing s.signature_id_to_message message h
        (waiting_for_request k gid r p sg d) g refl
  unlink_session-Linked message (some (waiting_for_oracle k x gid sid n p sg d)) g =
      drop_in s.signing s.signature_id_to_message message h
        (waiting_for_oracle k x gid sid n p sg d) sid g refl
  unlink_session-Linked message (some (collect_nonce_commitments k gid sid n r l p sg d)) g =
      drop_in s.signing s.signature_id_to_message message h
        (collect_nonce_commitments k gid sid n r l p sg d) sid g refl
  unlink_session-Linked message (some (collect_signing_shares k gid sid r sel p sg d)) g =
      drop_in s.signing s.signature_id_to_message message h
        (collect_signing_shares k gid sid r sel p sg d) sid g refl
  unlink_session-Linked message (some (waiting_for_attestation sid p d)) g =
      drop_in s.signing s.signature_id_to_message message h (waiting_for_attestation sid p d) sid g
        refl
  unlink_session-Linked message none g = take_none s.signing s.signature_id_to_message message h g

  pub handle_sign_attested-Linked : (message : B256) → Linked (handle_sign_attested s message).0
  unfolding handle_sign_attested
  handle_sign_attested-Linked message = unlink_session-Linked message (get s.signing message) refl

  propose-Linked :
      (block : ℕ) (event : TransactionProposed) (o : Option Epoch)
      → Linked (propose t s block event o)
  unfolding propose
  propose-Linked block event none = h
  propose-Linked block event (some e) =
      let message =
        transaction_packet_hash t (from_raw event.epoch) event.oracle event.oracle_data
          event.transaction in
      if_State (contains_key t.oracles event.oracle) _ _
        (λ _.
          if_State (contains_key s.signing message) _ _ (λ _. h)
            (λ q.
              IsLinked-unsigned s.signing _ s.signature_id_to_message s.signature_id_to_message
                message h (some _)
                (λ st g. absurd (ground (arith, g, get_of_not-contains_key s.signing message q)))
                (λ st e. ap signature_id (sym (some_inj _ st e))) (At-insert s.signing message _)))
        (λ _. h)

  pub handle_transaction_proposed-Linked :
      (block : ℕ) (event : TransactionProposed)
      → Linked (handle_transaction_proposed t s block event).0
  unfolding handle_transaction_proposed
  handle_transaction_proposed-Linked block event =
      propose-Linked block event (get s.epochs (raw_value (from_raw event.epoch)))

  pub handle_transaction_attested-Linked :
      (event : TransactionAttested) → Linked (handle_transaction_attested t s event).0
  unfolding handle_transaction_attested
  handle_transaction_attested-Linked event = handle_sign_attested-Linked _
