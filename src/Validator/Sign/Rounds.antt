-- ===== src/Validator/Sign/Rounds.antt =====
-- crates/validator/src/state/sign.rs: the rounds of reveals and of shares, and their completion.
use shield_net.Prelude.{
  ℕ, ltb, Option, none, some, List, [], ◌∷◌, if◌then◌else◌, Map, get, insert, length, contains_key,
  saturating_add,
}
use shield_net.Validator.Types.{
  B256, Address, Opaque, Set, SigningSelection, SigningState, collect_nonce_commitments,
  collect_signing_shares, waiting_for_attestation, State, Command, action, effect, Action, Effect,
  SignRevealedNonces, SignShared, Transition,
}
use shield_net.Validator.Packets.{attestation_callback}
use shield_net.Validator.Sign.Opening.{signature_id, put_session, take_session}

-- The participant's nonces are recorded if it is a signer and they are valid.
unfoldable pub record_reveal :
    Transition
    → SignRevealedNonces
    → Set
    → Map Opaque
    → Option Address
    → Map Opaque × Option Address
record_reveal t event signers revealed last_signer =
    if contains_key signers event.participant
    then (elim (t.verify_revealed_nonces event.participant event.nonces) [
      | some nonces ↦ (insert revealed event.participant nonces, some event.participant)
      | none ↦ (revealed, last_signer)
    ])
    else (revealed, last_signer)

unfoldable pub collect_reveal :
    Transition → State → ℕ → B256 → SignRevealedNonces → Option SigningState → State × List Command
unfolding record_reveal saturating_add
collect_reveal t s block message event
      (some (
        collect_nonce_commitments key_share group_id signature_id nonce revealed last_signer packet
          signers deadline)) =
    let (revealed', last_signer') = record_reveal t event signers revealed last_signer in
    if ltb (length revealed') (length signers)
    then (
      put_session s message (
          collect_nonce_commitments key_share group_id signature_id nonce revealed' last_signer'
            packet signers deadline),
      [],
    )
    else (
      put_session s message (
          collect_signing_shares key_share group_id signature_id revealed' [] packet signers
            (saturating_add block t.signing_timeout)),
      effect (Effect.use_nonce message nonce.root nonce.offset) ∷ [],
    )
collect_reveal t s block message event (some other) = (put_session s message other, [])
collect_reveal t s block message event none = (s, [])

unfoldable pub on_linked :
    State → Option B256 → (B256 → State × List Command) → State × List Command
on_linked s none k = (s, [])
on_linked s (some message) k = k message

unfoldable pub handle_sign_revealed_nonces :
    Transition → State → ℕ → SignRevealedNonces → State × List Command
unfolding on_linked collect_reveal
handle_sign_revealed_nonces t s block event =
    on_linked s (get s.signature_id_to_message event.sid) λ message.
      collect_reveal t (take_session s message) block message event (get s.signing message)

unfoldable pub share_action :
    Transition → State → B256 → Opaque → Option SigningState → State × List Command
share_action t s message nonces
      (some (
        collect_signing_shares key_share group_id signature_id revealed selections packet signers
          deadline)) =
    elim (t.signature_share key_share nonces revealed message) [
      | none ↦ (s, [])
      | some share ↦ (
        s,
        action (
              Action.sign_share signature_id share.selection share.share share.proof
                (attestation_callback t packet) deadline)
            ∷ [],
      )
    ]
share_action t s message nonces _ = (s, [])

unfoldable pub handle_nonces : Transition → State → B256 → Opaque → State × List Command
unfolding share_action
handle_nonces t s message nonces = share_action t s message nonces (get s.signing message)

-- `selections.entry(root).or_default()`, with the participant's share recorded.
unfoldable pub record_share : Map SigningSelection → SignShared → Map SigningSelection
record_share selections event = elim (get selections event.selection_root) [
  | none ↦ insert selections event.selection_root (record {
    shares_from = insert [] event.participant tt;
    last_signer = some event.participant;
  })
  | some selection ↦ insert selections event.selection_root (record {
    shares_from = insert selection.shares_from event.participant tt;
    last_signer = some event.participant;
  })
]

unfoldable pub collect_share :
    State → B256 → SignShared → Option SigningState → State × List Command
unfolding record_share
collect_share s message event
      (some (
        collect_signing_shares key_share group_id signature_id revealed selections packet signers
          deadline)) =
    (
      put_session s message (
          collect_signing_shares key_share group_id signature_id revealed
            (record_share selections event) packet signers deadline),
      [],
    )
collect_share s message event _ = (s, [])

unfoldable pub handle_sign_shared : State → SignShared → State × List Command
unfolding on_linked collect_share
handle_sign_shared s event =
    on_linked s (get s.signature_id_to_message event.sid)
      λ message. collect_share s message event (get s.signing message)

unfoldable pub complete_round :
    Transition → State → ℕ → B256 → Option SigningState → State × List Command
unfolding saturating_add
complete_round t s block message (some (collect_signing_shares _ _ signature_id _ _ packet _ _)) = (
  put_session s message
      (waiting_for_attestation signature_id packet (saturating_add block t.signing_timeout)),
  [],
)
complete_round t s block message (some other) = (put_session s message other, [])
complete_round t s block message none = (s, [])

-- `sid` is the event's only field that the handler reads.
unfoldable pub handle_sign_completed : Transition → State → ℕ → B256 → State × List Command
unfolding on_linked complete_round
handle_sign_completed t s block sid =
    on_linked s (get s.signature_id_to_message sid)
      λ message. complete_round t (take_session s message) block message (get s.signing message)
