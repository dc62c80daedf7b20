-- ===== src/Validator/Preprocess.antt =====
-- crates/validator/src/state/preprocess.rs: the handlers of nonce trees, of their top-up and of the
-- secrets that a block's end reconciles.
pub mod Topup
pub mod Retained
use shield_net.Prelude.{
  ℕ, Bool, true, false, Option, none, some, List, [], ◌∷◌, leb, ◌==◌, if◌then◌else◌, Map, get,
  insert, split_off,
}
use shield_net.Validator.Epoch.{EpochId, raw_value, min_epoch}
use shield_net.Validator.Types.{
  B256, Address, KeyShare, NonceState, NonceIndex, Epoch, Group, State, RolloverState, SigningState,
  Packet, KeyGenCommitment, KeyGenParticipation, KeyGenConfirmation, Command, action, effect,
  Action, Effect, PreprocessEvent, Transition, collecting_confirmations, signing_rollover,
  collecting_commitments, collecting_shares,
}
use shield_net.Validator.Nonces.{
  nonce_topup_threshold, update_group, ensure_chunk_reservation, link, available, reserve_chunk,
}

unfoldable pub handle_nonce_tree : State → B256 → B256 → State × List Command
unfolding update_group ensure_chunk_reservation
handle_nonce_tree s group_id nonces_commitment =
    let (epochs', found) = update_group ensure_chunk_reservation group_id s.epochs in
    if found
    then (record s { epochs = epochs' }, action (Action.preprocess group_id nonces_commitment) ∷ [])
    else (s, [])

unfoldable pub handle_preprocess : Transition → State → PreprocessEvent → State × List Command
unfolding update_group link
handle_preprocess t s event =
    let (epochs', found) =
      update_group (λ n. link n event.chunk event.commitment) event.gid s.epochs in
    if event.participant == t.account
    then (if found then (record s { epochs = epochs' }, []) else (s, []))
    else (s, [])

unfoldable pub topup_epoch : State → Option Epoch → State × List Command
unfolding available reserve_chunk
topup_epoch s none = (s, [])
topup_epoch s (some e) =
    if leb nonce_topup_threshold (available e.nonces)
    then (s, [])
    else elim (reserve_chunk e.nonces).1 [
      | none ↦ (s, [])
      | some chunk ↦ (
        record s {
          epochs =
              insert s.epochs (raw_value s.active_epoch)
                (record e { nonces = (reserve_chunk e.nonces).0 });
        },
        effect (Effect.nonce_tree e.group.id) ∷ [],
      )
    ]

unfoldable pub handle_nonce_topup : State → State × List Command
unfolding topup_epoch
handle_nonce_topup s = topup_epoch s (get s.epochs (raw_value s.active_epoch))

-- state/sign.rs
abbrev pub packet_epoch : Packet → EpochId
packet_epoch (Packet.epoch_rollover active_epoch _ _ _ _) = active_epoch
packet_epoch (Packet.transaction epoch _ _ _) = epoch

abbrev pub session_packet : SigningState → Packet
session_packet (SigningState.waiting_for_request _ _ _ packet _ _) = packet
session_packet (SigningState.waiting_for_oracle _ _ _ _ _ packet _ _) = packet
session_packet (SigningState.collect_nonce_commitments _ _ _ _ _ _ packet _ _) = packet
session_packet (SigningState.collect_signing_shares _ _ _ _ _ packet _ _) = packet
session_packet (SigningState.waiting_for_attestation _ packet _) = packet

-- `.fold(state.active_epoch, EpochId::min)` over the sessions
unfoldable pub oldest_epoch : EpochId → Map SigningState → EpochId
unfolding min_epoch
oldest_epoch acc [] = acc
oldest_epoch acc ((m, signing) ∷ rest) =
    oldest_epoch (min_epoch acc (packet_epoch (session_packet signing))) rest

-- `.collect::<BTreeMap<_, _>>()`: a later epoch of the same group wins.
unfoldable pub epoch_groups : Map (Option KeyShare) → Map Epoch → Map (Option KeyShare)
epoch_groups acc [] = acc
epoch_groups acc ((k, e) ∷ rest) = epoch_groups (insert acc e.group.id (some e.key_share)) rest

-- The group of the key generation in progress, where this validator takes part in it.
unfoldable pub rollover_group : RolloverState → Option (B256 × Option KeyShare)
rollover_group (collecting_confirmations _ group _ (KeyGenConfirmation.confirmed key_share) _ _ _) =
    some (group.id, some key_share)
rollover_group (signing_rollover _ group (some key_share) _) = some (group.id, some key_share)
rollover_group (collecting_commitments _ group (KeyGenCommitment.participating _ _) _ _) =
    some (group.id, none)
rollover_group (collecting_shares _ group (KeyGenParticipation.participating _) _ _ _ _) =
    some (group.id, none)
rollover_group (collecting_confirmations _ group (KeyGenParticipation.participating _) _ _ _ _) =
    some (group.id, none)
rollover_group _ = none

abbrev pub extend : Map (Option KeyShare) → Option (B256 × Option KeyShare) → Map (Option KeyShare)
extend groups none = groups
extend groups (some (id, key_share)) = insert groups id key_share

unfoldable pub handle_group_reconciliation : State → State × List Command
unfolding oldest_epoch epoch_groups rollover_group
handle_group_reconciliation s =
    let oldest = oldest_epoch s.active_epoch s.signing in
    let epochs' = split_off s.epochs (raw_value oldest) in
    (
      record s { epochs = epochs' },
      effect (
            Effect.reconcile_group_secrets
              (extend (epoch_groups [] epochs') (rollover_group s.rollover)))
          ∷ [],
    )
