-- ===== src/Validator/Frame.antt =====
-- What the handlers of signing and of nonces leave alone: the rollover and the active epoch.
pub mod Messages
use shield_net.Prelude.{
  ℕ, ◌≡◌, refl, Bool, true, false, Option, none, some, List, [], ◌∷◌, arith, Bool-cases,
  Option-cases, inl, inr, get, if◌then◌else◌,
}
use shield_net.Validator.Epoch.{from_raw, raw_value}
use shield_net.Validator.Types.{
  B256, Address, Opaque, Epoch, SigningState, NonceIndex, State, Command, Transition, SignEvent,
  SignRevealedNonces, SignShared, OracleResult, PreprocessEvent, TransactionProposed,
  TransactionAttested,
}
use shield_net.Validator.Nonces.{reserve_chunk, available}
use shield_net.Validator.Preprocess.{
  handle_nonce_tree, handle_preprocess, handle_nonce_topup, topup_epoch,
  handle_group_reconciliation,
}
use shield_net.Validator.Sign.{
  observe_group, sign_request, open_round, handle_sign, reveal_action, handle_nonce_commitments,
  oracle_verdict, handle_oracle_result, on_linked, collect_reveal, handle_sign_revealed_nonces,
  share_action, handle_nonces, collect_share, handle_sign_shared, complete_round,
  handle_sign_completed, unlink_session, handle_sign_attested, propose, handle_transaction_proposed,
  handle_transaction_attested,
}
use shield_net.Validator.Timeouts.{handle_signing_timeouts}

-- The rollover and the active epoch are the same.
abbrev pub SameEpoch : State → State → Type 0
SameEpoch s s' = (s'.rollover ≡ s.rollover) × (s'.active_epoch ≡ s.active_epoch)

module _ (t : Transition) (s : State) where
  pub handle_sign-SameEpoch :
      (block : ℕ) (event : SignEvent) → SameEpoch s (handle_sign t s block event).0
  unfolding handle_sign sign_request open_round
  handle_sign-SameEpoch block event = ground arith

  pub handle_oracle_result-SameEpoch :
      (block : ℕ) (oracle : Address) (event : OracleResult)
      → SameEpoch s (handle_oracle_result t s block oracle event).0
  unfolding handle_oracle_result oracle_verdict
  handle_oracle_result-SameEpoch block oracle event = ground arith

  pub handle_nonce_commitments-SameEpoch :
      (sid message : B256) (nonces : Opaque) (proof : List B256)
      → SameEpoch s (handle_nonce_commitments s sid message nonces proof).0
  unfolding handle_nonce_commitments reveal_action
  handle_nonce_commitments-SameEpoch sid message nonces proof = ground arith

  pub handle_sign_revealed_nonces-SameEpoch :
      (block : ℕ) (event : SignRevealedNonces)
      → SameEpoch s (handle_sign_revealed_nonces t s block event).0
  unfolding handle_sign_revealed_nonces on_linked collect_reveal
  handle_sign_revealed_nonces-SameEpoch block event = ground arith

  pub handle_nonces-SameEpoch :
      (message : B256) (nonces : Opaque) → SameEpoch s (handle_nonces t s message nonces).0
  unfolding handle_nonces share_action
  handle_nonces-SameEpoch message nonces = ground arith

  pub handle_sign_shared-SameEpoch :
      (event : SignShared) → SameEpoch s (handle_sign_shared s event).0
  unfolding handle_sign_shared on_linked collect_share
  handle_sign_shared-SameEpoch event = ground arith

  pub handle_sign_completed-SameEpoch :
      (block : ℕ) (sid : B256) → SameEpoch s (handle_sign_completed t s block sid).0
  unfolding handle_sign_completed on_linked complete_round
  handle_sign_completed-SameEpoch block sid = ground arith

  pub handle_sign_attested-SameEpoch :
      (message : B256) → SameEpoch s (handle_sign_attested s message).0
  unfolding handle_sign_attested
  handle_sign_attested-SameEpoch message = ground arith

  pub handle_transaction_proposed-SameEpoch :
      (block : ℕ) (event : TransactionProposed)
      → SameEpoch s (handle_transaction_proposed t s block event).0
  unfolding handle_transaction_proposed propose
  handle_transaction_proposed-SameEpoch block event = ground arith

  pub handle_signing_timeouts-SameEpoch :
      (block : ℕ) → SameEpoch s (handle_signing_timeouts t s block).0
  unfolding handle_signing_timeouts
  handle_signing_timeouts-SameEpoch block = (refl, refl)

  pub handle_nonce_tree-SameEpoch : (gid c : B256) → SameEpoch s (handle_nonce_tree s gid c).0
  unfolding handle_nonce_tree
  handle_nonce_tree-SameEpoch gid c = ground arith

  pub handle_preprocess-SameEpoch :
      (event : PreprocessEvent) → SameEpoch s (handle_preprocess t s event).0
  unfolding handle_preprocess
  handle_preprocess-SameEpoch event = ground arith

  pub handle_nonce_topup-SameEpoch : SameEpoch s (handle_nonce_topup s).0
  unfolding handle_nonce_topup topup_epoch
  handle_nonce_topup-SameEpoch = ground arith

  pub handle_group_reconciliation-SameEpoch : SameEpoch s (handle_group_reconciliation s).0
  unfolding handle_group_reconciliation
  handle_group_reconciliation-SameEpoch = (refl, refl)

  pub handle_transaction_attested-SameEpoch :
      (event : TransactionAttested) → SameEpoch s (handle_transaction_attested t s event).0
  unfolding handle_transaction_attested
  handle_transaction_attested-SameEpoch event = handle_sign_attested-SameEpoch _
