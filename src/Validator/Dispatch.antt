-- ===== src/Validator/Dispatch.antt =====
-- crates/validator/src/state/mod.rs: the transition, which dispatches a message of the state machine to its
-- handler.
use shield_net.Prelude.{ℕ, List, [], ◌++◌}
use shield_net.Core.Machine.{Message}
use shield_net.Validator.Types.{
  B256, State, Command, Resume, Transition, KeyGen, KeyGenCommitted, KeyGenSecretShared,
  KeyGenConfirmed, KeyGenComplained, KeyGenComplaintResponded, EpochStaged, PreprocessEvent,
  SignEvent, SignRevealedNonces, SignShared, TransactionProposed, TransactionAttested, OracleResult,
}
use shield_net.Validator.Preprocess.{
  handle_nonce_tree, handle_preprocess, handle_nonce_topup, handle_group_reconciliation,
}
use shield_net.Validator.Sign.{
  handle_sign, handle_nonce_commitments, handle_oracle_result, handle_sign_revealed_nonces,
  handle_nonces, handle_sign_shared, handle_sign_completed, handle_transaction_proposed,
  handle_transaction_attested,
}
use shield_net.Validator.Timeouts.{handle_signing_timeouts}
use shield_net.Validator.Keygen.{
  handle_genesis_key_gen, handle_key_gen_setup, handle_key_gen_committed,
  handle_key_gen_secret_shared, handle_key_gen_confirmed, handle_key_gen_complained,
  handle_key_gen_complaint_responded, handle_epoch_staged, handle_rollover_new_block,
  handle_key_gen_timeouts,
}

-- service/mod.rs, with the events of bindings.rs; `other` is an event that no handler takes.
pub data Event : Type 0 where
  key_gen : KeyGen → Event
  key_gen_committed : KeyGenCommitted → Event
  key_gen_secret_shared : KeyGenSecretShared → Event
  key_gen_confirmed : KeyGenConfirmed → Event
  key_gen_complained : KeyGenComplained → Event
  key_gen_complaint_responded : KeyGenComplaintResponded → Event
  preprocess : PreprocessEvent → Event
  sign : SignEvent → Event
  sign_revealed_nonces : SignRevealedNonces → Event
  sign_shared : SignShared → Event
  sign_completed : (sid : B256) → Event
  epoch_staged : EpochStaged → Event
  transaction_proposed : TransactionProposed → Event
  transaction_attested : TransactionAttested → Event
  oracle_result : OracleResult → Event
  other : Event

unfoldable pub apply_event : Transition → State → (block address : ℕ) → Event → State × List Command
apply_event t s block address (key_gen e) = handle_genesis_key_gen t s e
apply_event t s block address (key_gen_committed e) = handle_key_gen_committed t s block e
apply_event t s block address (key_gen_secret_shared e) = handle_key_gen_secret_shared t s block e
apply_event t s block address (key_gen_confirmed e) = handle_key_gen_confirmed t s block e
apply_event t s block address (key_gen_complained e) = handle_key_gen_complained t s block e
apply_event t s block address (key_gen_complaint_responded e) =
    handle_key_gen_complaint_responded t s block e
apply_event t s block address (preprocess e) = handle_preprocess t s e
apply_event t s block address (sign e) = handle_sign t s block e
apply_event t s block address (sign_revealed_nonces e) = handle_sign_revealed_nonces t s block e
apply_event t s block address (sign_shared e) = handle_sign_shared s e
apply_event t s block address (sign_completed sid) = handle_sign_completed t s block sid
apply_event t s block address (epoch_staged e) = handle_epoch_staged s e
apply_event t s block address (transaction_proposed e) = handle_transaction_proposed t s block e
apply_event t s block address (transaction_attested e) = handle_transaction_attested t s e
apply_event t s block address (oracle_result e) = handle_oracle_result t s block address e
apply_event t s block address other = (s, [])

unfoldable pub apply_new_block : Transition → State → ℕ → State × List Command
apply_new_block t s block =
    let (s₁, rollover_commands) = handle_rollover_new_block t s block in
    let (s₂, keygen_timeout_commands) = handle_key_gen_timeouts t s₁ block in
    let (s₃, signing_timeout_commands) = handle_signing_timeouts t s₂ block in
    let (s₄, nonce_topup_commands) = handle_nonce_topup s₃ in
    let (s₅, reconciliation_commands) = handle_group_reconciliation s₄ in
    (
      s₅,
      rollover_commands
          ++ (keygen_timeout_commands
              ++ (signing_timeout_commands ++ (nonce_topup_commands ++ reconciliation_commands))),
    )

unfoldable pub apply_resume : Transition → State → Resume → State × List Command
apply_resume t s Resume.noop = (s, [])
apply_resume t s (Resume.setup group_id secrets) = handle_key_gen_setup t s group_id secrets
apply_resume t s (Resume.nonce_tree group_id commitment) = handle_nonce_tree s group_id commitment
apply_resume t s (Resume.nonce_commitments signature_id message nonces proof) =
    handle_nonce_commitments s signature_id message nonces proof
apply_resume t s (Resume.nonce message nonces) = handle_nonces t s message nonces

unfoldable pub apply_transition : Transition → State → Message Event Resume → State × List Command
unfolding apply_event apply_new_block apply_resume
apply_transition t s (Message.event log) = apply_event t s log.block log.address log.event
apply_transition t s (Message.new_block block) = apply_new_block t s block
apply_transition t s (Message.resume result) = apply_resume t s result
