-- ===== src/Validator/Frame/Messages.antt =====
-- The messages that leave the rollover and the active epoch as they are.
use shield_net.Prelude.{ℕ, ◌≡◌, refl, ◌∙◌, Bool, true, false, arith}
use shield_net.Validator.Types.{State, Resume, Transition}
use shield_net.Validator.Timeouts.{handle_signing_timeouts}
use shield_net.Validator.Preprocess.{handle_nonce_topup}
use shield_net.Validator.Keygen.{handle_rollover_new_block, handle_key_gen_timeouts}
use shield_net.Validator.Dispatch.{
  Event, key_gen, key_gen_committed, key_gen_secret_shared, key_gen_confirmed, key_gen_complained,
  key_gen_complaint_responded, preprocess, sign, sign_revealed_nonces, sign_shared, sign_completed,
  epoch_staged, transaction_proposed, transaction_attested, oracle_result, other, apply_event,
  apply_new_block, apply_resume,
}
use shield_net.Validator.Frame.{
  SameEpoch, handle_sign-SameEpoch, handle_oracle_result-SameEpoch,
  handle_nonce_commitments-SameEpoch, handle_sign_revealed_nonces-SameEpoch,
  handle_nonces-SameEpoch, handle_sign_shared-SameEpoch, handle_sign_completed-SameEpoch,
  handle_transaction_proposed-SameEpoch, handle_transaction_attested-SameEpoch,
  handle_signing_timeouts-SameEpoch, handle_nonce_tree-SameEpoch, handle_preprocess-SameEpoch,
  handle_nonce_topup-SameEpoch, handle_group_reconciliation-SameEpoch,
}

-- The events of key generation and of the rollover.
abbrev pub moves_rollover : Event → Bool
moves_rollover (key_gen e) = true
moves_rollover (key_gen_committed e) = true
moves_rollover (key_gen_secret_shared e) = true
moves_rollover (key_gen_confirmed e) = true
moves_rollover (key_gen_complained e) = true
moves_rollover (key_gen_complaint_responded e) = true
moves_rollover (epoch_staged e) = true
moves_rollover _ = false

abbrev pub resumes_setup : Resume → Bool
resumes_setup (Resume.setup g x) = true
resumes_setup _ = false

module _ (t : Transition) (s : State) where
  pub apply_event-SameEpoch :
      (block address : ℕ) (e : Event)
      → moves_rollover e ≡ false
      → SameEpoch s (apply_event t s block address e).0
  unfolding apply_event
  apply_event-SameEpoch block address (preprocess e) i = handle_preprocess-SameEpoch t s e
  apply_event-SameEpoch block address (sign e) i = handle_sign-SameEpoch t s block e
  apply_event-SameEpoch block address (sign_revealed_nonces e) i =
      handle_sign_revealed_nonces-SameEpoch t s block e
  apply_event-SameEpoch block address (sign_shared e) i = handle_sign_shared-SameEpoch t s e
  apply_event-SameEpoch block address (sign_completed sid) i =
      handle_sign_completed-SameEpoch t s block sid
  apply_event-SameEpoch block address (transaction_proposed e) i =
      handle_transaction_proposed-SameEpoch t s block e
  apply_event-SameEpoch block address (transaction_attested e) i =
      handle_transaction_attested-SameEpoch t s e
  apply_event-SameEpoch block address (oracle_result e) i =
      handle_oracle_result-SameEpoch t s block address e
  apply_event-SameEpoch block address other i = (refl, refl)
  apply_event-SameEpoch block address _ i = absurd (ground (arith, i))

  pub apply_resume-SameEpoch :
      (r : Resume) → resumes_setup r ≡ false → SameEpoch s (apply_resume t s r).0
  unfolding apply_resume
  apply_resume-SameEpoch Resume.noop i = (refl, refl)
  apply_resume-SameEpoch (Resume.setup g x) i = absurd (ground (arith, i))
  apply_resume-SameEpoch (Resume.nonce_tree g c) i = handle_nonce_tree-SameEpoch t s g c
  apply_resume-SameEpoch (Resume.nonce_commitments j m n p) i =
      handle_nonce_commitments-SameEpoch t s j m n p
  apply_resume-SameEpoch (Resume.nonce m n) i = handle_nonces-SameEpoch t s m n

  -- A new block moves the rollover and the active epoch only in its first two passes.
  pub apply_new_block-SameEpoch :
      (block : ℕ)
      → SameEpoch
          (handle_key_gen_timeouts t (handle_rollover_new_block t s block).0 block).0
          (apply_new_block t s block).0
  unfolding apply_new_block
  apply_new_block-SameEpoch block =
      let s₂ = (handle_key_gen_timeouts t (handle_rollover_new_block t s block).0 block).0 in
      let s₃ = (handle_signing_timeouts t s₂ block).0 in
      let s₄ = (handle_nonce_topup s₃).0 in
      let (r, e) = handle_signing_timeouts-SameEpoch t s₂ block in
      let (r', e') = handle_nonce_topup-SameEpoch t s₃ in
      let (r'', e'') = handle_group_reconciliation-SameEpoch t s₄ in (r'' ∙ r' ∙ r, e'' ∙ e' ∙ e)
