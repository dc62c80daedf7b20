-- ===== src/Validator/Complaints/Messages.antt =====
-- Every message of the state machine.
use shield_net.Prelude.{
  ℕ, zero, suc, ◌≡◌, refl, sym, subst, ◌∙◌, Option, none, some, [], Option-cases, inl, inr,
  saturating_add, not, as_u16, insert, length, ◌==◌, leb,
}
use shield_net.Core.Machine.{Message}
use shield_net.Validator.Epoch.{EpochId, genesis, number, next_number}
use shield_net.Validator.Types.{
  Address, KeyShare, Group, KeyGenParticipation, RolloverState, State, Resume, Transition,
  KeyGenConfirmed, EpochStaged,
}
use shield_net.Validator.Dispatch.{
  Event, key_gen, key_gen_committed, key_gen_secret_shared, key_gen_confirmed, key_gen_complained,
  key_gen_complaint_responded, epoch_staged, apply_event, apply_new_block, apply_resume,
  apply_transition,
}
use shield_net.Validator.Frame.{handle_sign_attested-SameEpoch}
use shield_net.Validator.Frame.Messages.{
  apply_event-SameEpoch, apply_new_block-SameEpoch, apply_resume-SameEpoch,
}
use shield_net.Validator.Groups.Members.{participants_set-some}
use shield_net.Validator.Groups.{GroupEpoch, participants_set}
use shield_net.Validator.Keygen.{
  skip_to, target_epoch, key_share_of, finalize_key_gen, handle_key_gen_setup,
  handle_key_gen_committed, handle_key_gen_secret_shared, handle_key_gen_complained,
  handle_key_gen_complaint_responded, stuck_epoch, stalled_round, handle_key_gen_timeouts,
  confirm_regular, confirm_genesis, first_key_gen, confirm_all, confirmed_in,
  handle_key_gen_confirmed, staged_in, handle_epoch_staged, activate, roll_over,
  handle_rollover_new_block,
}
use shield_net.Validator.Complaints.{IsBounded, After, if_keeps}
use shield_net.Validator.Complaints.Rounds.{
  start_key_gen_fits, restart-IsBounded, handle_genesis_key_gen-IsBounded, setup_in-IsBounded,
  committed_in-IsBounded, secret_shared_in-IsBounded,
}
use shield_net.Validator.Complaints.Answers.{
  complained_in-IsBounded, responded_in-IsBounded, failed-IsBounded,
}

module _ (t : Transition) where
  first_key_gen-IsBounded :
      (s : State) (block n : ℕ)
      → IsBounded s.rollover
      → IsBounded
          (first_key_gen t s block n (
            participants_set t.keccak256 t.participants
              (GroupEpoch.number t.consensus n []))).0.rollover
  first_key_gen-IsBounded s block n h =
      elim (Option-cases
        (participants_set t.keccak256 t.participants (GroupEpoch.number t.consensus n []))) [
          | inl q ↦ rw q h
          | inr (p, q) ↦
              let (_, _, fits, _) =
                participants_set-some t.keccak256 t.participants
                  (GroupEpoch.number t.consensus n []) p q in
              rw q (
                start_key_gen_fits t s (number n) p (some (saturating_add block t.key_gen_timeout))
                  fits)
        ]

  confirm_all-IsBounded :
      (s : State) (block : ℕ) (who : Address) (e : EpochId) (g : Group) (p : KeyGenParticipation)
      (k : Option KeyShare)
      → IsBounded (confirm_all t s block who e g p k).0.rollover
  unfolding confirm_all confirm_genesis finalize_key_gen confirm_regular
  confirm_all-IsBounded s block who genesis g p none = first_key_gen-IsBounded _ block _ tt
  confirm_all-IsBounded s block who genesis g p (some k) = first_key_gen-IsBounded _ block _ tt
  confirm_all-IsBounded s block who (number n) g p k = tt

  confirmed_in-IsBounded :
      (s : State) (block : ℕ) (event : KeyGenConfirmed) (r : RolloverState)
      → s.rollover ≡ r
      → IsBounded r
      → IsBounded (confirmed_in t s block event r).0.rollover
  unfolding confirmed_in
  confirmed_in-IsBounded s block event (RolloverState.collecting_confirmations e g p st cf c d) i
        h =
      if_keeps After (g.id == event.gid) _ (s, [])
        (if_keeps After (not (as_u16 (length (insert cf event.participant tt)) == g.count)) _ _ h
          (confirm_all-IsBounded s block event.participant e g p (key_share_of st)))
        (subst IsBounded (sym i) h)
  confirmed_in-IsBounded s block event _ i h = subst IsBounded (sym i) h

  finalize_key_gen_rollover :
      (s : State) (e : EpochId) (g : Group) (k : Option KeyShare)
      → (finalize_key_gen s e g k).0.rollover ≡ s.rollover
  unfolding finalize_key_gen
  finalize_key_gen_rollover s e g none = refl
  finalize_key_gen_rollover s e g (some k) = refl

  skip_to-IsBounded : (n : ℕ) → IsBounded (skip_to n)
  skip_to-IsBounded zero = tt
  skip_to-IsBounded (suc n) = tt

  staged_in-IsBounded :
      (s : State) (event : EpochStaged) (r : RolloverState)
      → s.rollover ≡ r
      → IsBounded r
      → IsBounded (staged_in s event r).0.rollover
  unfolding staged_in
  staged_in-IsBounded s event (RolloverState.signing_rollover n g k m) i h =
      let s' = record s { rollover = RolloverState.epoch_staged n } in
      let s'' = (finalize_key_gen s' (number n) g k).0 in
      if_keeps After (g.id == event.group_id) _ (s, [])
        (subst IsBounded
          (sym (
            (handle_sign_attested-SameEpoch t s'' m).0
            ∙ finalize_key_gen_rollover s' (number n) g k))
          tt)
        (subst IsBounded (sym i) h)
  staged_in-IsBounded s event RolloverState.waiting_for_genesis i h =
      skip_to-IsBounded event.proposed_epoch
  staged_in-IsBounded s event _ i h = subst IsBounded (sym i) h

  roll_over-IsBounded :
      (s : State) (block : ℕ) (target : Option ℕ)
      → IsBounded s.rollover
      → IsBounded (roll_over t s block target).0.rollover
  unfolding roll_over
  roll_over-IsBounded s block none h = h
  roll_over-IsBounded s block (some n) h =
      let next = next_number block t.blocks_per_epoch in
      if_keeps After (leb next n) (s, []) _ h
        (elim (Option-cases
          (participants_set t.keccak256 t.participants (GroupEpoch.number t.consensus next []))) [
            | inl q ↦ rw q tt
            | inr (p, q) ↦
                let (_, _, fits, _) =
                  participants_set-some t.keccak256 t.participants
                    (GroupEpoch.number t.consensus next []) p q in
                rw q (
                  start_key_gen_fits t (activate s n s.rollover) (number next) p
                    (some (saturating_add block t.key_gen_timeout)) fits)
          ])

  handle_key_gen_timeouts-IsBounded :
      (s : State) (block : ℕ)
      → IsBounded s.rollover
      → IsBounded (handle_key_gen_timeouts t s block).0.rollover
  unfolding handle_key_gen_timeouts
  handle_key_gen_timeouts-IsBounded s block h = elim (Option-cases (stuck_epoch s.rollover block)) [
    | inr (e, q) ↦ rw (q, handle_key_gen_timeouts) (failed-IsBounded t e)
    | inl n ↦ elim (Option-cases (stalled_round s.rollover block)) [
      | inl q ↦ rw (n, q, handle_key_gen_timeouts) h
      | inr ((e, x), q) ↦
          rw (n, q, handle_key_gen_timeouts)
            (restart-IsBounded t s e x (some (saturating_add block t.key_gen_timeout)))
    ]
  ]

  apply_event-IsBounded :
      (s : State) (block address : ℕ) (e : Event)
      → IsBounded s.rollover
      → IsBounded (apply_event t s block address e).0.rollover
  unfolding apply_event handle_key_gen_committed handle_key_gen_secret_shared
      handle_key_gen_confirmed handle_key_gen_complained handle_key_gen_complaint_responded
      handle_epoch_staged
  apply_event-IsBounded s block address (key_gen e) h = handle_genesis_key_gen-IsBounded t s e h
  apply_event-IsBounded s block address (key_gen_committed e) h =
      committed_in-IsBounded t s block e s.rollover refl h
  apply_event-IsBounded s block address (key_gen_secret_shared e) h =
      secret_shared_in-IsBounded t s block e s.rollover refl h
  apply_event-IsBounded s block address (key_gen_confirmed e) h =
      confirmed_in-IsBounded s block e s.rollover refl h
  apply_event-IsBounded s block address (key_gen_complained e) h =
      complained_in-IsBounded t s block e s.rollover refl h
  apply_event-IsBounded s block address (key_gen_complaint_responded e) h =
      responded_in-IsBounded t s block e s.rollover refl h
  apply_event-IsBounded s block address (epoch_staged e) h =
      staged_in-IsBounded s e s.rollover refl h
  apply_event-IsBounded s block address e h =
      subst IsBounded (sym (apply_event-SameEpoch t s block address e refl).0) h

  apply_new_block-IsBounded :
      (s : State) (block : ℕ)
      → IsBounded s.rollover
      → IsBounded (apply_new_block t s block).0.rollover
  unfolding handle_rollover_new_block
  apply_new_block-IsBounded s block h =
      let s₁ = (handle_rollover_new_block t s block).0 in
      let h₁ = roll_over-IsBounded s block (target_epoch s.rollover) h in
      subst IsBounded (sym (apply_new_block-SameEpoch t s block).0)
        (handle_key_gen_timeouts-IsBounded s₁ block h₁)

  apply_resume-IsBounded :
      (s : State) (r : Resume) → IsBounded s.rollover → IsBounded (apply_resume t s r).0.rollover
  unfolding apply_resume handle_key_gen_setup
  apply_resume-IsBounded s (Resume.setup g x) h = setup_in-IsBounded t s g x s.rollover refl h
  apply_resume-IsBounded s r h = subst IsBounded (sym (apply_resume-SameEpoch t s r refl).0) h

  -- Every message, whatever its data, keeps these bounds on a key generation: the group's threshold fits in 16
  -- bits, and for each accused participant the open complaints are at most all the complaints against it, which
  -- are fewer than the threshold.
  pub apply_transition-IsBounded :
      (s : State) (m : Message Event Resume)
      → IsBounded s.rollover
      → IsBounded (apply_transition t s m).0.rollover
  unfolding apply_transition
  apply_transition-IsBounded s (Message.event log) h =
      apply_event-IsBounded s log.block log.address log.event h
  apply_transition-IsBounded s (Message.new_block block) h = apply_new_block-IsBounded s block h
  apply_transition-IsBounded s (Message.resume r) h = apply_resume-IsBounded s r h
