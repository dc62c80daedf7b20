-- ===== src/Validator/Rollover/Ahead.antt =====
-- The target against the active epoch, for every message, and when the active epoch changes.
use shield_net.Prelude.{
  ℕ, ◌≤◌, ◌<◌, ◌≡◌, refl, subst, false, Option, none, some, [], arith, Bool-cases, Option-cases,
  inl, inr, leb, length, saturating_add,
}
use shield_net.Core.Machine.{Message}
use shield_net.Validator.Epoch.{EpochId, genesis, number, raw_value, get_number, next_number}
use shield_net.Validator.Types.{
  KeyShare, Group, RolloverState, State, Resume, ParticipantSet, Transition, KeyGenConfirmed,
  EpochStaged,
}
use shield_net.Validator.Keygen.{
  handle_genesis_key_gen, handle_key_gen_committed, handle_key_gen_complained,
  handle_key_gen_complaint_responded, handle_key_gen_secret_shared, handle_key_gen_setup,
  next_epoch, join_key_gen, finalize_key_gen, confirm_genesis, confirm_regular, confirm_all,
  confirmed_in, handle_key_gen_confirmed, staged_in, handle_epoch_staged, activate, roll_over,
  handle_rollover_new_block, target_epoch, start_key_gen, key_share_of, handle_key_gen_timeouts,
}
use shield_net.Validator.Groups.{participants_set, GroupEpoch, to_u16}
use shield_net.Validator.Groups.Members.{participants_set-some}
use shield_net.Validator.Participation.{participate_as, group_and_participants_tree}
use shield_net.Validator.Dispatch.{
  Event, key_gen, key_gen_committed, key_gen_secret_shared, key_gen_confirmed, key_gen_complained,
  key_gen_complaint_responded, epoch_staged, apply_event, apply_new_block, apply_resume,
  apply_transition,
}
use shield_net.Validator.Frame.Messages.{
  apply_event-SameEpoch, apply_new_block-SameEpoch, apply_resume-SameEpoch,
}
use shield_net.Validator.Frame.{SameEpoch, handle_sign_attested-SameEpoch}
use shield_net.Validator.Rollover.{Onward, Targets, IsAhead, is_settled}
use shield_net.Validator.Rollover.Onward.{
  handle_genesis_key_gen-Onward, handle_key_gen_setup-Onward, handle_key_gen_committed-Onward,
  handle_key_gen_secret_shared-Onward,
}
use shield_net.Validator.Rollover.Onward.Complaints.{
  handle_key_gen_complained-Onward, handle_key_gen_complaint_responded-Onward,
  handle_key_gen_timeouts-Onward,
}

SameEpoch-IsAhead : (s s' : State) → SameEpoch s s' → IsAhead s → IsAhead s'
SameEpoch-IsAhead s s' e h = rw (e.0, e.1) h

Onward-IsAhead : (s s' : State) → Onward s s' → IsAhead s → IsAhead s'
Onward-IsAhead s s' (a, inl e, _) h = rw (a, e) h
Onward-IsAhead s s' (a, inr e, _) h = rw (a, e) tt

module _ (t : Transition) where
  next_number-pos : (block : ℕ) → 0 < next_number block t.blocks_per_epoch
  unfolding next_number saturating_add
  next_number-pos block = ground arith

  -- A set that fits is started with, without a panic.
  pub start_key_gen-starts :
      (s : State) (e : EpochId) (p : ParticipantSet) (d : Option ℕ)
      → length p.addresses < 65536
      → ((start_key_gen t s e p d).0.active_epoch ≡ s.active_epoch)
        × (next_epoch (start_key_gen t s e p d).0.rollover ≡ some e)
        × (is_settled (start_key_gen t s e p d).0.rollover ≡ false)
  unfolding start_key_gen join_key_gen participate_as group_and_participants_tree to_u16
  start_key_gen-starts s e p d l = ground arith

  pub participants_set-starts :
      (s : State) (n m : ℕ) (p : ParticipantSet) (d : Option ℕ)
      → participants_set t.keccak256 t.participants (GroupEpoch.number t.consensus n []) ≡ some p
      → ((start_key_gen t s (number m) p d).0.active_epoch ≡ s.active_epoch)
        × (next_epoch (start_key_gen t s (number m) p d).0.rollover ≡ some (number m))
        × (is_settled (start_key_gen t s (number m) p d).0.rollover ≡ false)
  participants_set-starts s n m p d h =
      let (_, _, fits, _) =
        participants_set-some t.keccak256 t.participants (GroupEpoch.number t.consensus n []) p h in
      start_key_gen-starts s (number m) p d fits

  confirm_genesis-IsAhead :
      (s : State) (block : ℕ) (g : Group) (k : Option KeyShare)
      → s.active_epoch ≡ genesis
      → IsAhead (confirm_genesis t s block g k).0
  unfolding confirm_genesis finalize_key_gen
  confirm_genesis-IsAhead s block g k h =
      let n = next_number block t.blocks_per_epoch in
      let pos = next_number-pos block in
      let started : (s' : State) (p : ParticipantSet)
          → s'.active_epoch ≡ genesis
          → participants_set t.keccak256 t.participants (GroupEpoch.number t.consensus n [])
            ≡ some p
          → IsAhead
              (start_key_gen t s' (number n) p (some (saturating_add block t.key_gen_timeout))).0 =
        λ s' p a q.
          let (x, y, _) =
            participants_set-starts s' n n p (some (saturating_add block t.key_gen_timeout)) q in
          rw (x, y, a) pos in
      elim (Option-cases
        (participants_set t.keccak256 t.participants (GroupEpoch.number t.consensus n []))) [
          | inl q ↦ elim k as (λ k. IsAhead (confirm_genesis t s block g k).0) [
            | none ↦ rw (q, h) pos
            | some x ↦ rw (q, h) pos
          ]
          | inr (p, q) ↦ elim k as (λ k. IsAhead (confirm_genesis t s block g k).0) [
            | none ↦ rw q (started _ p h q)
            | some x ↦ rw q (started _ p h q)
          ]
        ]

  confirmed_in-IsAhead :
      (s : State) (block : ℕ) (event : KeyGenConfirmed) (r : RolloverState)
      → s.rollover ≡ r
      → IsAhead s
      → IsAhead (confirmed_in t s block event r).0
  unfolding confirmed_in confirm_all confirm_regular
  confirmed_in-IsAhead s block event (RolloverState.collecting_confirmations genesis g p st cf c d)
        e h =
      ground (arith, confirm_genesis-IsAhead s block g (key_share_of st))
  confirmed_in-IsAhead s block event
        (RolloverState.collecting_confirmations (number n) g p st cf c d) e h =
      ground arith
  confirmed_in-IsAhead s block event _ e h = h

  staged_in-IsAhead :
      (s : State) (event : EpochStaged) (r : RolloverState)
      → s.rollover ≡ r
      → IsAhead s
      → IsAhead (staged_in s event r).0
  unfolding staged_in finalize_key_gen
  staged_in-IsAhead s event (RolloverState.signing_rollover n g k m) e h = ground (
    arith,
    handle_sign_attested-SameEpoch t
        (finalize_key_gen (record s { rollover = RolloverState.epoch_staged n }) (number n) g k).0
        m,
  )
  staged_in-IsAhead s event RolloverState.waiting_for_genesis e h = ground arith
  staged_in-IsAhead s event _ e h = h

  target_ahead :
      (s : State) (n : ℕ)
      → target_epoch s.rollover ≡ some n
      → IsAhead s
      → raw_value s.active_epoch < n
  unfolding target_epoch get_number
  target_ahead s n e h = elim (Option-cases (next_epoch s.rollover)) [
    | inl q ↦ absurd (ground (arith, q, e))
    | inr (genesis, q) ↦ absurd (ground (arith, q, e))
    | inr (number m, q) ↦
        let l : raw_value s.active_epoch < m = subst (Targets s.active_epoch) q h in
        ground (arith, q, e, l)
  ]

  activate-le :
      (s : State) (n : ℕ) (r : RolloverState)
      → raw_value s.active_epoch < n
      → raw_value (activate s n r).active_epoch ≤ n
  activate-le s n (RolloverState.epoch_staged m) h = omega arith
  activate-le s n _ h = omega arith

  roll_over-IsAhead :
      (s : State) (block : ℕ) (target : Option ℕ)
      → target_epoch s.rollover ≡ target
      → IsAhead s
      → IsAhead (roll_over t s block target).0
  unfolding roll_over
  roll_over-IsAhead s block none e h = h
  roll_over-IsAhead s block (some n) e h =
      let next = next_number block t.blocks_per_epoch in
      let s' = activate s n s.rollover in
      let below = activate-le s n s.rollover (target_ahead s n e h) in
      elim (Bool-cases (leb next n)) [
        | inl q ↦ rw q h
        | inr q ↦
            elim (Option-cases (
              participants_set t.keccak256 t.participants
                (GroupEpoch.number t.consensus next []))) [
                  | inl x ↦ rw (q, x) (ground (arith, below, q))
                  | inr (p, x) ↦
                      let (a, y, _) =
                        participants_set-starts s' next next p
                          (some (saturating_add block t.key_gen_timeout)) x in
                      rw (q, x) (rw (y, a) (ground (arith, below, q)))
                ]
      ]

  pub handle_rollover_new_block-IsAhead :
      (s : State) (block : ℕ) → IsAhead s → IsAhead (handle_rollover_new_block t s block).0
  unfolding handle_rollover_new_block
  handle_rollover_new_block-IsAhead s block h =
      roll_over-IsAhead s block (target_epoch s.rollover) refl h

  apply_event-IsAhead :
      (s : State) (block address : ℕ) (e : Event)
      → IsAhead s
      → IsAhead (apply_event t s block address e).0
  unfolding apply_event handle_key_gen_confirmed handle_epoch_staged
  apply_event-IsAhead s block address (key_gen e) h =
      Onward-IsAhead s (handle_genesis_key_gen t s e).0 (handle_genesis_key_gen-Onward t s e) h
  apply_event-IsAhead s block address (key_gen_committed e) h =
      Onward-IsAhead s (handle_key_gen_committed t s block e).0
        (handle_key_gen_committed-Onward t s block e) h
  apply_event-IsAhead s block address (key_gen_secret_shared e) h =
      Onward-IsAhead s (handle_key_gen_secret_shared t s block e).0
        (handle_key_gen_secret_shared-Onward t s block e) h
  apply_event-IsAhead s block address (key_gen_confirmed e) h =
      confirmed_in-IsAhead s block e s.rollover refl h
  apply_event-IsAhead s block address (key_gen_complained e) h =
      Onward-IsAhead s (handle_key_gen_complained t s block e).0
        (handle_key_gen_complained-Onward t s block e) h
  apply_event-IsAhead s block address (key_gen_complaint_responded e) h =
      Onward-IsAhead s (handle_key_gen_complaint_responded t s block e).0
        (handle_key_gen_complaint_responded-Onward t s block e) h
  apply_event-IsAhead s block address (epoch_staged e) h = staged_in-IsAhead s e s.rollover refl h
  apply_event-IsAhead s block address e h =
      SameEpoch-IsAhead s (apply_event t s block address e).0
        (apply_event-SameEpoch t s block address e refl) h

  apply_new_block-IsAhead :
      (s : State) (block : ℕ) → IsAhead s → IsAhead (apply_new_block t s block).0
  apply_new_block-IsAhead s block h =
      let s₁ = (handle_rollover_new_block t s block).0 in
      let s₂ = (handle_key_gen_timeouts t s₁ block).0 in
      let h₁ = handle_rollover_new_block-IsAhead s block h in
      let h₂ = Onward-IsAhead s₁ s₂ (handle_key_gen_timeouts-Onward t s₁ block) h₁ in
      SameEpoch-IsAhead s₂ (apply_new_block t s block).0 (apply_new_block-SameEpoch t s block) h₂

  apply_resume-IsAhead : (s : State) (r : Resume) → IsAhead s → IsAhead (apply_resume t s r).0
  unfolding apply_resume
  apply_resume-IsAhead s (Resume.setup g x) h =
      Onward-IsAhead s (handle_key_gen_setup t s g x).0 (handle_key_gen_setup-Onward t s g x) h
  apply_resume-IsAhead s r h =
      SameEpoch-IsAhead s (apply_resume t s r).0 (apply_resume-SameEpoch t s r refl) h

  -- Every message, event, block or resume, whatever its data, keeps the target of the rollover after the active
  -- epoch, or, before genesis has completed, both at genesis. Once the rollover has halted it has no target.
  pub apply_transition-IsAhead :
      (s : State) (m : Message Event Resume) → IsAhead s → IsAhead (apply_transition t s m).0
  unfolding apply_transition
  apply_transition-IsAhead s (Message.event log) h =
      apply_event-IsAhead s log.block log.address log.event h
  apply_transition-IsAhead s (Message.new_block block) h = apply_new_block-IsAhead s block h
  apply_transition-IsAhead s (Message.resume r) h = apply_resume-IsAhead s r h
