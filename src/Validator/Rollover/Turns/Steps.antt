-- ===== src/Validator/Rollover/Turns/Steps.antt =====
-- Every message makes one of the turns.
use shield_net.Prelude.{
  insert, as_u16, ℕ, ◌<◌, ◌≡◌, refl, ap, ◌∙◌, false, Option, none, some, [], arith, Bool-cases, inl,
  inr, ==→eq, some_inj, Map, ◌==◌, leb, length, saturating_add,
}
use shield_net.Core.Machine.{EventLog, Message}
use shield_net.Validator.Epoch.{EpochId, genesis, number, get_number, next_number}
use shield_net.Validator.Types.{
  KeyShare, Set, Group, Complaint, ConfirmationDeadlines, KeyGenParticipation, KeyGenConfirmation,
  RolloverState, State, Resume, ParticipantSet, Transition, KeyGenConfirmed, EpochStaged,
}
use shield_net.Validator.Keygen.{
  handle_genesis_key_gen, handle_key_gen_committed, handle_key_gen_complained,
  handle_key_gen_complaint_responded, handle_key_gen_secret_shared, handle_key_gen_setup,
  next_epoch, finalize_key_gen, confirm_genesis, first_key_gen, confirm_regular, confirm_all,
  confirmed_in, handle_key_gen_confirmed, staged_in, handle_epoch_staged, activate, fresh_key_gen,
  roll_over, handle_rollover_new_block, target_epoch, key_share_of, handle_key_gen_timeouts,
}
use shield_net.Validator.Groups.{participants_set, GroupEpoch}
use shield_net.Validator.Dispatch.{
  Event, key_gen, key_gen_committed, key_gen_secret_shared, key_gen_confirmed, key_gen_complained,
  key_gen_complaint_responded, epoch_staged, apply_event, apply_new_block, apply_resume,
  apply_transition,
}
use shield_net.Validator.Frame.{handle_sign_attested-SameEpoch}
use shield_net.Validator.Rollover.Ahead.{participants_set-starts}
use shield_net.Validator.Rollover.{is_settled}
use shield_net.Validator.Rollover.Onward.{
  start_key_gen-Onward, handle_genesis_key_gen-Onward, handle_key_gen_setup-Onward,
  handle_key_gen_committed-Onward, handle_key_gen_secret_shared-Onward,
}
use shield_net.Validator.Rollover.Onward.Complaints.{
  handle_key_gen_complained-Onward, handle_key_gen_complaint_responded-Onward,
  handle_key_gen_timeouts-Onward,
}
use shield_net.Validator.Frame.Messages.{
  apply_event-SameEpoch, apply_new_block-SameEpoch, apply_resume-SameEpoch,
}
use shield_net.Validator.Rollover.Turns.{
  Turn, quiet, confirmed, staged, rolled, SameEpoch-Quiet, Quiet-trans, still, onward, Turn-Quiet,
}

module _ (t : Transition) where
  first_key_gen-Quiet :
      (s : State) (block n : ℕ) (o : Option ParticipantSet)
      → s.rollover ≡ RolloverState.epoch_skipped n
      → ((first_key_gen t s block n o).0.active_epoch ≡ s.active_epoch)
        × (is_settled (first_key_gen t s block n o).0.rollover ≡ false)
  first_key_gen-Quiet s block n none h = (refl, rw h)
  first_key_gen-Quiet s block n (some p) h = ground (
    arith,
    h,
    start_key_gen-Onward t s (number n) p (some (saturating_add block t.key_gen_timeout))
        (ap next_epoch h),
  )

  confirm_genesis-Quiet :
      (s : State) (block : ℕ) (g : Group) (k : Option KeyShare)
      → ((confirm_genesis t s block g k).0.active_epoch ≡ s.active_epoch)
        × (is_settled (confirm_genesis t s block g k).0.rollover ≡ false)
  unfolding confirm_genesis finalize_key_gen
  confirm_genesis-Quiet s block g none = first_key_gen-Quiet _ block _ _ refl
  confirm_genesis-Quiet s block g (some k) = first_key_gen-Quiet _ block _ _ refl

  confirm_all-Turn :
      (s : State) (log : EventLog Event) (event : KeyGenConfirmed) (e : EpochId) (g : Group)
      (p : KeyGenParticipation) (st : KeyGenConfirmation) (cf : Set) (c : Map Complaint)
      (d : Option ConfirmationDeadlines)
      → log.event ≡ key_gen_confirmed event
      → s.rollover ≡ RolloverState.collecting_confirmations e g p st cf c d
      → g.id ≡ event.gid
      → as_u16 (length (insert cf event.participant tt)) ≡ g.count
      → Turn t s
          (confirm_all t s log.block event.participant e g p (key_share_of st)).0
          (Message.event log)
  unfolding confirm_all confirm_regular
  confirm_all-Turn s log event genesis g p st cf c d i h q r =
      let (a, u) = confirm_genesis-Quiet s log.block g (key_share_of st) in quiet a (inr u)
  confirm_all-Turn s log event (number n) g p st cf c d i h q r =
      confirmed log event n g p st cf c d (key_share_of st) _ refl i h q r refl refl

  confirmed_in-Turn :
      (s : State) (log : EventLog Event) (event : KeyGenConfirmed) (r : RolloverState)
      → log.event ≡ key_gen_confirmed event
      → s.rollover ≡ r
      → Turn t s (confirmed_in t s log.block event r).0 (Message.event log)
  unfolding confirmed_in
  confirmed_in-Turn s log event (RolloverState.collecting_confirmations e g p st cf c d) i h =
      elim (Bool-cases (g.id == event.gid)) [
        | inr q ↦ rw q (quiet refl (inl refl))
        | inl q ↦ elim (Bool-cases (as_u16 (length (insert cf event.participant tt)) == g.count)) [
          | inr r ↦ rw (q, r) (quiet refl (inr refl))
          | inl r ↦
              rw (q, r)
                (confirm_all-Turn s log event e g p st cf c d i h (==→eq g.id event.gid q)
                  (==→eq (as_u16 (length (insert cf event.participant tt))) g.count r))
        ]
      ]
  confirmed_in-Turn s log event _ i h = quiet refl (inl refl)

  finalize_key_gen-rollover :
      (s : State) (e : EpochId) (g : Group) (k : Option KeyShare)
      → ((finalize_key_gen s e g k).0.rollover ≡ s.rollover)
        × ((finalize_key_gen s e g k).0.active_epoch ≡ s.active_epoch)
  unfolding finalize_key_gen
  finalize_key_gen-rollover s e g none = (refl, refl)
  finalize_key_gen-rollover s e g (some k) = (refl, refl)

  staged_in-Turn :
      (s : State) (log : EventLog Event) (event : EpochStaged) (r : RolloverState)
      → log.event ≡ epoch_staged event
      → s.rollover ≡ r
      → Turn t s (staged_in s event r).0 (Message.event log)
  unfolding staged_in
  staged_in-Turn s log event (RolloverState.signing_rollover n g k m) i h =
      elim (Bool-cases (g.id == event.group_id)) [
        | inr q ↦ rw q (quiet refl (inl refl))
        | inl q ↦
            let s' =
              (finalize_key_gen (record s { rollover = RolloverState.epoch_staged n }) (number n) g
                k).0 in
            let (r, a) = handle_sign_attested-SameEpoch t s' m in
            let (r', a') =
              finalize_key_gen-rollover (record s { rollover = RolloverState.epoch_staged n })
                (number n) g k in
            rw q (staged log event n g k m refl i h (==→eq g.id event.group_id q) (a ∙ a') (r ∙ r'))
      ]
  staged_in-Turn s log event RolloverState.waiting_for_genesis i h = quiet refl (inr (ground arith))
  staged_in-Turn s log event _ i h = quiet refl (inl refl)

  fresh_key_gen-Quiet :
      (s : State) (block n : ℕ) (o : Option ParticipantSet)
      → participants_set t.keccak256 t.participants (GroupEpoch.number t.consensus n []) ≡ o
      → ((fresh_key_gen t s block n o).0.active_epoch ≡ s.active_epoch)
        × (is_settled (fresh_key_gen t s block n o).0.rollover ≡ false)
  fresh_key_gen-Quiet s block n none h = (refl, refl)
  fresh_key_gen-Quiet s block n (some p) h =
      let (a, _, u) =
        participants_set-starts t s n n p (some (saturating_add block t.key_gen_timeout)) h in
      (a, u)

  activate-Turn :
      (s s' : State) (block n : ℕ) (r : RolloverState)
      → s.rollover ≡ r
      → target_epoch r ≡ some n
      → n < next_number block t.blocks_per_epoch
      → s'.active_epoch ≡ (activate s n r).active_epoch
      → is_settled s'.rollover ≡ false
      → Turn t s s' (Message.new_block block)
  unfolding target_epoch get_number
  activate-Turn s s' block n (RolloverState.epoch_staged m) h e l a u =
      rolled block n refl (h ∙ ap RolloverState.epoch_staged (some_inj m n e)) l a u
  activate-Turn s s' block n _ h e l a u = quiet a (inr u)

  roll_over-Turn :
      (s : State) (block : ℕ) (target : Option ℕ)
      → target_epoch s.rollover ≡ target
      → Turn t s (roll_over t s block target).0 (Message.new_block block)
  unfolding roll_over
  roll_over-Turn s block none e = quiet refl (inl refl)
  roll_over-Turn s block (some n) e =
      let next = next_number block t.blocks_per_epoch in
      elim (Bool-cases (leb next n)) [
        | inl q ↦ rw q (quiet refl (inl refl))
        | inr q ↦
            let (a, u) = fresh_key_gen-Quiet (activate s n s.rollover) block next _ refl in
            rw q (activate-Turn s _ block n s.rollover refl e (ground (arith, q)) a u)
      ]

  handle_rollover_new_block-Turn :
      (s : State) (block : ℕ)
      → Turn t s (handle_rollover_new_block t s block).0 (Message.new_block block)
  unfolding handle_rollover_new_block
  handle_rollover_new_block-Turn s block = roll_over-Turn s block (target_epoch s.rollover) refl

  apply_new_block-Turn :
      (s : State) (block : ℕ) → Turn t s (apply_new_block t s block).0 (Message.new_block block)
  apply_new_block-Turn s block =
      let s₁ = (handle_rollover_new_block t s block).0 in
      let s₂ = (handle_key_gen_timeouts t s₁ block).0 in
      let s₅ = (apply_new_block t s block).0 in
      let o = handle_key_gen_timeouts-Onward t s₁ block in
      let q =
        Quiet-trans s₁ s₂ s₅ (o.0, o.2)
          (SameEpoch-Quiet s₂ s₅ (apply_new_block-SameEpoch t s block)) in
      Turn-Quiet t s s₁ s₅ (Message.new_block block) (handle_rollover_new_block-Turn s block) q
        block refl

  apply_event-Turn :
      (s : State) (log : EventLog Event) (e : Event)
      → log.event ≡ e
      → Turn t s (apply_event t s log.block log.address e).0 (Message.event log)
  unfolding apply_event handle_key_gen_confirmed handle_epoch_staged
  apply_event-Turn s log (key_gen e) i =
      onward t s (handle_genesis_key_gen t s e).0 (Message.event log)
        (handle_genesis_key_gen-Onward t s e)
  apply_event-Turn s log (key_gen_committed e) i =
      onward t s (handle_key_gen_committed t s log.block e).0 (Message.event log)
        (handle_key_gen_committed-Onward t s log.block e)
  apply_event-Turn s log (key_gen_secret_shared e) i =
      onward t s (handle_key_gen_secret_shared t s log.block e).0 (Message.event log)
        (handle_key_gen_secret_shared-Onward t s log.block e)
  apply_event-Turn s log (key_gen_confirmed e) i = confirmed_in-Turn s log e s.rollover i refl
  apply_event-Turn s log (key_gen_complained e) i =
      onward t s (handle_key_gen_complained t s log.block e).0 (Message.event log)
        (handle_key_gen_complained-Onward t s log.block e)
  apply_event-Turn s log (key_gen_complaint_responded e) i =
      onward t s (handle_key_gen_complaint_responded t s log.block e).0 (Message.event log)
        (handle_key_gen_complaint_responded-Onward t s log.block e)
  apply_event-Turn s log (epoch_staged e) i = staged_in-Turn s log e s.rollover i refl
  apply_event-Turn s log e i =
      still t s (apply_event t s log.block log.address e).0 (Message.event log)
        (apply_event-SameEpoch t s log.block log.address e refl)

  apply_resume-Turn : (s : State) (r : Resume) → Turn t s (apply_resume t s r).0 (Message.resume r)
  unfolding apply_resume
  apply_resume-Turn s (Resume.setup g x) =
      onward t s (handle_key_gen_setup t s g x).0 (Message.resume (Resume.setup g x))
        (handle_key_gen_setup-Onward t s g x)
  apply_resume-Turn s r =
      still t s (apply_resume t s r).0 (Message.resume r) (apply_resume-SameEpoch t s r refl)

  pub apply_transition-Turn :
      (s : State) (m : Message Event Resume) → Turn t s (apply_transition t s m).0 m
  unfolding apply_transition
  apply_transition-Turn s (Message.event log) = apply_event-Turn s log log.event refl
  apply_transition-Turn s (Message.new_block block) = apply_new_block-Turn s block
  apply_transition-Turn s (Message.resume r) = apply_resume-Turn s r
