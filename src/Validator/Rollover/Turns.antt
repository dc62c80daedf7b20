-- ===== src/Validator/Rollover/Turns.antt =====
-- What a message does to the rollover and to the active epoch.
pub mod Steps
use shield_net.Prelude.{
  insert, as_u16, ℕ, ◌<◌, ◌≡◌, refl, ap, ◌∙◌, ◌⊎◌, false, Option, none, some, [], arith, Bool-cases,
  inl, inr, ==→eq, some_inj, Map, ◌==◌, leb, length, saturating_add,
}
use shield_net.Core.Machine.{EventLog, Message}
use shield_net.Validator.Epoch.{EpochId, genesis, number, get_number, next_number}
use shield_net.Validator.Types.{
  B256, KeyShare, Set, Group, Complaint, ConfirmationDeadlines, KeyGenParticipation,
  KeyGenConfirmation, RolloverState, State, Resume, ParticipantSet, Transition, KeyGenConfirmed,
  EpochStaged,
}
use shield_net.Validator.Keygen.{
  handle_genesis_key_gen, handle_key_gen_committed, handle_key_gen_complained,
  handle_key_gen_complaint_responded, handle_key_gen_secret_shared, handle_key_gen_setup,
  next_epoch, finalize_key_gen, confirm_genesis, first_key_gen, confirm_regular, confirm_all,
  confirmed_in, handle_key_gen_confirmed, staged_in, handle_epoch_staged, activate, fresh_key_gen,
  roll_over, handle_rollover_new_block, target_epoch, key_share_of, handle_key_gen_timeouts,
}
use shield_net.Validator.Groups.{participants_set, GroupEpoch}
use shield_net.Validator.Dispatch.{
  Event, key_gen, key_gen_committed, key_gen_secret_shared, key_gen_confirmed, key_gen_complained,
  key_gen_complaint_responded, epoch_staged, apply_event, apply_new_block, apply_resume,
  apply_transition,
}
use shield_net.Validator.Frame.{SameEpoch, handle_sign_attested-SameEpoch}
use shield_net.Validator.Rollover.Ahead.{participants_set-starts}
use shield_net.Validator.Rollover.{Onward, is_settled}
use shield_net.Validator.Rollover.Onward.{
  start_key_gen-Onward, handle_genesis_key_gen-Onward, handle_key_gen_setup-Onward,
  handle_key_gen_committed-Onward, handle_key_gen_secret_shared-Onward,
}
use shield_net.Validator.Rollover.Onward.Complaints.{
  handle_key_gen_complained-Onward, handle_key_gen_complaint_responded-Onward,
  handle_key_gen_timeouts-Onward,
}
use shield_net.Validator.Frame.Messages.{
  apply_event-SameEpoch, apply_new_block-SameEpoch, apply_resume-SameEpoch,
}

-- Either nothing that matters to a settled group, or one of the three steps of an epoch: its last confirmation, its
-- staging, and the block that makes it the active one.
pub data Turn (t : Transition) (s s' : State) (m : Message Event Resume) : Type 0 where
  quiet :
      s'.active_epoch ≡ s.active_epoch
      → (s'.rollover ≡ s.rollover) ⊎ (is_settled s'.rollover ≡ false)
      → Turn t s s' m
  confirmed :
      (log : EventLog Event) (e : KeyGenConfirmed) (n : ℕ) (g : Group) (p : KeyGenParticipation)
      (st : KeyGenConfirmation) (cf : Set) (c : Map Complaint) (d : Option ConfirmationDeadlines)
      (k : Option KeyShare) (message : B256)
      → m ≡ Message.event log
      → log.event ≡ key_gen_confirmed e
      → s.rollover ≡ RolloverState.collecting_confirmations (number n) g p st cf c d
      → g.id ≡ e.gid
      → as_u16 (length (insert cf e.participant tt)) ≡ g.count
      → s'.active_epoch ≡ s.active_epoch
      → s'.rollover ≡ RolloverState.signing_rollover n g k message
      → Turn t s s' m
  staged :
      (log : EventLog Event) (e : EpochStaged) (n : ℕ) (g : Group) (k : Option KeyShare)
      (message : B256)
      → m ≡ Message.event log
      → log.event ≡ epoch_staged e
      → s.rollover ≡ RolloverState.signing_rollover n g k message
      → g.id ≡ e.group_id
      → s'.active_epoch ≡ s.active_epoch
      → s'.rollover ≡ RolloverState.epoch_staged n
      → Turn t s s' m
  rolled :
      (block n : ℕ)
      → m ≡ Message.new_block block
      → s.rollover ≡ RolloverState.epoch_staged n
      → n < next_number block t.blocks_per_epoch
      → s'.active_epoch ≡ number n
      → is_settled s'.rollover ≡ false
      → Turn t s s' m

-- A block, whose later handlers are quiet.
abbrev Quiet : State → State → Type 0
Quiet s s' =
    (s'.active_epoch ≡ s.active_epoch)
    × ((s'.rollover ≡ s.rollover) ⊎ (is_settled s'.rollover ≡ false))

pub SameEpoch-Quiet : (s s' : State) → SameEpoch s s' → Quiet s s'
SameEpoch-Quiet s s' e = (e.1, inl e.0)

pub Quiet-trans : (s s' s'' : State) → Quiet s s' → Quiet s' s'' → Quiet s s''
Quiet-trans s s' s'' (a, inl e) (b, inl f) = (b ∙ a, inl (f ∙ e))
Quiet-trans s s' s'' (a, inr e) (b, inl f) = (b ∙ a, inr (ap is_settled f ∙ e))
Quiet-trans s s' s'' (a, _) (b, inr f) = (b ∙ a, inr f)

module _ (t : Transition) where
  pub Quiet-Turn : (s s' : State) (m : Message Event Resume) → Quiet s s' → Turn t s s' m
  Quiet-Turn s s' m (a, e) = quiet a e

  pub still : (s s' : State) (m : Message Event Resume) → SameEpoch s s' → Turn t s s' m
  still s s' m e = quiet e.1 (inl e.0)

  pub onward : (s s' : State) (m : Message Event Resume) → Onward s s' → Turn t s s' m
  onward s s' m (a, _, e) = quiet a e

  pub Turn-Quiet :
      (s s' s'' : State) (m : Message Event Resume)
      → Turn t s s' m
      → Quiet s' s''
      → (block : ℕ) → m ≡ Message.new_block block
      → Turn t s s'' m
  Turn-Quiet s s' s'' m (quiet a e) q block i = Quiet-Turn s s'' m (Quiet-trans s s' s'' (a, e) q)
  Turn-Quiet s s' s'' m (rolled b n i' r l a u) q block i =
      rolled b n i' r l (q.0 ∙ a) (settled_of q.1)
    where
      settled_of :
          (s''.rollover ≡ s'.rollover) ⊎ (is_settled s''.rollover ≡ false)
          → is_settled s''.rollover ≡ false
      settled_of (inl x) = ap is_settled x ∙ u
      settled_of (inr x) = x
  Turn-Quiet s s' s'' m (confirmed log e n g p st cf c d k message x _ _ _ _ _ _) q block i =
      absurd (ground (arith, x, i))
  Turn-Quiet s s' s'' m (staged log e n g k message x _ _ _ _ _) q block i =
      absurd (ground (arith, x, i))
