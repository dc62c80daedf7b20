-- ===== src/Validator/Complaints.antt =====
-- crates/validator/src/state/keygen.rs: the bounds on the counters of complaints.
pub mod Rounds
pub mod Answers
pub mod Messages
use shield_net.Prelude.{
  ℕ, zero, suc, ◌/◌, ◌%◌, ◌^◌, ◌≤◌, ◌<◌, ◌≡◌, refl, ap, sym, subst, ◌∙◌, Bool, true, false, ◌&&◌,
  Option, none, some, List, [], ◌∷◌, arith, Bool-cases, Option-cases, inl, inr, Map, saturating_add,
  not, as_u16, get, insert, get-insert, length, ◌==◌, leb, if◌then◌else◌,
}
use shield_net.Core.Machine.{EventLog, Message}
use shield_net.Validator.Epoch.{EpochId, genesis, number, next_number}
use shield_net.Validator.Types.{
  B256, Address, KeyShare, Opaque, Set, Group, KeyGenCommitment, KeyGenParticipation,
  KeyGenConfirmation, Complaint, ConfirmationDeadlines, RolloverState, State, Command, Resume,
  ParticipantSet, Transition, KeyGen, KeyGenCommitted, KeyGenSecretShared, KeyGenConfirmed,
  KeyGenComplained, KeyGenComplaintResponded, EpochStaged,
}
use shield_net.Validator.Dispatch.{
  Event, key_gen, key_gen_committed, key_gen_secret_shared, key_gen_confirmed, key_gen_complained,
  key_gen_complaint_responded, epoch_staged, apply_event, apply_new_block, apply_resume,
  apply_transition,
}
use shield_net.Validator.Frame.{handle_sign_attested-SameEpoch}
use shield_net.Validator.Frame.Messages.{
  apply_event-SameEpoch, apply_new_block-SameEpoch, apply_resume-SameEpoch,
}
use shield_net.Validator.Groups.Members.{participants_set-some}
use shield_net.Validator.Groups.{
  GroupEpoch, participants_set, also_exclude, group_threshold, to_u16,
}
use shield_net.Validator.Participation.{participate_as, group_and_participants_tree}
use shield_net.Validator.Keygen.{
  rollover_failure, skip_to, target_epoch, insert_valid, insert_public_key, complained, answered,
  some_deadline, response_of, can_complain, can_respond, key_share_of, insert_share, status_with,
  open_complaint, commitments_of, fresh_deadline, join_key_gen, start_key_gen, remaining,
  restart_with, restart_key_gen_excluding, finalize_key_gen_commitments, finalize_key_gen,
  confirm_key_gen, handle_genesis_key_gen, set_up, setup_in, handle_key_gen_setup,
  close_commitments, committed_in, handle_key_gen_committed, confirmation_round, first_status,
  receive_share, secret_shared_in, handle_key_gen_secret_shared, complain, complained_in,
  handle_key_gen_complained, finish_confirmation, answer, responded_in,
  handle_key_gen_complaint_responded, stuck_epoch, stalled_round, handle_key_gen_timeouts,
  confirm_regular, confirm_genesis, first_key_gen, confirm_all, confirmed_in,
  handle_key_gen_confirmed, staged_in, handle_epoch_staged, activate, fresh_key_gen, roll_over,
  handle_rollover_new_block,
}

-- Of the complaints against anyone, at most as many are open as were raised, which are fewer than `threshold`.
abbrev pub Bounded : ℕ → Map Complaint → Type 0
Bounded threshold m =
    (a : Address) (c : Complaint)
    → get m a ≡ some c
    → (c.unresponded ≤ c.total) × (c.total < threshold)

-- Thresholds fit in 16 bits, and the counters lie below the threshold of their group.
abbrev pub IsBounded : RolloverState → Type 0
IsBounded (RolloverState.collecting_commitments e g x c d) = g.threshold < 65536
IsBounded (RolloverState.collecting_shares e g p keys sh c d) =
    (g.threshold < 65536) × Bounded g.threshold c
IsBounded (RolloverState.collecting_confirmations e g p st cf c d) =
    (g.threshold < 65536) × Bounded g.threshold c
IsBounded _ = Unit

pub Bounded-empty : (th : ℕ) → Bounded th []
unfolding get
Bounded-empty th a c h = absurd (ground (arith, h))

pub Bounded-insert :
    (th : ℕ) (m : Map Complaint) (a : Address) (x : Complaint)
    → x.unresponded ≤ x.total
    → x.total < th
    → Bounded th m
    → Bounded th (insert m a x)
Bounded-insert th m a x l l' b j c h = elim (Bool-cases (a == j)) [
  | inl q ↦ ground (arith, q, h, get-insert m a j x)
  | inr q ↦ ground (arith, q, h, get-insert m a j x, b j c)
]

-- One more complaint, whose counters do not wrap.
pub complained-Bounded :
    (th : ℕ) (m : Map Complaint) (a : Address)
    → th < 65536
    → Bounded th m
    → (leb th (complained (get m a)).total ≡ false)
    → Bounded th (insert m a (complained (get m a)))
complained-Bounded th m a l b h = elim (Option-cases (get m a)) [
  | inl q ↦ rw q (Bounded-insert th m a (complained none) (omega arith) (ground (arith, q, h)) b)
  | inr (c, q) ↦
      let bounds = b a c q in
      rw q (
        Bounded-insert th m a (complained (some c)) (ground (arith, bounds)) (ground (arith, q, h))
          b)
]

pub if_keeps :
    {A : Type 0} (P : A → Type 0) (b : Bool) (x y : A) → P x → P y → P (if b then x else y)
if_keeps P true x y h k = h
if_keeps P false x y h k = k

abbrev pub After : State × List Command → Type 0
After r = IsBounded r.0.rollover
