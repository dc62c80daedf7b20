-- ===== src/Validator/Rollover/Onward.antt =====
-- The handlers of the key generation that work toward the epoch that they find.
pub mod Complaints
use shield_net.Prelude.{
  ℕ, ◌≡◌, refl, ap, ◌⊎◌, false, Option, none, some, List, [], ◌∷◌, arith, Option-cases, inl, inr,
  Map, saturating_add, get, insert, ◌==◌, if◌then◌else◌,
}
use shield_net.Validator.Epoch.{EpochId, genesis, number}
use shield_net.Validator.Types.{
  B256, Opaque, Set, Group, KeyGenCommitment, KeyGenParticipation, KeyGenConfirmation, Complaint,
  ConfirmationDeadlines, RolloverState, State, Command, ParticipantSet, Transition, KeyGen,
  KeyGenCommitted, KeyGenSecretShared, KeyGenComplained, KeyGenComplaintResponded,
}
use shield_net.Validator.Groups.{also_exclude}
use shield_net.Validator.Keygen.{
  complained, answered, some_deadline, response_of, insert_share, status_with, open_complaint,
  commitments_of, fresh_deadline, next_epoch, join_key_gen, start_key_gen, remaining, restart_with,
  restart_key_gen_excluding, finalize_key_gen_commitments, handle_genesis_key_gen, set_up, setup_in,
  handle_key_gen_setup, close_commitments, committed_in, handle_key_gen_committed,
  confirmation_round, secret_shared_in, handle_key_gen_secret_shared, complain, complained_in,
  handle_key_gen_complained, finish_confirmation, answer, responded_in,
  handle_key_gen_complaint_responded, stuck_epoch, stalled_round, handle_key_gen_timeouts,
}
use shield_net.Validator.Rollover.{Onward, is_settled}

module _ (t : Transition) where
  join_key_gen-Onward :
      (s : State) (e : EpochId) (p : ParticipantSet) (d : Option ℕ)
      (o : Option (Option (Group × List B256)))
      → next_epoch s.rollover ≡ some e
      → Onward s (join_key_gen t s e p d o).0
  unfolding join_key_gen
  join_key_gen-Onward s e p d o h = ground arith

  pub start_key_gen-Onward :
      (s : State) (e : EpochId) (p : ParticipantSet) (d : Option ℕ)
      → next_epoch s.rollover ≡ some e
      → Onward s (start_key_gen t s e p d).0
  unfolding start_key_gen
  start_key_gen-Onward s e p d h = join_key_gen-Onward s e p d _ h

  restart_with-Onward :
      (s : State) (e : EpochId) (d : Option ℕ) (p : Option ParticipantSet)
      → next_epoch s.rollover ≡ some e
      → Onward s (restart_with t s e d p).0
  unfolding restart_with
  restart_with-Onward s genesis d none h = ground arith
  restart_with-Onward s (number n) d none h = ground arith
  restart_with-Onward s e d (some p) h = start_key_gen-Onward s e p d h

  pub restart_key_gen_excluding-Onward :
      (s : State) (e : EpochId) (x : Set) (d : Option ℕ)
      → next_epoch s.rollover ≡ some e
      → Onward s (restart_key_gen_excluding t s e x d).0
  unfolding restart_key_gen_excluding
  restart_key_gen_excluding-Onward s e x d h = restart_with-Onward s e d (remaining t e x) h

  pub handle_genesis_key_gen-Onward :
      (s : State) (event : KeyGen) → Onward s (handle_genesis_key_gen t s event).0
  unfolding handle_genesis_key_gen
  handle_genesis_key_gen-Onward s event =
      ground (arith, start_key_gen-Onward s genesis t.genesis none)

  finalize-Onward :
      (e : EpochId) (g : Group) (x : Option Opaque) (c : Map Opaque) (d : Option ℕ)
      → (next_epoch (finalize_key_gen_commitments t e g x c d).0 ≡ some e)
        ⊎ ((finalize_key_gen_commitments t e g x c d).0 ≡ RolloverState.halted)
  unfolding finalize_key_gen_commitments
  finalize-Onward e g x c d = ground arith

  setup_in-Onward :
      (s : State) (gid : B256) (x : Opaque) (r : RolloverState)
      → s.rollover ≡ r
      → Onward s (setup_in t s gid x r).0
  unfolding setup_in set_up
  setup_in-Onward s gid x
        (RolloverState.collecting_commitments e g (KeyGenCommitment.participating poap none) c d)
        h =
      ground (arith, finalize-Onward e g (some x) c _)
  setup_in-Onward s gid x _ h = ground arith

  pub handle_key_gen_setup-Onward :
      (s : State) (gid : B256) (x : Opaque) → Onward s (handle_key_gen_setup t s gid x).0
  unfolding handle_key_gen_setup
  handle_key_gen_setup-Onward s gid x = setup_in-Onward s gid x s.rollover refl

  close_commitments-Onward :
      (s : State) (block : ℕ) (e : EpochId) (g : Group) (x : KeyGenCommitment) (c : Map Opaque)
      (d : Option ℕ)
      → next_epoch s.rollover ≡ some e
      → Onward s (close_commitments t s block e g x c d).0
  unfolding close_commitments
  close_commitments-Onward s block e g KeyGenCommitment.observing c d h =
      ground (arith, finalize-Onward e g none c _)
  close_commitments-Onward s block e g (KeyGenCommitment.participating poap none) c d h =
      ground arith
  close_commitments-Onward s block e g (KeyGenCommitment.participating poap (some x)) c d h =
      ground (arith, finalize-Onward e g (some x) c _)

  committed_in-Onward :
      (s : State) (block : ℕ) (event : KeyGenCommitted) (r : RolloverState)
      → s.rollover ≡ r
      → Onward s (committed_in t s block event r).0
  unfolding committed_in
  committed_in-Onward s block event (RolloverState.collecting_commitments e g x c d) h =
      ground (arith, close_commitments-Onward s block e g x _ d)
  committed_in-Onward s block event _ h = ground arith

  pub handle_key_gen_committed-Onward :
      (s : State) (block : ℕ) (event : KeyGenCommitted)
      → Onward s (handle_key_gen_committed t s block event).0
  unfolding handle_key_gen_committed
  handle_key_gen_committed-Onward s block event = committed_in-Onward s block event s.rollover refl

  confirmation_round-Onward :
      (s : State) (e : EpochId) (g : Group) (p : KeyGenParticipation) (c : Map Complaint)
      (d : Option ConfirmationDeadlines) (commands : List Command)
      (o : Option (KeyGenConfirmation × List Command))
      → next_epoch s.rollover ≡ some e
      → Onward s (confirmation_round t s e g p c d commands o).0
  unfolding confirmation_round
  confirmation_round-Onward s e g p c d commands o h = ground arith

  secret_shared_in-Onward :
      (s : State) (block : ℕ) (event : KeyGenSecretShared) (r : RolloverState)
      → s.rollover ≡ r
      → Onward s (secret_shared_in t s block event r).0
  unfolding secret_shared_in
  secret_shared_in-Onward s block event (RolloverState.collecting_shares e g p keys sh c d) h =
      ground (arith, confirmation_round-Onward s e g p c _ _ _)
  secret_shared_in-Onward s block event _ h = ground arith

  pub handle_key_gen_secret_shared-Onward :
      (s : State) (block : ℕ) (event : KeyGenSecretShared)
      → Onward s (handle_key_gen_secret_shared t s block event).0
  unfolding handle_key_gen_secret_shared
  handle_key_gen_secret_shared-Onward s block event =
      secret_shared_in-Onward s block event s.rollover refl
