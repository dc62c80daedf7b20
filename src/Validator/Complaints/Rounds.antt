-- ===== src/Validator/Complaints/Rounds.antt =====
-- The rounds of key generation up to the confirmations.
use shield_net.Prelude.{
  ℕ, ◌<◌, ◌≡◌, sym, subst, Option, none, some, List, [], arith, Option-cases, inl, inr, Map, not,
  as_u16, length, ◌==◌,
}
use shield_net.Validator.Epoch.{EpochId, genesis, number}
use shield_net.Validator.Types.{
  B256, Opaque, Set, Group, KeyGenCommitment, KeyGenParticipation, KeyGenConfirmation, Complaint,
  ConfirmationDeadlines, RolloverState, State, Command, ParticipantSet, Transition, KeyGen,
  KeyGenCommitted, KeyGenSecretShared,
}
use shield_net.Validator.Groups.Members.{participants_set-some}
use shield_net.Validator.Groups.{GroupEpoch, participants_set, group_threshold, to_u16}
use shield_net.Validator.Participation.{participate_as, group_and_participants_tree}
use shield_net.Validator.Keygen.{
  insert_valid, insert_public_key, commitments_of, join_key_gen, start_key_gen, remaining,
  restart_with, restart_key_gen_excluding, finalize_key_gen_commitments, handle_genesis_key_gen,
  set_up, setup_in, close_commitments, committed_in, confirmation_round, secret_shared_in,
}
use shield_net.Validator.Complaints.{Bounded, IsBounded, After, Bounded-empty, if_keeps}

module _ (t : Transition) where
  pub start_key_gen-IsBounded :
      (s : State) (e : EpochId) (p : ParticipantSet) (d : Option ℕ)
      → IsBounded s.rollover
      → IsBounded (start_key_gen t s e p d).0.rollover
  unfolding start_key_gen join_key_gen participate_as group_and_participants_tree to_u16
      group_threshold
  start_key_gen-IsBounded s e p d h = ground (arith, h)

  pub start_key_gen_fits :
      (s : State) (e : EpochId) (p : ParticipantSet) (d : Option ℕ)
      → length p.addresses < 65536
      → IsBounded (start_key_gen t s e p d).0.rollover
  unfolding start_key_gen join_key_gen participate_as group_and_participants_tree to_u16
      group_threshold
  start_key_gen_fits s e p d l = ground (arith, l)

  pub restart-IsBounded :
      (s : State) (e : EpochId) (x : Set) (d : Option ℕ)
      → IsBounded (restart_key_gen_excluding t s e x d).0.rollover
  unfolding restart_key_gen_excluding restart_with remaining
  restart-IsBounded s genesis x d = tt
  restart-IsBounded s (number n) x d =
      elim (Option-cases
        (participants_set t.keccak256 t.participants (GroupEpoch.number t.consensus n x))) [
          | inl q ↦ rw q tt
          | inr (p, q) ↦
              let (_, _, fits, _) =
                participants_set-some t.keccak256 t.participants (GroupEpoch.number t.consensus n x)
                  p q in
              rw q (start_key_gen_fits s (number n) p d fits)
        ]

  finalize-IsBounded :
      (e : EpochId) (g : Group) (x : Option Opaque) (c : Map Opaque) (d : Option ℕ)
      → g.threshold < 65536
      → IsBounded (finalize_key_gen_commitments t e g x c d).0
  unfolding finalize_key_gen_commitments
  finalize-IsBounded genesis g none c d h = elim (Option-cases (t.frost.group_commitments c)) [
    | inl q ↦ rw (q, IsBounded) tt
    | inr (y, q) ↦ rw (q, IsBounded) (h, Bounded-empty g.threshold)
  ]
  finalize-IsBounded (number n) g none c d h = elim (Option-cases (t.frost.group_commitments c)) [
    | inl q ↦ rw (q, IsBounded) tt
    | inr (y, q) ↦ rw (q, IsBounded) (h, Bounded-empty g.threshold)
  ]
  finalize-IsBounded genesis g (some x) c d h =
      elim (Option-cases (t.frost.generate_secret_shares x c)) [
        | inl q ↦ rw (q, IsBounded) tt
        | inr (y, q) ↦ rw (q, IsBounded) (h, Bounded-empty g.threshold)
      ]
  finalize-IsBounded (number n) g (some x) c d h =
      elim (Option-cases (t.frost.generate_secret_shares x c)) [
        | inl q ↦ rw (q, IsBounded) tt
        | inr (y, q) ↦ rw (q, IsBounded) (h, Bounded-empty g.threshold)
      ]

  pub handle_genesis_key_gen-IsBounded :
      (s : State) (event : KeyGen)
      → IsBounded s.rollover
      → IsBounded (handle_genesis_key_gen t s event).0.rollover
  unfolding handle_genesis_key_gen
  handle_genesis_key_gen-IsBounded s event h =
      ground (arith, h, start_key_gen-IsBounded s genesis t.genesis none h)

  pub setup_in-IsBounded :
      (s : State) (gid : B256) (x : Opaque) (r : RolloverState)
      → s.rollover ≡ r
      → IsBounded r
      → IsBounded (setup_in t s gid x r).0.rollover
  unfolding setup_in set_up
  setup_in-IsBounded s gid x
        (RolloverState.collecting_commitments e g (KeyGenCommitment.participating poap none) c d) i
        h =
      if_keeps After (gid == g.id) _ (s, [])
        (if_keeps After (not (as_u16 (length c) == g.count)) _ _ h
          (finalize-IsBounded e g (some x) c _ h))
        (subst IsBounded (sym i) h)
  setup_in-IsBounded s gid x _ i h = subst IsBounded (sym i) h

  close_commitments-IsBounded :
      (s : State) (block : ℕ) (e : EpochId) (g : Group) (x : KeyGenCommitment) (c : Map Opaque)
      (d : Option ℕ)
      → g.threshold < 65536
      → IsBounded (close_commitments t s block e g x c d).0.rollover
  unfolding close_commitments
  close_commitments-IsBounded s block e g KeyGenCommitment.observing c d h =
      finalize-IsBounded e g none c _ h
  close_commitments-IsBounded s block e g (KeyGenCommitment.participating poap none) c d h = h
  close_commitments-IsBounded s block e g (KeyGenCommitment.participating poap (some x)) c d h =
      finalize-IsBounded e g (some x) c _ h

  pub committed_in-IsBounded :
      (s : State) (block : ℕ) (event : KeyGenCommitted) (r : RolloverState)
      → s.rollover ≡ r
      → IsBounded r
      → IsBounded (committed_in t s block event r).0.rollover
  unfolding committed_in
  committed_in-IsBounded s block event (RolloverState.collecting_commitments e g x c d) i h =
      let c' =
        insert_valid c event.participant
          (t.frost.verify_commitment event.participant event.commitment) in
      if_keeps After (g.id == event.gid) _ (s, [])
        (if_keeps After (not (as_u16 (length c') == g.count)) _ _ h
          (close_commitments-IsBounded s block e g x c' d h))
        (subst IsBounded (sym i) h)
  committed_in-IsBounded s block event _ i h = subst IsBounded (sym i) h

  confirmation_round-IsBounded :
      (s : State) (e : EpochId) (g : Group) (p : KeyGenParticipation) (c : Map Complaint)
      (d : Option ConfirmationDeadlines) (commands : List Command)
      (o : Option (KeyGenConfirmation × List Command))
      → g.threshold < 65536
      → Bounded g.threshold c
      → IsBounded (confirmation_round t s e g p c d commands o).0.rollover
  unfolding confirmation_round
  confirmation_round-IsBounded s genesis g p c d commands none h b = tt
  confirmation_round-IsBounded s (number n) g p c d commands none h b = tt
  confirmation_round-IsBounded s e g p c d commands (some x) h b = (h, b)

  pub secret_shared_in-IsBounded :
      (s : State) (block : ℕ) (event : KeyGenSecretShared) (r : RolloverState)
      → s.rollover ≡ r
      → IsBounded r
      → IsBounded (secret_shared_in t s block event r).0.rollover
  unfolding secret_shared_in
  secret_shared_in-IsBounded s block event (RolloverState.collecting_shares e g p keys sh c d) i h =
      let keys' =
        insert_public_key keys event.participant
          (t.frost.verify_secret_share (commitments_of t p) event.participant event.share) in
      if_keeps After (g.id == event.gid) _ (s, [])
        (if_keeps After (not (as_u16 (length keys') == g.count)) _ _ h
          (confirmation_round-IsBounded s e g p c _ _ _ h.0 h.1))
        (subst IsBounded (sym i) h)
  secret_shared_in-IsBounded s block event _ i h = subst IsBounded (sym i) h
