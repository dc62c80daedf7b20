-- ===== src/Validator/Rollover/Onward/Complaints.antt =====
-- Complaints, the responses to them, and the deadlines.
use shield_net.Prelude.{
  ℕ, ◌≡◌, refl, ap, false, Option, none, some, [], ◌∷◌, arith, Option-cases, inl, inr, Map,
  saturating_add, get, insert, ◌==◌, if◌then◌else◌,
}
use shield_net.Validator.Epoch.{EpochId}
use shield_net.Validator.Types.{
  Opaque, Set, Group, KeyGenCommitment, KeyGenParticipation, KeyGenConfirmation, Complaint,
  RolloverState, State, Transition, KeyGenComplained, KeyGenComplaintResponded,
}
use shield_net.Validator.Groups.{also_exclude}
use shield_net.Validator.Keygen.{
  complained, answered, some_deadline, response_of, insert_share, status_with, open_complaint,
  commitments_of, fresh_deadline, next_epoch, complain, complained_in, handle_key_gen_complained,
  finish_confirmation, answer, responded_in, handle_key_gen_complaint_responded, stuck_epoch,
  stalled_round, handle_key_gen_timeouts,
}
use shield_net.Validator.Rollover.{Onward, is_settled}
use shield_net.Validator.Rollover.Onward.{restart_key_gen_excluding-Onward}

module _ (t : Transition) where
  complain-Onward :
      (s : State) (e : EpochId) (g : Group) (p : KeyGenParticipation) (c : Map Complaint)
      (put : Map Complaint → RolloverState) (event : KeyGenComplained) (d d' : Option ℕ)
      → next_epoch s.rollover ≡ some e
      → ((m : Map Complaint) → (next_epoch (put m) ≡ some e) × (is_settled (put m) ≡ false))
      → Onward s (complain t s e g p c put event d d').0
  unfolding complain
  complain-Onward s e g p c put event d d' h k =
      let m = insert c event.accused (complained (get c event.accused)) in
      ground (
        arith,
        k m,
        restart_key_gen_excluding-Onward t (record s { rollover = put m }) e
            (also_exclude g ((event.accused, tt) ∷ [])) d (k m).0,
      )

  complained_in-Onward :
      (s : State) (block : ℕ) (event : KeyGenComplained) (r : RolloverState)
      → s.rollover ≡ r
      → Onward s (complained_in t s block event r).0
  unfolding complained_in
  complained_in-Onward s block event (RolloverState.collecting_shares e g p keys sh c d) h =
      ground (
        arith,
        complain-Onward s e g p c
            (λ (m : Map Complaint). RolloverState.collecting_shares e g p keys sh m d) event
            (fresh_deadline t block d) (fresh_deadline t block d) (ap next_epoch h)
            (λ (m : Map Complaint). (refl, refl)),
      )
  complained_in-Onward s block event (RolloverState.collecting_confirmations e g p st cf c d) h =
      ground (
        arith,
        complain-Onward s e g p c
            (λ (m : Map Complaint). RolloverState.collecting_confirmations e g p st cf m d) event
            (some_deadline t block d) (response_of d) (ap next_epoch h)
            (λ (m : Map Complaint). (refl, refl)),
      )
  complained_in-Onward s block event _ h = ground arith

  pub handle_key_gen_complained-Onward :
      (s : State) (block : ℕ) (event : KeyGenComplained)
      → Onward s (handle_key_gen_complained t s block event).0
  unfolding handle_key_gen_complained
  handle_key_gen_complained-Onward s block event =
      complained_in-Onward s block event s.rollover refl

  finish_confirmation-Onward :
      (s : State) (r : RolloverState) → s.rollover ≡ r → Onward s (finish_confirmation t s r).0
  unfolding finish_confirmation
  finish_confirmation-Onward s
        (RolloverState.collecting_confirmations e g
          (KeyGenParticipation.participating x)
          (KeyGenConfirmation.collecting sh)
          cf
          c
          d)
        h =
      ground arith
  finish_confirmation-Onward s _ h = ground arith

  answer-Onward :
      (s : State) (block : ℕ) (event : KeyGenComplaintResponded) (e : EpochId) (g : Group)
      (p : KeyGenParticipation) (c : Map Complaint) (d : Option ℕ)
      (put : Map Complaint → Option Opaque → RolloverState) (o : Option Complaint)
      → next_epoch s.rollover ≡ some e
      → ((m : Map Complaint) (x : Option Opaque)
          → (next_epoch (put m x) ≡ some e) × (is_settled (put m x) ≡ false))
      → Onward s (answer t s block event e g p c d put o).0
  unfolding answer
  answer-Onward s block event e g p c d put none h k = ground arith
  answer-Onward s block event e g p c d put (some complaint) h k =
      let m = insert c event.accused (answered complaint) in
      elim (Option-cases (
        t.frost.verify_revealed_secret_share (commitments_of t p) event.plaintiff event.accused
          event.secret_share)) [
            | inl q ↦ ground (
              arith,
              q,
              restart_key_gen_excluding-Onward t s e (also_exclude g ((event.accused, tt) ∷ []))
                  (fresh_deadline t block d) h,
            )
            | inr (share, q) ↦
                let x = if event.plaintiff == t.account then some share else none in
                ground (
                  arith,
                  q,
                  k m x,
                  finish_confirmation-Onward (record s { rollover = put m x }) (put m x) refl,
                )
          ]

  responded_in-Onward :
      (s : State) (block : ℕ) (event : KeyGenComplaintResponded) (r : RolloverState)
      → s.rollover ≡ r
      → Onward s (responded_in t s block event r).0
  unfolding responded_in
  responded_in-Onward s block event (RolloverState.collecting_shares e g p keys sh c d) h = ground (
    arith,
    answer-Onward s block event e g p c d
        (λ (m : Map Complaint) (x : Option Opaque).
          RolloverState.collecting_shares e g p keys (insert_share sh event.accused x) m d)
        (open_complaint (get c event.accused)) (ap next_epoch h)
        (λ (m : Map Complaint) (x : Option Opaque). (refl, refl)),
  )
  responded_in-Onward s block event (RolloverState.collecting_confirmations e g p st cf c d) h =
      ground (
        arith,
        answer-Onward s block event e g p c (response_of d)
            (λ (m : Map Complaint) (x : Option Opaque).
              RolloverState.collecting_confirmations e g p (status_with event.accused st x) cf m d)
            (open_complaint (get c event.accused)) (ap next_epoch h)
            (λ (m : Map Complaint) (x : Option Opaque). (refl, refl)),
      )
  responded_in-Onward s block event _ h = ground arith

  pub handle_key_gen_complaint_responded-Onward :
      (s : State) (block : ℕ) (event : KeyGenComplaintResponded)
      → Onward s (handle_key_gen_complaint_responded t s block event).0
  unfolding handle_key_gen_complaint_responded
  handle_key_gen_complaint_responded-Onward s block event =
      responded_in-Onward s block event s.rollover refl

  stuck_target :
      (r : RolloverState) (block : ℕ) (e : EpochId)
      → stuck_epoch r block ≡ some e
      → next_epoch r ≡ some e
  unfolding stuck_epoch
  stuck_target
        (RolloverState.collecting_commitments e' g
          (KeyGenCommitment.participating poap none)
          c
          (some d))
        block e h =
      ground (arith, h)
  stuck_target _ block e h = absurd (ground (arith, h))

  stalled_target :
      (r : RolloverState) (block : ℕ) (e : EpochId) (x : Set)
      → stalled_round r block ≡ some (e, x)
      → next_epoch r ≡ some e
  unfolding stalled_round
  stalled_target (RolloverState.collecting_commitments e' g k c (some d)) block e x h =
      ground (arith, h)
  stalled_target (RolloverState.collecting_shares e' g p keys sh c (some d)) block e x h =
      ground (arith, h)
  stalled_target (RolloverState.collecting_confirmations e' g p st cf c (some d)) block e x h =
      ground (arith, h)
  stalled_target _ block e x h = absurd (ground (arith, h))

  pub handle_key_gen_timeouts-Onward :
      (s : State) (block : ℕ) → Onward s (handle_key_gen_timeouts t s block).0
  unfolding handle_key_gen_timeouts
  handle_key_gen_timeouts-Onward s block = elim (Option-cases (stuck_epoch s.rollover block)) [
    | inr (e, q) ↦ ground (arith, q, stuck_target s.rollover block e q)
    | inl n ↦ elim (Option-cases (stalled_round s.rollover block)) [
      | inl q ↦ ground (arith, n, q)
      | inr ((e, x), q) ↦ ground (
        arith,
        n,
        q,
        restart_key_gen_excluding-Onward t s e x (some (saturating_add block t.key_gen_timeout))
            (stalled_target s.rollover block e x q),
      )
    ]
  ]
