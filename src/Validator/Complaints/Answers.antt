-- ===== src/Validator/Complaints/Answers.antt =====
-- Complaints and the responses to them.
use shield_net.Prelude.{
  ℕ, ◌<◌, ◌≡◌, refl, sym, subst, ◌&&◌, Option, none, some, [], ◌∷◌, arith, Bool-cases, Option-cases,
  inl, inr, Map, as_u16, get, insert, length, ◌==◌, leb, if◌then◌else◌,
}
use shield_net.Validator.Epoch.{EpochId, genesis, number}
use shield_net.Validator.Types.{
  Opaque, Group, KeyGenParticipation, KeyGenConfirmation, Complaint, RolloverState, State,
  Transition, KeyGenComplained, KeyGenComplaintResponded,
}
use shield_net.Validator.Groups.{also_exclude}
use shield_net.Validator.Keygen.{
  rollover_failure, complained, answered, response_of, can_complain, can_respond, insert_share,
  status_with, open_complaint, commitments_of, fresh_deadline, confirm_key_gen, complain,
  complained_in, finish_confirmation, answer, responded_in,
}
use shield_net.Validator.Complaints.{
  Bounded, IsBounded, After, Bounded-insert, complained-Bounded, if_keeps,
}
use shield_net.Validator.Complaints.Rounds.{restart-IsBounded}

module _ (t : Transition) where
  complain-IsBounded :
      (s : State) (e : EpochId) (g : Group) (p : KeyGenParticipation) (c : Map Complaint)
      (put : Map Complaint → RolloverState) (event : KeyGenComplained) (d d' : Option ℕ)
      → g.threshold < 65536
      → Bounded g.threshold c
      → ((m : Map Complaint) → Bounded g.threshold m → IsBounded (put m))
      → IsBounded (complain t s e g p c put event d d').0.rollover
  unfolding complain
  complain-IsBounded s e g p c put event d d' h b k =
      let m = insert c event.accused (complained (get c event.accused)) in
      elim (Bool-cases (leb g.threshold (complained (get c event.accused)).total)) [
        | inl q ↦
            rw (q, complain)
              (restart-IsBounded t (record s { rollover = put m }) e
                (also_exclude g ((event.accused, tt) ∷ [])) d)
        | inr q ↦ rw (q, complain) (k m (complained-Bounded g.threshold c event.accused h b q))
      ]

  pub complained_in-IsBounded :
      (s : State) (block : ℕ) (event : KeyGenComplained) (r : RolloverState)
      → s.rollover ≡ r
      → IsBounded r
      → IsBounded (complained_in t s block event r).0.rollover
  unfolding complained_in
  complained_in-IsBounded s block event (RolloverState.collecting_shares e g p keys sh c d) i h =
      if_keeps After (g.id == event.gid) _ (s, [])
        (complain-IsBounded s e g p c
          (λ (m : Map Complaint). RolloverState.collecting_shares e g p keys sh m d) event _ _ h.0
          h.1 (λ (m : Map Complaint) (b : Bounded g.threshold m). (h.0, b)))
        (subst IsBounded (sym i) h)
  complained_in-IsBounded s block event (RolloverState.collecting_confirmations e g p st cf c d) i
        h =
      if_keeps After (g.id == event.gid && can_complain block d) _ (s, [])
        (complain-IsBounded s e g p c
          (λ (m : Map Complaint). RolloverState.collecting_confirmations e g p st cf m d) event _ _
          h.0 h.1 (λ (m : Map Complaint) (b : Bounded g.threshold m). (h.0, b)))
        (subst IsBounded (sym i) h)
  complained_in-IsBounded s block event _ i h = subst IsBounded (sym i) h

  pub failed-IsBounded : (e : EpochId) → IsBounded (rollover_failure e)
  failed-IsBounded genesis = tt
  failed-IsBounded (number n) = tt

  finish_confirmation-IsBounded :
      (s : State) (r : RolloverState)
      → s.rollover ≡ r
      → IsBounded r
      → IsBounded (finish_confirmation t s r).0.rollover
  unfolding finish_confirmation
  finish_confirmation-IsBounded s
        (RolloverState.collecting_confirmations e g
          (KeyGenParticipation.participating x)
          (KeyGenConfirmation.collecting sh)
          cf
          c
          d)
        i h =
      if_keeps After (as_u16 (length sh) == g.count) _ (s, [])
        (elim (Option-cases (confirm_key_gen t e g x sh d)) [
          | inl q ↦ rw (q, IsBounded) (failed-IsBounded e)
          | inr (y, q) ↦ rw (q, IsBounded) h
        ])
        (subst IsBounded (sym i) h)
  finish_confirmation-IsBounded s _ i h = subst IsBounded (sym i) h

  answer-IsBounded :
      (s : State) (block : ℕ) (event : KeyGenComplaintResponded) (e : EpochId) (g : Group)
      (p : KeyGenParticipation) (c : Map Complaint) (d : Option ℕ)
      (put : Map Complaint → Option Opaque → RolloverState)
      → IsBounded s.rollover
      → Bounded g.threshold c
      → ((m : Map Complaint) (x : Option Opaque) → Bounded g.threshold m → IsBounded (put m x))
      → IsBounded
          (answer t s block event e g p c d put (open_complaint (get c event.accused))).0.rollover
  unfolding answer
  answer-IsBounded s block event e g p c d put h b k = elim (Option-cases (get c event.accused)) [
    | inl q ↦ rw (q, answer) h
    | inr (x, q) ↦ elim (Bool-cases (leb 1 x.unresponded)) [
      | inr u ↦ rw (q, u, answer) h
      | inl u ↦
          let bounds = b event.accused x q in
          let m = insert c event.accused (answered x) in
          let b' : Bounded g.threshold m =
            Bounded-insert g.threshold c event.accused (answered x) (ground (arith, bounds))
              (ground (arith, bounds)) b in
          let own = λ (y : Opaque). if event.plaintiff == t.account then some y else none in
          elim (Option-cases (
            t.frost.verify_revealed_secret_share (commitments_of t p) event.plaintiff event.accused
              event.secret_share)) [
                | inl v ↦
                    rw (q, u, v, answer)
                      (restart-IsBounded t s e (also_exclude g ((event.accused, tt) ∷ []))
                        (fresh_deadline t block d))
                | inr (y, v) ↦
                    rw (q, u, v, answer)
                      (finish_confirmation-IsBounded (record s { rollover = put m (own y) })
                        (put m (own y)) refl (k m (own y) b'))
              ]
    ]
  ]

  pub responded_in-IsBounded :
      (s : State) (block : ℕ) (event : KeyGenComplaintResponded) (r : RolloverState)
      → s.rollover ≡ r
      → IsBounded r
      → IsBounded (responded_in t s block event r).0.rollover
  unfolding responded_in
  responded_in-IsBounded s block event (RolloverState.collecting_shares e g p keys sh c d) i h =
      if_keeps After (g.id == event.gid) _ (s, [])
        (answer-IsBounded s block event e g p c d
          (λ (m : Map Complaint) (x : Option Opaque).
            RolloverState.collecting_shares e g p keys (insert_share sh event.accused x) m d)
          (subst IsBounded (sym i) h) h.1
          (λ (m : Map Complaint) (x : Option Opaque) (b : Bounded g.threshold m). (h.0, b)))
        (subst IsBounded (sym i) h)
  responded_in-IsBounded s block event (RolloverState.collecting_confirmations e g p st cf c d) i
        h =
      if_keeps After (g.id == event.gid && can_respond block d) _ (s, [])
        (answer-IsBounded s block event e g p c (response_of d)
          (λ (m : Map Complaint) (x : Option Opaque).
            RolloverState.collecting_confirmations e g p (status_with event.accused st x) cf m d)
          (subst IsBounded (sym i) h) h.1
          (λ (m : Map Complaint) (x : Option Opaque) (b : Bounded g.threshold m). (h.0, b)))
        (subst IsBounded (sym i) h)
  responded_in-IsBounded s block event _ i h = subst IsBounded (sym i) h
