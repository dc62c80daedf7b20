-- ===== src/Sentinel/Evidence.antt =====
-- crates/sentinel/src/service.rs: what a bond rests on. Of a run's messages, the latest is the first.
use shield_net.Prelude.{
  ℕ, ◌≡◌, sym, ◌∙◌, subst, Bool, true, false, not, ◌&&◌, none, some, [], ◌∷◌, Bool-cases, arith,
  ◌==◌, ==-refl, ◌⊎◌, inl, inr, get,
}
use shield_net.Core.Machine.{Message}
use shield_net.Sentinel.Types.{
  B256, SentinelRequestState, waiting_for_engine_check, waiting_for_request, collecting_commitments,
  collecting_votes, waiting_for_outcome, waiting_for_dispute_resolution, approve_and_slash_amount,
  CheckOutcome, engine_check_result,
}
use shield_net.Sentinel.Events.{SentinelEvents, transaction_proposed, new_request, committed}
use shield_net.Sentinel.Hashing.{SentinelTransition}
use shield_net.Sentinel.Voting.{proposal_id, vote_of, request_of}
use shield_net.Sentinel.Tally.{tally_reveal, finalize_votes, advance_entry}
use shield_net.Sentinel.Lifecycle.{Entry, Input, is_about, subject, react, answer, expire, step}
use shield_net.Sentinel.Runs.{History, run, life, run-life}

abbrev same_vote : Bool → Bool → Bool
same_vote true b = b
same_vote false b = not b

-- The vote that an outcome asks for.
abbrev asks_for : Bool → CheckOutcome → Bool
asks_for approve outcome = elim (vote_of outcome) [
  | none ↦ false
  | some (a, reason) ↦ same_vote a approve
]

-- The proposal of the request, to this oracle.
abbrev is_proposal : SentinelTransition → B256 → Input → Bool
is_proposal t id (Message.event log) = elim log.event [
  | transaction_proposed e ↦ (e.oracle == t.oracle) && (proposal_id t e == id)
  | e ↦ false
]
is_proposal t id m = false

-- The engine's verdict, for this vote.
abbrev is_verdict : B256 → Bool → Input → Bool
is_verdict id approve (Message.resume (engine_check_result k outcome)) =
    (k == id) && asks_for approve outcome
is_verdict id approve m = false

-- The opening of the request, with this slash amount.
abbrev is_opening : B256 → ℕ → Input → Bool
is_opening id slash_amount (Message.event log) = elim log.event [
  | new_request e ↦ (e.request_id == id) && (e.slash_amount == slash_amount)
  | e ↦ false
]
is_opening id slash_amount m = false

-- The sentinel's own commitment to the request, on the chain.
abbrev is_own_commitment : SentinelTransition → B256 → Input → Bool
is_own_commitment t id (Message.event log) = elim log.event [
  | committed e ↦ (e.request_id == id) && (e.sentinel == t.account)
  | e ↦ false
]
is_own_commitment t id m = false

module _ (t : SentinelTransition) (id : B256) where
  unfoldable pub Proposed : History → Type 0
  Proposed [] = ⊥
  Proposed (m ∷ h) = (is_proposal t id m ≡ true) ⊎ Proposed h

  -- After its proposal, the request got the engine's verdict.
  unfoldable pub Judged : Bool → History → Type 0
  Judged approve [] = ⊥
  Judged approve (m ∷ h) = ((is_verdict id approve m ≡ true) × Proposed h) ⊎ Judged approve h

  -- After its proposal, the request was opened.
  unfoldable pub Opened : ℕ → History → Type 0
  Opened slash_amount [] = ⊥
  Opened slash_amount (m ∷ h) =
      ((is_opening id slash_amount m ≡ true) × Proposed h) ⊎ Opened slash_amount h

  -- After both, the sentinel's commitment landed.
  unfoldable pub Bonded : Bool → ℕ → History → Type 0
  Bonded approve slash_amount [] = ⊥
  Bonded approve slash_amount (m ∷ h) =
      ((is_own_commitment t id m ≡ true) × Judged approve h × Opened slash_amount h)
      ⊎ Bonded approve slash_amount h

  abbrev Evidence : Entry → History → Type 0
  Evidence none h = Unit
  Evidence (some (waiting_for_engine_check deadline none)) h = Proposed h
  Evidence (some (waiting_for_engine_check deadline (some request))) h =
      Proposed h × Opened request.slash_amount h
  Evidence (some (waiting_for_request approve reason deadline)) h = Proposed h × Judged approve h
  Evidence
        (some (
          collecting_commitments approve reason slash_amount commit_deadline reveal_deadline
            committed_count self_committed))
        h =
      Judged approve h
      × Opened slash_amount h
      × (self_committed ≡ true → Bonded approve slash_amount h)
  Evidence
        (some (
          collecting_votes approve slash_amount reveal_deadline committed_count revealed_count
            approve_count deny_count self_revealed))
        h =
      Bonded approve slash_amount h
  Evidence (some (waiting_for_outcome approve slash_amount)) h = Bonded approve slash_amount h
  Evidence (some (waiting_for_dispute_resolution approve slash_amount)) h =
      Bonded approve slash_amount h

  Evidence-cons :
      (entry : Entry) (m : Input) (h : History) → Evidence entry h → Evidence entry (m ∷ h)
  unfolding Proposed Judged Opened Bonded
  Evidence-cons none m h v = tt
  Evidence-cons (some (waiting_for_engine_check deadline none)) m h v = inr v
  Evidence-cons (some (waiting_for_engine_check deadline (some request))) m h v = (inr v.0, inr v.1)
  Evidence-cons (some (waiting_for_request approve reason deadline)) m h v = (inr v.0, inr v.1)
  Evidence-cons
        (some (
          collecting_commitments approve reason slash_amount commit_deadline reveal_deadline
            committed_count self_committed))
        m h v =
      (inr v.0, inr v.1, λ q. inr (v.2 q))
  Evidence-cons
        (some (
          collecting_votes approve slash_amount reveal_deadline committed_count revealed_count
            approve_count deny_count self_revealed))
        m h v =
      inr v
  Evidence-cons (some (waiting_for_outcome approve slash_amount)) m h v = inr v
  Evidence-cons (some (waiting_for_dispute_resolution approve slash_amount)) m h v = inr v

  expire-Evidence :
      (block : ℕ) (entry : Entry) (h : History)
      → Evidence entry h
      → Evidence (expire t id block entry).0 (Message.new_block block ∷ h)
  unfolding expire advance_entry finalize_votes
  expire-Evidence block entry h v =
      ground (arith, v, Evidence-cons entry (Message.new_block block) h v)

  abbrev log_of : (block index address : ℕ) → SentinelEvents → Input
  log_of block index address e =
      Message.event (record { block = block; index = index; address = address; event = e })

  react-Evidence :
      (block index address : ℕ) (e : SentinelEvents) (entry : Entry) (h : History)
      → is_about (subject t e) id ≡ true
      → Evidence entry h
      → Evidence (react t id block e entry).0 (log_of block index address e ∷ h)
  unfolding react Proposed Judged Opened Bonded approve_and_slash_amount tally_reveal finalize_votes
      request_of
  react-Evidence block index address (transaction_proposed e) none h q v = ground (arith, q)
  react-Evidence block index address (new_request e) entry h q v = ground (
    arith,
    q,
    v,
    ==-refl e.slash_amount,
    Evidence-cons entry (log_of block index address (new_request e)) h v,
  )
  react-Evidence block index address e entry h q v =
      ground (arith, q, v, Evidence-cons entry (log_of block index address e) h v)

  answer-Evidence :
      (k : B256) (outcome : CheckOutcome) (entry : Entry) (h : History)
      → (k == id) ≡ true
      → Evidence entry h
      → Evidence (answer t id outcome entry).0 (Message.resume (engine_check_result k outcome) ∷ h)
  unfolding answer Proposed Judged Opened Bonded vote_of
  answer-Evidence k outcome entry h q v =
      ground (arith, q, v, Evidence-cons entry (Message.resume (engine_check_result k outcome)) h v)

  step-Evidence :
      (m : Input) (entry : Entry) (h : History)
      → Evidence entry h
      → Evidence (step t id m entry).0 (m ∷ h)
  unfolding step
  step-Evidence (Message.new_block block) entry h v = expire-Evidence block entry h v
  step-Evidence (Message.event log) entry h v =
      elim (Bool-cases (is_about (subject t log.event) id)) [
        | inl q ↦ rw q (react-Evidence log.block log.index log.address log.event entry h q v)
        | inr q ↦ rw q (Evidence-cons entry (Message.event log) h v)
      ]
  step-Evidence (Message.resume (engine_check_result k outcome)) entry h v =
      elim (Bool-cases (k == id)) [
        | inl q ↦ rw q (answer-Evidence k outcome entry h q v)
        | inr q ↦ rw q (Evidence-cons entry (Message.resume (engine_check_result k outcome)) h v)
      ]

  life-Evidence : (h : History) → Evidence (life t id h).0 h
  unfolding life
  life-Evidence [] = tt
  life-Evidence (m ∷ h) = step-Evidence m (life t id h).0 h (life-Evidence h)

  Evidence-Bonded :
      (entry : SentinelRequestState) (approve : Bool) (slash_amount : ℕ) (h : History)
      → approve_and_slash_amount entry ≡ some (approve, slash_amount)
      → Evidence (some entry) h
      → Bonded approve slash_amount h
  unfolding approve_and_slash_amount
  Evidence-Bonded entry approve slash_amount h q v = ground (arith, q, v)

  -- Where a request counts as bonded after any messages, for a vote and a slash amount, the sentinel's own
  -- commitment to it had landed; before that the engine had answered with that vote, and the oracle had opened the
  -- request with that slash amount; and before each of these the request had been proposed to this oracle.
  pub approve_and_slash_amount-Bonded :
      (h : History) (entry : SentinelRequestState) (approve : Bool) (slash_amount : ℕ)
      → get (run t h).0 id ≡ some entry
      → approve_and_slash_amount entry ≡ some (approve, slash_amount)
      → Bonded approve slash_amount h
  approve_and_slash_amount-Bonded h entry approve slash_amount e q =
      Evidence-Bonded entry approve slash_amount h q
        (subst (λ (x : Entry). Evidence x h) (sym (run-life t id h).entry ∙ e) (life-Evidence h))
