-- ===== src/Sentinel/Lifecycle.antt =====
-- The life of one request: what a message does to the entry under one id, written out as a machine of its
-- own, beside crates/sentinel/src/service.rs, whose handlers work on the map of all the requests.
use shield_net.Prelude.{
  ℕ, Bool, true, false, not, ◌&&◌, Option, none, some, List, [], ◌∷◌, ◌==◌, if◌then◌else◌,
  saturating_add, Bytes, Bool-cases, inl, inr,
}
use shield_net.Core.Machine.{Message}
use shield_net.Sentinel.Types.{
  B256, Request, SentinelRequestState, waiting_for_engine_check, waiting_for_request,
  collecting_commitments, waiting_for_dispute_resolution, approve_and_slash_amount, CheckOutcome,
  Resume, engine_check, engine_check_result, SentinelActionKind, approve_token, commit, reveal,
  finalize, claim, Command, action, effect,
}
use shield_net.Sentinel.Events.{
  SentinelEvents, transaction_proposed, new_request, committed, revealed, request_timed_out,
  oracle_result, dispute_triggered, dispute_resolved, arbitration_timed_out, dispute_out_of_scope,
  claimed,
}
use shield_net.Sentinel.Hashing.{SentinelTransition, reveal_salt, commit_hash}
use shield_net.Sentinel.Voting.{proposal_id, vote_of, request_of, increment}
use shield_net.Sentinel.Tally.{advance_entry, tally_reveal}
use shield_net.Sentinel.Outcomes.{claim_action}

abbrev pub Entry : Type 0
Entry = Option SentinelRequestState

abbrev pub Step : Type 0
Step = Entry × List Command

abbrev pub Input : Type 0
Input = Message SentinelEvents Resume

-- The id that an event is about; a payout is about none.
abbrev pub subject : SentinelTransition → SentinelEvents → Option B256
subject t (transaction_proposed e) = some (proposal_id t e)
subject t (new_request e) = some e.request_id
subject t (committed e) = some e.request_id
subject t (revealed e) = some e.request_id
subject t (request_timed_out id) = some id
subject t (oracle_result e) = some e.request_id
subject t (dispute_triggered id deadline) = some id
subject t (dispute_resolved e) = some e.request_id
subject t (arbitration_timed_out id) = some id
subject t (dispute_out_of_scope id context) = some id
subject t (claimed e) = none

-- The commands of a vote.
abbrev pub vote_commands :
    SentinelTransition → B256 → (approve : Bool) (reason : Bytes) → Request → List Command
vote_commands t id approve reason request =
    action (record {
      kind = approve_token request.bond_target;
      expires_at = some request.commit_deadline;
    })
    ∷ action (record {
      kind = commit id (commit_hash t.keccak256 t.account id approve (reveal_salt t id) reason);
      expires_at = some request.commit_deadline;
    })
    ∷ []

abbrev pub vote : SentinelTransition → B256 → (approve : Bool) (reason : Bytes) → Request → Step
vote t id approve reason request = (
  some (
      collecting_commitments approve reason request.slash_amount request.commit_deadline
        request.reveal_deadline 0 false),
  vote_commands t id approve reason request,
)

-- The entry with a bond behind it.
abbrev pub with_bond : (Bool → ℕ → Step) → SentinelRequestState → Step
with_bond f entry = elim (approve_and_slash_amount entry) [
  | none ↦ (none, [])
  | some (approve, slash_amount) ↦ f approve slash_amount
]

-- What an event about a request does to its entry.
unfoldable pub react : SentinelTransition → B256 → (block : ℕ) → SentinelEvents → Entry → Step
unfolding tally_reveal approve_and_slash_amount
react t id block (transaction_proposed e) none =
    if e.oracle == t.oracle
    then (
      some (waiting_for_engine_check (saturating_add block t.voting_window) none),
      effect (engine_check id e.transaction block) ∷ [],
    )
    else (none, [])
react t id block e none = (none, [])
react t id block (new_request e) (some (waiting_for_request approve reason deadline)) =
    vote t id approve reason (request_of e)
react t id block (new_request e) (some (waiting_for_engine_check deadline none)) =
    (some (waiting_for_engine_check deadline (some (request_of e))), [])
react t id block (committed e)
      (some (
        collecting_commitments approve reason slash_amount commit_deadline reveal_deadline
          committed_count self_committed)) =
    (
      some (
          collecting_commitments approve reason slash_amount commit_deadline reveal_deadline
            (increment committed_count)
            (if not self_committed && (e.sentinel == t.account) then true else self_committed)),
      [],
    )
react t id block (revealed e) (some entry) = elim (tally_reveal t id entry e) [
  | none ↦ (some entry, [])
  | some (update, actions) ↦ (update, actions)
]
react t id block (request_timed_out _) (some entry) =
    with_bond (λ approve slash_amount. (none, claim_action id ∷ [])) entry
react t id block (oracle_result e) (some entry) =
    with_bond (λ approve slash_amount. (none, claim_action id ∷ [])) entry
react t id block (dispute_triggered _ deadline) (some entry) =
    with_bond
      (λ approve slash_amount. (some (waiting_for_dispute_resolution approve slash_amount), []))
      entry
react t id block (dispute_resolved e) (some (waiting_for_dispute_resolution approve slash_amount)) =
    (none, claim_action id ∷ [])
react t id block (arbitration_timed_out _) (some entry) = (none, claim_action id ∷ [])
react t id block (dispute_out_of_scope _ context) (some entry) = (none, claim_action id ∷ [])
react t id block e (some entry) = (some entry, [])

-- What the engine's answer does to the entry.
unfoldable pub answer : SentinelTransition → B256 → CheckOutcome → Entry → Step
answer t id outcome (some (waiting_for_engine_check deadline request)) = elim (vote_of outcome) [
  | none ↦ (none, [])
  | some (approve, reason) ↦ elim request [
    | some request ↦ vote t id approve reason request
    | none ↦ (some (waiting_for_request approve reason deadline), [])
  ]
]
answer t id outcome entry = (entry, [])

unfoldable pub expire : SentinelTransition → B256 → ℕ → Entry → Step
expire t id block none = (none, [])
expire t id block (some entry) = advance_entry t block id entry

abbrev pub is_about : Option B256 → B256 → Bool
is_about none id = false
is_about (some k) id = k == id

-- What a message does to the entry under `id`.
unfoldable pub step : SentinelTransition → B256 → Input → Entry → Step
unfolding react answer expire
step t id (Message.new_block block) entry = expire t id block entry
step t id (Message.event log) entry =
    let reaction = react t id log.block log.event entry in
    if is_about (subject t log.event) id then reaction else (entry, [])
step t id (Message.resume (engine_check_result request_id outcome)) entry =
    let reaction = answer t id outcome entry in if request_id == id then reaction else (entry, [])

-- The id of a command: a token approval names none.
abbrev pub kind_id : SentinelActionKind → Option B256
kind_id (approve_token bond) = none
kind_id (commit id hash) = some id
kind_id (reveal id approve salt reason) = some id
kind_id (finalize id) = some id
kind_id (claim id) = some id

abbrev pub command_id : Command → Option B256
command_id (effect (engine_check id transaction block)) = some id
command_id (action a) = kind_id a.kind

-- The commands about one request.
unfoldable pub concerning : B256 → List Command → List Command
concerning id [] = []
concerning id (c ∷ cs) =
    let rest = concerning id cs in if is_about (command_id c) id then c ∷ rest else rest

-- A message leaves the entry alone, or it is a block, an event about it or the engine's answer to it.
pub step_cases {ℓ} :
    (P : Step → Type ℓ) (t : SentinelTransition) (id : B256) (m : Input) (entry : Entry)
    → P (entry, [])
    → ((block : ℕ) → P (expire t id block entry))
    → ((block : ℕ) (e : SentinelEvents) → P (react t id block e entry))
    → ((outcome : CheckOutcome) → P (answer t id outcome entry))
    → P (step t id m entry)
unfolding step
step_cases P t id (Message.new_block block) entry keep time event result = time block
step_cases P t id (Message.event log) entry keep time event result =
    elim (Bool-cases (is_about (subject t log.event) id)) [
      | inl q ↦ rw q (event log.block log.event)
      | inr q ↦ rw q keep
    ]
step_cases P t id (Message.resume (engine_check_result k outcome)) entry keep time event result =
    elim (Bool-cases (k == id)) [ inl q ↦ rw q (result outcome) | inr q ↦ rw q keep ]
