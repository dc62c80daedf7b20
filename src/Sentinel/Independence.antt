-- ===== src/Sentinel/Independence.antt =====
-- crates/sentinel/src/service.rs: the transition over all the requests is the life of each one, and so is a run.
use shield_net.Prelude.{
  ℕ, ◌≡◌, refl, ap, ◌∙◌, false, List, [], arith, ◌==◌, ==→eq, Bool-cases, inl, inr, if◌then◌else◌,
  get, IsSorted,
}
use shield_net.Core.Machine.{Message}
use shield_net.Sentinel.Types.{B256, State, Command, engine_check_result, CheckOutcome}
use shield_net.Sentinel.Events.{
  SentinelEvents, transaction_proposed, new_request, committed, revealed, request_timed_out,
  oracle_result, dispute_triggered, dispute_resolved, arbitration_timed_out, dispute_out_of_scope,
  claimed,
}
use shield_net.Sentinel.Hashing.{SentinelTransition}
use shield_net.Sentinel.Voting.{proposal_id}
use shield_net.Sentinel.Outcomes.{handle_claimed}
use shield_net.Sentinel.Dispatch.{apply_event, apply_transition}
use shield_net.Sentinel.Lifecycle.{
  Entry, Step, Input, subject, is_about, react, answer, step, concerning,
}
use shield_net.Sentinel.Pointwise.{
  Reacts, handle_oracle_transaction_proposed-Reacts, handle_engine_check_result-Reacts,
  handle_new_request-Reacts, handle_committed-Reacts, handle_revealed-Reacts,
  handle_resolved-Reacts, handle_arbitration_timeout-Reacts, handle_request_timed_out-Reacts,
  handle_arbitration_timeout-Reacts_scope, handle_dispute_triggered-Reacts,
  handle_oracle_result-Reacts,
}
use shield_net.Sentinel.Advance.{get-handle_block_advance, concerning-handle_block_advance}

-- A result over the map, seen at one id.
pub record Follows (id : B256) (r : State × List Command) (after : Step) : Type 0 where
  pub entry : get r.0 id ≡ after.0
  pub commands : concerning id r.1 ≡ concerning id after.1

module _ (t : SentinelTransition) (id : B256) where
  -- What an event's reaction commands is about its subject.
  react-other :
      (k : B256) (block : ℕ) (e : SentinelEvents) (entry : Entry)
      → (k == id) ≡ false
      → concerning id (react t k block e entry).1 ≡ []
  unfolding react concerning
  react-other k block e entry h = ground (arith, h)

  answer-other :
      (k : B256) (outcome : CheckOutcome) (entry : Entry)
      → (k == id) ≡ false
      → concerning id (answer t k outcome entry).1 ≡ []
  unfolding answer concerning
  answer-other k outcome entry h = ground (arith, h)

  Reacts-Follows :
      (s : State) (k : B256) (r : State × List Command) (f : B256 → Entry → Step)
      → Reacts s k r (f k (get s k))
      → ((k == id) ≡ false → concerning id (f k (get s k)).1 ≡ [])
      → Follows id r (if k == id then f id (get s id) else (get s id, []))
  unfolding concerning
  Reacts-Follows s k r f h other = elim (Bool-cases (k == id)) [
    | inl q ↦ rw q (record {
      entry = h.entries id ∙ rw q (ap (λ (j : ℕ). (f j (get s j)).0) (==→eq k id q));
      commands =
          ap (concerning id) h.commands
          ∙ ap (λ (j : ℕ). concerning id (f j (get s j)).1) (==→eq k id q);
    })
    | inr q ↦ rw q (record {
      entry = h.entries id ∙ rw q refl;
      commands = ap (concerning id) h.commands ∙ other q;
    })
  ]

  -- An event's handler, by what it does to the entry under the event's subject.
  event-Follows :
      (s : State) (block : ℕ) (e : SentinelEvents) (k : B256)
      → Reacts s k (apply_event t s block e) (react t k block e (get s k))
      → Follows id
          (apply_event t s block e)
          (if k == id then react t id block e (get s id) else (get s id, []))
  event-Follows s block e k h =
      Reacts-Follows s k (apply_event t s block e) (λ j. react t j block e) h
        (react-other k block e (get s k))

  apply_event-Follows :
      (s : State) (block : ℕ) (e : SentinelEvents)
      → Follows id
          (apply_event t s block e)
          (if is_about (subject t e) id then react t id block e (get s id) else (get s id, []))
  unfolding apply_event handle_claimed
  apply_event-Follows s block (transaction_proposed e) =
      event-Follows s block (transaction_proposed e) (proposal_id t e)
        (handle_oracle_transaction_proposed-Reacts t s block e)
  apply_event-Follows s block (new_request e) =
      event-Follows s block (new_request e) e.request_id (handle_new_request-Reacts t s block e)
  apply_event-Follows s block (committed e) =
      event-Follows s block (committed e) e.request_id (handle_committed-Reacts t s block e)
  apply_event-Follows s block (revealed e) =
      event-Follows s block (revealed e) e.request_id (handle_revealed-Reacts t s block e)
  apply_event-Follows s block (request_timed_out k) =
      event-Follows s block (request_timed_out k) k (handle_request_timed_out-Reacts t s block k)
  apply_event-Follows s block (oracle_result e) =
      event-Follows s block (oracle_result e) e.request_id (handle_oracle_result-Reacts t s block e)
  apply_event-Follows s block (dispute_triggered k deadline) =
      event-Follows s block (dispute_triggered k deadline) k
        (handle_dispute_triggered-Reacts t s block k deadline)
  apply_event-Follows s block (dispute_resolved e) =
      event-Follows s block (dispute_resolved e) e.request_id (handle_resolved-Reacts t s block e)
  apply_event-Follows s block (arbitration_timed_out k) =
      event-Follows s block (arbitration_timed_out k) k
        (handle_arbitration_timeout-Reacts t s block k)
  apply_event-Follows s block (dispute_out_of_scope k context) =
      event-Follows s block (dispute_out_of_scope k context) k
        (handle_arbitration_timeout-Reacts_scope t s block k context)
  apply_event-Follows s block (claimed e) = record { entry = refl; commands = refl }

  -- At each id, on a state whose ids ascend, a message does to the entry what its life says, and the commands
  -- about the id are those of that life.
  pub apply_transition-Follows :
      (s : State) (m : Input)
      → IsSorted s
      → Follows id (apply_transition t s m) (step t id m (get s id))
  unfolding apply_transition step
  apply_transition-Follows s (Message.new_block block) h = record {
    entry = get-handle_block_advance t block s id h;
    commands = concerning-handle_block_advance t block s id h;
  }
  apply_transition-Follows s (Message.event log) h = apply_event-Follows s log.block log.event
  apply_transition-Follows s (Message.resume (engine_check_result k outcome)) h =
      Reacts-Follows s k (apply_transition t s (Message.resume (engine_check_result k outcome)))
        (λ j. answer t j outcome) (handle_engine_check_result-Reacts t s 0 k outcome)
        (answer-other k outcome (get s k))
