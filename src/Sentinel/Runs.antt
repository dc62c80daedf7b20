-- ===== src/Sentinel/Runs.antt =====
-- crates/sentinel/src/service.rs: runs of the transition from the empty state.
use shield_net.Prelude.{ℕ, refl, ap, ◌∙◌, none, List, [], ◌∷◌, ◌++◌, get, IsSorted}
use shield_net.Core.Machine.{Message}
use shield_net.Sentinel.Types.{B256, State, Command, engine_check_result}
use shield_net.Sentinel.Events.{
  SentinelEvents, transaction_proposed, new_request, committed, revealed, request_timed_out,
  oracle_result, dispute_triggered, dispute_resolved, arbitration_timed_out, dispute_out_of_scope,
  claimed,
}
use shield_net.Sentinel.Hashing.{SentinelTransition}
use shield_net.Sentinel.Outcomes.{handle_claimed}
use shield_net.Sentinel.Dispatch.{apply_event, apply_transition}
use shield_net.Sentinel.Lifecycle.{Step, Input, step, concerning}
use shield_net.Sentinel.Pointwise.{
  handle_oracle_transaction_proposed-Reacts, handle_engine_check_result-Reacts,
  handle_new_request-Reacts, handle_committed-Reacts, handle_revealed-Reacts,
  handle_resolved-Reacts, handle_arbitration_timeout-Reacts, handle_request_timed_out-Reacts,
  handle_dispute_triggered-Reacts, handle_oracle_result-Reacts,
}
use shield_net.Sentinel.Advance.{handle_block_advance-IsSorted, concerning-append}
use shield_net.Sentinel.Independence.{Follows, apply_transition-Follows}

-- The messages that the transition has seen, the latest first.
abbrev pub History : Type 0
History = List Input

-- The state after the messages, and every command so far, in order.
unfoldable pub run : SentinelTransition → History → State × List Command
run t [] = ([], [])
run t (m ∷ h) =
    let (s, commands) = run t h in let (s', more) = apply_transition t s m in (s', commands ++ more)

-- The life of the request `id` under the messages.
unfoldable pub life : SentinelTransition → B256 → History → Step
life t id [] = (none, [])
life t id (m ∷ h) =
    let (entry, commands) = life t id h in
    let (entry', more) = step t id m entry in (entry', commands ++ more)

module _ (t : SentinelTransition) where
  apply_event-IsSorted :
      (s : State) (block : ℕ) (e : SentinelEvents)
      → IsSorted s
      → IsSorted (apply_event t s block e).0
  unfolding apply_event handle_claimed
  apply_event-IsSorted s block (transaction_proposed e) =
      (handle_oracle_transaction_proposed-Reacts t s block e).sorted
  apply_event-IsSorted s block (new_request e) = (handle_new_request-Reacts t s block e).sorted
  apply_event-IsSorted s block (committed e) = (handle_committed-Reacts t s block e).sorted
  apply_event-IsSorted s block (revealed e) = (handle_revealed-Reacts t s block e).sorted
  apply_event-IsSorted s block (request_timed_out k) =
      (handle_request_timed_out-Reacts t s block k).sorted
  apply_event-IsSorted s block (oracle_result e) = (handle_oracle_result-Reacts t s block e).sorted
  apply_event-IsSorted s block (dispute_triggered k deadline) =
      (handle_dispute_triggered-Reacts t s block k deadline).sorted
  apply_event-IsSorted s block (dispute_resolved e) = (handle_resolved-Reacts t s block e).sorted
  apply_event-IsSorted s block (arbitration_timed_out k) =
      (handle_arbitration_timeout-Reacts t s block k).sorted
  apply_event-IsSorted s block (dispute_out_of_scope k context) =
      (handle_arbitration_timeout-Reacts t s block k).sorted
  apply_event-IsSorted s block (claimed e) = λ h. h

  pub apply_transition-IsSorted :
      (s : State) (m : Input) → IsSorted s → IsSorted (apply_transition t s m).0
  unfolding apply_transition
  apply_transition-IsSorted s (Message.new_block block) = handle_block_advance-IsSorted t block s
  apply_transition-IsSorted s (Message.event log) = apply_event-IsSorted s log.block log.event
  apply_transition-IsSorted s (Message.resume (engine_check_result k outcome)) =
      (handle_engine_check_result-Reacts t s 0 k outcome).sorted

  pub run-IsSorted : (h : History) → IsSorted (run t h).0
  unfolding run
  run-IsSorted [] = tt
  run-IsSorted (m ∷ h) = apply_transition-IsSorted (run t h).0 m (run-IsSorted h)

  -- After any messages, the entry under an id and the commands about it are those of a machine that tracks this
  -- request alone: no request changes what happens to another.
  pub run-life : (id : B256) (h : History) → Follows id (run t h) (life t id h)
  unfolding run life get concerning
  run-life id [] = record { entry = refl; commands = refl }
  run-life id (m ∷ h) =
      let before = run-life id h in
      let after = apply_transition-Follows t id (run t h).0 m (run-IsSorted h) in
      let same = ap (step t id m) before.entry in
      record {
        entry = after.entry ∙ ap (λ (x : Step). x.0) same;
        commands =
            rw
              (
                concerning-append id (run t h).1 (apply_transition t (run t h).0 m).1,
                concerning-append id (life t id h).1 (step t id m (life t id h).0).1,
                before.commands,
                after.commands,
              )
              (ap (λ (x : Step). concerning id (life t id h).1 ++ concerning id x.1) same);
      }
