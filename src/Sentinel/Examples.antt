-- ===== src/Sentinel/Examples.antt =====
-- crates/sentinel at concrete inputs: a request from its proposal to its payout, and the theorems on it.
use shield_net.Prelude.{
  ℕ, ◌+◌, ◌≤◌, ◌≡◌, refl, true, false, none, some, List, [], ◌∷◌, arith, get, insert, remove,
  be_bytes, Bytes,
}
use shield_net.Core.Snapshots.{Codec}
use shield_net.Core.Snapshots
use shield_net.Core.Machine.{
  Message, EventLog, block_pending, block, logs, new, handle_update, handle_resume,
}
use shield_net.Core.Machine.Invariant.{Input, update, resumed, feed, follow}
use shield_net.Core.Machine.Chain.{extend_all}
use shield_net.Core.Machine.Chain.Live.{empty_chain, messages}
use shield_net.Sentinel.Types.{
  SafeTransaction, SentinelRequestState, approve_and_slash_amount, collecting_commitments,
  collecting_votes, State, approved, engine_check, engine_check_result, approve_token, commit,
  reveal, finalize, action, effect, Resume,
}
use shield_net.Sentinel.Events.{
  SentinelEvents, transaction_proposed, new_request, committed, revealed, oracle_result,
}
use shield_net.Sentinel.Hashing.{SentinelTransition}
use shield_net.Sentinel.Tally.{handle_block_advance, handle_revealed}
use shield_net.Sentinel.Outcomes.{claim_action, handle_oracle_result}
use shield_net.Sentinel.Voting.{
  handle_oracle_transaction_proposed, handle_new_request, handle_engine_check_result,
  handle_committed,
}
use shield_net.Sentinel.Dispatch.{apply_transition}
use shield_net.Sentinel.Independence.{Follows}
use shield_net.Sentinel.Runs.{History, run, life, run-life}
use shield_net.Sentinel.Openings.{Opens, last_commit, reveal-Opens}
use shield_net.Sentinel.Accounts.{
  count, checking, committing, revealing, finalizing, claiming, run_accounts,
}
use shield_net.Sentinel.Evidence.{Bonded}
use shield_net.Sentinel.Deadlines.{IsSettled, handle_block_advance-IsSettled}
use shield_net.Sentinel.Tallies.{IsTallied, run-IsTallied}
use shield_net.Sentinel.Binding.{Opening, commit_hash-binds}
use shield_net.Sentinel.Service.{service_bonds}

-- The sum of the bytes stands for the hash.
abbrev sum : Bytes → ℕ
sum [] = 0
sum (b ∷ bs) = b + sum bs

abbrev sentinel : SentinelTransition
sentinel = record {
  oracle = 5;
  consensus = 9;
  account = 1;
  private_key = [];
  chain_id = 100;
  voting_window = 10;
  hkdf = λ key domain message. 77 + sum message;
  keccak256 = sum;
  eip712_signing_hash = λ chain_id consensus proposal. proposal.safe_tx_hash;
}

abbrev transfer : SafeTransaction
transfer = record {
  chain_id = 100;
  safe = 8;
  to = 6;
  value = 0;
  call_data = [];
  operation = 0;
  safe_tx_gas = 0;
  base_gas = 0;
  gas_price = 0;
  gas_token = 0;
  refund_receiver = 0;
  nonce = 0;
}

abbrev log : (n index : ℕ) → SentinelEvents → EventLog SentinelEvents
log n index e = record { block = n; index = index; address = 5; event = e }

abbrev proposed : EventLog SentinelEvents
proposed = log 1 0 (
    transaction_proposed (record {
      safe_tx_hash = 42;
      safe_id = 8;
      oracle = 5;
      epoch = 0;
      oracle_data = [];
      transaction = transfer;
    }))

abbrev opened : EventLog SentinelEvents
opened = log 1 1 (
    new_request (record {
      request_id = 42;
      sponsor = 3;
      fee = 1;
      bond_target = 1000;
      slash_amount = 500;
      commit_deadline = 2;
      reveal_deadline = 3;
    }))

abbrev commits_by : (account index : ℕ) → EventLog SentinelEvents
commits_by account index =
    log 2 index (committed (record { request_id = 42; sentinel = account; bond_amount = 1000 }))

abbrev reveals_by : (account index : ℕ) → EventLog SentinelEvents
reveals_by account index = log 3 index (
    revealed (record {
      request_id = 42;
      sentinel = account;
      approved = true;
      bond_amount = 1000;
      reason = [];
    }))

-- Up to the last commitment, the latest first.
abbrev committing_phase : History
committing_phase =
    Message.event (commits_by 2 1)
    ∷ Message.event (commits_by 1 0)
    ∷ Message.new_block 2
    ∷ Message.resume (engine_check_result 42 approved)
    ∷ Message.event opened
    ∷ Message.event proposed
    ∷ Message.new_block 1
    ∷ []

abbrev counting_phase : History
counting_phase = Message.event (reveals_by 2 0) ∷ Message.new_block 3 ∷ committing_phase

abbrev flow : History
flow =
    Message.event (
      log 4 0
        (oracle_result (record { request_id = 42; sponsor = 3; outcome = []; approved = true })))
    ∷ Message.event (reveals_by 1 1)
    ∷ counting_phase

-- The commands of a vote that ends in a payout.
flow_commands : (run sentinel flow).1 ≡ (
    effect (engine_check 42 transfer 1)
    ∷ action (record { kind = approve_token 1000; expires_at = some 2 })
    ∷ action (record { kind = commit 42 163; expires_at = some 2 })
    ∷ action (record { kind = reveal 42 true 119 []; expires_at = some 3 })
    ∷ action (record { kind = finalize 42; expires_at = none })
    ∷ claim_action 42
    ∷ [])
unfolding run apply_transition handle_block_advance handle_oracle_transaction_proposed
    handle_new_request handle_engine_check_result handle_committed handle_revealed
    handle_oracle_result get insert remove be_bytes
flow_commands = refl

run-life_example : Follows 42 (run sentinel flow) (life sentinel 42 flow)
run-life_example = run-life sentinel 42 flow

reveal-Opens_example :
    Opens sentinel 42
      (last_commit 42 (run sentinel committing_phase).1)
      (apply_transition sentinel (run sentinel committing_phase).0 (Message.new_block 3)).1
reveal-Opens_example = reveal-Opens sentinel 42 committing_phase (Message.new_block 3)

run_accounts_example :
    (count finalizing 42 (run sentinel flow).1 ≤ count revealing 42 (run sentinel flow).1)
    × (count revealing 42 (run sentinel flow).1 ≤ count committing 42 (run sentinel flow).1)
    × (count committing 42 (run sentinel flow).1 ≤ count checking 42 (run sentinel flow).1)
    × (count claiming 42 (run sentinel flow).1 ≤ count checking 42 (run sentinel flow).1)
run_accounts_example = run_accounts sentinel 42 flow

abbrev voting : SentinelRequestState
voting = collecting_commitments true [] 500 2 3 2 true

handle_block_advance-IsSettled_example : IsSettled (
    get
      (handle_block_advance sentinel (handle_block_advance sentinel ((42, voting) ∷ []) 3).0 4).0
      42)
unfolding get
handle_block_advance-IsSettled_example =
    handle_block_advance-IsSettled sentinel 42 3 4 ((42, voting) ∷ []) voting (tt, tt) refl
      (omega arith, omega arith)

abbrev counting : SentinelRequestState
counting = collecting_votes true 500 3 2 1 1 0 false

run-IsTallied_example : IsTallied 9 counting
unfolding run apply_transition handle_block_advance handle_oracle_transaction_proposed
    handle_new_request handle_engine_check_result handle_committed handle_revealed get insert remove
run-IsTallied_example = run-IsTallied sentinel 42 counting_phase counting (omega arith) refl

abbrev opening : Opening
opening = record { approve = true; salt = 119; sentinel = 1; request_id = 42; reason = 82 ∷ [] }

commit_hash-binds_example : opening ≡ opening
commit_hash-binds_example =
    commit_hash-binds sum opening opening
      (record { salt = omega arith; sentinel = omega arith; request_id = omega arith })
      (record { salt = omega arith; sentinel = omega arith; request_id = omega arith }) (λ e. refl)
      refl

abbrev codec : Codec State State
codec = record { to_string = some; from_str = some }

abbrev inputs : List (Input SentinelEvents Resume)
inputs =
    update (block (new 1 1 1))
    ∷ update
        (logs (record { blocks = record { start = 1; last = 1 }; logs = proposed ∷ opened ∷ [] }))
    ∷ resumed (engine_check_result 42 approved)
    ∷ update (block (new 2 1 1))
    ∷ update (
        logs (record {
          blocks = record { start = 2; last = 2 };
          logs = commits_by 1 0 ∷ commits_by 2 1 ∷ [];
        }))
    ∷ []

service_bonds_example :
    Bonded sentinel 42 true 500 (messages (extend_all empty_chain inputs).history)
unfolding follow feed handle_update handle_resume Snapshots.commit apply_transition
    handle_block_advance handle_oracle_transaction_proposed handle_new_request
    handle_engine_check_result handle_committed get insert remove approve_and_slash_amount
service_bonds_example =
    service_bonds codec sentinel (λ s text e. ground (arith, e)) inputs ((42, voting) ∷ [])
      (block_pending 3) 42 voting true 500 refl refl refl
