-- ===== src/Validator/RolloverExamples.antt =====
-- Concrete rollovers and runs of the whole service, for the theorems on key generation and on the epochs.
use shield_net.Prelude.{
  ℕ, ◌*◌, ◌+◌, ◌^◌, ◌≤◌, ◌<◌, ◌≡◌, refl, some, none, List, [], ◌∷◌, arith, get, insert, split_off,
  saturating_mul, remove, contains_key, saturating_add,
}
use shield_net.Core.Snapshots.{Codec, commit, to_i64}
use shield_net.Core.Machine.{block, logs, new, EventLog, Message, Status, handle_update}
use shield_net.Core.Machine.Invariant.{Input, update, feed, follow}
use shield_net.Core.Machine.Chain.{extend_all}
use shield_net.Validator.Epoch.{number}
use shield_net.Validator.Types.{
  Group, KeyGenCommitment, KeyGenParticipation, Complaint, RolloverState, State, Resume, Transition,
}
use shield_net.Validator.Groups.{
  group_threshold, epoch_context, participants_set, remove_all, active_addresses,
}
use shield_net.Validator.Dispatch.{
  Event, key_gen_committed, key_gen_secret_shared, key_gen_confirmed, key_gen_complained,
  epoch_staged, apply_transition,
}
use shield_net.Validator.Keygen.{
  start_key_gen, handle_key_gen_timeouts, handle_rollover_new_block, handle_epoch_staged,
  handle_key_gen_confirmed, handle_key_gen_secret_shared, handle_key_gen_committed,
}
use shield_net.Validator.Preprocess.{handle_group_reconciliation, handle_nonce_topup}
use shield_net.Validator.Timeouts.{sweep, handle_signing_timeouts}
use shield_net.Validator.Participation.{participate_as, group_id, keys}
use shield_net.Validator.Merkle.{root, build, next_level, hash_pair}
use shield_net.Validator.Examples.{config}
use shield_net.Validator.Rollover.{IsAhead}
use shield_net.Validator.Rollover.Ahead.{apply_transition-IsAhead}
use shield_net.Validator.Rollover.Lineage.{WasReached}
use shield_net.Core.Machine.Chain.Live.{empty_chain, messages}
use shield_net.Validator.Rollover.Service.{default, service_lineage}
use shield_net.Validator.Complaints.{IsBounded}
use shield_net.Validator.Complaints.Messages.{apply_transition-IsBounded}
use shield_net.Validator.Stalls.{Shrinks, IsStalled}
use shield_net.Validator.Stalls.Deadlines.{handle_key_gen_timeouts-Shrinks}

-- Four validators, which validator 9 observes.
abbrev four : Transition
four = record config {
  account = 9;
  blocks_per_epoch = 2;
  participants =
      record { address = 1; active_from = 0; active_before = none }
      ∷ record { address = 2; active_from = 0; active_before = none }
      ∷ record { address = 3; active_from = 0; active_before = none }
      ∷ record { address = 4; active_from = 0; active_before = none }
      ∷ [];
}

abbrev members : Group
members = record {
  id = 80;
  root = 81;
  participants = (1, tt) ∷ (2, tt) ∷ (3, tt) ∷ (4, tt) ∷ [];
  excluded = [];
  count = 4;
  threshold = 3;
  context = 0;
}

-- Validator 4 has not published its shares by block 50, and validator 2 has one complaint against it.
abbrev sharing : State
sharing = record default {
  rollover =
      RolloverState.collecting_shares (number 7) members (KeyGenParticipation.observing 3)
        ((1, 11) ∷ (2, 12) ∷ (3, 13) ∷ []) [] ((2, record { total = 1; unresponded = 1 }) ∷ [])
        (some 50);
}

stall : IsStalled 7 members sharing.rollover 50
stall =
    IsStalled.shares (KeyGenParticipation.observing 3) _ [] _ 50 refl (omega arith)
      ((omega arith, (omega arith, tt)), ((omega arith, tt), (tt, tt))) (omega arith)

handle_key_gen_timeouts-Shrinks_example :
    Shrinks four 7 members (handle_key_gen_timeouts four sharing 50).0.rollover
unfolding remove_all active_addresses insert
handle_key_gen_timeouts-Shrinks_example =
    handle_key_gen_timeouts-Shrinks four 7 sharing members 50
      (record { members = refl; counted = refl; small = omega arith }) stall

abbrev complaint : Message Event Resume
complaint = Message.event (record {
  block = 40;
  index = 0;
  address = 1;
  event = key_gen_complained (record { gid = 80; plaintiff = 3; accused = 2 });
})

apply_transition-IsBounded_example : IsBounded (apply_transition four sharing complaint).0.rollover
unfolding get
apply_transition-IsBounded_example =
    apply_transition-IsBounded four sharing complaint (omega arith, bounded)
  where
    bounded :
        (a : ℕ) (c : Complaint)
        → get ((2, record { total = 1; unresponded = 1 }) ∷ []) a ≡ some c
        → (c.unresponded ≤ c.total) × (c.total < 3)
    bounded a c h = ground (arith, h)

apply_transition-IsAhead_example : IsAhead (apply_transition four sharing complaint).0
apply_transition-IsAhead_example = apply_transition-IsAhead four sharing complaint (omega arith)

abbrev codec : Codec State State
codec = record { to_string = some; from_str = some }

abbrev log : ℕ → ℕ → Event → EventLog Event
log n index event = record { block = n; index = index; address = 1; event = event }

-- The key generation of epoch 6, observed, up to its staging.
abbrev key_generation : List (EventLog Event)
key_generation =
    log 11 0 (key_gen_committed (record { gid = 0; participant = 1; commitment = 5 }))
    ∷ log 11 1 (key_gen_committed (record { gid = 0; participant = 2; commitment = 5 }))
    ∷ log 11 2 (key_gen_committed (record { gid = 0; participant = 3; commitment = 5 }))
    ∷ log 11 3 (key_gen_committed (record { gid = 0; participant = 4; commitment = 5 }))
    ∷ log 11 4 (key_gen_secret_shared (record { gid = 0; participant = 1; share = 5 }))
    ∷ log 11 5 (key_gen_secret_shared (record { gid = 0; participant = 2; share = 5 }))
    ∷ log 11 6 (key_gen_secret_shared (record { gid = 0; participant = 3; share = 5 }))
    ∷ log 11 7 (key_gen_secret_shared (record { gid = 0; participant = 4; share = 5 }))
    ∷ log 11 8 (key_gen_confirmed (record { gid = 0; participant = 1 }))
    ∷ log 11 9 (key_gen_confirmed (record { gid = 0; participant = 2 }))
    ∷ log 11 10 (key_gen_confirmed (record { gid = 0; participant = 3 }))
    ∷ log 11 11 (key_gen_confirmed (record { gid = 0; participant = 4 }))
    ∷ log 11 12 (epoch_staged (record { proposed_epoch = 6; group_id = 0; signature_id = 3 }))
    ∷ []

abbrev blocks : List (Input Event Resume)
blocks =
    update (block (new 10 1 1))
    ∷ update (
        logs (record {
          blocks = record { start = 10; last = 10 };
          logs =
              log 10 0
                (epoch_staged (record { proposed_epoch = 1; group_id = 70; signature_id = 2 }))
              ∷ [];
        }))
    ∷ update (block (new 11 1 1))
    ∷ update (logs (record { blocks = record { start = 11; last = 11 }; logs = key_generation }))
    ∷ update (block (new 12 1 1))
    ∷ []

-- Epoch 6 is active, and the key generation of epoch 7 has begun.
abbrev rolled_over : State
rolled_over = record default {
  rollover =
      RolloverState.collecting_commitments (number 7)
        (record {
          id = 0;
          root = 77;
          participants = (1, tt) ∷ (2, tt) ∷ (3, tt) ∷ (4, tt) ∷ [];
          excluded = [];
          count = 4;
          threshold = 3;
          context = 50 * 2 ^ 64 + 7;
        })
        KeyGenCommitment.observing [] (some 22);
  active_epoch = number 6;
}

service_lineage_example :
    IsAhead rolled_over
    × ((n : ℕ)
        → number 6 ≡ number n
        → WasReached four n (messages (extend_all empty_chain blocks).history))
unfolding follow feed handle_update commit apply_transition handle_group_reconciliation
    handle_nonce_topup split_off get handle_signing_timeouts handle_key_gen_timeouts
    handle_rollover_new_block handle_epoch_staged handle_key_gen_confirmed
    handle_key_gen_secret_shared handle_key_gen_committed participants_set active_addresses insert
    remove_all contains_key saturating_add saturating_mul to_i64 start_key_gen participate_as
    group_id sweep root group_threshold epoch_context remove build keys next_level hash_pair
service_lineage_example =
    service_lineage codec four (λ s t e. ground (arith, e)) blocks rolled_over
      (Status.block_events 12) refl
