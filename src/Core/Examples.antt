-- ===== src/Core/Examples.antt =====
-- Concrete machines and tables for the theorems on the snapshot table and on the state machine.
use shield_net.Prelude.{
  ℕ, ◌+◌, ◌≡◌, refl, some, List, [], ◌∷◌, arith, Map, get, below, insert, last_key_value, ok, err,
  checked_add, ◌≤◌, ◌<◌, none,
}
use shield_net.Core.Snapshots
use shield_net.Core.Snapshots.{Codec, to_i64, commit, reorg, current, keep_rows, delete_below}
use shield_net.Core.Snapshots.Recover.{prune-current, reorg-commit}
use shield_net.Core.Machine.{
  block, uncle, new, logs, EventUpdate, Message, Status, block_pending, process, on_uncle, on_new,
  on_logs, apply_logs, finish, accepts_uncle, accepts_next, accepts_logs, is_next_in_range,
  is_sorted, all_in_range, status_after_logs, next_block, update_inner, resume_inner, handle_update,
  handle_resume, with_init, bad_update, poisoned,
}
use shield_net.Core.Machine.Invariant.{
  Input, update, resumed, feed, follow, IsTracked, follow-IsTracked, handle_update_halts,
}
use shield_net.Core.Machine.Chain.{Chain, extend_all, replay, Refines}
use shield_net.Core.Machine.Chain.Refinement.{follow-Refines}
use shield_net.Core.Machine.Reorg.{at_tip, uncle-follow}
use shield_net.Core.Machine.Restart.{with_init-handle_update}

abbrev codec : Codec ℕ ℕ
codec = record { to_string = some; from_str = some }

abbrev count : ℕ → Message ℕ ℕ → ℕ × List ℕ
count s m = (s + 1, s ∷ [])

abbrev rows : Map ℕ
rows = (4, 6) ∷ (5, 7) ∷ []

abbrev logs_6 : EventUpdate ℕ
logs_6 = record {
  blocks = record { start = 6; last = 6 };
  logs = record { block = 6; index = 0; address = 1; event = 2 } ∷ [];
}

abbrev inputs : List (Input ℕ ℕ)
inputs =
    update (block (new 6 1 1)) ∷ resumed 3 ∷ update (logs logs_6) ∷ update (block (new 7 1 1)) ∷ []

uncle-follow_example :
    handle_update codec count (follow codec count (at_tip rows 7 5) inputs) (block (uncle 6))
    ≡ (at_tip rows 7 5, ok [])
unfolding follow feed handle_update handle_resume resume_inner update_inner process on_uncle on_new
    on_logs apply_logs finish accepts_next accepts_uncle accepts_logs is_next_in_range is_sorted
    all_in_range status_after_logs next_block checked_add commit to_i64 insert get
uncle-follow_example =
    uncle-follow codec count rows inputs 5 7 11 (Status.block_events 7) 7
      (omega arith, (omega arith, tt)) refl refl (omega arith) (tt, (tt, (tt, tt))) refl refl

with_init-handle_update_example :
    with_init codec count ((4, 6) ∷ (5, 7) ∷ (6, 9) ∷ []) 0
    ≡ ok (record { inner = some (9, block_pending 7); snapshots = (4, 6) ∷ (5, 7) ∷ (6, 9) ∷ [] })
unfolding handle_update update_inner process on_logs apply_logs finish accepts_logs is_next_in_range
    is_sorted all_in_range status_after_logs next_block checked_add commit to_i64 insert
with_init-handle_update_example =
    with_init-handle_update codec count (λ s t e. ground (arith, e)) rows
      ((4, 6) ∷ (5, 7) ∷ (6, 9) ∷ []) 0 8 9 (Status.block_events 6) 7 logs_6 (8 ∷ [])
      (omega arith, (omega arith, tt)) refl

follow-IsTracked_example : IsTracked (follow codec count (at_tip rows 7 5) inputs)
follow-IsTracked_example =
    follow-IsTracked codec count (at_tip rows 7 5) inputs
      (record { sorted = ((omega arith, tt), (tt, tt)); tracks = (omega arith, (omega arith, tt)) })

handle_update_halts_example :
    let halted =
      follow codec count (handle_update codec count (at_tip rows 7 5) (block (uncle 6))).0 inputs in
    (halted ≡ record { inner = none; snapshots = rows })
    × ((handle_update codec count halted (logs logs_6)).1 ≡ err poisoned)
unfolding handle_update update_inner process on_uncle finish accepts_uncle
handle_update_halts_example =
    handle_update_halts codec count (at_tip rows 7 5) (block (uncle 6)) (logs logs_6) inputs
      bad_update refl

reorg-commit_example :
    (reorg codec ((4, 6) ∷ (5, 7) ∷ (6, 9) ∷ []) 7 ≡ ok ((4, 6) ∷ (5, 7) ∷ (6, 9) ∷ [], 6, 9))
    × (current codec ((4, 6) ∷ (5, 7) ∷ (6, 9) ∷ []) ≡ ok (some (6, 9)))
unfolding commit to_i64 insert
reorg-commit_example =
    reorg-commit codec (λ s t e. ground (arith, e)) rows ((4, 6) ∷ (5, 7) ∷ (6, 9) ∷ []) 6 9
      (omega arith) (omega arith, (omega arith, tt)) refl

prune-current_example :
    (current codec ((5, 7) ∷ []) ≡ current codec rows)
    × ((k : ℕ) → 9 ≤ k → get {V = ℕ} ((5, 7) ∷ []) k ≡ get rows k)
    × ((k : ℕ) → k < 9 → k < 5 → get {V = ℕ} ((5, 7) ∷ []) k ≡ none)
unfolding Snapshots.prune to_i64 delete_below keep_rows last_key_value
prune-current_example = prune-current codec rows ((5, 7) ∷ []) 9 5 7 refl refl

-- The machine at the start of `inputs`, after two messages at the blocks 4 and 5.
abbrev chain : Chain ℕ ℕ
chain = record { next = 6; history = (5, Message.new_block 5) ∷ (4, Message.new_block 4) ∷ [] }

at_tip-Refines : Refines codec count 5 (at_tip rows 7 5) chain
unfolding replay get below
at_tip-Refines = record {
  live = refl;
  at = refl;
  tags = (omega arith, (omega arith, tt));
  rows_below = λ (k t : ℕ) (g : get rows k ≡ some t). ground (arith, g);
  rows_replay = λ (k t : ℕ) (g : get rows k ≡ some t). ground (arith, g);
}

follow-Refines_example :
    Refines codec count 5 (follow codec count (at_tip rows 7 5) inputs) (extend_all chain inputs)
follow-Refines_example =
    follow-Refines codec count 5 (λ s t e. ground (arith, e)) (at_tip rows 7 5) chain inputs
      at_tip-Refines
