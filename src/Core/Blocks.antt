-- ===== src/Core/Blocks.antt =====
-- crates/core/src/index/blocks.rs: the block watcher, which follows the canonical chain and yields block updates.
pub mod Start
pub mod Linked
pub mod Guards
pub mod Feeding
pub mod Checking
pub mod Starting
pub mod Resuming
pub mod Accepted
pub mod Driving
pub mod Logged
pub mod Followed
pub mod Watched
pub mod Steady
use shield_net.Prelude.{
  ℕ, suc, zero, ◌+◌, ◌*◌, ◌-◌, ◌%◌, ◌^◌, Bool, true, false, not, ◌&&◌, Option, none, some, List, [],
  ◌∷◌, length, ◌==◌, ltb, leb, if◌then◌else◌, Result, ok, err,
}
use shield_net.Core.Snapshots.{BlockStatus}
use shield_net.Core.Machine.{BlockUpdate, warp, uncle, new}

-- alloy's `BlockId`, as far as the watcher asks for
pub data BlockId : Type 0 where
  latest : BlockId
  at_number : ℕ → BlockId

pub record BlockHeader : Type 0 where
  pub number : ℕ
  pub hash : ℕ
  pub parent_hash : ℕ
  pub timestamp : ℕ
  pub logs_bloom : ℕ

pub data Error : Type 0 where
  rpc : ℕ → Error
  unknown_block_time : (chain_id : ℕ) → Error
  missing_block : BlockId → Error
  exceeded_max_reorg_depth : ℕ → Error

-- The provider: its answer to each call, in their order. A transport error is a number.
abbrev pub Provider : Type 0
Provider = ℕ → BlockId → Result ℕ (Option BlockHeader)

pub record Config : Type 0 where
  pub block_retry_delays : List ℕ
  pub max_reorg_depth : ℕ
  pub start_block : Option ℕ

pub record PendingBlock : Type 0 where
  pub number : ℕ
  pub timestamp_ms : ℕ

pub record SafeBlock : Type 0 where
  pub number : ℕ
  pub hash : ℕ

-- `recent` has the newest block first; `queue` the next update.
pub record BlockWatcher : Type 0 where
  pub config : Config
  pub block_time : ℕ
  pub pending : PendingBlock
  pub safe : SafeBlock
  pub recent : List BlockHeader
  pub queue : List BlockUpdate

pub record InvalidatedBlock : Type 0 where
  pub number : ℕ
  pub hash : ℕ

pub data BlockTime : Type 0 where
  auto : BlockTime
  millis : ℕ → BlockTime

unfoldable pub resolve : BlockTime → (chain_id : ℕ) → Result Error ℕ
resolve (millis block_time) chain_id = ok block_time
resolve auto chain_id =
    if chain_id == 100
    then ok 5_000
    else if chain_id == 11155111
    then ok 12_000
    else err (unknown_block_time chain_id)

-- `u64` arithmetic without overflow checks
abbrev pub wrap : ℕ → ℕ
wrap n = n % 2 ^ 64

unfoldable pub next_pending : (block_time number timestamp : ℕ) → PendingBlock
next_pending block_time number timestamp = record {
  number = wrap (number + 1);
  timestamp_ms = wrap (timestamp * 1000 + block_time);
}

-- The block to wait for again after an uncle.
abbrev pub pending_again : BlockHeader → PendingBlock
pending_again last = record { number = last.number; timestamp_ms = wrap (last.timestamp * 1000) }

abbrev pub new_of : BlockHeader → BlockUpdate
new_of block = new block.number block.hash block.logs_bloom

-- `recent.pop_front()`: the oldest block, and the others.
unfoldable pub pop_oldest : List BlockHeader → Option (BlockHeader × List BlockHeader)
pop_oldest [] = none
pop_oldest (b ∷ bs) = elim (pop_oldest bs) [
  | none ↦ some (b, [])
  | some (oldest, rest) ↦ some (oldest, b ∷ rest)
]

-- `next`, from the new canonical block on: the block joins the recent ones, of which the oldest may become safe.
unfoldable pub accept : BlockWatcher → BlockHeader → BlockWatcher
unfolding next_pending pop_oldest
accept w block =
    let recent = block ∷ w.recent in
    let joined = record w {
      pending = next_pending w.block_time block.number block.timestamp;
      recent = recent;
    } in
    if ltb w.config.max_reorg_depth (length recent)
    then (elim (pop_oldest recent) [
      | none ↦ joined
      | some (evicted, rest) ↦ record joined {
        safe = record { number = evicted.number; hash = evicted.hash };
        recent = rest;
      }
    ])
    else joined

-- `next`, once the pending block is there, by the recent blocks.
unfoldable pub observe_from :
    BlockWatcher → BlockHeader → List BlockHeader → BlockWatcher × Result Error BlockUpdate
unfolding accept
observe_from w block (last ∷ rest) =
    if not (last.hash == block.parent_hash)
    then (record w { recent = rest; pending = pending_again last }, ok (uncle last.number))
    else (accept w block, ok (new_of block))
observe_from w block [] =
    if not (w.safe.hash == block.parent_hash)
    then (w, err (exceeded_max_reorg_depth w.config.max_reorg_depth))
    else (accept w block, ok (new_of block))

unfoldable pub observe_pending :
    BlockWatcher → BlockHeader → BlockWatcher × Result Error BlockUpdate
unfolding observe_from
observe_pending w block = observe_from w block w.recent

-- A reply to the call for the pending block, and what comes of calling again.
unfoldable pub replied :
    BlockWatcher
    → (again : Option (BlockWatcher × Result Error BlockHeader)) → Result ℕ (Option BlockHeader)
    → Option (BlockWatcher × Result Error BlockHeader)
replied w again (err e) = some (w, err (rpc e))
replied w again (ok (some block)) = some (w, ok block)
replied w again (ok none) = again

-- The loop of `next`, of at most `fuel` calls; `none` while the block is not there.
unfoldable pub poll :
    Provider → (fuel calls : ℕ) → BlockWatcher → Option (BlockWatcher × Result Error BlockHeader)
unfolding replied
poll provider zero calls w = none
poll provider (suc fuel) calls w =
    let delays = length w.config.block_retry_delays in
    let later = wrap (w.pending.timestamp_ms + w.block_time) in
    let retried = poll provider fuel (calls + 1) w in
    let waited =
      poll provider fuel (calls + 1)
        (record w { pending = record { number = w.pending.number; timestamp_ms = later } }) in
    let again = if ltb (calls % (delays + 1)) delays then retried else waited in
    replied w again (provider calls (at_number w.pending.number))

-- What `next` yields once it has polled.
unfoldable pub yields :
    Option (BlockWatcher × Result Error BlockHeader)
    → Option (BlockWatcher × Result Error BlockUpdate)
unfolding observe_pending
yields none = none
yields (some (w, err e)) = some (w, err e)
yields (some (w, ok block)) = some (observe_pending w block)

-- What is queued comes before what is polled.
unfoldable pub dequeue :
    BlockWatcher
    → (polled : Option (BlockWatcher × Result Error BlockUpdate)) → List BlockUpdate
    → Option (BlockWatcher × Result Error BlockUpdate)
dequeue w polled (update ∷ rest) = some (record w { queue = rest }, ok update)
dequeue w polled [] = polled

unfoldable pub next :
    Provider → (fuel : ℕ) → BlockWatcher → Option (BlockWatcher × Result Error BlockUpdate)
unfolding poll yields dequeue
next provider fuel w = dequeue w (yields (poll provider fuel 0 w)) w.queue

-- The recent blocks from the last one before `number` on.
unfoldable pub before : ℕ → List BlockHeader → List BlockHeader
before number [] = []
before number (b ∷ bs) = let rest = before number bs in if ltb b.number number then b ∷ bs else rest

-- The blocks that `revalidate_last_block` may check, by what it has yet to yield; none while an uncle or a warp is
-- next.
unfoldable pub yielded : List BlockUpdate → List BlockHeader → List BlockHeader
unfolding before
yielded [] recent = recent
yielded (new number hash logs_bloom ∷ queue) recent = before number recent
yielded (_ ∷ queue) recent = []

unfoldable pub is_same_block : Option BlockHeader → BlockHeader → Bool
is_same_block none last = false
is_same_block (some block) last = block.hash == last.hash

-- What the chain has for the block that is checked.
unfoldable pub checked :
    BlockWatcher
    → (last : BlockHeader) (rest : List BlockHeader) → Result ℕ (Option BlockHeader)
    → BlockWatcher × Result Error (Option InvalidatedBlock)
unfolding is_same_block
checked w last rest (err e) = (w, err (rpc e))
checked w last rest (ok current) = if is_same_block current last then (w, ok none) else (
  record w { recent = rest; pending = pending_again last; queue = uncle last.number ∷ [] },
  ok (some (record { number = last.number; hash = last.hash })),
)

unfoldable pub check_last :
    Provider
    → BlockWatcher
    → List BlockHeader
    → BlockWatcher × Result Error (Option InvalidatedBlock)
unfolding checked
check_last provider w [] = (w, ok none)
check_last provider w (last ∷ rest) = checked w last rest (provider 0 (at_number last.number))

unfoldable pub revalidate_last_block :
    Provider → BlockWatcher → BlockWatcher × Result Error (Option InvalidatedBlock)
unfolding yielded check_last
revalidate_last_block provider w = check_last provider w (yielded w.queue w.recent)

-- `ready`: every queued update.
unfoldable pub ready : BlockWatcher → BlockWatcher × List BlockUpdate
ready w = (record w { queue = [] }, w.queue)

unfoldable pub status : BlockWatcher → BlockStatus
status w = record { latest = w.pending.number - 1; safe = w.safe.number }
