-- ===== src/Core/Blocks/Start.antt =====
-- crates/core/src/index/blocks.rs: `BlockWatcher::new` and `BlockWatcher::initialize`.
use shield_net.Prelude.{
  ℕ, suc, zero, ◌+◌, ◌-◌, Bool, true, Option, none, some, List, [], ◌∷◌, ◌++◌, ◌==◌, ltb, leb,
  if◌then◌else◌, Result, ok, err, checked_add,
}
use shield_net.Core.Snapshots.{BlockStatus}
use shield_net.Core.Machine.{BlockUpdate, warp, uncle}
use shield_net.Core.Blocks.{
  BlockId, latest, at_number, BlockHeader, Error, rpc, missing_block, Provider, Config,
  BlockWatcher, BlockTime, resolve, next_pending, new_of, pop_oldest, wrap,
}

unfoldable pub require_block : Provider → (calls : ℕ) → BlockId → Result Error BlockHeader
require_block provider calls id = elim (provider calls id) [
  | err e ↦ err (rpc e)
  | ok none ↦ err (missing_block id)
  | ok (some block) ↦ ok block
]

-- `parent_hash.is_none_or(|hash| hash == block.parent_hash)`, of the last block of the scan.
abbrev pub links : List BlockHeader → BlockHeader → Bool
links [] block = true
links (last ∷ rest) block = last.hash == block.parent_hash

-- The scan from `number` on, without the cached latest block, of at most `fuel` steps; `none` when they do not
-- suffice.
unfoldable pub rescan :
    Provider
    → (fuel calls safe last number : ℕ) → List BlockHeader
    → Option (Result Error (List BlockHeader))
unfolding require_block
rescan provider zero calls safe last number recent = none
rescan provider (suc fuel) calls safe last number recent =
    if ltb last number
    then some (ok recent)
    else (elim (require_block provider calls (at_number number)) [
      | err e ↦ some (err e)
      | ok block ↦
          let joined =
            rescan provider fuel (calls + 1) safe last (wrap (number + 1)) (block ∷ recent) in
          let again = rescan provider fuel (calls + 1) safe last safe [] in
          if links recent block then joined else again
    ])

-- The scan while the latest block is cached: it is taken from there at its number.
unfoldable pub scan :
    Provider
    → (fuel calls safe : ℕ) → BlockHeader
    → (number : ℕ) → List BlockHeader
    → Option (Result Error (List BlockHeader))
unfolding require_block rescan
scan provider zero calls safe last number recent = none
scan provider (suc fuel) calls safe last number recent =
    if number == last.number
    then (if links recent last
        then rescan provider fuel calls safe last.number (wrap (number + 1)) (last ∷ recent)
        else rescan provider fuel calls safe last.number safe [])
    else (elim (require_block provider calls (at_number number)) [
      | err e ↦ some (err e)
      | ok block ↦
          let joined =
            scan provider fuel (calls + 1) safe last (wrap (number + 1)) (block ∷ recent) in
          let again = rescan provider fuel (calls + 1) safe last.number safe [] in
          if links recent block then joined else again
    ])

-- The updates before the recent blocks.
unfoldable pub catch_up : Option BlockStatus → Option ℕ → (safe : ℕ) → List BlockUpdate
unfolding checked_add
catch_up (some indexed) start_block safe = elim (checked_add indexed.safe 1) [
  | none ↦ []
  | some first ↦
      (if leb first indexed.latest then uncle first ∷ [] else [])
      ++ (if leb first safe then warp first safe ∷ [] else [])
]
catch_up none (some start_block) safe =
    if leb start_block safe then warp start_block safe ∷ [] else []
catch_up none none safe = []

-- The number from which the recent blocks are yielded; `none` for none of them.
unfoldable pub first_new : Option BlockStatus → Option ℕ → Option ℕ
unfolding checked_add
first_new (some indexed) start_block = checked_add indexed.safe 1
first_new none (some start_block) = some start_block
first_new none none = some 0

unfoldable pub news : Option ℕ → List BlockHeader → List BlockUpdate
news none blocks = []
news (some first) [] = []
news (some first) (b ∷ bs) =
    news (some first) bs ++ (if leb first b.number then new_of b ∷ [] else [])

-- The watcher with the oldest scanned block as the safe one.
unfoldable pub anchored :
    Config
    → (block_time : ℕ) → Option BlockStatus
    → BlockHeader
    → (safe : ℕ) → Option (BlockHeader × List BlockHeader)
    → Option (Result Error BlockWatcher)
unfolding catch_up first_new news next_pending
anchored config block_time indexed last safe none = none
anchored config block_time indexed last safe (some (anchor, recent)) = some (
    ok (record {
      config = config;
      block_time = block_time;
      pending = next_pending block_time last.number last.timestamp;
      safe = record { number = anchor.number; hash = anchor.hash };
      recent = recent;
      queue =
          catch_up indexed config.start_block safe
          ++ news (first_new indexed config.start_block) recent;
    }))

unfoldable pub started :
    Config
    → (block_time : ℕ) → Option BlockStatus
    → BlockHeader
    → (safe : ℕ) → Option (Result Error (List BlockHeader))
    → Option (Result Error BlockWatcher)
unfolding anchored pop_oldest
started config block_time indexed last safe none = none
started config block_time indexed last safe (some (err e)) = some (err e)
started config block_time indexed last safe (some (ok blocks)) =
    anchored config block_time indexed last safe (pop_oldest blocks)

-- `initialize`, by the latest block.
unfoldable pub initialize_at :
    Provider
    → (fuel : ℕ) → Config
    → (block_time : ℕ) → Option BlockStatus
    → Result Error BlockHeader
    → Option (Result Error BlockWatcher)
unfolding scan started
initialize_at provider fuel config block_time indexed (err e) = some (err e)
initialize_at provider fuel config block_time indexed (ok last) =
    let safe = last.number - config.max_reorg_depth in
    started config block_time indexed last safe (scan provider fuel 1 safe last safe [])

unfoldable pub initialize :
    Provider
    → (fuel : ℕ) → Config
    → (block_time : ℕ) → Option BlockStatus
    → Option (Result Error BlockWatcher)
unfolding require_block initialize_at
initialize provider fuel config block_time indexed =
    initialize_at provider fuel config block_time indexed (require_block provider 0 latest)

-- `BlockWatcher::new`
unfoldable pub new_watcher :
    Provider
    → (fuel : ℕ) → (chain_id : ℕ) → BlockTime
    → Config
    → Option BlockStatus
    → Option (Result Error BlockWatcher)
unfolding resolve initialize
new_watcher provider fuel chain_id block_time config indexed = elim (resolve block_time chain_id) [
  | err e ↦ some (err e)
  | ok millis ↦ initialize provider fuel config millis indexed
]
