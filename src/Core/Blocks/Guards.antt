-- ===== src/Core/Blocks/Guards.antt =====
-- crates/core/src/state/mod.rs, the conditions of `handle_update` on the numbers of blocks alone.
use shield_net.Prelude.{
  ℕ, ◌+◌, ◌≤◌, ◌<◌, ◌≡◌, Option, none, some, List, [], ◌∷◌, arith, leb, ltb, if◌then◌else◌,
}
use shield_net.Core.Snapshots.{i64_max}
use shield_net.Core.Machine.{
  BlockUpdate, warp, uncle, new, block_pending, accepts_next, accepts_uncle,
}

-- What the guards of `handle_update` let through at a state machine that works toward block `n`, and the block that
-- it works toward after the update and its logs. The rollback of an uncle is in `retain`.
unfoldable pub advance : ℕ → BlockUpdate → Option ℕ
unfolding accepts_next accepts_uncle
advance n (warp from to) =
    if accepts_next (block_pending n) from
    then (if leb from to then some (to + 1) else none)
    else none
advance n (uncle number) = if accepts_uncle (block_pending n) number then some number else none
advance n (new number hash logs_bloom) =
    if accepts_next (block_pending n) number then some (number + 1) else none

unfoldable pub advance_all : ℕ → List BlockUpdate → Option ℕ
unfolding advance
advance_all n [] = some n
advance_all n (update ∷ rest) = elim (advance n update) [
  | none ↦ none
  | some m ↦ advance_all m rest
]

-- The block from which on the snapshot table has every row up to the one that is worked toward, after an update and
-- its logs; `none` where the row below an uncle may be missing, or a number does not fit the column.
unfoldable pub retain : ℕ → BlockUpdate → Option ℕ
retain lo (warp from to) = if leb to i64_max then some to else none
retain lo (uncle number) = if ltb lo number then some lo else none
retain lo (new number hash logs_bloom) = if leb number i64_max then some lo else none

unfoldable pub retain_all : ℕ → List BlockUpdate → Option ℕ
unfolding retain
retain_all lo [] = some lo
retain_all lo (update ∷ rest) = elim (retain lo update) [ none ↦ none | some l ↦ retain_all l rest ]

-- What is queued keeps to the rows, which in the end, and before each new block, begin at the safe block or below.
abbrev pub IsDeep : (lo safe : ℕ) → List BlockUpdate → Type 0
IsDeep lo safe [] = lo ≤ safe
IsDeep lo safe (warp from to ∷ rest) = (to ≤ i64_max) × IsDeep to safe rest
IsDeep lo safe (uncle number ∷ rest) = (lo < number) × IsDeep lo safe rest
IsDeep lo safe (new number hash logs_bloom ∷ rest) =
    (lo ≤ safe) × (number ≤ i64_max) × IsDeep lo safe rest

pub retain-queued :
    (lo safe : ℕ) (update : BlockUpdate) (rest : List BlockUpdate)
    → IsDeep lo safe (update ∷ rest)
    → (l : ℕ) × (retain lo update ≡ some l) × IsDeep l safe rest
unfolding retain
retain-queued lo safe (warp from to) rest d = (to, ground (arith, d.0), d.1)
retain-queued lo safe (uncle number) rest d = (lo, ground (arith, d.0), d.1)
retain-queued lo safe (new number hash logs_bloom) rest d = (lo, ground (arith, d.1), d.2)
