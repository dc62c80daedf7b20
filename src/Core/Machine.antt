-- ===== src/Core/Machine.antt =====
-- crates/core/src/state/mod.rs: the state machine that folds the indexer's updates into the service's
-- state. The service's transition is the parameter `apply_transition`, as in the source.
pub mod Change
pub mod Invariant
pub mod Reorg
pub mod Restart
pub mod Chain
use shield_net.Prelude.{
  ℕ, ◌+◌, Bool, true, false, not, ◌&&◌, ◌||◌, Option, none, some, List, [], ◌∷◌, ◌++◌, leb, ltb,
  ◌==◌, if◌then◌else◌, Map, Result, ok, err, ok_or, map_err, ◌>>=◌, checked_add,
}
use shield_net.Core.Snapshots
use shield_net.Core.Snapshots.{Codec}

pub data Error : Type 0 where
  storage : Snapshots.Error → Error
  end_of_chain bad_update poisoned : Error

pub data BlockUpdate : Type 0 where
  warp : ℕ → ℕ → BlockUpdate
  uncle : ℕ → BlockUpdate
  new : ℕ → ℕ → ℕ → BlockUpdate  -- number, hash, logs_bloom

-- std::range::RangeInclusive<u64>
pub record BlockRange : Type 0 where
  pub start : ℕ
  pub last : ℕ

pub record EventLog (E : Type 0) : Type 0 where
  pub block : ℕ
  pub index : ℕ
  pub address : ℕ
  pub event : E

pub record EventUpdate (E : Type 0) : Type 0 where
  pub blocks : BlockRange
  pub logs : List (EventLog E)

pub data Update (E : Type 0) : Type 0 where
  block : BlockUpdate → Update E
  logs : EventUpdate E → Update E

pub data Message (E R : Type 0) : Type 0 where
  new_block : ℕ → Message E R
  event : EventLog E → Message E R
  resume : R → Message E R

pub data Status : Type 0 where
  initialized : Status
  block_pending : ℕ → Status
  block_events : ℕ → Status
  warp_events : BlockRange → Status

pub record Machine (S T : Type 0) : Type 0 where
  pub inner : Option (S × Status)
  pub snapshots : Map T

unfoldable pub next_block : ℕ → Result Error ℕ
unfolding checked_add
next_block number = ok_or end_of_chain (checked_add number 1)

unfoldable pub block_range : ℕ → ℕ → Result Error BlockRange
block_range from to =
    if leb from to then ok (record { start = from; last = to }) else err bad_update

abbrev pub contains : BlockRange → ℕ → Bool
contains r n = leb r.start n && leb n r.last

unfoldable pub is_next_in_range : BlockRange → BlockRange → Bool
is_next_in_range range sub = range.start == sub.start && contains range sub.last

-- The guards of `handle_update`'s arms.
unfoldable pub accepts_next : Status → ℕ → Bool
accepts_next initialized number = true
accepts_next (block_pending pending) number = pending == number
accepts_next _ number = false

unfoldable pub accepts_uncle : Status → ℕ → Bool
accepts_uncle (block_pending pending) number = ltb number pending
accepts_uncle (block_events latest) number = leb number latest
accepts_uncle _ number = false

unfoldable pub accepts_logs : Status → BlockRange → Bool
unfolding is_next_in_range
accepts_logs (block_events latest) blocks =
    is_next_in_range (record { start = latest; last = latest }) blocks
accepts_logs (warp_events range) blocks = is_next_in_range range blocks
accepts_logs _ blocks = false

unfoldable pub status_after_logs : Status → BlockRange → Result Error Status
unfolding next_block block_range
status_after_logs (warp_events range) blocks =
    if ltb blocks.last range.last
    then (do
      from ← next_block blocks.last
      rest ← block_range from range.last
      ok (warp_events rest))
    else (do pending ← next_block blocks.last; ok (block_pending pending))
status_after_logs _ blocks = do pending ← next_block blocks.last; ok (block_pending pending)

module _ {E : Type 0} where
  -- (a.block, a.index) < (b.block, b.index)
  abbrev pub log_lt : EventLog E → EventLog E → Bool
  log_lt a b = ltb a.block b.block || (a.block == b.block && ltb a.index b.index)

  unfoldable pub is_sorted : List (EventLog E) → Bool
  is_sorted [] = true
  is_sorted (a ∷ []) = true
  is_sorted (a ∷ b ∷ l) = log_lt a b && is_sorted (b ∷ l)

  unfoldable pub all_in_range : BlockRange → List (EventLog E) → Bool
  all_in_range r [] = true
  all_in_range r (a ∷ l) = contains r a.block && all_in_range r l

module _ {S T E R C : Type 0} (codec : Codec S T)
    (apply_transition : S → Message E R → S × List C) where
  -- `with_init`, over the table of an earlier run.
  unfoldable pub with_init : Map T → S → Result Error (Machine S T)
  unfolding checked_add
  with_init snapshots init = do
    current ← map_err storage (Snapshots.current codec snapshots)
    elim current [
      | none ↦ ok (record { inner = some (init, initialized); snapshots = snapshots })
      | some (latest, s) ↦ (do
        pending ← ok_or end_of_chain (checked_add latest 1)
        ok (record { inner = some (s, block_pending pending); snapshots = snapshots }))
    ]

  -- The loop over the logs of an update.
  unfoldable pub apply_logs : S → List (EventLog E) → S × List C
  apply_logs s [] = (s, [])
  apply_logs s (log ∷ rest) =
      let (s', commands) = apply_transition s (event log) in
      let (s'', more) = apply_logs s' rest in (s'', commands ++ more)

  abbrev pub Outcome : Type 0
  Outcome = Result Error (S × Status × Map T × List C)

  unfoldable pub on_warp : S → Status → Map T → ℕ → ℕ → Outcome
  unfolding accepts_next block_range
  on_warp s status snapshots from to =
      if accepts_next status from
      then (do range ← block_range from to; ok (s, warp_events range, snapshots, []))
      else err bad_update

  unfoldable pub on_uncle : S → Status → Map T → ℕ → Outcome
  unfolding accepts_uncle
  on_uncle s status snapshots number =
      if accepts_uncle status number
      then (do
        r ← map_err storage (Snapshots.reorg codec snapshots number)
        ok (r.2, block_pending number, r.0, []))
      else err bad_update

  unfoldable pub on_new : S → Status → Map T → ℕ → Outcome
  unfolding accepts_next
  on_new s status snapshots number =
      if accepts_next status number
      then (let (s', commands) = apply_transition s (new_block number) in
          ok (s', block_events number, snapshots, commands))
      else err bad_update

  unfoldable pub on_logs : S → Status → Map T → EventUpdate E → Outcome
  unfolding accepts_logs status_after_logs apply_logs is_sorted all_in_range
  on_logs s status snapshots u =
      if accepts_logs status u.blocks
      then (if not (is_sorted u.logs) || not (all_in_range u.blocks u.logs)
          then err bad_update
          else (do
            let r = apply_logs s u.logs
            status' ← status_after_logs status u.blocks
            snapshots' ← map_err storage (Snapshots.commit codec snapshots u.blocks.last r.0)
            ok (r.0, status', snapshots', r.1)))
      else err bad_update

  unfoldable pub process : S → Status → Map T → Update E → Outcome
  unfolding on_warp on_uncle on_new on_logs
  process s status snapshots (block (warp from to)) = on_warp s status snapshots from to
  process s status snapshots (block (uncle number)) = on_uncle s status snapshots number
  process s status snapshots (block (new number hash bloom)) = on_new s status snapshots number
  process s status snapshots (logs u) = on_logs s status snapshots u

  -- The state is taken out first, and put back only where no error returned.
  unfoldable pub finish : Map T → Outcome → Machine S T × Result Error (List C)
  finish snapshots (ok (s, status, snapshots', commands)) =
      (record { inner = some (s, status); snapshots = snapshots' }, ok commands)
  finish snapshots (err e) = (record { inner = none; snapshots = snapshots }, err e)

  unfoldable pub update_inner :
      Option (S × Status) → Map T → Update E → Machine S T × Result Error (List C)
  unfolding process finish
  update_inner none snapshots u = (record { inner = none; snapshots = snapshots }, err poisoned)
  update_inner (some (s, status)) snapshots u = finish snapshots (process s status snapshots u)

  unfoldable pub handle_update : Machine S T → Update E → Machine S T × Result Error (List C)
  unfolding update_inner
  handle_update m u = update_inner m.inner m.snapshots u

  unfoldable pub resume_inner :
      Option (S × Status) → Map T → R → Machine S T × Result Error (List C)
  resume_inner none snapshots r = (record { inner = none; snapshots = snapshots }, err poisoned)
  resume_inner (some (s, status)) snapshots r =
      let (s', commands) = apply_transition s (resume r) in
      (record { inner = some (s', status); snapshots = snapshots }, ok commands)

  unfoldable pub handle_resume : Machine S T → R → Machine S T × Result Error (List C)
  unfolding resume_inner
  handle_resume m r = resume_inner m.inner m.snapshots r

module _ {S T : Type 0} where
  unfoldable pub prune : Machine S T → ℕ → Machine S T × Result Error (Unit {0})
  prune m safe = elim (map_err storage (Snapshots.prune m.snapshots safe)) [
    | ok rows ↦ (record m { snapshots = rows }, ok tt)
    | err e ↦ (m, err e)
  ]
