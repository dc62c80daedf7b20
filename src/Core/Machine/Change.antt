-- ===== src/Core/Machine/Change.antt =====
-- What one successful update does to the snapshot table and to the block that comes next.
use shield_net.Prelude.{
  ℕ, ◌+◌, ◌≤◌, ◌<◌, ◌≡◌, true, List, arith, Map, ok, Result-cases, inl, inr, below, insert,
}
use shield_net.Core.Snapshots
use shield_net.Core.Snapshots.{Codec}
use shield_net.Core.Snapshots.Recover.{reorg-ok, commit-ok}
use shield_net.Core.Machine.{
  BlockRange, EventUpdate, Update, block, logs, warp, uncle, new, Message, Status, initialized,
  block_pending, block_events, warp_events, process, on_warp, on_uncle, on_new, on_logs,
  status_after_logs, accepts_logs, apply_logs,
}

-- The first block whose snapshot is still to come.
abbrev pub next_number : Status → ℕ
next_number initialized = 0
next_number (block_pending pending) = pending
next_number (block_events latest) = latest
next_number (warp_events range) = range.start

-- The update does not take block `n - 1` or one below it off the chain.
abbrev pub IsAtLeast : {E : Type 0} → ℕ → Update E → Type 0
IsAtLeast n (block (uncle number)) = n ≤ number
IsAtLeast n _ = Unit

pub data Change {T : Type 0} (m : Map T) (n : ℕ) (m' : Map T) (n' : ℕ) : Type 0 where
  keep : m ≡ m' → n ≤ n' → Change m n m' n'
  cut : below m n' ≡ m' → n' ≤ n → Change m n m' n'
  add : (k : ℕ) (t : T) → n ≤ k → k < n' → insert m k t ≡ m' → Change m n m' n'

pub after_logs :
    (status status' : Status) (blocks : BlockRange)
    → accepts_logs status blocks ≡ true
    → status_after_logs status blocks ≡ ok status'
    → (next_number status ≤ blocks.last) × (next_number status' ≡ blocks.last + 1)
unfolding accepts_logs status_after_logs
after_logs initialized status' blocks h k = ground arith
after_logs _ status' blocks h k = ground arith

module _ {S T E R C : Type 0} (codec : Codec S T)
    (apply_transition : S → Message E R → S × List C) where
  uncle-Change :
      (s s' : S) (status status' : Status) (m m' : Map T) (cs : List C) (number : ℕ)
      → on_uncle codec apply_transition s status m number ≡ ok (s', status', m', cs)
      → Change m (next_number status) m' (next_number status')
  unfolding on_uncle
  uncle-Change s s' status status' m m' cs number h =
      elim (Result-cases (Snapshots.reorg codec m number)) [
        | inl ((rows, parent, s₁), e) ↦
            let (kept, _, _) = reorg-ok codec m rows number parent s₁ e in
            cut (ground (arith, e, kept)) (ground (arith, e))
        | inr (x, e) ↦ absurd (ground (arith, e))
      ]

  logs-Change :
      (s s' : S) (status status' : Status) (m m' : Map T) (cs : List C) (u : EventUpdate E)
      → on_logs codec apply_transition s status m u ≡ ok (s', status', m', cs)
      → Change m (next_number status) m' (next_number status')
  unfolding on_logs
  logs-Change s s' status status' m m' cs u h =
      let s₁ = (apply_logs codec apply_transition s u.logs).0 in
      elim (Result-cases (Snapshots.commit codec m u.blocks.last s₁)) [
        | inl (rows, e) ↦
            let (t, _, put, _) = commit-ok codec m rows u.blocks.last s₁ e in
            let bounds = after_logs status status' u.blocks in
            add u.blocks.last t (ground (arith, e, bounds)) (ground (arith, e, bounds))
              (ground (arith, e, put))
        | inr (x, e) ↦ absurd (ground (arith, e))
      ]

  new-Change :
      (s s' : S) (status status' : Status) (m m' : Map T) (cs : List C) (number : ℕ)
      → on_new codec apply_transition s status m number ≡ ok (s', status', m', cs)
      → Change m (next_number status) m' (next_number status')
  unfolding on_new
  new-Change s s' initialized status' m m' cs number h = keep (ground arith) (ground arith)
  new-Change s s' _ status' m m' cs number h = keep (ground arith) (ground arith)

  warp-Change :
      (s s' : S) (status status' : Status) (m m' : Map T) (cs : List C) (from to : ℕ)
      → on_warp codec apply_transition s status m from to ≡ ok (s', status', m', cs)
      → Change m (next_number status) m' (next_number status')
  unfolding on_warp
  warp-Change s s' initialized status' m m' cs from to h = keep (ground arith) (ground arith)
  warp-Change s s' _ status' m m' cs from to h = keep (ground arith) (ground arith)

  pub process-Change :
      (s s' : S) (status status' : Status) (m m' : Map T) (cs : List C) (u : Update E)
      → process codec apply_transition s status m u ≡ ok (s', status', m', cs)
      → Change m (next_number status) m' (next_number status')
  unfolding process
  process-Change s s' status status' m m' cs (block (warp from to)) h =
      warp-Change s s' status status' m m' cs from to h
  process-Change s s' status status' m m' cs (block (uncle number)) h =
      uncle-Change s s' status status' m m' cs number h
  process-Change s s' status status' m m' cs (block (new number hash bloom)) h =
      new-Change s s' status status' m m' cs number h
  process-Change s s' status status' m m' cs (logs u) h =
      logs-Change s s' status status' m m' cs u h

  -- Only an uncle moves the next block down, and only to its own number.
  pub next_number_floor :
      (s s' : S) (status status' : Status) (m m' : Map T) (cs : List C) (u : Update E) (n : ℕ)
      → IsAtLeast n u
      → n ≤ next_number status
      → process codec apply_transition s status m u ≡ ok (s', status', m', cs)
      → n ≤ next_number status'
  unfolding process on_warp on_new on_uncle
  next_number_floor s s' initialized status' m m' cs (block (warp from to)) n w l h = ground arith
  next_number_floor s s' _ status' m m' cs (block (warp from to)) n w l h = ground arith
  next_number_floor s s' status status' m m' cs (block (uncle number)) n w l h =
      elim (Result-cases (Snapshots.reorg codec m number)) [
        | inl (r, e) ↦ ground (arith, e)
        | inr (x, e) ↦ absurd (ground (arith, e))
      ]
  next_number_floor s s' initialized status' m m' cs (block (new number hash bloom)) n w l h =
      ground arith
  next_number_floor s s' _ status' m m' cs (block (new number hash bloom)) n w l h = ground arith
  next_number_floor s s' status status' m m' cs (logs u) n w l h =
      let s₁ = (apply_logs codec apply_transition s u.logs).0 in
      elim (Result-cases (Snapshots.commit codec m u.blocks.last s₁)) [
        | inl (rows, e) ↦ unfold on_logs in ground (arith, e, after_logs status status' u.blocks)
        | inr (x, e) ↦ absurd (unfold on_logs in ground (arith, e))
      ]
