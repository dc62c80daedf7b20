-- ===== src/Core/Machine/Chain.antt =====
-- crates/core/src/state/mod.rs: what the state machine promises, without statuses, snapshots and errors. A chain
-- is the messages of the blocks that are on it, each under the block that was being worked on.
pub mod Steps
pub mod Refinement
pub mod Live
use shield_net.Prelude.{
  ℕ, ◌+◌, ◌≤◌, ◌<◌, ◌≡◌, refl, sym, ap, ◌∙◌, subst, Option, none, some, Option-cases, List, [], ◌∷◌,
  arith, Bool-cases, ◌==◌, ltb, ==→eq, some_inj, insert, ◌⊎◌, ◌≢◌, Map, get, get-insert, below,
  get-below, below-below, below_self, KeysBelow, KeysBelow-mono, below-KeysBelow, ok, err,
  Result-cases, inl, inr,
}
use shield_net.Core.Snapshots
use shield_net.Core.Snapshots.{Codec}
use shield_net.Core.Snapshots.Recover.{RoundTrips, commit-ok, reorg-ok}
use shield_net.Core.Machine.{
  EventLog, EventUpdate, Update, block, logs, warp, uncle, new, Message, new_block, event, resume,
  Status, initialized, block_pending, Machine, process, on_warp, on_uncle, on_new, on_logs,
  apply_logs, update_inner, resume_inner, handle_update, handle_resume,
}
use shield_net.Core.Machine.Change.{next_number, after_logs}
use shield_net.Core.Machine.Invariant.{Input, update, resumed, feed, follow}

-- The newest message first.
pub record Chain (E R : Type 0) : Type 0 where
  pub next : ℕ
  pub history : Map (Message E R)

module _ {E R : Type 0} where
  unfoldable pub hear : ℕ → List (EventLog E) → Map (Message E R) → Map (Message E R)
  hear n [] h = h
  hear n (log ∷ rest) h = hear n rest ((n, event log) ∷ h)

  unfoldable pub extend : Chain E R → Input E R → Chain E R
  unfolding hear
  extend c (update (block (warp from to))) = record c { next = from }
  extend c (update (block (uncle n))) = record { next = n; history = below c.history n }
  extend c (update (block (new n hash bloom))) = record {
    next = n;
    history = (n, new_block n) ∷ c.history;
  }
  extend c (update (logs u)) = record {
    next = u.blocks.last + 1;
    history = hear c.next u.logs c.history;
  }
  extend c (resumed r) = record c { history = (c.next, resume r) ∷ c.history }

  unfoldable pub extend_all : Chain E R → List (Input E R) → Chain E R
  unfolding extend
  extend_all c [] = c
  extend_all c (i ∷ rest) = extend_all (extend c i) rest

module _ {S E R C : Type 0} (apply_transition : S → Message E R → S × List C) (start : S) where
  -- The state after the messages, from `start`.
  unfoldable pub replay : Map (Message E R) → S
  replay [] = start
  replay ((n, m) ∷ h) = (apply_transition (replay h) m).0

module _ {S T E R C : Type 0} (codec : Codec S T) (apply_transition : S → Message E R → S × List C)
    (start : S) where
  -- The live state is the replay of the chain; the row of block `k` decodes to the replay of its messages up to `k`.
  pub record Implements (s : S) (status : Status) (rows : Map T) (c : Chain E R) : Type 0 where
    pub live : s ≡ replay apply_transition start c.history
    pub at : next_number status ≡ c.next
    pub tags : KeysBelow (c.next + 1) c.history
    pub rows_below : (k : ℕ) (t : T) → get rows k ≡ some t → k < c.next
    pub rows_replay :
        (k : ℕ) (t : T)
        → get rows k ≡ some t
        → codec.from_str t ≡ some (replay apply_transition start (below c.history (k + 1)))

  -- Where the machine is live, its state, status and table are those of the chain.
  abbrev pub Follows : Option (S × Status) → Map T → Chain E R → Type 0
  Follows none rows c = Unit
  Follows (some (s, status)) rows c = Implements s status rows c

  abbrev pub Refines : Machine S T → Chain E R → Type 0
  Refines m c = Follows m.inner m.snapshots c
