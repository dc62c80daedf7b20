-- ===== src/Sentinel/Deadlines.antt =====
-- crates/sentinel/src/service.rs, `handle_block_advance`: no request outlives its deadlines.
use shield_net.Prelude.{ℕ, ◌<◌, ◌≡◌, none, some, arith, get, IsSorted}
use shield_net.Sentinel.Types.{
  B256, SentinelRequestState, waiting_for_engine_check, waiting_for_request, collecting_commitments,
  collecting_votes, waiting_for_outcome, waiting_for_dispute_resolution, State,
}
use shield_net.Sentinel.Hashing.{SentinelTransition}
use shield_net.Sentinel.Tally.{engine_cutoff, finalize_votes, advance_entry, handle_block_advance}
use shield_net.Sentinel.Lifecycle.{Entry, expire}
use shield_net.Sentinel.Advance.{handle_block_advance-IsSorted, get-handle_block_advance}

-- The request is gone, or waits for what the oracle decides.
abbrev pub IsSettled : Entry → Type 0
IsSettled none = Unit
IsSettled (some (waiting_for_outcome approve slash_amount)) = Unit
IsSettled (some (waiting_for_dispute_resolution approve slash_amount)) = Unit
IsSettled (some entry) = ⊥

-- A first block and a second one past the deadlines of a request, where it has them.
abbrev pub ArePast : ℕ → ℕ → SentinelRequestState → Type 0
ArePast first second (waiting_for_engine_check deadline request) =
    engine_cutoff deadline request < first
ArePast first second (waiting_for_request approve reason deadline) = deadline < first
ArePast first second
      (collecting_commitments approve reason slash_amount commit_deadline reveal_deadline
        committed_count self_committed) =
    (commit_deadline < first) × (reveal_deadline < second)
ArePast first second
      (collecting_votes approve slash_amount reveal_deadline committed_count revealed_count
        approve_count deny_count self_revealed) =
    reveal_deadline < first
ArePast first second entry = Unit

module _ (t : SentinelTransition) (id : B256) (first second : ℕ) where
  expire-IsSettled :
      (entry : SentinelRequestState)
      → ArePast first second entry
      → IsSettled (expire t id second (expire t id first (some entry)).0).0
  unfolding expire advance_entry finalize_votes
  expire-IsSettled entry p = ground (arith, p)

  -- On a state whose ids ascend, two blocks past its deadlines leave no request that is still being checked,
  -- voted on or counted: it is gone, or it waits for an outcome or a dispute.
  pub handle_block_advance-IsSettled :
      (s : State) (entry : SentinelRequestState)
      → IsSorted s
      → get s id ≡ some entry
      → ArePast first second entry
      → IsSettled (get (handle_block_advance t (handle_block_advance t s first).0 second).0 id)
  handle_block_advance-IsSettled s entry h e p =
      rw
        (
          get-handle_block_advance t second (handle_block_advance t s first).0 id
              (handle_block_advance-IsSorted t first s h),
          get-handle_block_advance t first s id h,
          e,
        )
        (expire-IsSettled entry p)
