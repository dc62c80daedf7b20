-- ===== src/Sentinel/Tallies.antt =====
-- crates/sentinel/src/service.rs: the counters of a request, `u64`s that wrap around.
use shield_net.Prelude.{
  ℕ, suc, ◌+◌, ◌^◌, ◌≤◌, ◌<◌, ◌≡◌, sym, ◌∙◌, subst, true, none, some, [], ◌∷◌, arith, get, length,
}
use shield_net.Sentinel.Types.{
  B256, SentinelRequestState, collecting_commitments, collecting_votes, approve_and_slash_amount,
}
use shield_net.Sentinel.Events.{SentinelEvents}
use shield_net.Sentinel.Hashing.{SentinelTransition}
use shield_net.Sentinel.Tally.{tally_reveal, finalize_votes, advance_entry}
use shield_net.Sentinel.Voting.{vote_of}
use shield_net.Sentinel.Lifecycle.{Entry, Input, react, answer, expire, step, step_cases}
use shield_net.Sentinel.Runs.{History, run, life, run-life}

-- The counters agree, and none is above `n`.
abbrev pub IsTallied : ℕ → SentinelRequestState → Type 0
IsTallied n
      (collecting_commitments approve reason slash_amount commit_deadline reveal_deadline
        committed_count self_committed) =
    (committed_count ≤ n) × (self_committed ≡ true → 0 < committed_count)
IsTallied n
      (collecting_votes approve slash_amount reveal_deadline committed_count revealed_count
        approve_count deny_count self_revealed) =
    (approve_count + deny_count ≡ revealed_count)
    × (revealed_count < committed_count)
    × (committed_count ≤ n)
IsTallied n entry = Unit

abbrev AllTallied : ℕ → Entry → Type 0
AllTallied n none = Unit
AllTallied n (some entry) = IsTallied n entry

module _ (t : SentinelTransition) (id : B256) where
  AllTallied-suc : (n : ℕ) (entry : Entry) → AllTallied n entry → AllTallied (suc n) entry
  AllTallied-suc n entry v = ground (arith, v)

  react-AllTallied :
      (n block : ℕ) (e : SentinelEvents) (entry : Entry)
      → suc n < 2 ^ 64
      → AllTallied n entry
      → AllTallied (suc n) (react t id block e entry).0
  unfolding react tally_reveal finalize_votes approve_and_slash_amount
  react-AllTallied n block e entry b v = ground (arith, b, v)

  step-AllTallied :
      (n : ℕ) (m : Input) (entry : Entry)
      → suc n < 2 ^ 64
      → AllTallied n entry
      → AllTallied (suc n) (step t id m entry).0
  unfolding expire advance_entry answer vote_of finalize_votes
  step-AllTallied n m entry b v =
      step_cases (λ r. AllTallied (suc n) r.0) t id m entry (AllTallied-suc n entry v)
        (λ block. ground (arith, b, v)) (λ block e. react-AllTallied n block e entry b v)
        (λ outcome. ground (arith, b, v))

  life-AllTallied : (h : History) → length h < 2 ^ 64 → AllTallied (length h) (life t id h).0
  unfolding life
  life-AllTallied [] b = tt
  life-AllTallied (m ∷ h) b =
      step-AllTallied (length h) m (life t id h).0 b (life-AllTallied h (omega (arith, b)))

  -- In a run of fewer than 2^64 messages, no count of commitments passes the number of messages, a request with
  -- the sentinel's own commitment counts at least one, and while votes are collected the reveals are the
  -- approvals and the denials together and fewer than the commitments.
  pub run-IsTallied :
      (h : History) (entry : SentinelRequestState)
      → length h < 2 ^ 64
      → get (run t h).0 id ≡ some entry
      → IsTallied (length h) entry
  run-IsTallied h entry b e =
      subst (AllTallied (length h)) (sym (run-life t id h).entry ∙ e) (life-AllTallied h b)
