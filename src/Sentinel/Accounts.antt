-- ===== src/Sentinel/Accounts.antt =====
-- crates/sentinel/src/service.rs: how often a run acts on one request.
use shield_net.Prelude.{
  ℕ, ◌+◌, ◌≤◌, ◌≡◌, refl, sym, ap, ◌∙◌, Bool, true, false, none, some, List, [], ◌∷◌, ◌++◌, arith,
  if◌then◌else◌,
}
use shield_net.Sentinel.Types.{
  B256, waiting_for_engine_check, waiting_for_request, collecting_commitments, collecting_votes,
  SentinelActionKind, commit, reveal, finalize, claim, Command, action, effect,
}
use shield_net.Sentinel.Hashing.{SentinelTransition}
use shield_net.Sentinel.Voting.{vote_of}
use shield_net.Sentinel.Tally.{tally_reveal, finalize_votes, advance_entry}
use shield_net.Sentinel.Lifecycle.{
  Entry, Step, Input, react, answer, expire, step, concerning, is_about, command_id,
}
use shield_net.Sentinel.Runs.{History, run, life, run-life}

-- The kinds of commands on a request.
pub data Deed : Type 0 where
  checking committing revealing finalizing claiming : Deed

abbrev kind_is : Deed → SentinelActionKind → Bool
kind_is committing (commit id hash) = true
kind_is revealing (reveal id approve salt reason) = true
kind_is finalizing (finalize id) = true
kind_is claiming (claim id) = true
kind_is d kind = false

abbrev command_is : Deed → Command → Bool
command_is checking (effect e) = true
command_is d (effect e) = false
command_is d (action a) = kind_is d a.kind

-- How many commands about a request are of a kind.
unfoldable pub count : Deed → B256 → List Command → ℕ
count d id [] = 0
count d id (c ∷ cs) =
    (if is_about (command_id c) id then (if command_is d c then 1 else 0) else 0) + count d id cs

count-append :
    (d : Deed) (id : B256) (a b : List Command) → count d id (a ++ b) ≡ count d id a + count d id b
unfolding count
count-append d id [] b = ground arith
count-append d id (c ∷ a) b = ground (arith, count-append d id a b)

abbrev awaits_vote : Entry → ℕ
awaits_vote (some (waiting_for_engine_check deadline request)) = 1
awaits_vote (some (waiting_for_request approve reason deadline)) = 1
awaits_vote entry = 0

abbrev awaits_reveal : Entry → ℕ
awaits_reveal
      (some (
        collecting_commitments approve reason slash_amount commit_deadline reveal_deadline
          committed_count self_committed)) =
    1
awaits_reveal entry = 0

abbrev awaits_finalize : Entry → ℕ
awaits_finalize
      (some (
        collecting_votes approve slash_amount reveal_deadline committed_count revealed_count
          approve_count deny_count self_revealed)) =
    1
awaits_finalize entry = 0

abbrev is_tracked : Entry → ℕ
is_tracked none = 0
is_tracked (some entry) = 1

-- Each stage is reached through the one before it, and what the entry still waits for has not been done.
pub record Balanced (id : B256) (entry : Entry) (cs : List Command) : Type 0 where
  pub votes : count committing id cs + awaits_vote entry ≤ count checking id cs
  pub openings : count revealing id cs + awaits_reveal entry ≤ count committing id cs
  pub endings : count finalizing id cs + awaits_finalize entry ≤ count revealing id cs
  pub payouts : count claiming id cs + is_tracked entry ≤ count checking id cs

module _ (id : B256) where
  -- What a message adds to each count.
  record Adds (entry : Entry) (r : Step) : Type 0 where
    votes : count committing id r.1 + awaits_vote r.0 ≤ awaits_vote entry + count checking id r.1
    openings :
        count revealing id r.1 + awaits_reveal r.0 ≤ awaits_reveal entry + count committing id r.1
    endings :
        count finalizing id r.1 + awaits_finalize r.0
        ≤ awaits_finalize entry + count revealing id r.1
    payouts : count claiming id r.1 + is_tracked r.0 ≤ is_tracked entry + count checking id r.1

  step-Adds : (t : SentinelTransition) (m : Input) (entry : Entry) → Adds entry (step t id m entry)
  unfolding step react answer expire tally_reveal finalize_votes advance_entry count vote_of
  step-Adds t m entry = record {
    votes = ground arith;
    openings = ground arith;
    endings = ground arith;
    payouts = ground arith;
  }

module _ (id : B256) (cs : List Command) where
  appended : (r : List Command) (d : Deed) → count d id (cs ++ r) ≡ count d id cs + count d id r
  appended r d = count-append d id cs r

  Adds-Balanced :
      (entry : Entry) (r : Step)
      → Balanced id entry cs
      → Adds id entry r
      → Balanced id r.0 (cs ++ r.1)
  Adds-Balanced entry r b a = record {
    votes = omega (arith, appended r.1 committing, appended r.1 checking, b.votes, a.votes);
    openings =
        omega (arith, appended r.1 revealing, appended r.1 committing, b.openings, a.openings);
    endings = omega (arith, appended r.1 finalizing, appended r.1 revealing, b.endings, a.endings);
    payouts = omega (arith, appended r.1 claiming, appended r.1 checking, b.payouts, a.payouts);
  }

module _ (t : SentinelTransition) (id : B256) where
  life-Balanced : (h : History) → Balanced id (life t id h).0 (life t id h).1
  unfolding life count
  life-Balanced [] = record {
    votes = omega arith;
    openings = omega arith;
    endings = omega arith;
    payouts = omega arith;
  }
  life-Balanced (m ∷ h) =
      Adds-Balanced id (life t id h).1 (life t id h).0 (step t id m (life t id h).0)
        (life-Balanced h) (step-Adds id t m (life t id h).0)

count-concerning :
    (d : Deed) (id : B256) (cs : List Command) → count d id (concerning id cs) ≡ count d id cs
unfolding count concerning
count-concerning d id [] = refl
count-concerning d id (c ∷ cs) = ground (arith, count-concerning d id cs)

module _ (t : SentinelTransition) (id : B256) (h : History) where
  count-run : (d : Deed) → count d id (run t h).1 ≡ count d id (life t id h).1
  count-run d =
      sym (count-concerning d id (run t h).1)
      ∙ (ap (count d id) (run-life t id h).commands ∙ count-concerning d id (life t id h).1)

  -- In any run, a request is finalized at most as often as it is revealed, revealed at most as often as it is
  -- committed to, and committed to, and claimed, at most as often as it was handed to the engine.
  pub run_accounts :
      (count finalizing id (run t h).1 ≤ count revealing id (run t h).1)
      × (count revealing id (run t h).1 ≤ count committing id (run t h).1)
      × (count committing id (run t h).1 ≤ count checking id (run t h).1)
      × (count claiming id (run t h).1 ≤ count checking id (run t h).1)
  run_accounts =
      let b = life-Balanced t id h in
      (
        omega (arith, count-run finalizing, count-run revealing, b.endings),
        omega (arith, count-run revealing, count-run committing, b.openings),
        omega (arith, count-run committing, count-run checking, b.votes),
        omega (arith, count-run claiming, count-run checking, b.payouts),
      )
