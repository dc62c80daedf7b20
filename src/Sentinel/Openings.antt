-- ===== src/Sentinel/Openings.antt =====
-- crates/sentinel/src/service.rs: a vote is revealed as it was committed.
use shield_net.Prelude.{
  ℕ, ◌≡◌, refl, sym, ap, ◌∙◌, subst, true, Option, none, some, List, [], ◌∷◌, ◌++◌, arith, ◌==◌,
  if◌then◌else◌,
}
use mathlib.Core.List.{append-nil}
use shield_net.Sentinel.Types.{
  B256, collecting_commitments, CheckOutcome, SentinelActionKind, commit, reveal, Command, action,
  effect, engine_check,
}
use shield_net.Sentinel.Events.{SentinelEvents}
use shield_net.Sentinel.Hashing.{SentinelTransition, reveal_salt, commit_hash}
use shield_net.Sentinel.Voting.{vote_of}
use shield_net.Sentinel.Tally.{tally_reveal, finalize_votes, advance_entry}
use shield_net.Sentinel.Dispatch.{apply_transition}
use shield_net.Sentinel.Lifecycle.{
  Entry, Input, react, answer, expire, step, step_cases, concerning,
}
use shield_net.Sentinel.Independence.{apply_transition-Follows}
use shield_net.Sentinel.Runs.{History, run, life, run-IsSorted, run-life}

abbrev pub kind_commit : B256 → SentinelActionKind → Option B256
kind_commit id (commit k hash) = if k == id then some hash else none
kind_commit id kind = none

abbrev pub commit_of : B256 → Command → Option B256
commit_of id (action a) = kind_commit id a.kind
commit_of id (effect e) = none

-- The hash of the last commitment on a request.
unfoldable pub last_commit : B256 → List Command → Option B256
last_commit id [] = none
last_commit id (c ∷ cs) = elim (last_commit id cs) [ some hash ↦ some hash | none ↦ commit_of id c ]

-- Each reveal of a request opens the commitment.
abbrev pub OpensKind : SentinelTransition → B256 → Option B256 → SentinelActionKind → Type 0
OpensKind t id committed (reveal k approve salt reason) =
    (k == id) ≡ true → committed ≡ some (commit_hash t.keccak256 t.account id approve salt reason)
OpensKind t id committed kind = Unit

unfoldable pub Opens : SentinelTransition → B256 → Option B256 → List Command → Type 0
Opens t id committed [] = Unit
Opens t id committed (effect e ∷ cs) = Opens t id committed cs
Opens t id committed (action a ∷ cs) = OpensKind t id committed a.kind × Opens t id committed cs

-- What is being committed to is the last commitment.
abbrev pub Pledged : SentinelTransition → B256 → Entry → List Command → Type 0
Pledged t id
      (some (
        collecting_commitments approve reason slash_amount commit_deadline reveal_deadline
          committed_count self_committed))
      cs =
    last_commit id cs
    ≡ some (commit_hash t.keccak256 t.account id approve (reveal_salt t id) reason)
Pledged t id entry cs = Unit

last_commit-append :
    (id : B256) (a b : List Command)
    → last_commit id (a ++ b)
      ≡ (elim (last_commit id b) [ some hash ↦ some hash | none ↦ last_commit id a ])
unfolding last_commit
last_commit-append id [] b = ground arith
last_commit-append id (c ∷ a) b = ground (arith, last_commit-append id a b)

module _ (t : SentinelTransition) (id : B256) (cs : List Command) where
  react-Pledged :
      (block : ℕ) (e : SentinelEvents) (entry : Entry)
      → Pledged t id entry cs
      → Pledged t id (react t id block e entry).0 (cs ++ (react t id block e entry).1)
  unfolding react last_commit tally_reveal finalize_votes
  react-Pledged block e entry p =
      ground (arith, p, last_commit-append id cs (react t id block e entry).1)

  expire-Pledged :
      (block : ℕ) (entry : Entry)
      → Pledged t id entry cs
      → Pledged t id (expire t id block entry).0 (cs ++ (expire t id block entry).1)
  unfolding expire last_commit advance_entry finalize_votes
  expire-Pledged block entry p =
      ground (arith, p, last_commit-append id cs (expire t id block entry).1)

  answer-Pledged :
      (outcome : CheckOutcome) (entry : Entry)
      → Pledged t id entry cs
      → Pledged t id (answer t id outcome entry).0 (cs ++ (answer t id outcome entry).1)
  unfolding answer last_commit vote_of
  answer-Pledged outcome entry p =
      ground (arith, p, last_commit-append id cs (answer t id outcome entry).1)

  step-Pledged :
      (m : Input) (entry : Entry)
      → Pledged t id entry cs
      → Pledged t id (step t id m entry).0 (cs ++ (step t id m entry).1)
  step-Pledged m entry p =
      step_cases (λ r. Pledged t id r.0 (cs ++ r.1)) t id m entry (rw append-nil p)
        (λ block. expire-Pledged block entry p) (λ block e. react-Pledged block e entry p)
        (λ outcome. answer-Pledged outcome entry p)

  -- What a message has the sentinel reveal opens what it is committed to.
  step-Opens :
      (m : Input) (entry : Entry)
      → Pledged t id entry cs
      → Opens t id (last_commit id cs) (step t id m entry).1
  unfolding step Opens react answer expire tally_reveal finalize_votes advance_entry
  step-Opens m entry p = ground (arith, p)

module _ (t : SentinelTransition) (id : B256) where
  life-Pledged : (h : History) → Pledged t id (life t id h).0 (life t id h).1
  unfolding life
  life-Pledged [] = tt
  life-Pledged (m ∷ h) = step-Pledged t id (life t id h).1 m (life t id h).0 (life-Pledged h)

  last_commit-concerning :
      (cs : List Command) → last_commit id (concerning id cs) ≡ last_commit id cs
  unfolding last_commit concerning
  last_commit-concerning [] = refl
  last_commit-concerning (effect (engine_check k transaction block) ∷ cs) =
      ground (arith, last_commit-concerning cs)
  last_commit-concerning (action a ∷ cs) = ground (arith, last_commit-concerning cs)

  concerning-Opens :
      (committed : Option B256) (cs : List Command)
      → Opens t id committed (concerning id cs)
      → Opens t id committed cs
  unfolding Opens concerning
  concerning-Opens committed [] o = tt
  concerning-Opens committed (effect (engine_check k transaction block) ∷ cs) o =
      ground (arith, concerning-Opens committed cs, o)
  concerning-Opens committed (action a ∷ cs) o = ground (arith, concerning-Opens committed cs, o)

  Opens-concerning :
      (committed : Option B256) (cs : List Command)
      → Opens t id committed cs
      → Opens t id committed (concerning id cs)
  unfolding Opens concerning
  Opens-concerning committed [] o = tt
  Opens-concerning committed (effect (engine_check k transaction block) ∷ cs) o =
      ground (arith, Opens-concerning committed cs, o)
  Opens-concerning committed (action a ∷ cs) o = ground (arith, Opens-concerning committed cs, o)

  -- Whatever messages came before, each reveal that the next message has the sentinel send for a request opens
  -- the last commitment that it had sent for it: its vote, its salt and its reason hash, with the sentinel's
  -- address and the request id, to what was committed.
  pub reveal-Opens :
      (h : History) (m : Input)
      → Opens t id (last_commit id (run t h).1) (apply_transition t (run t h).0 m).1
  reveal-Opens h m =
      let before = run-life t id h in
      let after = apply_transition-Follows t id (run t h).0 m (run-IsSorted t h) in
      let hash = last_commit id (life t id h).1 in
      let same : hash ≡ last_commit id (run t h).1 =
        sym (last_commit-concerning (life t id h).1)
        ∙ (ap (last_commit id) (sym before.commands) ∙ last_commit-concerning (run t h).1) in
      let opens : Opens t id hash (concerning id (step t id m (life t id h).0).1) =
        Opens-concerning hash (step t id m (life t id h).0).1
          (step-Opens t id (life t id h).1 m (life t id h).0 (life-Pledged h)) in
      subst (λ (x : Option B256). Opens t id x (apply_transition t (run t h).0 m).1) same
        (concerning-Opens hash (apply_transition t (run t h).0 m).1 (
          subst (Opens t id hash)
            (ap (λ (x : Entry). concerning id (step t id m x).1) (sym before.entry)
              ∙ sym after.commands)
            opens))
