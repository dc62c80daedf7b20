-- ===== src/Core/Snapshots/Recover.antt =====
-- What a restart and a reorg read back from the snapshot table.
use shield_net.Prelude.{
  Option-cases, inl, inr, ℕ, ◌+◌, ◌≤◌, ◌<◌, ◌≡◌, none, some, arith, Map, get, insert, below,
  last_key_value, get-insert, get-below, KeysBelow, KeysBelow-mono, insert-KeysBelow, below_self,
  last_key_value-insert, ok,
}
use shield_net.Core.Snapshots.{delete_below, Codec, i64_max, to_i64, current, commit, reorg, prune}
use shield_net.Core.Snapshots.Rows.{last-delete_below, get-delete_below, get-delete_below_old}

-- What is decoded was what was encoded: documented behaviour of `serde_json`.
abbrev pub RoundTrips : {S T : Type 0} → Codec S T → Type 0
RoundTrips {S = S} {T = T} codec =
    (s : S) (t : T) → codec.to_string s ≡ some t → codec.from_str t ≡ some s

prune-ok : {T : Type 0} (m m' : Map T) (safe : ℕ) → prune m safe ≡ ok m' → delete_below m safe ≡ m'
unfolding prune to_i64
prune-ok m m' safe h = ground arith

module _ {S T : Type 0} (codec : Codec S T) where
  -- A successful pruning of a table that is not empty keeps the resume point and every row at `safe` or
  -- above, and removes each row that is both below `safe` and below the last row.
  pub prune-current :
      (m m' : Map T) (safe latest : ℕ) (v : T)
      → last_key_value m ≡ some (latest, v)
      → prune m safe ≡ ok m'
      → (current codec m' ≡ current codec m)
        × ((k : ℕ) → safe ≤ k → get m' k ≡ get m k)
        × ((k : ℕ) → k < safe → k < latest → get m' k ≡ none)
  unfolding current
  prune-current m m' safe latest v e h =
      let p = prune-ok m m' safe h in
      (
        rw (← p) (rw last-delete_below),
        λ k l. rw (← p) (get-delete_below m safe k l),
        λ k l b. rw (← p) (get-delete_below_old m safe k latest v e l b),
      )

  pub commit-ok :
      (m m' : Map T) (n : ℕ) (s : S)
      → commit codec m n s ≡ ok m'
      → (t : T) × (codec.to_string s ≡ some t) × (insert m n t ≡ m') × (n ≤ i64_max)
  unfolding commit
  commit-ok m m' n s h = elim (Option-cases (codec.to_string s)) [
    | inl e ↦ absurd (ground (arith, e))
    | inr (t, e) ↦ (t, e, ground (arith, e), ground (arith, e))
  ]

  -- What a successful rollback returns.
  pub reorg-ok :
      (m m' : Map T) (uncle parent : ℕ) (s : S)
      → reorg codec m uncle ≡ ok (m', parent, s)
      → (below m uncle ≡ m')
        × (parent + 1 ≡ uncle)
        × ((t : T) × (get m parent ≡ some t) × (codec.from_str t ≡ some s))
  unfolding reorg
  reorg-ok m m' uncle parent s h = (
    ground arith,
    ground arith,
    elim (Option-cases (get m parent)) [
      | inl e ↦ absurd (ground (arith, e, get-below m uncle parent))
      | inr (t, e) ↦ (t, e, ground (arith, e, get-below m uncle parent))
    ],
  )

  -- A rollback succeeds wherever the parent's row is there and decodes.
  pub reorg-found :
      (m : Map T) (parent : ℕ) (s : S) (t : T)
      → parent < i64_max
      → get m parent ≡ some t
      → codec.from_str t ≡ some s
      → reorg codec m (parent + 1) ≡ ok (below m (parent + 1), parent, s)
  unfolding reorg
  reorg-found m parent s t l g d = ground (arith, get-below m (parent + 1) parent)

  -- Where decoding undoes encoding, and every row lies below block `n`, itself below the largest i64:
  -- after a successful commit at `n`, a rollback of block `n + 1` gives back the table, `n` and the
  -- committed state, and a restart resumes from that state at `n`.
  pub reorg-commit :
      RoundTrips codec
      → (m m' : Map T) (n : ℕ) (s : S) → n < i64_max
      → KeysBelow n m
      → commit codec m n s ≡ ok m'
      → (reorg codec m' (n + 1) ≡ ok (m', n, s)) × (current codec m' ≡ ok (some (n, s)))
  unfolding current
  reorg-commit trips m m' n s l b h =
      let (t, e, p, _) = commit-ok m m' n s h in
      let kept : below m' (n + 1) ≡ m' = rw (← p) (
        below_self (insert m n t) (n + 1) (
          insert-KeysBelow m (n + 1) n t (omega arith)
            (KeysBelow-mono m n (n + 1) (omega arith) b))) in
      let found : get m' n ≡ some t = rw (← p) (ground (arith, get-insert m n n t)) in
      let last : last_key_value m' ≡ some (n, t) = rw (← p) (last_key_value-insert m n t b) in
      (
        ground (arith, reorg-found m' n s t l found (trips s t e)),
        rw last (ground (arith, trips s t e)),
      )
