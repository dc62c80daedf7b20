-- ===== src/Core/Machine/Restart.antt =====
-- A restart, from the table that a run has left.
use shield_net.Prelude.{
  ℕ, ◌+◌, ◌≤◌, ◌≡◌, some, List, arith, Map, KeysBelow, KeysBelow-mono, KeysBelow, ok, Result-cases,
  inl, inr, last_key_value, last_key_value-insert,
}
use shield_net.Core.Snapshots
use shield_net.Core.Snapshots.{Codec, i64_max, decode_row, current}
use shield_net.Core.Snapshots.Recover.{RoundTrips, commit-ok}
use shield_net.Core.Machine.{
  EventUpdate, logs, Message, Status, block_pending, process, on_logs, update_inner, handle_update,
  with_init, apply_logs,
}
use shield_net.Core.Machine.Change.{next_number, after_logs}

module _ {S T E R C : Type 0} (codec : Codec S T)
    (apply_transition : S → Message E R → S × List C) where
  logs_committed :
      (s s' : S) (status : Status) (rows rows' : Map T) (cs : List C) (u : EventUpdate E)
      (pending : ℕ)
      → on_logs codec apply_transition s status rows u ≡ ok (s', block_pending pending, rows', cs)
      → (Snapshots.commit codec rows u.blocks.last s' ≡ ok rows')
        × (next_number status ≤ u.blocks.last)
        × (pending ≡ u.blocks.last + 1)
  unfolding on_logs
  logs_committed s s' status rows rows' cs u pending h =
      let s₁ = (apply_logs codec apply_transition s u.logs).0 in
      elim (Result-cases (Snapshots.commit codec rows u.blocks.last s₁)) [
        | inl (r, e) ↦
            let bounds = after_logs status (block_pending pending) u.blocks in
            (ground (arith, e), ground (arith, e, bounds), ground (arith, e, bounds))
        | inr (x, e) ↦ absurd (ground (arith, e))
      ]

  restart_lem :
      (rows : Map T) (init s : S) (latest : ℕ) (t : T)
      → latest ≤ i64_max
      → last_key_value rows ≡ some (latest, t)
      → codec.from_str t ≡ some s
      → with_init codec apply_transition rows init
        ≡ ok (record { inner = some (s, block_pending (latest + 1)); snapshots = rows })
  unfolding with_init current decode_row
  restart_lem rows init s latest t l k d = ground (arith, k, d)

  -- A restart loses nothing. Where decoding undoes encoding, the table's rows lie below the block that
  -- comes next, and an update of logs succeeds and leaves the machine waiting for a block, the machine
  -- that `with_init` builds from the new table is the machine that was running.
  pub with_init-handle_update :
      RoundTrips codec
      → (rows rows' : Map T) (init s s' : S) (status : Status) (pending : ℕ) (u : EventUpdate E)
        (cs : List C)
      → KeysBelow (next_number status) rows
      → handle_update codec apply_transition
          (record { inner = some (s, status); snapshots = rows })
          (logs u)
        ≡ (record { inner = some (s', block_pending pending); snapshots = rows' }, ok cs)
      → with_init codec apply_transition rows' init
        ≡ ok (record { inner = some (s', block_pending pending); snapshots = rows' })
  unfolding handle_update update_inner process
  with_init-handle_update trips rows rows' init s s' status pending u cs b h =
      elim (Result-cases (on_logs codec apply_transition s status rows u)) [
        | inl ((s₁, status₁, rows₁, cs₁), e) ↦
            let p : on_logs codec apply_transition s status rows u
                ≡ ok (s', block_pending pending, rows', cs) =
              ground (arith, e) in
            let (c, l, q) = logs_committed s s' status rows rows' cs u pending p in
            let (t, w, put, small) = commit-ok codec rows rows' u.blocks.last s' c in
            let last : last_key_value rows' ≡ some (u.blocks.last, t) = ground (
              arith,
              put,
              last_key_value-insert rows u.blocks.last t
                  (KeysBelow-mono rows (next_number status) u.blocks.last l b),
            ) in
            rw q (restart_lem rows' init s' u.blocks.last t small last (trips s' t w))
        | inr (x, e) ↦ absurd (ground (arith, e))
      ]
