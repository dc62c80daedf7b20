-- ===== src/Core/Blocks/Logged.antt =====
-- crates/core/src/index/blocks.rs against crates/core/src/state/mod.rs: one update of the watcher, with the logs of its
-- blocks, at the state machine.
use shield_net.Prelude.{
  ℕ, ◌+◌, ◌≤◌, ◌<◌, ◌≡◌, ap, some, List, [], ◌∷◌, arith, leb, ◌==◌, ok, true, false, ==-refl, inl,
  inr, Map, get, get-insert, get-below, below, insert, Bool-cases,
}
use shield_net.Core.Snapshots
use shield_net.Core.Snapshots.{BlockStatus, Codec, i64_max}
use shield_net.Core.Snapshots.Recover.{RoundTrips, reorg-found}
use shield_net.Core.Machine.{
  BlockUpdate, warp, uncle, new, BlockRange, EventLog, Update, block, logs, Message, Status,
  block_pending, block_events, warp_events, Machine, accepts_logs, status_after_logs, accepts_next,
  block_range, new_block, is_sorted, all_in_range, apply_logs, process, handle_update, update_inner,
  on_logs, on_new, Outcome, on_warp, finish,
}
use shield_net.Core.Machine.Invariant.{Input, update, feed}

-- Each update, with the logs of its blocks after it; the event watcher's logs of a range are `events`.
unfoldable pub inputs :
    {E R : Type 0} → (BlockRange → List (EventLog E)) → List BlockUpdate → List (Input E R)
inputs events [] = []
inputs events (warp from to ∷ rest) =
    let r : BlockRange = record { start = from; last = to } in
    update (block (warp from to))
    ∷ update (logs (record { blocks = r; logs = events r }))
    ∷ inputs events rest
inputs events (uncle number ∷ rest) = update (block (uncle number)) ∷ inputs events rest
inputs events (new number hash logs_bloom ∷ rest) =
    let r : BlockRange = record { start = number; last = number } in
    update (block (new number hash logs_bloom))
    ∷ update (logs (record { blocks = r; logs = events r }))
    ∷ inputs events rest

-- The logs of a range are in order and of its blocks.
pub record IsOrdered {E : Type 0} (events : BlockRange → List (EventLog E)) : Type 0 where
  pub sorted : (r : BlockRange) → is_sorted (events r) ≡ true
  pub inside : (r : BlockRange) → all_in_range r (events r) ≡ true

-- Each state can be encoded, and decodes to itself.
pub record IsTotal {S T : Type 0} (codec : Codec S T) : Type 0 where
  pub encodes : (s : S) → (t : T) × (codec.to_string s ≡ some t)
  pub trips : RoundTrips codec

abbrev pub alive : {S T : Type 0} → S → ℕ → Map T → Machine S T
alive s n rows = record { inner = some (s, block_pending n); snapshots = rows }

module _ {S T : Type 0} (codec : Codec S T) where
  -- The table has a row at `k`, which decodes.
  abbrev pub Readable : Map T → ℕ → Type 0
  Readable rows k = (t : T) × (s : S) × (get rows k ≡ some t) × (codec.from_str t ≡ some s)

  abbrev pub Covers : (lo n : ℕ) → Map T → Type 0
  Covers lo n rows = (k : ℕ) → lo ≤ k → k < n → Readable rows k

  pub insert-Readable :
      (rows : Map T) (j k : ℕ) (t : T) (s : S)
      → codec.from_str t ≡ some s
      → ((j == k) ≡ false → Readable rows k)
      → Readable (insert rows j t) k
  insert-Readable rows j k t s d old = elim (Bool-cases (j == k)) [
    | inl q ↦ (t, s, ground (arith, q, get-insert rows j k t), d)
    | inr q ↦
        let (t', s', g, d') = old q in (t', s', ground (arith, q, g, get-insert rows j k t), d')
  ]

  pub below-Readable :
      (rows : Map T) (n k : ℕ) → k < n → Readable rows k → Readable (below rows n) k
  below-Readable rows n k h (t, s, g, d) = (t, s, ground (arith, h, g, get-below rows n k), d)

module _ {S T E R C : Type 0} (codec : Codec S T)
    (apply_transition : S → Message E R → S × List C) where
  pub handle_update-uncle :
      (s s' : S) (n k : ℕ) (rows : Map T) (t : T)
      → k + 1 < n
      → k < i64_max
      → get rows k ≡ some t
      → codec.from_str t ≡ some s'
      → feed codec apply_transition (alive s n rows) (update (block (uncle (k + 1))))
        ≡ alive s' (k + 1) (below rows (k + 1))
  unfolding feed handle_update update_inner process
  handle_update-uncle s s' n k rows t h b g d =
      ground (arith, h, reorg-found codec rows k s' t b g d)

  feed-ok :
      (s s' : S) (status status' : Status) (rows rows' : Map T) (u : Update E) (commands : List C)
      → process codec apply_transition s status rows u ≡ ok (s', status', rows', commands)
      → feed codec apply_transition
          (record { inner = some (s, status); snapshots = rows })
          (update u)
        ≡ record { inner = some (s', status'); snapshots = rows' }
  unfolding feed handle_update update_inner finish
  feed-ok s s' status status' rows rows' u commands e =
      ap (λ (o : Outcome codec apply_transition). (finish codec apply_transition rows o).0) e

  pub on_new-alive :
      (s : S) (n hash bloom : ℕ) (rows : Map T)
      → feed codec apply_transition (alive s n rows) (update (block (new n hash bloom))) ≡ record {
        inner = some ((apply_transition s (new_block n)).0, block_events n);
        snapshots = rows;
      }
  unfolding process on_new accepts_next
  on_new-alive s n hash bloom rows =
      let r = apply_transition s (new_block n) in
      feed-ok s r.0 (block_pending n) (block_events n) rows rows (block (new n hash bloom)) r.1
        (ground (arith, ==-refl n))

  pub on_warp-alive :
      (s : S) (n to : ℕ) (rows : Map T)
      → n ≤ to
      → feed codec apply_transition (alive s n rows) (update (block (warp n to))) ≡ record {
        inner = some (s, warp_events (record { start = n; last = to }));
        snapshots = rows;
      }
  unfolding process on_warp accepts_next block_range
  on_warp-alive s n to rows h =
      let q : leb n to ≡ true = ground (arith, h) in
      feed-ok s s (block_pending n) (warp_events (record { start = n; last = to })) rows rows
        (block (warp n to)) [] (ground (arith, ==-refl n, q))

module _ {S T E R C : Type 0} (codec : Codec S T) (apply_transition : S → Message E R → S × List C)
    (events : BlockRange → List (EventLog E)) (total : IsTotal codec)
    (ordered : IsOrdered events) where
  process-logs :
      (s : S) (status : Status) (r : BlockRange) (rows : Map T) (t : T)
      → accepts_logs status r ≡ true
      → status_after_logs status r ≡ ok (block_pending (r.last + 1))
      → Snapshots.commit codec rows r.last (apply_logs codec apply_transition s (events r)).0
        ≡ ok (insert rows r.last t)
      → process codec apply_transition s status rows (logs (record { blocks = r; logs = events r }))
        ≡ ok (
          (apply_logs codec apply_transition s (events r)).0,
          block_pending (r.last + 1),
          insert rows r.last t,
          (apply_logs codec apply_transition s (events r)).1,
        )
  unfolding process on_logs
  process-logs s status r rows t a p c = ground (arith, a, ordered.sorted r, ordered.inside r, p, c)

  pub feed-logs :
      (s : S) (status : Status) (r : BlockRange) (rows : Map T)
      → accepts_logs status r ≡ true
      → status_after_logs status r ≡ ok (block_pending (r.last + 1))
      → r.last ≤ i64_max
      → (t : T) × (s' : S) × (codec.from_str t ≡ some s')
        × (feed codec apply_transition
              (record { inner = some (s, status); snapshots = rows })
              (update (logs (record { blocks = r; logs = events r })))
            ≡ alive s' (r.last + 1) (insert rows r.last t))
  feed-logs s status r rows a p b =
      let s' = (apply_logs codec apply_transition s (events r)).0 in
      let (t, e) = total.encodes s' in
      let c : Snapshots.commit codec rows r.last s' ≡ ok (insert rows r.last t) =
        unfold Snapshots.commit in ground (arith, e, b) in
      (
        t,
        s',
        total.trips s' t e,
        feed-ok codec apply_transition s s' status (block_pending (r.last + 1)) rows
            (insert rows r.last t) _ _ (process-logs s status r rows t a p c),
      )
