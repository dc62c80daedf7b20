-- ===== src/Core/Machine/Chain/Steps.antt =====
-- One successful update, as a step of the chain.
use shield_net.Prelude.{
  ℕ, ◌+◌, ◌≤◌, ◌<◌, ◌≡◌, refl, sym, ap, ◌∙◌, subst, some, List, [], ◌∷◌, arith, Bool-cases, ◌==◌,
  ltb, ==→eq, some_inj, insert, ◌⊎◌, ◌≢◌, Map, get, get-insert, below, get-below, below-below,
  below_self, KeysBelow, KeysBelow-mono, below-KeysBelow, ok, Result-cases, inl, inr,
}
use shield_net.Core.Snapshots
use shield_net.Core.Snapshots.{Codec}
use shield_net.Core.Snapshots.Recover.{RoundTrips, commit-ok, reorg-ok}
use shield_net.Core.Machine.{
  EventLog, EventUpdate, Update, block, logs, warp, uncle, new, Message, new_block, event, Status,
  initialized, process, on_warp, on_uncle, on_new, on_logs, apply_logs,
}
use shield_net.Core.Machine.Change.{next_number, after_logs}
use shield_net.Core.Machine.Invariant.{update}
use shield_net.Core.Machine.Chain.{Chain, hear, extend, replay, Implements}

module _ {E R : Type 0} where
  hear-below :
      (n k : ℕ) (l : List (EventLog E)) (h : Map (Message E R))
      → k ≤ n
      → below (hear n l h) k ≡ below h k
  unfolding hear below
  hear-below n k [] h b = refl
  hear-below n k (log ∷ rest) h b = hear-below n k rest ((n, event log) ∷ h) b ∙ ground arith

  hear-KeysBelow :
      (n k : ℕ) (l : List (EventLog E)) (h : Map (Message E R))
      → n < k
      → KeysBelow k h
      → KeysBelow k (hear n l h)
  unfolding hear
  hear-KeysBelow n k [] h b w = w
  hear-KeysBelow n k (log ∷ rest) h b w = hear-KeysBelow n k rest ((n, event log) ∷ h) b (b, w)

get_of_below :
    {T : Type 0} (m m' : Map T) (n k : ℕ) (t : T)
    → below m n ≡ m'
    → get m' k ≡ some t
    → (k < n) × (get m k ≡ some t)
get_of_below m m' n k t e g = elim (Bool-cases (ltb k n)) [
  | inl q ↦ (ground (arith, q), ground (arith, q, e, get-below m n k))
  | inr q ↦ absurd (ground (arith, q, e, get-below m n k))
]

get_of_insert :
    {T : Type 0} (m m' : Map T) (n k : ℕ) (v t : T)
    → insert m n v ≡ m'
    → get m' k ≡ some t
    → ((n ≡ k) × (v ≡ t)) ⊎ ((n ≢ k) × (get m k ≡ some t))
get_of_insert m m' n k v t e g = elim (Bool-cases (n == k)) [
  | inl q ↦ inl (==→eq n k q, ground (arith, q, e, get-insert m n k v))
  | inr q ↦ inr (ground (arith, q), ground (arith, q, e, get-insert m n k v))
]

module _ {S T E R C : Type 0} (codec : Codec S T) (apply_transition : S → Message E R → S × List C)
    (s s' : S) where
  new_ok :
      (status status' : Status) (rows rows' : Map T) (cs : List C) (n : ℕ)
      → on_new codec apply_transition s status rows n ≡ ok (s', status', rows', cs)
      → (next_number status ≤ n)
        × ((apply_transition s (new_block n)).0 ≡ s')
        × (Status.block_events n ≡ status')
        × (rows ≡ rows')
  unfolding on_new
  new_ok initialized status' rows rows' cs n h = ground arith
  new_ok _ status' rows rows' cs n h = ground arith

  warp_ok :
      (status status' : Status) (rows rows' : Map T) (cs : List C) (from to : ℕ)
      → on_warp codec apply_transition s status rows from to ≡ ok (s', status', rows', cs)
      → (next_number status ≤ from) × (s ≡ s') × (next_number status' ≡ from) × (rows ≡ rows')
  unfolding on_warp
  warp_ok initialized status' rows rows' cs from to h = ground arith
  warp_ok _ status' rows rows' cs from to h = ground arith

module _ {S T E R C : Type 0} (codec : Codec S T) (apply_transition : S → Message E R → S × List C)
    (start : S) where
  apply_logs-replay :
      (s : S) (n : ℕ) (l : List (EventLog E)) (h : Map (Message E R))
      → s ≡ replay apply_transition start h
      → (apply_logs codec apply_transition s l).0 ≡ replay apply_transition start (hear n l h)
  unfolding apply_logs hear replay
  apply_logs-replay s n [] h e = e
  apply_logs-replay s n (log ∷ rest) h e =
      apply_logs-replay (apply_transition s (event log)).0 n rest ((n, event log) ∷ h)
        (ap (λ (x : S). (apply_transition x (event log)).0) e)

  -- A message at the block `n` or a later one.
  module _ (s : S) (status : Status) (rows : Map T) (c : Chain E R)
      (i : Implements codec apply_transition start s status rows c) where
    pub push-Implements :
        (status' : Status) (n : ℕ) (m : Message E R)
        → c.next ≤ n
        → next_number status' ≡ n
        → Implements codec apply_transition start
            (apply_transition s m).0
            status'
            rows
            (record { next = n; history = (n, m) ∷ c.history })
    unfolding replay
    push-Implements status' n m l e = record {
      live = ap (λ (x : S). (apply_transition x m).0) i.live;
      at = e;
      tags = (omega arith, KeysBelow-mono c.history (c.next + 1) (n + 1) (omega arith) i.tags);
      rows_below = λ (k : ℕ) (t : T) (g : get rows k ≡ some t). ground (arith, i.rows_below k t g);
      rows_replay = λ (k : ℕ) (t : T) (g : get rows k ≡ some t).
          i.rows_replay k t g
          ∙ ap (λ (x : Map (Message E R)). some (replay apply_transition start x))
              (unfold below in ground (arith, i.rows_below k t g));
    }

    uncle-Implements :
        (s' : S) (status' : Status) (rows' : Map T) (cs : List C) (n : ℕ)
        → on_uncle codec apply_transition s status rows n ≡ ok (s', status', rows', cs)
        → Implements codec apply_transition start s' status' rows'
            (extend c (update (block (uncle n))))
    unfolding on_uncle extend
    uncle-Implements s' status' rows' cs n h = elim (Result-cases (Snapshots.reorg codec rows n)) [
      | inr (x, e) ↦ absurd (ground (arith, e))
      | inl ((kept, parent, s₁), e) ↦
          let (cut, q, (t, found, d)) = reorg-ok codec rows kept n parent s₁ e in
          let same : s₁ ≡ s' = ground (arith, e) in
          let left : below rows n ≡ rows' = ground (arith, e, cut) in
          record {
            live =
                sym same
                ∙ some_inj s₁ (replay apply_transition start (below c.history n)) (
                    sym d
                    ∙ i.rows_replay parent t found
                    ∙ ap (λ (x : ℕ). some (replay apply_transition start (below c.history x))) q);
            at = ground (arith, e);
            tags =
                KeysBelow-mono (below c.history n) n (n + 1) (omega arith)
                  (below-KeysBelow c.history n);
            rows_below = λ (k : ℕ) (t : T) (g : get rows' k ≡ some t).
                (get_of_below rows rows' n k t left g).0;
            rows_replay = λ (k : ℕ) (t : T) (g : get rows' k ≡ some t).
                let (l, g') = get_of_below rows rows' n k t left g in
                i.rows_replay k t g'
                ∙ ap (λ (x : Map (Message E R)). some (replay apply_transition start x))
                    (sym (below-below c.history n (k + 1) (omega arith)));
          }
    ]

    logs-Implements :
        RoundTrips codec
        → (s' : S) (status' : Status) (rows' : Map T) (cs : List C) (u : EventUpdate E)
        → on_logs codec apply_transition s status rows u ≡ ok (s', status', rows', cs)
        → Implements codec apply_transition start s' status' rows' (extend c (update (logs u)))
    unfolding on_logs extend
    logs-Implements trips s' status' rows' cs u h =
        let s₁ = (apply_logs codec apply_transition s u.logs).0 in
        let after = hear c.next u.logs c.history in
        elim (Result-cases (Snapshots.commit codec rows u.blocks.last s₁)) [
          | inr (x, e) ↦ absurd (ground (arith, e))
          | inl (saved, e) ↦
              let (t, w, put, _) = commit-ok codec rows saved u.blocks.last s₁ e in
              let bounds = after_logs status status' u.blocks in
              let same : s₁ ≡ s' = ground (arith, e) in
              let left : insert rows u.blocks.last t ≡ rows' = ground (arith, e, put) in
              let low : c.next ≤ u.blocks.last = ground (arith, e, bounds, i.at) in
              let tags : KeysBelow (u.blocks.last + 1) after =
                hear-KeysBelow c.next (u.blocks.last + 1) u.logs c.history (omega arith) (
                  KeysBelow-mono c.history (c.next + 1) (u.blocks.last + 1) (omega arith) i.tags) in
              let live = apply_logs-replay s c.next u.logs c.history i.live in
              record {
                live = sym same ∙ live;
                at = ground (arith, e, bounds);
                tags =
                    KeysBelow-mono after (u.blocks.last + 1) (u.blocks.last + 1 + 1) (omega arith)
                      tags;
                rows_below = λ (k : ℕ) (x : T) (g : get rows' k ≡ some x).
                    elim (get_of_insert rows rows' u.blocks.last k t x left g) [
                      | inl (q, _) ↦ ground (arith, q)
                      | inr (_, g') ↦ ground (arith, i.rows_below k x g', low)
                    ];
                rows_replay = λ (k : ℕ) (x : T) (g : get rows' k ≡ some x).
                    elim (get_of_insert rows rows' u.blocks.last k t x left g) [
                      | inl (q, r) ↦
                          subst
                            (λ (y : T).
                              codec.from_str y
                              ≡ some (replay apply_transition start (below after (k + 1))))
                            r
                            (trips s₁ t w
                              ∙ ap some live
                              ∙ ap
                                  (λ (y : Map (Message E R)).
                                    some (replay apply_transition start y))
                                  (sym (below_self after (u.blocks.last + 1) tags))
                              ∙ ap
                                  (λ (y : ℕ).
                                    some (replay apply_transition start (below after (y + 1))))
                                  q)
                      | inr (_, g') ↦
                          i.rows_replay k x g'
                          ∙ ap (λ (y : Map (Message E R)). some (replay apply_transition start y))
                              (sym (
                                hear-below c.next (k + 1) u.logs c.history
                                  (ground (arith, i.rows_below k x g'))))
                    ];
              }
        ]

    block-Implements :
        (s' : S) (status' : Status) (rows' : Map T) (cs : List C) (n hash bloom : ℕ)
        → on_new codec apply_transition s status rows n ≡ ok (s', status', rows', cs)
        → Implements codec apply_transition start s' status' rows'
            (extend c (update (block (new n hash bloom))))
    unfolding extend
    block-Implements s' status' rows' cs n hash bloom h =
        let (low, live, at, same) =
          new_ok codec apply_transition s s' status status' rows rows' cs n h in
        rw (← live, ← at, ← same)
          (push-Implements (Status.block_events n) n (new_block n) (ground (arith, low, i.at)) refl)

    warp-Implements :
        (s' : S) (status' : Status) (rows' : Map T) (cs : List C) (from to : ℕ)
        → on_warp codec apply_transition s status rows from to ≡ ok (s', status', rows', cs)
        → Implements codec apply_transition start s' status' rows'
            (extend c (update (block (warp from to))))
    unfolding extend
    warp-Implements s' status' rows' cs from to h =
        let (low, live, at, same) =
          warp_ok codec apply_transition s s' status status' rows rows' cs from to h in
        rw (← live, ← same)
          (record {
            live = i.live;
            at = at;
            tags =
                KeysBelow-mono c.history (c.next + 1) (from + 1) (ground (arith, low, i.at)) i.tags;
            rows_below = λ (k : ℕ) (t : T) (g : get rows k ≡ some t).
                ground (arith, i.rows_below k t g, low, i.at);
            rows_replay = i.rows_replay;
          })

    pub process-Implements :
        RoundTrips codec
        → (s' : S) (status' : Status) (rows' : Map T) (cs : List C) (u : Update E)
        → process codec apply_transition s status rows u ≡ ok (s', status', rows', cs)
        → Implements codec apply_transition start s' status' rows' (extend c (update u))
    unfolding process
    process-Implements trips s' status' rows' cs (block (warp from to)) h =
        warp-Implements s' status' rows' cs from to h
    process-Implements trips s' status' rows' cs (block (uncle n)) h =
        uncle-Implements s' status' rows' cs n h
    process-Implements trips s' status' rows' cs (block (new n hash bloom)) h =
        block-Implements s' status' rows' cs n hash bloom h
    process-Implements trips s' status' rows' cs (logs u) h =
        logs-Implements trips s' status' rows' cs u h
