-- ===== src/Core/Blocks/Followed.antt =====
-- crates/core/src/index/blocks.rs against crates/core/src/state/mod.rs: what the watcher yields, with the logs of each
-- block, at the state machine.
use shield_net.Prelude.{
  ℕ, ◌+◌, ◌-◌, ◌≤◌, ◌<◌, ◌≡◌, refl, sym, ap, subst, ◌∙◌, some, List, [], ◌∷◌, arith, checked_add,
  Option-cases, inl, inr, Map, below, insert,
}
use shield_net.Core.Snapshots.{Codec, i64_max}
use shield_net.Core.Machine.{
  BlockUpdate, warp, uncle, new, BlockRange, EventLog, logs, Message, block_events, warp_events,
  Machine, accepts_logs, status_after_logs, accepts_next, accepts_uncle, next_block,
  is_next_in_range, new_block,
}
use shield_net.Core.Machine.Invariant.{update, follow, feed}
use shield_net.Core.Blocks.Guards.{advance, advance_all, retain, retain_all}
use shield_net.Core.Blocks.Logged.{
  inputs, IsOrdered, IsTotal, alive, Covers, insert-Readable, below-Readable, handle_update-uncle,
  on_new-alive, on_warp-alive, feed-logs,
}

module _ {S T : Type 0} (codec : Codec S T) where
  -- The machine after an update and its logs: every row from `l` to before `m` is there.
  pub record Follows (l m : ℕ) (machine : Machine S T) : Type 0 where
    pub s : S
    pub rows : Map T
    pub same : machine ≡ alive s m rows
    pub covers : Covers codec l m rows
    pub bounded : m ≤ i64_max + 1

  pub Follows-at :
      (l l' m m' : ℕ) {machine : Machine S T}
      → l ≡ l'
      → m ≡ m'
      → Follows l m machine
      → Follows l' m' machine
  Follows-at l l' m m' {machine = machine} p q f =
      subst (λ (k : ℕ). Follows l' k machine) q (subst (λ (k : ℕ). Follows k m machine) p f)

module _ {S T E R C : Type 0} (codec : Codec S T) (apply_transition : S → Message E R → S × List C)
    (events : BlockRange → List (EventLog E)) (total : IsTotal codec)
    (ordered : IsOrdered events) where
  module _ (s : S) (lo n : ℕ) (rows : Map T) (covers : Covers codec lo n rows)
      (b : n ≤ i64_max + 1) where
    follow-uncle :
        (k : ℕ)
        → lo ≤ k
        → k + 1 < n
        → Follows codec lo
            (k + 1)
            (follow codec apply_transition (alive s n rows) (inputs events (uncle (k + 1) ∷ [])))
    unfolding follow inputs
    follow-uncle k h g =
        let (t, s', e, d) = covers k h (omega (arith, g)) in
        record {
          s = s';
          rows = below rows (k + 1);
          same =
              handle_update-uncle codec apply_transition s s' n k rows t g (omega (arith, g, b)) e
                d;
          covers =
              λ j i p. below-Readable codec rows (k + 1) j p (covers j i (omega (arith, p, g)));
          bounded = omega (arith, g, b);
        }

    follow-new :
        (hash bloom : ℕ)
        → n ≤ i64_max
        → Follows codec lo
            (n + 1)
            (follow codec apply_transition (alive s n rows) (inputs events (new n hash bloom ∷ [])))
    unfolding follow inputs
    follow-new hash bloom h =
        let r : BlockRange = record { start = n; last = n } in
        let (t, s', d, e) =
          feed-logs codec apply_transition events total ordered (apply_transition s (new_block n)).0
            (block_events n) r rows (unfold accepts_logs is_next_in_range in ground arith)
            (unfold status_after_logs next_block checked_add in ground (arith, h)) h in
        record {
          s = s';
          rows = insert rows n t;
          same =
              ap
                (λ (m : Machine S T).
                  feed codec apply_transition m
                    (update (logs (record { blocks = r; logs = events r }))))
                (on_new-alive codec apply_transition s n hash bloom rows)
              ∙ e;
          covers = λ j i p.
              insert-Readable codec rows n j t s' d (λ q. covers j i (ground (arith, p, q)));
          bounded = omega (arith, h);
        }

    follow-warp :
        (to : ℕ)
        → n ≤ to
        → to ≤ i64_max
        → Follows codec to
            (to + 1)
            (follow codec apply_transition (alive s n rows) (inputs events (warp n to ∷ [])))
    unfolding follow inputs
    follow-warp to g h =
        let r : BlockRange = record { start = n; last = to } in
        let (t, s', d, e) =
          feed-logs codec apply_transition events total ordered s (warp_events r) r rows
            (unfold accepts_logs is_next_in_range in ground (arith, g))
            (unfold status_after_logs next_block checked_add in ground (arith, h)) h in
        record {
          s = s';
          rows = insert rows to t;
          same =
              ap
                (λ (m : Machine S T).
                  feed codec apply_transition m
                    (update (logs (record { blocks = r; logs = events r }))))
                (on_warp-alive codec apply_transition s n to rows g)
              ∙ e;
          covers = λ j i p.
              insert-Readable codec rows to j t s' d (λ q. absurd (ground (arith, i, p, q)));
          bounded = omega (arith, h);
        }

    -- One update that is accepted, with its logs.
    follow-one :
        (u : BlockUpdate) (l m : ℕ)
        → retain lo u ≡ some l
        → advance n u ≡ some m
        → Follows codec l m
            (follow codec apply_transition (alive s n rows) (inputs events (u ∷ [])))
    unfolding retain advance accepts_next accepts_uncle
    follow-one (warp from to) l m r a =
        let at : n ≡ from = ground (arith, a) in
        subst
          (λ (x : ℕ).
            Follows codec l m
              (follow codec apply_transition (alive s n rows) (inputs events (warp x to ∷ []))))
          at
          (Follows-at codec to l (to + 1) m (ground (arith, r)) (ground (arith, a))
            (follow-warp to (ground (arith, a)) (ground (arith, r))))
    follow-one (uncle k) l m r a =
        let at : k - 1 + 1 ≡ k = ground (arith, r) in
        subst
          (λ (x : ℕ).
            Follows codec l m
              (follow codec apply_transition (alive s n rows) (inputs events (uncle x ∷ []))))
          at
          (Follows-at codec lo l (k - 1 + 1) m (ground (arith, r)) (ground (arith, a, at))
            (follow-uncle (k - 1) (ground (arith, r)) (ground (arith, a, r))))
    follow-one (new k hash bloom) l m r a =
        let at : n ≡ k = ground (arith, a) in
        subst
          (λ (x : ℕ). Follows codec l m (
            follow codec apply_transition (alive s n rows) (inputs events (new x hash bloom ∷ []))))
          at
          (Follows-at codec lo l (n + 1) m (ground (arith, r)) (ground (arith, a))
            (follow-new hash bloom (ground (arith, r, at))))

  follow-split :
      (machine : Machine S T) (u : BlockUpdate) (rest : List BlockUpdate)
      → follow codec apply_transition machine (inputs events (u ∷ rest))
        ≡ follow codec apply_transition
            (follow codec apply_transition machine (inputs events (u ∷ [])))
            (inputs events rest)
  unfolding follow inputs
  follow-split machine (warp from to) rest = refl
  follow-split machine (uncle k) rest = refl
  follow-split machine (new k hash bloom) rest = refl

  -- Updates that are accepted one after another, each with its logs.
  pub follow-inputs :
      (updates : List BlockUpdate) (s : S) (lo n : ℕ) (rows : Map T) (l m : ℕ)
      → Covers codec lo n rows
      → n ≤ i64_max + 1
      → retain_all lo updates ≡ some l
      → advance_all n updates ≡ some m
      → Follows codec l m (follow codec apply_transition (alive s n rows) (inputs events updates))
  unfolding follow inputs retain_all advance_all
  follow-inputs [] s lo n rows l m c b r a =
      Follows-at codec lo l n m (ground (arith, r)) (ground (arith, a))
        (record { s = s; rows = rows; same = refl; covers = c; bounded = b })
  follow-inputs (u ∷ rest) s lo n rows l m c b r a = elim (Option-cases (retain lo u)) [
    | inl p ↦ absurd (ground (arith, p, r))
    | inr (l', p) ↦ elim (Option-cases (advance n u)) [
      | inl q ↦ absurd (ground (arith, q, a))
      | inr (m', q) ↦
          let one = follow-one s lo n rows c b u l' m' p q in
          let more =
            follow-inputs rest one.s l' m' one.rows l m one.covers one.bounded
              (ground (arith, p, r)) (ground (arith, q, a)) in
          subst (Follows codec l m) (sym (follow-split (alive s n rows) u rest)) (
            subst
              (λ (x : Machine S T).
                Follows codec l m (follow codec apply_transition x (inputs events rest)))
              (sym one.same) more)
    ]
  ]
