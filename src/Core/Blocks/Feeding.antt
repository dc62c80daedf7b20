-- ===== src/Core/Blocks/Feeding.antt =====
-- crates/core/src/index/blocks.rs against crates/core/src/state/mod.rs: the numbers of the
-- updates that the watcher yields are ones that the state machine accepts.
use shield_net.Prelude.{
  ℕ, suc, zero, ◌+◌, ◌≤◌, ◌<◌, ◌≡◌, refl, sym, ap, subst, some_inj, ◌∙◌, Bool, true, false, Option,
  none, some, List, [], ◌∷◌, arith, length, if◌then◌else◌, Result, ok, err, inl, inr, u64_max,
  Option-cases,
}
use shield_net.Core.Snapshots.{i64_max}
use shield_net.Core.Machine.{BlockUpdate}
use shield_net.Core.Blocks.{
  at_number, BlockHeader, Error, Provider, BlockWatcher, next_pending, accept, observe_pending,
  replied, poll, yields, dequeue, next, wrap,
}
use shield_net.Core.Blocks.Guards.{advance, advance_all, retain, IsDeep, retain-queued}
use shield_net.Core.Blocks.Linked.{
  tip, Linked, IsWatching, accept-IsWatching, accept-rises, safe-lt-kept, observe_pending_cases,
  back-IsWatching,
}

-- A state machine that works toward block `n`, and whose table has every row from `lo` on, accepts the numbers that
-- are queued, and then works toward the awaited block.
pub record IsFeeding (lo n : ℕ) (w : BlockWatcher) : Type 0 where
  pub watching : IsWatching w
  pub queued : advance_all n w.queue ≡ some w.pending.number
  pub deep : IsDeep lo w.safe.number w.queue

-- A block that is asked for by its number has that number, and it is below the greatest one of the snapshot table.
abbrev pub IsNumbered : Provider → Type 0
IsNumbered provider =
    (calls k : ℕ) (block : BlockHeader)
    → provider calls (at_number k) ≡ ok (some block)
    → (block.number ≡ k) × (k < i64_max)

-- The state machine accepts what was yielded, and keeps being fed; after an error, it is where it was.
abbrev pub Yields : (lo n : ℕ) → Option (BlockWatcher × Result Error BlockUpdate) → Type 0
Yields lo n none = Unit
Yields lo n (some (w, err e)) = IsFeeding lo n w
Yields lo n (some (w, ok update)) =
    (l : ℕ) × (m : ℕ) × (retain lo update ≡ some l) × (advance n update ≡ some m) × IsFeeding l m w

idle-eq : (lo n : ℕ) (w : BlockWatcher) → IsFeeding lo n w → w.queue ≡ [] → n ≡ w.pending.number
unfolding advance_all
idle-eq lo n w f q = some_inj n w.pending.number (sym (ap (advance_all n) q) ∙ f.queued)

accept-pending :
    (w : BlockWatcher) (block : BlockHeader)
    → block.number < u64_max
    → (accept w block).pending.number ≡ block.number + 1
unfolding accept next_pending
accept-pending w block b = ground (arith, b)

accept-queue : (w : BlockWatcher) (block : BlockHeader) → (accept w block).queue ≡ w.queue
unfolding accept
accept-queue w block = ground arith

-- A kept block is below the one that is awaited after it.
kept_below :
    (w : BlockWatcher) (last : BlockHeader) (rest : List BlockHeader)
    → IsWatching w
    → w.recent ≡ last ∷ rest
    → w.pending.number ≡ last.number + 1
kept_below w last rest v s =
    subst (λ (r : List BlockHeader). w.pending.number ≡ (tip w.safe r).number + 1) s v.expected

pub observe_pending-Yields :
    (lo n : ℕ) (w : BlockWatcher) (block : BlockHeader)
    → IsFeeding lo n w
    → w.queue ≡ []
    → block.number ≡ w.pending.number
    → block.number < i64_max
    → Yields lo n (some (observe_pending w block))
unfolding advance advance_all retain
observe_pending-Yields lo n w block f q e b =
    let at = idle-eq lo n w f q in
    let low : lo ≤ w.safe.number = subst (IsDeep lo w.safe.number) q f.deep in
    observe_pending_cases w block (λ r. Yields lo n (some r))
      (λ last rest s.
        let below = kept_below w last rest f.watching s in
        let linked = subst (Linked w.safe) s f.watching.linked in
        let above = safe-lt-kept w.safe last rest linked in
        (
          lo,
          last.number,
          ground (arith, low, above),
          ground (arith, at, below),
          record {
            watching = back-IsWatching w last rest w.queue linked (
                subst (λ (r : List BlockHeader). length r ≤ w.config.max_reorg_depth) s
                  f.watching.bounded);
            queued = ap (advance_all last.number) q;
            deep = subst (IsDeep lo w.safe.number) (sym q) low;
          },
        ))
      f
      (λ h. (
        lo,
        block.number + 1,
        ground (arith, b),
        ground (arith, at, e),
        record {
          watching = accept-IsWatching w block f.watching h e (omega (arith, b));
          queued =
              ap (advance_all (block.number + 1)) (accept-queue w block ∙ q)
              ∙ ap some (sym (accept-pending w block (omega (arith, b))));
          deep =
              subst (IsDeep lo (accept w block).safe.number) (sym (accept-queue w block ∙ q))
                (omega (arith, low, accept-rises w block f.watching h e));
        },
      ))

-- What a poll ends with: the watcher as it was, but for its clock.
abbrev Polled : (lo n : ℕ) → Option (BlockWatcher × Result Error BlockHeader) → Type 0
Polled lo n none = Unit
Polled lo n (some (w, err e)) = IsFeeding lo n w
Polled lo n (some (w, ok block)) =
    IsFeeding lo n w × (w.queue ≡ []) × (block.number ≡ w.pending.number) × (block.number < i64_max)

replied-Polled :
    (lo n : ℕ) (w : BlockWatcher) (again : Option (BlockWatcher × Result Error BlockHeader))
    (reply : Result ℕ (Option BlockHeader))
    → IsFeeding lo n w
    → w.queue ≡ []
    → ((block : BlockHeader)
        → reply ≡ ok (some block)
        → (block.number ≡ w.pending.number) × (w.pending.number < i64_max))
    → Polled lo n again
    → Polled lo n (replied w again reply)
unfolding replied
replied-Polled lo n w again (err e) f q numbered more = f
replied-Polled lo n w again (ok none) f q numbered more = more
replied-Polled lo n w again (ok (some block)) f q numbered more =
    let r = numbered block refl in (f, q, r.0, omega (arith, r.0, r.1))

if-Polled :
    (lo n : ℕ) (b : Bool) (x y : Option (BlockWatcher × Result Error BlockHeader))
    → Polled lo n x
    → Polled lo n y
    → Polled lo n (if b then x else y)
if-Polled lo n true x y p q = p
if-Polled lo n false x y p q = q

yields-Yields :
    (lo n : ℕ) (p : Option (BlockWatcher × Result Error BlockHeader))
    → Polled lo n p
    → Yields lo n (yields p)
unfolding yields
yields-Yields lo n none p = tt
yields-Yields lo n (some (w, err e)) p = p
yields-Yields lo n (some (w, ok block)) p = observe_pending-Yields lo n w block p.0 p.1 p.2 p.3

module _ (provider : Provider) (numbered : IsNumbered provider) (lo n : ℕ) where
  poll-Polled :
      (fuel calls : ℕ) (w : BlockWatcher)
      → IsFeeding lo n w
      → w.queue ≡ []
      → Polled lo n (poll provider fuel calls w)
  unfolding poll
  poll-Polled zero calls w f q = tt
  poll-Polled (suc fuel) calls w f q =
      let later = wrap (w.pending.timestamp_ms + w.block_time) in
      let waiting = record w {
        pending = record { number = w.pending.number; timestamp_ms = later };
      } in
      replied-Polled lo n w _ (provider calls (at_number w.pending.number)) f q
        (λ block e. numbered calls w.pending.number block e)
        (if-Polled lo n _ _ _ (poll-Polled fuel (calls + 1) w f q) (
          poll-Polled fuel (calls + 1) waiting
            (record {
              watching = record {
                linked = f.watching.linked;
                expected = f.watching.expected;
                bounded = f.watching.bounded;
              };
              queued = f.queued;
              deep = f.deep;
            })
            q))

  -- `w` is fed, whatever else is queued.
  pub requeue-IsFeeding :
      (l m : ℕ) (w : BlockWatcher) (queue : List BlockUpdate)
      → IsWatching w
      → advance_all m queue ≡ some w.pending.number
      → IsDeep l w.safe.number queue
      → IsFeeding l m (record w { queue = queue })
  requeue-IsFeeding l m w queue v e d = record {
    watching = record { linked = v.linked; expected = v.expected; bounded = v.bounded };
    queued = e;
    deep = d;
  }

  dequeue-Yields :
      (w : BlockWatcher) (polled : Option (BlockWatcher × Result Error BlockUpdate))
      (queue : List BlockUpdate)
      → IsWatching w
      → advance_all n queue ≡ some w.pending.number
      → IsDeep lo w.safe.number queue
      → (queue ≡ [] → Yields lo n polled)
      → Yields lo n (dequeue w polled queue)
  unfolding dequeue advance_all
  dequeue-Yields w polled [] v e d p = p refl
  dequeue-Yields w polled (update ∷ rest) v e d p =
      let (l, r, deep) = retain-queued lo w.safe.number update rest d in
      elim (Option-cases (advance n update)) [
        | inl q ↦ absurd (ground (arith, q, e))
        | inr (m, q) ↦ (l, m, r, q, requeue-IsFeeding l m w rest v (ground (arith, q, e)) deep)
      ]

  -- Where the provider answers a call for a number with a block only if the number is below 2^63 - 1 and the
  -- block's own: of a watcher that is fed, `next` yields an update whose numbers are accepted, be it queued,
  -- an uncle or a new block, or an error, and leaves a watcher that is fed after it.
  pub next-Yields :
      (fuel : ℕ) (w : BlockWatcher) → IsFeeding lo n w → Yields lo n (next provider fuel w)
  unfolding next
  next-Yields fuel w f =
      dequeue-Yields w (yields (poll provider fuel 0 w)) w.queue f.watching f.queued f.deep
        (λ q. yields-Yields lo n (poll provider fuel 0 w) (poll-Polled fuel 0 w f q))
