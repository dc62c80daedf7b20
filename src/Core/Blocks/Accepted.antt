-- ===== src/Core/Blocks/Accepted.antt =====
-- crates/core/src/index/blocks.rs against crates/core/src/state/mod.rs: from its start on, whatever is called, the
-- watcher yields what the state machine accepts.
use shield_net.Prelude.{
  ℕ, ◌+◌, ◌-◌, ◌≤◌, ◌<◌, ◌≡◌, sym, ap, subst, ◌∙◌, Option, none, some, List, [], ◌∷◌, ◌++◌, arith,
  length, Result, ok, err,
}
use shield_net.Core.Snapshots.{BlockStatus, i64_max}
use shield_net.Core.Machine.{BlockUpdate, uncle}
use shield_net.Core.Blocks.{
  latest, BlockHeader, Error, Provider, Config, BlockWatcher, pop_oldest, next_pending,
}
use shield_net.Core.Blocks.Start.{
  require_block, scan, catch_up, first_new, news, anchored, started, initialize, initialize_at,
}
use shield_net.Core.Blocks.Linked.{tip, Linked, IsWatching, safe_of, pop_oldest-Popped}
use shield_net.Core.Blocks.Guards.{advance_all, IsDeep}
use shield_net.Core.Blocks.Feeding.{IsFeeding, IsNumbered}
use shield_net.Core.Blocks.Starting.{Found, empty-Scanned, scan-Found}
use shield_net.Core.Blocks.Resuming.{resumed_updates, resumed-IsDeep, resumed_first}

-- A state machine that has the snapshots is fed; the rollback to the first of them comes first.
pub record Fed (indexed : BlockStatus) (w : BlockWatcher) : Type 0 where
  pub feeding : IsFeeding indexed.safe (indexed.latest + 1) w
  pub first :
      indexed.safe < indexed.latest
      → (rest : List BlockUpdate) × (w.queue ≡ uncle (indexed.safe + 1) ∷ rest)

-- On a resume, where the first snapshot is not above the safe block and the last one is in the column's range.
abbrev pub Resumes : Option BlockStatus → (safe : ℕ) → BlockWatcher → Type 0
Resumes (some indexed) safe w =
    indexed.safe ≤ indexed.latest → indexed.safe ≤ safe → indexed.latest ≤ i64_max → Fed indexed w
Resumes none safe w = Unit

abbrev Ready : Option BlockStatus → ℕ → Option (Result Error BlockWatcher) → Type 0
Ready indexed safe none = Unit
Ready indexed safe (some (err e)) = Unit
Ready indexed safe (some (ok w)) = Resumes indexed safe w

abbrev pub safe_number : Config → BlockHeader → ℕ
safe_number config last = last.number - config.max_reorg_depth

module _ (config : Config) (block_time : ℕ) (last : BlockHeader)
    (small : last.number < i64_max) where
  abbrev watcher : Option BlockStatus → BlockHeader → List BlockHeader → BlockWatcher
  watcher indexed oldest rest = record {
    config = config;
    block_time = block_time;
    pending = next_pending block_time last.number last.timestamp;
    safe = record { number = oldest.number; hash = oldest.hash };
    recent = rest;
    queue =
        catch_up indexed config.start_block (safe_number config last)
        ++ news (first_new indexed config.start_block) rest;
  }

  module _ (oldest : BlockHeader) (rest : List BlockHeader) (l : Linked (safe_of oldest) rest)
      (at : oldest.number ≡ safe_number config last)
      (top : (tip (safe_of oldest) rest).number ≡ last.number)
      (size : last.number ≡ safe_number config last + length rest) where
    watcher-IsWatching : (indexed : Option BlockStatus) → IsWatching (watcher indexed oldest rest)
    unfolding next_pending
    watcher-IsWatching indexed = record {
      linked = l;
      expected = omega (arith, top, small);
      bounded = omega (arith, size);
    }

    watcher-queued :
        (indexed : Option BlockStatus) (n : ℕ)
        → advance_all n (
            catch_up indexed config.start_block oldest.number
            ++ news (first_new indexed config.start_block) rest)
          ≡ some ((tip (safe_of oldest) rest).number + 1)
        → advance_all n (watcher indexed oldest rest).queue
          ≡ some (watcher indexed oldest rest).pending.number
    unfolding next_pending
    watcher-queued indexed n e =
        subst
          (λ (k : ℕ).
            advance_all n (
              catch_up indexed config.start_block k
              ++ news (first_new indexed config.start_block) rest)
            ≡ some ((tip (safe_of oldest) rest).number + 1))
          at e
        ∙ ap some (omega (arith, top, small))

    watcher-IsDeep :
        (indexed : BlockStatus)
        → indexed.safe ≤ safe_number config last
        → IsDeep indexed.safe oldest.number (watcher (some indexed) oldest rest).queue
    watcher-IsDeep indexed k =
        subst
          (λ (x : ℕ). IsDeep indexed.safe oldest.number (
            catch_up (some indexed) config.start_block x
            ++ news (first_new (some indexed) config.start_block) rest))
          at
          (resumed-IsDeep indexed config.start_block (safe_of oldest) rest (omega (arith, k, at)) l
            (omega (arith, top, small)))

    watcher-Resumes :
        (indexed : Option BlockStatus)
        → Resumes indexed (safe_number config last) (watcher indexed oldest rest)
    watcher-Resumes (some indexed) = λ h k b. record {
      feeding = record {
        watching = watcher-IsWatching (some indexed);
        queued = watcher-queued (some indexed) (indexed.latest + 1) (
            resumed_updates (safe_of oldest) rest l indexed config.start_block h
              (omega (arith, k, top)) (omega (arith, k, small)));
        deep = watcher-IsDeep indexed k;
      };
      first = λ g.
          resumed_first indexed config.start_block (safe_number config last)
            (news (first_new (some indexed) config.start_block) rest) g b;
    }
    watcher-Resumes none = tt

  started-Ready :
      (indexed : Option BlockStatus) (r : Option (Result Error (List BlockHeader)))
      → Found (safe_number config last) last.number r
      → Ready indexed
          (safe_number config last)
          (started config block_time indexed last (safe_number config last) r)
  unfolding started pop_oldest anchored
  started-Ready indexed none f = tt
  started-Ready indexed (some (err e)) f = tt
  started-Ready indexed (some (ok [])) f = tt
  started-Ready indexed (some (ok (b ∷ bs))) f =
      let p = pop_oldest-Popped b bs f.chained in
      subst
        (λ (x : Option (BlockHeader × List BlockHeader)).
          Ready indexed (safe_number config last)
            (anchored config block_time indexed last (safe_number config last) x))
        (sym p.pops)
        (watcher-Resumes p.oldest p.rest p.linked (omega (arith, f.size, f.top, p.size, p.bottom))
          (omega (arith, p.top_number, f.top)) (omega (arith, f.size, p.size)) indexed)

module _ (provider : Provider) (fuel : ℕ) (config : Config) (block_time : ℕ)
    (indexed : Option BlockStatus) (last : BlockHeader) where
  require_block-ok : provider 0 latest ≡ ok (some last) → require_block provider 0 latest ≡ ok last
  unfolding require_block
  require_block-ok e = ground (arith, e)

  pub initialize-started :
      provider 0 latest ≡ ok (some last)
      → initialize provider fuel config block_time indexed
        ≡ started config block_time indexed last
            (safe_number config last)
            (scan provider fuel 1 (safe_number config last) last (safe_number config last) [])
  unfolding initialize initialize_at
  initialize-started e =
      ap (initialize_at provider fuel config block_time indexed) (require_block-ok e)

  pub initialize-Resumes :
      (w : BlockWatcher)
      → IsNumbered provider
      → last.number < i64_max
      → provider 0 latest ≡ ok (some last)
      → initialize provider fuel config block_time indexed ≡ some (ok w)
      → Resumes indexed (safe_number config last) w
  initialize-Resumes w numbered small e r =
      subst (Ready indexed (safe_number config last)) (sym (initialize-started e) ∙ r) (
        started-Ready config block_time last small indexed
          (scan provider fuel 1 (safe_number config last) last (safe_number config last) [])
          (scan-Found provider numbered (safe_number config last) last (omega arith)
            (omega (arith, small)) fuel 1 (safe_number config last) []
            (empty-Scanned (safe_number config last)) (omega arith)))
