-- ===== src/Core/Blocks/Driving.antt =====
-- crates/core/src/index/blocks.rs: any sequence of calls of the watcher.
use shield_net.Prelude.{
  ℕ, ◌≡◌, refl, sym, ap, subst, Option, none, some, List, [], ◌∷◌, arith, Result, ok, err, ◌⊎◌, inl,
  inr,
}
use shield_net.Core.Machine.{BlockUpdate, uncle}
use shield_net.Core.Blocks.{
  Error, Provider, BlockWatcher, next, revalidate_last_block, dequeue, yielded, check_last,
}
use shield_net.Core.Blocks.Guards.{advance_all, retain_all}
use shield_net.Core.Blocks.Feeding.{IsFeeding, IsNumbered, Yields, next-Yields}
use shield_net.Core.Blocks.Checking.{revalidate_last_block-IsFeeding}

-- The calls of the watcher's owner, with what the provider answers during each.
pub data Call : Type 0 where
  nexts : Provider → (fuel : ℕ) → Call
  revalidates : Provider → Call

abbrev pub Driven : Type 0
Driven = BlockWatcher × List BlockUpdate

-- What follows a call of `next`: the update that it yields comes first; a call that still waits ends the run.
unfoldable pub resume_with :
    (BlockWatcher → Driven)
    → BlockWatcher
    → Option (BlockWatcher × Result Error BlockUpdate)
    → Driven
resume_with k w none = (w, [])
resume_with k w (some (waited, err e)) = k waited
resume_with k w (some (yielded, ok update)) =
    let (last, updates) = k yielded in (last, update ∷ updates)

-- The watcher after some calls, and the updates that they yield.
unfoldable pub drive : List Call → BlockWatcher → Driven
unfolding resume_with
drive [] w = (w, [])
drive (nexts provider fuel ∷ calls) w = resume_with (drive calls) w (next provider fuel w)
drive (revalidates provider ∷ calls) w = drive calls (revalidate_last_block provider w).0

abbrev pub AllNumbered : List Call → Type 0
AllNumbered [] = Unit
AllNumbered (nexts provider fuel ∷ calls) = IsNumbered provider × AllNumbered calls
AllNumbered (revalidates provider ∷ calls) = AllNumbered calls

-- A state machine accepts the updates, and is fed for the block that it then works toward.
abbrev pub IsAccepted : (lo n : ℕ) → Driven → Type 0
IsAccepted lo n (w, updates) =
    (l : ℕ) × (m : ℕ) × (retain_all lo updates ≡ some l)
    × (advance_all n updates ≡ some m)
    × IsFeeding l m w

resume_with-IsAccepted :
    (lo n : ℕ) (k : BlockWatcher → Driven) (w : BlockWatcher)
    (r : Option (BlockWatcher × Result Error BlockUpdate))
    → ((l m : ℕ) (v : BlockWatcher) → IsFeeding l m v → IsAccepted l m (k v))
    → IsFeeding lo n w
    → Yields lo n r
    → IsAccepted lo n (resume_with k w r)
unfolding resume_with advance_all retain_all
resume_with-IsAccepted lo n k w none more f y = (lo, n, refl, refl, f)
resume_with-IsAccepted lo n k w (some (waited, err e)) more f y = more lo n waited y
resume_with-IsAccepted lo n k w (some (yielded, ok update)) more f y =
    let (l, m, r, e, g) = y in
    let (l', m', r', d, h) = more l m yielded g in
    (l', m', ground (arith, r, r'), ground (arith, e, d), h)

pub drive-IsAccepted :
    (calls : List Call) (lo n : ℕ) (w : BlockWatcher)
    → AllNumbered calls
    → IsFeeding lo n w
    → IsAccepted lo n (drive calls w)
unfolding drive advance_all retain_all
drive-IsAccepted [] lo n w a f = (lo, n, refl, refl, f)
drive-IsAccepted (nexts provider fuel ∷ calls) lo n w a f =
    resume_with-IsAccepted lo n (drive calls) w (next provider fuel w)
      (λ l m v g. drive-IsAccepted calls l m v a.1 g) f (next-Yields provider a.0 lo n fuel w f)
drive-IsAccepted (revalidates provider ∷ calls) lo n w a f =
    drive-IsAccepted calls lo n (revalidate_last_block provider w).0 a
      (revalidate_last_block-IsFeeding lo n provider w f)

-- What is queued first is yielded first.
pub drive_first :
    (calls : List Call) (w : BlockWatcher) (number : ℕ) (queue : List BlockUpdate)
    → w.queue ≡ uncle number ∷ queue
    → ((drive calls w).1 ≡ [])
      ⊎ ((rest : List BlockUpdate) × ((drive calls w).1 ≡ uncle number ∷ rest))
unfolding drive next dequeue resume_with revalidate_last_block yielded check_last
drive_first [] w number queue e = inl refl
drive_first (nexts provider fuel ∷ calls) w number queue e =
    inr ((drive calls (record w { queue = queue })).1, rw e refl)
drive_first (revalidates provider ∷ calls) w number queue e =
    let idle : (revalidate_last_block provider w).0 ≡ w =
      ap (λ (q : List BlockUpdate). (check_last provider w (yielded q w.recent)).0) e in
    subst
      (λ (v : BlockWatcher).
        ((drive calls v).1 ≡ [])
        ⊎ ((rest : List BlockUpdate) × ((drive calls v).1 ≡ uncle number ∷ rest)))
      (sym idle) (drive_first calls w number queue e)
