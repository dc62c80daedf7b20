-- ===== src/Core/Blocks/Checking.antt =====
-- crates/core/src/index/blocks.rs, `revalidate_last_block`: an invalidated block is undone at the state machine.
use shield_net.Prelude.{
  ℕ, suc, ◌+◌, ◌≤◌, ◌<◌, ◌≡◌, refl, subst, some_inj, Option, some, List, [], ◌∷◌, arith, length,
  ltb, Result, ok, err, Bool-cases, inl, inr,
}
use shield_net.Core.Machine.{BlockUpdate, warp, uncle, new}
use shield_net.Core.Blocks.{
  at_number, BlockHeader, Provider, SafeBlock, BlockWatcher, before, yielded, checked, check_last,
  is_same_block, revalidate_last_block,
}
use shield_net.Core.Blocks.Linked.{tip, Linked, back-IsWatching, safe-lt-kept}
use shield_net.Core.Blocks.Guards.{advance, advance_all, IsDeep}
use shield_net.Core.Blocks.Feeding.{IsFeeding}

-- Kept blocks from one below `n` on.
pub record Kept (n depth : ℕ) (safe : SafeBlock) (blocks : List BlockHeader) : Type 0 where
  pub linked : Linked safe blocks
  pub bounded : length blocks ≤ depth
  pub below :
      (last : BlockHeader) (rest : List BlockHeader) → blocks ≡ last ∷ rest → last.number < n

-- A block from which on the rows are there is below the ones that are checked.
abbrev Floor : (lo safe : ℕ) → List BlockHeader → Type 0
Floor lo safe [] = Unit
Floor lo safe (b ∷ bs) = lo ≤ safe

Floor-le : (lo safe : ℕ) (blocks : List BlockHeader) → lo ≤ safe → Floor lo safe blocks
Floor-le lo safe [] h = tt
Floor-le lo safe (b ∷ bs) h = h

yielded-Floor :
    (lo safe : ℕ) (queue : List BlockUpdate) (recent : List BlockHeader)
    → IsDeep lo safe queue
    → Floor lo safe (yielded queue recent)
unfolding yielded
yielded-Floor lo safe [] recent d = Floor-le lo safe recent d
yielded-Floor lo safe (new number hash bloom ∷ queue) recent d =
    Floor-le lo safe (before number recent) d.0
yielded-Floor lo safe (warp from to ∷ queue) recent d = tt
yielded-Floor lo safe (uncle number ∷ queue) recent d = tt

head_eq : (a b : BlockHeader) (l m : List BlockHeader) → a ∷ l ≡ b ∷ m → a ≡ b
head_eq a b l m e = cc

before-Kept :
    (n depth : ℕ) (safe : SafeBlock) (recent : List BlockHeader)
    → Linked safe recent
    → length recent ≤ depth
    → Kept n depth safe (before n recent)
unfolding before
before-Kept n depth safe [] l b = record {
  linked = tt;
  bounded = b;
  below = λ last rest e. absurd (ground (arith, e));
}
before-Kept n depth safe (x ∷ xs) l b =
    let later = before-Kept n depth safe xs l.2 (omega (arith, b)) in
    elim (Bool-cases (ltb x.number n)) [
      | inl q ↦ rw q (record {
        linked = l;
        bounded = b;
        below = λ last rest e.
            subst (λ (y : BlockHeader). y.number < n) (head_eq x last xs rest e)
              (ground (arith, q));
      })
      | inr q ↦ rw q later
    ]

yielded-Kept :
    (n depth pending : ℕ) (safe : SafeBlock) (recent : List BlockHeader) (queue : List BlockUpdate)
    → Linked safe recent
    → length recent ≤ depth
    → pending ≡ (tip safe recent).number + 1
    → advance_all n queue ≡ some pending
    → Kept n depth safe (yielded queue recent)
unfolding yielded advance advance_all
yielded-Kept n depth pending safe recent [] l b p e = record {
  linked = l;
  bounded = b;
  below = λ last rest s.
      let at : pending ≡ last.number + 1 =
        subst (λ (r : List BlockHeader). pending ≡ (tip safe r).number + 1) s p in
      ground (arith, at, some_inj n pending e);
}
yielded-Kept n depth pending safe recent (new number hash bloom ∷ queue) l b p e =
    subst (λ (k : ℕ). Kept k depth safe (before number recent)) (ground (arith, e))
      (before-Kept number depth safe recent l b)
yielded-Kept n depth pending safe recent (_ ∷ queue) l b p e = record {
  linked = tt;
  bounded = ground arith;
  below = λ last rest s. absurd (ground (arith, s));
}

checked-IsFeeding :
    (lo n : ℕ) (w : BlockWatcher) (last : BlockHeader) (rest : List BlockHeader)
    (reply : Result ℕ (Option BlockHeader))
    → IsFeeding lo n w
    → lo ≤ w.safe.number
    → Linked w.safe (last ∷ rest)
    → suc (length rest) ≤ w.config.max_reorg_depth
    → last.number < n
    → IsFeeding lo n (checked w last rest reply).0
unfolding checked advance advance_all
checked-IsFeeding lo n w last rest (err e) f low l b k = f
checked-IsFeeding lo n w last rest (ok current) f low l b k =
    elim (Bool-cases (is_same_block current last)) [
      | inl q ↦ rw q f
      | inr q ↦ rw q (record {
        watching = back-IsWatching w last rest (uncle last.number ∷ []) l b;
        queued = ground (arith, k);
        deep = (omega (arith, low, safe-lt-kept w.safe last rest l), low);
      })
    ]

check_last-IsFeeding :
    (lo n : ℕ) (provider : Provider) (w : BlockWatcher) (blocks : List BlockHeader)
    → IsFeeding lo n w
    → Floor lo w.safe.number blocks
    → Kept n w.config.max_reorg_depth w.safe blocks
    → IsFeeding lo n (check_last provider w blocks).0
unfolding check_last
check_last-IsFeeding lo n provider w [] f low k = f
check_last-IsFeeding lo n provider w (last ∷ rest) f low k =
    checked-IsFeeding lo n w last rest (provider 0 (at_number last.number)) f low k.linked k.bounded
      (k.below last rest refl)

pub revalidate_last_block-IsFeeding :
    (lo n : ℕ) (provider : Provider) (w : BlockWatcher)
    → IsFeeding lo n w
    → IsFeeding lo n (revalidate_last_block provider w).0
unfolding revalidate_last_block
revalidate_last_block-IsFeeding lo n provider w f =
    check_last-IsFeeding lo n provider w (yielded w.queue w.recent) f
      (yielded-Floor lo w.safe.number w.queue w.recent f.deep)
      (yielded-Kept n w.config.max_reorg_depth w.pending.number w.safe w.recent w.queue
        f.watching.linked f.watching.bounded f.watching.expected f.queued)
