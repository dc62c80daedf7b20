-- ===== src/Core/Blocks/Linked.antt =====
-- crates/core/src/index/blocks.rs: the blocks that the watcher keeps are a chain of parents.
use shield_net.Prelude.{
  ◌∙◌, ℕ, suc, ◌+◌, ◌%◌, ◌^◌, ◌≤◌, ◌<◌, ◌≡◌, refl, some, List, [], ◌∷◌, arith, length, ◌==◌, ltb,
  ==→eq, Result, ok, err, Bool-cases, inl, inr, u64_max,
}
use shield_net.Core.Machine.{BlockUpdate, uncle}
use shield_net.Core.Blocks.{
  BlockHeader, SafeBlock, BlockWatcher, next_pending, pending_again, new_of, Error,
  exceeded_max_reorg_depth, pop_oldest, accept, observe_pending, observe_from,
}

-- The last block, or the safe one.
abbrev pub tip : SafeBlock → List BlockHeader → SafeBlock
tip safe [] = safe
tip safe (b ∷ bs) = record { number = b.number; hash = b.hash }

-- Each block names the one below it as its parent, and their numbers are in sequence.
abbrev pub Linked : SafeBlock → List BlockHeader → Type 0
Linked safe [] = Unit
Linked safe (b ∷ bs) =
    ((tip safe bs).hash ≡ b.parent_hash) × (b.number ≡ (tip safe bs).number + 1) × Linked safe bs

-- The kept blocks are linked and no more than the depth of a reorg, and the next one is waited for.
pub record IsWatching (w : BlockWatcher) : Type 0 where
  pub linked : Linked w.safe w.recent
  pub expected : w.pending.number ≡ (tip w.safe w.recent).number + 1
  pub bounded : length w.recent ≤ w.config.max_reorg_depth

abbrev pub safe_of : BlockHeader → SafeBlock
safe_of b = record { number = b.number; hash = b.hash }

-- Blocks in sequence, whatever is below them.
abbrev pub Chained : List BlockHeader → Type 0
Chained [] = Unit
Chained (b ∷ []) = Unit
Chained (b ∷ c ∷ bs) = (c.hash ≡ b.parent_hash) × (b.number ≡ c.number + 1) × Chained (c ∷ bs)

Linked-Chained :
    (safe : SafeBlock) (recent : List BlockHeader) → Linked safe recent → Chained recent
Linked-Chained safe [] l = tt
Linked-Chained safe (b ∷ []) l = tt
Linked-Chained safe (b ∷ c ∷ bs) l = (l.0, l.1, Linked-Chained safe (c ∷ bs) l.2)

-- The oldest of some blocks, whose newest is `b`, becomes the safe one.
pub record Popped (b : BlockHeader) (recent : List BlockHeader) : Type 0 where
  pub oldest : BlockHeader
  pub rest : List BlockHeader
  pub pops : pop_oldest recent ≡ some (oldest, rest)
  pub linked : Linked (safe_of oldest) rest
  pub top_number : (tip (safe_of oldest) rest).number ≡ b.number
  pub top_hash : (tip (safe_of oldest) rest).hash ≡ b.hash
  pub size : length recent ≡ length rest + 1
  pub bottom : b.number ≡ oldest.number + length rest

pub pop_oldest-Popped :
    (b : BlockHeader) (bs : List BlockHeader) → Chained (b ∷ bs) → Popped b (b ∷ bs)
unfolding pop_oldest
pop_oldest-Popped b [] l = record {
  oldest = b;
  rest = [];
  pops = refl;
  linked = tt;
  top_number = refl;
  top_hash = refl;
  size = refl;
  bottom = omega arith;
}
pop_oldest-Popped b (c ∷ bs) l =
    let p = pop_oldest-Popped c bs l.2 in
    record {
      oldest = p.oldest;
      rest = b ∷ p.rest;
      pops = rw p.pops refl;
      linked = (p.top_hash ∙ l.0, omega (arith, p.top_number, l.1), p.linked);
      top_number = refl;
      top_hash = refl;
      size = omega (arith, p.size);
      bottom = omega (arith, p.bottom, l.1);
    }

tip-length :
    (safe : SafeBlock) (recent : List BlockHeader)
    → Linked safe recent
    → (tip safe recent).number ≡ safe.number + length recent
tip-length safe [] l = omega arith
tip-length safe (b ∷ bs) l = omega (arith, tip-length safe bs l.2, l.1)

pub safe-lt-kept :
    (safe : SafeBlock) (last : BlockHeader) (rest : List BlockHeader)
    → Linked safe (last ∷ rest)
    → safe.number < last.number
safe-lt-kept safe last rest l = omega (arith, tip-length safe rest l.2, l.1)

wrap_small : (n : ℕ) → n < 2 ^ 64 → n % 2 ^ 64 ≡ n
wrap_small n h = omega (arith, h)

module _ (w : BlockWatcher) (block : BlockHeader) where
  pub accept-IsWatching :
      IsWatching w
      → (tip w.safe w.recent).hash ≡ block.parent_hash
      → block.number ≡ w.pending.number
      → block.number < u64_max
      → IsWatching (accept w block)
  unfolding accept next_pending
  accept-IsWatching v h e b =
      let l : Linked w.safe (block ∷ w.recent) = (h, e ∙ v.expected, v.linked) in
      let p = pop_oldest-Popped block w.recent (Linked-Chained w.safe (block ∷ w.recent) l) in
      elim (Bool-cases (ltb w.config.max_reorg_depth (length (block ∷ w.recent)))) [
        | inl q ↦
            rw (q, p.pops)
              (record {
                linked = p.linked;
                expected = omega (arith, p.top_number, b);
                bounded = omega (arith, p.size, v.bounded);
              })
        | inr q ↦
            rw q (record { linked = l; expected = omega (arith, b); bounded = ground (arith, q) })
      ]

  pub accept-rises :
      IsWatching w
      → (tip w.safe w.recent).hash ≡ block.parent_hash
      → block.number ≡ w.pending.number
      → w.safe.number ≤ (accept w block).safe.number
  unfolding accept
  accept-rises v h e =
      let l : Linked w.safe (block ∷ w.recent) = (h, e ∙ v.expected, v.linked) in
      let p = pop_oldest-Popped block w.recent (Linked-Chained w.safe (block ∷ w.recent) l) in
      let far = tip-length w.safe w.recent v.linked in
      elim (Bool-cases (ltb w.config.max_reorg_depth (length (block ∷ w.recent)))) [
        | inl q ↦ rw (q, p.pops) (omega (arith, p.size, p.bottom, far, l.1))
        | inr q ↦ rw q (omega arith)
      ]

  observe_split :
      (P : BlockWatcher × Result Error BlockUpdate → Type 0) (recent : List BlockHeader)
      → w.recent ≡ recent
      → ((last : BlockHeader) (rest : List BlockHeader)
          → w.recent ≡ last ∷ rest
          → P (record w { recent = rest; pending = pending_again last }, ok (uncle last.number)))
      → P (w, err (exceeded_max_reorg_depth w.config.max_reorg_depth))
      → ((tip w.safe w.recent).hash ≡ block.parent_hash → P (accept w block, ok (new_of block)))
      → P (observe_from w block recent)
  unfolding observe_from
  observe_split P (last ∷ rest) e back fail join =
      elim (Bool-cases (last.hash == block.parent_hash)) [
        | inl q ↦ rw q (join (rw e (==→eq last.hash block.parent_hash q)))
        | inr q ↦ rw q (back last rest e)
      ]
  observe_split P [] e back fail join = elim (Bool-cases (w.safe.hash == block.parent_hash)) [
    | inl q ↦ rw q (join (rw e (==→eq w.safe.hash block.parent_hash q)))
    | inr q ↦ rw q fail
  ]

  -- The watcher goes back to a block of its own, fails, or joins a block that the last one is the parent of.
  pub observe_pending_cases :
      (P : BlockWatcher × Result Error BlockUpdate → Type 0)
      → ((last : BlockHeader) (rest : List BlockHeader)
          → w.recent ≡ last ∷ rest
          → P (record w { recent = rest; pending = pending_again last }, ok (uncle last.number)))
      → P (w, err (exceeded_max_reorg_depth w.config.max_reorg_depth))
      → ((tip w.safe w.recent).hash ≡ block.parent_hash → P (accept w block, ok (new_of block)))
      → P (observe_pending w block)
  unfolding observe_pending
  observe_pending_cases P = observe_split P w.recent refl

-- Going back to a kept block.
pub back-IsWatching :
    (w : BlockWatcher) (last : BlockHeader) (rest : List BlockHeader) (queue : List BlockUpdate)
    → Linked w.safe (last ∷ rest)
    → suc (length rest) ≤ w.config.max_reorg_depth
    → IsWatching (record w { recent = rest; pending = pending_again last; queue = queue })
back-IsWatching w last rest queue l b = record {
  linked = l.2;
  expected = l.1;
  bounded = omega (arith, b);
}
