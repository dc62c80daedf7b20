-- ===== src/Core/Blocks/Steady.antt =====
-- crates/core/src/index/blocks.rs: the scan of `initialize` ends on a chain that does not change.
use shield_net.Prelude.{
  ℕ, suc, zero, ◌+◌, ◌-◌, ◌≤◌, ◌<◌, ◌≡◌, refl, sym, ap, subst, ◌∙◌, true, false, Option, some, List,
  [], ◌∷◌, arith, ltb, ◌==◌, ==-refl, ==→eq, ok, Bool-cases, Option-cases, inl, inr, u64_max,
}
use shield_net.Core.Snapshots.{BlockStatus}
use shield_net.Core.Blocks.{
  latest, at_number, BlockHeader, Provider, Config, BlockWatcher, pop_oldest,
}
use shield_net.Core.Blocks.Start
use shield_net.Core.Blocks.Start.{require_block, links, rescan, scan, anchored, started, initialize}
use shield_net.Core.Blocks.Starting.{wrap_next}
use shield_net.Core.Blocks.Accepted.{initialize-started, safe_number}

-- The provider answers with the blocks of one chain, up to its last one.
pub record IsSteady (provider : Provider) (chain : ℕ → BlockHeader) (last : ℕ) : Type 0 where
  pub newest : provider 0 latest ≡ ok (some (chain last))
  pub blocks : (calls k : ℕ) → k ≤ last → provider calls (at_number k) ≡ ok (some (chain k))
  pub number : (k : ℕ) → (chain k).number ≡ k
  pub parent : (k : ℕ) → (chain k).hash ≡ (chain (k + 1)).parent_hash

pop_oldest-some :
    (b : BlockHeader) (bs : List BlockHeader)
    → (r : BlockHeader × List BlockHeader) × (pop_oldest (b ∷ bs) ≡ some r)
unfolding pop_oldest
pop_oldest-some b bs = elim (Option-cases (pop_oldest bs)) [
  | inl q ↦ ((b, []), rw q refl)
  | inr ((oldest, rest), q) ↦ ((oldest, b ∷ rest), rw q refl)
]

module _ (provider : Provider) (safe : ℕ) (last : BlockHeader) (recent : List BlockHeader)
    (small : last.number < u64_max) where
  scan_last :
      (fuel calls number : ℕ)
      → number ≡ last.number
      → links recent last ≡ true
      → scan provider (suc (suc fuel)) calls safe last number recent ≡ some (ok (last ∷ recent))
  unfolding scan rescan
  scan_last fuel calls number e l =
      let q : (number == last.number) ≡ true = ground (arith, e) in
      let p : ltb last.number (number + 1) ≡ true = ground (arith, e) in
      rw (q, l, wrap_next number last.number (omega (arith, e)) small, p) refl

  scan_next :
      (fuel calls number : ℕ) (block : BlockHeader)
      → (number == last.number) ≡ false
      → number ≤ last.number
      → provider calls (at_number number) ≡ ok (some block)
      → links recent block ≡ true
      → scan provider (suc fuel) calls safe last number recent
        ≡ scan provider fuel (calls + 1) safe last (number + 1) (block ∷ recent)
  unfolding scan require_block
  scan_next fuel calls number block q h e l =
      rw (q, e, l, wrap_next number last.number h small) refl

module _ (provider : Provider) (chain : ℕ → BlockHeader) (last : ℕ)
    (steady : IsSteady provider chain last) (small : last < u64_max) where
  newest_small : (chain last).number < u64_max
  newest_small = omega (arith, steady.number last, small)

  scan-chain :
      (fuel calls safe number : ℕ) (recent : List BlockHeader)
      → number ≤ last
      → last + 1 < number + fuel
      → links recent (chain number) ≡ true
      → (blocks : List BlockHeader) × (scan provider fuel calls safe (chain last) number recent
          ≡ some (ok (chain last ∷ blocks)))
  scan-chain zero calls safe number recent h b l = absurd (omega (arith, h, b))
  scan-chain (suc zero) calls safe number recent h b l = absurd (omega (arith, h, b))
  scan-chain (suc (suc fuel)) calls safe number recent h b l = elim (Bool-cases (number == last)) [
    | inl q ↦
        let e : number ≡ last = ==→eq number last q in
        (
          recent,
          scan_last provider safe (chain last) recent newest_small fuel calls number
              (e ∙ sym (steady.number last)) (ap (λ (k : ℕ). links recent (chain k)) (sym e) ∙ l),
        )
    | inr q ↦
        let more =
          scan-chain (suc fuel) (calls + 1) safe (number + 1) (chain number ∷ recent)
            (ground (arith, q, h)) (omega (arith, b))
            (subst (λ (x : ℕ). ((chain number).hash == x) ≡ true) (steady.parent number)
              (==-refl (chain number).hash)) in
        (
          more.0,
          scan_next provider safe (chain last) recent newest_small (suc fuel) calls number
                (chain number) (rw (steady.number last) q) (omega (arith, steady.number last, h))
                (steady.blocks calls number h) l
              ∙ more.1,
        )
  ]

  started_chain :
      (config : Config) (block_time : ℕ) (indexed : Option BlockStatus) (newest : BlockHeader)
      (safe : ℕ) (b : BlockHeader) (bs : List BlockHeader)
      → (w : BlockWatcher) × (started config block_time indexed newest safe (some (ok (b ∷ bs)))
          ≡ some (ok w))
  unfolding started anchored
  started_chain config block_time indexed newest safe b bs =
      let (r, q) = pop_oldest-some b bs in
      (_, ap (anchored config block_time indexed newest safe) q)

  -- Where the provider answers with the blocks of one chain, linked by their parents, whose last number is below
  -- 2^64 - 1, `initialize` gives a watcher, whatever snapshots there are, and its scan takes no more steps
  -- than one more than there are blocks from the safe one to the last.
  pub initialize_ends :
      (config : Config) (block_time : ℕ) (indexed : Option BlockStatus)
      → (w : BlockWatcher) × (initialize provider
            (last - (last - config.max_reorg_depth) + 2)
            config
            block_time
            indexed
          ≡ some (ok w))
  initialize_ends config block_time indexed =
      let fuel = last - (last - config.max_reorg_depth) + 2 in
      let safe = safe_number config (chain last) in
      let found =
        scan-chain fuel 1 safe safe [] (omega (arith, steady.number last))
          (omega (arith, steady.number last)) refl in
      let started =
        started_chain config block_time indexed (chain last) safe (chain last) found.0 in
      (
        started.0,
        initialize-started provider fuel config block_time indexed (chain last) steady.newest
            ∙ (ap (Start.started config block_time indexed (chain last) safe) found.1 ∙ started.1),
      )
