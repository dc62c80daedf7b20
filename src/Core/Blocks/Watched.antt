-- ===== src/Core/Blocks/Watched.antt =====
-- crates/core/src/index/blocks.rs against crates/core/src/state/mod.rs: the calls of the watcher, from `initialize` on,
-- and the state machine that its updates go to.
use shield_net.Prelude.{
  ℕ, ◌+◌, ◌-◌, ◌≤◌, ◌<◌, ◌≡◌, sym, ap, subst, ◌∙◌, some, List, ◌∷◌, arith, ok, Bool-cases, inl, inr,
  Map, below, ltb,
}
use shield_net.Core.Snapshots.{BlockStatus, Codec, i64_max}
use shield_net.Core.Machine.{BlockUpdate, uncle, BlockRange, EventLog, Message, Machine}
use shield_net.Core.Machine.Invariant.{follow}
use shield_net.Core.Blocks.{latest, BlockHeader, Provider, Config, BlockWatcher}
use shield_net.Core.Blocks.Start.{initialize}
use shield_net.Core.Blocks.Linked.{IsWatching}
use shield_net.Core.Blocks.Guards.{advance, advance_all, retain, retain_all}
use shield_net.Core.Blocks.Feeding.{IsNumbered}
use shield_net.Core.Blocks.Accepted.{Fed, initialize-Resumes}
use shield_net.Core.Blocks.Driving.{Call, drive, AllNumbered, drive-IsAccepted, drive_first}
use shield_net.Core.Blocks.Logged.{
  inputs, IsOrdered, IsTotal, alive, Readable, below-Readable, handle_update-uncle,
}
use shield_net.Core.Blocks.Followed.{follow-inputs}

-- The machine is live, and works toward a block from which what is still queued leads to the awaited one. The kept
-- blocks are linked and no more than the depth of a reorg.
abbrev pub IsFollowed : {S T : Type 0} → Machine S T → BlockWatcher → Type 0
IsFollowed {S = S} {T = T} machine w =
    (m : ℕ) × (s : S) × (rows : Map T) × (machine ≡ alive s m rows)
    × IsWatching w
    × (advance_all m w.queue ≡ some w.pending.number)

module _ {S T E R C : Type 0} (codec : Codec S T) (apply_transition : S → Message E R → S × List C)
    (events : BlockRange → List (EventLog E)) (total : IsTotal codec) (ordered : IsOrdered events)
    (indexed : BlockStatus) (s : S) (rows : Map T) (found : Readable codec rows indexed.safe)
    (small : indexed.latest ≤ i64_max) where
  abbrev fed : List BlockUpdate → Machine S T
  fed updates =
      follow codec apply_transition (alive s (indexed.latest + 1) rows) (inputs events updates)

  abbrev IsLive : ℕ → Machine S T → Type 0
  IsLive m machine = (s' : S) × (rows' : Map T) × (machine ≡ alive s' m rows')

  -- The rollback to the first snapshot, and what comes after it.
  fed-back :
      (rest : List BlockUpdate) (l m : ℕ)
      → retain_all indexed.safe (uncle (indexed.safe + 1) ∷ rest) ≡ some l
      → advance_all (indexed.latest + 1) (uncle (indexed.safe + 1) ∷ rest) ≡ some m
      → indexed.safe < indexed.latest
      → IsLive m (fed (uncle (indexed.safe + 1) ∷ rest))
  unfolding follow inputs retain_all advance_all retain advance
  fed-back rest l m r a h =
      let (t, s', g, d) = found in
      let back =
        handle_update-uncle codec apply_transition s s' (indexed.latest + 1) indexed.safe rows t
          (omega (arith, h)) (omega (arith, h, small)) g d in
      let f =
        follow-inputs codec apply_transition events total ordered rest s' indexed.safe
          (indexed.safe + 1) (below rows (indexed.safe + 1)) l m
          (λ k i p.
            below-Readable codec rows (indexed.safe + 1) k p
              (subst (Readable codec rows) (omega (arith, i, p)) found))
          (omega (arith, h, small)) (ground (arith, r)) (ground (arith, a)) in
      (
        f.s,
        f.rows,
        ap (λ (x : Machine S T). follow codec apply_transition x (inputs events rest)) back
            ∙ f.same,
      )

  -- The only snapshot.
  fed-level :
      (updates : List BlockUpdate) (l m : ℕ)
      → retain_all indexed.safe updates ≡ some l
      → advance_all (indexed.latest + 1) updates ≡ some m
      → indexed.safe ≡ indexed.latest
      → IsLive m (fed updates)
  fed-level updates l m r a h =
      let f =
        follow-inputs codec apply_transition events total ordered updates s indexed.safe
          (indexed.latest + 1) rows l m
          (λ k i p. subst (Readable codec rows) (omega (arith, i, p, h)) found)
          (omega (arith, small)) r a in
      (f.s, f.rows, f.same)

  fed-IsLive :
      (calls : List Call) (w : BlockWatcher) (l m : ℕ)
      → Fed indexed w
      → indexed.safe ≤ indexed.latest
      → retain_all indexed.safe (drive calls w).1 ≡ some l
      → advance_all (indexed.latest + 1) (drive calls w).1 ≡ some m
      → IsLive m (fed (drive calls w).1)
  unfolding follow inputs advance_all
  fed-IsLive calls w l m f h r a = elim (Bool-cases (ltb indexed.safe indexed.latest)) [
    | inr q ↦ fed-level (drive calls w).1 l m r a (ground (arith, q, h))
    | inl q ↦
        let (queue, e) = f.first (ground (arith, q)) in
        elim (drive_first calls w (indexed.safe + 1) queue e) [
          | inl none_yet ↦
              let at : indexed.latest + 1 ≡ m = ground (arith, a, none_yet) in
              subst (λ (us : List BlockUpdate). IsLive m (fed us)) (sym none_yet)
                (s, rows, ap (λ (k : ℕ). alive s k rows) at)
          | inr (rest, e') ↦
              subst (λ (us : List BlockUpdate). IsLive m (fed us)) (sym e')
                (fed-back rest l m
                  (subst (λ (us : List BlockUpdate). retain_all indexed.safe us ≡ some l) e' r)
                  (subst (λ (us : List BlockUpdate). advance_all (indexed.latest + 1) us ≡ some m)
                    e' a)
                  (ground (arith, q)))
        ]
  ]

  -- Take a state machine that works toward the block after the last of its snapshots, whose first snapshot's row
  -- decodes, with states that encode and decode to themselves, and a watcher that `initialize` gives for
  -- those snapshots. The first of them is no later than the watcher's safe block, the last block less the
  -- depth of a reorg; the last snapshot's number fits in 63 bits, the last block's is below 2^63 - 1, and a
  -- provider answers a call for a number with a block only if the number is below that and the block's own.
  -- Whatever calls of `next` and `revalidate_last_block` follow, and whatever such providers answer then, the
  -- state machine takes every update that they yield without an error, the rollback of each uncle included,
  -- where the logs of an update's blocks come after it as one event update, in order. In the end the kept
  -- blocks are linked by their parents, no more than the depth of a reorg, and what is still queued leads the
  -- state machine, by its conditions on block numbers, to the block that the watcher waits for.
  pub follow-drive :
      (provider : Provider) (fuel : ℕ) (config : Config) (block_time : ℕ) (last : BlockHeader)
      (w : BlockWatcher) (calls : List Call)
      → IsNumbered provider
      → provider 0 latest ≡ ok (some last)
      → last.number < i64_max
      → indexed.safe ≤ indexed.latest
      → indexed.safe ≤ last.number - config.max_reorg_depth
      → initialize provider fuel config block_time (some indexed) ≡ some (ok w)
      → AllNumbered calls
      → IsFollowed
          (follow codec apply_transition
            (alive s (indexed.latest + 1) rows)
            (inputs events (drive calls w).1))
          (drive calls w).0
  follow-drive provider fuel config block_time last w calls numbered e top h k r a =
      let f =
        initialize-Resumes provider fuel config block_time (some indexed) last w numbered top e r h
          k small in
      let (l, m, kept, taken, feeding) =
        drive-IsAccepted calls indexed.safe (indexed.latest + 1) w a f.feeding in
      let (s', rows', same) = fed-IsLive calls w l m f h kept taken in
      (m, s', rows', same, feeding.watching, feeding.queued)
