-- ===== src/Core/Machine/Reorg.antt =====
-- A reorg, seen from outside.
use shield_net.Prelude.{
  ℕ, ◌+◌, ◌≤◌, ◌<◌, ◌≡◌, ap, ◌∙◌, sym, true, Option, none, some, List, [], ◌∷◌, arith, Map, get,
  below, KeysBelow, below-insert, below-below, below_self, get-below, ok, Result-cases, inl, inr,
}
use shield_net.Core.Snapshots.{Codec, i64_max}
use shield_net.Core.Snapshots.Recover.{reorg-found}
use shield_net.Core.Machine.{
  Update, block, uncle, Message, Status, block_pending, Machine, process, on_uncle, accepts_uncle,
  update_inner, resume_inner, handle_update, handle_resume,
}
use shield_net.Core.Machine.Change.{
  Change, keep, cut, add, next_number, process-Change, IsAtLeast, next_number_floor,
}
use shield_net.Core.Machine.Invariant.{Input, update, resumed, feed, follow}

-- None of the inputs takes block `n - 1`, or one below it, off the chain.
abbrev pub AllAtLeast : {E R : Type 0} → ℕ → List (Input E R) → Type 0
AllAtLeast n [] = Unit
AllAtLeast n (update u ∷ rest) = IsAtLeast n u × AllAtLeast n rest
AllAtLeast n (resumed r ∷ rest) = AllAtLeast n rest

abbrev Reaches : {S : Type 0} → ℕ → Option (S × Status) → Type 0
Reaches n none = Unit
Reaches n (some (s, status)) = n ≤ next_number status

-- The machine that waits for the block after `parent`, in state `s`.
abbrev pub at_tip : {S T : Type 0} → Map T → S → ℕ → Machine S T
at_tip rows s parent = record { inner = some (s, block_pending (parent + 1)); snapshots = rows }

-- The rows below `n` are still `rows`.
record IsOver {S T : Type 0} (n : ℕ) (rows : Map T) (m : Machine S T) : Type 0 where
  same : below m.snapshots n ≡ rows
  reaches : Reaches n m.inner

Change-below :
    {T : Type 0} {m m' : Map T} {k k' : ℕ} (n : ℕ)
    → Change m k m' k'
    → n ≤ k
    → n ≤ k'
    → below m' n ≡ below m n
Change-below n (keep e l) h h' = ap (λ x. below x n) (sym e)
Change-below {m = m} {k' = k'} n (cut e l) h h' =
    ap (λ x. below x n) (sym e) ∙ below-below m k' n h'
Change-below {m = m} n (add j t l l' e) h h' =
    ap (λ x. below x n) (sym e) ∙ below-insert m j n t (omega arith)

module _ {S T E R C : Type 0} (codec : Codec S T)
    (apply_transition : S → Message E R → S × List C) where
  update_inner-IsOver :
      (n : ℕ) (kept rows : Map T) (inner : Option (S × Status)) (u : Update E)
      → IsAtLeast n u
      → below rows n ≡ kept
      → Reaches n inner
      → IsOver n kept (update_inner codec apply_transition inner rows u).0
  unfolding update_inner
  update_inner-IsOver n kept rows none u a e h = record { same = e; reaches = tt }
  update_inner-IsOver n kept rows (some (s, status)) u a e h =
      elim (Result-cases (process codec apply_transition s status rows u)) [
        | inl ((s', status', rows', cs), p) ↦
            let c = process-Change codec apply_transition s s' status status' rows rows' cs u p in
            let f =
              next_number_floor codec apply_transition s s' status status' rows rows' cs u n a h
                p in
            rw p (record { same = Change-below n c h f ∙ e; reaches = f })
        | inr (x, p) ↦ rw p (record { same = e; reaches = tt })
      ]

  resume_inner-IsOver :
      (n : ℕ) (kept rows : Map T) (inner : Option (S × Status)) (r : R)
      → below rows n ≡ kept
      → Reaches n inner
      → IsOver n kept (resume_inner codec apply_transition inner rows r).0
  unfolding resume_inner
  resume_inner-IsOver n kept rows none r e h = record { same = e; reaches = tt }
  resume_inner-IsOver n kept rows (some (s, status)) r e h = record { same = e; reaches = h }

  follow-IsOver :
      (n : ℕ) (kept : Map T) (m : Machine S T) (inputs : List (Input E R))
      → AllAtLeast n inputs
      → IsOver n kept m
      → IsOver n kept (follow codec apply_transition m inputs)
  unfolding follow feed handle_update handle_resume
  follow-IsOver n kept m [] a o = o
  follow-IsOver n kept m (update u ∷ rest) a o =
      follow-IsOver n kept (feed codec apply_transition m (update u)) rest a.1
        (update_inner-IsOver n kept m.snapshots m.inner u a.0 o.same o.reaches)
  follow-IsOver n kept m (resumed r ∷ rest) a o =
      follow-IsOver n kept (feed codec apply_transition m (resumed r)) rest a
        (resume_inner-IsOver n kept m.snapshots m.inner r o.same o.reaches)

  uncle_found :
      (rows : Map T) (parent : ℕ) (s s' : S) (status : Status) (t : T)
      → parent < i64_max
      → accepts_uncle status (parent + 1) ≡ true
      → get rows parent ≡ some t
      → codec.from_str t ≡ some s
      → update_inner codec apply_transition (some (s', status)) rows (block (uncle (parent + 1)))
        ≡ (
          record {
            inner = some (s, block_pending (parent + 1));
            snapshots = below rows (parent + 1);
          },
          ok [],
        )
  unfolding update_inner process on_uncle
  uncle_found rows parent s s' status t l a g d =
      ground (arith, reorg-found codec rows parent s t l g d)

  -- A reorg leaves no trace. Take a machine that waits for block `parent + 1`, with no row of its table
  -- above `parent`, and whose state is the one that the row at `parent` decodes to, `parent` below the
  -- largest i64. Give it any inputs, valid or not, but for uncles at or below `parent`. If it is then
  -- live and its status admits the uncle of block `parent + 1`, that update succeeds with no commands
  -- and gives back the machine that it was.
  pub uncle-follow :
      (rows : Map T) (inputs : List (Input E R)) (parent : ℕ) (s s' : S) (status : Status) (t : T)
      → KeysBelow (parent + 1) rows
      → get rows parent ≡ some t
      → codec.from_str t ≡ some s
      → parent < i64_max
      → AllAtLeast (parent + 1) inputs
      → (follow codec apply_transition (at_tip rows s parent) inputs).inner ≡ some (s', status)
      → accepts_uncle status (parent + 1) ≡ true
      → handle_update codec apply_transition
          (follow codec apply_transition (at_tip rows s parent) inputs)
          (block (uncle (parent + 1)))
        ≡ (at_tip rows s parent, ok [])
  unfolding handle_update
  uncle-follow rows inputs parent s s' status t b g d l a f acc =
      let m = follow codec apply_transition (at_tip rows s parent) inputs in
      let over : IsOver (parent + 1) rows m =
        follow-IsOver (parent + 1) rows (at_tip rows s parent) inputs a
          (record { same = below_self rows (parent + 1) b; reaches = omega arith }) in
      let found : get m.snapshots parent ≡ some t =
        ground (arith, get-below m.snapshots (parent + 1) parent, over.same) in
      rw f (
        uncle_found m.snapshots parent s s' status t l acc found d
        ∙ ap (λ x. (at_tip x s parent, ok [])) over.same)
