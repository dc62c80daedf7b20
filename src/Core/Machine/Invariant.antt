-- ===== src/Core/Machine/Invariant.antt =====
-- What holds of the machine between any two inputs, in any order and of any validity.
use shield_net.Prelude.{
  ℕ, ◌≡◌, refl, subst, Option, none, some, List, [], ◌∷◌, arith, Map, IsSorted, KeysBelow,
  KeysBelow-mono, insert-KeysBelow, below-KeysBelow, insert-IsSorted, below-IsSorted, err,
  Result-cases, inl, inr,
}
use shield_net.Core.Snapshots.{Codec}
use shield_net.Core.Machine.{
  Error, poisoned, Update, Message, Status, Machine, process, update_inner, resume_inner,
  handle_update, handle_resume,
}
use shield_net.Core.Machine.Change.{Change, keep, cut, add, next_number, process-Change}

-- What the driver gives the machine.
pub data Input (E R : Type 0) : Type 0 where
  update : Update E → Input E R
  resumed : R → Input E R

abbrev pub Tracks : {S T : Type 0} → Option (S × Status) → Map T → Type 0
Tracks none m = Unit
Tracks (some (s, status)) m = KeysBelow (next_number status) m

-- The table is sorted and lies below the block that comes next.
pub record IsTracked {S T : Type 0} (m : Machine S T) : Type 0 where
  pub sorted : IsSorted m.snapshots
  pub tracks : Tracks m.inner m.snapshots

module _ {T : Type 0} {m m' : Map T} {n n' : ℕ} where
  Change-IsSorted : Change m n m' n' → IsSorted m → IsSorted m'
  Change-IsSorted (keep e l) o = subst IsSorted e o
  Change-IsSorted (cut e l) o = subst IsSorted e (below-IsSorted m n' o)
  Change-IsSorted (add k t l l' e) o = subst IsSorted e (insert-IsSorted m k t o)

  Change-KeysBelow : Change m n m' n' → KeysBelow n m → KeysBelow n' m'
  Change-KeysBelow (keep e l) b = subst (KeysBelow n') e (KeysBelow-mono m n n' l b)
  Change-KeysBelow (cut e l) b = subst (KeysBelow n') e (below-KeysBelow m n')
  Change-KeysBelow (add k t l l' e) b =
      subst (KeysBelow n') e (insert-KeysBelow m n' k t l' (KeysBelow-mono m n n' (omega arith) b))

module _ {S T E R C : Type 0} (codec : Codec S T)
    (apply_transition : S → Message E R → S × List C) where
  unfoldable pub feed : Machine S T → Input E R → Machine S T
  feed m (update u) = (handle_update codec apply_transition m u).0
  feed m (resumed r) = (handle_resume codec apply_transition m r).0

  unfoldable pub follow : Machine S T → List (Input E R) → Machine S T
  follow m [] = m
  follow m (i ∷ rest) = follow (feed m i) rest

  update_inner-IsTracked :
      (inner : Option (S × Status)) (rows : Map T) (u : Update E)
      → IsSorted rows
      → Tracks inner rows
      → IsTracked (update_inner codec apply_transition inner rows u).0
  unfolding update_inner
  update_inner-IsTracked none rows u o t = record { sorted = o; tracks = tt }
  update_inner-IsTracked (some (s, status)) rows u o t =
      elim (Result-cases (process codec apply_transition s status rows u)) [
        | inl ((s', status', rows', cs), e) ↦
            let c = process-Change codec apply_transition s s' status status' rows rows' cs u e in
            rw e (record { sorted = Change-IsSorted c o; tracks = Change-KeysBelow c t })
        | inr (x, e) ↦ rw e (record { sorted = o; tracks = tt })
      ]

  resume_inner-IsTracked :
      (inner : Option (S × Status)) (rows : Map T) (r : R)
      → IsSorted rows
      → Tracks inner rows
      → IsTracked (resume_inner codec apply_transition inner rows r).0
  unfolding resume_inner
  resume_inner-IsTracked none rows r o t = record { sorted = o; tracks = tt }
  resume_inner-IsTracked (some (s, status)) rows r o t = record { sorted = o; tracks = t }

  pub feed-IsTracked : (m : Machine S T) (i : Input E R) → IsTracked m → IsTracked (feed m i)
  unfolding feed handle_update handle_resume
  feed-IsTracked m (update u) t = update_inner-IsTracked m.inner m.snapshots u t.sorted t.tracks
  feed-IsTracked m (resumed r) t = resume_inner-IsTracked m.inner m.snapshots r t.sorted t.tracks

  -- Whatever updates and resumes arrive, valid or not, if the snapshot table was sorted and, while the
  -- machine was live, lay below the block that comes next, so it is and does afterwards.
  pub follow-IsTracked :
      (m : Machine S T) (inputs : List (Input E R)) → IsTracked m → IsTracked (follow m inputs)
  unfolding follow
  follow-IsTracked m [] t = t
  follow-IsTracked m (i ∷ rest) t = follow-IsTracked (feed m i) rest (feed-IsTracked m i t)

  follow_poisoned :
      (rows : Map T) (inputs : List (Input E R))
      → follow (record { inner = none; snapshots = rows }) inputs
        ≡ record { inner = none; snapshots = rows }
  unfolding follow feed handle_update handle_resume
  follow_poisoned rows [] = refl
  follow_poisoned rows (update u ∷ rest) = follow_poisoned rows rest
  follow_poisoned rows (resumed r ∷ rest) = follow_poisoned rows rest

  update_inner_err :
      (inner : Option (S × Status)) (rows : Map T) (u : Update E) (e : Error)
      → (update_inner codec apply_transition inner rows u).1 ≡ err e
      → (update_inner codec apply_transition inner rows u).0
        ≡ record { inner = none; snapshots = rows }
  unfolding update_inner
  update_inner_err none rows u e h = refl
  update_inner_err (some (s, status)) rows u e h =
      elim (Result-cases (process codec apply_transition s status rows u)) [
        | inl (r, p) ↦ absurd (ground (arith, p))
        | inr (x, p) ↦ rw p
      ]

  -- After an update that failed, the machine has no state and every later input leaves it so, with the
  -- snapshot table as it was before the failure; each later update fails with `poisoned`.
  pub handle_update_halts :
      (m : Machine S T) (u v : Update E) (inputs : List (Input E R)) (e : Error)
      → (handle_update codec apply_transition m u).1 ≡ err e
      → let halted = follow (handle_update codec apply_transition m u).0 inputs in
        (halted ≡ record m { inner = none })
        × ((handle_update codec apply_transition halted v).1 ≡ err poisoned)
  unfolding handle_update
  handle_update_halts m u v inputs e h =
      rw (update_inner_err m.inner m.snapshots u e (unfold handle_update in h))
        (rw (follow_poisoned m.snapshots inputs) (refl, refl))
