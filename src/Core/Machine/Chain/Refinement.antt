-- ===== src/Core/Machine/Chain/Refinement.antt =====
-- The state machine as an implementation of the chain.
use shield_net.Prelude.{Option, none, some, List, [], ◌∷◌, arith, Map, Result-cases, inl, inr}
use shield_net.Core.Snapshots.{Codec}
use shield_net.Core.Snapshots.Recover.{RoundTrips}
use shield_net.Core.Machine.{
  Update, Message, resume, Status, Machine, process, update_inner, resume_inner, handle_update,
  handle_resume,
}
use shield_net.Core.Machine.Invariant.{Input, update, resumed, feed, follow}
use shield_net.Core.Machine.Chain.{Chain, extend, extend_all, Follows, Refines}
use shield_net.Core.Machine.Chain.Steps.{push-Implements, process-Implements}

module _ {S T E R C : Type 0} (codec : Codec S T) (apply_transition : S → Message E R → S × List C)
    (start : S) where
  update_inner-Refines :
      RoundTrips codec
      → (inner : Option (S × Status)) (rows : Map T) (c : Chain E R) (u : Update E)
      → Follows codec apply_transition start inner rows c
      → Refines codec apply_transition start
          (update_inner codec apply_transition inner rows u).0
          (extend c (update u))
  unfolding update_inner
  update_inner-Refines trips none rows c u i = tt
  update_inner-Refines trips (some (s, status)) rows c u i =
      elim (Result-cases (process codec apply_transition s status rows u)) [
        | inl ((s', status', rows', cs), e) ↦ rw e (
            process-Implements codec apply_transition start s status rows c i trips s' status' rows'
              cs u e)
        | inr (x, e) ↦ rw e tt
      ]

  resume_inner-Refines :
      (inner : Option (S × Status)) (rows : Map T) (c : Chain E R) (r : R)
      → Follows codec apply_transition start inner rows c
      → Refines codec apply_transition start
          (resume_inner codec apply_transition inner rows r).0
          (extend c (resumed r))
  unfolding resume_inner extend
  resume_inner-Refines none rows c r i = tt
  resume_inner-Refines (some (s, status)) rows c r i =
      push-Implements codec apply_transition start s status rows c i status c.next (resume r)
        (omega arith) i.at

  feed-Refines :
      RoundTrips codec
      → (m : Machine S T) (c : Chain E R) (i : Input E R) → Refines codec apply_transition start m c
      → Refines codec apply_transition start (feed codec apply_transition m i) (extend c i)
  unfolding feed handle_update handle_resume
  feed-Refines trips m c (update u) f = update_inner-Refines trips m.inner m.snapshots c u f
  feed-Refines trips m c (resumed r) f = resume_inner-Refines m.inner m.snapshots c r f

  -- Where decoding undoes encoding: from a machine that refines a chain, after any updates and resumes, valid or
  -- not, the machine has poisoned itself or refines the chain that the same inputs give. So its state is the
  -- replay of the chain's messages, where an uncle of block `n` has dropped the messages of `n` and later, and
  -- each row of its table, at a block `k`, decodes to the replay of the messages up to `k`.
  pub follow-Refines :
      RoundTrips codec
      → (m : Machine S T) (c : Chain E R) (inputs : List (Input E R))
      → Refines codec apply_transition start m c
      → Refines codec apply_transition start
          (follow codec apply_transition m inputs)
          (extend_all c inputs)
  unfolding follow extend_all
  follow-Refines trips m c [] f = f
  follow-Refines trips m c (i ∷ rest) f =
      follow-Refines trips (feed codec apply_transition m i) (extend c i) rest
        (feed-Refines trips m c i f)
