-- ===== src/Core/Machine/Chain/Live.antt =====
-- crates/core/src/state/mod.rs: a machine that starts on an empty table is, while it is live, the replay of its
-- chain.
use shield_net.Prelude.{ℕ, ◌≡◌, refl, Option, none, some, get, List, [], ◌∷◌, arith, Map}
use shield_net.Core.Snapshots.{Codec}
use shield_net.Core.Snapshots.Recover.{RoundTrips}
use shield_net.Core.Machine.{Message, Status, initialized, Machine}
use shield_net.Core.Machine.Invariant.{Input, follow}
use shield_net.Core.Machine.Chain.{Chain, extend_all, replay, Follows, Refines}
use shield_net.Core.Machine.Chain.Refinement.{follow-Refines}

abbrev pub empty_chain : {E R : Type 0} → Chain E R
empty_chain = record { next = 0; history = [] }

abbrev pub messages : {E R : Type 0} → Map (Message E R) → List (Message E R)
messages [] = []
messages ((n, m) ∷ h) = m ∷ messages h

-- The machine of a first start.
abbrev pub fresh : {S T : Type 0} → S → Machine S T
fresh start = record { inner = some (start, initialized); snapshots = [] }

module _ {S T E R C : Type 0} (codec : Codec S T) (apply_transition : S → Message E R → S × List C)
    (start : S) where
  fresh-Refines : Refines codec apply_transition start (fresh start) empty_chain
  unfolding replay
  fresh-Refines = record {
    live = refl;
    at = refl;
    tags = tt;
    rows_below =
        λ (k : ℕ) (x : T) (g : get {V = T} [] k ≡ some x). absurd (unfold get in ground (arith, g));
    rows_replay =
        λ (k : ℕ) (x : T) (g : get {V = T} [] k ≡ some x). absurd (unfold get in ground (arith, g));
  }

  Follows-live :
      (inner : Option (S × Status)) (rows : Map T) (c : Chain E R) (s : S) (status : Status)
      → inner ≡ some (s, status)
      → Follows codec apply_transition start inner rows c
      → s ≡ replay apply_transition start c.history
  Follows-live none rows c s status e f = absurd (ground (arith, e))
  Follows-live (some (s', status')) rows c s status e f = ground (arith, e, f.live)

  pub follow-live :
      RoundTrips codec
      → (inputs : List (Input E R)) (s : S) (status : Status)
      → (follow codec apply_transition (fresh start) inputs).inner ≡ some (s, status)
      → s ≡ replay apply_transition start (extend_all empty_chain inputs).history
  follow-live trips inputs s status e =
      let m = follow codec apply_transition (fresh start) inputs in
      Follows-live m.inner m.snapshots (extend_all empty_chain inputs) s status e (
        follow-Refines codec apply_transition start trips (fresh start) empty_chain inputs
          fresh-Refines)
