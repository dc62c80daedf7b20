-- ===== src/Validator/Rollover/Service.antt =====
-- crates/validator over crates/core: the validator's transition, driven by the state machine of the indexer.
use shield_net.Prelude.{ℕ, ◌≡◌, refl, sym, subst, some, List, [], ◌∷◌, arith, Map}
use shield_net.Core.Snapshots.{Codec}
use shield_net.Core.Snapshots.Recover.{RoundTrips}
use shield_net.Core.Machine.{Message, Status}
use shield_net.Core.Machine.Invariant.{Input, follow}
use shield_net.Core.Machine.Chain.{Chain, extend_all, replay}
use shield_net.Core.Machine.Chain.Live.{empty_chain, messages, fresh, follow-live}
use shield_net.Validator.Epoch.{genesis, number}
use shield_net.Validator.Types.{RolloverState, State, Resume, Transition}
use shield_net.Validator.Dispatch.{Event, apply_transition}
use shield_net.Validator.Rollover.{IsAhead}
use shield_net.Validator.Rollover.Ahead.{apply_transition-IsAhead}
use shield_net.Validator.Rollover.Lineage.{
  History, WasReached, Run, here, further, active_epoch_lineage,
}

-- `State::default()`
abbrev pub default : State
default = record {
  rollover = RolloverState.waiting_for_genesis;
  active_epoch = genesis;
  epochs = [];
  signing = [];
  signature_id_to_message = [];
}

module _ (t : Transition) (start : State) where
  replay-Run :
      (h : Map (Message Event Resume))
      → Run t start (replay (apply_transition t) start h) (messages h)
  unfolding replay
  replay-Run [] = here
  replay-Run ((n, m) ∷ h) =
      further (replay (apply_transition t) start h) (messages h) m (replay-Run h)

  Run-IsAhead : (s : State) (h : History) → Run t start s h → IsAhead start → IsAhead s
  Run-IsAhead _ _ here a = a
  Run-IsAhead _ _ (further s h m r) a = apply_transition-IsAhead t s m (Run-IsAhead s h r a)

module _ {T : Type 0} (codec : Codec State T) (t : Transition) where
  -- Take a validator that starts fresh, with an encoding that decoding undoes, and is live after any updates and
  -- resumes. Its rollover has halted, or works toward an epoch after its active one, or both are genesis. And
  -- where epoch `n` is active, among the messages of the blocks still on the chain there is a block at or past
  -- the start of epoch `n`, before it the staging of a group by the consensus contract, and before that a
  -- participant's confirmation of that same group.
  pub service_lineage :
      RoundTrips codec
      → (inputs : List (Input Event Resume)) (s : State) (status : Status)
      → (follow codec (apply_transition t) (fresh default) inputs).inner ≡ some (s, status)
      → IsAhead s
        × ((n : ℕ)
            → s.active_epoch ≡ number n
            → WasReached t n (messages (extend_all empty_chain inputs).history))
  service_lineage trips inputs s status e =
      let c : Chain Event Resume = extend_all empty_chain inputs in
      let e : s ≡ replay (apply_transition t) default c.history =
        follow-live codec (apply_transition t) default trips inputs s status e in
      let r : Run t default s (messages c.history) =
        subst (λ (x : State). Run t default x (messages c.history)) (sym e)
          (replay-Run t default c.history) in
      (
        Run-IsAhead t default s (messages c.history) r refl,
        λ (n : ℕ) (a : s.active_epoch ≡ number n).
            active_epoch_lineage t default s (messages c.history) n r refl a
              (λ (x : genesis ≡ number n). ground (arith, x)),
      )
