-- ===== src/Sentinel/Service.antt =====
-- crates/sentinel over crates/core: the sentinel's transition, driven by the state machine of the indexer.
use shield_net.Prelude.{ℕ, ◌≡◌, refl, sym, ap, ◌∙◌, Bool, some, get, List, [], ◌∷◌, Map}
use shield_net.Core.Snapshots.{Codec}
use shield_net.Core.Snapshots.Recover.{RoundTrips}
use shield_net.Core.Machine.{Message, Status}
use shield_net.Core.Machine.Invariant.{Input, follow}
use shield_net.Core.Machine.Chain.{Chain, extend_all, replay}
use shield_net.Core.Machine.Chain.Live.{empty_chain, messages, fresh, follow-live}
use shield_net.Sentinel.Types.{B256, SentinelRequestState, State, Resume, approve_and_slash_amount}
use shield_net.Sentinel.Events.{SentinelEvents}
use shield_net.Sentinel.Hashing.{SentinelTransition}
use shield_net.Sentinel.Dispatch.{apply_transition}
use shield_net.Sentinel.Runs.{run}
use shield_net.Sentinel.Evidence.{Bonded, approve_and_slash_amount-Bonded}

-- `State::default()`
abbrev pub default : State
default = []

replay-run :
    (t : SentinelTransition) (h : Map (Message SentinelEvents Resume))
    → replay (apply_transition t) default h ≡ (run t (messages h)).0
unfolding replay run
replay-run t [] = refl
replay-run t ((n, m) ∷ h) = ap (λ (s : State). (apply_transition t s m).0) (replay-run t h)

module _ {T : Type 0} (codec : Codec State T) (t : SentinelTransition) where
  -- Take a sentinel that starts fresh, with an encoding that decoding undoes, and is live after any updates and
  -- resumes. Where it counts a request as bonded, for a vote and a slash amount, then among the messages of the
  -- blocks still on the chain there is its own commitment to the request; before that the engine's answer with
  -- that vote, and the opening of the request with that slash amount; and before each of these the proposal of
  -- the request to this oracle.
  pub service_bonds :
      RoundTrips codec
      → (inputs : List (Input SentinelEvents Resume)) (s : State) (status : Status) (id : B256)
        (entry : SentinelRequestState) (approve : Bool) (slash_amount : ℕ)
      → (follow codec (apply_transition t) (fresh default) inputs).inner ≡ some (s, status)
      → get s id ≡ some entry
      → approve_and_slash_amount entry ≡ some (approve, slash_amount)
      → Bonded t id approve slash_amount (messages (extend_all empty_chain inputs).history)
  service_bonds trips inputs s status id entry approve slash_amount e g b =
      let c : Chain SentinelEvents Resume = extend_all empty_chain inputs in
      let same : s ≡ (run t (messages c.history)).0 =
        follow-live codec (apply_transition t) default trips inputs s status e
        ∙ replay-run t c.history in
      approve_and_slash_amount-Bonded t id (messages c.history) entry approve slash_amount
        (ap (λ (x : State). get x id) (sym same) ∙ g) b
