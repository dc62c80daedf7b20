-- ===== src/Validator/Links/Runs.antt =====
-- The signing ceremonies of transactions as runs of the handlers, in any order.
use shield_net.Prelude.{ℕ, ◌≡◌, subst, none, get}
use shield_net.Validator.Types.{
  B256, Address, State, SignEvent, SignRevealedNonces, SignShared, OracleResult,
  TransactionProposed, TransactionAttested, Transition,
}
use shield_net.Validator.Sign.{
  handle_sign, handle_oracle_result, handle_sign_revealed_nonces, handle_sign_shared,
  handle_sign_completed, handle_transaction_proposed, handle_transaction_attested,
}
use shield_net.Validator.Timeouts.{handle_signing_timeouts}
use shield_net.Validator.Progress.{timeouts-IsSorted}
use shield_net.Validator.Links.{Linked}
use shield_net.Validator.Links.Handlers.{
  handle_sign-Linked, handle_oracle_result-Linked, handle_sign_revealed_nonces-Linked,
  handle_sign_shared-Linked, handle_sign_completed-Linked, handle_transaction_proposed-Linked,
  handle_transaction_attested-Linked,
}
use shield_net.Validator.Links.Sorted.{
  Ordered, handle_sign-Ordered, handle_oracle_result-Ordered, handle_sign_revealed_nonces-Ordered,
  handle_sign_shared-Ordered, handle_sign_completed-Ordered, handle_transaction_proposed-Ordered,
  handle_transaction_attested-Ordered,
}
use shield_net.Validator.Links.Expired.{handle_signing_timeouts-Linked}

-- One event, or one block's pass over the deadlines. The coordinator gives every sign request a signature id
-- of its own.
pub data Step (t : Transition) (s s' : State) : Type 0 where
  proposed :
      (block : ℕ) (event : TransactionProposed)
      → (handle_transaction_proposed t s block event).0 ≡ s'
      → Step t s s'
  sign :
      (block : ℕ) (event : SignEvent)
      → get s.signature_id_to_message event.sid ≡ none
      → (handle_sign t s block event).0 ≡ s'
      → Step t s s'
  oracle :
      (block : ℕ) (oracle : Address) (event : OracleResult)
      → (handle_oracle_result t s block oracle event).0 ≡ s'
      → Step t s s'
  revealed :
      (block : ℕ) (event : SignRevealedNonces)
      → (handle_sign_revealed_nonces t s block event).0 ≡ s'
      → Step t s s'
  shared : (event : SignShared) → (handle_sign_shared s event).0 ≡ s' → Step t s s'
  completed : (block : ℕ) (sid : B256) → (handle_sign_completed t s block sid).0 ≡ s' → Step t s s'
  attested :
      (event : TransactionAttested) → (handle_transaction_attested t s event).0 ≡ s' → Step t s s'
  timeouts : (block : ℕ) → (handle_signing_timeouts t s block).0 ≡ s' → Step t s s'

pub data Reaches (t : Transition) (s : State) : State → Type 0 where
  here : Reaches t s s
  further : (s' s'' : State) → Reaches t s s' → Step t s' s'' → Reaches t s s''

module _ (t : Transition) (s s' : State) where
  Step-Ordered : Step t s s' → Ordered s → Ordered s'
  Step-Ordered (proposed block event e) o =
      subst Ordered e (handle_transaction_proposed-Ordered t s o block event)
  Step-Ordered (sign block event f e) o = subst Ordered e (handle_sign-Ordered t s o block event)
  Step-Ordered (oracle block x event e) o =
      subst Ordered e (handle_oracle_result-Ordered t s o block x event)
  Step-Ordered (revealed block event e) o =
      subst Ordered e (handle_sign_revealed_nonces-Ordered t s o block event)
  Step-Ordered (shared event e) o = subst Ordered e (handle_sign_shared-Ordered t s o event)
  Step-Ordered (completed block sid e) o =
      subst Ordered e (handle_sign_completed-Ordered t s o block sid)
  Step-Ordered (attested event e) o =
      subst Ordered e (handle_transaction_attested-Ordered t s o event)
  Step-Ordered (timeouts block e) o = subst Ordered e (timeouts-IsSorted t s block o)

  Step-Linked : Step t s s' → Ordered s → Linked s → Linked s'
  Step-Linked (proposed block event e) o h =
      subst Linked e (handle_transaction_proposed-Linked t s h block event)
  Step-Linked (sign block event f e) o h = subst Linked e (handle_sign-Linked t s h block event f)
  Step-Linked (oracle block x event e) o h =
      subst Linked e (handle_oracle_result-Linked t s h block x event)
  Step-Linked (revealed block event e) o h =
      subst Linked e (handle_sign_revealed_nonces-Linked t s h block event)
  Step-Linked (shared event e) o h = subst Linked e (handle_sign_shared-Linked t s h event)
  Step-Linked (completed block sid e) o h =
      subst Linked e (handle_sign_completed-Linked t s h block sid)
  Step-Linked (attested event e) o h =
      subst Linked e (handle_transaction_attested-Linked t s h event)
  Step-Linked (timeouts block e) o h = subst Linked e (handle_signing_timeouts-Linked t s block o h)

-- In every run of the signing handlers of transactions, from a state whose sessions are sorted and linked, the
-- sessions stay sorted, each session with a signature id is found under it in the index, and each entry of the
-- index leads to the session with that signature id. The order of the events is free, and their data too, but for
-- the sign requests, each of which brings a signature id that is not in the index.
pub reached-Linked :
    (t : Transition) (s s' : State) → Reaches t s s' → Ordered s → Linked s → Ordered s' × Linked s'
reached-Linked t s _ here o h = (o, h)
reached-Linked t s s' (further m _ r step) o h =
    let (o', h') = reached-Linked t s m r o h in
    (Step-Ordered t m s' step o', Step-Linked t m s' step o' h')
