-- ===== src/Validator/Links.antt =====
-- The index from signature ids to messages, against the sessions.
pub mod Moves
pub mod Sessions
pub mod Sorted
pub mod Handlers
pub mod Expired
pub mod Runs
use shield_net.Prelude.{ℕ, ◌≡◌, Option, none, some, Map, get, IsSorted}
use shield_net.Validator.Types.{B256, SigningState, State}
use shield_net.Validator.Sign.{signature_id}

-- Every session that has a signature id is found under it, and every link leads to such a session.
pub record IsLinked (signing : Map SigningState) (index : Map B256) : Type 0 where
  pub found :
      (m sid : B256) (st : SigningState)
      → get signing m ≡ some st
      → signature_id st ≡ some sid
      → get index sid ≡ some m
  pub leads :
      (m sid : B256)
      → get index sid ≡ some m
      → (st : SigningState) × (get signing m ≡ some st) × (signature_id st ≡ some sid)

abbrev pub Linked : State → Type 0
Linked s = IsLinked s.signing s.signature_id_to_message
