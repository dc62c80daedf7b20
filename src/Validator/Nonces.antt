-- ===== src/Validator/Nonces.antt =====
-- crates/validator/src/state/preprocess.rs: the canonical nonce state and its handlers.
pub mod Supply
use shield_net.Prelude.{
  ℕ, suc, ◌+◌, ◌-◌, ◌*◌, ◌/◌, ◌%◌, ◌≤◌, ◌<◌, ◌≡◌, refl, Bool, true, false, Option, none, some, List,
  [], ◌∷◌, arith, leb, ltb, ◌==◌, if◌then◌else◌, Map, get, insert, split_off, last_key_value,
  saturating_add, checked_add,
}
use shield_net.Validator.Epoch.{EpochId, raw_value, min_epoch}
use shield_net.Validator.Types.{
  B256, Address, KeyShare, NonceState, NonceIndex, Epoch, Group, State, RolloverState, SigningState,
  Packet, KeyGenCommitment, KeyGenParticipation, KeyGenConfirmation, Command, action, effect,
  Action, Effect, PreprocessEvent, Transition, collecting_confirmations, signing_rollover,
  collecting_commitments, collecting_shares,
}

-- frost/preprocess.rs
abbrev pub sequence_chunk_size : ℕ
sequence_chunk_size = 1024

abbrev pub decode_sequence : ℕ → ℕ × ℕ
decode_sequence sequence = (sequence / sequence_chunk_size, sequence % sequence_chunk_size)

abbrev pub nonce_topup_threshold : ℕ
nonce_topup_threshold = 100

-- `get(&chunk).copied().flatten().map(|root| NonceIndex { root, offset })`
abbrev pub linked_nonce : Option (Option B256) → ℕ → Option NonceIndex
linked_nonce (some (some root)) offset = some (record { root = root; offset = offset })
linked_nonce _ offset = none

unfoldable pub observe : NonceState → ℕ → NonceState × Option NonceIndex
unfolding saturating_add
observe n sequence =
    let next = saturating_add sequence 1 in
    (
      record { next_sequence = next; chunks = split_off n.chunks (decode_sequence next).0 },
      linked_nonce (get n.chunks (decode_sequence sequence).0) (decode_sequence sequence).1,
    )

abbrev pub max_chunk : Option ℕ → ℕ → Option ℕ
max_chunk none chunk = none
max_chunk (some next) chunk = some (if ltb next chunk then chunk else next)

unfoldable pub next_chunk : Option (ℕ × Option B256) → ℕ → Option ℕ
unfolding checked_add
next_chunk none chunk = some chunk
next_chunk (some (last, root)) chunk = max_chunk (checked_add last 1) chunk

unfoldable pub expected_chunk : NonceState → Option ℕ
unfolding next_chunk
expected_chunk n = next_chunk (last_key_value n.chunks) (decode_sequence n.next_sequence).0

unfoldable pub reserve_chunk : NonceState → NonceState × Option ℕ
reserve_chunk n = elim (expected_chunk n) [
  | none ↦ (n, none)
  | some chunk ↦ (record n { chunks = insert n.chunks chunk none }, some chunk)
]

unfoldable pub link : NonceState → ℕ → B256 → NonceState
link n chunk root = record n { chunks = insert n.chunks chunk (some root) }

abbrev pub is_reservation : Option (ℕ × Option B256) → Bool
is_reservation (some (k, none)) = true
is_reservation _ = false

unfoldable pub ensure_chunk_reservation : NonceState → NonceState
unfolding reserve_chunk
ensure_chunk_reservation n =
    if is_reservation (last_key_value n.chunks) then n else (reserve_chunk n).0

-- The sum over the chunks from `chunk` on.
unfoldable pub capacity : Map (Option B256) → ℕ → ℕ → ℕ
capacity [] chunk offset = 0
capacity ((key, root) ∷ rest) chunk offset =
    (if key == chunk then sequence_chunk_size - offset else sequence_chunk_size)
    + capacity rest chunk offset

unfoldable pub available : NonceState → ℕ
unfolding capacity
available n =
    let (chunk, offset) = decode_sequence n.next_sequence in
    capacity (split_off n.chunks chunk) chunk offset

-- `epochs.values_mut().find(|epoch| epoch.group.id() == group_id)`, with a change of the epoch found.
-- The second component says whether there was one.
unfoldable pub update_group : (NonceState → NonceState) → B256 → Map Epoch → Map Epoch × Bool
update_group f group_id [] = ([], false)
update_group f group_id ((k, e) ∷ rest) =
    let (rest', found) = update_group f group_id rest in
    if e.group.id == group_id
    then ((k, record e { nonces = f e.nonces }) ∷ rest, true)
    else ((k, e) ∷ rest', found)
