-- ===== src/Validator/Timeouts.antt =====
-- crates/validator/src/state/sign.rs, `handle_signing_timeouts`: the pass over the sessions whose deadline
-- has come. The closure of `retain` is `expire`; it mutates the index and the commands as it goes, which
-- is the state that `sweep` passes along.
pub mod Sweep
use shield_net.Prelude.{
  ℕ, zero, suc, ltb, leb, ◌==◌, Bool, true, false, not, ◌&&◌, ◌||◌, Option, none, some, List, [],
  ◌∷◌, ◌++◌, if◌then◌else◌, Map, get, insert, remove, length, contains_key, saturating_add,
  eq_option,
}
use shield_net.Validator.Types.{
  B256, Address, KeyShare, Opaque, Set, NonceIndex, Packet, SigningSelection, SigningState,
  waiting_for_request, waiting_for_oracle, collect_nonce_commitments, collect_signing_shares,
  waiting_for_attestation, State, Command, action, Action, Transition,
}
use shield_net.Validator.Packets.{attestation_action}

abbrev pub deadline : SigningState → ℕ
deadline (waiting_for_request _ _ _ _ _ d) = d
deadline (waiting_for_oracle _ _ _ _ _ _ _ d) = d
deadline (collect_nonce_commitments _ _ _ _ _ _ _ _ d) = d
deadline (collect_signing_shares _ _ _ _ _ _ _ d) = d
deadline (waiting_for_attestation _ _ d) = d

-- What becomes of one session: its new state, if it is retained, the signature id that is unlinked and
-- the commands that are queued.
pub record Expiry : Type 0 where
  pub kept : Option SigningState
  pub unlinked : Option B256
  pub commands : List Command

abbrev pub dropped : Option B256 → Expiry
dropped unlinked = record { kept = none; unlinked = unlinked; commands = [] }

-- `signers.len() < threshold || !signers.contains(&self.account)`
unfoldable pub cannot_continue : Transition → KeyShare → Set → Bool
cannot_continue t key_share signers =
    ltb (length signers) (t.group_threshold key_share) || not (contains_key signers t.account)

unfoldable pub restart_signing_ceremony :
    Transition → ℕ → KeyShare → B256 → B256 → Set → B256 → Packet → Option Address → Expiry
unfolding cannot_continue
restart_signing_ceremony t next key_share group_id signature_id signers message packet last_signer =
    if cannot_continue t key_share signers then dropped (some signature_id) else record {
      kept = some (waiting_for_request key_share group_id last_signer packet signers next);
      unlinked = some signature_id;
      commands =
          if eq_option last_signer (some t.account)
          then action (Action.sign group_id message next) ∷ []
          else [];
    }

-- `signers.retain(|signer| revealed.contains_key(signer))`
unfoldable pub retain_revealed : Map Opaque → Set → Set
retain_revealed revealed [] = []
retain_revealed revealed ((signer, u) ∷ rest) =
    let rest' = retain_revealed revealed rest in
    if contains_key revealed signer then (signer, u) ∷ rest' else rest'

abbrev pub no_selection : SigningSelection
no_selection = record { shares_from = []; last_signer = none }

-- `filter(len >= threshold).max_by_key(len)`: the last of the largest.
unfoldable pub largest_selection :
    ℕ → Option SigningSelection → Map SigningSelection → Option SigningSelection
largest_selection threshold best [] = best
largest_selection threshold best ((root, selection) ∷ rest) =
    largest_selection threshold
      (if leb threshold (length selection.shares_from)
        then (elim best [
          | none ↦ some selection
          | some b ↦
              if leb (length b.shares_from) (length selection.shares_from)
              then some selection
              else some b
        ])
        else best)
      rest

abbrev pub or_default : Option SigningSelection → SigningSelection
or_default none = no_selection
or_default (some selection) = selection

unfoldable pub canonical_selection : ℕ → Map SigningSelection → SigningSelection
unfolding largest_selection
canonical_selection threshold selections = or_default (largest_selection threshold none selections)

-- A request that nobody made in time: its responsible party leaves, everyone becomes responsible.
unfoldable pub expire_request :
    Transition → ℕ → B256 → KeyShare → B256 → Option Address → Packet → Set → Expiry
unfolding cannot_continue
expire_request t next message key_share group_id none packet signers = dropped none
expire_request t next message key_share group_id (some previously_responsible) packet signers =
    let signers' = remove signers previously_responsible in
    if cannot_continue t key_share signers' then dropped none else record {
      kept = some (waiting_for_request key_share group_id none packet signers' next);
      unlinked = none;
      commands = action (Action.sign group_id message next) ∷ [];
    }

unfoldable pub expire_session : Transition → ℕ → B256 → SigningState → Expiry
unfolding restart_signing_ceremony retain_revealed canonical_selection expire_request
expire_session t next message
      (waiting_for_request key_share group_id responsible packet signers deadline) =
    expire_request t next message key_share group_id responsible packet signers
expire_session t next message (waiting_for_oracle _ _ _ signature_id _ _ _ _) =
    dropped (some signature_id)
expire_session t next message
      (collect_nonce_commitments key_share group_id signature_id nonce revealed last_signer packet
        signers deadline) =
    restart_signing_ceremony t next key_share group_id signature_id
      (retain_revealed revealed signers) message packet last_signer
expire_session t next message
      (collect_signing_shares key_share group_id signature_id revealed selections packet signers
        deadline) =
    let selection = canonical_selection (t.group_threshold key_share) selections in
    restart_signing_ceremony t next key_share group_id signature_id selection.shares_from message
      packet selection.last_signer
expire_session t next message (waiting_for_attestation signature_id packet deadline) = record {
  kept = none;
  unlinked = some signature_id;
  commands = action (attestation_action t packet signature_id next) ∷ [];
}

unfoldable pub expire : Transition → ℕ → ℕ → B256 → SigningState → Expiry
unfolding expire_session
expire t block next message signing =
    if leb (deadline signing) block
    then expire_session t next message signing
    else record { kept = some signing; unlinked = none; commands = [] }

abbrev pub unlink : Option B256 → Map B256 → Map B256
unlink none index = index
unlink (some sid) index = remove index sid

abbrev pub cons_kept : B256 → Option SigningState → Map SigningState → Map SigningState
cons_kept message none rest = rest
cons_kept message (some signing) rest = (message, signing) ∷ rest

-- `retain` in key order, from the index as it stands.
unfoldable pub sweep :
    Transition → ℕ → ℕ → Map SigningState → Map B256 → Map SigningState × Map B256 × List Command
sweep t block next [] index = ([], index, [])
sweep t block next ((message, signing) ∷ rest) index =
    let e = expire t block next message signing in
    let (rest', index', commands) = sweep t block next rest (unlink e.unlinked index) in
    (cons_kept message e.kept rest', index', e.commands ++ commands)

unfoldable pub handle_signing_timeouts : Transition → State → ℕ → State × List Command
handle_signing_timeouts t s block =
    let (signing', index', commands) =
      sweep t block (saturating_add block t.signing_timeout) s.signing s.signature_id_to_message in
    (record s { signing = signing'; signature_id_to_message = index' }, commands)
