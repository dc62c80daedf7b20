-- ===== src/Validator/Stalls.antt =====
-- crates/validator/src/state/keygen.rs: what the timeouts of key generation do to the group.
pub mod Remaining
pub mod Deadlines
use shield_net.Prelude.{
  ℕ, ◌≤◌, ◌<◌, ◌≡◌, ◌≢◌, ◌⊎◌, inl, inr, refl, sym, ap, subst, ◌∙◌, true, false, not, ◌&&◌, ◌||◌,
  Option, none, some, Option-cases, Bool-cases, List, [], ◌∷◌, arith, ◌==◌, leb, ltb, Map, get,
  contains_key, contains_key-cons, length, IsSorted, Sub, Sub-count, as_u16, if◌then◌else◌,
  saturating_add,
}
use shield_net.Validator.Epoch.{EpochId, number}
use shield_net.Validator.Types.{
  B256, Address, Opaque, Participant, Set, Group, KeyShare, KeyGenCommitment, KeyGenParticipation,
  KeyGenConfirmation, Complaint, ConfirmationDeadlines, RolloverState, State, ParticipantSet,
  Transition,
}
use shield_net.Validator.Merkle.{build, root, proof}
use shield_net.Validator.Groups.{
  group_threshold, GroupEpoch, active_addresses, excluded_from, remove_all, extend_set, to_u16,
  participants_set, also_exclude, exclude_all_others,
}
use shield_net.Validator.Groups.Members.{
  participants_set-some, contains_key-remove_all, contains_key-extend_set,
}
use shield_net.Validator.Participation.{
  group_id, keys, count_below, participate_as, group_and_participants_tree,
  active_addresses-IsSorted, remove_all-IsSorted,
}
use shield_net.Validator.Keygen.{
  is_empty, fail_rollover, start_key_gen, join_key_gen, remaining, restart_with,
  restart_key_gen_excluding, key_set, unresponded_to, stuck_epoch, stalled_round,
  handle_key_gen_timeouts,
}

-- The participants that are active in epoch `n`.
abbrev pub candidates : Transition → ℕ → Set
candidates t n = active_addresses (GroupEpoch.number t.consensus n []) t.participants

-- The group of an attempt at epoch `n`: its members are the active participants that it does not exclude.
pub record IsFormed (t : Transition) (n : ℕ) (g : Group) : Type 0 where
  pub members : g.participants ≡ remove_all (candidates t n) g.excluded
  pub counted : g.count ≡ length g.participants
  pub small : g.count < 65536

-- The attempt is given up, or a new one starts with a part of the group.
pub data Shrinks (t : Transition) (n : ℕ) (g : Group) (r : RolloverState) : Type 0 where
  skipped : r ≡ RolloverState.epoch_skipped n → Shrinks t n g r
  restarted :
      (g' : Group) (secrets : KeyGenCommitment) (deadline : Option ℕ)
      → r ≡ RolloverState.collecting_commitments (number n) g' secrets [] deadline
      → IsFormed t n g'
      → Sub g'.participants g.participants
      → g'.count < g.count
      → Shrinks t n g r

-- The attempt at epoch `n` with group `g` is past a deadline, with a round that somebody holds up.
pub data IsStalled (n : ℕ) (g : Group) (r : RolloverState) (block : ℕ) : Type 0 where
  setup :
      (poap : List B256) (c : Map Opaque) (d : ℕ)
      → r
        ≡ RolloverState.collecting_commitments
            (number n)
            g
            (KeyGenCommitment.participating poap none)
            c
            (some d)
      → d ≤ block
      → as_u16 (length c) ≡ g.count
      → IsStalled n g r block
  commitments :
      (secrets : KeyGenCommitment) (c : Map Opaque) (d : ℕ)
      → r ≡ RolloverState.collecting_commitments (number n) g secrets c (some d)
      → d ≤ block
      → IsSorted c
      → length c < g.count
      → IsStalled n g r block
  shares :
      (p : KeyGenParticipation) (keys shares : Map Opaque) (c : Map Complaint) (d : ℕ)
      → r ≡ RolloverState.collecting_shares (number n) g p keys shares c (some d)
      → d ≤ block
      → IsSorted keys
      → length keys < g.count
      → IsStalled n g r block
  complaints :
      (p : KeyGenParticipation) (st : KeyGenConfirmation) (cf : Set) (c : Map Complaint)
      (d : ConfirmationDeadlines)
      → r ≡ RolloverState.collecting_confirmations (number n) g p st cf c (some d)
      → d.response ≤ block
      → Sub c g.participants
      → is_empty (unresponded_to c) ≡ false
      → IsStalled n g r block
  confirmations :
      (p : KeyGenParticipation) (st : KeyGenConfirmation) (cf : Set) (c : Map Complaint)
      (d : ConfirmationDeadlines)
      → r ≡ RolloverState.collecting_confirmations (number n) g p st cf c (some d)
      → d.confirm ≤ block
      → is_empty (unresponded_to c) ≡ true
      → IsSorted cf
      → length cf < g.count
      → IsStalled n g r block
