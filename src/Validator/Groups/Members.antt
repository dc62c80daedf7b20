-- ===== src/Validator/Groups/Members.antt =====
-- Who is in a group, and how many malicious participants it bears.
use shield_net.Prelude.{
  ℕ, ◌*◌, ◌≤◌, ◌<◌, ◌≡◌, true, false, not, ◌&&◌, ◌||◌, some, List, [], ◌∷◌, arith, ◌==◌,
  if◌then◌else◌, get, insert, remove, contains_key, length, contains_key-insert, contains_key-cons,
  get-remove,
}
use shield_net.Validator.Types.{B256, Address, Bytes, Set, Group}
use shield_net.Validator.Groups.{
  GroupEpoch, number, active_addresses, excluded_from, remove_all, extend_set, to_u16,
  group_threshold, min_participants, participants_set, also_exclude, exclude_all_others,
}
use shield_net.Validator.Types.{Participant, ParticipantSet}

contains_key-remove :
    (m : Set) (k j : ℕ) → contains_key (remove m k) j ≡ (if k == j then false else contains_key m j)
unfolding contains_key
contains_key-remove m k j = ground (arith, get-remove m k j)

pub contains_key-remove_all :
    (a b : Set) (j : ℕ)
    → contains_key (remove_all a b) j ≡ (contains_key a j && not (contains_key b j))
unfolding remove_all
contains_key-remove_all a [] j = unfold contains_key in unfold get in ground arith
contains_key-remove_all a ((k, u) ∷ rest) j = ground (
  arith,
  contains_key-remove_all (remove a k) rest j,
  contains_key-remove a k j,
  contains_key-cons rest k j u,
)

pub contains_key-extend_set :
    (a b : Set) (j : ℕ) → contains_key (extend_set a b) j ≡ (contains_key a j || contains_key b j)
unfolding extend_set
contains_key-extend_set a [] j = unfold contains_key in unfold get in ground arith
contains_key-extend_set a ((k, u) ∷ rest) j = ground (
  arith,
  contains_key-extend_set (insert a k tt) rest j,
  contains_key-insert a k j tt,
  contains_key-cons rest k j u,
)

pub participants_set-some :
    (keccak256 : Bytes → B256) (participants : List Participant) (epoch : GroupEpoch)
    (set : ParticipantSet)
    → participants_set keccak256 participants epoch ≡ some set
    → let active = active_addresses epoch participants in
      (remove_all active (excluded_from epoch) ≡ set.addresses)
      × (length active < 65536)
      × (length set.addresses < 65536)
      × (min_participants (length active) ≤ length set.addresses)
unfolding participants_set to_u16
participants_set-some keccak256 participants epoch set h =
    (ground arith, ground arith, ground arith, ground arith)

-- A group bears a third of its epoch's participants. Whatever was excluded, where the participant set is
-- valid and at most a third of the participants that are active in the epoch are malicious, those are fewer than
-- the signing threshold; the threshold can be reached, is at least two, and is more than half of the group.
pub participants_set_tolerates :
    (keccak256 : Bytes → B256) (participants : List Participant) (epoch : GroupEpoch)
    (set : ParticipantSet) (malicious : ℕ)
    → participants_set keccak256 participants epoch ≡ some set
    → 3 * malicious ≤ length (active_addresses epoch participants)
    → let count = length set.addresses in
      (malicious < group_threshold count)
      × (group_threshold count ≤ count)
      × (2 ≤ group_threshold count)
      × (count < 2 * group_threshold count)
unfolding group_threshold min_participants
participants_set_tolerates keccak256 participants epoch set malicious h third =
    let (_, total, count, enough) = participants_set-some keccak256 participants epoch set h in
    (ground arith, ground arith, ground arith, ground arith)

-- The members of a valid participant set of a numbered epoch, whose exclusions are those of
-- `exclude_all_others` on an old group, are the participants that are active in the epoch and not
-- excluded. No address that the old group had excluded is a member, and each member that was in the old
-- group is one of those to include.
pub participants_set-exclude_all_others :
    (keccak256 : Bytes → B256) (participants : List Participant) (consensus : Address) (n : ℕ)
    (group : Group) (include_only : Set) (set : ParticipantSet)
    → let epoch = number consensus n (exclude_all_others group include_only) in
      participants_set keccak256 participants epoch ≡ some set
      → (j : Address)
      → (contains_key set.addresses j ≡ (
          contains_key (active_addresses epoch participants) j
          && not (contains_key (exclude_all_others group include_only) j)))
        × (contains_key set.addresses j ≡ true
            → (contains_key group.excluded j ≡ false)
              × (contains_key group.participants j ≡ true → contains_key include_only j ≡ true))
participants_set-exclude_all_others keccak256 participants consensus n group include_only set h j =
    let epoch = number consensus n (exclude_all_others group include_only) in
    let (e, _, _, _) = participants_set-some keccak256 participants epoch set h in
    let outside : contains_key (exclude_all_others group include_only) j ≡ (
        contains_key group.excluded j
        || (contains_key group.participants j && not (contains_key include_only j))) =
      unfold exclude_all_others in
      unfold also_exclude in
      ground (
        arith,
        contains_key-extend_set group.excluded (remove_all group.participants include_only) j,
        contains_key-remove_all group.participants include_only j,
      ) in
    let inside =
      contains_key-remove_all (active_addresses epoch participants)
        (exclude_all_others group include_only) j in
    let members : contains_key set.addresses j ≡ (
        contains_key (active_addresses epoch participants) j
        && not (contains_key (exclude_all_others group include_only) j)) =
      rw (← e) inside in
    (
      members,
      λ m. (ground (arith, m, members, outside), λ p. ground (arith, m, members, outside, p)),
    )
