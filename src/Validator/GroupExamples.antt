-- ===== src/Validator/GroupExamples.antt =====
-- Participants and leaves, for the theorems on groups and on Merkle trees.
use shield_net.Prelude.{
  not, ◌&&◌, List, true, ◌+◌, ◌*◌, ◌≡◌, ◌≤◌, ◌<◌, refl, false, none, some, [], ◌∷◌, arith, get,
  insert, remove, contains_key,
}
use shield_net.Validator.Types.{Bytes, Address, B256, Set, Group}
use shield_net.Validator.Groups.{
  epoch_context, GroupEpoch, active_addresses, group_threshold, participants_set,
  exclude_all_others, also_exclude, extend_set, remove_all, min_participants, to_u16,
}
use shield_net.Validator.Types.{Participant}
use shield_net.Validator.Groups.Members.{
  participants_set_tolerates, participants_set-exclude_all_others,
}
use shield_net.Validator.Merkle.{build, root, proof, fold_proof, get_or_zero}
use shield_net.Validator.Merkle.Proofs.{fold_proof-build}
use shield_net.Validator.Types.{ParticipantSet}
use shield_net.Validator.Participation.{participate_as, participate_as-participants_set}
use shield_net.Validator.Examples.{group}

abbrev always : Address → Participant
always a = record { address = a; active_from = 0; active_before = none }

abbrev participants : List Participant
participants = always 1 ∷ always 2 ∷ always 3 ∷ always 4 ∷ []

abbrev only_1_3 : Set
only_1_3 = (1, tt) ∷ (3, tt) ∷ []

abbrev without_2 : Set
without_2 = (1, tt) ∷ (3, tt) ∷ (4, tt) ∷ []

participants_set_tolerates_example :
    (1 < group_threshold 3)
    × (group_threshold 3 ≤ 3)
    × (2 ≤ group_threshold 3)
    × (3 < 2 * group_threshold 3)
unfolding participants_set active_addresses remove_all remove insert to_u16 min_participants
    epoch_context
participants_set_tolerates_example =
    participants_set_tolerates (λ bytes. 77) participants (GroupEpoch.number 0 5 ((2, tt) ∷ []))
      (record { addresses = without_2; excluded = (2, tt) ∷ []; context = 5 }) 1 refl (omega arith)

participants_set-exclude_all_others_example :
    (contains_key without_2 4 ≡ (
      contains_key
        (active_addresses (GroupEpoch.number 0 5 (exclude_all_others group only_1_3)) participants)
        4
      && not (contains_key (exclude_all_others group only_1_3) 4)))
    × (contains_key without_2 4 ≡ true
        → (contains_key group.excluded 4 ≡ false)
          × (contains_key group.participants 4 ≡ true → contains_key only_1_3 4 ≡ true))
unfolding participants_set active_addresses remove_all remove insert to_u16 min_participants
    epoch_context exclude_all_others also_exclude extend_set
participants_set-exclude_all_others_example =
    participants_set-exclude_all_others (λ bytes. 77) participants 0 5 group only_1_3
      (record { addresses = without_2; excluded = (2, tt) ∷ []; context = 5 }) refl 4

abbrev first_bytes : Bytes → B256
first_bytes [] = 0
first_bytes (x ∷ xs) = x + 3

fold_proof-build_example :
    fold_proof first_bytes 30 (proof (build first_bytes (10 ∷ 20 ∷ 30 ∷ [])) 2)
    ≡ root (build first_bytes (10 ∷ 20 ∷ 30 ∷ []))
unfolding get_or_zero
fold_proof-build_example = fold_proof-build first_bytes (10 ∷ 20 ∷ 30 ∷ []) 2 (omega arith)

abbrev set_without_2 : ParticipantSet
set_without_2 = record { addresses = without_2; excluded = (2, tt) ∷ []; context = 5 }

participate_as-participants_set_example :
    (g : Group) × (poap : List B256) × (participate_as first_bytes set_without_2 3
      ≡ some (some (g, poap)))
    × (fold_proof first_bytes 3 poap ≡ g.root)
    × (g.participants ≡ without_2)
    × (g.count ≡ 3)
    × (g.threshold ≡ group_threshold g.count)
unfolding participants_set active_addresses remove_all remove insert to_u16 min_participants
    epoch_context contains_key get
participate_as-participants_set_example =
    participate_as-participants_set first_bytes participants (GroupEpoch.number 0 5 ((2, tt) ∷ []))
      set_without_2 3 refl refl
