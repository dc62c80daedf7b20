-- ===== src/Validator/Stalls/Remaining.antt =====
-- Who is left in the group of a restart.
use shield_net.Prelude.{
  ℕ, ◌<◌, ◌≡◌, inl, inr, refl, sym, ap, ◌∙◌, true, Option, none, some, Option-cases, Bool-cases,
  List, [], ◌∷◌, arith, leb, ltb, Map, get, contains_key, contains_key-cons, length, IsSorted, Sub,
  Sub-count,
}
use shield_net.Validator.Epoch.{number}
use shield_net.Validator.Types.{
  Address, Participant, Set, Group, KeyGenCommitment, RolloverState, State, ParticipantSet,
  Transition,
}
use shield_net.Validator.Merkle.{build, root, proof}
use shield_net.Validator.Groups.{
  group_threshold, GroupEpoch, active_addresses, remove_all, to_u16, participants_set,
}
use shield_net.Validator.Groups.Members.{participants_set-some, contains_key-remove_all}
use shield_net.Validator.Participation.{
  group_id, keys, count_below, participate_as, group_and_participants_tree,
  active_addresses-IsSorted, remove_all-IsSorted,
}
use shield_net.Validator.Keygen.{
  start_key_gen, join_key_gen, remaining, restart_with, restart_key_gen_excluding, key_set,
}
use shield_net.Validator.Stalls.{candidates, IsFormed, Shrinks}

pub contains_key-key_set :
    {V : Type 0} (m : Map V) (j : Address) → contains_key (key_set m) j ≡ contains_key m j
unfolding key_set
contains_key-key_set [] j = unfold contains_key in unfold get in ground arith
contains_key-key_set ((k, v) ∷ rest) j = ground (
  arith,
  contains_key-key_set rest j,
  contains_key-cons (key_set rest) k j tt,
  contains_key-cons rest k j v,
)

active_numbered :
    (consensus : Address) (n : ℕ) (excluded : Set) (l : List Participant)
    → active_addresses (GroupEpoch.number consensus n excluded) l
      ≡ active_addresses (GroupEpoch.number consensus n []) l
unfolding active_addresses
active_numbered consensus n excluded [] = refl
active_numbered consensus n excluded (p ∷ rest) =
    ground (arith, active_numbered consensus n excluded rest)

module _ (t : Transition) (n : ℕ) where
  start_key_gen-group :
      (s : State) (p : ParticipantSet) (d : Option ℕ)
      → length p.addresses < 65536
      → (g' : Group) × (secrets : KeyGenCommitment) × ((start_key_gen t s (number n) p d).0.rollover
          ≡ RolloverState.collecting_commitments (number n) g' secrets [] d)
        × (g'.participants ≡ p.addresses)
        × (g'.excluded ≡ p.excluded)
        × (g'.count ≡ length p.addresses)
  unfolding start_key_gen join_key_gen participate_as group_and_participants_tree to_u16
  start_key_gen-group s p d l =
      let group : Group = record {
        id =
            group_id t.keccak256 (root (build t.keccak256 (keys p.addresses))) (length p.addresses)
              (group_threshold (length p.addresses)) p.context;
        root = root (build t.keccak256 (keys p.addresses));
        participants = p.addresses;
        excluded = p.excluded;
        count = length p.addresses;
        threshold = group_threshold (length p.addresses);
        context = p.context;
      } in
      let fits : ltb (length p.addresses) 65536 ≡ true = ground (arith, l) in
      elim (Bool-cases (contains_key p.addresses t.account)) [
        | inl q ↦ (
          group,
          KeyGenCommitment.participating
              (proof (build t.keccak256 (keys p.addresses)) (count_below p.addresses t.account))
              none,
          rw (q, fits) refl,
          refl,
          refl,
          refl,
        )
        | inr q ↦ (group, KeyGenCommitment.observing, ground (arith, q, fits), refl, refl, refl)
      ]

  participants_set-members :
      (excluded : Set) (p : ParticipantSet)
      → participants_set t.keccak256 t.participants (GroupEpoch.number t.consensus n excluded)
        ≡ some p
      → (p.addresses ≡ remove_all (candidates t n) excluded)
        × (p.excluded ≡ excluded)
        × (length p.addresses < 65536)
  unfolding participants_set to_u16
  participants_set-members excluded p h =
      let same = active_numbered t.consensus n excluded t.participants in
      let (e, _, fits, _) =
        participants_set-some t.keccak256 t.participants (GroupEpoch.number t.consensus n excluded)
          p h in
      (sym e ∙ ap (λ (x : Set). remove_all x excluded) same, ground arith, fits)

  pub candidates-IsSorted : (excluded : Set) → IsSorted (remove_all (candidates t n) excluded)
  candidates-IsSorted excluded =
      remove_all-IsSorted (candidates t n) excluded
        (active_addresses-IsSorted (GroupEpoch.number t.consensus n []) t.participants)

  -- What is left after more is excluded is a part of the group; a proper part, where some member is excluded.
  left-Sub :
      (less more : Set)
      → Sub less more
      → Sub (remove_all (candidates t n) more) (remove_all (candidates t n) less)
  left-Sub less more sub j h = ground (
    arith,
    h,
    sub j,
    contains_key-remove_all (candidates t n) more j,
    contains_key-remove_all (candidates t n) less j,
  )

  left-count :
      (less more : Set)
      → Sub less more
      → ¬ (Sub (remove_all (candidates t n) less) (remove_all (candidates t n) more))
      → length (remove_all (candidates t n) more) < length (remove_all (candidates t n) less)
  left-count less more sub proper =
      let new = remove_all (candidates t n) more in
      let old = remove_all (candidates t n) less in
      let (_, whole) =
        Sub-count new old (candidates-IsSorted more) (candidates-IsSorted less)
          (left-Sub less more sub) in
      elim (Bool-cases (leb (length old) (length new))) [
        | inl q ↦ absurd (proper (whole (ground (arith, q))))
        | inr q ↦ ground (arith, q)
      ]

  -- A restart that excludes what the group excludes, and more, of which some member.
  pub restart-Shrinks :
      (s : State) (g : Group) (excluded : Set) (d : Option ℕ)
      → IsFormed t n g
      → Sub g.excluded excluded
      → ¬ (Sub g.participants (remove_all (candidates t n) excluded))
      → Shrinks t n g (restart_key_gen_excluding t s (number n) excluded d).0.rollover
  unfolding restart_key_gen_excluding restart_with remaining
  restart-Shrinks s g excluded d f sub proper =
      elim (Option-cases
        (participants_set t.keccak256 t.participants (GroupEpoch.number t.consensus n excluded))) [
          | inl q ↦ rw q (Shrinks.skipped refl)
          | inr (p, q) ↦
              let (members, out, fits) = participants_set-members excluded p q in
              let (g', secrets, r, ep, ex, count) = start_key_gen-group s p d fits in
              let part : g'.participants ≡ remove_all (candidates t n) excluded = ep ∙ members in
              let fewer =
                left-count g.excluded excluded sub
                  (λ (w : Sub (remove_all (candidates t n) g.excluded)
                      (remove_all (candidates t n) excluded)).
                    proper (rw f.members w)) in
              rw q (
                Shrinks.restarted g' secrets d r
                  (record {
                    members = part ∙ ap (remove_all (candidates t n)) (sym (ex ∙ out));
                    counted = count ∙ ap length (sym ep);
                    small = ground (arith, count, fits);
                  })
                  (rw (part, f.members) (left-Sub g.excluded excluded sub))
                  (ground (arith, count, members, f.counted, f.members, fewer)))
        ]
