-- ===== src/Validator/Participation.antt =====
-- crates/validator/src/consensus/group.rs: the group of a participant set and the proofs that a participant is one of
-- it. The outer option is `none` where the source panics at its `expect`.
use shield_net.Prelude.{
  be_bytes, ℕ, suc, ◌+◌, ◌*◌, ◌/◌, ◌^◌, ◌<◌, ◌≡◌, refl, sym, ap, subst, ◌∙◌, true, Bool-cases, inl,
  inr, Option, none, some, List, [], ◌∷◌, ◌++◌, arith, ltb, ◌==◌, if◌then◌else◌, get, remove,
  contains_key, length, Above, IsSorted, contains_key-cons, contains_key_of_Above, insert-IsSorted,
  remove-IsSorted,
}
use shield_net.Validator.Types.{B256, Address, Bytes, Set, Group}
use shield_net.Validator.Merkle.{build, root, proof, fold_proof, get_or_zero}
use shield_net.Validator.Merkle.Proofs.{fold_proof-build}
use shield_net.Validator.Groups.{
  GroupEpoch, is_active, active_addresses, excluded_from, remove_all, to_u16, group_threshold,
  participants_set,
}
use shield_net.Validator.Types.{Participant, ParticipantSet}
use shield_net.Validator.Groups.Members.{participants_set-some}

-- `iter()` on a set
unfoldable pub keys : Set → List Address
keys [] = []
keys ((a, u) ∷ rest) = a ∷ keys rest

-- `range(..address).count()`
unfoldable pub count_below : Set → Address → ℕ
count_below [] address = 0
count_below ((a, u) ∷ rest) address = (if ltb a address then 1 else 0) + count_below rest address

module _ (keccak256 : Bytes → B256) where
  -- Two bytes in the last places of a word are the word of the number.
  unfoldable pub group_id : B256 → ℕ → ℕ → B256 → B256
  group_id participants count threshold context =
      keccak256 (
        be_bytes 32 participants
        ++ be_bytes 32 count
        ++ be_bytes 32 threshold
        ++ be_bytes 32 context)
      / 2 ^ 64
      * 2 ^ 64

  unfoldable pub group_and_participants_tree : ParticipantSet → Option (Group × List (List B256))
  unfolding to_u16
  group_and_participants_tree set =
      let tree = build keccak256 (keys set.addresses) in
      elim (to_u16 (length set.addresses)) [
        | none ↦ none
        | some count ↦ some (
          record {
            id = group_id (root tree) count (group_threshold count) set.context;
            root = root tree;
            participants = set.addresses;
            excluded = set.excluded;
            count = count;
            threshold = group_threshold count;
            context = set.context;
          },
          tree,
        )
      ]

  unfoldable pub participate_as : ParticipantSet → Address → Option (Option (Group × List B256))
  unfolding group_and_participants_tree
  participate_as set address =
      if contains_key set.addresses address
      then (elim (group_and_participants_tree set) [
        | none ↦ none
        | some (group, tree) ↦ some (some (group, proof tree (count_below set.addresses address)))
      ])
      else some none

length-keys : (s : Set) → length (keys s) ≡ length s
unfolding keys
length-keys [] = refl
length-keys (e ∷ rest) = ap suc (length-keys rest)

count_below_of_Above : (s : Set) (a : Address) → Above a s → count_below s a ≡ 0
unfolding count_below
count_below_of_Above [] a h = refl
count_below_of_Above ((k, u) ∷ rest) a h = ground (arith, count_below_of_Above rest a h.1)

member_index :
    (s : Set) (a : Address)
    → IsSorted s
    → contains_key s a ≡ true
    → (count_below s a < length s) × (get_or_zero (keys s) (count_below s a) ≡ a)
unfolding count_below keys get_or_zero contains_key get
member_index [] a o h = absurd (ground (arith, h))
member_index ((k, u) ∷ rest) a o h =
    let at = contains_key-cons rest k a u in
    elim (Bool-cases (k == a)) [
      | inl q ↦
          let e : k ≡ a = ground (arith, q) in
          let none_below : count_below rest k ≡ 0 = count_below_of_Above rest k o.0 in
          (ground (arith, e, none_below), ground (arith, e, none_below))
      | inr q ↦
          let inside : contains_key rest a ≡ true = ground (arith, h, at, q) in
          let (b, g) = member_index rest a o.1 inside in
          let below : ltb k a ≡ true = elim (Bool-cases (ltb k a)) [
            | inl l ↦ l
            | inr l ↦
                absurd
                  (ground (arith, inside, contains_key_of_Above rest k a (ground (arith, l)) o.0))
          ] in
          (ground (arith, b, below), ground (arith, g, below))
    ]

pub active_addresses-IsSorted :
    (e : GroupEpoch) (ps : List Participant) → IsSorted (active_addresses e ps)
unfolding active_addresses
active_addresses-IsSorted e [] = tt
active_addresses-IsSorted e (p ∷ rest) = elim (Bool-cases (is_active e p)) [
  | inl q ↦
      rw q
        (insert-IsSorted (active_addresses e rest) p.address tt (active_addresses-IsSorted e rest))
  | inr q ↦ rw q (active_addresses-IsSorted e rest)
]

pub remove_all-IsSorted : (a b : Set) → IsSorted a → IsSorted (remove_all a b)
unfolding remove_all
remove_all-IsSorted a [] o = o
remove_all-IsSorted a ((k, u) ∷ rest) o =
    remove_all-IsSorted (remove a k) rest (remove-IsSorted a k o)

-- Every member of a valid participant set takes part with a proof, without a panic. The group that it
-- derives has all the members and their number, with the threshold for that number; and hashing the
-- member's address with the siblings of its proof gives the group's root.
pub participate_as-participants_set :
    (keccak256 : Bytes → B256) (participants : List Participant) (epoch : GroupEpoch)
    (set : ParticipantSet) (address : Address)
    → participants_set keccak256 participants epoch ≡ some set
    → contains_key set.addresses address ≡ true
    → (group : Group) × (poap : List B256) × (participate_as keccak256 set address
        ≡ some (some (group, poap)))
      × (fold_proof keccak256 address poap ≡ group.root)
      × (group.participants ≡ set.addresses)
      × (group.count ≡ length set.addresses)
      × (group.threshold ≡ group_threshold group.count)
unfolding participate_as group_and_participants_tree to_u16
participate_as-participants_set keccak256 participants epoch set address h m =
    let (e, _, fits, _) = participants_set-some keccak256 participants epoch set h in
    let sorted : IsSorted set.addresses = subst IsSorted e (
      remove_all-IsSorted (active_addresses epoch participants) (excluded_from epoch)
        (active_addresses-IsSorted epoch participants)) in
    let (b, g) = member_index set.addresses address sorted m in
    let tree = build keccak256 (keys set.addresses) in
    let index = count_below set.addresses address in
    let small : ltb (length set.addresses) 65536 ≡ true = ground (arith, fits) in
    (
      record {
        id =
            group_id keccak256 (root tree) (length set.addresses)
              (group_threshold (length set.addresses)) set.context;
        root = root tree;
        participants = set.addresses;
        excluded = set.excluded;
        count = length set.addresses;
        threshold = group_threshold (length set.addresses);
        context = set.context;
      },
      proof tree index,
      rw (m, small) refl,
      ap (λ x. fold_proof keccak256 x (proof tree index)) (sym g)
          ∙ fold_proof-build keccak256 (keys set.addresses) index
              (omega (arith, b, length-keys set.addresses)),
      refl,
      refl,
      refl,
    )
