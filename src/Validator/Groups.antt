-- ===== src/Validator/Groups.antt =====
-- crates/validator/src/consensus/group.rs: the participants of an epoch's group and its threshold. A set that is
-- iterated is walked in key order.
pub mod Members
use shield_net.Prelude.{
  be_bytes, ℕ, ◌+◌, ◌*◌, ◌/◌, ◌%◌, ◌^◌, Bool, true, ◌&&◌, Option, none, some, List, [], ◌∷◌, leb,
  ltb, ◌==◌, if◌then◌else◌, Map, insert, remove, length,
}
use shield_net.Validator.Types.{Participant, ParticipantSet, B256, Address, Bytes, Set, Group}

-- `Epoch` of the source
pub data GroupEpoch : Type 0 where
  genesis : (salt : B256) → GroupEpoch
  number : (consensus : Address) (n : ℕ) (excluded : Set) → GroupEpoch

abbrev pub is_before : ℕ → Option ℕ → Bool
is_before n none = true
is_before n (some before) = ltb n before

abbrev pub is_active : GroupEpoch → Participant → Bool
is_active (genesis salt) p = p.active_from == 0
is_active (number consensus n excluded) p = leb p.active_from n && is_before n p.active_before

-- `filter(..).map(|p| p.address).collect::<BTreeSet<_>>()`
unfoldable pub active_addresses : GroupEpoch → List Participant → Set
active_addresses epoch [] = []
active_addresses epoch (p ∷ rest) =
    let others = active_addresses epoch rest in
    if is_active epoch p then insert others p.address tt else others

abbrev pub excluded_from : GroupEpoch → Set
excluded_from (genesis salt) = []
excluded_from (number consensus n excluded) = excluded

-- `for address in &excluded { addresses.remove(address) }`
unfoldable pub remove_all : Set → Set → Set
remove_all addresses [] = addresses
remove_all addresses ((a, u) ∷ rest) = remove_all (remove addresses a) rest

unfoldable pub extend_set : Set → Set → Set
extend_set set [] = set
extend_set set ((a, u) ∷ rest) = extend_set (insert set a tt) rest

-- `u16::try_from(len).ok()`
unfoldable pub to_u16 : ℕ → Option ℕ
to_u16 n = if ltb n (2 ^ 16) then some n else none

unfoldable pub group_threshold : ℕ → ℕ
group_threshold count = count / 2 + 1

-- The minimum in 32 bits, cast to 16.
unfoldable pub min_participants : ℕ → ℕ
min_participants count =
    let min = (count * 2 / 3 + 1) % 2 ^ 32 % 2 ^ 16 in if ltb min 2 then 2 else min

abbrev pub group_context : Address → ℕ → B256
group_context consensus epoch = consensus * 2 ^ 64 + epoch

unfoldable pub genesis_context : (Bytes → B256) → B256 → B256
genesis_context keccak256 salt =
    if salt == 0 then 0 else keccak256 (103 ∷ 101 ∷ 110 ∷ 101 ∷ 115 ∷ 105 ∷ 115 ∷ be_bytes 32 salt)

unfoldable pub epoch_context : (Bytes → B256) → GroupEpoch → B256
unfolding genesis_context
epoch_context keccak256 (genesis salt) = genesis_context keccak256 salt
epoch_context keccak256 (number consensus n excluded) = group_context consensus n

unfoldable pub participants_set :
    (Bytes → B256) → List Participant → GroupEpoch → Option ParticipantSet
unfolding to_u16 min_participants
participants_set keccak256 participants epoch =
    let active = active_addresses epoch participants in
    let addresses = remove_all active (excluded_from epoch) in
    elim (to_u16 (length active)) [
      | none ↦ none
      | some total ↦ elim (to_u16 (length addresses)) [
        | none ↦ none
        | some count ↦
            if leb (min_participants total) count
            then some (record {
              addresses = addresses;
              excluded = excluded_from epoch;
              context = epoch_context keccak256 epoch;
            })
            else none
      ]
    ]

unfoldable pub also_exclude : Group → Set → Set
unfolding extend_set
also_exclude group also_excluded = extend_set group.excluded also_excluded

unfoldable pub exclude_all_others : Group → Set → Set
unfolding also_exclude remove_all
exclude_all_others group include_only =
    also_exclude group (remove_all group.participants include_only)
