-- ===== src/Validator/Merkle.antt =====
-- crates/validator/src/merkle.rs: the sorted-pair Merkle tree, as the list of its levels from the leaves up. A
-- level that is out of range reads as the zero word, as in the source.
pub mod Proofs
use shield_net.Prelude.{
  be_bytes, ℕ, zero, suc, ◌+◌, ◌-◌, ◌/◌, ◌%◌, Bool, List, [], ◌∷◌, ◌++◌, leb, ltb, ◌==◌,
  if◌then◌else◌, length,
}
use shield_net.Validator.Types.{B256, Bytes}

-- `level.get(index).copied().unwrap_or(B256::ZERO)`
unfoldable pub get_or_zero : List B256 → ℕ → B256
get_or_zero [] i = 0
get_or_zero (x ∷ xs) i = if i == 0 then x else get_or_zero xs (i - 1)

module _ (keccak256 : Bytes → B256) where
  unfoldable pub hash_pair : B256 → B256 → B256
  hash_pair a b =
      if leb a b
      then keccak256 (be_bytes 32 a ++ be_bytes 32 b)
      else keccak256 (be_bytes 32 b ++ be_bytes 32 a)

  unfoldable pub next_level : List B256 → List B256
  next_level [] = []
  next_level (a ∷ []) = hash_pair a 0 ∷ []
  next_level (a ∷ b ∷ rest) = hash_pair a b ∷ next_level rest

  -- The loop of `build`, on fuel.
  unfoldable pub levels : ℕ → List B256 → List (List B256)
  levels zero level = level ∷ []
  levels (suc n) level =
      let rest = levels n (next_level level) in
      if ltb 1 (length level) then level ∷ rest else level ∷ []

  -- As much fuel as there are leaves: each level but the last is at most half of the one below.
  unfoldable pub build : List B256 → List (List B256)
  unfolding levels
  build leaves = levels (length leaves) leaves

  -- `MerkleRoot::verify`
  unfoldable pub fold_proof : B256 → List B256 → B256
  fold_proof node [] = node
  fold_proof node (sibling ∷ proof) = fold_proof (hash_pair node sibling) proof

unfoldable pub root : List (List B256) → B256
unfolding get_or_zero
root [] = 0
root (level ∷ []) = get_or_zero level 0
root (level ∷ above ∷ rest) = root (above ∷ rest)

-- `current ^ 1`
abbrev pub sibling_of : ℕ → ℕ
sibling_of i = if i % 2 == 0 then i + 1 else i - 1

-- The siblings on every level but the last.
unfoldable pub proof : List (List B256) → ℕ → List B256
unfolding get_or_zero
proof [] current = []
proof (level ∷ []) current = []
proof (level ∷ above ∷ rest) current =
    get_or_zero level (sibling_of current) ∷ proof (above ∷ rest) (current / 2)
