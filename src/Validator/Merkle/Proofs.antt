-- ===== src/Validator/Merkle/Proofs.antt =====
-- A tree's proofs against its root.
use shield_net.Prelude.{
  ℕ, zero, suc, ◌+◌, ◌/◌, ◌≤◌, ◌<◌, ◌≡◌, refl, sym, ap, ap₂, ◌∙◌, List, [], ◌∷◌, arith, ltb, length,
  Bool-cases, ltb→lt, inl, inr,
}
use shield_net.Validator.Types.{B256, Bytes}
use shield_net.Validator.Merkle.{
  get_or_zero, hash_pair, next_level, levels, build, fold_proof, root, sibling_of, proof,
}

half_above : (j : ℕ) → suc (suc j) / 2 ≡ suc (j / 2)
half_above j = omega arith

get_or_zero_tail :
    (x : B256) (xs : List B256) (i : ℕ) → get_or_zero (x ∷ xs) (suc i) ≡ get_or_zero xs i
unfolding get_or_zero
get_or_zero_tail x xs i = ground arith

node_above :
    (x : B256) (xs : List B256) (j : ℕ)
    → get_or_zero (x ∷ xs) (suc (suc j) / 2) ≡ get_or_zero xs (j / 2)
node_above x xs j = ap (get_or_zero (x ∷ xs)) (half_above j) ∙ get_or_zero_tail x xs (j / 2)

sibling_of_above : (j : ℕ) → sibling_of (suc (suc j)) ≡ suc (suc (sibling_of j))
sibling_of_above j = ground arith

sibling_above :
    (a b : B256) (rest : List B256) (j : ℕ)
    → get_or_zero (a ∷ b ∷ rest) (sibling_of (suc (suc j))) ≡ get_or_zero rest (sibling_of j)
sibling_above a b rest j =
    ap (get_or_zero (a ∷ b ∷ rest)) (sibling_of_above j)
    ∙ get_or_zero_tail a (b ∷ rest) (suc (sibling_of j))
    ∙ get_or_zero_tail b rest (sibling_of j)

module _ (keccak256 : Bytes → B256) where
  hash_pair_comm : (a b : B256) → hash_pair keccak256 a b ≡ hash_pair keccak256 b a
  unfolding hash_pair
  hash_pair_comm a b = ground arith

  length-next_level : (l : List B256) → length (next_level keccak256 l) ≡ (length l + 1) / 2
  unfolding next_level
  length-next_level [] = refl
  length-next_level (a ∷ []) = refl
  length-next_level (a ∷ b ∷ rest) = ground (arith, length-next_level rest)

  -- A node is the hash of its two children, of which `i` is either.
  get_or_zero-next_level :
      (l : List B256) (i : ℕ)
      → i < length l
      → get_or_zero (next_level keccak256 l) (i / 2)
        ≡ hash_pair keccak256 (get_or_zero l i) (get_or_zero l (sibling_of i))
  unfolding next_level get_or_zero
  get_or_zero-next_level [] i h = absurd (omega arith)
  get_or_zero-next_level (a ∷ []) i h = ground arith
  get_or_zero-next_level (a ∷ b ∷ rest) zero h = refl
  get_or_zero-next_level (a ∷ b ∷ rest) (suc zero) h = hash_pair_comm a b
  get_or_zero-next_level (a ∷ b ∷ rest) (suc (suc j)) h =
      node_above (hash_pair keccak256 a b) (next_level keccak256 rest) j
      ∙ get_or_zero-next_level rest j (omega arith)
      ∙ ap₂ (hash_pair keccak256)
          (sym (get_or_zero_tail a (b ∷ rest) (suc j) ∙ get_or_zero_tail b rest j))
          (sym (sibling_above a b rest j))

  root-cons :
      (x : List B256) (n : ℕ) (l : List B256)
      → root (x ∷ levels keccak256 n l) ≡ root (levels keccak256 n l)
  unfolding root levels
  root-cons x zero l = refl
  root-cons x (suc n) l = elim (Bool-cases (ltb 1 (length l))) [
    | inl q ↦ rw q refl
    | inr q ↦ rw q refl
  ]

  proof-cons :
      (x : List B256) (n : ℕ) (l : List B256) (i : ℕ)
      → proof (x ∷ levels keccak256 n l) i
        ≡ get_or_zero x (sibling_of i) ∷ proof (levels keccak256 n l) (i / 2)
  unfolding proof levels
  proof-cons x zero l i = refl
  proof-cons x (suc n) l i = elim (Bool-cases (ltb 1 (length l))) [
    | inl q ↦ rw q refl
    | inr q ↦ rw q refl
  ]

  fold_proof-levels :
      (n : ℕ) (l : List B256) (i : ℕ)
      → i < length l
      → length l ≤ n + 1
      → fold_proof keccak256 (get_or_zero l i) (proof (levels keccak256 n l) i)
        ≡ root (levels keccak256 n l)
  unfolding levels proof root fold_proof
  fold_proof-levels zero l i h k = ap (get_or_zero l) (omega arith)
  fold_proof-levels (suc n) l i h k = elim (Bool-cases (ltb 1 (length l))) [
    | inr q ↦ rw q (ap (get_or_zero l) (ground arith))
    | inl q ↦
        let above = next_level keccak256 l in
        let bound = length-next_level l in
        rw q (
          ap (fold_proof keccak256 (get_or_zero l i)) (proof-cons l n above i)
          ∙ ap (λ x. fold_proof keccak256 x (proof (levels keccak256 n above) (i / 2)))
              (sym (get_or_zero-next_level l i h))
          ∙ fold_proof-levels n above (i / 2) (omega (arith, bound))
              (omega (arith, bound, ltb→lt 1 (length l) q))
          ∙ sym (root-cons l n above))
  ]

  -- For any number of leaves, any hash and any index in range: hashing the leaf with the siblings of its
  -- proof, in their order, gives the root of the tree that is built from the leaves.
  pub fold_proof-build :
      (leaves : List B256) (index : ℕ)
      → index < length leaves
      → fold_proof keccak256 (get_or_zero leaves index) (proof (build keccak256 leaves) index)
        ≡ root (build keccak256 leaves)
  unfolding build
  fold_proof-build leaves index h = fold_proof-levels (length leaves) leaves index h (omega arith)
