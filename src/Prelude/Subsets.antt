-- ===== src/Prelude/Subsets.antt =====
-- Containment of key sets, and its count.
use Prim.Native.Nat.{ℕ, suc, ◌≤◌}
use mathlib.Core.Path.{◌≡◌}
use mathlib.Core.Bool.{true, false}
use mathlib.Core.Logic.{inl, inr}
use mathlib.Core.List.{[], ◌∷◌}
use native.Mathlib.Omega.{arith}
use shield_net.Prelude.Tests.{◌==◌, if◌then◌else◌, Bool-cases}
use shield_net.Prelude.Maps.{
  Map, get, insert, contains_key, Above, IsSorted, length, get_of_Above, get-insert,
}

-- Every key of `a` is one of `b`.
abbrev pub Sub {ℓ κ} : {V : Type ℓ} {W : Type κ} → Map V → Map W → Type 0
Sub a b = (j : ℕ) → contains_key a j ≡ true → contains_key b j ≡ true

module _ {V : Type 0} where
  pub contains_key-cons :
      (m : Map V) (i j : ℕ) (v : V)
      → contains_key ((i, v) ∷ m) j ≡ (if i == j then true else contains_key m j)
  unfolding contains_key get
  contains_key-cons m i j v = ground arith

  pub contains_key_of_Above : (m : Map V) (k j : ℕ) → j ≤ k → Above k m → contains_key m j ≡ false
  unfolding contains_key
  contains_key_of_Above m k j h a = ground (arith, get_of_Above m k j h a)

  pub contains_key-insert :
      (m : Map V) (k j : ℕ) (v : V)
      → contains_key (insert m k v) j ≡ (if k == j then true else contains_key m j)
  unfolding contains_key
  contains_key-insert m k j v = ground (arith, get-insert m k j v)

  -- Whatever `a` holds besides its least key `i` lies above it.
  Above-head : (a : Map V) (i j : ℕ) → Above i a → contains_key a j ≡ true → (i == j) ≡ false
  Above-head a i j o h = elim (Bool-cases (i == j)) [
    | inl q ↦ absurd (ground (arith, h, q, contains_key_of_Above a i j (ground (arith, q)) o))
    | inr q ↦ q
  ]

module _ {V W : Type 0} where
  -- With one least key, the rests are contained in one another.
  Sub-tail :
      (a : Map V) (b : Map W) (i k : ℕ) (x : V) (y : W)
      → i ≡ k
      → Above i a
      → Sub ((i, x) ∷ a) ((k, y) ∷ b)
      → Sub a b
  Sub-tail a b i k x y e o s j h =
      let q : (i == j) ≡ false = Above-head a i j o h in
      ground (arith, s j, contains_key-cons a i j x, contains_key-cons b k j y)

  -- A least key of `b` that is not one of `a` is not needed.
  Sub-skip :
      (a : Map V) (b : Map W) (i k : ℕ) (x : V) (y : W)
      → (k == i) ≡ false
      → Above i a
      → Above k b
      → Sub ((i, x) ∷ a) ((k, y) ∷ b)
      → Sub ((i, x) ∷ a) b
  Sub-skip a b i k x y ne o ob s j h =
      let here : contains_key b i ≡ true =
        ground (arith, s i, contains_key-cons a i i x, contains_key-cons b k i y) in
      let q : (k == j) ≡ false = elim (Bool-cases (k == j)) [
        | inl q ↦ absurd (
            ground (
              arith,
              contains_key_of_Above b k i,
              contains_key-cons a i j x,
              contains_key_of_Above a i j,
            ))
        | inr q ↦ q
      ] in
      ground (arith, s j, contains_key-cons b k j y)

  -- `a` has at most as many keys as `b`, and where it has as many it has the same.
  pub Sub-count :
      (a : Map V) (b : Map W)
      → IsSorted a
      → IsSorted b
      → Sub a b
      → (length a ≤ length b) × (length b ≤ length a → Sub b a)
  unfolding contains_key get
  Sub-count [] [] oa ob s = (omega arith, λ _ j h. h)
  Sub-count [] ((k, y) ∷ b) oa ob s = (omega arith, λ h. absurd (omega arith))
  Sub-count ((i, x) ∷ a) [] oa ob s = absurd (ground (arith, s i))
  Sub-count ((i, x) ∷ a) ((k, y) ∷ b) oa ob s =
      let same : (k == i) ≡ true → (length a ≤ length b) × (length b ≤ length a → Sub b a) =
        λ q. Sub-count a b oa.1 ob.1 (Sub-tail a b i k x y (ground (arith, q)) oa.0 s) in
      let skip : (k == i) ≡ false → suc (length a) ≤ length b =
        λ q. (Sub-count ((i, x) ∷ a) b oa ob.1 (Sub-skip a b i k x y q oa.0 ob.0 s)).0 in
      elim (Bool-cases (k == i)) [
        | inl q ↦
            let (c, f) = same q in
            (
              omega arith,
              λ h j hj.
                  ground (
                    arith,
                    f (omega arith) j,
                    contains_key-cons b k j y,
                    contains_key-cons a i j x,
                  ),
            )
        | inr q ↦ let c = skip q in (omega arith, λ h. absurd (omega arith))
      ]
