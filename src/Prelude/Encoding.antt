-- ===== src/Prelude/Encoding.antt =====
-- Numbers as bytes: big-endian words, and decimal text in ASCII.
use Prim.Native.Nat.{ℕ, zero, suc, ◌+◌, ◌/◌, ◌%◌, ◌^◌, ◌<◌}
use mathlib.Core.Path.{◌≡◌, sym, ◌∙◌}
use mathlib.Core.List.{List, [], ◌∷◌, ◌++◌, append_assoc}
use native.Mathlib.Omega.{arith}
use native.Mathlib.Nat.{pow-suc}
use shield_net.Prelude.Tests.{ltb, if◌then◌else◌}

abbrev pub Bytes : Type 0
Bytes = List ℕ

-- The last `width` bytes of a number, the highest first.
unfoldable pub be_bytes : ℕ → ℕ → Bytes
be_bytes zero n = []
be_bytes (suc width) n = be_bytes width (n / 256) ++ (n % 256) ∷ []

-- A number in decimal, of at most `width` digits.
unfoldable pub digits : ℕ → ℕ → Bytes
digits zero n = []
digits (suc width) n =
    let higher = digits width (n / 10) in
    if ltb n 10 then (48 + n) ∷ [] else higher ++ (48 + n % 10) ∷ []

-- Words of one width, followed by anything, differ or are the same number.
pub be_bytes_inj :
    (width n m : ℕ) (xs ys : Bytes)
    → n < 256 ^ width
    → m < 256 ^ width
    → be_bytes width n ++ xs ≡ be_bytes width m ++ ys
    → (n ≡ m) × (xs ≡ ys)
unfolding be_bytes
be_bytes_inj zero n m xs ys a b e = (omega (arith, a, b), e)
be_bytes_inj (suc width) n m xs ys a b e =
    let higher = n / 256 in
    let higher' = m / 256 in
    let r =
      be_bytes_inj width higher higher' ((n % 256) ∷ xs) ((m % 256) ∷ ys)
        (omega (arith, a, pow-suc 256 width)) (omega (arith, b, pow-suc 256 width))
        (sym (append_assoc (be_bytes width higher) ((n % 256) ∷ []) xs)
          ∙ (e ∙ append_assoc (be_bytes width higher') ((m % 256) ∷ []) ys)) in
    (ground (arith, r.0, r.1), ground (arith, r.1))
