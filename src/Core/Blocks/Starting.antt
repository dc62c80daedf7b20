-- ===== src/Core/Blocks/Starting.antt =====
-- crates/core/src/index/blocks.rs, `initialize`: what the watcher starts with.
use shield_net.Prelude.{
  ℕ, suc, zero, ◌+◌, ◌≤◌, ◌<◌, ◌≡◌, refl, sym, ap, subst, ◌∙◌, Bool, true, false, Option, none,
  some, List, [], ◌∷◌, arith, length, ltb, ◌==◌, if◌then◌else◌, ==→eq, Result, ok, err, Bool-cases,
  Result-cases, Option-cases, inl, inr, u64_max,
}
use shield_net.Core.Blocks.{at_number, BlockHeader, Error, Provider, wrap}
use shield_net.Core.Blocks.Start.{require_block, links, rescan, scan}
use shield_net.Core.Blocks.Linked.{Chained}
use shield_net.Core.Blocks.Feeding.{IsNumbered}

abbrev Top : ℕ → List BlockHeader → Type 0
Top number [] = Unit
Top number (b ∷ bs) = b.number + 1 ≡ number

-- The blocks from `safe` to before `number`.
pub record Scanned (safe number : ℕ) (blocks : List BlockHeader) : Type 0 where
  pub chained : Chained blocks
  pub size : number ≡ safe + length blocks
  pub top : Top number blocks

abbrev pub Found : ℕ → ℕ → Option (Result Error (List BlockHeader)) → Type 0
Found safe last none = Unit
Found safe last (some (err e)) = Unit
Found safe last (some (ok blocks)) = Scanned safe (last + 1) blocks

pub empty-Scanned : (safe : ℕ) → Scanned safe safe []
empty-Scanned safe = record { chained = tt; size = omega arith; top = tt }

Scanned-cons :
    (safe number : ℕ) (block : BlockHeader) (recent : List BlockHeader)
    → Scanned safe number recent
    → links recent block ≡ true
    → block.number ≡ number
    → Scanned safe (number + 1) (block ∷ recent)
Scanned-cons safe number block [] s q e = record {
  chained = tt;
  size = omega (arith, s.size);
  top = ap (λ (k : ℕ). k + 1) e;
}
Scanned-cons safe number block (b ∷ bs) s q e = record {
  chained = (==→eq b.hash block.parent_hash q, omega (arith, e, s.top), s.chained);
  size = omega (arith, s.size);
  top = ap (λ (k : ℕ). k + 1) e;
}

require_block-number :
    (provider : Provider) (calls k : ℕ) (block : BlockHeader)
    → IsNumbered provider
    → require_block provider calls (at_number k) ≡ ok block
    → block.number ≡ k
unfolding require_block
require_block-number provider calls k block numbered e =
    elim (Result-cases (provider calls (at_number k))) [
      | inr (x, q) ↦ absurd (ground (arith, q, e))
      | inl (found, q) ↦ elim (Option-cases found) [
        | inl r ↦ absurd (ground (arith, q, r, e))
        | inr (b, r) ↦
            let same : b ≡ block = ground (arith, q, r, e) in
            (numbered calls k block (q ∙ ap ok (r ∙ ap some same))).0
      ]
    ]

if-Found :
    (safe last : ℕ) (b : Bool) (x y : Option (Result Error (List BlockHeader)))
    → (b ≡ true → Found safe last x)
    → Found safe last y
    → Found safe last (if b then x else y)
if-Found safe last true x y p q = p refl
if-Found safe last false x y p q = q

pub wrap_next : (k last : ℕ) → k ≤ last → last < u64_max → wrap (k + 1) ≡ k + 1
wrap_next k last h small = omega (arith, h, small)

module _ (provider : Provider) (numbered : IsNumbered provider) (safe last : ℕ) (h : safe ≤ last)
    (small : last < u64_max) where
  rescan-Found :
      (fuel calls number : ℕ) (recent : List BlockHeader)
      → Scanned safe number recent
      → number ≤ last + 1
      → Found safe last (rescan provider fuel calls safe last number recent)
  unfolding rescan
  rescan-Found zero calls number recent s b = tt
  rescan-Found (suc fuel) calls number recent s b = elim (Bool-cases (ltb last number)) [
    | inl q ↦ rw q (subst (λ (k : ℕ). Scanned safe k recent) (ground (arith, q, b)) s)
    | inr q ↦ rw q (elim (Result-cases (require_block provider calls (at_number number))) [
      | inr (e, r) ↦ rw r tt
      | inl (block, r) ↦ rw r (
          if-Found safe last (links recent block) _ _
            (λ l.
              subst
                (λ (k : ℕ).
                  Found safe last (rescan provider fuel (calls + 1) safe last k (block ∷ recent)))
                (sym (wrap_next number last (ground (arith, q)) small))
                (rescan-Found fuel (calls + 1) (number + 1) (block ∷ recent)
                  (Scanned-cons safe number block recent s l
                    (require_block-number provider calls number block numbered r))
                  (ground (arith, q))))
            (rescan-Found fuel (calls + 1) safe [] (empty-Scanned safe) (omega (arith, h))))
    ])
  ]

module _ (provider : Provider) (numbered : IsNumbered provider) (safe : ℕ) (last : BlockHeader)
    (h : safe ≤ last.number) (small : last.number < u64_max) where
  pub scan-Found :
      (fuel calls number : ℕ) (recent : List BlockHeader)
      → Scanned safe number recent
      → number ≤ last.number
      → Found safe last.number (scan provider fuel calls safe last number recent)
  unfolding scan
  scan-Found zero calls number recent s b = tt
  scan-Found (suc fuel) calls number recent s b = elim (Bool-cases (number == last.number)) [
    | inl q ↦
        let at : last.number ≡ number = ground (arith, q) in
        rw (q, wrap_next number last.number b small)
          (if-Found safe last.number (links recent last) _ _
            (λ l.
              rescan-Found provider numbered safe last.number h small fuel calls (number + 1)
                (last ∷ recent) (Scanned-cons safe number last recent s l at) (omega (arith, at)))
            (rescan-Found provider numbered safe last.number h small fuel calls safe []
              (empty-Scanned safe) (omega (arith, h))))
    | inr q ↦ rw q (elim (Result-cases (require_block provider calls (at_number number))) [
      | inr (e, r) ↦ rw r tt
      | inl (block, r) ↦ rw r (
          if-Found safe last.number (links recent block) _ _
            (λ l.
              subst
                (λ (k : ℕ).
                  Found safe last.number
                    (scan provider fuel (calls + 1) safe last k (block ∷ recent)))
                (sym (wrap_next number last.number b small))
                (scan-Found fuel (calls + 1) (number + 1) (block ∷ recent)
                  (Scanned-cons safe number block recent s l
                    (require_block-number provider calls number block numbered r))
                  (ground (arith, q, b))))
            (rescan-Found provider numbered safe last.number h small fuel (calls + 1) safe []
              (empty-Scanned safe) (omega (arith, h))))
    ])
  ]
