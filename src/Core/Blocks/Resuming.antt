-- ===== src/Core/Blocks/Resuming.antt =====
-- crates/core/src/index/blocks.rs, `initialize`: the first updates lead the state machine to the awaited block.
use shield_net.Prelude.{
  append-nil, ℕ, ◌+◌, ◌≤◌, ◌<◌, ◌≡◌, refl, sym, ap, subst, ◌∙◌, ◌⊎◌, true, false, Option, none,
  some, List, [], ◌∷◌, ◌++◌, arith, leb, if◌then◌else◌, Bool-cases, Option-cases, inl, inr, u64_max,
  checked_add,
}
use shield_net.Core.Snapshots.{BlockStatus, i64_max}
use shield_net.Core.Machine.{BlockUpdate, warp, uncle, new}
use shield_net.Core.Blocks.{BlockHeader, SafeBlock, new_of}
use shield_net.Core.Blocks.Start.{catch_up, first_new, news}
use shield_net.Core.Blocks.Linked.{tip, Linked}
use shield_net.Core.Blocks.Guards.{advance, advance_all, IsDeep}

pub advance_all-append :
    (n : ℕ) (a b : List BlockUpdate)
    → advance_all n (a ++ b) ≡ (elim (advance_all n a) [ none ↦ none | some m ↦ advance_all m b ])
unfolding advance_all
advance_all-append n [] b = refl
advance_all-append n (x ∷ a) b = elim (Option-cases (advance n x)) [
  | inl q ↦ ground (arith, q)
  | inr (m, q) ↦ ground (arith, q, advance_all-append m a b)
]

anchor-le-tip :
    (anchor : SafeBlock) (recent : List BlockHeader)
    → Linked anchor recent
    → anchor.number ≤ (tip anchor recent).number
anchor-le-tip anchor [] l = omega arith
anchor-le-tip anchor (b ∷ bs) l = omega (arith, anchor-le-tip anchor bs l.2, l.1)

news-past :
    (anchor : SafeBlock) (recent : List BlockHeader) (first : ℕ)
    → Linked anchor recent
    → (tip anchor recent).number < first
    → news (some first) recent ≡ []
unfolding news
news-past anchor [] first l h = refl
news-past anchor (b ∷ bs) first l h =
    rw (news-past anchor bs first l.2 (omega (arith, l.1, h))) (ground (arith, h))

-- The first block that is yielded.
abbrev pub IsStart : (first anchor n : ℕ) → Type 0
IsStart first anchor n =
    ((first ≤ anchor + 1) × (n ≡ anchor + 1)) ⊎ ((anchor + 1 ≤ first) × (n ≡ first))

start-eq : (first anchor n : ℕ) → IsStart first anchor n → anchor < first → n ≡ first
start-eq first anchor n s h = ground (arith, s, h)

leb→le : (a b : ℕ) → leb a b ≡ true → a ≤ b
leb→le a b h = ground (arith, h)

not_leb→lt : (a b : ℕ) → leb a b ≡ false → b < a
not_leb→lt a b h = ground (arith, h)

advance-new :
    (n : ℕ) (b : BlockHeader) → n ≡ b.number → advance_all n (new_of b ∷ []) ≡ some (b.number + 1)
unfolding advance advance_all
advance-new n b e = ground (arith, e)

pub advance_all-news :
    (anchor : SafeBlock) (recent : List BlockHeader) (first n : ℕ)
    → Linked anchor recent
    → IsStart first anchor.number n
    → first ≤ (tip anchor recent).number + 1
    → advance_all n (news (some first) recent) ≡ some ((tip anchor recent).number + 1)
unfolding news advance_all
advance_all-news anchor [] first n l s h = ground (arith, s, h)
advance_all-news anchor (b ∷ bs) first n l s h = elim (Bool-cases (leb first b.number)) [
  | inl q ↦
      let below = leb→le first b.number q in
      rw
        (
          q,
          advance_all-append n (news (some first) bs) (new_of b ∷ []),
          advance_all-news anchor bs first n l.2 s (omega (arith, below, l.1)),
        )
        (advance-new ((tip anchor bs).number + 1) b (sym l.1))
  | inr q ↦
      let above = not_leb→lt first b.number q in
      rw (q, news-past anchor bs first l.2 (omega (arith, above, l.1)))
        (ap some (
          start-eq first anchor.number n s (omega (arith, above, l.1, anchor-le-tip anchor bs l.2))
          ∙ omega (arith, above, h)))
]

-- The number that the recent blocks are yielded from, after a warp or without one.
start_after : (first safe : ℕ) → ℕ
start_after first safe = if leb first safe then safe + 1 else first

start_after-IsStart : (first safe : ℕ) → IsStart first safe (start_after first safe)
unfolding start_after
start_after-IsStart first safe = elim (Bool-cases (leb first safe)) [
  | inl q ↦ rw q (inl (omega (arith, leb→le first safe q), refl))
  | inr q ↦ rw q (inr (omega (arith, not_leb→lt first safe q), refl))
]

catch_up-resumed :
    (indexed : BlockStatus) (start : Option ℕ) (safe : ℕ)
    → indexed.safe ≤ indexed.latest
    → indexed.safe < u64_max
    → advance_all (indexed.latest + 1) (catch_up (some indexed) start safe)
      ≡ some (start_after (indexed.safe + 1) safe)
unfolding catch_up checked_add advance advance_all start_after
catch_up-resumed indexed start safe h b = ground (arith, h, b)

first_new-resumed :
    (indexed : BlockStatus) (start : Option ℕ)
    → indexed.safe < u64_max
    → first_new (some indexed) start ≡ some (indexed.safe + 1)
unfolding first_new checked_add
first_new-resumed indexed start b = ground (arith, b)

module _ (anchor : SafeBlock) (recent : List BlockHeader) (l : Linked anchor recent) where
  first_updates :
      (n m first : ℕ) (updates : List BlockUpdate)
      → advance_all n updates ≡ some m
      → IsStart first anchor.number m
      → first ≤ (tip anchor recent).number + 1
      → advance_all n (updates ++ news (some first) recent) ≡ some ((tip anchor recent).number + 1)
  first_updates n m first updates e s h =
      rw (advance_all-append n updates (news (some first) recent), e)
        (advance_all-news anchor recent first m l s h)

  -- After a resume at the snapshots, when the chain is not behind the first of them.
  pub resumed_updates :
      (indexed : BlockStatus) (start : Option ℕ)
      → indexed.safe ≤ indexed.latest
      → indexed.safe ≤ (tip anchor recent).number
      → indexed.safe < u64_max
      → advance_all (indexed.latest + 1) (
          catch_up (some indexed) start anchor.number
          ++ news (first_new (some indexed) start) recent)
        ≡ some ((tip anchor recent).number + 1)
  resumed_updates indexed start h k b = rw (first_new-resumed indexed start b) (
      first_updates (indexed.latest + 1) (start_after (indexed.safe + 1) anchor.number)
        (indexed.safe + 1) (catch_up (some indexed) start anchor.number)
        (catch_up-resumed indexed start anchor.number h b)
        (start_after-IsStart (indexed.safe + 1) anchor.number) (omega (arith, k)))

IsDeep-append :
    (lo safe : ℕ) (updates : List BlockUpdate) (b : BlockHeader)
    → b.number ≤ i64_max
    → IsDeep lo safe updates
    → IsDeep lo safe (updates ++ (new_of b ∷ []))
IsDeep-append lo safe [] b h d = (d, h, d)
IsDeep-append lo safe (warp from to ∷ rest) b h d = (d.0, IsDeep-append to safe rest b h d.1)
IsDeep-append lo safe (uncle number ∷ rest) b h d = (d.0, IsDeep-append lo safe rest b h d.1)
IsDeep-append lo safe (new number hash bloom ∷ rest) b h d =
    (d.0, d.1, IsDeep-append lo safe rest b h d.2)

IsDeep-news :
    (lo : ℕ) (safe : SafeBlock) (recent : List BlockHeader) (first : Option ℕ)
    → lo ≤ safe.number
    → Linked safe recent
    → (tip safe recent).number ≤ i64_max
    → IsDeep lo safe.number (news first recent)
unfolding news
IsDeep-news lo safe recent none h l b = h
IsDeep-news lo safe [] (some first) h l b = h
IsDeep-news lo safe (x ∷ xs) (some first) h l b =
    let before = IsDeep-news lo safe xs (some first) h l.2 (omega (arith, l.1, b)) in
    elim (Bool-cases (leb first x.number)) [
      | inl q ↦ rw q (IsDeep-append lo safe.number (news (some first) xs) x b before)
      | inr q ↦
          rw q (subst (IsDeep lo safe.number) (sym (append-nil (news (some first) xs))) before)
    ]

catch_up-both :
    (indexed : BlockStatus) (start : Option ℕ) (safe : ℕ)
    → indexed.safe < u64_max
    → catch_up (some indexed) start safe
      ≡ (if leb (indexed.safe + 1) indexed.latest then uncle (indexed.safe + 1) ∷ [] else [])
        ++ (if leb (indexed.safe + 1) safe then warp (indexed.safe + 1) safe ∷ [] else [])
unfolding catch_up checked_add
catch_up-both indexed start safe h = ground (arith, h)

-- What is queued after a resume, when the safe block is not below the first snapshot.
pub resumed-IsDeep :
    (indexed : BlockStatus) (start : Option ℕ) (safe : SafeBlock) (recent : List BlockHeader)
    → indexed.safe ≤ safe.number
    → Linked safe recent
    → (tip safe recent).number ≤ i64_max
    → IsDeep indexed.safe safe.number
        (catch_up (some indexed) start safe.number ++ news (first_new (some indexed) start) recent)
resumed-IsDeep indexed start safe recent h l b =
    let first = first_new (some indexed) start in
    let top : safe.number ≤ i64_max = omega (arith, anchor-le-tip safe recent l, b) in
    let rest = IsDeep-news indexed.safe safe recent first h l b in
    let after = IsDeep-news safe.number safe recent first (omega arith) l b in
    rw (catch_up-both indexed start safe.number (omega (arith, h, top)))
      (elim (Bool-cases (leb (indexed.safe + 1) safe.number)) [
        | inl q ↦ elim (Bool-cases (leb (indexed.safe + 1) indexed.latest)) [
          | inl r ↦ rw (q, r) (omega arith, (top, after))
          | inr r ↦ rw (q, r) (top, after)
        ]
        | inr q ↦ elim (Bool-cases (leb (indexed.safe + 1) indexed.latest)) [
          | inl r ↦ rw (q, r) (omega arith, rest)
          | inr r ↦ rw (q, r) rest
        ]
      ])

-- The rollback comes first.
pub resumed_first :
    (indexed : BlockStatus) (start : Option ℕ) (safe : ℕ) (others : List BlockUpdate)
    → indexed.safe < indexed.latest
    → indexed.latest ≤ i64_max
    → (rest : List BlockUpdate) × (catch_up (some indexed) start safe ++ others
        ≡ uncle (indexed.safe + 1) ∷ rest)
resumed_first indexed start safe others h b =
    let q : leb (indexed.safe + 1) indexed.latest ≡ true = ground (arith, h) in
    (
      (if leb (indexed.safe + 1) safe then warp (indexed.safe + 1) safe ∷ [] else []) ++ others,
      rw (catch_up-both indexed start safe (omega (arith, h, b)), q) refl,
    )
