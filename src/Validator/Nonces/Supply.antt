-- ===== src/Validator/Nonces/Supply.antt =====
-- How many nonces a state still has, and which ones an observed sequence leaves.
use shield_net.Prelude.{
  ℕ, ◌+◌, ◌-◌, ◌*◌, ◌/◌, ◌%◌, ◌≤◌, ◌<◌, ◌≡◌, refl, ap, Option, none, some, [], ◌∷◌, arith, ltb,
  ◌==◌, if◌then◌else◌, Map, get, insert, split_off, last_key_value, IsSorted, saturating_add,
  u64_max, get-split_off, get-insert, insert-IsSorted, get_of_KeysBelow, KeysBelow-of_last,
  eq_nil_of_last, split_off-insert, Option-cases, inl, inr,
}
use shield_net.Validator.Types.{B256, NonceState, NonceIndex}
use shield_net.Validator.Nonces.{
  sequence_chunk_size, observe, expected_chunk, reserve_chunk, capacity, available,
}

-- The sequences of the listed chunks from `next` on, chunk by chunk.
abbrev pub usable : Map (Option B256) → ℕ → ℕ
usable [] next = 0
usable ((key, root) ∷ rest) next =
    ((key + 1) * sequence_chunk_size
      - (if ltb (key * sequence_chunk_size) next then next else key * sequence_chunk_size))
    + usable rest next

capacity-split_off :
    (m : Map (Option B256)) (next : ℕ)
    → capacity (split_off m (next / 1024)) (next / 1024) (next % 1024) ≡ usable m next
unfolding capacity split_off
capacity-split_off [] next = refl
capacity-split_off ((key, root) ∷ rest) next = ground (arith, capacity-split_off rest next)

-- The capacity that the top-up test reads is the sum, over the chunks that are linked or reserved, of
-- the sequences in each that are not before the next one.
pub available-usable : (n : NonceState) → available n ≡ usable n.chunks n.next_sequence
unfolding available
available-usable n = capacity-split_off n.chunks n.next_sequence

capacity-insert :
    (m : Map (Option B256)) (k chunk offset : ℕ) (v : Option B256)
    → get m k ≡ none
    → capacity (insert m k v) chunk offset
      ≡ (if k == chunk then sequence_chunk_size - offset else sequence_chunk_size)
        + capacity m chunk offset
unfolding capacity insert get
capacity-insert [] k chunk offset v h = ground arith
capacity-insert ((key, root) ∷ rest) k chunk offset v h =
    ground (arith, capacity-insert rest k chunk offset v)

-- A chunk is expected that no entry holds, and that still has sequences to come.
pub expected_chunk_fresh :
    (n : NonceState) (c : ℕ)
    → IsSorted n.chunks
    → expected_chunk n ≡ some c
    → (get n.chunks c ≡ none) × (n.next_sequence / 1024 ≤ c)
unfolding expected_chunk
expected_chunk_fresh n c s h = elim (Option-cases (last_key_value n.chunks)) [
  | inl e ↦ let p = eq_nil_of_last n.chunks e in (rw p (unfold get in refl), ground (arith, e))
  | inr ((l, v), e) ↦
      let b = KeysBelow-of_last n.chunks l v s e in
      (get_of_KeysBelow n.chunks (l + 1) c (ground (arith, e)) b, ground (arith, e))
]

pub reserve_chunk-ok :
    (n n' : NonceState) (c : ℕ)
    → reserve_chunk n ≡ (n', some c)
    → (expected_chunk n ≡ some c)
      × (n'.chunks ≡ insert n.chunks c none)
      × (n'.next_sequence ≡ n.next_sequence)
unfolding reserve_chunk
reserve_chunk-ok n n' c h = elim (Option-cases (expected_chunk n)) [
  | inl e ↦ absurd (ground (arith, e))
  | inr (d, e) ↦ (ground (arith, e), ground (arith, e), ground (arith, e))
]

-- Where the chunks are sorted, a reservation takes a chunk that was not there, keeps the others and the
-- order, and adds to the capacity what that chunk has from the next sequence on.
pub available-reserve_chunk :
    (n n' : NonceState) (c : ℕ)
    → IsSorted n.chunks
    → reserve_chunk n ≡ (n', some c)
    → (available n'
        ≡ available n
          + (if c == n.next_sequence / 1024 then 1024 - n.next_sequence % 1024 else 1024))
      × ((k : ℕ) → get n'.chunks k ≡ (if c == k then some none else get n.chunks k))
      × (get n.chunks c ≡ none)
      × IsSorted n'.chunks
unfolding available
available-reserve_chunk n n' c s h =
    let (e, p, q) = reserve_chunk-ok n n' c h in
    let (fresh, ahead) = expected_chunk_fresh n c s e in
    let chunk = n.next_sequence / 1024 in
    let offset = n.next_sequence % 1024 in
    let rest : get (split_off n.chunks chunk) c ≡ none =
      ground (arith, get-split_off n.chunks chunk c, fresh) in
    (
      ground (
        arith,
        p,
        q,
        ap (λ x. capacity x chunk offset) (split_off-insert n.chunks c chunk none ahead),
        capacity-insert (split_off n.chunks chunk) c chunk offset none rest,
      ),
      λ k. rw p (get-insert n.chunks c k none),
      fresh,
      rw p (insert-IsSorted n.chunks c none s),
    )

-- Observing a sequence below the largest u64 makes the one after it the next, and keeps exactly the
-- chunks from the next sequence's on. A nonce that it hands out has the root that is linked at the
-- sequence's chunk, and the sequence's offset in that chunk.
pub observe_lem :
    (n : NonceState) (sequence : ℕ)
    → sequence < u64_max
    → let (n', nonce) = observe n sequence in
      (n'.next_sequence ≡ sequence + 1)
      × ((k : ℕ)
          → get n'.chunks k ≡ (if ltb k ((sequence + 1) / 1024) then none else get n.chunks k))
      × ((index : NonceIndex)
          → nonce ≡ some index
          → (c : ℕ) × (get n.chunks c ≡ some (some index.root))
            × (c * 1024 + index.offset ≡ sequence)
            × (index.offset < 1024))
unfolding observe
observe_lem n sequence h = (
  unfold saturating_add in ground arith,
  λ k.
      unfold saturating_add in
      ground (arith, get-split_off n.chunks (saturating_add sequence 1 / 1024) k),
  λ index e. (sequence / 1024, ground (arith, e), ground (arith, e), ground (arith, e)),
)
