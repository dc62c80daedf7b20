-- ===== src/Sentinel/Advance.antt =====
-- crates/sentinel/src/service.rs, `handle_block_advance`: every request meets its deadlines on its own.
use shield_net.Prelude.{
  ℕ, ◌≡◌, refl, ap, false, List, [], ◌∷◌, ◌++◌, arith, ◌==◌, ==→eq, Bool-cases, inl, inr, get,
  IsSorted, Above, get_of_Above,
}
use mathlib.Core.List.{append-nil}
use shield_net.Sentinel.Types.{B256, SentinelRequestState, State, Command}
use shield_net.Sentinel.Hashing.{SentinelTransition}
use shield_net.Sentinel.Tally.{advance_entry, finalize_votes, put_back, handle_block_advance}
use shield_net.Sentinel.Lifecycle.{expire, concerning}

pub concerning-append :
    (id : B256) (a b : List Command) → concerning id (a ++ b) ≡ concerning id a ++ concerning id b
unfolding concerning
concerning-append id [] b = refl
concerning-append id (c ∷ a) b = ground (arith, concerning-append id a b)

module _ (t : SentinelTransition) (block : ℕ) where
  advance_entry-other :
      (id j : B256) (entry : SentinelRequestState)
      → (id == j) ≡ false
      → concerning j (advance_entry t block id entry).1 ≡ []
  unfolding advance_entry finalize_votes concerning
  advance_entry-other id j entry h = ground (arith, h)

  Above-handle_block_advance :
      (k : ℕ) (s : State) → Above k s → Above k (handle_block_advance t s block).0
  unfolding handle_block_advance put_back
  Above-handle_block_advance k [] a = tt
  Above-handle_block_advance k ((id, entry) ∷ s) a =
      ground (arith, Above-handle_block_advance k s a.1)

  pub handle_block_advance-IsSorted :
      (s : State) → IsSorted s → IsSorted (handle_block_advance t s block).0
  unfolding handle_block_advance put_back
  handle_block_advance-IsSorted [] h = tt
  handle_block_advance-IsSorted ((id, entry) ∷ s) h =
      ground (arith, handle_block_advance-IsSorted s h.1, Above-handle_block_advance id s h.0)

  pub get-handle_block_advance :
      (s : State) (j : B256)
      → IsSorted s
      → get (handle_block_advance t s block).0 j ≡ (expire t j block (get s j)).0
  unfolding handle_block_advance put_back get expire
  get-handle_block_advance [] j h = refl
  get-handle_block_advance ((id, entry) ∷ s) j h = elim (Bool-cases (id == j)) [
    | inl q ↦
        ground
          (arith, q, ==→eq id j q, get_of_Above s id id, h.0, get-handle_block_advance s id h.1)
    | inr q ↦ ground (arith, q, get-handle_block_advance s j h.1)
  ]

  pub concerning-handle_block_advance :
      (s : State) (j : B256)
      → IsSorted s
      → concerning j (handle_block_advance t s block).1
        ≡ concerning j (expire t j block (get s j)).1
  unfolding handle_block_advance get expire concerning
  concerning-handle_block_advance [] j h = refl
  concerning-handle_block_advance ((id, entry) ∷ s) j h =
      rw concerning-append (elim (Bool-cases (id == j)) [
        | inl q ↦
            rw
              (
                concerning-handle_block_advance s j h.1,
                get_of_Above s id j (ground (arith, q)) h.0,
                q,
                append-nil,
              )
              (ap (λ k. concerning j (advance_entry t block k entry).1) (==→eq id j q))
        | inr q ↦
            rw (advance_entry-other id j entry q, q, concerning-handle_block_advance s j h.1) refl
      ])
