-- ===== src/Validator/Stalls/Deadlines.antt =====
-- The pass over the deadlines of key generation.
use shield_net.Prelude.{
  ℕ, ◌<◌, ◌≡◌, refl, sym, subst, true, false, Option, none, some, [], ◌∷◌, arith, Map, contains_key,
  contains_key-cons, length, IsSorted, Sub, Sub-count, saturating_add,
}
use shield_net.Validator.Epoch.{EpochId, number}
use shield_net.Validator.Types.{
  Address, Opaque, Set, Group, KeyGenCommitment, Complaint, RolloverState, State, Transition,
}
use shield_net.Validator.Groups.{remove_all, extend_set, also_exclude, exclude_all_others}
use shield_net.Validator.Groups.Members.{contains_key-remove_all, contains_key-extend_set}
use shield_net.Validator.Participation.{keys}
use shield_net.Validator.Keygen.{
  is_empty, fail_rollover, restart_key_gen_excluding, key_set, unresponded_to, stuck_epoch,
  stalled_round, handle_key_gen_timeouts,
}
use shield_net.Validator.Stalls.{
  candidates, IsFormed, Shrinks, IsStalled, setup, commitments, shares, complaints, confirmations,
}
use shield_net.Validator.Stalls.Remaining.{
  contains_key-key_set, candidates-IsSorted, restart-Shrinks,
}

unresponded_to-Sub : (c : Map Complaint) → Sub (unresponded_to c) c
unfolding unresponded_to contains_key
unresponded_to-Sub [] j h = h
unresponded_to-Sub ((k, x) ∷ rest) j h = ground (
  arith,
  h,
  unresponded_to-Sub rest j,
  contains_key-cons (unresponded_to rest) k j tt,
  contains_key-cons rest k j x,
)

module _ (t : Transition) (n : ℕ) (s : State) (g : Group) (f : IsFormed t n g) where
  others-Shrinks :
      {V : Type 0} (c : Map V) (only : Set) (d : Option ℕ)
      → ((j : Address) → contains_key only j ≡ contains_key c j)
      → IsSorted c
      → length c < g.count
      → Shrinks t n g
          (restart_key_gen_excluding t s (number n) (exclude_all_others g only) d).0.rollover
  unfolding exclude_all_others also_exclude
  others-Shrinks c only d same o l =
      let gone = remove_all g.participants only in
      let excluded = extend_set g.excluded gone in
      restart-Shrinks t n s g excluded d f
        (λ (j : Address) (h : contains_key g.excluded j ≡ true).
          ground (arith, h, contains_key-extend_set g.excluded gone j))
        (λ (w : Sub g.participants (remove_all (candidates t n) excluded)).
          let all : Sub g.participants c =
            λ (j : Address) (h : contains_key g.participants j ≡ true). ground (
              arith,
              h,
              w j,
              same j,
              contains_key-remove_all (candidates t n) excluded j,
              contains_key-extend_set g.excluded gone j,
              contains_key-remove_all g.participants only j,
            ) in
          let sorted : IsSorted g.participants =
            subst (λ (x : Set). IsSorted x) (sym f.members) (candidates-IsSorted t n g.excluded) in
          let (fewer, _) = Sub-count g.participants c sorted o all in
          ground (arith, fewer, l, f.counted))

  also-Shrinks :
      (out : Set) (d : Option ℕ)
      → is_empty out ≡ false
      → Sub out g.participants
      → Shrinks t n g (restart_key_gen_excluding t s (number n) (also_exclude g out) d).0.rollover
  unfolding also_exclude
  also-Shrinks [] d e sub = absurd (ground (arith, e))
  also-Shrinks ((k, u) ∷ rest) d e sub =
      let out = (k, u) ∷ rest in
      let excluded = extend_set g.excluded out in
      restart-Shrinks t n s g excluded d f
        (λ (j : Address) (h : contains_key g.excluded j ≡ true).
          ground (arith, h, contains_key-extend_set g.excluded out j))
        (λ (w : Sub g.participants (remove_all (candidates t n) excluded)). ground (
          arith,
          w k,
          sub k,
          contains_key-remove_all (candidates t n) excluded k,
          contains_key-extend_set g.excluded out k,
          contains_key-cons rest k k u,
        ))

timeouts_stuck :
    (t : Transition) (s : State) (block : ℕ) (e : EpochId)
    → stuck_epoch s.rollover block ≡ some e
    → handle_key_gen_timeouts t s block ≡ fail_rollover s e
unfolding handle_key_gen_timeouts
timeouts_stuck t s block e h = rw (h, handle_key_gen_timeouts) refl

timeouts_restart :
    (t : Transition) (s : State) (block : ℕ) (e : EpochId) (excluded : Set)
    → stuck_epoch s.rollover block ≡ none
    → stalled_round s.rollover block ≡ some (e, excluded)
    → handle_key_gen_timeouts t s block
      ≡ restart_key_gen_excluding t s e excluded (some (saturating_add block t.key_gen_timeout))
unfolding handle_key_gen_timeouts
timeouts_restart t s block e excluded h k = rw (h, k, handle_key_gen_timeouts) refl

open_round :
    {t : Transition} (n : ℕ) (g : Group) (secrets : KeyGenCommitment) (c : Map Opaque) (d block : ℕ)
    → IsFormed t n g
    → length c < g.count
    → stuck_epoch (RolloverState.collecting_commitments (number n) g secrets c (some d)) block
      ≡ none
unfolding stuck_epoch
open_round n g (KeyGenCommitment.participating poap none) c d block f l = ground (arith, f.small)
open_round n g _ c d block f l = refl

-- A key generation that stalls ends. Take an attempt at epoch `n` whose group is the participants active in the
-- epoch without those that it excludes, with as many members as its 16-bit count, at a block at or past its
-- deadline. Where its own setup has not resumed although all have committed; or the sorted map of those who have
-- committed, published their shares or confirmed is smaller than the group, with no open complaint in the last
-- case; or, past the deadline for responses, all complaints are against members and one is open: the block's pass
-- over the deadlines gives up the epoch, or starts an attempt at it whose group is of the same kind and is a part
-- of the old group with fewer members.
pub handle_key_gen_timeouts-Shrinks :
    (t : Transition) (n : ℕ) (s : State) (g : Group) (block : ℕ)
    → IsFormed t n g
    → IsStalled n g s.rollover block
    → Shrinks t n g (handle_key_gen_timeouts t s block).0.rollover
handle_key_gen_timeouts-Shrinks t n s g block f (setup poap c d e l q) =
    rw (timeouts_stuck t s block (number n) (unfold stuck_epoch in ground (arith, e, l, q)))
      (Shrinks.skipped refl)
handle_key_gen_timeouts-Shrinks t n s g block f (commitments secrets c d e l o q) =
    let excluded = exclude_all_others g (key_set c) in
    rw
      (timeouts_restart t s block (number n) excluded (rw e (open_round n g secrets c d block f q))
        (unfold stalled_round in ground (arith, e, l)))
      (others-Shrinks t n s g f c (key_set c) _ (contains_key-key_set c) o q)
handle_key_gen_timeouts-Shrinks t n s g block f (shares p keys sh c d e l o q) =
    let excluded = exclude_all_others g (key_set keys) in
    rw
      (timeouts_restart t s block (number n) excluded (unfold stuck_epoch in ground (arith, e))
        (unfold stalled_round in ground (arith, e, l)))
      (others-Shrinks t n s g f keys (key_set keys) _ (contains_key-key_set keys) o q)
handle_key_gen_timeouts-Shrinks t n s g block f (complaints p st cf c d e l sub q) =
    let excluded = also_exclude g (unresponded_to c) in
    rw
      (timeouts_restart t s block (number n) excluded (unfold stuck_epoch in ground (arith, e))
        (unfold stalled_round in ground (arith, e, l, q)))
      (also-Shrinks t n s g f (unresponded_to c) _ q
        (λ (j : Address) (h : contains_key (unresponded_to c) j ≡ true).
          sub j (unresponded_to-Sub c j h)))
handle_key_gen_timeouts-Shrinks t n s g block f (confirmations p st cf c d e l q o r) =
    let excluded = exclude_all_others g cf in
    rw
      (timeouts_restart t s block (number n) excluded (unfold stuck_epoch in ground (arith, e))
        (unfold stalled_round in ground (arith, e, l, q)))
      (others-Shrinks t n s g f cf cf _ (λ (j : Address). refl) o r)
