-- ===== src/Validator/Timeouts/Sweep.antt =====
-- What the pass over the deadlines leaves at each message.
use shield_net.Prelude.{
  ℕ, ◌≡◌, refl, ap, ◌∙◌, ◌<◌, Bool-cases, ==→eq, ==-refl, get-cons, Option, none, some, [], ◌∷◌,
  inl, inr, arith, ◌==◌, if◌then◌else◌, Map, get, Above, IsSorted, get_of_Above,
}
use shield_net.Validator.Types.{B256, SigningState, Transition}
use shield_net.Validator.Timeouts.{expire, sweep, cons_kept, unlink}

module _ (t : Transition) (block next : ℕ) where
  unfoldable pub after : B256 → Option SigningState → Option SigningState
  after m none = none
  after m (some st) = (expire t block next m st).kept

  get-cons_kept :
      (m j : B256) (o : Option SigningState) (rest : Map SigningState)
      → get rest m ≡ none
      → get (cons_kept m o rest) j ≡ (if m == j then o else get rest j)
  unfolding get
  get-cons_kept m j o rest h = ground arith

  -- What a pass leaves at a message depends on what was there alone.
  pub get-sweep :
      (es : Map SigningState) (index : Map B256) (j : B256)
      → IsSorted es
      → get (sweep t block next es index).0 j ≡ after j (get es j)
  unfolding sweep after
  get-sweep [] index j o = unfold get in refl
  get-sweep ((m, st) ∷ rest) index j o =
      let e = expire t block next m st in
      let rest' = (sweep t block next rest (unlink e.unlinked index)).0 in
      let ih : (i : B256) → get rest' i ≡ after i (get rest i) =
        λ i. get-sweep rest (unlink e.unlinked index) i o.1 in
      let clear : get rest' m ≡ none =
        ih m ∙ ap (after m) (get_of_Above rest m m (omega arith) o.0) in
      get-cons_kept m j e.kept rest' clear ∙ (elim (Bool-cases (m == j)) [
        | inl q ↦ rw (==→eq m j q) (rw get-cons (rw (==-refl j)))
        | inr q ↦ rw q (rw get-cons (rw q (ih j)))
      ])

  Above-cons_kept :
      (m j : B256) (o : Option SigningState) (rest : Map SigningState)
      → j < m
      → Above j rest
      → Above j (cons_kept m o rest)
  Above-cons_kept m j none rest l a = a
  Above-cons_kept m j (some st) rest l a = (l, a)

  Above-sweep :
      (j : B256) (es : Map SigningState) (index : Map B256)
      → Above j es
      → Above j (sweep t block next es index).0
  unfolding sweep
  Above-sweep j [] index a = tt
  Above-sweep j ((m, st) ∷ rest) index a =
      Above-cons_kept m j (expire t block next m st).kept
        (sweep t block next rest (unlink (expire t block next m st).unlinked index)).0 a.0
        (Above-sweep j rest (unlink (expire t block next m st).unlinked index) a.1)

  IsSorted-cons_kept :
      (m : B256) (o : Option SigningState) (rest : Map SigningState)
      → Above m rest
      → IsSorted rest
      → IsSorted (cons_kept m o rest)
  IsSorted-cons_kept m none rest a s = s
  IsSorted-cons_kept m (some st) rest a s = (a, s)

  pub sweep-IsSorted :
      (es : Map SigningState) (index : Map B256)
      → IsSorted es
      → IsSorted (sweep t block next es index).0
  unfolding sweep
  sweep-IsSorted [] index o = tt
  sweep-IsSorted ((m, st) ∷ rest) index o =
      let index' = unlink (expire t block next m st).unlinked index in
      IsSorted-cons_kept m (expire t block next m st).kept (sweep t block next rest index').0
        (Above-sweep m rest index' o.0) (sweep-IsSorted rest index' o.1)
