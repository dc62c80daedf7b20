-- ===== src/Core/Transactions/Nonces.antt =====
-- No nonce is given twice.
use shield_net.Prelude.{
  ℕ, ◌≤◌, ◌<◌, ◌≡◌, ◌≢◌, ◌⊎◌, refl, sym, subst, Bool, Bool-cases, Option, none, some, List, [], ◌∷◌,
  ◌++◌, arith, Result, ok, err, Result-cases, inl, inr,
}
use shield_net.Core.Snapshots.{i64_max}
use shield_net.Core.Transactions.{
  Transaction, AllocatedTransaction, Submission, Status, Row, Table, update_all, delete_where,
  enqueue, free_nonce, is_ready, assign, next_transaction, submitted, record_submission, executed,
  mark_executed, is_settled, is_expired, prune, unexecuted, unmark_executed, as_i64, to_i64_opt,
  max, next_id, is_integer, returned, allocate, Error,
}

-- No row has the nonce.
abbrev pub Fresh : Option ℕ → Table → Type 0
Fresh none table = Unit
Fresh (some n) [] = Unit
Fresh (some n) (r ∷ rest) = (r.nonce ≢ some n) × Fresh (some n) rest

-- No row has the nonce, or it is no integer.
abbrev pub IsAlone : Option ℕ → Table → Type 0
IsAlone none table = Unit
IsAlone (some n) table = Fresh (some n) table ⊎ (i64_max < n)

-- No two rows have the same integer nonce.
abbrev pub IsDistinct : Table → Type 0
IsDistinct [] = Unit
IsDistinct (r ∷ rest) = IsAlone r.nonce rest × IsDistinct rest

module _ (f : Row → Row) (keeps : (r : Row) → (f r).nonce ≡ r.nonce) where
  update_all-Fresh : (o : Option ℕ) (table : Table) → Fresh o table → Fresh o (update_all f table)
  unfolding update_all
  update_all-Fresh none table h = tt
  update_all-Fresh (some n) [] h = tt
  update_all-Fresh (some n) (r ∷ rest) h = (rw (keeps r) (h.0), update_all-Fresh (some n) rest h.1)

  update_all-IsAlone :
      (o : Option ℕ) (table : Table) → IsAlone o table → IsAlone o (update_all f table)
  update_all-IsAlone none table h = tt
  update_all-IsAlone (some n) table (inl a) = inl (update_all-Fresh (some n) table a)
  update_all-IsAlone (some n) table (inr b) = inr b

  update_all-IsDistinct : (table : Table) → IsDistinct table → IsDistinct (update_all f table)
  unfolding update_all
  update_all-IsDistinct [] h = tt
  update_all-IsDistinct (r ∷ rest) h =
      (rw (keeps r) (update_all-IsAlone r.nonce rest h.0), update_all-IsDistinct rest h.1)

module _ (p : Row → Bool) where
  delete_where-Fresh :
      (o : Option ℕ) (table : Table) → Fresh o table → Fresh o (delete_where p table)
  unfolding delete_where
  delete_where-Fresh none table h = tt
  delete_where-Fresh (some n) [] h = tt
  delete_where-Fresh (some n) (r ∷ rest) h = elim (Bool-cases (p r)) [
    | inl q ↦ rw q (delete_where-Fresh (some n) rest h.1)
    | inr q ↦ rw q (h.0, delete_where-Fresh (some n) rest h.1)
  ]

  delete_where-IsAlone :
      (o : Option ℕ) (table : Table) → IsAlone o table → IsAlone o (delete_where p table)
  delete_where-IsAlone none table h = tt
  delete_where-IsAlone (some n) table (inl a) = inl (delete_where-Fresh (some n) table a)
  delete_where-IsAlone (some n) table (inr b) = inr b

  delete_where-IsDistinct : (table : Table) → IsDistinct table → IsDistinct (delete_where p table)
  unfolding delete_where
  delete_where-IsDistinct [] h = tt
  delete_where-IsDistinct (r ∷ rest) h = elim (Bool-cases (p r)) [
    | inl q ↦ rw q (delete_where-IsDistinct rest h.1)
    | inr q ↦ rw q (delete_where-IsAlone r.nonce rest h.0, delete_where-IsDistinct rest h.1)
  ]

free_nonce-Fresh :
    (table : Table) (n : ℕ) → n ≤ i64_max → free_nonce table ≤ n → Fresh (some n) table
unfolding free_nonce
free_nonce-Fresh [] n b h = tt
free_nonce-Fresh (r ∷ rest) n b h = (
  λ (e : r.nonce ≡ some n). ground (arith, e, h, b),
  free_nonce-Fresh rest n b (ground (arith, h)),
)

free_nonce-IsAlone : (table : Table) (n : ℕ) → free_nonce table ≤ n → IsAlone (some n) table
free_nonce-IsAlone table n h = elim (Bool-cases (is_integer n)) [
  | inl q ↦ inl (free_nonce-Fresh table n (ground (arith, q)) h)
  | inr q ↦ inr (ground (arith, q))
]

module _ (n block : ℕ) where
  assign-Fresh :
      (o : Option ℕ) (table : Table) → o ≢ some n → Fresh o table → Fresh o (assign table n block).0
  unfolding assign
  assign-Fresh none table d h = tt
  assign-Fresh (some m) [] d h = tt
  assign-Fresh (some m) (r ∷ rest) d h = elim (Bool-cases (is_ready r block)) [
    | inl q ↦ rw q (λ (e : some n ≡ some m). d (sym e), h.1)
    | inr q ↦ rw q (h.0, assign-Fresh (some m) rest d h.1)
  ]

  -- A nonce that is not given, or one that is no integer.
  assign-IsAlone :
      (o : Option ℕ) (table : Table)
      → ((o ≢ some n) ⊎ (i64_max < n))
      → IsAlone o table
      → IsAlone o (assign table n block).0
  assign-IsAlone none table d h = tt
  assign-IsAlone (some m) table d (inr b) = inr b
  assign-IsAlone (some m) table (inl d) (inl h) = inl (assign-Fresh (some m) table d h)
  assign-IsAlone (some m) table (inr b) (inl h) = elim (Bool-cases (is_integer m)) [
    | inl q ↦ inl (assign-Fresh (some m) table (λ e. ground (arith, e, b, q)) h)
    | inr q ↦ inr (ground (arith, q))
  ]

  given-IsAlone : (r : Row) (rest : Table) → IsAlone (some n) (r ∷ rest) → IsAlone (some n) rest
  given-IsAlone r rest (inl f) = inl f.1
  given-IsAlone r rest (inr b) = inr b

  other_nonce :
      (r : Row) (rest : Table) → IsAlone (some n) (r ∷ rest) → ((r.nonce ≢ some n) ⊎ (i64_max < n))
  other_nonce r rest (inl f) = inl f.0
  other_nonce r rest (inr b) = inr b

  assign-IsDistinct :
      (table : Table)
      → IsAlone (some n) table
      → IsDistinct table
      → IsDistinct (assign table n block).0
  unfolding assign
  assign-IsDistinct [] f h = tt
  assign-IsDistinct (r ∷ rest) f h = elim (Bool-cases (is_ready r block)) [
    | inl q ↦ rw q (given-IsAlone r rest f, h.1)
    | inr q ↦ rw q (
      assign-IsAlone r.nonce rest (other_nonce r rest f) h.0,
      assign-IsDistinct rest (given-IsAlone r rest f) h.1,
    )
  ]

queued-Fresh :
    (o : Option ℕ) (table : Table) (r : Row)
    → r.nonce ≡ none
    → Fresh o table
    → Fresh o (table ++ (r ∷ []))
queued-Fresh none table r e h = tt
queued-Fresh (some n) [] r e h = (λ (x : r.nonce ≡ some n). ground (arith, x, e), tt)
queued-Fresh (some n) (s ∷ rest) r e h = (h.0, queued-Fresh (some n) rest r e h.1)

queued-IsAlone :
    (o : Option ℕ) (table : Table) (r : Row)
    → r.nonce ≡ none
    → IsAlone o table
    → IsAlone o (table ++ (r ∷ []))
queued-IsAlone none table r e h = tt
queued-IsAlone (some n) table r e (inl h) = inl (queued-Fresh (some n) table r e h)
queued-IsAlone (some n) table r e (inr b) = inr b

queued-IsDistinct :
    (table : Table) (r : Row) → r.nonce ≡ none → IsDistinct table → IsDistinct (table ++ (r ∷ []))
queued-IsDistinct [] r e h = (subst (λ (x : Option ℕ). IsAlone x []) (sym e) tt, tt)
queued-IsDistinct (s ∷ rest) r e h =
    (queued-IsAlone s.nonce rest r e h.0, queued-IsDistinct rest r e h.1)

pub enqueue-IsDistinct :
    (table table' : Table) (batch : List (Transaction × Option ℕ))
    → enqueue table batch ≡ ok table'
    → IsDistinct table
    → IsDistinct table'
unfolding enqueue
enqueue-IsDistinct table table' [] e h =
    let same : table ≡ table' = ground (arith, e) in subst IsDistinct same h
enqueue-IsDistinct table table' ((x, o) ∷ rest) e h = elim (Result-cases (to_i64_opt o)) [
  | inr (y, q) ↦ absurd (ground (arith, e, q))
  | inl (y, q) ↦
      let r : Row = record {
        id = next_id table;
        request = x;
        fees = none;
        expires_at = y;
        nonce = none;
        submitted_at = none;
        executed_at = none;
      } in
      let e' : enqueue (table ++ (r ∷ [])) rest ≡ ok table' = ground (arith, e, q) in
      enqueue-IsDistinct (table ++ (r ∷ [])) table' rest e' (queued-IsDistinct table r refl h)
]

returned_table : (r : Table × Option AllocatedTransaction) → (returned r).0 ≡ r.0
returned_table (table, none) = refl
returned_table (table, some a) = refl

allocate-IsDistinct :
    (table : Table) (nonce block : Result Error ℕ)
    → IsDistinct table
    → IsDistinct (allocate table nonce block).0
allocate-IsDistinct table (err e) block h = h
allocate-IsDistinct table (ok nonce) (err e) h = h
allocate-IsDistinct table (ok nonce) (ok block) h =
    let n = max nonce (free_nonce table) in
    subst IsDistinct (sym (returned_table (assign table n block)))
      (assign-IsDistinct n block table (free_nonce-IsAlone table n (ground arith)) h)

pub next-IsDistinct :
    (table : Table) (s : Status) → IsDistinct table → IsDistinct (next_transaction table s).0
unfolding next_transaction
next-IsDistinct table s h = allocate-IsDistinct table (as_i64 s.nonce) (as_i64 s.block) h

pub submission-IsDistinct :
    (table table' : Table) (s : Submission)
    → record_submission table s ≡ ok table'
    → IsDistinct table
    → IsDistinct table'
unfolding record_submission as_i64 to_i64_opt
submission-IsDistinct table table' s e h =
    let same : update_all (submitted s.block s.fees s.nonce) table ≡ table' = ground (arith, e) in
    subst IsDistinct same
      (update_all-IsDistinct (submitted s.block s.fees s.nonce) (λ (r : Row). ground arith) table h)

pub mark_executed-IsDistinct :
    (table table' : Table) (s : Status)
    → mark_executed table s ≡ ok table'
    → IsDistinct table
    → IsDistinct table'
unfolding mark_executed as_i64
mark_executed-IsDistinct table table' s e h =
    let same : update_all (executed s.block s.nonce) table ≡ table' = ground (arith, e) in
    subst IsDistinct same
      (update_all-IsDistinct (executed s.block s.nonce) (λ (r : Row). ground arith) table h)

pub unmark_executed-IsDistinct :
    (table table' : Table) (block : ℕ)
    → unmark_executed table block ≡ ok table'
    → IsDistinct table
    → IsDistinct table'
unfolding unmark_executed as_i64
unmark_executed-IsDistinct table table' block e h =
    let same : update_all (unexecuted block) table ≡ table' = ground (arith, e) in
    subst IsDistinct same
      (update_all-IsDistinct (unexecuted block) (λ (r : Row). ground arith) table h)

pub prune-IsDistinct :
    (table table' : Table) (safe : ℕ)
    → prune table safe ≡ ok table'
    → IsDistinct table
    → IsDistinct table'
unfolding prune as_i64
prune-IsDistinct table table' safe e h =
    let kept = delete_where (is_settled safe) table in
    let same : delete_where (is_expired safe) kept ≡ table' = ground (arith, e) in
    subst IsDistinct same (
      delete_where-IsDistinct (is_expired safe) kept
        (delete_where-IsDistinct (is_settled safe) table h))

assign_nonce :
    (table : Table) (n block : ℕ) (a : AllocatedTransaction)
    → (assign table n block).1 ≡ some a
    → a.nonce ≡ n
unfolding assign
assign_nonce [] n block a h = absurd (ground (arith, h))
assign_nonce (r ∷ rest) n block a h = elim (Bool-cases (is_ready r block)) [
  | inl q ↦ ground (arith, h, q)
  | inr q ↦ ground (arith, h, q, assign_nonce rest n block a)
]

returned-ok :
    (r : Table × Option AllocatedTransaction) (table' : Table) (a : AllocatedTransaction)
    → returned r ≡ (table', ok (some a))
    → (r.1 ≡ some a) × (a.nonce ≤ i64_max)
returned-ok (table, none) table' a e = absurd (ground (arith, e))
returned-ok (table, some b) table' a e = (ground (arith, e), ground (arith, e))

-- The transaction that `next_transaction` returns has a nonce that no row of the table had, at or above the
-- account's nonce on the chain; and the nonce is that nonce or one past the largest in the table.
pub next_transaction_lem :
    (table table' : Table) (s : Status) (a : AllocatedTransaction)
    → next_transaction table s ≡ (table', ok (some a))
    → (s.nonce ≤ a.nonce)
      × Fresh (some a.nonce) table
      × ((a.nonce ≡ s.nonce) ⊎ (a.nonce ≡ free_nonce table))
unfolding next_transaction as_i64
next_transaction_lem table table' s a e =
    let n = max s.nonce (free_nonce table) in
    let (given, small) = returned-ok (assign table n s.block) table' a (ground (arith, e)) in
    let same : a.nonce ≡ n = assign_nonce table n s.block a given in
    (
      ground (arith, same),
      free_nonce-Fresh table a.nonce small (ground (arith, same)),
      ground (arith, same),
    )
