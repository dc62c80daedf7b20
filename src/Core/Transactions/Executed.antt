-- ===== src/Core/Transactions/Executed.antt =====
-- Executed transactions under reorgs.
use shield_net.Prelude.{
  ℕ, ◌<◌, ◌≡◌, refl, true, false, Bool-cases, Option, none, some, [], ◌∷◌, arith, ok, inl, inr, leb,
}
use shield_net.Core.Snapshots.{to_i64}
use shield_net.Core.Transactions.{
  Status, Row, Table, update_all, as_i64, executed, mark_executed, lies_below, unexecuted,
  unmark_executed,
}

-- What is executed was executed before `block`.
abbrev pub Before : ℕ → Option ℕ → Type 0
Before block none = Unit
Before block (some n) = n < block

abbrev pub IsBefore : ℕ → Table → Type 0
IsBefore block [] = Unit
IsBefore block (r ∷ rest) = Before block r.executed_at × IsBefore block rest

marked_row :
    (r : Row) (e : Option ℕ) (block nonce : ℕ)
    → Before block e
    → unexecuted block (executed block nonce (record r { executed_at = e }))
      ≡ record r { executed_at = e }
marked_row r none block nonce h = elim (Bool-cases (lies_below r.nonce nonce)) [
  | inl y ↦ let z : leb block block ≡ true = ground arith in rw y (rw z refl)
  | inr y ↦ rw y refl
]
marked_row r (some n) block nonce h =
    let z : leb block n ≡ false = ground (arith, h) in
    elim (Bool-cases (lies_below r.nonce nonce)) [
      | inl y ↦ rw y (rw z refl)
      | inr y ↦ rw y (rw z refl)
    ]

row_restored :
    (r : Row) (block nonce : ℕ)
    → Before block r.executed_at
    → unexecuted block (executed block nonce r) ≡ r
row_restored r block nonce h = marked_row r r.executed_at block nonce h

rows_restored :
    (table : Table) (block nonce : ℕ)
    → IsBefore block table
    → update_all (unexecuted block) (update_all (executed block nonce) table) ≡ table
unfolding update_all
rows_restored [] block nonce h = refl
rows_restored (r ∷ rest) block nonce h =
    rw (row_restored r block nonce h.0, rows_restored rest block nonce h.1) refl

-- The uncle of a block undoes what the block marked: where every executed row was executed before it, a successful
-- marking at that block and then the unmarking of the block give back the table.
pub unmark_executed-mark_executed :
    (table table' : Table) (s : Status)
    → IsBefore s.block table
    → mark_executed table s ≡ ok table'
    → unmark_executed table' s.block ≡ ok table
unfolding mark_executed unmark_executed as_i64 to_i64
unmark_executed-mark_executed table table' s h e =
    let same : update_all (executed s.block s.nonce) table ≡ table' = ground (arith, e) in
    ground (arith, e, same, rows_restored table s.block s.nonce h)
