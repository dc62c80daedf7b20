-- ===== src/Core/Transactions/Queries.antt =====
-- The queries on the table of transactions, in any order.
use shield_net.Prelude.{ℕ, ◌≡◌, refl, Option, List, [], ◌∷◌, Result, ok, err}
use shield_net.Core.Transactions.{
  Error, Transaction, Submission, Status, Table, enqueue, next_transaction, record_submission,
  mark_executed, prune, unmark_executed,
}
use shield_net.Core.Transactions.Nonces.{
  IsDistinct, enqueue-IsDistinct, next-IsDistinct, submission-IsDistinct, mark_executed-IsDistinct,
  unmark_executed-IsDistinct, prune-IsDistinct,
}

-- A query that fails leaves the table, but for the call of `next_transaction` whose nonce is no integer.
pub data Query : Type 0 where
  enqueue_batch : List (Transaction × Option ℕ) → Query
  next : Status → Query
  submission : Submission → Query
  mark : Status → Query
  unmark : ℕ → Query
  prune_safe : ℕ → Query

abbrev pub kept : Table → Result Error Table → Table
kept table (ok table') = table'
kept table (err e) = table

unfoldable pub perform : Table → Query → Table
perform table (enqueue_batch batch) = kept table (enqueue table batch)
perform table (next status) = (next_transaction table status).0
perform table (submission s) = kept table (record_submission table s)
perform table (mark status) = kept table (mark_executed table status)
perform table (unmark block) = kept table (unmark_executed table block)
perform table (prune_safe safe) = kept table (prune table safe)

unfoldable pub perform_all : Table → List Query → Table
perform_all table [] = table
perform_all table (q ∷ rest) = perform_all (perform table q) rest

kept-IsDistinct :
    (table : Table) (r : Result Error Table)
    → ((table' : Table) → r ≡ ok table' → IsDistinct table → IsDistinct table')
    → IsDistinct table
    → IsDistinct (kept table r)
kept-IsDistinct table (ok table') f h = f table' refl h
kept-IsDistinct table (err e) f h = h

perform-IsDistinct : (table : Table) (q : Query) → IsDistinct table → IsDistinct (perform table q)
unfolding perform
perform-IsDistinct table (enqueue_batch batch) h =
    kept-IsDistinct table (enqueue table batch) (λ (t : Table). enqueue-IsDistinct table t batch) h
perform-IsDistinct table (next s) h = next-IsDistinct table s h
perform-IsDistinct table (submission s) h =
    kept-IsDistinct table (record_submission table s)
      (λ (t : Table). submission-IsDistinct table t s) h
perform-IsDistinct table (mark s) h =
    kept-IsDistinct table (mark_executed table s)
      (λ (t : Table). mark_executed-IsDistinct table t s) h
perform-IsDistinct table (unmark block) h =
    kept-IsDistinct table (unmark_executed table block)
      (λ (t : Table). unmark_executed-IsDistinct table t block) h
perform-IsDistinct table (prune_safe safe) h =
    kept-IsDistinct table (prune table safe) (λ (t : Table). prune-IsDistinct table t safe) h

-- After any queries on the table, in any order and failed or not, no two of its rows have the same nonce among the
-- integers of 63 bits, if none had before; the REAL 2^63, which SQLite's sum is past them, may repeat.
pub perform_all-IsDistinct :
    (table : Table) (queries : List Query)
    → IsDistinct table
    → IsDistinct (perform_all table queries)
unfolding perform_all
perform_all-IsDistinct table [] h = h
perform_all-IsDistinct table (q ∷ rest) h =
    perform_all-IsDistinct (perform table q) rest (perform-IsDistinct table q h)
