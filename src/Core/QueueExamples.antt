-- ===== src/Core/QueueExamples.antt =====
-- A small table of transactions, for the theorems on the transaction queue.
use shield_net.Prelude.{inl, ℕ, ◌*◌, ◌≤◌, ◌≡◌, ◌⊎◌, refl, none, some, List, [], ◌∷◌, arith, ok}
use shield_net.Core.Snapshots.{to_i64}
use shield_net.Core.Transactions.{
  Transaction, Row, Table, allocated, assign, free_nonce, next_transaction, as_i64, update_all,
  mark_executed, unmark_executed,
}
use shield_net.Core.Transactions.Nonces.{Fresh, IsDistinct, next_transaction_lem}
use shield_net.Core.Transactions.Queries.{
  Query, next, mark, unmark, enqueue_batch, perform_all, perform_all-IsDistinct,
}
use shield_net.Core.Transactions.Executed.{unmark_executed-mark_executed}
use shield_net.Core.Transactions.Replacement.{u128_max, build, build-Replaces}

abbrev transfer : Transaction
transfer = record { to = 1; value = 2; calldata = []; gas = 21000 }

-- A row that was executed at block 8, one in flight, one expired and one queued.
abbrev done_row : Row
done_row = record {
  id = 1;
  request = transfer;
  fees = some (record { max_fee_per_gas = 50; max_priority_fee_per_gas = 5 });
  expires_at = none;
  nonce = some 3;
  submitted_at = some 7;
  executed_at = some 8;
}

abbrev flying_row : Row
flying_row = record done_row { id = 2; nonce = some 4; submitted_at = some 8; executed_at = none }

abbrev expired_row : Row
expired_row = record done_row {
  id = 3;
  fees = none;
  expires_at = some 9;
  nonce = none;
  submitted_at = none;
  executed_at = none;
}

abbrev queued_row : Row
queued_row = record expired_row { id = 4; expires_at = some 20 }

abbrev queue : Table
queue = done_row ∷ flying_row ∷ expired_row ∷ queued_row ∷ []

queue-IsDistinct : IsDistinct queue
queue-IsDistinct = (
  inl (λ e. ground (arith, e), (λ e. ground (arith, e), (λ e. ground (arith, e), tt))),
  (inl (λ e. ground (arith, e), (λ e. ground (arith, e), tt)), (tt, (tt, tt))),
)

abbrev five : ℕ
five = 5

abbrev queries : List Query
queries =
    next (record { block = 9; nonce = 4 })
    ∷ mark (record { block = 10; nonce = 6 })
    ∷ unmark 10
    ∷ enqueue_batch ((transfer, some 30) ∷ [])
    ∷ next (record { block = 10; nonce = 4 })
    ∷ []

perform_all-IsDistinct_example : IsDistinct (perform_all queue queries)
perform_all-IsDistinct_example = perform_all-IsDistinct queue queries queue-IsDistinct

next_transaction_lem_example :
    (4 ≤ five) × Fresh (some five) queue × ((five ≡ 4) ⊎ (five ≡ free_nonce queue))
unfolding next_transaction as_i64 to_i64 assign free_nonce
next_transaction_lem_example =
    next_transaction_lem queue
      (done_row ∷ flying_row ∷ expired_row ∷ record queued_row { nonce = some 5 } ∷ [])
      (record { block = 9; nonce = 4 }) (allocated queued_row 5) refl

unmark_executed-mark_executed_example :
    unmark_executed
      (done_row ∷ record flying_row { executed_at = some 9 } ∷ expired_row ∷ queued_row ∷ [])
      9
    ≡ ok queue
unfolding mark_executed as_i64 to_i64 update_all
unmark_executed-mark_executed_example =
    unmark_executed-mark_executed queue
      (done_row ∷ record flying_row { executed_at = some 9 } ∷ expired_row ∷ queued_row ∷ [])
      (record { block = 9; nonce = 5 }) (omega arith, (tt, (tt, (tt, tt)))) refl

build-Replaces_example :
    let built =
      build
        (allocated flying_row 4)
        100
        (record { max_fee_per_gas = 40; max_priority_fee_per_gas = 6 }) in
    (built.nonce ≡ 4)
    × ((40 ≤ built.max_fee_per_gas)
        × ((11 * 50 ≤ 10 * built.max_fee_per_gas) ⊎ (u128_max ≤ built.max_fee_per_gas))
        × (50 ≤ built.max_fee_per_gas))
    × ((6 ≤ built.max_priority_fee_per_gas)
        × ((11 * 5 ≤ 10 * built.max_priority_fee_per_gas)
            ⊎ (u128_max ≤ built.max_priority_fee_per_gas))
        × (5 ≤ built.max_priority_fee_per_gas))
build-Replaces_example =
    build-Replaces (allocated flying_row 4) 100
      (record { max_fee_per_gas = 40; max_priority_fee_per_gas = 6 }) 50 5 refl refl (omega arith)
      (omega arith)
