-- ===== src/Core/Transactions.antt =====
-- crates/core/src/tx/storage.rs: the table of queued transactions. A row is a record, in the order of the ids; a
-- query is the operation on the rows that its SQL text says. The JSON column holds the record that it encodes.
pub mod Nonces
pub mod Queries
pub mod Executed
pub mod Replacement
use shield_net.Prelude.{
  ℕ, ◌+◌, Bool, true, false, not, ◌&&◌, ◌||◌, Option, none, some, List, [], ◌∷◌, ◌++◌, leb, ltb,
  ◌==◌, if◌then◌else◌, Result, ok, err, map_err, ◌>>=◌, length,
}
use shield_net.Core.Snapshots
use shield_net.Core.Snapshots.{to_i64, i64_max}

pub data Error : Type 0 where
  overflow : Error
  serialization : Error
  nonce_not_found : ℕ → Error

-- types.rs
pub record Transaction : Type 0 where
  pub to : ℕ
  pub value : ℕ
  pub calldata : List ℕ
  pub gas : ℕ

pub record AllocatedTransaction : Type 0 where
  pub nonce : ℕ
  pub transaction : Transaction
  pub max_fee_per_gas : Option ℕ
  pub max_priority_fee_per_gas : Option ℕ

-- alloy's estimate
pub record Fees : Type 0 where
  pub max_fee_per_gas : ℕ
  pub max_priority_fee_per_gas : ℕ

pub record Submission : Type 0 where
  pub block : Option ℕ
  pub nonce : ℕ
  pub fees : Fees

pub record Status : Type 0 where
  pub block : ℕ
  pub nonce : ℕ

-- The columns; the fees are keys of the request that `record_submission` sets.
pub record Row : Type 0 where
  pub id : ℕ
  pub request : Transaction
  pub fees : Option Fees
  pub expires_at : Option ℕ
  pub nonce : Option ℕ
  pub submitted_at : Option ℕ
  pub executed_at : Option ℕ

abbrev pub Table : Type 0
Table = List Row

abbrev pub is_some : Option ℕ → Bool
is_some none = false
is_some (some n) = true

-- Comparisons with a column, which `NULL` fails.
abbrev pub lies_below : Option ℕ → ℕ → Bool
lies_below none n = false
lies_below (some m) n = ltb m n

abbrev pub lies_upto : Option ℕ → ℕ → Bool
lies_upto none n = false
lies_upto (some m) n = leb m n

abbrev pub lies_from : Option ℕ → ℕ → Bool
lies_from none n = false
lies_from (some m) n = leb n m

-- `expires_at IS NULL OR expires_at > ?`
abbrev pub is_unexpired : Row → ℕ → Bool
is_unexpired r block = not (is_some r.expires_at) || not (lies_upto r.expires_at block)

unfoldable pub update_all : (Row → Row) → Table → Table
update_all f [] = []
update_all f (r ∷ rest) = f r ∷ update_all f rest

unfoldable pub delete_where : (Row → Bool) → Table → Table
delete_where p [] = []
delete_where p (r ∷ rest) = let others = delete_where p rest in if p r then others else r ∷ others

unfoldable pub count_where : (Row → Bool) → Table → ℕ
count_where p [] = 0
count_where p (r ∷ rest) = let n = count_where p rest in if p r then n + 1 else n

-- `map(i64::try_from).transpose()?`
unfoldable pub to_i64_opt : Option ℕ → Result Error (Option ℕ)
unfolding to_i64
to_i64_opt none = ok none
to_i64_opt (some n) = elim (to_i64 n) [ ok m ↦ ok (some m) | err e ↦ err overflow ]

unfoldable pub as_i64 : ℕ → Result Error ℕ
unfolding to_i64
as_i64 n = elim (to_i64 n) [ ok m ↦ ok m | err e ↦ err overflow ]

-- INTEGER PRIMARY KEY
unfoldable pub next_id : Table → ℕ
next_id [] = 1
next_id (r ∷ []) = r.id + 1
next_id (r ∷ s ∷ rest) = next_id (s ∷ rest)

-- The batch is one transaction of the database.
unfoldable pub enqueue : Table → List (Transaction × Option ℕ) → Result Error Table
unfolding to_i64_opt next_id
enqueue table [] = ok table
enqueue table ((transaction, expires) ∷ rest) = do
  expires_at ← to_i64_opt expires
  enqueue
      (table
        ++ (record {
          id = next_id table;
          request = transaction;
          fees = none;
          expires_at = expires_at;
          nonce = none;
          submitted_at = none;
          executed_at = none;
        }
            ∷ []))
      rest

abbrev pub is_in_flight : Row → Bool
is_in_flight r = is_some r.nonce && not (is_some r.executed_at)

unfoldable pub count_in_flight : Table → ℕ
unfolding count_where
count_in_flight table = count_where is_in_flight table

abbrev pub max : ℕ → ℕ → ℕ
max a b = if leb a b then b else a

-- Whether a value of the column is an INTEGER. The sum past the largest one is the REAL 2^63, which adding 1
-- leaves, and which is no `u64` of the JSON text that is read back; the number 2^63 stands for it.
abbrev pub is_integer : ℕ → Bool
is_integer n = leb n i64_max

abbrev pub after_nonce : Option ℕ → ℕ
after_nonce none = 0
after_nonce (some n) = if ltb n i64_max then n + 1 else i64_max + 1

-- COALESCE(MAX(nonce) + 1, 0)
unfoldable pub free_nonce : Table → ℕ
free_nonce [] = 0
free_nonce (r ∷ rest) = max (after_nonce r.nonce) (free_nonce rest)

abbrev pub fee_of : Option Fees → Option ℕ
fee_of none = none
fee_of (some f) = some f.max_fee_per_gas

abbrev pub priority_of : Option Fees → Option ℕ
priority_of none = none
priority_of (some f) = some f.max_priority_fee_per_gas

abbrev pub allocated : Row → ℕ → AllocatedTransaction
allocated r nonce = record {
  nonce = nonce;
  transaction = r.request;
  max_fee_per_gas = fee_of r.fees;
  max_priority_fee_per_gas = priority_of r.fees;
}

abbrev pub is_ready : Row → ℕ → Bool
is_ready r block = not (is_some r.nonce) && is_unexpired r block

unfoldable pub assign : Table → ℕ → ℕ → Table × Option AllocatedTransaction
assign [] nonce block = ([], none)
assign (r ∷ rest) nonce block =
    let others = assign rest nonce block in
    if is_ready r block
    then (record r { nonce = some nonce } ∷ rest, some (allocated r nonce))
    else (r ∷ others.0, others.1)

-- The row that the update returns is read after the update.
abbrev pub returned :
    Table × Option AllocatedTransaction → Table × Result Error (Option AllocatedTransaction)
returned (table, none) = (table, ok none)
returned (table, some a) = (table, if is_integer a.nonce then ok (some a) else err serialization)

abbrev pub allocate :
    Table → (nonce block : Result Error ℕ) → Table × Result Error (Option AllocatedTransaction)
allocate table (err e) block = (table, err e)
allocate table (ok nonce) (err e) = (table, err e)
allocate table (ok nonce) (ok block) = returned (assign table (max nonce (free_nonce table)) block)

unfoldable pub next_transaction :
    Table → Status → Table × Result Error (Option AllocatedTransaction)
unfolding as_i64 assign free_nonce
next_transaction table status = allocate table (as_i64 status.nonce) (as_i64 status.block)

abbrev pub has_nonce : ℕ → Row → Bool
has_nonce n r = lies_upto r.nonce n && lies_from r.nonce n

abbrev pub submitted : Option ℕ → Fees → ℕ → Row → Row
submitted block fees nonce r =
    if has_nonce nonce r then record r { submitted_at = block; fees = some fees } else r

unfoldable pub record_submission : Table → Submission → Result Error Table
unfolding to_i64_opt as_i64 update_all count_where
record_submission table s = do
  block ← to_i64_opt s.block
  nonce ← as_i64 s.nonce
  (if count_where (has_nonce nonce) table == 0
      then err (nonce_not_found nonce)
      else ok (update_all (submitted block s.fees nonce) table))

abbrev pub is_outstanding : ℕ → Row → Bool
is_outstanding block r = not (is_some r.executed_at) && (is_some r.nonce || is_unexpired r block)

unfoldable pub count_outstanding : Table → ℕ → Result Error ℕ
unfolding as_i64 count_where
count_outstanding table latest = do
  block ← as_i64 latest
  ok (count_where (is_outstanding block) table)

abbrev pub executed : ℕ → ℕ → Row → Row
executed block nonce r =
    if lies_below r.nonce nonce && not (is_some r.executed_at)
    then record r { executed_at = some block }
    else r

unfoldable pub mark_executed : Table → Status → Result Error Table
unfolding as_i64 update_all
mark_executed table status = do
  block ← as_i64 status.block
  nonce ← as_i64 status.nonce
  ok (update_all (executed block nonce) table)

abbrev pub is_settled : ℕ → Row → Bool
is_settled safe r = lies_upto r.executed_at safe

abbrev pub is_expired : ℕ → Row → Bool
is_expired safe r = not (is_some r.nonce) && lies_upto r.expires_at safe

unfoldable pub prune : Table → ℕ → Result Error Table
unfolding as_i64 delete_where
prune table safe_block = do
  safe ← as_i64 safe_block
  ok (delete_where (is_expired safe) (delete_where (is_settled safe) table))

abbrev pub unexecuted : ℕ → Row → Row
unexecuted block r = if lies_from r.executed_at block then record r { executed_at = none } else r

unfoldable pub unmark_executed : Table → ℕ → Result Error Table
unfolding as_i64 update_all
unmark_executed table uncled = do block ← as_i64 uncled; ok (update_all (unexecuted block) table)

-- `submitted_at <= submitted_before`, with -1 for a missing bound.
abbrev pub is_due : Option ℕ → Row → Bool
is_due none r = not (is_some r.submitted_at)
is_due (some before) r = not (is_some r.submitted_at) || lies_upto r.submitted_at before

-- ORDER BY nonce ASC
unfoldable pub insert_by_nonce :
    AllocatedTransaction → List AllocatedTransaction → List AllocatedTransaction
insert_by_nonce a [] = a ∷ []
insert_by_nonce a (b ∷ rest) =
    let others = insert_by_nonce a rest in if leb a.nonce b.nonce then a ∷ b ∷ rest else b ∷ others

abbrev pub add_stale : Bool → Row → Option ℕ → List AllocatedTransaction → List AllocatedTransaction
add_stale true r (some n) rest = insert_by_nonce (allocated r n) rest
add_stale _ r _ rest = rest

unfoldable pub stale_rows : Table → Option ℕ → List AllocatedTransaction
unfolding insert_by_nonce
stale_rows [] before = []
stale_rows (r ∷ rest) before =
    add_stale (is_in_flight r && is_due before r) r r.nonce (stale_rows rest before)

-- Each row that is returned is read back.
unfoldable pub parsed : List AllocatedTransaction → Result Error (List AllocatedTransaction)
parsed [] = ok []
parsed (a ∷ rest) = do
  others ← parsed rest
  (if is_integer a.nonce then ok (a ∷ others) else err serialization)

unfoldable pub stale_submissions : Table → Option ℕ → Result Error (List AllocatedTransaction)
unfolding to_i64_opt stale_rows parsed
stale_submissions table submitted_before = do
  before ← to_i64_opt submitted_before
  parsed (stale_rows table before)
