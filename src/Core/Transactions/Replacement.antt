-- ===== src/Core/Transactions/Replacement.antt =====
-- crates/core/src/tx/fees.rs and types.rs: the fees of a transaction that replaces one. `cap_priority_fee`, which
-- computes in floating point, is not modelled.
use shield_net.Prelude.{
  ℕ, ◌+◌, ◌-◌, ◌*◌, ◌/◌, ◌^◌, ◌≤◌, ◌≡◌, ◌⊎◌, refl, Option, none, some, List, arith, ltb,
  if◌then◌else◌,
}
use shield_net.Core.Transactions.{AllocatedTransaction, Fees, max}

abbrev pub u128_max : ℕ
u128_max = 2 ^ 128 - 1

-- u128's `saturating_add` and `div_ceil(10)`
unfoldable pub saturating_add_u128 : ℕ → ℕ → ℕ
saturating_add_u128 a b = if ltb u128_max (a + b) then u128_max else a + b

abbrev pub tenth : ℕ → ℕ
tenth n = (n + 9) / 10

unfoldable pub bump_fee : ℕ → ℕ → ℕ
unfolding saturating_add_u128
bump_fee fresh previous = max fresh (saturating_add_u128 previous (tenth previous))

unfoldable pub bump : Fees → Option Fees → Fees
unfolding bump_fee
bump fresh none = fresh
bump fresh (some previous) = record {
  max_fee_per_gas = bump_fee fresh.max_fee_per_gas previous.max_fee_per_gas;
  max_priority_fee_per_gas =
      bump_fee fresh.max_priority_fee_per_gas previous.max_priority_fee_per_gas;
}

-- The fees of the last submission, if both are there.
abbrev pub last_fees : Option ℕ → Option ℕ → Option Fees
last_fees (some fee) (some priority) =
    some (record { max_fee_per_gas = fee; max_priority_fee_per_gas = priority })
last_fees _ _ = none

pub record TxEip1559 : Type 0 where
  pub chain_id : ℕ
  pub nonce : ℕ
  pub gas_limit : ℕ
  pub max_fee_per_gas : ℕ
  pub max_priority_fee_per_gas : ℕ
  pub to : ℕ
  pub value : ℕ
  pub input : List ℕ

unfoldable pub build : AllocatedTransaction → ℕ → Fees → TxEip1559
unfolding bump
build a chain_id estimate =
    let fees = bump estimate (last_fees a.max_fee_per_gas a.max_priority_fee_per_gas) in
    record {
      chain_id = chain_id;
      nonce = a.nonce;
      gas_limit = a.transaction.gas;
      max_fee_per_gas = fees.max_fee_per_gas;
      max_priority_fee_per_gas = fees.max_priority_fee_per_gas;
      to = a.transaction.to;
      value = a.transaction.value;
      input = a.transaction.calldata;
    }

-- A fee that replaces `previous`: at least the estimate, and a tenth more than before, unless that is out of range.
abbrev Replaces : ℕ → ℕ → ℕ → Type 0
Replaces fee fresh previous =
    (fresh ≤ fee) × ((11 * previous ≤ 10 * fee) ⊎ (u128_max ≤ fee)) × (previous ≤ fee)

bump_fee-Replaces :
    (fresh previous : ℕ) → previous ≤ u128_max → Replaces (bump_fee fresh previous) fresh previous
unfolding bump_fee saturating_add_u128
bump_fee-Replaces fresh previous l = ground arith

-- A transaction that was submitted before, with fees that fit in 128 bits, is built again with the same nonce, and
-- each of its two fees is at least the estimate, at least what it was, and, unless it is the largest number of 128
-- bits or more, at least a tenth above what it was.
pub build-Replaces :
    (a : AllocatedTransaction) (chain_id : ℕ) (estimate : Fees) (fee priority : ℕ)
    → a.max_fee_per_gas ≡ some fee
    → a.max_priority_fee_per_gas ≡ some priority
    → fee ≤ u128_max
    → priority ≤ u128_max
    → let built = build a chain_id estimate in
      (built.nonce ≡ a.nonce)
      × Replaces built.max_fee_per_gas estimate.max_fee_per_gas fee
      × Replaces built.max_priority_fee_per_gas estimate.max_priority_fee_per_gas priority
unfolding build
build-Replaces a chain_id estimate fee priority e p l l' =
    rw (e, p)
      (
        refl,
        bump_fee-Replaces estimate.max_fee_per_gas fee l,
        bump_fee-Replaces estimate.max_priority_fee_per_gas priority l',
      )
