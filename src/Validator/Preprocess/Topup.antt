-- ===== src/Validator/Preprocess/Topup.antt =====
-- The requests for nonce trees, repeated.
use shield_net.Prelude.{
  false, Bool-cases, ℕ, ◌≤◌, ◌≡◌, Option, some, [], arith, get, get-insert, IsSorted, Option-cases,
  ◌⊎◌, inl, inr, leb,
}
use shield_net.Validator.Epoch.{raw_value}
use shield_net.Validator.Types.{NonceState, Epoch, State}
use shield_net.Validator.Nonces.{reserve_chunk, available}
use shield_net.Validator.Nonces.Supply.{reserve_chunk-ok, available-reserve_chunk}
use shield_net.Validator.Preprocess.{topup_epoch, handle_nonce_topup}

abbrev active : State → Option Epoch
active s = get s.epochs (raw_value s.active_epoch)

pair_of_snd : (r : NonceState × Option ℕ) (c : ℕ) → r.1 ≡ some c → r ≡ (r.0, some c)
pair_of_snd (n, o) c q = rw q

topup_active :
    (s : State) (e : Epoch) (c : ℕ)
    → active s ≡ some e
    → leb 100 (available e.nonces) ≡ false
    → (reserve_chunk e.nonces).1 ≡ some c
    → active (handle_nonce_topup s).0 ≡ some (record e { nonces = (reserve_chunk e.nonces).0 })
unfolding handle_nonce_topup
topup_active s e c h l q =
    let k = raw_value s.active_epoch in
    let e' : Epoch = record e { nonces = (reserve_chunk e.nonces).0 } in
    rw h (rw (l, topup_epoch) (rw q (ground (arith, get-insert s.epochs k k e'))))

-- One call asks for nothing, or reserves a chunk of the active epoch.
topup_step :
    (s : State) (e : Epoch)
    → active s ≡ some e
    → (handle_nonce_topup s ≡ (s, []))
      ⊎ ((n : NonceState) × (c : ℕ) × (reserve_chunk e.nonces ≡ (n, some c))
          × (active (handle_nonce_topup s).0 ≡ some (record e { nonces = n })))
unfolding handle_nonce_topup
topup_step s e h = elim (Bool-cases (leb 100 (available e.nonces))) [
  | inl l ↦ inl (ground (arith, h, l))
  | inr l ↦ elim (Option-cases (reserve_chunk e.nonces).1) [
    | inl q ↦ inl (ground (arith, h, l, q))
    | inr (c, q) ↦ inr (
      (reserve_chunk e.nonces).0,
      c,
      pair_of_snd (reserve_chunk e.nonces) c q,
      topup_active s e c h l q,
    )
  ]
]

-- A call asks for nothing where enough is left.
topup_quiet :
    (s : State) (e : Epoch)
    → active s ≡ some e
    → 100 ≤ available e.nonces
    → handle_nonce_topup s ≡ (s, [])
unfolding handle_nonce_topup
topup_quiet s e h l = ground (arith, h)

-- Where the active epoch is known and its chunks are sorted, after two top-ups a third changes nothing
-- and queues no command.
pub handle_nonce_topup_settles :
    (s : State) (e : Epoch)
    → get s.epochs (raw_value s.active_epoch) ≡ some e
    → IsSorted e.nonces.chunks
    → let s₁ = (handle_nonce_topup s).0 in
      let s₂ = (handle_nonce_topup s₁).0 in handle_nonce_topup s₂ ≡ (s₂, [])
handle_nonce_topup_settles s e h o = elim (topup_step s e h) [
  | inl q ↦ rw q (rw q q)
  | inr (n, c, r, a) ↦
      let s₁ = (handle_nonce_topup s).0 in
      let (_, _, same) = reserve_chunk-ok e.nonces n c r in
      let (gain, holds, _, sorted) = available-reserve_chunk e.nonces n c o r in
      elim (topup_step s₁ (record e { nonces = n }) a) [
        | inl q ↦ rw q q
        | inr (n₂, c₂, r₂, a₂) ↦
            let (gain₂, _, fresh, _) = available-reserve_chunk n n₂ c₂ sorted r₂ in
            topup_quiet (handle_nonce_topup s₁).0 (record e { nonces = n₂ }) a₂
              (ground (arith, same, gain, gain₂, fresh, holds c₂))
      ]
]
