-- ===== src/Validator/Progress.antt =====
-- The passes over the deadlines, one and several: what becomes of a session.
use shield_net.Prelude.{
  subst, ℕ, suc, ◌+◌, ◌≤◌, ◌<◌, ◌≡◌, refl, ap, sym, ◌∙◌, Bool-cases, Option-cases, Option, none,
  some, inl, inr, ◌⊎◌, arith, get, remove, IsSorted, some_inj, leb, saturating_add,
  lt-saturating_add, u64_max,
}
use shield_net.Validator.Types.{
  B256, Address, KeyShare, Set, Packet, SigningState, waiting_for_request, waiting_for_oracle,
  collect_nonce_commitments, collect_signing_shares, waiting_for_attestation, State, Transition,
}
use shield_net.Validator.Timeouts.{
  cannot_continue, expire, expire_session, expire_request, restart_signing_ceremony,
  handle_signing_timeouts, deadline,
}
use shield_net.Validator.Timeouts.Sweep.{after, get-sweep, sweep-IsSorted}

-- How many missed deadlines a session survives at most.
abbrev pub patience : SigningState → ℕ
patience (waiting_for_request _ _ none _ _ _) = 0
patience (waiting_for_request _ _ (some _) _ _ _) = 1
patience (waiting_for_oracle _ _ _ _ _ _ _ _) = 0
patience (collect_nonce_commitments _ _ _ _ _ _ _ _ _) = 2
patience (collect_signing_shares _ _ _ _ _ _ _ _) = 2
patience (waiting_for_attestation _ _ _) = 0

patience-request :
    (k : KeyShare) (gid : B256) (l : Option Address) (p : Packet) (sg : Set) (d : ℕ)
    → patience (waiting_for_request k gid l p sg d) < 2
patience-request k gid none p sg d = omega arith
patience-request k gid (some r) p sg d = omega arith

patience-lt : (st : SigningState) → patience st < 3
patience-lt (waiting_for_request k gid none p sg d) = omega arith
patience-lt (waiting_for_request k gid (some r) p sg d) = omega arith
patience-lt _ = omega arith

-- A session that a pass has moved on.
abbrev Moved : ℕ → ℕ → SigningState → Type 0
Moved next n st = (deadline st ≡ next) × (patience st < n)

module _ (t : Transition) (next : ℕ) (m : B256) where
  restart_moves :
      (k : KeyShare) (gid sid : B256) (sg : Set) (p : Packet) (l : Option Address)
      (st' : SigningState)
      → (restart_signing_ceremony t next k gid sid sg m p l).kept ≡ some st'
      → Moved next 2 st'
  unfolding restart_signing_ceremony
  restart_moves k gid sid sg p l st' h = elim (Bool-cases (cannot_continue t k sg)) [
    | inl q ↦ absurd (ground (arith, h, q))
    | inr q ↦
        let st = waiting_for_request k gid l p sg next in
        let e : st ≡ st' = some_inj st st' (ground (arith, h, q)) in
        subst (Moved next 2) e (refl, patience-request k gid l p sg next)
  ]

  session_moves :
      (st st' : SigningState)
      → (expire_session t next m st).kept ≡ some st'
      → Moved next (patience st) st'
  unfolding expire_session expire_request
  session_moves (waiting_for_request k gid none p sg d) st' h = absurd (ground (arith, h))
  session_moves (waiting_for_request k gid (some r) p sg d) st' h =
      elim (Bool-cases (cannot_continue t k (remove sg r))) [
        | inl q ↦ absurd (ground (arith, h, q))
        | inr q ↦
            let st = waiting_for_request k gid none p (remove sg r) next in
            let e : st ≡ st' = some_inj st st' (ground (arith, h, q)) in
            subst (Moved next 1) e (refl, omega arith)
      ]
  session_moves (waiting_for_oracle k x gid sid n p sg d) st' h = absurd (ground (arith, h))
  session_moves (collect_nonce_commitments k gid sid n r l p sg d) st' h =
      restart_moves k gid sid _ p l st' h
  session_moves (collect_signing_shares k gid sid r sel p sg d) st' h =
      restart_moves k gid sid _ p _ st' h
  session_moves (waiting_for_attestation sid p d) st' h = absurd (ground (arith, h))

-- A session after a pass was there before it; either its deadline lay ahead and it is as it was, or it has
-- the new deadline and survives one missed deadline less.
pass_at :
    (t : Transition) (s : State) (block : ℕ) (m : B256) (st' : SigningState)
    → IsSorted s.signing
    → get (handle_signing_timeouts t s block).0.signing m ≡ some st'
    → (st : SigningState) × (get s.signing m ≡ some st)
      × (((st ≡ st') × (block < deadline st))
          ⊎ ((deadline st ≤ block)
              × Moved (saturating_add block t.signing_timeout) (patience st) st'))
unfolding handle_signing_timeouts after expire
pass_at t s block m st' o h =
    let next = saturating_add block t.signing_timeout in
    let p : after t block next m (get s.signing m) ≡ some st' =
      sym (get-sweep t block next s.signing s.signature_id_to_message m o) ∙ h in
    elim (Option-cases (get s.signing m)) [
      | inl e ↦
          let clash : none ≡ some st' = sym (ap (after t block next m) e) ∙ p in
          absurd (ground (arith, clash))
      | inr (st, e) ↦
          let k : (expire t block next m st).kept ≡ some st' =
            sym (ap (after t block next m) e) ∙ p in
          elim (Bool-cases (leb (deadline st) block)) [
            | inl q ↦ (st, e, inr (ground (arith, q), session_moves t next m st st' (rw q at k)))
            | inr q ↦ (st, e, inl (some_inj st st' (rw q at k), ground (arith, q)))
          ]
    ]

-- After the pass of a block, where the sessions are sorted by message, the block is below the largest
-- u64 and the signing timeout is positive, each session that is left has a deadline after the block. It
-- was there before, and it is either as it was, or its deadline had come and it bears fewer further
-- missed deadlines (`patience`) than before.
pub handle_signing_timeouts_moves :
    (t : Transition) (s : State) (block : ℕ) (m : B256) (st' : SigningState)
    → IsSorted s.signing
    → block < u64_max
    → 0 < t.signing_timeout
    → get (handle_signing_timeouts t s block).0.signing m ≡ some st'
    → (block < deadline st')
      × ((st : SigningState) × (get s.signing m ≡ some st)
          × ((st ≡ st') ⊎ ((deadline st ≤ block) × (patience st' < patience st))))
handle_signing_timeouts_moves t s block m st' o b pos h =
    let (st, g, c) = pass_at t s block m st' o h in
    elim c [
      | inl (e, l) ↦ (subst (λ x. block < deadline x) e l, (st, g, inl e))
      | inr (l, (d, q)) ↦ (
        subst (λ n. block < n) (sym d) (lt-saturating_add block t.signing_timeout b pos),
        (st, g, inr (l, q)),
      )
    ]

pub timeouts-IsSorted :
    (t : Transition) (s : State) (block : ℕ)
    → IsSorted s.signing
    → IsSorted (handle_signing_timeouts t s block).0.signing
unfolding handle_signing_timeouts
timeouts-IsSorted t s block o =
    sweep-IsSorted t block (saturating_add block t.signing_timeout) s.signing
      s.signature_id_to_message o

-- What a pass at or after the deadline of a session leaves: it has had enough, or its deadline is due again
-- after the signing timeout.
Spent : State → B256 → ℕ → ℕ → Type 0
Spent s m due n =
    (st : SigningState) → get s.signing m ≡ some st → (deadline st ≤ due) × (patience st < n)

pass_spends :
    (t : Transition) (s : State) (block due m n : ℕ)
    → IsSorted s.signing
    → due ≤ block
    → Spent s m due (suc n)
    → Spent (handle_signing_timeouts t s block).0 m (block + t.signing_timeout) n
unfolding Spent
pass_spends t s block due m n o l h st' g =
    let (st, e, c) = pass_at t s block m st' o g in
    let (d, q) = h st e in
    elim c [
      | inl (same, ahead) ↦ absurd (omega arith)
      | inr (_, (d', q')) ↦ (rw d' (unfold saturating_add in ground arith), omega arith)
    ]

-- A session that hears nothing ends. Where the sessions are sorted by message and the session's deadline
-- has come, three passes, each of the later ones at least the signing timeout after the one before,
-- leave no session at its message.
pub handle_signing_timeouts_ends :
    (t : Transition) (s : State) (b₁ b₂ b₃ : ℕ) (m : B256) (st : SigningState)
    → IsSorted s.signing
    → get s.signing m ≡ some st
    → deadline st ≤ b₁
    → b₁ + t.signing_timeout ≤ b₂
    → b₂ + t.signing_timeout ≤ b₃
    → let s₁ = (handle_signing_timeouts t s b₁).0 in
      let s₂ = (handle_signing_timeouts t s₁ b₂).0 in
      get (handle_signing_timeouts t s₂ b₃).0.signing m ≡ none
unfolding Spent
handle_signing_timeouts_ends t s b₁ b₂ b₃ m st o g l₁ l₂ l₃ =
    let s₁ = (handle_signing_timeouts t s b₁).0 in
    let s₂ = (handle_signing_timeouts t s₁ b₂).0 in
    let o₁ = timeouts-IsSorted t s b₁ o in
    let p₀ : Spent s m b₁ 3 = λ x e.
      subst (λ y. (deadline y ≤ b₁) × (patience y < 3)) (some_inj st x (sym g ∙ e))
        (l₁, patience-lt st) in
    let p₁ = pass_spends t s b₁ b₁ m 2 o (omega arith) p₀ in
    let p₂ = pass_spends t s₁ b₂ (b₁ + t.signing_timeout) m 1 o₁ l₂ p₁ in
    let p₃ =
      pass_spends t s₂ b₃ (b₂ + t.signing_timeout) m 0 (timeouts-IsSorted t s₁ b₂ o₁) l₃ p₂ in
    elim (Option-cases (get (handle_signing_timeouts t s₂ b₃).0.signing m)) [
      | inl e ↦ e
      | inr (x, e) ↦ absurd (omega (arith, (p₃ x e).1))
    ]
