-- ===== src/Validator/Quorum.antt =====
-- The rounds of a ceremony against its set of signers: when a nonce is used, and who is asked to sign again.
use shield_net.Prelude.{
  subst, ℕ, ◌≤◌, ◌≡◌, refl, ap, true, false, Bool-cases, Option-cases, Option, none, some, [], ◌∷◌,
  inl, inr, ◌⊎◌, arith, ltb, ==→eq, ltb→lt, not_ltb→le, Map, get, insert, remove, contains_key,
  length, get-insert, insert-IsSorted, IsSorted, Sub, Sub-count, contains_key-insert,
  saturating_add, some_inj,
}
use shield_net.Validator.Types.{
  B256, Address, KeyShare, Set, Opaque, Packet, NonceIndex, SigningState, waiting_for_request,
  waiting_for_oracle, collect_nonce_commitments, collect_signing_shares, waiting_for_attestation,
  State, Transition, effect, Effect, SignRevealedNonces,
}
use shield_net.Validator.Sign.{
  record_reveal, collect_reveal, on_linked, handle_sign_revealed_nonces, take_session,
}
use shield_net.Validator.Timeouts.{
  cannot_continue, restart_signing_ceremony, expire_request, expire_session,
}

-- What is recorded of the reveals belongs to signers.
record IsRound (revealed : Map Opaque) (signers : Set) : Type 0 where
  sorted : IsSorted revealed
  signers_sorted : IsSorted signers
  within : Sub revealed signers

record_reveal-IsRound :
    (t : Transition) (event : SignRevealedNonces) (signers : Set) (revealed : Map Opaque)
    (last : Option Address)
    → IsRound revealed signers
    → IsRound (record_reveal t event signers revealed last).0 signers
unfolding record_reveal
record_reveal-IsRound t event signers revealed last h =
    elim (Bool-cases (contains_key signers event.participant)) [
      | inl q ↦ elim (Option-cases (t.verify_revealed_nonces event.participant event.nonces)) [
        | inl e ↦ rw (q, e) h
        | inr (v, e) ↦
            rw (q, e)
              (record {
                sorted = insert-IsSorted revealed event.participant v h.sorted;
                signers_sorted = h.signers_sorted;
                within = λ j c. ground (
                  arith,
                  contains_key-insert revealed event.participant j v,
                  h.within j,
                  q,
                  ==→eq event.participant j,
                );
              })
      ]
      | inr q ↦ rw q h
    ]

run_collect :
    (t : Transition) (s : State) (block : ℕ) (event : SignRevealedNonces) (message : B256)
    (st : SigningState)
    → get s.signature_id_to_message event.sid ≡ some message
    → get s.signing message ≡ some st
    → handle_sign_revealed_nonces t s block event
      ≡ collect_reveal t (take_session s message) block message event (some st)
unfolding handle_sign_revealed_nonces on_linked
run_collect t s block event message st i g =
    rw i (ap (collect_reveal t (take_session s message) block message event) g)

get-insert_self : {V : Type 0} (m : Map V) (k : ℕ) (v : V) → get (insert m k v) k ≡ some v
get-insert_self m k v = ground (arith, get-insert m k k v)

-- A reveal for a linked session that collects nonce commitments, whose signers and reveals are sorted
-- and whose reveals are of signers alone. Either the round goes on, with some signer's reveal missing
-- and no command, or every signer has revealed, the session collects shares until the signing timeout
-- and the one command uses its nonce. The reveals stay sorted and of signers alone.
pub handle_sign_revealed_nonces_quorum :
    (t : Transition) (s : State) (block : ℕ) (event : SignRevealedNonces) (message : B256)
    (k : KeyShare) (gid sid : B256) (n : NonceIndex) (r : Map Opaque) (l : Option Address)
    (p : Packet) (sg : Set) (d : ℕ)
    → get s.signature_id_to_message event.sid ≡ some message
    → get s.signing message ≡ some (collect_nonce_commitments k gid sid n r l p sg d)
    → IsSorted r
    → IsSorted sg
    → Sub r sg
    → let (s', commands) = handle_sign_revealed_nonces t s block event in
      let (r', l') = record_reveal t event sg r l in
      IsSorted r'
      × Sub r' sg
      × (((¬ Sub sg r')
            × (get s'.signing message ≡ some (collect_nonce_commitments k gid sid n r' l' p sg d))
            × (commands ≡ []))
          ⊎ (Sub sg r'
              × (get s'.signing message
                  ≡ some (
                      collect_signing_shares k gid sid r' [] p sg
                        (saturating_add block t.signing_timeout)))
              × (commands ≡ effect (Effect.use_nonce message n.root n.offset) ∷ [])))
handle_sign_revealed_nonces_quorum t s block event message k gid sid n r l p sg d i g or og sub =
    let r' = (record_reveal t event sg r l).0 in
    let round =
      record_reveal-IsRound t event sg r l
        (record { sorted = or; signers_sorted = og; within = sub }) in
    let st = collect_nonce_commitments k gid sid n r l p sg d in
    rw (run_collect t s block event message st i g) (
      round.sorted,
      round.within,
      elim (Bool-cases (ltb (length r') (length sg))) [
        | inl q ↦ inl (
          λ back. absurd (
              omega (
                arith,
                (Sub-count sg r' og round.sorted back).0,
                ltb→lt (length r') (length sg) q,
              )),
          unfold collect_reveal in rw q (get-insert_self _ message _),
          unfold collect_reveal in rw q refl,
        )
        | inr q ↦ inr (
          (Sub-count r' sg round.sorted og round.within).1 (not_ltb→le (length r') (length sg) q),
          unfold collect_reveal in rw q (get-insert_self _ message _),
          unfold collect_reveal in rw q refl,
        )
      ],
    )

-- A ceremony that this validator can take part in: it waits for a request, this validator is among its
-- signers, and they reach the group's threshold.
abbrev pub IsViable : Transition → SigningState → Type 0
IsViable t (waiting_for_request k gid r p sg d) =
    (contains_key sg t.account ≡ true) × (t.group_threshold k ≤ length sg)
IsViable t _ = ⊥

can_continue :
    (t : Transition) (k : KeyShare) (sg : Set)
    → cannot_continue t k sg ≡ false
    → (contains_key sg t.account ≡ true) × (t.group_threshold k ≤ length sg)
unfolding cannot_continue
can_continue t k sg h = ground arith

module _ (t : Transition) (next : ℕ) (m : B256) where
  restart-IsViable :
      (k : KeyShare) (gid sid : B256) (sg : Set) (p : Packet) (l : Option Address)
      (st' : SigningState)
      → (restart_signing_ceremony t next k gid sid sg m p l).kept ≡ some st'
      → IsViable t st'
  unfolding restart_signing_ceremony
  restart-IsViable k gid sid sg p l st' h = elim (Bool-cases (cannot_continue t k sg)) [
    | inl q ↦ absurd (ground (arith, h, q))
    | inr q ↦
        let st = waiting_for_request k gid l p sg next in
        let e : st ≡ st' = some_inj st st' (ground (arith, h, q)) in
        subst (IsViable t) e (can_continue t k sg q)
  ]

  -- Whatever the stage of a session that missed its deadline, one that is kept waits for a new request, with
  -- this validator among its signers and no fewer signers than the group's threshold.
  pub expire_session-IsViable :
      (st st' : SigningState) → (expire_session t next m st).kept ≡ some st' → IsViable t st'
  unfolding expire_session expire_request
  expire_session-IsViable (waiting_for_request k gid none p sg d) st' h = absurd (ground (arith, h))
  expire_session-IsViable (waiting_for_request k gid (some r) p sg d) st' h =
      elim (Bool-cases (cannot_continue t k (remove sg r))) [
        | inl q ↦ absurd (ground (arith, h, q))
        | inr q ↦
            let st = waiting_for_request k gid none p (remove sg r) next in
            let e : st ≡ st' = some_inj st st' (ground (arith, h, q)) in
            subst (IsViable t) e (can_continue t k (remove sg r) q)
      ]
  expire_session-IsViable (waiting_for_oracle k x gid sid n p sg d) st' h =
      absurd (ground (arith, h))
  expire_session-IsViable (collect_nonce_commitments k gid sid n r l p sg d) st' h =
      restart-IsViable k gid sid _ p l st' h
  expire_session-IsViable (collect_signing_shares k gid sid r sel p sg d) st' h =
      restart-IsViable k gid sid _ p _ st' h
  expire_session-IsViable (waiting_for_attestation sid p d) st' h = absurd (ground (arith, h))
