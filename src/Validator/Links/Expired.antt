-- ===== src/Validator/Links/Expired.antt =====
-- The index against the sessions, for the pass over the deadlines.
use shield_net.Prelude.{
  ℕ, ◌≡◌, refl, ap, sym, ◌∙◌, Bool, true, false, ◌||◌, Bool-cases, Option-cases, Option, none, some,
  [], ◌∷◌, inl, inr, arith, ◌==◌, if◌then◌else◌, eq_option, Map, get, remove, get-remove, IsSorted,
  get_of_Above, some_inj, ==→eq, ==-refl, get-cons, eq_option→eq, eq_option_refl, ap₂, ◌⊎◌, leb,
}
use shield_net.Validator.Types.{
  B256, Address, SigningState, waiting_for_request, Set, Packet, KeyShare, waiting_for_oracle,
  collect_nonce_commitments, collect_signing_shares, waiting_for_attestation, State, Transition,
}
use shield_net.Validator.Sign.{signature_id}
use shield_net.Validator.Timeouts.{
  cannot_continue, Expiry, expire, expire_session, expire_request, restart_signing_ceremony, sweep,
  handle_signing_timeouts, unlink, deadline,
}
use shield_net.Validator.Timeouts.Sweep.{after, get-sweep}
use shield_net.Validator.Links.{IsLinked, Linked}

-- What a pass makes of a session: nothing, or one without a signature id, or none; where it is not left
-- alone, the id that it had is unlinked.
data Fate (st : SigningState) (e : Expiry) : Type 0 where
  untouched : e.kept ≡ some st → e.unlinked ≡ none → Fate st e
  restarted :
      (st' : SigningState)
      → e.kept ≡ some st'
      → signature_id st' ≡ none
      → e.unlinked ≡ signature_id st
      → Fate st e
  gone : e.kept ≡ none → e.unlinked ≡ signature_id st → Fate st e

module _ (t : Transition) (block next : ℕ) where
  restart_Fate :
      (st : SigningState) (k : KeyShare) (gid sid : B256) (sg : Set) (m : B256) (p : Packet)
      (l : Option Address)
      → signature_id st ≡ some sid
      → Fate st (restart_signing_ceremony t next k gid sid sg m p l)
  unfolding restart_signing_ceremony
  restart_Fate st k gid sid sg m p l h = elim (Bool-cases (cannot_continue t k sg)) [
    | inl q ↦ rw q (gone refl (sym h))
    | inr q ↦ rw q (restarted (waiting_for_request k gid l p sg next) refl refl (sym h))
  ]

  request_Fate :
      (st : SigningState) (m : B256) (k : KeyShare) (gid : B256) (r : Option Address) (p : Packet)
      (sg : Set)
      → signature_id st ≡ none
      → Fate st (expire_request t next m k gid r p sg)
  unfolding expire_request
  request_Fate st m k gid none p sg h = gone refl (sym h)
  request_Fate st m k gid (some r) p sg h = elim (Bool-cases (cannot_continue t k (remove sg r))) [
    | inl q ↦ rw q (gone refl (sym h))
    | inr q ↦
        rw q (restarted (waiting_for_request k gid none p (remove sg r) next) refl refl (sym h))
  ]

  session_Fate : (m : B256) (st : SigningState) → Fate st (expire_session t next m st)
  unfolding expire_session
  session_Fate m (waiting_for_request k gid r p sg d) =
      request_Fate (waiting_for_request k gid r p sg d) m k gid r p sg refl
  session_Fate m (waiting_for_oracle k x gid sid n p sg d) = gone refl refl
  session_Fate m (collect_nonce_commitments k gid sid n r l p sg d) =
      restart_Fate (collect_nonce_commitments k gid sid n r l p sg d) k gid sid _ m p l refl
  session_Fate m (collect_signing_shares k gid sid r sel p sg d) =
      restart_Fate (collect_signing_shares k gid sid r sel p sg d) k gid sid _ m p _ refl
  session_Fate m (waiting_for_attestation sid p d) = gone refl refl

  expire-Fate : (m : B256) (st : SigningState) → Fate st (expire t block next m st)
  unfolding expire
  expire-Fate m st = elim (Bool-cases (leb (deadline st) block)) [
    | inl q ↦ rw q (session_Fate m st)
    | inr q ↦ rw q (untouched refl refl)
  ]

  unlinks : B256 → Map SigningState → Bool
  unlinks sid [] = false
  unlinks sid ((m, st) ∷ rest) =
      eq_option (expire t block next m st).unlinked (some sid) || unlinks sid rest

  get-unlink :
      (u : Option B256) (index : Map B256) (sid : B256)
      → get (unlink u index) sid ≡ (if eq_option u (some sid) then none else get index sid)
  get-unlink none index sid = refl
  get-unlink (some x) index sid = get-remove index x sid

  sweep_index :
      (es : Map SigningState) (index : Map B256) (sid : B256)
      → get (sweep t block next es index).1 sid ≡ (if unlinks sid es then none else get index sid)
  unfolding sweep unlinks
  sweep_index [] index sid = refl
  sweep_index ((m, st) ∷ rest) index sid =
      let u = (expire t block next m st).unlinked in
      ground (arith, sweep_index rest (unlink u index) sid, get-unlink u index sid)

  -- A link that a pass removes is that of a session whose deadline it met.
  unlinks-some :
      (es : Map SigningState) (sid : B256)
      → IsSorted es
      → unlinks sid es ≡ true
      → (m : B256) × (st : SigningState) × (get es m ≡ some st)
        × ((expire t block next m st).unlinked ≡ some sid)
  unfolding unlinks
  unlinks-some [] sid o h = absurd (ground (arith, h))
  unlinks-some ((m, st) ∷ rest) sid o h =
      let u = (expire t block next m st).unlinked in
      elim (Bool-cases (eq_option u (some sid))) [
        | inl q ↦ (m, st, rw get-cons (rw (==-refl m)), eq_option→eq u sid q)
        | inr q ↦
            let (j, x, g, e) = unlinks-some rest sid o.1 (ground (arith, h, q)) in
            elim (Bool-cases (m == j)) [
              | inl p ↦ absurd (ground (arith, g, get_of_Above rest m j (ground (arith, p)) o.0))
              | inr p ↦ (j, x, rw get-cons (rw p g), e)
            ]
      ]

  some-unlinks :
      (es : Map SigningState) (sid m : B256) (st : SigningState)
      → get es m ≡ some st
      → (expire t block next m st).unlinked ≡ some sid
      → unlinks sid es ≡ true
  unfolding unlinks
  some-unlinks [] sid m st g h = absurd (unfold get in ground (arith, g))
  some-unlinks ((j, x) ∷ rest) sid m st g h =
      let g' : (if j == m then some x else get rest m) ≡ some st = sym (get-cons rest j m x) ∙ g in
      elim (Bool-cases (j == m)) [
        | inl q ↦
            let e : x ≡ st = some_inj x st (ground (arith, g', q)) in
            rw (==→eq j m q) (rw e (rw h (rw (eq_option_refl sid))))
        | inr q ↦ ground (arith, some-unlinks rest sid m st (ground (arith, g', q)) h)
      ]

  unlinks_own :
      (st : SigningState) (e : Expiry) (sid : B256)
      → Fate st e
      → e.unlinked ≡ some sid
      → signature_id st ≡ some sid
  unlinks_own st e sid (untouched k u) h = absurd (ground (arith, u, h))
  unlinks_own st e sid (restarted st' k n u) h = sym u ∙ h
  unlinks_own st e sid (gone k u) h = sym u ∙ h

  kept_same :
      (st x : SigningState) (e : Expiry) (sid : B256)
      → Fate st e
      → e.kept ≡ some x
      → signature_id x ≡ some sid
      → (st ≡ x) × (e.unlinked ≡ none)
  kept_same st x e sid (untouched k u) h s = (some_inj st x (sym k ∙ h), u)
  kept_same st x e sid (restarted st' k n u) h s =
      let same : st' ≡ x = some_inj st' x (sym k ∙ h) in
      let clash : none ≡ some sid = sym n ∙ ap signature_id same ∙ s in
      absurd (ground (arith, clash))
  kept_same st x e sid (gone k u) h s =
      let clash : none ≡ some x = sym k ∙ h in absurd (ground (arith, clash))

  stays :
      (st : SigningState) (e : Expiry) (sid : B256)
      → Fate st e
      → signature_id st ≡ some sid
      → (e.kept ≡ some st) ⊎ (e.unlinked ≡ some sid)
  stays st e sid (untouched k u) h = inl k
  stays st e sid (restarted st' k n u) h = inr (u ∙ h)
  stays st e sid (gone k u) h = inr (u ∙ h)

  module _ (signing : Map SigningState) (index : Map B256) (o : IsSorted signing)
      (h : IsLinked signing index) where
    -- The link of a session that is left alone is not removed.
    not_unlinked :
        (m sid : B256) (st : SigningState)
        → get signing m ≡ some st
        → signature_id st ≡ some sid
        → (expire t block next m st).unlinked ≡ none
        → unlinks sid signing ≡ false
    not_unlinked m sid st g s u = elim (Bool-cases (unlinks sid signing)) [
      | inl q ↦
          let (j, x, gx, ux) = unlinks-some signing sid o q in
          let link : get index sid ≡ some j =
            h.found j sid x gx (unlinks_own x (expire t block next j x) sid (expire-Fate j x) ux) in
          let same : m ≡ j = some_inj m j (sym (h.found m sid st g s) ∙ link) in
          let eq : st ≡ x = some_inj st x (sym g ∙ ap (get signing) same ∙ gx) in
          let clash : none ≡ some sid =
            sym u ∙ ap₂ (λ a b. (expire t block next a b).unlinked) same eq ∙ ux in
          absurd (ground (arith, clash))
      | inr q ↦ q
    ]

    pub sweep-IsLinked :
        IsLinked (sweep t block next signing index).0 (sweep t block next signing index).1
    unfolding after
    sweep-IsLinked = record {
      found = λ j sid x gx ex.
          let p : after t block next j (get signing j) ≡ some x =
            sym (get-sweep t block next signing index j o) ∙ gx in
          elim (Option-cases (get signing j)) [
            | inl e ↦
                let clash : none ≡ some x = sym (ap (after t block next j) e) ∙ p in
                absurd (ground (arith, clash))
            | inr (st, e) ↦
                let (same, free) =
                  kept_same st x (expire t block next j st) sid (expire-Fate j st)
                    (sym (ap (after t block next j) e) ∙ p) ex in
                let s : signature_id st ≡ some sid = ap signature_id same ∙ ex in
                sweep_index signing index sid
                ∙ rw (not_unlinked j sid st e s free) (h.found j sid st e s)
          ];
      leads = λ j sid gi.
          let q : (if unlinks sid signing then none else get index sid) ≡ some j =
            sym (sweep_index signing index sid) ∙ gi in
          elim (Bool-cases (unlinks sid signing)) [
            | inl u ↦ absurd (ground (arith, q, u))
            | inr u ↦
                let (st, g, s) = h.leads j sid (ground (arith, q, u)) in
                elim (stays st (expire t block next j st) sid (expire-Fate j st) s) [
                  | inl k ↦ (
                    st,
                    get-sweep t block next signing index j o ∙ ap (after t block next j) g ∙ k,
                    s,
                  )
                  | inr k ↦ absurd (ground (arith, u, some-unlinks signing sid j st g k))
                ]
          ];
    }

-- The pass over the deadlines keeps the links.
pub handle_signing_timeouts-Linked :
    (t : Transition) (s : State) (block : ℕ)
    → IsSorted s.signing
    → Linked s
    → Linked (handle_signing_timeouts t s block).0
unfolding handle_signing_timeouts
handle_signing_timeouts-Linked t s block o h =
    sweep-IsLinked t block _ s.signing s.signature_id_to_message o h
