-- ===== src/Validator/Rollover/Lineage.antt =====
-- crates/validator/src/state/mod.rs, keygen.rs: where the active epoch of a run of messages comes from.
use shield_net.Prelude.{
  ℕ, ◌<◌, ◌≡◌, ◌≢◌, sym, subst, ◌∙◌, ◌⊎◌, inl, inr, false, List, [], ◌∷◌, arith,
}
use shield_net.Core.Machine.{EventLog, Message}
use shield_net.Validator.Epoch.{EpochId, number, next_number}
use shield_net.Validator.Types.{
  B256, RolloverState, State, Resume, Transition, KeyGenConfirmed, EpochStaged,
}
use shield_net.Validator.Dispatch.{Event, key_gen_confirmed, epoch_staged, apply_transition}
use shield_net.Validator.Rollover.{is_settled}
use shield_net.Validator.Rollover.Turns.{Turn, quiet, confirmed, staged, rolled}
use shield_net.Validator.Rollover.Turns.Steps.{apply_transition-Turn}

-- The messages that the state machine has applied, the last one first.
abbrev pub History : Type 0
History = List (Message Event Resume)

-- A participant has confirmed the group.
pub data WasConfirmed (group_id : B256) : History → Type 0 where
  now :
      (log : EventLog Event) (e : KeyGenConfirmed) (h : History)
      → log.event ≡ key_gen_confirmed e
      → group_id ≡ e.gid
      → WasConfirmed group_id (Message.event log ∷ h)
  before :
      (m : Message Event Resume) (h : History)
      → WasConfirmed group_id h
      → WasConfirmed group_id (m ∷ h)

-- The consensus contract has staged a group that had been confirmed.
pub data WasStaged : History → Type 0 where
  now :
      (log : EventLog Event) (e : EpochStaged) (h : History)
      → log.event ≡ epoch_staged e
      → WasConfirmed e.group_id h
      → WasStaged (Message.event log ∷ h)
  before : (m : Message Event Resume) (h : History) → WasStaged h → WasStaged (m ∷ h)

-- A block at or past the start of epoch `n` has come after a staging.
pub data WasReached (t : Transition) (n : ℕ) : History → Type 0 where
  now :
      (block : ℕ) (h : History)
      → n < next_number block t.blocks_per_epoch
      → WasStaged h
      → WasReached t n (Message.new_block block ∷ h)
  before : (m : Message Event Resume) (h : History) → WasReached t n h → WasReached t n (m ∷ h)

pub data Run (t : Transition) (start : State) : State → History → Type 0 where
  here : Run t start start []
  further :
      (s : State) (h : History) (m : Message Event Resume)
      → Run t start s h
      → Run t start (apply_transition t s m).0 (m ∷ h)

abbrev Settled : RolloverState → History → Type 0
Settled (RolloverState.signing_rollover n g k m) h = WasConfirmed g.id h
Settled (RolloverState.epoch_staged n) h = WasStaged h
Settled _ h = Unit

abbrev Active : Transition → EpochId → EpochId → History → Type 0
Active t first e h = (n : ℕ) → e ≡ number n → (first ≡ number n) ⊎ WasReached t n h

Settled-keeps :
    (r : RolloverState) (m : Message Event Resume) (h : History) → Settled r h → Settled r (m ∷ h)
Settled-keeps (RolloverState.signing_rollover n g k x) m h w = WasConfirmed.before m h w
Settled-keeps (RolloverState.epoch_staged n) m h w = WasStaged.before m h w
Settled-keeps _ m h w = tt

Settled-open : (r : RolloverState) (h : History) → is_settled r ≡ false → Settled r h
Settled-open (RolloverState.signing_rollover n g k x) h e = absurd (ground (arith, e))
Settled-open (RolloverState.epoch_staged n) h e = absurd (ground (arith, e))
Settled-open _ h e = tt

module _ (t : Transition) (first : EpochId) where
  Active-keeps :
      (e e' : EpochId) (m : Message Event Resume) (h : History)
      → e' ≡ e
      → Active t first e h
      → Active t first e' (m ∷ h)
  Active-keeps e e' m h q a n i = elim (a n (sym q ∙ i)) [
    | inl x ↦ inl x
    | inr x ↦ inr (WasReached.before m h x)
  ]

  Turn-keeps :
      (s s' : State) (m : Message Event Resume) (h : History)
      → Turn t s s' m
      → Settled s.rollover h
      → Active t first s.active_epoch h
      → Settled s'.rollover (m ∷ h) × Active t first s'.active_epoch (m ∷ h)
  Turn-keeps s s' m h (quiet a (inl r)) w v = (
    subst (λ (x : RolloverState). Settled x (m ∷ h)) (sym r) (Settled-keeps s.rollover m h w),
    Active-keeps s.active_epoch s'.active_epoch m h a v,
  )
  Turn-keeps s s' m h (quiet a (inr r)) w v =
      (Settled-open s'.rollover (m ∷ h) r, Active-keeps s.active_epoch s'.active_epoch m h a v)
  Turn-keeps s s' m h (confirmed log e n g p st cf c d k message i j r q l a r') w v = (
    subst (λ (x : RolloverState). Settled x (m ∷ h)) (sym r')
        (subst (λ (x : Message Event Resume). WasConfirmed g.id (x ∷ h)) (sym i)
          (WasConfirmed.now log e h j q)),
    Active-keeps s.active_epoch s'.active_epoch m h a v,
  )
  Turn-keeps s s' m h (staged log e n g k message i j r q a r') w v =
      let c : WasConfirmed g.id h = subst (λ (x : RolloverState). Settled x h) r w in
      (
        subst (λ (x : RolloverState). Settled x (m ∷ h)) (sym r')
            (subst (λ (x : Message Event Resume). WasStaged (x ∷ h)) (sym i)
              (WasStaged.now log e h j (subst (λ (x : B256). WasConfirmed x h) q c))),
        Active-keeps s.active_epoch s'.active_epoch m h a v,
      )
  Turn-keeps s s' m h (rolled block n i r l a r') w v =
      let c : WasStaged h = subst (λ (x : RolloverState). Settled x h) r w in
      (
        Settled-open s'.rollover (m ∷ h) r',
        λ (k : ℕ) (e : s'.active_epoch ≡ number k). inr (
            subst (λ (x : Message Event Resume). WasReached t k (x ∷ h)) (sym i)
              (WasReached.now block h (ground (arith, sym a ∙ e, l)) c)),
      )

Run-keeps :
    (t : Transition) (start s : State) (h : History)
    → Run t start s h
    → is_settled start.rollover ≡ false
    → Settled s.rollover h × Active t start.active_epoch s.active_epoch h
Run-keeps t start _ _ here o =
    (Settled-open start.rollover [] o, λ (n : ℕ) (e : start.active_epoch ≡ number n). inl e)
Run-keeps t start _ _ (further s h m r) o =
    let (w, v) = Run-keeps t start s h r o in
    Turn-keeps t start.active_epoch s (apply_transition t s m).0 m h (apply_transition-Turn t s m) w
      v

-- After any messages, in any order and of any data, from a state with no group that waits to be signed for or is
-- staged: an active epoch other than the first one came with a block at or past its start, before which the
-- consensus contract had staged a group, before which a participant had confirmed that same group.
pub active_epoch_lineage :
    (t : Transition) (start s : State) (h : History) (n : ℕ)
    → Run t start s h
    → is_settled start.rollover ≡ false
    → s.active_epoch ≡ number n
    → start.active_epoch ≢ number n
    → WasReached t n h
active_epoch_lineage t start s h n r o e f = elim ((Run-keeps t start s h r o).1 n e) [
  | inl x ↦ absurd (f x)
  | inr x ↦ x
]
