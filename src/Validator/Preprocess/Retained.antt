-- ===== src/Validator/Preprocess/Retained.antt =====
-- What a block's end keeps for the sessions that are under way.
use shield_net.Prelude.{
  subst, Bool-cases, ℕ, ◌≤◌, ◌≡◌, refl, ap, inl, inr, ◌⊎◌, Option, none, some, List, [], ◌∷◌, arith,
  ◌==◌, if◌then◌else◌, Map, get, insert, split_off, get-insert, get-split_off,
}
use shield_net.Validator.Epoch.{EpochId, raw_value, min_epoch}
use shield_net.Validator.Types.{B256, KeyShare, Epoch, State, SigningState, Command, effect, Effect}
use shield_net.Validator.Preprocess.{
  oldest_epoch, packet_epoch, session_packet, epoch_groups, extend, rollover_group,
  handle_group_reconciliation,
}

min_epoch-le :
    (a b : EpochId)
    → (raw_value (min_epoch a b) ≤ raw_value a) × (raw_value (min_epoch a b) ≤ raw_value b)
unfolding min_epoch
min_epoch-le a b = ground arith

oldest-le-acc :
    (acc : EpochId) (l : Map SigningState) → raw_value (oldest_epoch acc l) ≤ raw_value acc
unfolding oldest_epoch
oldest-le-acc acc [] = omega arith
oldest-le-acc acc ((m, st) ∷ rest) =
    let e = packet_epoch (session_packet st) in
    omega (arith, oldest-le-acc (min_epoch acc e) rest, (min_epoch-le acc e).0)

oldest-le-session :
    (acc : EpochId) (l : Map SigningState) (m : B256) (st : SigningState)
    → get l m ≡ some st
    → raw_value (oldest_epoch acc l) ≤ raw_value (packet_epoch (session_packet st))
unfolding oldest_epoch get
oldest-le-session acc [] m st h = absurd (ground (arith, h))
oldest-le-session acc ((j, st₁) ∷ rest) m st h =
    let e = packet_epoch (session_packet st₁) in
    ground (
      arith,
      oldest-le-acc (min_epoch acc e) rest,
      (min_epoch-le acc e).1,
      oldest-le-session (min_epoch acc e) rest m st,
      ap (λ x. packet_epoch (session_packet x)),
    )

abbrev Has : Map (Option KeyShare) → B256 → Type 0
Has groups id = (x : Option KeyShare) × (get groups id ≡ some x)

insert-Has :
    (g : Map (Option KeyShare)) (k j : B256) (x : Option KeyShare) → Has g j → Has (insert g k x) j
insert-Has g k j x (y, h) = (if k == j then x else y, ground (arith, get-insert g k j x))

insert-Has_self :
    (g : Map (Option KeyShare)) (k : B256) (x : Option KeyShare) → Has (insert g k x) k
insert-Has_self g k x = (x, ground (arith, get-insert g k k x))

epoch_groups-Has_acc :
    (acc : Map (Option KeyShare)) (m : Map Epoch) (j : B256)
    → Has acc j
    → Has (epoch_groups acc m) j
unfolding epoch_groups
epoch_groups-Has_acc acc [] j h = h
epoch_groups-Has_acc acc ((k, e) ∷ rest) j h =
    epoch_groups-Has_acc (insert acc e.group.id (some e.key_share)) rest j
      (insert-Has acc e.group.id j (some e.key_share) h)

epoch_groups-Has :
    (acc : Map (Option KeyShare)) (m : Map Epoch) (k : ℕ) (e : Epoch)
    → get m k ≡ some e
    → Has (epoch_groups acc m) e.group.id
unfolding epoch_groups get
epoch_groups-Has acc [] k e h = absurd (ground (arith, h))
epoch_groups-Has acc ((j, e₁) ∷ rest) k e h =
    let acc' = insert acc e₁.group.id (some e₁.key_share) in
    elim (Bool-cases (j == k)) [
      | inl q ↦
          let p : e₁ ≡ e = ground (arith, q, h) in
          subst (λ x. Has (epoch_groups acc' rest) x.group.id) p
            (epoch_groups-Has_acc acc' rest e₁.group.id
              (insert-Has_self acc e₁.group.id (some e₁.key_share)))
      | inr q ↦ epoch_groups-Has acc' rest k e (ground (arith, q, h))
    ]

extend-Has :
    (g : Map (Option KeyShare)) (o : Option (B256 × Option KeyShare)) (j : B256)
    → Has g j
    → Has (extend g o) j
extend-Has g none j h = h
extend-Has g (some (id, x)) j h = insert-Has g id j x h

-- The groups whose secrets the effect keeps.
abbrev kept_groups : State → Map (Option KeyShare)
kept_groups s =
    extend
      (epoch_groups [] (split_off s.epochs (raw_value (oldest_epoch s.active_epoch s.signing))))
      (rollover_group s.rollover)

kept_epoch :
    (s : State) (k : ℕ) (e : Epoch)
    → raw_value (oldest_epoch s.active_epoch s.signing) ≤ k
    → get s.epochs k ≡ some e
    → (get (handle_group_reconciliation s).0.epochs k ≡ some e) × Has (kept_groups s) e.group.id
unfolding handle_group_reconciliation
kept_epoch s k e l h =
    let oldest = raw_value (oldest_epoch s.active_epoch s.signing) in
    let p : get (split_off s.epochs oldest) k ≡ some e =
      ground (arith, get-split_off s.epochs oldest k) in
    (
      p,
      extend-Has (epoch_groups [] (split_off s.epochs oldest)) (rollover_group s.rollover)
          e.group.id (epoch_groups-Has [] (split_off s.epochs oldest) k e p),
    )

-- The one command has the secrets of the group kept, among those of other groups.
abbrev pub Reconciles : List Command → B256 → Type 0
Reconciles commands id =
    (groups : Map (Option KeyShare)) × (commands
      ≡ effect (Effect.reconcile_group_secrets groups) ∷ [])
    × Has groups id

-- The active epoch, and the epochs of the packets that a session is about.
abbrev pub IsNeeded : State → ℕ → Type 0
IsNeeded s k =
    (k ≡ raw_value s.active_epoch)
    ⊎ ((m : B256) × (st : SigningState) × (get s.signing m ≡ some st)
        × (k ≡ raw_value (packet_epoch (session_packet st))))

oldest-le-needed :
    (s : State) (k : ℕ) → IsNeeded s k → raw_value (oldest_epoch s.active_epoch s.signing) ≤ k
oldest-le-needed s k (inl e) = omega (arith, e, oldest-le-acc s.active_epoch s.signing)
oldest-le-needed s k (inr (m, st, g, e)) =
    omega (arith, e, oldest-le-session s.active_epoch s.signing m st g)

-- Take the active epoch, or the epoch of a session's packet, where the validator knows it. After a block's end the
-- epoch is there as it was, and the only command reconciles the group secrets with a set of groups
-- that has the epoch's group.
pub handle_group_reconciliation_keeps :
    (s : State) (k : ℕ) (e : Epoch)
    → IsNeeded s k
    → get s.epochs k ≡ some e
    → (get (handle_group_reconciliation s).0.epochs k ≡ some e)
      × Reconciles (handle_group_reconciliation s).1 e.group.id
handle_group_reconciliation_keeps s k e needed h =
    let (p, x) = kept_epoch s k e (oldest-le-needed s k needed) h in
    (p, (kept_groups s, unfold handle_group_reconciliation in refl, x))
