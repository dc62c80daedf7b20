-- ===== src/Validator/Examples.antt =====
-- A validator with one epoch and one session, for the theorems on the signing handlers and on the nonces.
use shield_net.Prelude.{
  inr, ℕ, ◌-◌, ◌+◌, ◌*◌, ◌/◌, ◌%◌, ◌≡◌, ◌⊎◌, ◌≤◌, ◌<◌, refl, false, none, some, [], ◌∷◌, ◌==◌,
  if◌then◌else◌, ltb, arith, Map, get, insert, remove, contains_key, IsSorted, Sub, saturating_add,
  checked_add, last_key_value,
}
use shield_net.Validator.Epoch.{genesis, from_raw}
use shield_net.Validator.Types.{
  B256, Set, Group, NonceState, NonceIndex, Epoch, SafeTransaction, Packet, SigningState,
  waiting_for_request, collect_nonce_commitments, collect_signing_shares, RolloverState, State,
  Transition, effect, Effect, SignEvent, SignRevealedNonces, TransactionProposed,
  TransactionAttested,
}
use shield_net.Validator.Packets.{transaction_packet_hash, transaction_proposal_hash}
use shield_net.Validator.Nonces.{observe, available, reserve_chunk, expected_chunk, next_chunk}
use shield_net.Validator.Nonces.Supply.{
  usable, available-usable, available-reserve_chunk, observe_lem,
}
use shield_net.Validator.Preprocess.{handle_nonce_topup, handle_group_reconciliation}
use shield_net.Validator.Preprocess.Topup.{handle_nonce_topup_settles}
use shield_net.Validator.Preprocess.Retained.{Reconciles, handle_group_reconciliation_keeps}
use shield_net.Validator.Sign.{
  handle_sign, record_reveal, handle_sign_revealed_nonces, handle_transaction_proposed,
  handle_transaction_attested,
}
use shield_net.Validator.Timeouts.{
  deadline, expire_session, expire_request, cannot_continue, handle_signing_timeouts, expire, sweep,
}
use shield_net.Validator.Links.{Linked}
use shield_net.Validator.Links.Runs.{Step, here, further, reached-Linked}
use shield_net.Validator.Links.Sorted.{Ordered}
use shield_net.Validator.Progress.{
  patience, handle_signing_timeouts_moves, handle_signing_timeouts_ends,
}
use shield_net.Validator.Quorum.{
  handle_sign_revealed_nonces_quorum, IsViable, expire_session-IsViable,
}
use shield_net.Validator.Requests.{attested-proposed}

-- Validator 1 of the group 70 of validators 1, 2 and 3, with threshold 2.
abbrev pub config : Transition
config = record {
  account = 1;
  oracle_timeout = 20;
  signing_timeout = 10;
  oracles = (9, tt) ∷ [];
  consensus = 50;
  domain_separator = 5;
  group_threshold = λ k. 2;
  verify_revealed_nonces = λ who n. some n;
  signature_share = λ k n revealed message. none;
  keccak256 = λ bytes. 77;
  proposal_encode_type = [];
  safe_tx_struct_hash = λ tx. tx.nonce;
  safe_tx_hash = λ tx. tx.nonce;
  abi_stage_epoch = λ p r g s. [];
  abi_attest_transaction = λ e o d c a h s. [];
  genesis = record { addresses = (1, tt) ∷ (2, tt) ∷ (3, tt) ∷ []; excluded = []; context = 0 };
  participants = [];
  blocks_per_epoch = 100;
  key_gen_timeout = 10;
  abi_propose_epoch = λ p r. [];
  epoch_rollover_signing_hash = λ a p r k. 500 + p;
  frost = record {
    commitment = λ secrets. secrets;
    verify_commitment = λ who c. some c;
    verify_secret_share = λ g who x. some (x, x);
    verify_encrypted_secret_share = λ st who x. some x;
    generate_secret_shares = λ secrets m. some (secrets, secrets);
    group_commitments = λ m. some 3;
    sharing_commitments = λ st. st;
    group_key = λ g. g;
    finalize = λ st m. some st;
    reveal_secret_share = λ st who. some st;
    verify_revealed_secret_share = λ g p a x. some x;
  };
}

abbrev signers : Set
signers = (1, tt) ∷ (2, tt) ∷ (3, tt) ∷ []

abbrev pub group : Group
group = record {
  id = 70;
  root = 71;
  participants = signers;
  excluded = [];
  count = 3;
  threshold = 2;
  context = 0;
}

abbrev nonces : NonceState
nonces = record { next_sequence = 1000; chunks = (0, some 90) ∷ [] }

abbrev epoch : Epoch
epoch = record { group = group; key_share = 4; nonces = nonces }

abbrev safe_tx : SafeTransaction
safe_tx = record {
  chain_id = 1;
  safe = 2;
  to = 3;
  value = 4;
  call_data = [];
  operation = 0;
  safe_tx_gas = 0;
  base_gas = 0;
  gas_price = 0;
  gas_token = 0;
  refund_receiver = 0;
  nonce = 6;
}

abbrev packet : Packet
packet = Packet.transaction genesis 9 [] safe_tx

abbrev index : NonceIndex
index = record { root = 90; offset = 17 }

abbrev collecting : SigningState
collecting = collect_nonce_commitments 4 70 31 index ((1, 8) ∷ []) none packet signers 100

abbrev with_session : B256 → SigningState → Map B256 → State
with_session m st links = record {
  rollover = RolloverState.waiting_for_genesis;
  active_epoch = genesis;
  epochs = (0, epoch) ∷ [];
  signing = (m, st) ∷ [];
  signature_id_to_message = links;
}

abbrev revealing : State
revealing = with_session 600 collecting ((31, 600) ∷ [])

abbrev idle : State
idle = with_session 77 (waiting_for_request 4 70 none packet signers 100) []

abbrev proposed : TransactionProposed
proposed = record { epoch = 0; oracle = 9; oracle_data = []; transaction = safe_tx }

abbrev attested : TransactionAttested
attested = record {
  epoch = 0;
  oracle = 9;
  oracle_data_hash = 77;
  safe_tx_hash = 6;
  signature_id = 31;
}

abbrev sign_of : B256 → SignEvent
sign_of gid = record { gid = gid; message = 77; sid = 31; sequence = 1000 }

reached-Linked_example :
    let s = (handle_signing_timeouts config (handle_sign config idle 50 (sign_of 70)).0 100).0 in
    Ordered s × Linked s
unfolding get
reached-Linked_example =
    let opened = (handle_sign config idle 50 (sign_of 70)).0 in
    reached-Linked config idle (handle_signing_timeouts config opened 100).0
      (further opened _ (further idle _ here (Step.sign 50 (sign_of 70) refl refl))
        (Step.timeouts 100 refl))
      (tt, tt)
      (record {
        found = λ m sid st g q. ground (arith, g, q);
        leads = λ m sid g. absurd (ground (arith, g));
      })

abbrev reveal : SignRevealedNonces
reveal = record { sid = 31; participant = 2; nonces = 8 }

handle_sign_revealed_nonces_quorum_example :
    let (s', commands) = handle_sign_revealed_nonces config revealing 50 reveal in
    let (r', l') = record_reveal config reveal signers ((1, 8) ∷ []) none in
    IsSorted r'
    × Sub r' signers
    × (((¬ Sub signers r')
          × (get s'.signing 600
              ≡ some (collect_nonce_commitments 4 70 31 index r' l' packet signers 100))
          × (commands ≡ []))
        ⊎ (Sub signers r'
            × (get s'.signing 600
                ≡ some (collect_signing_shares 4 70 31 r' [] packet signers (saturating_add 50 10)))
            × (commands ≡ effect (Effect.use_nonce 600 90 17) ∷ [])))
unfolding get contains_key
handle_sign_revealed_nonces_quorum_example =
    handle_sign_revealed_nonces_quorum config revealing 50 reveal 600 4 70 31 index ((1, 8) ∷ [])
      none packet signers 100 refl refl (tt, tt)
      ((omega arith, (omega arith, tt)), ((omega arith, tt), (tt, tt))) (λ j h. ground (arith, h))

expire_session-IsViable_example :
    IsViable config (waiting_for_request 4 70 (some 2) packet ((1, tt) ∷ (3, tt) ∷ []) 110)
unfolding expire_session expire_request cannot_continue remove contains_key get
expire_session-IsViable_example =
    expire_session-IsViable config 110 600 (waiting_for_request 4 70 (some 2) packet signers 100)
      (waiting_for_request 4 70 none packet ((1, tt) ∷ (3, tt) ∷ []) 110) refl

handle_signing_timeouts_moves_example :
    (50 < deadline collecting)
    × ((st : SigningState) × (get revealing.signing 600 ≡ some st)
        × ((st ≡ collecting) ⊎ ((deadline st ≤ 50) × (patience collecting < patience st))))
unfolding handle_signing_timeouts sweep expire get
handle_signing_timeouts_moves_example =
    handle_signing_timeouts_moves config revealing 50 600 collecting (tt, tt) (omega arith)
      (omega arith) refl

handle_signing_timeouts_ends_example :
    let s₁ = (handle_signing_timeouts config revealing 100).0 in
    let s₂ = (handle_signing_timeouts config s₁ 110).0 in
    get (handle_signing_timeouts config s₂ 120).0.signing 600 ≡ none
unfolding get
handle_signing_timeouts_ends_example =
    handle_signing_timeouts_ends config revealing 100 110 120 600 collecting (tt, tt) refl
      (omega arith) (omega arith) (omega arith)

attested-proposed_example :
    ((x : SigningState) × (get
          (handle_transaction_proposed config revealing 50 proposed).0.signing
          77
        ≡ some x)
      × ((st : SigningState) → get revealing.signing 77 ≡ some st → x ≡ st))
    × (get (handle_transaction_attested config idle attested).0.signing 77 ≡ none)
    × ((j : B256)
        → (77 == j) ≡ false
        → get (handle_transaction_attested config idle attested).0.signing j ≡ get idle.signing j)
unfolding get contains_key from_raw transaction_packet_hash transaction_proposal_hash
attested-proposed_example =
    attested-proposed config revealing idle 50 epoch proposed attested refl refl refl refl refl refl

handle_group_reconciliation_keeps_example :
    (get (handle_group_reconciliation revealing).0.epochs 0 ≡ some epoch)
    × Reconciles (handle_group_reconciliation revealing).1 70
unfolding get
handle_group_reconciliation_keeps_example =
    handle_group_reconciliation_keeps revealing 0 epoch (inr (600, collecting, refl, refl)) refl

handle_nonce_topup_settles_example :
    let s₁ = (handle_nonce_topup revealing).0 in
    let s₂ = (handle_nonce_topup s₁).0 in handle_nonce_topup s₂ ≡ (s₂, [])
unfolding get
handle_nonce_topup_settles_example = handle_nonce_topup_settles revealing epoch refl (tt, tt)

available-usable_example : available nonces ≡ usable nonces.chunks 1000
available-usable_example = available-usable nonces

abbrev reserved : NonceState
reserved = record { next_sequence = 1000; chunks = (0, some 90) ∷ (1, none) ∷ [] }

available-reserve_chunk_example :
    (available reserved
      ≡ available nonces + (if 1 == 1000 / 1024 then 1024 - 1000 % 1024 else 1024))
    × ((k : ℕ) → get reserved.chunks k ≡ (if 1 == k then some none else get nonces.chunks k))
    × (get nonces.chunks 1 ≡ none)
    × IsSorted reserved.chunks
unfolding reserve_chunk expected_chunk next_chunk last_key_value checked_add insert
available-reserve_chunk_example = available-reserve_chunk nonces reserved 1 (tt, tt) refl

observe_lem_example :
    let (n', nonce) = observe nonces 1000 in
    (n'.next_sequence ≡ 1000 + 1)
    × ((k : ℕ)
        → get n'.chunks k ≡ (if ltb k ((1000 + 1) / 1024) then none else get nonces.chunks k))
    × ((x : NonceIndex)
        → nonce ≡ some x
        → (c : ℕ) × (get nonces.chunks c ≡ some (some x.root))
          × (c * 1024 + x.offset ≡ 1000)
          × (x.offset < 1024))
observe_lem_example = observe_lem nonces 1000 (omega arith)
