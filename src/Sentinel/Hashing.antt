-- ===== src/Sentinel/Hashing.antt =====
-- crates/sentinel/src/hashing.rs, with `derive_key` of crates/core/src/tx/signer.rs, and what the sentinel's
-- transition is built with.
use shield_net.Prelude.{ℕ, Bool, true, false, [], ◌∷◌, ◌++◌, Bytes, be_bytes}
use shield_net.Sentinel.Types.{B256, Address}

-- The EIP-712 struct of bindings.rs.
pub record TransactionProposal : Type 0 where
  pub epoch : ℕ
  pub oracle : Address
  pub oracle_data : Bytes
  pub safe_tx_hash : B256

-- The fields of `SentinelTransition` and of its `Signer`, and the functions of its dependencies: HKDF-SHA256
-- of the `hkdf` crate, by key, domain and message, and the hashes of `alloy`.
pub record SentinelTransition : Type 0 where
  pub oracle : Address
  pub consensus : Address
  pub account : Address
  pub private_key : Bytes
  pub chain_id : ℕ
  pub voting_window : ℕ
  pub hkdf : Bytes → Bytes → Bytes → B256
  pub keccak256 : Bytes → B256
  pub eip712_signing_hash :
      (chain_id : ℕ) (verifying_contract : Address) → TransactionProposal → B256

-- b"safenet-sentinel-reveal-salt"
abbrev pub reveal_salt_domain : Bytes
reveal_salt_domain =
    115 ∷ 97 ∷ 102 ∷ 101 ∷ 110 ∷ 101 ∷ 116 ∷ 45 ∷ 115 ∷ 101 ∷ 110 ∷ 116 ∷ 105 ∷ 110 ∷ 101 ∷ 108 ∷ 45
    ∷ 114 ∷ 101 ∷ 118 ∷ 101 ∷ 97 ∷ 108 ∷ 45 ∷ 115 ∷ 97 ∷ 108 ∷ 116 ∷ []

-- `Signer::derive_key`, at a domain that is not empty.
unfoldable pub derive_key : SentinelTransition → Bytes → Bytes → B256
derive_key t domain message = t.hkdf t.private_key domain message

unfoldable pub reveal_salt : SentinelTransition → B256 → B256
unfolding derive_key
reveal_salt t request_id = derive_key t reveal_salt_domain (be_bytes 32 request_id)

-- `u8::from(approve)`
abbrev pub byte_of : Bool → ℕ
byte_of true = 1
byte_of false = 0

-- What `commit_hash` feeds to the hasher.
unfoldable pub commit_preimage : Address → B256 → Bool → B256 → Bytes → Bytes
commit_preimage sentinel request_id approve salt reason =
    byte_of approve
    ∷ (be_bytes 32 salt ++ (be_bytes 20 sentinel ++ (be_bytes 32 request_id ++ reason)))

unfoldable pub commit_hash : (Bytes → B256) → Address → B256 → Bool → B256 → Bytes → B256
unfolding commit_preimage
commit_hash keccak256 sentinel request_id approve salt reason =
    keccak256 (commit_preimage sentinel request_id approve salt reason)

unfoldable pub oracle_tx_proposal_hash : SentinelTransition → ℕ → Address → Bytes → B256 → B256
oracle_tx_proposal_hash t epoch oracle oracle_data stx_hash =
    t.eip712_signing_hash t.chain_id t.consensus (record {
      epoch = epoch;
      oracle = oracle;
      oracle_data = oracle_data;
      safe_tx_hash = stx_hash;
    })
