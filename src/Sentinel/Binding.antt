-- ===== src/Sentinel/Binding.antt =====
-- crates/sentinel/src/hashing.rs: what `commit_hash` binds.
use shield_net.Prelude.{ℕ, ◌^◌, ◌<◌, ◌≡◌, Bool, ◌∷◌, arith, Bytes, be_bytes_inj}
use shield_net.Sentinel.Types.{B256, Address}
use shield_net.Sentinel.Hashing.{byte_of, commit_preimage, commit_hash}

-- What a commitment is to, with its words in their widths.
pub record Opening : Type 0 where
  pub approve : Bool
  pub salt : B256
  pub sentinel : Address
  pub request_id : B256
  pub reason : Bytes

pub record InRange (o : Opening) : Type 0 where
  pub salt : o.salt < 256 ^ 32
  pub sentinel : o.sentinel < 256 ^ 20
  pub request_id : o.request_id < 256 ^ 32

abbrev pub preimage_of : Opening → Bytes
preimage_of o = commit_preimage o.sentinel o.request_id o.approve o.salt o.reason

abbrev pub hash_of : (Bytes → B256) → Opening → B256
hash_of keccak256 o = commit_hash keccak256 o.sentinel o.request_id o.approve o.salt o.reason

head_eq : (x y : ℕ) (xs ys : Bytes) → (x ∷ xs) ≡ (y ∷ ys) → (x ≡ y) × (xs ≡ ys)
head_eq x y xs ys e = (ground (arith, e), ground (arith, e))

byte_of_inj : (a b : Bool) → byte_of a ≡ byte_of b → a ≡ b
byte_of_inj a b e = ground (arith, e)

opening_eq :
    (o p : Opening)
    → o.approve ≡ p.approve
    → o.salt ≡ p.salt
    → o.sentinel ≡ p.sentinel
    → o.request_id ≡ p.request_id
    → o.reason ≡ p.reason
    → o ≡ p
opening_eq o p a b c d e = cc

commit_preimage_inj :
    (o p : Opening) → InRange o → InRange p → preimage_of o ≡ preimage_of p → o ≡ p
unfolding commit_preimage
commit_preimage_inj o p a b e =
    let vote = head_eq (byte_of o.approve) (byte_of p.approve) _ _ e in
    let salts = be_bytes_inj 32 o.salt p.salt _ _ a.salt b.salt vote.1 in
    let sentinels = be_bytes_inj 20 o.sentinel p.sentinel _ _ a.sentinel b.sentinel salts.1 in
    let ids = be_bytes_inj 32 o.request_id p.request_id _ _ a.request_id b.request_id sentinels.1 in
    opening_eq o p (byte_of_inj o.approve p.approve vote.0) salts.0 sentinels.0 ids.0 ids.1

-- Where keccak256 does not collide on them, equal commitment hashes have the same vote, salt, sentinel, request
-- id and reason: no commitment can be opened as another sentinel's, for another request, or with another vote
-- or reason.
pub commit_hash-binds :
    (keccak256 : Bytes → B256) (o p : Opening)
    → InRange o
    → InRange p
    → (keccak256 (preimage_of o) ≡ keccak256 (preimage_of p) → preimage_of o ≡ preimage_of p)
    → hash_of keccak256 o ≡ hash_of keccak256 p
    → o ≡ p
unfolding commit_hash
commit_hash-binds keccak256 o p a b no_collision e = commit_preimage_inj o p a b (no_collision e)
