-- ===== src/Validator/Types/Words.antt =====
-- Words, addresses and values that the transition only stores and passes on (key shares, secrets, proofs) are
-- numbers; a `BTreeSet` is a map to the unit, as in Rust.
use shield_net.Prelude.{ℕ, List, Map}

abbrev pub B256 : Type 0
B256 = ℕ

abbrev pub Address : Type 0
Address = ℕ

abbrev pub KeyShare : Type 0
KeyShare = ℕ

-- A value of `frost` or of `bindings` that is stored and passed on.
abbrev pub Opaque : Type 0
Opaque = ℕ

abbrev pub Bytes : Type 0
Bytes = List ℕ

abbrev pub Set : Type 0
Set = Map (Unit {0})
