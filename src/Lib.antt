-- ===== src/Lib.antt =====
-- The off-chain services of Safenet: the state machine that every service runs on, the validator's part in
-- the generation of keys, the rollover of epochs and the signing of transactions, and the sentinel's votes on
-- transactions.
--
-- A service follows the chain with an indexer, which yields block updates and log updates. The state
-- machine of crates/core folds them into the service's state by the service's transition, commits
-- one snapshot for each range of logs to a SQLite table, rolls back to a snapshot when a block leaves the
-- chain, and starts again from the last one. The validator's transition (crates/validator/src/state)
-- answers the events with actions, which become transactions, and effects, whose results come back as
-- resumes. A packet that is proposed opens a session; a sign request gives it a signature id and a nonce;
-- after the oracle's approval the signers reveal their nonces, then share, until the signature is
-- complete and attested. Deadlines in blocks restart a ceremony among those who took part, or end it.
-- An epoch has a group with a shared key. The group of the next epoch commits, shares secrets, answers
-- complaints and confirms; the active group then signs the rollover, the consensus contract stages the epoch,
-- and a block at or past its start makes it the active one.
--
-- The sentinel (crates/sentinel) follows the same chain. It hands each transaction that is proposed to its
-- oracle to an engine, commits to the engine's verdict by a hash when the oracle opens the request, reveals
-- the vote after the commit deadline, finalizes the request and claims its bond.
--
-- Prelude and its children: Boolean tests, 64-bit arithmetic, maps, results. A `BTreeMap` is the ascending
-- list of its entries, a `BTreeSet` a map to the unit; the keys are the numbers that the addresses, words and
-- block numbers are.
-- Core/Snapshots: crates/core/src/state/storage.rs, one function for each query of `SnapshotStore`, over a
-- map from block numbers to encoded states. The encoding is the parameter `Codec`, for serde_json; that
-- decoding undoes encoding is the hypothesis `RoundTrips` where a theorem needs it.
--   Rows, Recover: what the queries leave and read back.
-- Core/Machine: crates/core/src/state/mod.rs. `handle_update` is `StateMachine::handle_update`, with a function
-- for each arm of its match; `with_init`, `handle_resume` and `prune` have their source's names. The lock
-- is the option `inner`, which is `none` after an error. The transition is the parameter `apply_transition`.
--   Change, Invariant, Reorg, Restart: its runs over any inputs.
--   Chain (Steps, Refinement): what the machine promises, as the messages of the blocks that are on the chain.
-- Core/Blocks: the block watcher, crates/core/src/index/blocks.rs: `next` and `revalidate_last_block`; Start has
-- `initialize`. A loop or a match of the source is a function of its own. The provider is a function from the
-- number of the call to its answer; waiting takes no time, so that `poll`, the loop of `next`, has fuel, and gives
-- nothing when the block is not there within it.
--   Guards, Linked, Feeding, Checking, Starting, Resuming, Accepted, Driving: any sequence of calls, against the
--   conditions of `handle_update` on block numbers and on which rows the table has; Logged, Followed, Watched: the
--   same at Core/Machine itself, each update with the logs of its blocks as one event update; Steady: the end of the scan.
-- Core/Transactions: the transaction queue's table, crates/core/src/tx/storage.rs and types.rs, one function for
-- each query over the rows in the order of their ids; a JSON column is the record that it encodes. Past
-- the largest nonce of 63 bits SQLite's sum is the REAL 2^63, which stands in the column as that number.
--   Nonces, Queries, Executed: the theorems; Replacement: tx/fees.rs and the building of a transaction.
-- Validator/Types, Epoch: the state of crates/validator/src/state/mod.rs, the actions and effects of
-- service/, the events of bindings.rs, and consensus/epoch.rs. `Transition` has the fields of the source's
-- `Transition` that the handlers read and, as functions, the calls of frost (`FrostKeygen` for those of
-- frost/keygen.rs), keccak256 and the encoders of alloy, which are not modelled.
-- Validator/Nonces, Preprocess: crates/validator/src/state/preprocess.rs.
-- Validator/Groups, Participation: crates/validator/src/consensus/group.rs, the participant sets, their thresholds,
-- the groups and the proofs of participation. `u16::try_from` is `to_u16`; a panic is `none`.
--   Members: the theorems on the sets.
-- Validator/Merkle: crates/validator/src/merkle.rs, with keccak256 as a parameter; a tree is the list of its levels.
--   Proofs: the theorem.
-- Validator/Packets: the packet's callbacks and hashes, from state/sign.rs and consensus/hashing.rs.
-- Validator/Sign (Opening, Rounds, Ending): the handlers of state/sign.rs and state/transactions.rs. A handler
-- takes the state and the event to the next state and the commands, as in the source; a match on the
-- session that is taken out of the map is a function of its own.
-- Validator/Timeouts: `handle_signing_timeouts`. Its closures, which change the index and the commands while
-- `retain` runs, return what they change.
-- Validator/Links, Progress, Quorum, Requests: the theorems on signing. `Links.Runs` has the handlers as the
-- steps of a relation; a sign request there carries a signature id that is not in the index, which is what
-- the coordinator contract gives.
-- Validator/Keygen (Ceremony, Collecting, Sharing, Confirming, Complaints, Clock): the handlers of state/keygen.rs; the
-- source's match on the rollover is a function of its own, which takes the rollover beside the state. An
-- `expect` that fails leaves the state; it does not for the sets that `participants_set` returns.
-- Validator/Dispatch: `apply_transition` of state/mod.rs, over the state machine's messages.
-- Validator/Frame, Rollover, Complaints, Stalls: the theorems on key generation and on the epochs. Rollover/Service
-- puts the validator's transition into the state machine of crates/core.
-- Sentinel/Types, Events, Hashing, Engine: the data of crates/sentinel/src (state.rs, action.rs, effect.rs, bindings.rs),
-- hashing.rs and engine.rs. `SentinelTransition` has the fields of the source's and of its signer and, as functions,
-- HKDF, keccak256 and the EIP-712 hash. A `HashMap` is the ascending list of its entries.
-- Sentinel/Voting, Tally, Outcomes: the handlers of service.rs, under their names, but for `finalize_votes`, which is
-- `finalize`; `advance_entry` is the closure of the `retain` in `handle_block_advance`.
-- Sentinel/Dispatch: `apply_transition` and `SentinelEncoder`.
-- Sentinel/Lifecycle: the life of one request, a machine of its own. Pointwise, Advance, Independence, Runs relate it to
-- the transition; Openings, Accounts, Evidence, Tallies, Deadlines, Binding: the theorems on votes, commands, bonds,
-- counters, deadlines and commitments. Sentinel/Service puts the sentinel's transition into the state machine of
-- crates/core; Core/Machine/Chain/Live is what that shares with the validator's.
-- Examples, in Core, in Validator and in Sentinel, Core/QueueExamples, Core/BlockExamples, Validator/GroupExamples and
-- Validator/RolloverExamples: concrete machines, tables, validators, groups and rollovers.
--
-- Bounds: numbers are the natural numbers; `saturating_add`, `checked_add` and `checked_sub` are those of
-- u64, the sentinel's counters wrap around at 2^64, and `i64::try_from` is `to_i64`. The loop of
-- `MerkleTree::build` has as fuel the number of leaves, which is enough, since each level halves the one
-- below; `poll`, which waits for a block, has the calls that it may make; the scan of `initialize` has
-- fuel, and Core/Blocks/Steady says how much is enough on a chain that does not change and whose last number is
-- below 2^64 - 1, where the `number += 1` of the scan, which wraps around in the model, does not; every other loop of
-- the modelled code runs over a list.
--
-- Not modelled: logs, metrics and SQLite's I/O errors; the event watcher but for its data, and the clock of the
-- block watcher; the queue of tx/mod.rs over the transaction table, and `cap_priority_fee`; the driver; the
-- cryptography of crates/validator/src/frost; the nonce and key stores; crates/sentinel-engine; the contracts.
pub mod Prelude
pub mod Core
pub mod Validator
pub mod Sentinel
