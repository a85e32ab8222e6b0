-- ===== src/Lib.antt =====
-- A model of the BINA layer-1 chain: the consensus rules of the crate l1-chain/core and the decisions of
-- the node l1-chain/node that stand on them.
--
-- The parts, and the files that model them:
-- - Prelude and its children: lists, machine words, results, byte strings and maps that all parts share.
--   A string of the program and a byte array are both lists of byte values. A u64 is a native number
--   with its saturation, its check or its wrap-around written out.
-- - External: the functions of the crates blake3, sha3, hex, ed25519_dalek and pqcrypto_falcon as a
--   record, with the documented properties that proofs use (IsDigest, IsKeyPair) as named hypotheses.
-- - Difficulty: l1-chain/core/src/difficulty.rs. The rounded logarithm of floating point numbers is a
--   parameter. record_block returns the new adjuster and the report.
-- - Crypto: l1-chain/core/src/crypto.rs, the hybrid keys and signatures and their encodings.
-- - Block: l1-chain/core/src/block.rs, the header, its encoding and hash, and the test of its work.
-- - Claims: l1-chain/core/src/claims.rs, signed claims and the election of a winner.
-- - Transaction: l1-chain/core/src/transaction.rs, transfers, their two kinds of signature, and the
--   Merkle root. The root's loop runs on fuel, the length of its first layer; each round halves a
--   layer, so the fuel is enough.
-- - Emission and Ledger: l1-chain/core/src/rewards.rs, the schedule of rewards, the ledger with its
--   append-only log, the state root, the dry run of a block, and the replay of the log. The state keeps the
--   log's rows; Ledger.Text models the lines that are written for them and how they are read, with
--   str::trim as a parameter. A u64 has at most twenty digits, the fuel of its printing.
-- - Randomness: l1-chain/core/src/randomness.rs, derived outputs and spent nullifiers.
-- - Checkpoint: l1-chain/core/src/bitcoin_entropy.rs, Bitcoin checkpoints.
-- - Node: l1-chain/node/src/main.rs, the shared state, the acceptance of claims, the mempool, the
--   choice of a peer and of a winning claim, and the synchronisation of blocks from a peer.
--   The local btc_checkpoint_tip_height of mining_loop stands beside the state, since the two may differ.
-- - Node.Reorg: l1-chain/node/src/main.rs, the loop of pages from a peer and the reconciliation of a fork.
--   The answers of a peer are a list, which ends where the peer stops answering; the loops run along
--   it and need no fuel.
-- - Node.Mining: l1-chain/node/src/main.rs, a round of the mining loop in two parts, the candidate and the
--   election with its end. Between the two the handlers may run.
-- - Node.Startup: l1-chain/node/src/main.rs, the chain-state file and the start of the node. The text of the
--   file is read and written by a parameter.
-- - Node.Peers: l1-chain/node/src/peers.rs, the bounded set of known peers; the classes of addresses of
--   the standard library are parameters. Node.RateLimit: the request budget of main.rs.
-- - Store: l1-chain/node/src/store.rs, the tables of blocks, of their transactions and of the mempool, in the
--   order of their keys; a flag says whether a write succeeds. Node records its calls of the store,
--   and Node.Reorg makes them.
-- - Gossip: l1-chain/node/src/envelope.rs and l1-chain/node/src/gossip.rs, envelopes, the set of seen
--   messages, and the handlers of main.rs that receive and relay them. The route /p2p/message stands
--   before its handler with its bound on the body and the request budget; the length of a JSON text is
--   a parameter. The other routes are modelled from their handlers on.
-- - Observation: l1-chain/node/src/bitcoin_entropy.rs, the observation of Bitcoin from the answers of public
--   services.
-- - Search: l1-chain/core/src/pow.rs, the threads of the search for a nonce; a list says which thread makes
--   the next step.
-- - Tests: concrete inputs for the theorems.
--
-- A node accepts a claim by Claims.verify, the rules of Block, Checkpoint and Emission, and the dry run of
-- Ledger; a finalized block is applied to the ledger by the operations of Ledger. State is passed
-- explicitly: an operation returns its result with the next state. A HashMap is an association list
-- that is read by key only, except where the program sorts it. The write of the log is a flag that
-- says whether it succeeds.
--
-- Not modelled: network input and output, the opening of the block store's database and its schema, locks
-- (each operation of the node runs whole), log lines and counters, the HTTP handlers that only read, the
-- creation of the ledger's file, key generation, the files wallet_cmd.rs, secure_memory.rs, cpu.rs and
-- stale_block_miner.rs, and the Solidity contracts.
pub mod Prelude
pub mod Difficulty
pub mod External
pub mod Crypto
pub mod Block
pub mod Claims
pub mod Transaction
pub mod Emission
pub mod Ledger
pub mod Randomness
pub mod Checkpoint
pub mod Search
pub mod Observation
pub mod Store
pub mod Gossip
pub mod Node
pub mod Tests
