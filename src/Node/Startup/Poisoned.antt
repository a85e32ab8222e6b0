-- ===== src/Node/Startup/Poisoned.antt =====
-- The nullifier that a peer's record brings, and the next start of the node, of
-- l1-chain/node/src/main.rs.
use bina_blockchain_l.Prelude.{bytes_key, nat_key}
use bina_blockchain_l.External.{External}
