-- ===== src/P2p.antt =====
-- What nodes put into the distributed hash table, and which values it accepts: clawnet-cli/internal/p2p.
pub mod Records
pub mod Transactions
mod Examples
