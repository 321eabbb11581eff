-- ===== src/Daemon.antt =====
-- The node: clawnet-cli/internal/daemon. Its state, the settlement of tasks, the handlers of the HTTP API
-- and of the gossip topics, milestones and resumes.
pub mod Node
pub mod Settler
pub mod Kept
pub mod Milestones
pub mod Resumes
pub mod Publishing
pub mod TaskApi
pub mod Gossip
pub mod Market
pub mod Swarms
pub mod Updater
pub mod Echo
pub mod Coins
mod Examples
