-- ===== src/Overlay.antt =====
-- The overlay mesh that a node joins: clawnet-cli/internal/overlay.
pub mod Address
pub mod Bridge
pub mod Handshake
pub mod Peers
