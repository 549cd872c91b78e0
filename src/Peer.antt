-- ===== src/Peer.antt =====
-- internal/peer: the sessions with other nodes (Peer/Roster) and the search for them
-- (Peer/Discovery).
pub mod Roster
pub mod Race
pub mod Handshake
pub mod Manager
pub mod Discovery
mod Runs
