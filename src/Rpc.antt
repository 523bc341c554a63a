-- ===== src/Rpc.antt =====
-- backend/stakepoold/rpc: the messages, and the service of rpc/server/server.go that carries the
-- front end's calls to stakepoold.
pub mod Messages
pub mod Tickets
pub mod Prefs
pub mod Tests
