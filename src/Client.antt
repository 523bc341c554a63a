-- ===== src/Client.antt =====
-- stakepooldclient/stakepooldclient.go: the front end's manager of its stakepoold instances. `W` is
-- the state of everything behind the gRPC connections, which only the calls read and change.
pub mod Calls
pub mod Backend
pub mod Reads
pub mod Writes
pub mod Sync
pub mod StakeInfo
pub mod Status
pub mod Tests
