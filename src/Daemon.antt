-- ===== src/Daemon.antt =====
-- internal/daemon/daemon.go: what a device does for its folders and for its peers.
mod Tests
pub mod Status
pub mod Access
pub mod Scan
pub mod Replicate
