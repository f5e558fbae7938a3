-- ===== src/Store.antt =====
-- internal/store: the index and the installation of file versions.
mod Tests
pub mod Limits
pub mod Error
pub mod Path
pub mod Validate
pub mod Codec
pub mod Index
pub mod Disk
pub mod Exec
pub mod Root
pub mod Folder
pub mod Fingerprint
pub mod Apply
pub mod Init
pub mod Listing
pub mod Source
pub mod Scan
pub mod Runs
