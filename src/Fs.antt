-- ===== src/Fs.antt =====
-- canoe-fs/src/lib.rs: file operations confined to one block device.
pub mod Text
pub mod Guarded
pub mod Io
pub mod Path
pub mod Engines
pub mod Session
pub mod Stat
pub mod Listing
pub mod Inspection
pub mod Files
pub mod Operations
pub mod Lifecycle
pub mod Confinement
pub mod Closed
pub mod Worker
