-- ===== src/Scsi.antt =====
-- nusb-scsi/src/lib.rs: Bulk-Only Transport and SCSI over a caller-selected USB interface.
pub mod Error
pub mod Transport
pub mod Wire
pub mod Command
pub mod Operations
pub mod Retirement
pub mod Requests
pub mod Quiet
pub mod Blocks
pub mod Readiness
pub mod Target
