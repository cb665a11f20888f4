-- ===== src/Web.antt =====
-- WebUSB sessions: the browser's part of nusb-scsi/src/lib.rs, and canoe-usb-web/src/.
pub mod Browser
pub mod Closing
pub mod Connecting
