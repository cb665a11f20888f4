-- ===== src/Scsi/Error.antt =====
-- `Error` of nusb-scsi/src/lib.rs, with the errors of nusb that it wraps.
use canoe_nusb_storage.Common.{ℕ, String}

-- The variants of nusb's `TransferError` that the code names; `other` is any further one.
pub data TransferError : Type 0 where
  stall cancelled disconnected : TransferError
  other : ℕ → TransferError

-- `open_failed` is `Open`: nusb's error is only passed on, and a number stands for it.
pub data Error : Type 0 where
  cleanup : Error → Error → Error
  close : String → Error
  usb : TransferError → Error
  open_failed : ℕ → Error
  protocol : String → Error
  command_failed retired initialization_timeout : Error

unfoldable pub with_cleanup : Error → Error → Error
with_cleanup primary failure = cleanup primary failure
