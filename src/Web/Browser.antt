-- ===== src/Web/Browser.antt =====
-- The browser's USB device as nusb-scsi/src/lib.rs and canoe-usb-web/src/ use it, and the errors that
-- reach JavaScript.
use canoe_nusb_storage.Common.{ℕ, Bool, List, String}
use canoe_nusb_storage.Scsi.Error.{Error}

-- How an awaited call under a deadline ends: it answers, or the deadline passes first.
pub data Raced (A : Type 0) : Type 0 where
  answered : A → Raced A
  refused : ℕ → Raced A
  timed_out : Raced A

-- The WebUSB device and the claimed interfaces `I`; `W` is the state of both. `refused` holds nusb's
-- error of `release`, and the JavaScript value that `close` throws.
pub record Browser (W I : Type 0) : Type 0 where
  pub opened : W → Bool
  pub release : I → W → Raced (Unit {0}) × W
  pub close : W → Raced (Unit {0}) × W
  -- `format!("{value:?}")` of a thrown value.
  pub debug : ℕ → String

-- An error of the fastboot engine: the reason of a complete FAIL reply, or any other.
pub data FastbootError : Type 0 where
  fastboot_failed : List ℕ → FastbootError
  engine_error : ℕ → FastbootError

-- The JavaScript values that the sessions throw: the text of an error of either engine, a text of their own, an
-- `Error` of the inline JavaScript, another value that JavaScript threw, and `attachCleanupError` of
-- two.
pub data Failure : Type 0 where
  storage : Error → Failure
  fastboot : FastbootError → Failure
  message : String → Failure
  script_error : String → Failure
  thrown : ℕ → Failure
  attach_cleanup_error : Failure → Failure → Failure
