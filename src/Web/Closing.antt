-- ===== src/Web/Closing.antt =====
-- `close_web` of nusb-scsi/src/lib.rs and `close_after_failure` of canoe-usb-web/src/lib.rs.
pub mod Outcomes
use canoe_nusb_storage.Common.{ℕ, Bool, not, Option, none, some, if◌then◌else◌}
use canoe_nusb_storage.Common.Outcome.{Outcome, ok, err, dropped, panicked, stuck, Action}
use canoe_nusb_storage.Scsi.Error.{Error, close, open_failed, protocol, with_cleanup}
use canoe_nusb_storage.Web.Browser.{
  Browser, Raced, answered, refused, timed_out, Failure, storage, attach_cleanup_error,
}

-- The `match` on `(released, closed)`: an error of one, or of both.
unfoldable pub combine :
    Outcome Error (Unit {0}) → Outcome Error (Unit {0}) → Outcome Error (Unit {0})
unfolding with_cleanup
combine (err primary) (err failure) = err (with_cleanup primary failure)
combine (err e) _ = err e
combine _ (err e) = err e
combine _ _ = ok tt

module _ {W I : Type 0} (browser : Browser W I) where
  -- What the release of the interface counts as; `w` is the state after it.
  unfoldable pub released : Raced (Unit {0}) → W → Outcome Error (Unit {0})
  released (answered _) w = ok tt
  released (refused e) w = if not (browser.opened w) then ok tt else err (open_failed e)
  released timed_out w = err (protocol "WebUSB interface release timed out")

  unfoldable pub closed : Raced (Unit {0}) → Outcome Error (Unit {0})
  closed (answered _) = ok tt
  closed (refused value) = err (close (browser.debug value))
  closed timed_out = err (protocol "WebUSB device close timed out")

  -- The first step of `close_web`.
  unfoldable pub release : Option I → Action W Error (Unit {0})
  unfolding released
  release none w = (ok tt, w)
  release (some interface) w = let (r, w') = browser.release interface w in (released r w', w')

  unfoldable pub close_web : Option I → Action W Error (Unit {0})
  close_web interface w =
      let (first, w') = release interface w in
      let (r, w'') = browser.close w' in (combine first (closed r), w'')

  -- The error to throw, and the state after the closing.
  unfoldable pub close_after_failure : Failure → Option I → W → Failure × W
  close_after_failure primary interface w =
      let (r, w') = close_web interface w in
      (elim r [ err failure ↦ attach_cleanup_error primary (storage failure) | _ ↦ primary ], w')
