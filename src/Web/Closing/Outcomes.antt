-- ===== src/Web/Closing/Outcomes.antt =====
-- What `close_web` (nusb-scsi/src/lib.rs) does and answers, on every branch.
use canoe_nusb_storage.Common.{ℕ, ◌≡◌, refl, ◌⊎◌, ◌↔◌, false, Option, none, some, arith}
use canoe_nusb_storage.Common.Outcome.{ok, err}
use canoe_nusb_storage.Scsi.Error.{Error}
use canoe_nusb_storage.Web.Browser.{Browser, answered, refused}
use canoe_nusb_storage.Web.Closing.{combine, released, closed, release, close_web}

module _ {W I : Type 0} (browser : Browser W I) where
  -- The interface is released in the state `w`: there is none, the release answers, or it fails on a
  -- device that is no longer open.
  abbrev pub IsReleased : Option I → W → Type 0
  IsReleased none w = Unit {0}
  IsReleased (some interface) w =
      let (r, w') = browser.release interface w in
      (r ≡ answered tt) ⊎ (((e : ℕ) × (r ≡ refused e)) × (browser.opened w' ≡ false))

  pub close_web-cases :
      (interface : Option I) (w : W)
      → ((close_web browser interface w).0 ≡ ok tt)
        ⊎ ((e : Error) × ((close_web browser interface w).0 ≡ err e))
  unfolding close_web release released combine closed
  close_web-cases none w = grind arith
  close_web-cases (some interface) w = grind arith

  -- `close_web` always closes the device, after the interface is released, and leaves the state
  -- that the closing leaves. It succeeds just where the interface is released (there is none, the
  -- release answers, or it fails on a device that is no longer open) and the closing answers.
  pub close_web_iff :
      (interface : Option I) (w : W)
      → let w' = (release browser interface w).1 in
        ((close_web browser interface w).1 ≡ (browser.close w').1)
        × (((close_web browser interface w).0 ≡ ok tt)
            ↔ (IsReleased interface w × ((browser.close w').0 ≡ answered tt)))
  unfolding close_web release released combine closed
  close_web_iff none w = (refl, (λ h. grind arith, λ h. grind arith))
  close_web_iff (some interface) w = (refl, (λ h. grind arith, λ h. grind arith))
