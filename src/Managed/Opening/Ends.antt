-- ===== src/Managed/Opening/Ends.antt =====
-- How `openManagedStorage` of canoe-usb-web/src/managed.rs ends.
use canoe_nusb_storage.Common.{ℕ, ◌≡◌, ◌≢◌, refl, ◌⊎◌, inr, Option, none, String}
use canoe_nusb_storage.Common.Outcome.{Outcome, ok, err, dropped, panicked, stuck}
use canoe_nusb_storage.Common.Stops.{Stop, met, late, broken, endless}
use canoe_nusb_storage.Range.{Access}
use canoe_nusb_storage.Usb.{Nusb, NusbIo}
use canoe_nusb_storage.Web.Browser.{Browser, Failure, message}
use canoe_nusb_storage.Web.Closing.{close_web, close_after_failure}
use canoe_nusb_storage.Web.Connecting.{Opener, Opening}
use canoe_nusb_storage.Managed.{ManagedStorageSession, access_text}
use canoe_nusb_storage.Managed.Requests.{IsValid}
use canoe_nusb_storage.Managed.Opening.{Device, access_mode}
use canoe_nusb_storage.Managed.Opening.Stops.{Stops}

module _ {W I P : Type 0} (nusb : Nusb W I P) (browser : Browser W I) (opener : Opener W I)
    (device : Device W) (usize_max : ℕ) where
  abbrev Stopped : Access → W → Option I → W → Stop Failure → Type 0
  Stopped = Stops nusb browser opener device usize_max

  -- The error that stands for the stop.
  abbrev pub Reports : Stop Failure → Failure → Type 0
  Reports (met e) primary = primary ≡ e
  Reports late primary = primary ≡ message "managed USB initialization timed out; reconnect"
  Reports broken primary = ⊥
  Reports endless primary = ⊥

  -- The opening stopped, and closed the device with the interface claimed by then, in the state that
  -- the stop left. It answers the error that it met, or that of the timeout, with that of the closing
  -- attached if that failed too.
  pub record IsClosed (access : Access) (w : W) (e : Failure) (w' : W) : Type 0 where
    pub claimed : Option I
    pub world : W
    pub cause : Stop Failure
    pub stops : Stopped access w claimed world cause
    pub primary : Failure
    pub reports : Reports cause primary
    pub after : w' ≡ (close_web browser claimed world).1
    pub answer : e ≡ (close_after_failure browser primary claimed world).0

  -- A session that `open_managed_storage` answers.
  pub record IsOpened (access : Access) (s : ManagedStorageSession (NusbIo I P × W) W I)
      : Type 0 where
    pub valid : IsValid s
    pub live : s.client ≢ none
    pub kept : s.access ≡ access

  -- How the opening ends that starts in the state `w`.
  abbrev pub Settled :
      String → W → Outcome Failure (ManagedStorageSession (NusbIo I P × W) W I) × W → Type 0
  Settled text w (ok s, w') = (access : Access) × (access_mode text ≡ ok access) × IsOpened access s
  Settled text w (err e, w') =
      ((access_mode text ≡ err e) × (w' ≡ w))
      ⊎ ((access : Access) × (access_mode text ≡ ok access) × IsClosed access w e w')
  Settled text w (dropped, w') = ⊥
  Settled text w (panicked, w') =
      (access : Access) × (claimed : Option I) × Stopped access w claimed w' broken
  Settled text w (stuck, w') =
      (access : Access) × (claimed : Option I) × Stopped access w claimed w' endless

  closed :
      (text : String) (w : W) (access : Access)
      → access_mode text ≡ ok access
      → (cause : Stop Failure) (primary : Failure) (o : Opening W I)
      → Stopped access w o.claimed o.world cause
      → Reports cause primary
      → Settled text w
          (let (e, w') = close_after_failure browser primary o.claimed o.world in (err e, w'))
  unfolding close_after_failure
  closed text w access known cause primary o stops reports = inr (
    access,
    known,
    record {
      claimed = o.claimed;
      world = o.world;
      cause = cause;
      stops = stops;
      primary = primary;
      reports = reports;
      after = refl;
      answer = refl;
    },
  )

-- `access` reports a text that `access_mode` reads back.
pub access_mode-access_text : (access : Access) → access_mode (access_text access) ≡ ok access
unfolding access_mode access_text
access_mode-access_text Access.read_only = refl
access_mode-access_text Access.read_write = refl
