-- ===== src/Fastboot/Opening/Ends.antt =====
-- How `open_fastboot` of canoe-usb-web/src/lib.rs ends.
use canoe_nusb_storage.Common.{ℕ, ◌≡◌, refl, ◌⊎◌, Option, none, some}
use canoe_nusb_storage.Common.Outcome.{Outcome, ok, err, dropped, panicked, stuck}
use canoe_nusb_storage.Common.Stops.{Stop, met, late, broken, endless, StopsAt}
use canoe_nusb_storage.Web.Browser.{Browser, Failure}
use canoe_nusb_storage.Web.Closing.{close_web, close_after_failure}
use canoe_nusb_storage.Web.Connecting.{Opening}
use canoe_nusb_storage.Managed.Opening.{Device}
use canoe_nusb_storage.Fastboot.{FastbootSession}
use canoe_nusb_storage.Fastboot.Opening.{FastbootOpener, fastboot_interface, attempt}

module _ {T W I : Type 0} (browser : Browser W I) (device : Device W)
    (opener : FastbootOpener T W I) where
  -- Once the device is open as `w`, the calls stop so in the state `world`, and this is the
  -- interface claimed by then.
  abbrev pub Later : W → Option I → W → Stop Failure → Type 0
  Later w claimed world f =
      ((claimed ≡ none) × StopsAt (fastboot_interface device w) world f)
      ⊎ ((number : ℕ) × (w1 : W) × (fastboot_interface device w ≡ (ok number, w1))
          × (((claimed ≡ none) × StopsAt (opener.claim_interface number w1) world f)
              ⊎ ((i : I) × (w2 : W) × (opener.claim_interface number w1 ≡ (ok i, w2))
                  × (claimed ≡ some i)
                  × StopsAt (opener.from_interface i w2) world f)))

  abbrev pub Stops : W → Option I → W → Stop Failure → Type 0
  Stops w claimed world f =
      ((claimed ≡ none) × StopsAt (opener.from_js w) world f)
      ⊎ ((w1 : W) × (opener.from_js w ≡ (ok tt, w1)) × Later w1 claimed world f)

  -- `open_fastboot` stopped with an error, and closed the device with the interface claimed by then, in
  -- the state that the stop left. It answers that error, with that of the closing attached if that
  -- failed too.
  pub record IsClosed (w : W) (e : Failure) (w' : W) : Type 0 where
    pub claimed : Option I
    pub world : W
    pub primary : Failure
    pub stops : Stops w claimed world (met primary)
    pub after : w' ≡ (close_web browser claimed world).1
    pub answer : e ≡ (close_after_failure browser primary claimed world).0

  -- The session has the client over the interface that was claimed, that interface and the device.
  pub record IsOpened (w : W) (s : FastbootSession T W I) (w' : W) : Type 0 where
    pub client : T
    pub claimed : I
    pub number : ℕ
    pub opened : W
    pub selected : W
    pub held : W
    pub opens : opener.from_js w ≡ (ok tt, opened)
    pub selects : fastboot_interface device opened ≡ (ok number, selected)
    pub claims : opener.claim_interface number selected ≡ (ok claimed, held)
    pub connects : opener.from_interface claimed held ≡ (ok client, w')
    pub session : s ≡ record { client = some client; interface = some claimed; device = w' }

  -- How an opening ends that starts in the state `w`.
  abbrev pub Settled : W → Outcome Failure (FastbootSession T W I) × W → Type 0
  Settled w (ok s, w') = IsOpened w s w'
  Settled w (err e, w') = IsClosed w e w'
  Settled w (dropped, w') = (claimed : Option I) × Stops w claimed w' late
  Settled w (panicked, w') = (claimed : Option I) × Stops w claimed w' broken
  Settled w (stuck, w') = (claimed : Option I) × Stops w claimed w' endless

  abbrev attempted : W → Outcome Failure T × Opening W I
  attempted w = attempt browser device opener (record { world = w; claimed = none })

  closed :
      (w : W) (primary : Failure) (o : Opening W I)
      → Stops w o.claimed o.world (met primary)
      → Settled w
          (let (e, w') = close_after_failure browser primary o.claimed o.world in (err e, w'))
  unfolding close_after_failure
  closed w primary o stops = record {
    claimed = o.claimed;
    world = o.world;
    primary = primary;
    stops = stops;
    after = refl;
    answer = refl;
  }
