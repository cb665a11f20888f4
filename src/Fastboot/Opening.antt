-- ===== src/Fastboot/Opening.antt =====
-- `fastbootInterface` and `open_fastboot` of canoe-usb-web/src/lib.rs.
pub mod Ends
use canoe_nusb_storage.Common.{ℕ, ◌==◌, Bool, ◌&&◌, Option, none, some, List, any, find}
use canoe_nusb_storage.Common.Outcome.{
  Outcome, ok, err, dropped, panicked, stuck, Action, pure, get, ◌>>=◌, ◌>>◌,
}
use canoe_nusb_storage.Web.Browser.{Browser, Failure, script_error}
use canoe_nusb_storage.Web.Closing.{close_after_failure}
use canoe_nusb_storage.Web.Connecting.{Opening, on_world}
use canoe_nusb_storage.Managed.Opening.{Device, Alternate, Configuration, required}
use canoe_nusb_storage.Fastboot.{FastbootSession}

-- nusb's device and the engine's client, with their errors as texts for JavaScript.
pub record FastbootOpener (T W I : Type 0) : Type 0 where
  pub from_js : Action W Failure (Unit {0})
  pub claim_interface : ℕ → Action W Failure I
  pub from_interface : I → Action W Failure T

unfoldable pub is_fastboot : Alternate → Bool
is_fastboot a =
    (a.interface_class == 255) && ((a.interface_subclass == 66) && (a.interface_protocol == 3))

module _ {W : Type 0} (device : Device W) where
  unfoldable pub select_config : Option Configuration → Action W Failure Configuration
  select_config (some config) = pure config
  select_config none = do
    w ← get
    config ←
        required
          (find (λ c. any (λ i. any is_fastboot i.alternates) c.interfaces)
            (device.configurations w))
          (script_error "Fastboot configuration is missing")
    device.select_configuration config.configuration_value
    w' ← get
    required (device.configuration w') device.null_error

  -- The number of the interface to claim.
  unfoldable pub fastboot_interface : Action W Failure ℕ
  fastboot_interface = do
    w ← get
    config ← select_config (device.configuration w)
    found ←
        required (find (λ i. is_fastboot i.alternate) config.interfaces)
          (script_error "Fastboot interface is missing")
    pure found.interface_number

module _ {T W I : Type 0} (browser : Browser W I) (device : Device W)
    (opener : FastbootOpener T W I) where
  abbrev pub set_claimed : I → Action (Opening W I) Failure (Unit {0})
  set_claimed claimed o = (ok tt, record o { claimed = some claimed })

  -- The `async` block of `open_fastboot`.
  unfoldable pub attempt : Action (Opening W I) Failure T
  attempt = do
    number ← on_world (fastboot_interface device)
    claimed ← on_world (opener.claim_interface number)
    set_claimed claimed
    on_world (opener.from_interface claimed)

  abbrev pub give_up : Failure → Opening W I → Outcome Failure (FastbootSession T W I) × W
  give_up primary o =
      let (e, w) = close_after_failure browser primary o.claimed o.world in (err e, w)

  -- The `match` on how the block ended.
  unfoldable pub settle :
      Outcome Failure T → Opening W I → Outcome Failure (FastbootSession T W I) × W
  settle (ok client) o =
      (ok (record { client = some client; interface = o.claimed; device = o.world }), o.world)
  settle (err e) o = give_up e o
  settle dropped o = (dropped, o.world)
  settle panicked o = (panicked, o.world)
  settle stuck o = (stuck, o.world)

  -- The rest of `open_fastboot`, by how `Device::from_js` ended.
  unfoldable pub open_native : Outcome Failure (Unit {0}) → Action W Failure (FastbootSession T W I)
  open_native (ok _) w = let (r, o) = attempt (record { world = w; claimed = none }) in settle r o
  open_native (err e) w = give_up e (record { world = w; claimed = none })
  open_native dropped w = (dropped, w)
  open_native panicked w = (panicked, w)
  open_native stuck w = (stuck, w)

  unfoldable pub open_fastboot : Action W Failure (FastbootSession T W I)
  open_fastboot w = let (r, w') = opener.from_js w in open_native r w'
