-- ===== src/Web/Connecting.antt =====
-- `NusbIo::connect_web` of nusb-scsi/src/lib.rs, `retain_web_interface` and the browser's `close`.
pub mod Stops
pub mod Ends
use canoe_nusb_storage.Common.{
  ℕ, ◌==◌, Bool, true, false, not, Option, none, some, List, if◌then◌else◌, find,
}
use canoe_nusb_storage.Common.Outcome.{
  Outcome, ok, err, dropped, panicked, stuck, Action, pure, get, finish, or_panic, raise_if, ◌>>=◌,
  ◌>>◌,
}
use canoe_nusb_storage.Scsi.Error.{Error, protocol, initialization_timeout, with_cleanup}
use canoe_nusb_storage.Usb.{Nusb, NusbIo, validate_timeout, initialize, required}
use canoe_nusb_storage.Web.Browser.{Browser}
use canoe_nusb_storage.Web.Closing.{close_web}

-- An interface of the active configuration: its number and its active alternate setting.
pub record Listed : Type 0 where
  pub interface_number : ℕ
  pub alternate_setting : ℕ

-- The browser's device as nusb opens it. A call that the delay overtakes ends as `dropped`.
pub record Opener (W I : Type 0) : Type 0 where
  pub configuration : W → Option (List Listed)
  pub from_js : Action W Error (Unit {0})
  pub claim_interface : ℕ → Action W Error I

-- The variables of `connect_web` that outlive the race: the state of the browser, and `claimed`.
pub record Opening (W I : Type 0) : Type 0 where
  pub world : W
  pub claimed : Option I

abbrev pub on_world : {W I E A : Type 0} → Action W E A → Action (Opening W I) E A
on_world m o = let (r, w) = m o.world in (r, record o { world = w })

module _ {W I P : Type 0} (nusb : Nusb W I P) (browser : Browser W I) (opener : Opener W I) where
  abbrev pub set_claimed : I → Action (Opening W I) Error (Unit {0})
  set_claimed claimed o = (ok tt, record o { claimed = some claimed })

  -- The future that races the delay.
  unfoldable pub attempt : (number alternate timeout : ℕ) → Action (Opening W I) Error (NusbIo I P)
  attempt number alternate timeout = do
    now ← get
    interfaces ← required (opener.configuration now.world) "no active USB configuration"
    selected ←
        required (find (λ entry. entry.interface_number == number) interfaces)
          "selected USB interface is missing"
    raise_if (not (selected.alternate_setting == alternate))
        (protocol "selected alternate setting is not active")
    on_world opener.from_js
    claimed ← on_world (opener.claim_interface number)
    set_claimed claimed
    on_world (initialize nusb claimed alternate timeout)

  -- The `match` on `close_web` of the arm `Err(error)`.
  abbrev pub with_closing : Error → Outcome Error (Unit {0}) → Error
  with_closing e (err failure) = with_cleanup e failure
  with_closing e _ = e

  unfoldable pub give_up : Error → Opening W I → Outcome Error (NusbIo I P) × W
  give_up e o = let (r, w) = close_web browser o.claimed o.world in (err (with_closing e r), w)

  -- The `match` on how the race ended.
  unfoldable pub settle : Outcome Error (NusbIo I P) → Opening W I → Outcome Error (NusbIo I P) × W
  unfolding give_up
  settle (ok io) o = (ok (record io { web_device = true; web_interface = o.claimed }), o.world)
  settle (err e) o = give_up e o
  settle dropped o = give_up initialization_timeout o
  settle panicked o = (panicked, o.world)
  settle stuck o = (stuck, o.world)

  abbrev pub race : (number alternate timeout : ℕ) → Action W Error (NusbIo I P)
  race number alternate timeout w =
      let (r, o) = attempt number alternate timeout (record { world = w; claimed = none }) in
      settle r o

  unfoldable pub connect_web : (number alternate timeout : ℕ) → Action W Error (NusbIo I P)
  connect_web number alternate timeout = do
    _ ← finish (validate_timeout timeout)
    race number alternate timeout

-- `expect`: the transport of `connect_web` has the interface.
unfoldable pub retain_web_interface : {I P S : Type 0} → NusbIo I P → Action S Error I
retain_web_interface io = or_panic io.web_interface

-- The browser's `NusbIo::close`.
unfoldable pub close : {W I P : Type 0} → Browser W I → NusbIo I P → Action W Error (Unit {0})
close browser io =
    if io.web_device
    then close_web browser io.web_interface
    else (λ w. (err (protocol "missing WebUSB owner"), w))
