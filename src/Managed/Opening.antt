-- ===== src/Managed/Opening.antt =====
-- `managedInterface`, `access_mode` and `openManagedStorage` of canoe-usb-web/src/managed.rs.
pub mod Stops
pub mod Ends
use canoe_nusb_storage.Common.{
  ℕ, ◌*◌, ◌==◌, Bool, true, false, not, ◌&&◌, ◌||◌, Option, none, some, List, [], ◌∷◌, String, min,
  if◌then◌else◌, any, filter,
}
use Prim.Native.Nat.{Ordering}
use Prim.Native.String
use canoe_nusb_storage.Common.Outcome.{
  Outcome, ok, err, dropped, panicked, stuck, Action, pure, raise, get, finish, raise_if, ◌>>=◌,
  ◌>>◌,
}
use canoe_nusb_storage.Scsi.Error.{Error}
use canoe_nusb_storage.Scsi.Transport.{new}
use canoe_nusb_storage.Range
use canoe_nusb_storage.Range.{RangeSession, Access, read_only, read_write}
use canoe_nusb_storage.Usb.{Nusb, NusbIo, nusb_bus, nanoseconds}
use canoe_nusb_storage.Web.Browser.{Browser, Failure, storage, message, script_error}
use canoe_nusb_storage.Web.Closing.{close_after_failure}
use canoe_nusb_storage.Web.Connecting.{Opener, Opening, on_world, connect_web, retain_web_interface}
use canoe_nusb_storage.Managed.{ManagedStorageSession}

pub record Alternate : Type 0 where
  pub alternate_setting : ℕ
  pub interface_class : ℕ
  pub interface_subclass : ℕ
  pub interface_protocol : ℕ

pub record Interface : Type 0 where
  pub interface_number : ℕ
  pub claimed : Bool
  pub alternate : Alternate
  pub alternates : List Alternate

pub record Configuration : Type 0 where
  pub configuration_value : ℕ
  pub interfaces : List Interface

-- The `USBDevice` of the inline JavaScript. `null_error` is what reading a property of `null` throws.
-- Where the deadline of the opening passes while `connect_web` runs, `overtaken` is the state in which
-- that is dropped.
pub record Device (W : Type 0) : Type 0 where
  pub vendor_id : W → ℕ
  pub product_id : W → ℕ
  pub opened : W → Bool
  pub configuration : W → Option Configuration
  pub configurations : W → List Configuration
  pub open_device : Action W Failure (Unit {0})
  pub select_configuration : ℕ → Action W Failure (Unit {0})
  pub null_error : Failure
  pub overtaken : W → Option W

unfoldable pub is_managed : Alternate → Bool
is_managed a =
    (a.interface_class == 255) && ((a.interface_subclass == 6) && (a.interface_protocol == 80))

-- An element of a list, where it is the only one.
abbrev pub only : {A : Type 0} → List A → Option A
only (x ∷ []) = some x
only _ = none

abbrev pub required : {S A : Type 0} → Option A → Failure → Action S Failure A
required none e = raise e
required (some a) e = pure a

module _ {W : Type 0} (device : Device W) where
  unfoldable pub select_first : Option Configuration → Action W Failure Configuration
  select_first (some configuration) = pure configuration
  select_first none = do
    w ← get
    candidate ←
        required
          (only (
            filter (λ c. any (λ i. any is_managed i.alternates) c.interfaces)
              (device.configurations w)))
          (script_error "Expected one managed USB configuration")
    device.select_configuration candidate.configuration_value
    w' ← get
    required (device.configuration w') device.null_error

  -- The number and the alternate setting of the interface to claim.
  unfoldable pub managed_interface : Action W Failure (ℕ × ℕ)
  managed_interface = do
    w ← get
    raise_if (not (device.vendor_id w == 0x1209) || not (device.product_id w == 0xca0f))
        (script_error "Expected the managed1209:ca0f export")
    (if device.opened w then pure tt else device.open_device)
    w' ← get
    configuration ← select_first (device.configuration w')
    selected ←
        required (only (filter (λ i. is_managed i.alternate) configuration.interfaces))
          (script_error "Expected one active managed ff/06/50 interface")
    raise_if selected.claimed (script_error "Managed USB interface is already claimed")
    pure (selected.interface_number, selected.alternate.alternate_setting)

-- The `as u8` of a JavaScript number.
abbrev pub to_u8 : ℕ → ℕ
to_u8 n = min n 255

-- `map_err(error)`
unfoldable pub thrown : {A : Type 0} → Outcome Error A → Outcome Failure A
thrown (ok a) = ok a
thrown (err e) = err (storage e)
thrown dropped = dropped
thrown panicked = panicked
thrown stuck = stuck

abbrev pub throwing : {S A : Type 0} → Action S Error A → Action S Failure A
throwing m s = let (r, s') = m s in (thrown r, s')

-- Whether two texts are the same.
abbrev pub same : String → String → Bool
same a b = elim (String.compare a b) [ Ordering.eq ↦ true | _ ↦ false ]

unfoldable pub access_mode : String → Outcome Failure Access
access_mode value =
    if same value "read-only"
    then ok read_only
    else if same value "read-write"
    then ok read_write
    else err (message "access must be read-only or read-write")

module _ {W I P : Type 0} (nusb : Nusb W I P) (browser : Browser W I) (opener : Opener W I)
    (device : Device W) (usize_max : ℕ) where
  abbrev pub set_owner : I → Action (Opening W I) Failure (Unit {0})
  set_owner owner o = (ok tt, record o { claimed = some owner })

  -- `Scsi::new` and `RangeSession::connect`, and the state of the device after them.
  unfoldable pub connect : NusbIo I P → Access → Action W Failure (RangeSession (NusbIo I P × W))
  connect io access w = elim (new (nusb_bus nusb) (io, w) 0) [
    | ok scsi ↦
        let (r, scsi') = Range.connect (nusb_bus nusb) usize_max access scsi in
        (thrown r, scsi'.io.1)
    | err e ↦ (err (storage e), w)
    | dropped ↦ (dropped, w)
    | panicked ↦ (panicked, w)
    | stuck ↦ (stuck, w)
  ]

  -- The awaited `connect_web`, unless the deadline overtakes it.
  abbrev pub connecting : Option W → (number alternate : ℕ) → Action W Failure (NusbIo I P)
  connecting none number alternate w =
      throwing (connect_web nusb browser opener number alternate (5 * nanoseconds)) w
  connecting (some w') number alternate w = (dropped, w')

  -- The future under the deadline, once the interface is selected.
  unfoldable pub connect_selected :
      Access
      → (number alternate : ℕ)
      → Action (Opening W I) Failure (RangeSession (NusbIo I P × W) × (ℕ × (ℕ × ℕ)))
  connect_selected access number alternate = do
    io ← on_world (λ w. connecting (device.overtaken w) number alternate w)
    owner ← throwing (retain_web_interface io)
    set_owner owner
    client ← on_world (connect io access)
    pure (client, (number, (alternate, io.max_lun)))

  -- The future under the deadline: the client, the interface, its alternate setting and the highest LUN.
  unfoldable pub attempt :
      Access → Action (Opening W I) Failure (RangeSession (NusbIo I P × W) × (ℕ × (ℕ × ℕ)))
  attempt access = do
    (number, setting) ← on_world (managed_interface device)
    connect_selected access (to_u8 number) (to_u8 setting)

  abbrev pub give_up :
      Failure → Opening W I → Outcome Failure (ManagedStorageSession (NusbIo I P × W) W I) × W
  give_up primary o =
      let (e, w) = close_after_failure browser primary o.claimed o.world in (err e, w)

  -- The `match` on how the bounded future ended.
  unfoldable pub settle :
      Access
      → Outcome Failure (RangeSession (NusbIo I P × W) × (ℕ × (ℕ × ℕ)))
      → Opening W I
      → Outcome Failure (ManagedStorageSession (NusbIo I P × W) W I) × W
  settle access (ok (client, (number, (setting, max_lun)))) o = (
    ok (record {
      client = some client;
      interface_owner = o.claimed;
      device = o.world;
      interface = number;
      alternate = setting;
      max_lun = max_lun;
      access = access;
    }),
    o.world,
  )
  settle access (err e) o = give_up e o
  settle access dropped o = give_up (message "managed USB initialization timed out; reconnect") o
  settle access panicked o = (panicked, o.world)
  settle access stuck o = (stuck, o.world)

  abbrev pub open_with : Access → Action W Failure (ManagedStorageSession (NusbIo I P × W) W I)
  open_with access w =
      let (r, o) = attempt access (record { world = w; claimed = none }) in settle access r o

  unfoldable pub open_managed_storage :
      String → Action W Failure (ManagedStorageSession (NusbIo I P × W) W I)
  open_managed_storage value = do access ← finish (access_mode value); open_with access
