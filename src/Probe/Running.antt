-- ===== src/Probe/Running.antt =====
-- `run` and `main` of nusb-scsi/examples/managed_probe.rs.
use canoe_nusb_storage.Common.{
  ℕ, ◌*◌, ◌==◌, Bool, true, not, ◌&&◌, Option, none, some, List, [], ◌∷◌, length, filter,
}
use canoe_nusb_storage.Common.Bytes.{bytes_eq}
use canoe_nusb_storage.Common.Outcome.{
  Outcome, ok, err, dropped, panicked, stuck, Action, pure, finish, raise_if, ◌>>=◌, ◌>>◌,
}
use canoe_nusb_storage.Scsi.Error.{Error}
use canoe_nusb_storage.Usb.{Nusb, NusbIo, initialize, nanoseconds}
use canoe_nusb_storage.Fs.Text.{Text}
use canoe_nusb_storage.Probe.{
  Failure, at_stage, of_nusb, message, expected_one, Printing, device, interface, get_max_lun,
  interface_release, device_close, failed, usage, emit, settled,
}
use canoe_nusb_storage.Probe.Arguments.{Options, parse_arguments, is_half_given}
use canoe_nusb_storage.Probe.Connected.{run_connected}

pub record DeviceInfo : Type 0 where
  pub vendor_id : ℕ
  pub product_id : ℕ
  pub bus_id : Text
  pub device_address : ℕ

-- What `interface_alt_settings` yields.
pub record AltSetting : Type 0 where
  pub interface_number : ℕ
  pub alternate_setting : ℕ
  pub class : ℕ
  pub subclass : ℕ
  pub protocol : ℕ

pub record Configuration : Type 0 where
  pub configuration_value : ℕ
  pub interface_alt_settings : List AltSetting

-- What the probe uses of nusb besides the transfers; `H` are its open devices. A number stands for an
-- error of nusb.
pub record Host (W I H : Type 0) : Type 0 where
  pub list_devices : Action W ℕ (List DeviceInfo)
  pub open_device : DeviceInfo → Action W ℕ H
  pub active_configuration : H → Action W ℕ Configuration
  pub claim_interface : H → ℕ → Action W ℕ I
  pub release : I → Action W ℕ (Unit {0})
  pub drop_device : H → W → W

-- `is_none_or`
abbrev none_or : {A : Type 0} → Option A → (A → Bool) → Bool
none_or none test = true
none_or (some a) test = test a

-- The two filters of the devices.
unfoldable pub is_selected : Options → DeviceInfo → Bool
is_selected o info =
    ((info.vendor_id == 0x1209) && (info.product_id == 0xca0f))
    && (none_or o.bus (λ bus. bytes_eq info.bus_id bus)
        && none_or o.address (λ address. info.device_address == address))

unfoldable pub is_export : AltSetting → Bool
is_export i = (i.class == 0xff) && ((i.subclass == 6) && (i.protocol == 0x50))

-- The test that there is one, and the index.
unfoldable pub single : {A : Type 0} → Failure → List A → Outcome Failure A
single e (a ∷ []) = ok a
single e _ = err e

-- `map_err(|e| e.to_string())`
unfoldable pub of_host : {A : Type 0} → Outcome ℕ A → Outcome Failure A
of_host (ok a) = ok a
of_host (err e) = err (of_nusb e)
of_host dropped = dropped
of_host panicked = panicked
of_host stuck = stuck

-- A call of nusb.
unfoldable pub on_host : {W A : Type 0} → Action W ℕ A → Action (Printing W) Failure A
on_host m p = let (r, w) = m p.state in (of_host r, record p { state = w })

-- The error of `NusbIo::connect`.
unfoldable pub of_connect : {A : Type 0} → Outcome Error A → Outcome Failure A
of_connect (ok a) = ok a
of_connect (err e) = err (at_stage "initialize" e)
of_connect dropped = dropped
of_connect panicked = panicked
of_connect stuck = stuck

module _ {W I P H : Type 0} (nusb : Nusb W I P) (host : Host W I H) (usize_max : ℕ)
    (digest : List ℕ → List ℕ) (overtaken : NusbIo I P → W → Option W) where
  -- The `match` on `NusbIo::connect`.
  unfoldable pub connect_and_run : I → (alternate : ℕ) → Action (Printing W) Failure (Unit {0})
  connect_and_run claimed alternate = do
    io ← (λ p.
        let (r, w) = initialize nusb claimed alternate (5 * nanoseconds) p.state in
        (of_connect r, record p { state = w }))
    emit (get_max_lun io.max_lun)
    run_connected nusb overtaken usize_max digest io

  -- From the connection on: the interface is released however that ended.
  unfoldable pub use_interface : H → I → (alternate : ℕ) → Action (Printing W) Failure (Unit {0})
  use_interface opened claimed alternate = do
    result ← settled (connect_and_run claimed alternate)
    released ← settled (on_host (host.release claimed))
    emit (interface_release released)
    (λ p. (ok tt, record p { state = host.drop_device opened p.state }))
    emit device_close
    finish result
    finish released

  -- The list of the devices, and the line about the one that is selected.
  unfoldable pub select_device : Options → Action (Printing W) Failure DeviceInfo
  select_device o = do
    listed ← on_host host.list_devices
    let devices = filter (is_selected o) listed
    info ← finish (single (expected_one (length devices)) devices)
    emit (device info.bus_id info.device_address)
    pure info

  -- The claim of the interface, up to the line about it.
  unfoldable pub claim : H → Configuration → Action (Printing W) Failure (I × ℕ)
  claim opened configuration = do
    descriptor ← finish (
        single (message "expected one active ff/06/50 alternate descriptor")
          (filter is_export configuration.interface_alt_settings))
    claimed ← on_host (host.claim_interface opened descriptor.interface_number)
    active ← (λ (p : Printing W). (ok (nusb.get_alt_setting claimed p.state), p))
    raise_if (not (active == descriptor.alternate_setting))
        (message "selected alternate setting is not active")
    emit (
        interface configuration.configuration_value descriptor.interface_number
          descriptor.alternate_setting)
    pure (claimed, descriptor.alternate_setting)

  -- From the opening of the device on.
  unfoldable pub probe_device : DeviceInfo → Action (Printing W) Failure (Unit {0})
  probe_device info = do
    opened ← on_host (host.open_device info)
    configuration ← on_host (host.active_configuration opened)
    (claimed, alternate) ← claim opened configuration
    use_interface opened claimed alternate

  unfoldable pub run_with : Option Options → Action (Printing W) Failure (Unit {0})
  run_with none = emit usage
  run_with (some o) = do
    raise_if (is_half_given o) (message "--bus and --address must be supplied together")
    info ← select_device o
    probe_device info

  unfoldable pub run : List Text → Action (Printing W) Failure (Unit {0})
  run arguments = do
    options ← finish (parse_arguments arguments (record { bus = none; address = none }))
    run_with options

  abbrev exit_code : Outcome Failure (Unit {0}) → Printing W → Outcome Failure ℕ × Printing W
  exit_code (ok u) p = (ok 0, p)
  exit_code (err e) p = (ok 1, record p { printed = failed e ∷ p.printed })
  exit_code dropped p = (dropped, p)
  exit_code panicked p = (panicked, p)
  exit_code stuck p = (stuck, p)

  -- `main`, with the code that the process ends with.
  unfoldable pub main : List Text → Action (Printing W) Failure ℕ
  main arguments p = let (r, q) = run arguments p in exit_code r q
