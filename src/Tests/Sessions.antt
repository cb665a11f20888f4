-- ===== src/Tests/Sessions.antt =====
-- Managed sessions over the device of `Tests.Device` and the browser of `Tests.Browsers`.
use canoe_nusb_storage.Common.{ℕ, ◌==◌, ◌≡◌, refl, none, some, List, [], ◌∷◌}
use canoe_nusb_storage.Common.Bytes.{u32_max}
use canoe_nusb_storage.Common.Outcome.{ok}
use canoe_nusb_storage.Scsi.Transport.{Scsi}
use canoe_nusb_storage.Range.{read_write}
use canoe_nusb_storage.Web.Browser.{message}
use canoe_nusb_storage.Managed
use canoe_nusb_storage.Managed.{ManagedStorageSession}
use canoe_nusb_storage.Managed.Requests.{
  Request, IsValid, perform, perform_all, perform_all-IsValid,
}
use canoe_nusb_storage.Managed.Closing.{IsClosed, perform-IsClosed}
use canoe_nusb_storage.Managed.Refinement.{
  Call, reads, writes, run, answers, contents, over, run_serves,
}
use canoe_nusb_storage.Managed.Opening.{Device}
use canoe_nusb_storage.Tests.Device
use canoe_nusb_storage.Tests.Device.{small, device_bus, device_target, content, ready}
use canoe_nusb_storage.Tests.Ranges.{
  opened, small-IsSupported, small_power, u32_wide, small_session, opened-Stores, unaligned,
  aligned, letters, SmallStores,
}
use canoe_nusb_storage.Tests.Browsers.{plain}

-- The handle stays open under the transfers.
abbrev handle : Device.Device → ℕ
handle _ = 1

abbrev managed : ManagedStorageSession Device.Device ℕ ℕ
managed = record {
  client = some (small_session opened read_write);
  interface_owner = some 3;
  device = 1;
  interface = 3;
  alternate = 0;
  max_lun = 0;
  access = read_write;
}

managed-IsValid : IsValid managed
managed-IsValid = record {
  usable = refl;
  supported = small-IsSupported;
  access = refl;
  owner = 3;
  owned = refl;
}

abbrev requests : List Request
requests =
    Request.write_range 3 letters ∷ Request.read_range 3 6 ∷ Request.sync ∷ Request.eject ∷ []

perform_all-IsValid_example : IsValid (perform_all plain handle device_bus u32_max requests managed)
perform_all-IsValid_example =
    perform_all-IsValid plain handle device_bus u32_max requests managed managed-IsValid

dropped_client : (perform plain handle device_bus u32_max Request.close managed).client ≡ none
unfolding perform Managed.close Managed.release
dropped_client = refl

perform-IsClosed_example :
    IsClosed plain handle managed (perform plain handle device_bus u32_max Request.close managed)
perform-IsClosed_example =
    perform-IsClosed plain handle device_bus u32_max Request.close managed
      (small_session opened read_write) managed-IsValid refl dropped_client

abbrev calls : List Call
calls = writes 3 letters ∷ reads 4 8 ∷ []

run_serves_example :
    (scsi' : Scsi Device.Device) × (run plain handle device_bus u32_max calls managed ≡ (
      ok (answers calls content),
      over plain handle device_bus u32_max small device_target small-IsSupported small_power
          u32_wide managed scsi',
    ))
    × SmallStores scsi' (contents calls content)
run_serves_example =
    run_serves plain handle device_bus u32_max small device_target small-IsSupported small_power
      u32_wide calls managed opened content refl opened-Stores
      ((0, 3, 3, unaligned), ((1, 2, 0, aligned), tt))

served : answers calls content ≡ (66 ∷ 67 ∷ 68 ∷ 69 ∷ 70 ∷ 31 ∷ 32 ∷ 33 ∷ []) ∷ []
unfolding answers
served = refl

-- Another vendor's device.
abbrev foreign : Device ℕ
foreign = record {
  vendor_id = λ _. 0x18d1;
  product_id = λ _. 0xca0f;
  opened = λ w. w == 1;
  configuration = λ _. none;
  configurations = λ _. [];
  open_device = λ w. (ok tt, 1);
  select_configuration = λ _ w. (ok tt, w);
  null_error = message "null";
  overtaken = λ _. none;
}
