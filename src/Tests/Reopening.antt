-- ===== src/Tests/Reopening.antt =====
-- Sessions that are connected to the device of `Tests.Device`, from its first test on.
use canoe_nusb_storage.Common.{ℕ, ◌+◌, ◌≡◌, refl, true, some, List, [], ◌∷◌, arith}
use canoe_nusb_storage.Common.Bytes.{u32_max}
use canoe_nusb_storage.Common.Outcome.{ok}
use canoe_nusb_storage.Scsi.Transport.{Scsi, new}
use canoe_nusb_storage.Range.{read_only, read_write, connect, read_range, write_range, sync}
use canoe_nusb_storage.Range.Requests.{
  Request, reads, writes, syncs, ejects, perform_all, perform_all-connect,
}
use canoe_nusb_storage.Range.Reopening.{connect_opens, reopened_reads}
use canoe_nusb_storage.Web.Browser.{Browser, answered}
use canoe_nusb_storage.Managed.{ManagedStorageSession}
use canoe_nusb_storage.Managed.Requests
use canoe_nusb_storage.Managed.Writeless.{IsWriteless, perform_all-IsWriteless}
use canoe_nusb_storage.Tests.Device.{
  Device, small, device_bus, device_target, device-Answers, content, ready, Unwritten, reads_keep,
  messages_keep,
}
use canoe_nusb_storage.Tests.Ranges.{
  small-IsSupported, small_power, u32_wide, small_session, SmallStores, letters, unaligned,
}

abbrev fresh : Scsi Device
fresh = record { io = ready; tag = 0; lun = 0; usable = true }

fresh-Stores : SmallStores fresh content
fresh-Stores = record { live = refl; at = (refl, refl); size = refl }

reopened_reads_example :
    (first wrote stored synced next again read : Scsi Device) × (new device_bus ready 0 ≡ ok first)
    × (connect device_bus u32_max read_write first ≡ (ok (small_session wrote read_write), wrote))
    × (write_range device_bus u32_max 3 letters (small_session wrote read_write)
        ≡ (ok tt, small_session stored read_write))
    × (sync device_bus u32_max (small_session stored read_write)
        ≡ (ok tt, small_session synced read_write))
    × (new device_bus synced.io 0 ≡ ok next)
    × (connect device_bus u32_max read_only next ≡ (ok (small_session again read_only), again))
    × (read_range device_bus u32_max 3 6 (small_session again read_only)
        ≡ (ok letters, small_session read read_only))
    × SmallStores read
        (10 ∷ 11 ∷ 12 ∷ 65 ∷ 66 ∷ 67 ∷ 68 ∷ 69 ∷ 70 ∷ 31 ∷ 32 ∷ 33 ∷ 40 ∷ 41 ∷ 42 ∷ 43 ∷ [])
reopened_reads_example =
    reopened_reads device_bus u32_max small device_target small-IsSupported small_power u32_wide
      device-Answers ready content 3 letters 0 3 3 (refl, refl) refl unaligned

connected :
    (s : Scsi Device) × (connect device_bus u32_max read_only fresh
      ≡ (ok (small_session s read_only), s))
    × SmallStores s content
connected =
    connect_opens device_bus u32_max small device_target small-IsSupported small_power u32_wide
      device-Answers read_only fresh content fresh-Stores

abbrev attempts : List Request
attempts = reads 3 6 ∷ writes 3 letters ∷ syncs ∷ ejects ∷ writes 0 letters ∷ []

perform_all-connect_example :
    Unwritten content
      (perform_all device_bus u32_max attempts (small_session connected.0 read_only)).scsi.io
perform_all-connect_example =
    perform_all-connect device_bus u32_max (Unwritten content) (reads_keep content)
      (messages_keep content) attempts fresh connected.0 (small_session connected.0 read_only)
      connected.1 (refl, refl)

-- A managed session over such a client, in a browser whose handle counts its calls.
abbrev browser : Browser ℕ ℕ
browser = record {
  opened = λ w. true;
  release = λ i w. (answered tt, w + 1);
  close = λ w. (answered tt, w + 1);
  debug = λ n. "undefined";
}

abbrev reader : ManagedStorageSession Device ℕ ℕ
reader = record {
  client = some (small_session connected.0 read_only);
  interface_owner = some 2;
  device = 0;
  interface = 2;
  alternate = 0;
  max_lun = 0;
  access = read_only;
}

abbrev requested : List Requests.Request
requested =
    Requests.read_range 3 6 ∷ Requests.write_range 3 letters ∷ Requests.eject ∷ Requests.close ∷ []

connected-Unwritten : Unwritten content connected.0.io
connected-Unwritten = (connected.2.at.0, ground (arith, connected.2.at.1))

perform_all-IsWriteless_example :
    IsWriteless browser
      (λ d. 0)
      device_bus
      u32_max
      (Unwritten content)
      (λ w. Unit {0})
      (reads_keep content)
      (messages_keep content)
      (λ t h. tt)
      (λ i w h. tt)
      (λ w h. tt)
      (Requests.perform_all browser (λ d. 0) device_bus u32_max requested reader)
perform_all-IsWriteless_example =
    perform_all-IsWriteless browser (λ d. 0) device_bus u32_max (Unwritten content) (λ w. Unit {0})
      (reads_keep content) (messages_keep content) (λ t h. tt) (λ i w h. tt) (λ w h. tt) requested
      reader (record { after = tt; client = record { access = refl; held = connected-Unwritten } })
