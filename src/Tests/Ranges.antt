-- ===== src/Tests/Ranges.antt =====
-- Byte ranges over the device of `Tests.Device`.
use canoe_nusb_storage.Common.{ℕ, ◌⊎◌, ◌≤◌, ◌≡◌, refl, true, false, List, [], ◌∷◌, arith, length}
use canoe_nusb_storage.Common.Bytes.{u32_max}
use canoe_nusb_storage.Common.Outcome.{ok}
use canoe_nusb_storage.Scsi.Transport.{Scsi}
use canoe_nusb_storage.Scsi.Operations.{is_power_of_two}
use canoe_nusb_storage.Range.{
  RangeSession, read_only, read_write, Access, div_ceil, span, read_range, write_range, size_bytes,
  connect,
}
use canoe_nusb_storage.Range.Span.{IsSupported, Covers, span-Covers}
use canoe_nusb_storage.Range.Safety.{read_range-Ends, connect-IsSupported}
use canoe_nusb_storage.Common.Ends.{Ends}
use canoe_nusb_storage.Scsi.Error.{command_failed}
use canoe_nusb_storage.Range.Refinement.{Stores, read_range_reads, write_range_writes}
use canoe_nusb_storage.Range.Roundtrip.{read_range-write_range}
use canoe_nusb_storage.Tests.Device.{Device, small, device_bus, device_target, content, ready}

abbrev pub opened : Scsi Device
opened = record { io = ready; tag = 7; lun = 0; usable = true }

pub small-IsSupported : IsSupported small
small-IsSupported = omega arith

pub small_power : is_power_of_two 4 ≡ true
unfolding is_power_of_two
small_power = refl

pub u32_wide : u32_max ≤ u32_max
u32_wide = omega arith

abbrev pub SmallStores : Scsi Device → List ℕ → Type 0
SmallStores = Stores device_bus u32_max small device_target small-IsSupported small_power u32_wide

abbrev pub small_session : Scsi Device → Access → RangeSession Device
small_session scsi access = record { scsi = scsi; geometry = small; access = access }

pub opened-Stores : SmallStores opened content
opened-Stores = record { live = refl; at = (refl, refl); size = refl }

pub unaligned : span small 3 6 ≡ ok (0, 3, 3)
unfolding span div_ceil
unaligned = refl

pub aligned : span small 4 8 ≡ ok (1, 2, 0)
unfolding span div_ceil
aligned = refl

abbrev pub letters : List ℕ
letters = 65 ∷ 66 ∷ 67 ∷ 68 ∷ 69 ∷ 70 ∷ []

read_range_reads_example :
    (scsi' : Scsi Device) × (read_range device_bus u32_max 3 6 (small_session opened read_only)
      ≡ (ok (13 ∷ 20 ∷ 21 ∷ 22 ∷ 23 ∷ 30 ∷ []), small_session scsi' read_only))
    × SmallStores scsi' content
read_range_reads_example =
    read_range_reads device_bus u32_max small device_target small-IsSupported small_power u32_wide
      opened read_only content 3 6 0 3 3 opened-Stores unaligned

write_range_writes_example :
    (scsi' : Scsi Device) × (write_range device_bus u32_max 3 letters
        (small_session opened read_write)
      ≡ (ok tt, small_session scsi' read_write))
    × SmallStores scsi'
        (10 ∷ 11 ∷ 12 ∷ 65 ∷ 66 ∷ 67 ∷ 68 ∷ 69 ∷ 70 ∷ 31 ∷ 32 ∷ 33 ∷ 40 ∷ 41 ∷ 42 ∷ 43 ∷ [])
write_range_writes_example =
    write_range_writes device_bus u32_max small device_target small-IsSupported small_power u32_wide
      opened content 3 letters 0 3 3 opened-Stores unaligned

read_range-write_range_example :
    (now later : Scsi Device) × (write_range device_bus u32_max 3 letters
        (small_session opened read_write)
      ≡ (ok tt, small_session now read_write))
    × (read_range device_bus u32_max 3 6 (small_session now read_write)
        ≡ (ok letters, small_session later read_write))
read_range-write_range_example =
    read_range-write_range device_bus u32_max small device_target small-IsSupported small_power
      u32_wide opened content 3 letters 0 3 3 opened-Stores unaligned

span-Covers_example : Covers small 3 6 0 3 3
span-Covers_example = span-Covers small 3 6 small-IsSupported unaligned

read_range-Ends_example :
    Ends
      (λ d s'.
        (length d ≡ 6)
        × (9 ≤ size_bytes small)
        × (s'.scsi.usable ≡ true)
        × (s'.geometry ≡ small)
        × (s'.access ≡ read_only))
      (λ e s'.
        ((s' ≡ small_session opened read_only) ⊎ ((s'.scsi.usable ≡ false) ⊎ (e ≡ command_failed)))
        × (s'.geometry ≡ small)
        × (s'.access ≡ read_only))
      (λ s'. (s'.scsi.usable ≡ false) × (s'.geometry ≡ small) × (s'.access ≡ read_only))
      (read_range device_bus u32_max 3 6 (small_session opened read_only))
read_range-Ends_example =
    read_range-Ends device_bus u32_max (small_session opened read_only) 3 6 small-IsSupported

connect-IsSupported_example :
    Ends
      (λ r s'.
        IsSupported r.geometry
        × (r.access ≡ read_only)
        × (r.scsi ≡ s')
        × (s'.usable ≡ true)
        × (s'.lun ≡ 0))
      (λ _ _. Unit {0})
      (λ _. Unit {0})
      (connect device_bus u32_max read_only opened)
connect-IsSupported_example = connect-IsSupported device_bus u32_max read_only opened
