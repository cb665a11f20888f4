-- ===== src/Tests/Commands.antt =====
-- Commands of `Scsi` over the device of `Tests.Device`.
use canoe_nusb_storage.Common.{
  ℕ, ◌*◌, ◌+◌, ◌^◌, ◌≤◌, ◌<◌, ◌≡◌, refl, ◌⊎◌, Bool, true, false, some, List, [], ◌∷◌, length, slice,
  get_or, arith,
}
use canoe_nusb_storage.Common.Bytes.{u32_max, u32_to_be, u16_to_be, u32_from_be?}
use canoe_nusb_storage.Common.Ends.{Ends}
use canoe_nusb_storage.Common.Outcome.{ok}
use canoe_nusb_storage.Scsi.Error.{command_failed}
use canoe_nusb_storage.Scsi.Transport.{Scsi, new}
use canoe_nusb_storage.Scsi.Command.{command, next_tag}
use canoe_nusb_storage.Scsi.Operations.{block_command, is_power_of_two}
use canoe_nusb_storage.Scsi.Operations
use canoe_nusb_storage.Scsi.Retirement.{command-Ends, Returned, Refused, Abandoned, Unsendable}
use canoe_nusb_storage.Scsi.Requests.{Request, perform_all, perform_all-retired}
use canoe_nusb_storage.Scsi.Blocks.{block_command_fields}
use canoe_nusb_storage.Scsi.Readiness.{initialize_ready-Ends}
use canoe_nusb_storage.Tests.Device.{Device, device_bus, ready}

abbrev session_of : Bool → Scsi Device
session_of usable = record { io = ready; tag = 0; lun = 0; usable = usable }

abbrev read_second : List ℕ
read_second = 0x28 ∷ 0 ∷ 0 ∷ 0 ∷ 0 ∷ 1 ∷ 0 ∷ 0 ∷ 1 ∷ 0 ∷ []

command-Ends_example :
    Ends
      (Returned (session_of true) 4)
      (Refused (session_of true) (Unsendable (session_of true) read_second 4 []))
      (Abandoned (session_of true))
      (command device_bus read_second 4 [] (session_of true))
command-Ends_example = command-Ends device_bus read_second 4 [] (session_of true)

abbrev requests : List Request
requests = Request.test_unit_ready ∷ Request.geometry ∷ Request.read_blocks 1 1 4 ∷ []

perform_all-retired_example :
    perform_all device_bus u32_max requests (session_of false) ≡ session_of false
perform_all-retired_example =
    perform_all-retired device_bus u32_max requests (session_of false) refl

new-ready : new device_bus ready 0 ≡ ok (session_of true)
unfolding new
new-ready = refl

abbrev read_two : List ℕ
read_two = 0x28 ∷ 0 ∷ 0 ∷ 0 ∷ 1 ∷ 2 ∷ 0 ∷ 0 ∷ 3 ∷ 0 ∷ []

read_two_command : block_command u32_max 0x28 258 3 4 ≡ ok (read_two, 12)
unfolding block_command is_power_of_two u32_to_be u16_to_be
read_two_command = refl

block_command_fields_example :
    (length read_two ≡ 10)
    × (get_or read_two 0 0 ≡ 0x28)
    × (u32_from_be? (slice 2 4 read_two) ≡ some 258)
    × (256 * get_or read_two 7 0 + get_or read_two 8 0 ≡ 3)
    × (12 ≡ 3 * 4)
    × (12 ≤ u32_max)
    × (0 < 12)
    × (258 + 3 ≤ 2 ^ 32)
block_command_fields_example =
    block_command_fields u32_max 0x28 258 3 4 (omega arith) (omega arith) read_two_command

initialize_ready-Ends_example :
    Ends
      (λ _ s'.
        (true ≡ true)
        × (s'.usable ≡ true)
        × (s'.lun ≡ 0)
        × ((s'.tag ≡ next_tag 0) ⊎ (s'.tag ≡ next_tag (next_tag (next_tag 0)))))
      (λ e s'. ((s'.usable ≡ false) ⊎ (e ≡ command_failed)) × (s'.lun ≡ 0))
      (λ s'. (s'.usable ≡ false) × (s'.lun ≡ 0))
      (Operations.initialize_ready device_bus (session_of true))
initialize_ready-Ends_example = initialize_ready-Ends device_bus (session_of true)
