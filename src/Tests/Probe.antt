-- ===== src/Tests/Probe.antt =====
-- The probe over the device of `Tests.Device`, as the one export that nusb lists.
use canoe_nusb_storage.Common.{
  ℕ, ◌≡◌, ◌⊎◌, refl, inl, Option, none, some, List, [], ◌∷◌, take, arith,
}
use canoe_nusb_storage.Common.Bytes.{
  u32_max, bytes_eq, u32_to_le, u32_from_le, u32_to_be, u32_from_be?, u16_to_be,
}
use canoe_nusb_storage.Common.Ends.{Ends}
use canoe_nusb_storage.Common.Outcome.{ok}
use canoe_nusb_storage.Scsi.Transport.{Transfer, completed, failed, abandoned}
use canoe_nusb_storage.Scsi.Error.{stall}
use canoe_nusb_storage.Usb.{
  Nusb, NusbIo, EndpointInfo, Descriptor, Completion, bulk, initialize, from_interface,
  with_max_lun, validate_timeout, parse_max_lun, nanoseconds,
}
use canoe_nusb_storage.Scsi.Transport
use canoe_nusb_storage.Scsi.Command
use canoe_nusb_storage.Scsi.Wire
use canoe_nusb_storage.Scsi.Operations
use canoe_nusb_storage.Usb
use canoe_nusb_storage.Probe
use canoe_nusb_storage.Probe.Running
use canoe_nusb_storage.Probe.Arguments
use canoe_nusb_storage.Probe.Connected
use canoe_nusb_storage.Usb.Quiet.{NusbKeeps}
use canoe_nusb_storage.Fs.Text.{Text, text}
use canoe_nusb_storage.Probe.{Line, Printing, usage}
use canoe_nusb_storage.Probe.Stages.{AllSound, stages}
use canoe_nusb_storage.Probe.Running.{Host, DeviceInfo, AltSetting, Configuration, main}
use canoe_nusb_storage.Probe.Writeless.{HostKeeps, main-Keeps}
use canoe_nusb_storage.Probe.Ending.{HostEnds, complete, main-Ends}
use canoe_nusb_storage.Probe.Release.{Connects, use_interface-Ends}
use canoe_nusb_storage.Tests.Device.{
  Device, device_bus, content, ready, Unwritten, reads_keep, messages_keep,
}

abbrev sent : Transfer ℕ → Option Completion
sent (completed n) = some (record { status = none; actual_len = n; buffer = [] })
sent (failed e) = some (record { status = some stall; actual_len = 0; buffer = [] })
sent abandoned = none

abbrev received : Transfer (List ℕ) → Option Completion
received (completed bytes) = some (record { status = none; actual_len = 0; buffer = bytes })
received (failed e) = some (record { status = some stall; actual_len = 0; buffer = [] })
received abandoned = none

abbrev descriptor : Descriptor
descriptor = record {
  alternate_setting = 0;
  class = 0xff;
  subclass = 6;
  protocol = 0x50;
  endpoints =
      record { transfer_type = bulk; address = 0x81; max_packet_size = 64 }
      ∷ record { transfer_type = bulk; address = 1; max_packet_size = 64 }
      ∷ [];
}

abbrev nusb : Nusb Device ℕ ℕ
nusb = record {
  interface_number = λ i. i;
  get_alt_setting = λ i w. 0;
  descriptors = λ i. descriptor ∷ [];
  endpoint = λ i address w. (ok address, w);
  control_in = λ i c timeout w. (ok (0 ∷ []), w);
  transfer_out = λ p msg w. (sent (device_bus.write w msg).0, (device_bus.write w msg).1);
  transfer_in = λ p n w. (received (device_bus.read w n).0, (device_bus.read w n).1);
  cancel_all = λ p w. w;
  pending = λ p w. 0;
  next_complete = λ p w. w;
}

abbrev export : DeviceInfo
export = record { vendor_id = 0x1209; product_id = 0xca0f; bus_id = text "1"; device_address = 7 }

abbrev alternate : AltSetting
alternate = record {
  interface_number = 2;
  alternate_setting = 0;
  class = 0xff;
  subclass = 6;
  protocol = 0x50;
}

abbrev host : Host Device ℕ ℕ
host = record {
  list_devices = λ w. (ok (export ∷ []), w);
  open_device = λ info w. (ok 0, w);
  active_configuration =
      λ h w. (ok (record { configuration_value = 1; interface_alt_settings = alternate ∷ [] }), w);
  claim_interface = λ h n w. (ok n, w);
  release = λ i w. (ok tt, w);
  drop_device = λ h w. w;
}

-- The deadline of the closing does not pass.
abbrev in_time : NusbIo ℕ ℕ → Device → Option Device
in_time io w = none

abbrev silent : Printing Device
silent = record { state = ready; printed = [] }

nusb_keeps : NusbKeeps (Unwritten content) nusb
nusb_keeps = record {
  endpoint = λ i address w h. h;
  control_in = λ i c timeout w h. h;
  transfer_in = λ p n w h. reads_keep content w n h;
  transfer_out = λ p msg w q h. messages_keep content w msg q h;
  cancel_all = λ p w h. h;
  next_complete = λ p w h. h;
}

host_keeps : HostKeeps (Unwritten content) host
host_keeps = record {
  list_devices = λ w h. h;
  open_device = λ info w h. h;
  active_configuration = λ d w h. h;
  claim_interface = λ d n w h. h;
  release = λ i w h. h;
  drop_device = λ d w h. h;
}

abbrev arguments : List Text
arguments = text "--bus" ∷ text "1" ∷ text "--address" ∷ text "7" ∷ []

main-Keeps_example :
    Unwritten content (main nusb host u32_max (λ b. b) in_time arguments silent).1.state
main-Keeps_example =
    main-Keeps (Unwritten content) nusb host u32_max (λ b. b) in_time nusb_keeps host_keeps
      (λ io w w' e h. absurd (ground arith)) arguments silent (refl, refl)

connects : (i number : ℕ) → Connects nusb i number
connects i number = record {
  endpoint = λ address w. inl (_, refl);
  control_in = λ c timeout w. inl (_, refl);
  packets = λ claimed. refl;
  completes = λ w io e. record {
    fewer_input = λ v h. absurd (omega arith);
    fewer_output = λ v h. absurd (omega arith);
    output_apart = λ v. refl;
    input_apart = λ v. refl;
  };
}

host_ends : HostEnds nusb host
host_ends = record {
  list_devices = λ w. inl (_, refl);
  open_device = λ info w. inl (_, refl);
  active_configuration = λ h w. inl (_, refl);
  claim_interface = λ h n w. inl (_, refl);
  release = λ i w. inl (_, refl);
  connects = connects;
}

main-Ends_example :
    Ends
      (λ code (q : Printing Device).
        AllSound q.printed
        × (((code ≡ 0) × ((q.printed ≡ usage ∷ []) ⊎ (stages q.printed ≡ complete [])))
            ⊎ ((code ≡ 1) × (take 1 (stages q.printed) ≡ "failed" ∷ []))))
      (λ _ _. ⊥)
      (λ _. ⊥)
      (main nusb host u32_max (λ b. b) in_time arguments silent)
main-Ends_example = main-Ends nusb host u32_max (λ b. b) in_time arguments silent host_ends tt

probed : (main nusb host u32_max (λ b. b) in_time arguments silent).0 ≡ ok 0
unfolding main Running.run Running.run_with Running.select_device Running.probe_device Running.claim
    Running.use_interface Running.connect_and_run Running.on_host Running.of_host Running.of_connect
    Running.single Running.is_selected Running.is_export Probe.emit Probe.settled Probe.settled_end
    Arguments.parse_arguments Arguments.parse_u8 Arguments.unsigned_u8 Arguments.digits_u8
    Arguments.is_half_given text bytes_eq initialize from_interface with_max_lun validate_timeout
    parse_max_lun Usb.is_input Usb.is_output Connected.run_connected Connected.investigate
    Probe.commands Probe.introduce Probe.measure Probe.take_sample Probe.conclude Probe.emit_inquiry
    Probe.bounded Probe.bounded_end Probe.sample_blocks Connected.close_bounded Connected.drained
    Connected.close_end Connected.teardown Usb.close_native Usb.drain Usb.write Usb.read
    Usb.next_multiple_of Transport.new Transport.io_write Transport.io_read Command.command
    Command.exchange Command.is_bad_shape Command.next_tag Command.receive Command.data_stage
    Command.status_stage Command.conclude Wire.cbw Wire.is_bad_csw Wire.csw_residue Wire.csw_status
    u32_to_le u32_from_le u32_to_be u32_from_be? u16_to_be Operations.inquiry
    Operations.test_unit_ready Operations.geometry Operations.read_blocks Operations.block_command
    Operations.flush Operations.eject Operations.is_power_of_two
probed = refl

use_interface-Ends_example :
    Ends
      (λ _ (q : Printing Device).
        (stages q.printed
          ≡ "device-close" ∷ "interface-release" ∷ "transfers-drained" ∷ "eject"
            ∷ "synchronize-cache" ∷ "sample" ∷ "capacity" ∷ "test-unit-ready" ∷ "inquiry"
            ∷ "get-max-lun" ∷ [])
        × AllSound q.printed
        × (q.state
            ≡ (Running.connect_and_run nusb host u32_max (λ b. b) in_time 2 0 silent).1.state))
      (λ _ (q : Printing Device).
        (take 2 (stages q.printed) ≡ "device-close" ∷ "interface-release" ∷ [])
        × AllSound q.printed
        × (q.state
            ≡ (Running.connect_and_run nusb host u32_max (λ b. b) in_time 2 0 silent).1.state))
      (λ _. ⊥)
      (Running.use_interface nusb host u32_max (λ b. b) in_time 0 2 0 silent)
use_interface-Ends_example =
    use_interface-Ends nusb host u32_max (λ b. b) in_time 0 2 0 silent (connects 2 0)
      (host_ends.release 2) tt
