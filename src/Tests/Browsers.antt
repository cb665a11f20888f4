-- ===== src/Tests/Browsers.antt =====
-- A browser whose device answers, and the USB layer of a device with two bulk endpoints.
use canoe_nusb_storage.Common.{
  ℕ, ◌+◌, ◌-◌, ◌==◌, ◌≡◌, ◌↔◌, refl, false, none, some, [], ◌∷◌, length, if◌then◌else◌, arith,
}
use canoe_nusb_storage.Common.Outcome.{ok, err}
use canoe_nusb_storage.Scsi.Error.{protocol}
use canoe_nusb_storage.Web.Browser.{Browser, answered, refused}
use canoe_nusb_storage.Web.Closing.{close_web, release, combine, closed}
use canoe_nusb_storage.Web.Closing.Outcomes.{IsReleased, close_web_iff}
use canoe_nusb_storage.Web.Connecting.{Opener, connect_web, attempt, settle, give_up}
use canoe_nusb_storage.Web.Connecting.Ends.{Settled, connect_web-Settled}
use canoe_nusb_storage.Usb.{
  Nusb, NusbIo, bulk, nanoseconds, validate_timeout, initialize, from_interface, with_max_lun,
  parse_max_lun, get_max_lun_request, is_input, is_output, close_native,
}
use canoe_nusb_storage.Usb.Selection.{IsTransport, initialize-IsTransport}
use canoe_nusb_storage.Usb.Draining.{Completes, close_native-drains}

-- The state is 1 where the device is open; an interface is its number.
abbrev pub plain : Browser ℕ ℕ
plain = record {
  opened = λ w. w == 1;
  release = λ _ w. (answered tt, w);
  close = λ w. (answered tt, 0);
  debug = λ _. "TypeError";
}

-- The release fails, since the device is gone.
abbrev gone : Browser ℕ ℕ
gone = record {
  opened = λ w. false;
  release = λ _ w. (refused 5, 0);
  close = λ w. (answered tt, 0);
  debug = λ _. "TypeError";
}

close_web_iff_example :
    ((close_web gone (some 3) 1).1 ≡ 0)
    × (((close_web gone (some 3) 1).0 ≡ ok tt)
        ↔ (IsReleased gone (some 3) 1 × (answered tt ≡ answered tt)))
unfolding release
close_web_iff_example = close_web_iff gone (some 3) 1

abbrev pub usb : Nusb ℕ ℕ ℕ
usb = record {
  interface_number = λ i. i;
  get_alt_setting = λ _ _. 0;
  descriptors = λ _.
      record {
        alternate_setting = 0;
        class = 0xff;
        subclass = 6;
        protocol = 0x50;
        endpoints =
            record { transfer_type = bulk; address = 0x02; max_packet_size = 512 }
            ∷ record { transfer_type = bulk; address = 0x81; max_packet_size = 512 }
            ∷ [];
      }
      ∷ [];
  endpoint = λ _ address w. (ok address, w);
  control_in = λ _ _ _ w. (ok (2 ∷ []), w);
  transfer_out =
      λ _ bytes w. (some (record { status = none; actual_len = length bytes; buffer = [] }), w);
  transfer_in = λ _ _ w. (some (record { status = none; actual_len = 0; buffer = [] }), w);
  cancel_all = λ _ w. w;
  pending = λ _ _. 0;
  next_complete = λ _ w. w;
}

abbrev transport : NusbIo ℕ ℕ
transport = record {
  input = 0x81;
  output = 0x02;
  input_packet_size = 512;
  max_lun = 2;
  web_device = false;
  web_interface = none;
}

initialized : initialize usb 3 0 nanoseconds 1 ≡ (ok transport, 1)
unfolding initialize from_interface with_max_lun validate_timeout parse_max_lun is_input is_output
    get_max_lun_request
initialized = refl

initialize-IsTransport_example : IsTransport usb 3 0 nanoseconds 1 transport
initialize-IsTransport_example =
    initialize-IsTransport usb 3 0 nanoseconds 1 transport 1 initialized

-- A device without an active configuration.
abbrev pub unconfigured : Opener ℕ ℕ
unconfigured = record {
  configuration = λ _. none;
  from_js = λ w. (ok tt, w);
  claim_interface = λ number w. (ok number, w);
}

-- A device whose interface 3 is listed with its alternate setting 0.
abbrev configured : Opener ℕ ℕ
configured = record {
  configuration = λ _. some (record { interface_number = 3; alternate_setting = 0 } ∷ []);
  from_js = λ w. (ok tt, w);
  claim_interface = λ number w. (ok number, w + 1);
}

-- The setting of the claimed interface is another one.
abbrev changed : Nusb ℕ ℕ ℕ
changed = record usb { get_alt_setting = λ _ _. 5 }

not_connected :
    connect_web changed plain configured 3 0 nanoseconds 1
    ≡ (err (protocol "selected alternate setting is not active"), 0)
unfolding connect_web validate_timeout attempt settle give_up close_web release combine closed
    initialize from_interface
not_connected = refl

connect_web-Settled_example :
    Settled changed plain configured 3 0 nanoseconds 1
      (connect_web changed plain configured 3 0 nanoseconds 1)
connect_web-Settled_example = connect_web-Settled changed plain configured 3 0 nanoseconds 1

-- The state is the number of pending transfers of the endpoint 1, and of every other endpoint.
abbrev busy : Nusb (ℕ × ℕ) ℕ ℕ
busy = record {
  interface_number = λ i. i;
  get_alt_setting = λ _ _. 0;
  descriptors = λ _. [];
  endpoint = λ _ address w. (ok address, w);
  control_in = λ _ _ _ w. (ok [], w);
  transfer_out = λ _ _ w. (none, w);
  transfer_in = λ _ _ w. (none, w);
  cancel_all = λ _ w. w;
  pending = λ p w. if p == 1 then w.0 else w.1;
  next_complete = λ p w. if p == 1 then (w.0 - 1, w.1) else (w.0, w.1 - 1);
}

abbrev two_endpoints : NusbIo ℕ ℕ
two_endpoints = record {
  input = 1;
  output = 2;
  input_packet_size = 64;
  max_lun = 0;
  web_device = false;
  web_interface = none;
}

busy-Completes : Completes busy 1 2
busy-Completes = record {
  fewer_input = λ w h. omega arith;
  fewer_output = λ w h. omega arith;
  output_apart = λ w. refl;
  input_apart = λ w. refl;
}

close_native-drains_example :
    ((close_native busy 3 5 two_endpoints (3, 4)).0 ≡ ok tt)
    × ((close_native busy 3 5 two_endpoints (3, 4)).1.0 ≡ 0)
    × ((close_native busy 3 5 two_endpoints (3, 4)).1.1 ≡ 0)
close_native-drains_example =
    close_native-drains busy two_endpoints busy-Completes 3 5 (3, 4) (omega arith) (omega arith)
