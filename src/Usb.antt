-- ===== src/Usb.antt =====
-- `NusbIo` of nusb-scsi/src/lib.rs: how a claimed interface becomes a bulk transport, and its
-- transfers. nusb is a parameter; `I` are its claimed interfaces, `P` its open endpoints, and `W` is
-- the state of the bus and of the device.
pub mod Selection
pub mod Draining
pub mod Quiet
pub mod Results
pub mod Packets
use canoe_nusb_storage.Common.{
  ℕ, zero, suc, ◌+◌, ◌-◌, ◌*◌, ◌%◌, ◌^◌, ◌==◌, Bool, true, false, not, ◌&&◌, ◌||◌, Option, none,
  some, List, [], ◌∷◌, length, get_or, ltb, leb, if◌then◌else◌, bit_and, find, any, ◌≡◌, String,
}
use canoe_nusb_storage.Common.Outcome.{
  Outcome, ok, err, dropped, panicked, stuck, Action, pure, raise, finish, raise_if, ◌>>=◌, ◌>>◌,
}
use canoe_nusb_storage.Scsi.Error.{Error, TransferError, stall, protocol, usb}
use canoe_nusb_storage.Scsi.Transport.{BulkIo, Transfer, completed, failed, abandoned}

pub data TransferType : Type 0 where
  control isochronous bulk interrupt : TransferType

pub record EndpointInfo : Type 0 where
  pub transfer_type : TransferType
  pub address : ℕ
  pub max_packet_size : ℕ

pub record Descriptor : Type 0 where
  pub alternate_setting : ℕ
  pub class : ℕ
  pub subclass : ℕ
  pub protocol : ℕ
  pub endpoints : List EndpointInfo

pub data ControlType : Type 0 where
  standard class vendor : ControlType

pub data Recipient : Type 0 where
  device interface endpoint other : Recipient

pub record ControlIn : Type 0 where
  pub control_type : ControlType
  pub recipient : Recipient
  pub request : ℕ
  pub value : ℕ
  pub index : ℕ
  pub length : ℕ

-- What a completed transfer reports.
pub record Completion : Type 0 where
  pub status : Option TransferError
  pub actual_len : ℕ
  pub buffer : List ℕ

-- nusb. A transfer is `submit` and the await of its completion, `none` where the future is dropped
-- meanwhile.
pub record Nusb (W I P : Type 0) : Type 0 where
  pub interface_number : I → ℕ
  pub get_alt_setting : I → W → ℕ
  pub descriptors : I → List Descriptor
  pub endpoint : I → ℕ → Action W Error P
  pub control_in : I → ControlIn → ℕ → Action W TransferError (List ℕ)
  pub transfer_out : P → List ℕ → W → Option Completion × W
  pub transfer_in : P → ℕ → W → Option Completion × W
  pub cancel_all : P → W → W
  pub pending : P → W → ℕ
  pub next_complete : P → W → W

-- `web_device` says whether the transport holds the browser's device.
pub record NusbIo (I P : Type 0) : Type 0 where
  pub input : P
  pub output : P
  pub input_packet_size : ℕ
  pub max_lun : ℕ
  pub web_device : Bool
  pub web_interface : Option I

abbrev pub nanoseconds : ℕ
nanoseconds = 1000000000

-- The duration is in nanoseconds.
unfoldable pub validate_timeout : ℕ → Outcome Error (Unit {0})
validate_timeout timeout =
    if (timeout == 0) || ltb (60 * nanoseconds) timeout
    then err (protocol "initialization timeout must be positive and at most 60 seconds")
    else ok tt

unfoldable pub get_max_lun_request : ℕ → ControlIn
get_max_lun_request number = record {
  control_type = ControlType.class;
  recipient = Recipient.interface;
  request = 0xfe;
  value = 0;
  index = number;
  length = 1;
}

-- The arm `Ok(bytes) if bytes.len() == 1 && bytes[0] <= 15`, and `Ok(_)`.
abbrev max_lun_of : List ℕ → Outcome Error ℕ
max_lun_of (n ∷ []) = if leb n 15 then ok n else err (protocol "invalid GET_MAX_LUN response")
max_lun_of _ = err (protocol "invalid GET_MAX_LUN response")

unfoldable pub parse_max_lun : Outcome TransferError (List ℕ) → Outcome Error ℕ
parse_max_lun (ok bytes) = max_lun_of bytes
parse_max_lun (err stall) = ok 0
parse_max_lun (err e) = err (usb e)
parse_max_lun dropped = dropped
parse_max_lun panicked = panicked
parse_max_lun stuck = stuck

abbrev pub is_bulk : TransferType → Bool
is_bulk bulk = true
is_bulk _ = false

unfoldable pub is_input : EndpointInfo → Bool
is_input e = is_bulk e.transfer_type && not (bit_and e.address 0x80 == 0)

unfoldable pub is_output : EndpointInfo → Bool
is_output e = is_bulk e.transfer_type && (bit_and e.address 0x80 == 0)

-- `usize::next_multiple_of`: `none` is the panic for a multiple of 0.
unfoldable pub next_multiple_of : ℕ → ℕ → Option ℕ
next_multiple_of n zero = none
next_multiple_of n (suc k) = some (if n % (suc k) == 0 then n else n + (suc k - n % (suc k)))

-- `ok_or(Error::Protocol(..))?`
abbrev pub required : {S A : Type 0} → Option A → String → Action S Error A
required none text = raise (protocol text)
required (some a) text = pure a

module _ {W I P : Type 0} (nusb : Nusb W I P) where
  unfoldable pub from_interface : I → ℕ → Action W Error (NusbIo I P)
  from_interface claimed alternate w =
      (do
        raise_if (not (nusb.get_alt_setting claimed w == alternate))
            (protocol "selected alternate setting is not active")
        descriptor ←
            required (find (λ d. d.alternate_setting == alternate) (nusb.descriptors claimed))
              "selected alternate setting is missing"
        raise_if
            (not (descriptor.class == 0xff)
              || (not (descriptor.subclass == 6) || not (descriptor.protocol == 0x50)))
            (protocol "managed storage requires ff/06/50")
        input ← required (find is_input descriptor.endpoints) "bulk IN endpoint missing"
        output ← required (find is_output descriptor.endpoints) "bulk OUT endpoint missing"
        input_endpoint ← nusb.endpoint claimed input.address
        output_endpoint ← nusb.endpoint claimed output.address
        pure (record {
          input = input_endpoint;
          output = output_endpoint;
          input_packet_size = input.max_packet_size;
          max_lun = 0;
          web_device = false;
          web_interface = none;
        }))
        w

  -- The `?` on `parse_max_lun` of the awaited control transfer.
  abbrev pub get_max_lun : I → ℕ → Action W Error ℕ
  get_max_lun claimed timeout w =
      let (r, w') =
        nusb.control_in claimed (get_max_lun_request (nusb.interface_number claimed)) timeout w in
      (parse_max_lun r, w')

  unfoldable pub with_max_lun : I → ℕ → NusbIo I P → Action W Error (NusbIo I P)
  with_max_lun claimed timeout io = do
    max_lun ← get_max_lun claimed timeout
    pure (record io { max_lun = max_lun })

  -- `NusbIo::initialize`, which is `NusbIo::connect` too.
  unfoldable pub initialize : I → (alternate timeout : ℕ) → Action W Error (NusbIo I P)
  initialize claimed alternate timeout = do
    _ ← finish (validate_timeout timeout)
    io ← from_interface claimed alternate
    with_max_lun claimed timeout io

  abbrev written : Option Completion → Transfer ℕ
  written none = abandoned
  written (some c) = elim c.status [ none ↦ completed c.actual_len | some e ↦ failed (usb e) ]

  abbrev got : Option Completion → Transfer (List ℕ)
  got none = abandoned
  got (some c) = elim c.status [ none ↦ completed c.buffer | some e ↦ failed (usb e) ]

  -- `BulkIo for NusbIo`, over the transport and the bus.
  unfoldable pub write : NusbIo I P × W → List ℕ → Transfer ℕ × (NusbIo I P × W)
  write (io, w) bytes = let (c, w') = nusb.transfer_out io.output bytes w in (written c, (io, w'))

  -- The part of `read` after the length of the buffer. A transport knows no panic: where the length
  -- panics, nothing of the awaiting calls runs any more, as where the future is dropped. A theorem
  -- on how such calls end assumes `HasPackets`.
  abbrev pub fetched : Option ℕ → NusbIo I P × W → Transfer (List ℕ) × (NusbIo I P × W)
  fetched none (io, w) = (abandoned, (io, w))
  fetched (some size) (io, w) = let (c, w') = nusb.transfer_in io.input size w in (got c, (io, w'))

  unfoldable pub read : NusbIo I P × W → ℕ → Transfer (List ℕ) × (NusbIo I P × W)
  read (io, w) n = fetched (next_multiple_of n io.input_packet_size) (io, w)

  abbrev pub nusb_bus : BulkIo (NusbIo I P × W)
  nusb_bus = record { max_lun = λ t. t.0.max_lun; write = write; read = read }

  -- The descriptors have no endpoint with a packet size of 0.
  abbrev pub HasPackets : Type 0
  HasPackets =
      (i : I)
      → any (λ d. any (λ e. e.max_packet_size == 0) d.endpoints) (nusb.descriptors i) ≡ false

  -- A loop of the native `close`, which waits for every pending transfer of an endpoint.
  unfoldable pub drain : ℕ → P → W → Outcome Error (Unit {0}) × W
  drain zero p w = if nusb.pending p w == 0 then (ok tt, w) else (stuck, w)
  drain (suc fuel) p w =
      let rest = drain fuel p (nusb.next_complete p w) in
      if nusb.pending p w == 0 then (ok tt, w) else rest

  -- The native `NusbIo::close`, with the rounds of each loop.
  unfoldable pub close_native : (fuel fuel' : ℕ) → NusbIo I P → Action W Error (Unit {0})
  close_native fuel fuel' io w =
      (do drain fuel io.input; drain fuel' io.output)
        (nusb.cancel_all io.output (nusb.cancel_all io.input w))
