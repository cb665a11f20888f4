-- ===== src/Probe.antt =====
-- nusb-scsi/examples/managed_probe.rs: the qualification of a device over SCSI commands, and the
-- lines that it prints. `digest` stands for the sha2 crate.
pub mod Arguments
pub mod Connected
pub mod Running
pub mod Quiet
pub mod Writeless
pub mod Stages
pub mod Teardown
pub mod Ending
pub mod Release
use canoe_nusb_storage.Common.{
  ℕ, ◌*◌, ◌/◌, ◌%◌, ◌^◌, ◌==◌, min, Bool, not, ◌||◌, Option, none, some, List, [], ◌∷◌, length, ltb,
  get_elem?, slice?, bit_and, String,
}
use canoe_nusb_storage.Common.Outcome.{
  Outcome, ok, err, dropped, panicked, stuck, Action, pure, raise, get, raise_if, or_panic, ◌>>=◌,
  ◌>>◌,
}
use canoe_nusb_storage.Scsi.Error.{Error}
use canoe_nusb_storage.Scsi.Transport
use canoe_nusb_storage.Scsi.Transport.{BulkIo, Scsi, Geometry}
use canoe_nusb_storage.Scsi.Operations
use canoe_nusb_storage.Fs.Text.{Text}

-- The texts of the errors: `format!("{stage}: {error}")`, that of the expired deadline, `to_string` of
-- an error of the library and of one of nusb, a literal, and the two that carry a value.
pub data Failure : Type 0 where
  at_stage : (stage : String) → Error → Failure
  expired : (stage : String) → Failure
  of_scsi : Error → Failure
  of_nusb : ℕ → Failure
  message : String → Failure
  unknown_argument : Text → Failure
  expected_one : (found : ℕ) → Failure

-- The lines that `emit` prints, a constructor for each stage, with what its detail reports, and the
-- usage that `--help` prints. A text of the device's is given by its bytes.
pub data Line : Type 0 where
  device : (bus : Text) (address : ℕ) → Line
  interface : (configuration interface alternate : ℕ) → Line
  get_max_lun : (maximum_lun : ℕ) → Line
  inquiry : (peripheral_type : ℕ) (removable : Bool) (vendor product revision : List ℕ) → Line
  test_unit_ready : Line
  capacity : (blocks block_size bytes : ℕ) → Line
  sample : (lba blocks bytes : ℕ) (sha256 : List ℕ) → Line
  synchronize_cache : Line
  eject : (session_retired : Bool) → Line
  sense : Outcome Failure (List ℕ) → Line
  transfers_drained interface_release : Outcome Failure (Unit {0}) → Line
  device_close : Line
  failed : Failure → Line
  usage : Line

-- The stage that a line names; the usage names none.
unfoldable pub stage : Line → String
stage (device bus address) = "device"
stage (interface configuration number alternate) = "interface"
stage (get_max_lun maximum) = "get-max-lun"
stage (inquiry kind removable vendor product revision) = "inquiry"
stage test_unit_ready = "test-unit-ready"
stage (capacity blocks block_size bytes) = "capacity"
stage (sample lba blocks bytes sha256) = "sample"
stage synchronize_cache = "synchronize-cache"
stage (eject retired) = "eject"
stage (sense reply) = "sense"
stage (transfers_drained closed) = "transfers-drained"
stage (interface_release released) = "interface-release"
stage device_close = "device-close"
stage (failed e) = "failed"
stage usage = ""

-- A state, with the lines printed so far, the last one first.
pub record Printing (S : Type 0) : Type 0 where
  pub state : S
  pub printed : List Line

unfoldable pub emit : {S : Type 0} → Line → Action (Printing S) Failure (Unit {0})
emit line p = (ok tt, record p { printed = line ∷ p.printed })

-- How `bounded` ends: a call that the deadline of five seconds overtakes is dropped.
unfoldable pub bounded_end : {A : Type 0} → String → Outcome Error A → Outcome Failure A
bounded_end stage (ok a) = ok a
bounded_end stage (err e) = err (at_stage stage e)
bounded_end stage dropped = err (expired stage)
bounded_end stage panicked = panicked
bounded_end stage stuck = stuck

unfoldable pub bounded : {S A : Type 0} → String → Action S Error A → Action (Printing S) Failure A
bounded stage m p = let (r, s) = m p.state in (bounded_end stage r, record p { state = s })

-- `emit("inquiry", ..)`, whose indices panic where the reply is too short.
unfoldable pub emit_inquiry : {S : Type 0} → List ℕ → Action (Printing S) Failure (Unit {0})
emit_inquiry reply = do
  kind ← or_panic (get_elem? reply 0)
  removable ← or_panic (get_elem? reply 1)
  vendor ← or_panic (slice? 8 8 reply)
  product ← or_panic (slice? 16 16 reply)
  revision ← or_panic (slice? 32 4 reply)
  emit (inquiry (bit_and kind 31) (not (bit_and removable 128 == 0)) vendor product revision)

-- `(4096 / geometry.block_size).min(geometry.blocks as u32) as u16`
unfoldable pub sample_blocks : (blocks block_size : ℕ) → ℕ
sample_blocks blocks block_size = min (4096 / block_size) (blocks % 2 ^ 32) % 2 ^ 16

module _ {T : Type 0} (bus : BulkIo T) where
  -- `commands` by its parts: the inquiry and the test,
  unfoldable pub introduce : Action (Printing (Scsi T)) Failure (Unit {0})
  introduce = do
    reply ← bounded "inquiry" (Operations.inquiry bus)
    emit_inquiry reply
    bounded "test-unit-ready" (Operations.test_unit_ready bus)
    emit test_unit_ready

  -- the capacity, up to the line about it,
  unfoldable pub measure : Action (Printing (Scsi T)) Failure Geometry
  measure = do
    geometry ← bounded "capacity" (Operations.geometry bus)
    raise_if (ltb 4096 geometry.block_size || (geometry.blocks == 0))
        (message "sector geometry exceeds bounded sample")
    emit (capacity geometry.blocks geometry.block_size (geometry.blocks * geometry.block_size))
    pure geometry

  -- the end,
  unfoldable pub conclude : Action (Printing (Scsi T)) Failure (Unit {0})
  conclude = do
    bounded "synchronize-cache" (Operations.flush bus)
    emit synchronize_cache
    bounded "eject" (Operations.eject bus)
    p ← get
    emit (eject (not (Transport.is_usable p.state)))

  module _ (usize_max : ℕ) (digest : List ℕ → List ℕ) where
    -- and before it the sample, of `count` blocks.
    unfoldable pub take_sample :
        (count block_size : ℕ) → Action (Printing (Scsi T)) Failure (Unit {0})
    take_sample count block_size = do
      bytes ← bounded "read-blocks" (Operations.read_blocks bus usize_max 0 count block_size)
      emit (sample 0 count (length bytes) (digest bytes))

    unfoldable pub commands : Action (Printing (Scsi T)) Failure (Unit {0})
    commands = do
      introduce
      geometry ← measure
      take_sample (sample_blocks geometry.blocks geometry.block_size) geometry.block_size
      conclude

-- How a call ended, kept as a value: a panic passes on.
unfoldable pub settled_end : {E A : Type 0} → Outcome E A → Outcome E (Outcome E A)
settled_end (ok a) = ok (ok a)
settled_end (err e) = ok (err e)
settled_end dropped = dropped
settled_end panicked = panicked
settled_end stuck = stuck

unfoldable pub settled : {S E A : Type 0} → Action S E A → Action S E (Outcome E A)
settled m s = let (r, s') = m s in (settled_end r, s')

abbrev pub is_err : {E A : Type 0} → Outcome E A → Bool
is_err (err e) = Bool.true
is_err _ = Bool.false
