-- ===== src/Scsi/Quiet.antt =====
-- What `Scsi` (nusb-scsi/src/lib.rs) sends to the device when it writes no blocks.
use canoe_nusb_storage.Common.{
  ℕ, zero, suc, ◌≡◌, false, List, [], ◌∷◌, ◌-◌, ◌*◌, ◌++◌, length, get_or, replicate, length-append,
  length-replicate, max, arith,
}
use canoe_nusb_storage.Common.Bytes.{u32_to_le}
use canoe_nusb_storage.Common.Keeps.{Keeps}
use canoe_nusb_storage.Common.Outcome.{Outcome, ok, err}
use canoe_nusb_storage.Scsi.Error.{Error, command_failed}
use canoe_nusb_storage.Scsi.Transport.{BulkIo, Scsi, io_write, io_read}
use canoe_nusb_storage.Scsi.Wire.{cbw}
use canoe_nusb_storage.Scsi.Command.{
  is_bad_shape, receive, data_stage, conclude, status_stage, exchange, command,
}
use canoe_nusb_storage.Scsi.Target.Steps.{block_cdb}
use canoe_nusb_storage.Scsi.Operations
use canoe_nusb_storage.Scsi.Operations.{block_command}

-- The operation codes of TEST UNIT READY, REQUEST SENSE, INQUIRY, START STOP UNIT, READ CAPACITY,
-- READ(10) and SYNCHRONIZE CACHE.
pub data IsReading : ℕ → Type 0 where
  tests : IsReading 0
  senses : IsReading 3
  inquires : IsReading 0x12
  stops : IsReading 0x1b
  measures : IsReading 0x25
  reads : IsReading 0x28
  synchronizes : IsReading 0x35

-- A message of the length of a command block wrapper, whose operation code is one of those.
pub record IsQuiet (msg : List ℕ) : Type 0 where
  pub size : length msg ≡ 31
  pub operation : IsReading (get_or msg 15 0)

cbw-IsQuiet :
    (tag n incoming lun : ℕ) (cdb : List ℕ)
    → is_bad_shape cdb incoming [] ≡ false
    → IsReading (get_or cdb 0 0)
    → IsQuiet (cbw tag n incoming lun cdb)
unfolding cbw u32_to_le is_bad_shape
cbw-IsQuiet tag n incoming lun [] h r = absurd (grind arith)
cbw-IsQuiet tag n incoming lun (x ∷ xs) h r = record {
  size = grind (
    arith,
    length-append xs (replicate (16 - length (x ∷ xs)) 0),
    length-replicate {A = ℕ} (16 - length (x ∷ xs)) 0,
  );
  operation = r;
}

-- `Inv` is kept by every read of the transport and by every quiet message to it.
module _ {T : Type 0} (bus : BulkIo T) (Inv : T → Type 0)
    (reads_keep : (t : T) (n : ℕ) → Inv t → Inv (bus.read t n).1)
    (messages_keep : (t : T) (msg : List ℕ) → IsQuiet msg → Inv t → Inv (bus.write t msg).1) where
  abbrev Held : Scsi T → Type 0
  Held s = Inv s.io

  io_read-kept : (n : ℕ) → Keeps Held (io_read bus n)
  unfolding io_read
  io_read-kept n s h = reads_keep s.io n h

  io_write-kept : (msg : List ℕ) → IsQuiet msg → Keeps Held (io_write bus msg)
  unfolding io_write
  io_write-kept msg q s h = messages_keep s.io msg q h

  receive-kept : (fuel incoming : ℕ) (got : List ℕ) → Keeps Held (receive bus fuel incoming got)
  unfolding receive
  receive-kept zero incoming got s h = ground arith
  receive-kept (suc fuel) incoming got s h =
      let later = λ (n : ℕ) (chunk : List ℕ).
        receive-kept fuel incoming (got ++ chunk) (io_read bus n s).1 (io_read-kept n s h) in
      grind (arith, io_read-kept, later)

  data_stage-kept : (incoming : ℕ) → Keeps Held (data_stage bus incoming [])
  unfolding data_stage
  data_stage-kept incoming s h = ground (arith, receive-kept incoming incoming [] s h)

  conclude-kept : (status residue : ℕ) (got : List ℕ) → Keeps Held (conclude bus status residue got)
  unfolding conclude
  conclude-kept status residue got s h = ground arith

  status_stage-kept : (tag n : ℕ) (got : List ℕ) → Keeps Held (status_stage bus tag n got)
  unfolding status_stage
  status_stage-kept tag n got s h = grind (arith, io_read-kept, conclude-kept)

  exchange-kept :
      (tag lun : ℕ) (cdb : List ℕ) (incoming : ℕ)
      → is_bad_shape cdb incoming [] ≡ false
      → IsReading (get_or cdb 0 0)
      → Keeps Held (exchange bus tag lun cdb incoming [])
  unfolding exchange
  exchange-kept tag lun cdb incoming shape r s h =
      let msg = cbw tag (max incoming 0) incoming lun cdb in
      let sent =
        io_write-kept msg (cbw-IsQuiet tag (max incoming 0) incoming lun cdb shape r) s h in
      let moved = data_stage-kept incoming (io_write bus msg s).1 sent in
      grind (arith, sent, moved, status_stage-kept)

  -- A command that sends no data, and whose operation writes none, sends a quiet message at most.
  pub command-Keeps :
      (cdb : List ℕ) (incoming : ℕ)
      → IsReading (get_or cdb 0 0)
      → Keeps Held (command bus cdb incoming [])
  unfolding command
  command-Keeps cdb incoming r s h = grind (arith, exchange-kept)

  pub test_unit_ready-Keeps : Keeps Held (Operations.test_unit_ready bus)
  unfolding Operations.test_unit_ready
  test_unit_ready-Keeps s h = ground (arith, command-Keeps (replicate 6 0) 0 tests s h)

  pub request_sense-Keeps : Keeps Held (Operations.request_sense bus)
  unfolding Operations.request_sense
  request_sense-Keeps s h = command-Keeps (3 ∷ 0 ∷ 0 ∷ 0 ∷ 18 ∷ 0 ∷ []) 18 senses s h

  pub inquiry-Keeps : Keeps Held (Operations.inquiry bus)
  unfolding Operations.inquiry
  inquiry-Keeps s h = command-Keeps (0x12 ∷ 0 ∷ 0 ∷ 0 ∷ 36 ∷ 0 ∷ []) 36 inquires s h

  retry_ready-Keeps : Keeps Held (Operations.retry_ready bus)
  unfolding Operations.retry_ready
  retry_ready-Keeps s h = grind (arith, request_sense-Keeps s h, test_unit_ready-Keeps)

  after_test-Keeps : (r : Outcome Error (Unit {0})) → Keeps Held (Operations.after_test bus r)
  unfolding Operations.after_test
  after_test-Keeps (err command_failed) s h = retry_ready-Keeps s h
  after_test-Keeps (ok u) s h = h
  after_test-Keeps _ s h = h

  pub initialize_ready-Keeps : Keeps Held (Operations.initialize_ready bus)
  unfolding Operations.initialize_ready
  initialize_ready-Keeps s h = after_test-Keeps _ _ (test_unit_ready-Keeps s h)

  pub eject-Keeps : Keeps Held (Operations.eject bus)
  unfolding Operations.eject
  eject-Keeps s h = ground (arith, command-Keeps (0x1b ∷ 0 ∷ 0 ∷ 0 ∷ 2 ∷ 0 ∷ []) 0 stops s h)

  pub flush-Keeps : Keeps Held (Operations.flush bus)
  unfolding Operations.flush
  flush-Keeps s h = ground (arith, command-Keeps (0x35 ∷ replicate 9 0) 0 synchronizes s h)

  pub geometry-Keeps : Keeps Held (Operations.geometry bus)
  unfolding Operations.geometry
  geometry-Keeps s h = ground (arith, command-Keeps (0x25 ∷ replicate 9 0) 8 measures s h)

  pub read_blocks-Keeps :
      (usize_max lba count block_size : ℕ)
      → Keeps Held (Operations.read_blocks bus usize_max lba count block_size)
  unfolding Operations.read_blocks block_command
  read_blocks-Keeps usize_max lba count block_size s h =
      ground (arith, command-Keeps (block_cdb 0x28 lba count) (count * block_size) reads s h)
