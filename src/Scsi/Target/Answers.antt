-- ===== src/Scsi/Target/Answers.antt =====
-- TEST UNIT READY, READ CAPACITY(10) and SYNCHRONIZE CACHE(10) against a conforming device:
-- `initialize_ready`, `geometry` and `flush` of nusb-scsi/src/lib.rs.
use canoe_nusb_storage.Common.{
  ℕ, ◌-◌, ◌^◌, ◌≤◌, ◌<◌, ◌≡◌, refl, true, false, List, [], ◌∷◌, ◌++◌, length, slice, get_or,
  replicate, arith,
}
use canoe_nusb_storage.Common.Bytes.{u32_max, u32_to_le, u32_from_le, u32_to_be, u32_from_be?}
use canoe_nusb_storage.Common.Outcome.{ok}
use canoe_nusb_storage.Scsi.Transport.{BulkIo, Scsi, Geometry, completed}
use canoe_nusb_storage.Scsi.Wire.{cbw, cbw_signature}
use canoe_nusb_storage.Scsi.Command.{data_stage, command, next_tag, is_bad_shape}
use canoe_nusb_storage.Scsi.Operations.{
  is_power_of_two, test_unit_ready, after_test, initialize_ready, flush, geometry,
}
use canoe_nusb_storage.Scsi.Target.{Target, idle, sending}
use canoe_nusb_storage.Scsi.Target.Steps.{advanced, command_by, next_tag-lt}
use canoe_nusb_storage.Scsi.Target.Blocks.{data_stage-sending}

-- A command block wrapper with the command block `cdb`.
pub record IsCommand (msg : List ℕ) (tag total direction : ℕ) (cdb : List ℕ) : Type 0 where
  pub size : length msg ≡ 31
  pub signature : slice 0 4 msg ≡ cbw_signature
  pub tagged : u32_from_le (slice 4 4 msg) ≡ tag
  pub totalled : u32_from_le (slice 8 4 msg) ≡ total
  pub directed : get_or msg 12 0 ≡ direction
  pub cdb_size : get_or msg 14 0 ≡ length cdb
  pub stated : slice 15 (length cdb) msg ≡ cdb

abbrev pub test_cdb : List ℕ
test_cdb = replicate 6 0

abbrev pub synchronize_cdb : List ℕ
synchronize_cdb = 0x35 ∷ replicate 9 0

abbrev pub measure_cdb : List ℕ
measure_cdb = 0x25 ∷ replicate 9 0

-- What the standards document of these commands, on a device that is ready and has the geometry `g`.
pub record Answers {T : Type 0} (bus : BulkIo T) (g : Geometry) (target : Target bus g.block_size)
    : Type 0 where
  pub starts_testing :
      (t : T) (d msg : List ℕ) (tag : ℕ)
      → target.At t d idle
      → IsCommand msg tag 0 0 test_cdb
      → (t' : T) × (bus.write t msg ≡ (completed 31, t')) × target.At t' d (sending tag [])
  pub starts_synchronizing :
      (t : T) (d msg : List ℕ) (tag : ℕ)
      → target.At t d idle
      → IsCommand msg tag 0 0 synchronize_cdb
      → (t' : T) × (bus.write t msg ≡ (completed 31, t')) × target.At t' d (sending tag [])
  -- The last block and the size of a block.
  pub starts_measuring :
      (t : T) (d msg : List ℕ) (tag : ℕ)
      → target.At t d idle
      → IsCommand msg tag 8 0x80 measure_cdb
      → (t' : T) × (bus.write t msg ≡ (completed 31, t'))
        × target.At t' d (sending tag (u32_to_be (g.blocks - 1) ++ u32_to_be g.block_size))

test-IsCommand :
    (tag lun : ℕ) → tag < 2 ^ 32 → IsCommand (cbw tag 0 0 lun test_cdb) tag 0 0 test_cdb
unfolding cbw u32_to_le u32_from_le
test-IsCommand tag lun h = record {
  size = refl;
  signature = refl;
  tagged = omega arith;
  totalled = omega arith;
  directed = refl;
  cdb_size = refl;
  stated = refl;
}

synchronize-IsCommand :
    (tag lun : ℕ)
    → tag < 2 ^ 32
    → IsCommand (cbw tag 0 0 lun synchronize_cdb) tag 0 0 synchronize_cdb
unfolding cbw u32_to_le u32_from_le
synchronize-IsCommand tag lun h = record {
  size = refl;
  signature = refl;
  tagged = omega arith;
  totalled = omega arith;
  directed = refl;
  cdb_size = refl;
  stated = refl;
}

measure-IsCommand :
    (tag lun : ℕ) → tag < 2 ^ 32 → IsCommand (cbw tag 8 8 lun measure_cdb) tag 8 0x80 measure_cdb
unfolding cbw u32_to_le u32_from_le
measure-IsCommand tag lun h = record {
  size = refl;
  signature = refl;
  tagged = omega arith;
  totalled = omega arith;
  directed = refl;
  cdb_size = refl;
  stated = refl;
}

shapes :
    (is_bad_shape test_cdb 0 [] ≡ false)
    × (is_bad_shape synchronize_cdb 0 [] ≡ false)
    × (is_bad_shape measure_cdb 8 [] ≡ false)
unfolding is_bad_shape
shapes = (refl, refl, refl)

module _ {T : Type 0} (bus : BulkIo T) (g : Geometry) (target : Target bus g.block_size)
    (answers : Answers bus g target) (s : Scsi T) (d : List ℕ) (live : s.usable ≡ true)
    (at : target.At s.io d idle) where
  Sent : ℕ → List ℕ → List ℕ → Type 0
  Sent incoming cdb reply =
      (t : T) × (command bus cdb incoming [] s ≡ (ok reply, advanced s t)) × target.At t d idle

  -- A command without data.
  silent :
      (cdb : List ℕ)
      → is_bad_shape cdb 0 [] ≡ false
      → length (cbw (next_tag s.tag) 0 0 s.lun cdb) ≡ 31
      → (t1 : T) × (bus.write s.io (cbw (next_tag s.tag) 0 0 s.lun cdb) ≡ (completed 31, t1))
        × target.At t1 d (sending (next_tag s.tag) [])
      → Sent 0 cdb []
  unfolding Sent data_stage
  silent cdb shape size (t1, sent, at1) =
      let (t3, ended, at3) = target.ends_reading t1 d (next_tag s.tag) at1 in
      (t3, command_by bus cdb 0 [] [] s t1 t1 t3 live shape (omega arith) size sent refl ended, at3)

  measured :
      (reply : List ℕ)
      → length reply ≡ 8
      → (t1 : T) × (bus.write s.io (cbw (next_tag s.tag) 8 8 s.lun measure_cdb)
          ≡ (completed 31, t1))
        × target.At t1 d (sending (next_tag s.tag) reply)
      → Sent 8 measure_cdb reply
  unfolding Sent
  measured reply e (t1, sent, at1) =
      let s1 : Scsi T = record s { io = t1; tag = next_tag s.tag; usable = false } in
      let (t2, moved, at2) =
        data_stage-sending bus g.block_size target 8 reply s1 d (next_tag s.tag) at1 (omega arith)
          e in
      let (t3, ended, at3) = target.ends_reading t2 d (next_tag s.tag) at2 in
      (
        t3,
        command_by bus measure_cdb 8 [] reply s t1 t2 t3 live shapes.2 (omega arith)
            (measure-IsCommand (next_tag s.tag) s.lun (next_tag-lt s.tag)).size sent moved ended,
        at3,
      )

  tested : Sent 0 test_cdb []
  tested =
      let w = test-IsCommand (next_tag s.tag) s.lun (next_tag-lt s.tag) in
      silent test_cdb shapes.0 w.size (
        answers.starts_testing s.io d (cbw (next_tag s.tag) 0 0 s.lun test_cdb) (next_tag s.tag) at
          w)

  synchronized : Sent 0 synchronize_cdb []
  synchronized =
      let w = synchronize-IsCommand (next_tag s.tag) s.lun (next_tag-lt s.tag) in
      silent synchronize_cdb shapes.1 w.size (
        answers.starts_synchronizing s.io d (cbw (next_tag s.tag) 0 0 s.lun synchronize_cdb)
          (next_tag s.tag) at w)

  capacity : List ℕ
  capacity = u32_to_be (g.blocks - 1) ++ u32_to_be g.block_size

  sized : Sent 8 measure_cdb capacity
  unfolding capacity u32_to_be
  sized = measured capacity refl (
      answers.starts_measuring s.io d (cbw (next_tag s.tag) 8 8 s.lun measure_cdb) (next_tag s.tag)
        at (measure-IsCommand (next_tag s.tag) s.lun (next_tag-lt s.tag)))

  -- A device that is ready is found ready at the first test.
  pub initialize_ready_answers :
      (t : T) × (initialize_ready bus s ≡ (ok tt, advanced s t)) × target.At t d idle
  unfolding Sent initialize_ready test_unit_ready after_test
  initialize_ready_answers = let (t, e, at') = tested in (t, grind (arith, e), at')

  -- `flush` succeeds.
  pub flush_answers : (t : T) × (flush bus s ≡ (ok tt, advanced s t)) × target.At t d idle
  unfolding Sent flush
  flush_answers = let (t, e, at') = synchronized in (t, grind (arith, e), at')

  -- `geometry` returns the geometry of the device.
  pub geometry_answers :
      0 < g.blocks
      → g.blocks ≤ u32_max
      → g.block_size < 2 ^ 32
      → is_power_of_two g.block_size ≡ true
      → (t : T) × (geometry bus s ≡ (ok g, advanced s t)) × target.At t d idle
  unfolding Sent capacity geometry u32_to_be u32_from_be? is_power_of_two
  geometry_answers pos few small power = let (t, e, at') = sized in (t, grind (arith, e), at')
