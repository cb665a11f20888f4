-- ===== src/Scsi/Target/Blocks.antt =====
-- `read_blocks` and `write_blocks` of nusb-scsi/src/lib.rs against a conforming device.
use mathlib.Core.Path.{subst}
use canoe_nusb_storage.Common.{
  ℕ, ◌+◌, ◌*◌, ◌^◌, ◌≤◌, ◌<◌, ◌≡◌, refl, sym, true, false, List, [], ◌∷◌, max, length, length-slice,
  arith, slice, splice, lt→ltb,
}
use canoe_nusb_storage.Common.Bytes.{u32_max}
use canoe_nusb_storage.Common.Outcome.{ok}
use canoe_nusb_storage.Scsi.Transport.{BulkIo, Scsi, completed}
use canoe_nusb_storage.Scsi.Wire.{cbw}
use canoe_nusb_storage.Scsi.Command.{send, data_stage, command, next_tag, chunk_bytes}
use canoe_nusb_storage.Scsi.Operations.{block_command, is_power_of_two, read_blocks, write_blocks}
use canoe_nusb_storage.Scsi.Blocks.{mul_pos}
use canoe_nusb_storage.Scsi.Target.{Target, idle, sending, receiving, good_status, IsWrapper}
use canoe_nusb_storage.Scsi.Target.Transfers.{receive-sending, send-receiving}
use canoe_nusb_storage.Scsi.Target.Steps.{
  block_cdb, advanced, read-IsWrapper, write-IsWrapper, read_shape, write_shape, command_by,
  write_blocks_by, power_pos, next_tag-lt,
}

module _ {T : Type 0} (bus : BulkIo T) (block_size : ℕ) (target : Target bus block_size) where
  open target use {At, starts_reading, ends_reading, starts_writing, ends_writing}

  pub data_stage-sending :
      (n : ℕ) (content : List ℕ) (s : Scsi T) (d : List ℕ) (tag : ℕ)
      → At s.io d (sending tag content)
      → 0 < n
      → length content ≡ n
      → (t : T) × (data_stage bus n [] s ≡ (ok content, record s { io = t }))
        × At t d (sending tag [])
  unfolding data_stage
  data_stage-sending n content s d tag at pos e =
      rw (lt→ltb 0 n pos) (
        receive-sending bus block_size target n n [] content s d tag at (omega arith) (omega arith))

  data_stage-receiving :
      (outgoing : List ℕ) (s : Scsi T) (d : List ℕ) (tag start : ℕ)
      → At s.io d (receiving tag start (length outgoing) [])
      → (t : T) × (data_stage bus 0 outgoing s ≡ (ok [], record s { io = t }))
        × At t d (receiving tag start (length outgoing) outgoing)
  unfolding data_stage
  data_stage-receiving [] s d tag start at = (s.io, refl, at)
  data_stage-receiving (x ∷ outgoing) s d tag start at = sent (
      send-receiving bus block_size target chunk_bytes (length (x ∷ outgoing))
        (length (x ∷ outgoing)) [] (x ∷ outgoing) s d tag start (omega arith) at (omega arith)
        (omega arith))
    where
      sent :
          (t : T) × (send bus chunk_bytes (length (x ∷ outgoing)) (x ∷ outgoing) s
              ≡ (ok tt, record s { io = t }))
            × At t d (receiving tag start (length (x ∷ outgoing)) (x ∷ outgoing))
          → (t : T) × (data_stage bus 0 (x ∷ outgoing) s ≡ (ok [], record s { io = t }))
            × At t d (receiving tag start (length (x ∷ outgoing)) (x ∷ outgoing))
      sent (t, e, at') = (t, ground arith, at')

  module _ (lba count : ℕ) (s : Scsi T) (d : List ℕ) (live : s.usable ≡ true) (at : At s.io d idle)
      (hl : lba < 2 ^ 32) (hc : count < 2 ^ 16)
      (inside : (lba + count) * block_size ≤ length d) where
    command_reads :
        0 < count * block_size
        → count * block_size ≤ u32_max
        → (t : T) × (command bus (block_cdb 0x28 lba count) (count * block_size) [] s
            ≡ (ok (slice (lba * block_size) (count * block_size) d), advanced s t))
          × At t d idle
    command_reads pos few =
        started (starts_reading s.io d msg (next_tag s.tag) lba count at w inside)
      where
        n : ℕ
        n = count * block_size

        msg : List ℕ
        msg = cbw (next_tag s.tag) (max n 0) n s.lun (block_cdb 0x28 lba count)

        w : IsWrapper msg (next_tag s.tag) n 0x80 0x28 lba count
        w = read-IsWrapper (next_tag s.tag) n s.lun lba count (next_tag-lt s.tag) pos few hl hc

        content : List ℕ
        content = slice (lba * block_size) n d

        Goal : Type 0
        Goal =
            (t : T) × (command bus (block_cdb 0x28 lba count) n [] s ≡ (ok content, advanced s t))
            × At t d idle

        ended :
            (t1 t2 : T)
            → bus.write s.io msg ≡ (completed 31, t1)
            → data_stage bus n [] (record s { io = t1; tag = next_tag s.tag; usable = false })
              ≡ (ok content, record s { io = t2; tag = next_tag s.tag; usable = false })
            → (t3 : T) × (bus.read t2 13 ≡ (completed (good_status (next_tag s.tag)), t3))
              × At t3 d idle
            → Goal
        ended t1 t2 sent moved (t3, e, at3) = (
          t3,
          command_by bus (block_cdb 0x28 lba count) n [] content s t1 t2 t3 live
              (read_shape lba count n) (omega arith) w.size sent moved e,
          at3,
        )

        moved :
            (t1 : T)
            → bus.write s.io msg ≡ (completed 31, t1)
            → (t2 : T) × (data_stage bus n []
                  (record s { io = t1; tag = next_tag s.tag; usable = false })
                ≡ (ok content, record s { io = t2; tag = next_tag s.tag; usable = false }))
              × At t2 d (sending (next_tag s.tag) [])
            → Goal
        moved t1 sent (t2, e, at2) = ended t1 t2 sent e (ends_reading t2 d (next_tag s.tag) at2)

        started :
            (t1 : T) × (bus.write s.io msg ≡ (completed 31, t1))
              × At t1 d (sending (next_tag s.tag) content)
            → Goal
        started (t1, sent, at1) = moved t1 sent (
            data_stage-sending n content
              (record s { io = t1; tag = next_tag s.tag; usable = false }) d (next_tag s.tag) at1
              pos (length-slice (lba * block_size) n d (omega arith)))

    command_writes :
        (outgoing : List ℕ)
        → length outgoing ≡ count * block_size
        → count * block_size ≤ u32_max
        → (t : T) × (command bus (block_cdb 0x2a lba count) 0 outgoing s ≡ (ok [], advanced s t))
          × At t (splice (lba * block_size) outgoing d) idle
    command_writes outgoing e few =
        started (starts_writing s.io d msg (next_tag s.tag) lba count at w inside)
      where
        n : ℕ
        n = length outgoing

        start : ℕ
        start = lba * block_size

        msg : List ℕ
        msg = cbw (next_tag s.tag) (max 0 n) 0 s.lun (block_cdb 0x2a lba count)

        w : IsWrapper msg (next_tag s.tag) (count * block_size) 0 0x2a lba count
        w = rw (← e) (
            write-IsWrapper (next_tag s.tag) n s.lun lba count (next_tag-lt s.tag) (omega arith) hl
              hc)

        Goal : Type 0
        Goal =
            (t : T) × (command bus (block_cdb 0x2a lba count) 0 outgoing s ≡ (ok [], advanced s t))
            × At t (splice start outgoing d) idle

        ended :
            (t1 t2 : T)
            → bus.write s.io msg ≡ (completed 31, t1)
            → data_stage bus 0 outgoing (record s { io = t1; tag = next_tag s.tag; usable = false })
              ≡ (ok [], record s { io = t2; tag = next_tag s.tag; usable = false })
            → (t3 : T) × (bus.read t2 13 ≡ (completed (good_status (next_tag s.tag)), t3))
              × At t3 (splice start outgoing d) idle
            → Goal
        ended t1 t2 sent moved (t3, k, at3) = (
          t3,
          command_by bus (block_cdb 0x2a lba count) 0 outgoing [] s t1 t2 t3 live
              (write_shape lba count outgoing) (omega arith) w.size sent moved k,
          at3,
        )

        moved :
            (t1 : T)
            → bus.write s.io msg ≡ (completed 31, t1)
            → (t2 : T) × (data_stage bus 0 outgoing
                  (record s { io = t1; tag = next_tag s.tag; usable = false })
                ≡ (ok [], record s { io = t2; tag = next_tag s.tag; usable = false }))
              × At t2 d (receiving (next_tag s.tag) start n outgoing)
            → Goal
        moved t1 sent (t2, k, at2) =
            ended t1 t2 sent k (ends_writing t2 d (next_tag s.tag) start n outgoing at2 refl)

        started :
            (t1 : T) × (bus.write s.io msg ≡ (completed 31, t1))
              × At t1 d (receiving (next_tag s.tag) start (count * block_size) [])
            → Goal
        started (t1, sent, at1) = moved t1 sent (
            data_stage-receiving outgoing
              (record s { io = t1; tag = next_tag s.tag; usable = false }) d (next_tag s.tag) start
              (subst (λ k. At t1 d (receiving (next_tag s.tag) start k [])) (sym e) at1))

    module _ (usize_max : ℕ) (pos : 0 < count) (end_range : lba + count ≤ 2 ^ 32)
        (power : is_power_of_two block_size ≡ true) (few : count * block_size ≤ u32_max)
        (wide : u32_max ≤ usize_max) where
      granted :
          (op : ℕ)
          → block_command usize_max op lba count block_size
            ≡ ok (block_cdb op lba count, count * block_size)
      unfolding block_command
      granted op = ground (arith, power_pos block_size power)

      -- `read_blocks` returns what the device holds in those blocks.
      pub read_blocks_reads :
          (t : T) × (read_blocks bus usize_max lba count block_size s
            ≡ (ok (slice (lba * block_size) (count * block_size) d), advanced s t))
          × At t d idle
      unfolding read_blocks
      read_blocks_reads =
          rw (granted 0x28)
            (command_reads (mul_pos count block_size pos (power_pos block_size power)) few)

      -- `write_blocks` replaces what the device holds in those blocks, and nothing else.
      pub write_blocks_writes :
          (bytes : List ℕ)
          → length bytes ≡ count * block_size
          → (t : T) × (write_blocks bus usize_max lba count block_size bytes s
              ≡ (ok tt, advanced s t))
            × At t (splice (lba * block_size) bytes d) idle
      write_blocks_writes bytes e = finished (command_writes bytes e few)
        where
          finished :
              (t : T) × (command bus (block_cdb 0x2a lba count) 0 bytes s ≡ (ok [], advanced s t))
                × At t (splice (lba * block_size) bytes d) idle
              → (t : T) × (write_blocks bus usize_max lba count block_size bytes s
                  ≡ (ok tt, advanced s t))
                × At t (splice (lba * block_size) bytes d) idle
          finished (t, k, at') = (
            t,
            write_blocks_by bus usize_max lba count block_size bytes s t (granted 0x2a) e k,
            at',
          )
