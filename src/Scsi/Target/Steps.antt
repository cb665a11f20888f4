-- ===== src/Scsi/Target/Steps.antt =====
-- The wrappers of block commands, and `Scsi::command` of nusb-scsi/src/lib.rs by its stages.
use canoe_nusb_storage.Common.{
  ℕ, ◌*◌, ◌^◌, ◌≤◌, ◌<◌, ◌≡◌, refl, true, false, List, [], ◌∷◌, ◌++◌, max, length, ltb, arith,
  lt→ltb, if◌then◌else◌,
}
use canoe_nusb_storage.Common.Bytes.{
  u32_max, u32_to_le, u32_from_le, u32_to_be, u16_to_be, u32_from_be?, bytes_eq, bytes_eq_refl,
}
use canoe_nusb_storage.Common.Outcome.{ok}
use canoe_nusb_storage.Scsi.Transport.{BulkIo, Scsi, io_read, io_write, completed}
use canoe_nusb_storage.Scsi.Wire.{cbw, is_bad_csw, csw_residue, csw_status}
use canoe_nusb_storage.Scsi.Command.{
  data_stage, conclude, status_stage, exchange, command, next_tag, is_bad_shape,
}
use canoe_nusb_storage.Scsi.Operations.{block_command, is_power_of_two, write_blocks}
use canoe_nusb_storage.Scsi.Target.{good_status, IsWrapper}

-- The command block that `block_command` builds.
abbrev pub block_cdb : ℕ → ℕ → ℕ → List ℕ
block_cdb op lba count = op ∷ 0 ∷ (u32_to_be lba ++ (0 ∷ (u16_to_be count ++ (0 ∷ []))))

pub cbw-IsWrapper :
    (tag n incoming lun op lba count : ℕ)
    → tag < 2 ^ 32
    → n < 2 ^ 32
    → lba < 2 ^ 32
    → count < 2 ^ 16
    → IsWrapper
        (cbw tag n incoming lun (block_cdb op lba count))
        tag
        n
        (if ltb 0 incoming then 0x80 else 0)
        op
        lba
        count
unfolding cbw u32_to_le u32_from_le u32_to_be u16_to_be u32_from_be?
cbw-IsWrapper tag n incoming lun op lba count ht hn hl hc = record {
  size = refl;
  signature = refl;
  tagged = omega arith;
  totalled = omega arith;
  directed = refl;
  cdb_size = refl;
  operated = refl;
  addressed = ground arith;
  counted = omega arith;
}

pub read-IsWrapper :
    (tag n lun lba count : ℕ)
    → tag < 2 ^ 32
    → 0 < n
    → n ≤ u32_max
    → lba < 2 ^ 32
    → count < 2 ^ 16
    → IsWrapper (cbw tag (max n 0) n lun (block_cdb 0x28 lba count)) tag n 0x80 0x28 lba count
read-IsWrapper tag n lun lba count ht pos hn hl hc =
    let e : max n 0 ≡ n = omega arith in
    rw e (rw (lt→ltb 0 n pos) at (cbw-IsWrapper tag n n lun 0x28 lba count ht (omega arith) hl hc))

pub write-IsWrapper :
    (tag n lun lba count : ℕ)
    → tag < 2 ^ 32
    → n ≤ u32_max
    → lba < 2 ^ 32
    → count < 2 ^ 16
    → IsWrapper (cbw tag (max 0 n) 0 lun (block_cdb 0x2a lba count)) tag n 0 0x2a lba count
write-IsWrapper tag n lun lba count ht hn hl hc =
    let e : max 0 n ≡ n = omega arith in
    rw e (cbw-IsWrapper tag n 0 lun 0x2a lba count ht (omega arith) hl hc)

pub read_shape : (lba count n : ℕ) → is_bad_shape (block_cdb 0x28 lba count) n [] ≡ false
unfolding is_bad_shape u32_to_be u16_to_be
read_shape lba count n = ground arith

pub write_shape :
    (lba count : ℕ) (outgoing : List ℕ) → is_bad_shape (block_cdb 0x2a lba count) 0 outgoing ≡ false
unfolding is_bad_shape u32_to_be u16_to_be
write_shape lba count outgoing = refl

pub good_status-accepted : (tag : ℕ) → is_bad_csw tag (good_status tag) ≡ false
unfolding is_bad_csw u32_to_le bytes_eq
good_status-accepted tag = rw (bytes_eq_refl (u32_to_le tag))

pub good_status-residue : (tag : ℕ) → csw_residue (good_status tag) ≡ 0
unfolding csw_residue u32_to_le u32_from_le
good_status-residue tag = refl

pub good_status-status : (tag : ℕ) → csw_status (good_status tag) ≡ 0
unfolding csw_status u32_to_le
good_status-status tag = refl

-- The session after a command that succeeded, with the transport in the state `t`.
abbrev pub advanced : {T : Type 0} → Scsi T → T → Scsi T
advanced s t = record s { io = t; tag = next_tag s.tag; usable = true }

module _ {T : Type 0} (bus : BulkIo T) where
  pub status_stage_good :
      (tag n : ℕ) (data' : List ℕ) (s : Scsi T) (t : T)
      → bus.read s.io 13 ≡ (completed (good_status tag), t)
      → status_stage bus tag n data' s ≡ (ok data', record s { io = t; usable = true })
  unfolding status_stage conclude io_read
  status_stage_good tag n data' s t e =
      ground (arith, good_status-accepted tag, good_status-residue tag, good_status-status tag)

  pub exchange_by :
      (tag lun : ℕ) (cdb : List ℕ) (incoming : ℕ) (outgoing got : List ℕ) (s : Scsi T)
      (t1 t2 t3 : T)
      → length (cbw tag (max incoming (length outgoing)) incoming lun cdb) ≡ 31
      → bus.write s.io (cbw tag (max incoming (length outgoing)) incoming lun cdb)
        ≡ (completed 31, t1)
      → data_stage bus incoming outgoing (record s { io = t1 }) ≡ (ok got, record s { io = t2 })
      → bus.read t2 13 ≡ (completed (good_status tag), t3)
      → exchange bus tag lun cdb incoming outgoing s ≡ (ok got, record s { io = t3; usable = true })
  unfolding exchange io_write
  exchange_by tag lun cdb incoming outgoing got s t1 t2 t3 size sent moved ended =
      ground (
        arith,
        status_stage_good tag (max incoming (length outgoing)) got (record s { io = t2 }) t3,
      )

  -- A command whose stages go well.
  pub command_by :
      (cdb : List ℕ) (incoming : ℕ) (outgoing got : List ℕ) (s : Scsi T) (t1 t2 t3 : T)
      → s.usable ≡ true
      → is_bad_shape cdb incoming outgoing ≡ false
      → max incoming (length outgoing) ≤ u32_max
      → length (cbw (next_tag s.tag) (max incoming (length outgoing)) incoming s.lun cdb) ≡ 31
      → bus.write s.io (cbw (next_tag s.tag) (max incoming (length outgoing)) incoming s.lun cdb)
        ≡ (completed 31, t1)
      → data_stage bus incoming outgoing
          (record s { io = t1; tag = next_tag s.tag; usable = false })
        ≡ (ok got, record s { io = t2; tag = next_tag s.tag; usable = false })
      → bus.read t2 13 ≡ (completed (good_status (next_tag s.tag)), t3)
      → command bus cdb incoming outgoing s ≡ (ok got, advanced s t3)
  unfolding command
  command_by cdb incoming outgoing got s t1 t2 t3 live shape fits size sent moved ended = ground (
    arith,
    exchange_by (next_tag s.tag) s.lun cdb incoming outgoing got
        (record s { tag = next_tag s.tag; usable = false }) t1 t2 t3 size sent moved ended,
  )

pub write_blocks_by :
    {T : Type 0} (bus : BulkIo T) (usize_max lba count block_size : ℕ) (bytes : List ℕ) (s : Scsi T)
    (t : T)
    → block_command usize_max 0x2a lba count block_size
      ≡ ok (block_cdb 0x2a lba count, count * block_size)
    → length bytes ≡ count * block_size
    → command bus (block_cdb 0x2a lba count) 0 bytes s ≡ (ok [], advanced s t)
    → write_blocks bus usize_max lba count block_size bytes s ≡ (ok tt, advanced s t)
unfolding write_blocks
write_blocks_by bus usize_max lba count block_size bytes s t g e k = ground arith

pub power_pos : (n : ℕ) → is_power_of_two n ≡ true → 0 < n
unfolding is_power_of_two
power_pos n h = ground arith

pub next_tag-lt : (tag : ℕ) → next_tag tag < 2 ^ 32
unfolding next_tag
next_tag-lt tag = omega arith
