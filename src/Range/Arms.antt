-- ===== src/Range/Arms.antt =====
-- `read_range` and `write_range` of nusb-scsi/src/range.rs, by what their block reads and writes do.
use canoe_nusb_storage.Common.{
  ℕ, ◌+◌, ◌*◌, ◌≤◌, ◌≡◌, false, ◌&&◌, ◌==◌, List, length, slice, splice, arith,
}
use canoe_nusb_storage.Common.Outcome.{ok}
use canoe_nusb_storage.Scsi.Transport.{BulkIo}
use canoe_nusb_storage.Scsi.Operations.{read_blocks, write_blocks}
use canoe_nusb_storage.Scsi.Target.Steps.{advanced}
use canoe_nusb_storage.Range.{
  RangeSession, read_write, span, read_range, rewrite_blocks, write_range,
}

module _ {T : Type 0} (bus : BulkIo T) (usize_max : ℕ) where
  pub read_range_by :
      (s : RangeSession T) (offset n lba blocks skip : ℕ) (sectors : List ℕ) (t : T)
      → span s.geometry offset n ≡ ok (lba, blocks, skip)
      → read_blocks bus usize_max lba blocks s.geometry.block_size s.scsi
        ≡ (ok sectors, advanced s.scsi t)
      → skip + n ≤ length sectors
      → read_range bus usize_max offset n s
        ≡ (ok (slice skip n sectors), record s { scsi = advanced s.scsi t })
  unfolding read_range
  read_range_by s offset n lba blocks skip sectors t e f h = ground arith

  pub write_range_whole :
      (s : RangeSession T) (offset lba blocks : ℕ) (bytes : List ℕ) (t : T)
      → s.access ≡ read_write
      → span s.geometry offset (length bytes) ≡ ok (lba, blocks, 0)
      → length bytes ≡ blocks * s.geometry.block_size
      → write_blocks bus usize_max lba blocks s.geometry.block_size bytes s.scsi
        ≡ (ok tt, advanced s.scsi t)
      → write_range bus usize_max offset bytes s ≡ (ok tt, record s { scsi = advanced s.scsi t })
  unfolding write_range
  write_range_whole s offset lba blocks bytes t rights e f k = ground arith

  pub write_range_part :
      (s : RangeSession T) (offset lba blocks skip : ℕ) (bytes sectors : List ℕ) (t t' : T)
      → s.access ≡ read_write
      → span s.geometry offset (length bytes) ≡ ok (lba, blocks, skip)
      → ((skip == 0) && (blocks * s.geometry.block_size == length bytes)) ≡ false
      → read_blocks bus usize_max lba blocks s.geometry.block_size s.scsi
        ≡ (ok sectors, advanced s.scsi t)
      → skip + length bytes ≤ length sectors
      → write_blocks bus usize_max lba blocks s.geometry.block_size
          (splice skip bytes sectors)
          (advanced s.scsi t)
        ≡ (ok tt, advanced (advanced s.scsi t) t')
      → write_range bus usize_max offset bytes s
        ≡ (ok tt, record s { scsi = advanced (advanced s.scsi t) t' })
  unfolding write_range rewrite_blocks
  write_range_part s offset lba blocks skip bytes sectors t t' rights e part f h k = ground arith
