-- ===== src/Range/Roundtrip.antt =====
-- A range that `write_range` of nusb-scsi/src/range.rs wrote is what `read_range` then returns.
use canoe_nusb_storage.Common.{ℕ, ◌≤◌, ◌≡◌, ap, ◌∙◌, true, List, length, slice, splice, arith}
use canoe_nusb_storage.Common.Splice.{slice-splice}
use canoe_nusb_storage.Common.Bytes.{u32_max}
use canoe_nusb_storage.Common.Outcome.{ok}
use canoe_nusb_storage.Scsi.Transport.{BulkIo, Scsi, Geometry}
use canoe_nusb_storage.Scsi.Operations.{is_power_of_two}
use canoe_nusb_storage.Scsi.Target.{Target}
use canoe_nusb_storage.Range.{RangeSession, Access, read_write, span, read_range, write_range}
use canoe_nusb_storage.Range.Span.{IsSupported, span-Covers}
use canoe_nusb_storage.Range.Refinement.{
  session, Stores, inside, read_range_reads, write_range_writes,
}

module _ {T : Type 0} (bus : BulkIo T) (usize_max : ℕ) (g : Geometry)
    (target : Target bus g.block_size) (sound : IsSupported g)
    (power : is_power_of_two g.block_size ≡ true) (wide : u32_max ≤ usize_max) where
  abbrev opened : Scsi T → Access → RangeSession T
  opened = session bus usize_max g target sound power wide

  abbrev Holds : Scsi T → List ℕ → Type 0
  Holds = Stores bus usize_max g target sound power wide

  pub slice-written :
      (scsi : Scsi T) (d : List ℕ) (offset : ℕ) (bytes : List ℕ) (lba blocks skip : ℕ)
      → Holds scsi d
      → span g offset (length bytes) ≡ ok (lba, blocks, skip)
      → slice offset (length bytes) (splice offset bytes d) ≡ bytes
  slice-written scsi d offset bytes lba blocks skip stores e =
      let c = span-Covers g offset (length bytes) sound e in
      slice-splice offset bytes d (
        omega (
          arith,
          inside bus usize_max g target sound power wide scsi d stores offset (length bytes) lba
              blocks skip c,
          c.covered,
        ))

  -- Over a conforming device of a supported geometry whose block size is a power of two, on a
  -- target whose `usize` has 32 bits at least, where the session is usable, the device is idle and
  -- holds `d`, and the span of the range is granted: `write_range` on a session opened for writing
  -- succeeds, and `read_range` of the same range then returns the bytes that were written.
  pub read_range-write_range :
      (scsi : Scsi T) (d : List ℕ) (offset : ℕ) (bytes : List ℕ) (lba blocks skip : ℕ)
      → Holds scsi d
      → span g offset (length bytes) ≡ ok (lba, blocks, skip)
      → (now later : Scsi T) × (write_range bus usize_max offset bytes (opened scsi read_write)
          ≡ (ok tt, opened now read_write))
        × (read_range bus usize_max offset (length bytes) (opened now read_write)
            ≡ (ok bytes, opened later read_write))
  read_range-write_range scsi d offset bytes lba blocks skip stores e = after_write (
      write_range_writes bus usize_max g target sound power wide scsi d offset bytes lba blocks skip
        stores e)
    where
      Goal : Type 0
      Goal =
          (now later : Scsi T) × (write_range bus usize_max offset bytes (opened scsi read_write)
            ≡ (ok tt, opened now read_write))
          × (read_range bus usize_max offset (length bytes) (opened now read_write)
              ≡ (ok bytes, opened later read_write))

      after_read :
          (now : Scsi T)
          → write_range bus usize_max offset bytes (opened scsi read_write)
            ≡ (ok tt, opened now read_write)
          → (later : Scsi T) × (read_range bus usize_max offset
                (length bytes)
                (opened now read_write)
              ≡ (ok (slice offset (length bytes) (splice offset bytes d)), opened later read_write))
            × Holds later (splice offset bytes d)
          → Goal
      after_read now wrote (later, read, _) = (
        now,
        later,
        wrote,
        read
            ∙ ap (λ b. (ok b, opened later read_write))
                (slice-written scsi d offset bytes lba blocks skip stores e),
      )

      after_write :
          (now : Scsi T) × (write_range bus usize_max offset bytes (opened scsi read_write)
              ≡ (ok tt, opened now read_write))
            × Holds now (splice offset bytes d)
          → Goal
      after_write (now, wrote, stores') = after_read now wrote (
          read_range_reads bus usize_max g target sound power wide now read_write
            (splice offset bytes d) offset (length bytes) lba blocks skip stores' e)
