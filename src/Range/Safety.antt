-- ===== src/Range/Safety.antt =====
-- `RangeSession` of nusb-scsi/src/range.rs over every transport: what its calls return, and when
-- they touch the device.
use canoe_nusb_storage.Common.{
  ℕ, ◌+◌, ◌*◌, ◌≤◌, ◌≡◌, ◌⊎◌, inl, inr, true, false, List, length, length-slice, length-splice,
  arith,
}
use canoe_nusb_storage.Common.Outcome.{err}
use canoe_nusb_storage.Common.Ends.{Ends}
use canoe_nusb_storage.Scsi.Error.{protocol, command_failed}
use canoe_nusb_storage.Scsi.Transport.{BulkIo, Scsi, Geometry}
use canoe_nusb_storage.Scsi.Blocks.{read_blocks-Ends, write_blocks-Ends, geometry-Ends}
use canoe_nusb_storage.Scsi.Readiness.{initialize_ready-Ends}
use canoe_nusb_storage.Range.{
  RangeSession, Access, read_only, read_write, size_bytes, connect, read_range, rewrite_blocks,
  write_range,
}
use canoe_nusb_storage.Range.Span.{IsSupported, Covers, span-Covers, span-IsResult, mul_mono}
use native.Mathlib.Nat.{le_refl}

module _ {T : Type 0} (bus : BulkIo T) (usize_max : ℕ) where
  Covers-fits :
      (g : Geometry) (offset n lba blocks skip : ℕ)
      → Covers g offset n lba blocks skip
      → skip + n ≤ blocks * g.block_size
  Covers-fits g offset n lba blocks skip c = omega (arith, c.start, c.covered)

  Covers-size :
      (g : Geometry) (offset n lba blocks skip : ℕ)
      → Covers g offset n lba blocks skip
      → offset + n ≤ size_bytes g
  unfolding size_bytes
  Covers-size g offset n lba blocks skip c = omega (
    arith,
    c.covered,
    mul_mono (lba + blocks) g.block_size g.blocks g.block_size c.inside (le_refl _),
  )

  -- Over a supported geometry, `read_range` ends without a panic. The data that it returns has the
  -- requested length, the range lies inside the storage, and the session is usable. Where it fails,
  -- the session is the same as before, or unusable, or the error is `CommandFailed`; where the
  -- future is dropped, it is unusable. The geometry and the access never change.
  pub read_range-Ends :
      (s : RangeSession T) (offset n : ℕ)
      → IsSupported s.geometry
      → Ends
          (λ d s'.
            (length d ≡ n)
            × (offset + n ≤ size_bytes s.geometry)
            × (s'.scsi.usable ≡ true)
            × (s'.geometry ≡ s.geometry)
            × (s'.access ≡ s.access))
          (λ e s'.
            ((s' ≡ s) ⊎ ((s'.scsi.usable ≡ false) ⊎ (e ≡ command_failed)))
            × (s'.geometry ≡ s.geometry)
            × (s'.access ≡ s.access))
          (λ s'. (s'.scsi.usable ≡ false) × (s'.geometry ≡ s.geometry) × (s'.access ≡ s.access))
          (read_range bus usize_max offset n s)
  unfolding read_range
  read_range-Ends s offset n sound = elim (span-IsResult s.geometry offset n) [
    | inl ((lba, blocks, skip), e) ↦
        let c = span-Covers s.geometry offset n sound e in
        let fits = Covers-fits s.geometry offset n lba blocks skip c in
        let inside = Covers-size s.geometry offset n lba blocks skip c in
        rw e (
          grind (
            arith,
            length-slice,
            read_blocks-Ends bus usize_max lba blocks s.geometry.block_size s.scsi,
          ))
    | inr (e, f) ↦ rw f (ground arith)
  ]

  -- `write_range` on a session that was opened read-only is refused, whatever its range: nothing of
  -- the session changes, its transport included.
  pub write_range-read_only :
      (s : RangeSession T) (offset : ℕ) (bytes : List ℕ)
      → s.access ≡ read_only
      → write_range bus usize_max offset bytes s
        ≡ (err (protocol "managed storage was opened read-only"), s)
  unfolding write_range
  write_range-read_only s offset bytes h = rw h

  rewrite_blocks-Ends :
      (lba blocks block_size skip : ℕ) (bytes : List ℕ) (s : Scsi T)
      → skip + length bytes ≤ blocks * block_size
      → Ends
          (λ _ s'. (s'.usable ≡ true) × (s.usable ≡ true))
          (λ _ _. Unit {0})
          (λ s'. s'.usable ≡ false)
          (rewrite_blocks bus usize_max lba blocks block_size skip bytes s)
  unfolding rewrite_blocks
  rewrite_blocks-Ends lba blocks block_size skip bytes s fits = grind (
    arith,
    read_blocks-Ends bus usize_max lba blocks block_size s,
    write_blocks-Ends,
    length-splice,
  )

  -- `connect` ends without a panic. A session that it opens has a supported geometry (1 to 2^32 - 1
  -- blocks, of 1 to 65536 bytes), the access that was asked for, and the SCSI session that the
  -- connection leaves, which is usable and has the same LUN.
  pub connect-IsSupported :
      (access : Access) (s : Scsi T)
      → Ends
          (λ r s'.
            IsSupported r.geometry
            × (r.access ≡ access)
            × (r.scsi ≡ s')
            × (s'.usable ≡ true)
            × (s'.lun ≡ s.lun))
          (λ _ _. Unit {0})
          (λ _. Unit {0})
          (connect bus usize_max access s)
  unfolding connect
  connect-IsSupported access s = grind (arith, initialize_ready-Ends bus s, geometry-Ends)

  -- Over a supported geometry, `write_range` ends without a panic. Where it succeeds, the range
  -- lies inside the storage, the session was opened for writing, and it is usable. Where the future
  -- is dropped, it is unusable. The geometry and the access never change.
  pub write_range-Ends :
      (s : RangeSession T) (offset : ℕ) (bytes : List ℕ)
      → IsSupported s.geometry
      → Ends
          (λ _ s'.
            (offset + length bytes ≤ size_bytes s.geometry)
            × (s.access ≡ read_write)
            × (s'.scsi.usable ≡ true)
            × (s'.geometry ≡ s.geometry)
            × (s'.access ≡ s.access))
          (λ _ s'. (s'.geometry ≡ s.geometry) × (s'.access ≡ s.access))
          (λ s'. (s'.scsi.usable ≡ false) × (s'.geometry ≡ s.geometry) × (s'.access ≡ s.access))
          (write_range bus usize_max offset bytes s)
  unfolding write_range
  write_range-Ends s offset bytes sound = elim (span-IsResult s.geometry offset (length bytes)) [
    | inl ((lba, blocks, skip), e) ↦
        let c = span-Covers s.geometry offset (length bytes) sound e in
        let fits = Covers-fits s.geometry offset (length bytes) lba blocks skip c in
        let inside = Covers-size s.geometry offset (length bytes) lba blocks skip c in
        rw e (
          ground (
            arith,
            rewrite_blocks-Ends lba blocks s.geometry.block_size skip bytes s.scsi fits,
            write_blocks-Ends bus usize_max lba blocks s.geometry.block_size bytes s.scsi,
          ))
    | inr (e, f) ↦ rw f (ground arith)
  ]
