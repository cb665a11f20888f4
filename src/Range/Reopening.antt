-- ===== src/Range/Reopening.antt =====
-- A session of nusb-scsi/src/range.rs that is opened, written, synced and opened again, over a
-- conforming device that is ready.
use canoe_nusb_storage.Common.{ℕ, ◌*◌, ◌≤◌, ◌≡◌, refl, ap, ◌∙◌, true, List, length, splice, arith}
use canoe_nusb_storage.Common.Bytes.{u32_max}
use canoe_nusb_storage.Common.Outcome.{ok}
use canoe_nusb_storage.Scsi.Transport.{BulkIo, Scsi, Geometry, new, new-first}
use canoe_nusb_storage.Scsi.Transport
use canoe_nusb_storage.Scsi.Operations.{is_power_of_two, initialize_ready, geometry}
use canoe_nusb_storage.Scsi.Target.{Target, idle}
use canoe_nusb_storage.Scsi.Target.Steps.{advanced}
use canoe_nusb_storage.Scsi.Target.Answers.{
  Answers, initialize_ready_answers, geometry_answers, flush_answers,
}
use canoe_nusb_storage.Range.{
  RangeSession, Access, read_only, read_write, span, connect, read_range, write_range, sync,
  into_inner,
}
use canoe_nusb_storage.Range.Span.{IsSupported}
use canoe_nusb_storage.Range.Refinement.{session, Stores, read_range_reads, write_range_writes}
use canoe_nusb_storage.Range.Roundtrip.{slice-written}

module _ {T : Type 0} (bus : BulkIo T) (usize_max : ℕ) (g : Geometry)
    (target : Target bus g.block_size) (sound : IsSupported g)
    (power : is_power_of_two g.block_size ≡ true) (wide : u32_max ≤ usize_max)
    (answers : Answers bus g target) where
  abbrev opened : Scsi T → Access → RangeSession T
  opened = session bus usize_max g target sound power wide

  abbrev Holds : Scsi T → List ℕ → Type 0
  Holds = Stores bus usize_max g target sound power wide

  connect_by :
      (access : Access) (s s1 s2 : Scsi T)
      → initialize_ready bus s ≡ (ok tt, s1)
      → geometry bus s1 ≡ (ok g, s2)
      → connect bus usize_max access s ≡ (ok (opened s2 access), s2)
  unfolding connect
  connect_by access s s1 s2 e f =
      grind (arith, e, f, sound.some_blocks, sound.few_blocks, sound.few_bytes)

  -- `connect` opens a session of the device's geometry.
  pub connect_opens :
      (access : Access) (s : Scsi T) (d : List ℕ)
      → Holds s d
      → (s' : Scsi T) × (connect bus usize_max access s ≡ (ok (opened s' access), s')) × Holds s' d
  connect_opens access s d h =
      let (t1, e1, at1) = initialize_ready_answers bus g target answers s d h.live h.at in
      let s1 : Scsi T = advanced s t1 in
      let (t2, e2, at2) =
        geometry_answers bus g target answers s1 d refl at1 sound.some_blocks sound.few_blocks
          (omega (arith, sound.few_bytes)) power in
      (
        advanced s1 t2,
        connect_by access s s1 (advanced s1 t2) e1 e2,
        record { live = refl; at = at2; size = h.size },
      )

  -- `sync` succeeds, and the device holds what it held.
  pub sync_serves :
      (access : Access) (s : Scsi T) (d : List ℕ)
      → Holds s d
      → (s' : Scsi T) × (sync bus usize_max (opened s access) ≡ (ok tt, opened s' access))
        × Holds s' d
  unfolding sync
  sync_serves access s d h =
      let (t, e, at) = flush_answers bus g target answers s d h.live h.at in
      (advanced s t, ground (arith, e), record { live = refl; at = at; size = h.size })

  -- Over a conforming device of a supported geometry whose block size is a power of two, which is
  -- ready, idle and holds `d`, on a target whose `usize` has 32 bits at least, and for a range whose
  -- span is granted: a session is opened for writing, writes the range and syncs, the transport is
  -- taken back and opened once more, read-only, and the read of that range returns the bytes that
  -- were written. Every call succeeds, and the device holds `d` with that range replaced.
  pub reopened_reads :
      (t : T) (d : List ℕ) (offset : ℕ) (bytes : List ℕ) (lba blocks skip : ℕ)
      → target.At t d idle
      → length d ≡ g.blocks * g.block_size
      → span g offset (length bytes) ≡ ok (lba, blocks, skip)
      → (first wrote stored synced next again read : Scsi T) × (new bus t 0 ≡ ok first)
        × (connect bus usize_max read_write first ≡ (ok (opened wrote read_write), wrote))
        × (write_range bus usize_max offset bytes (opened wrote read_write)
            ≡ (ok tt, opened stored read_write))
        × (sync bus usize_max (opened stored read_write) ≡ (ok tt, opened synced read_write))
        × (new bus (Transport.into_inner (into_inner (opened synced read_write))) 0 ≡ ok next)
        × (connect bus usize_max read_only next ≡ (ok (opened again read_only), again))
        × (read_range bus usize_max offset (length bytes) (opened again read_only)
            ≡ (ok bytes, opened read read_only))
        × Holds read (splice offset bytes d)
  reopened_reads t d offset bytes lba blocks skip at size e =
      let first : Scsi T = record { io = t; tag = 0; lun = 0; usable = true } in
      let h0 : Holds first d = record { live = refl; at = at; size = size } in
      let (s1, e1, h1) = connect_opens read_write first d h0 in
      let (s2, e2, h2) =
        write_range_writes bus usize_max g target sound power wide s1 d offset bytes lba blocks skip
          h1 e in
      let (s3, e3, h3) = sync_serves read_write s2 (splice offset bytes d) h2 in
      let next : Scsi T = record { io = s3.io; tag = 0; lun = 0; usable = true } in
      let h4 : Holds next (splice offset bytes d) = record {
        live = refl;
        at = h3.at;
        size = h3.size;
      } in
      let (s5, e5, h5) = connect_opens read_only next (splice offset bytes d) h4 in
      let (s6, e6, h6) =
        read_range_reads bus usize_max g target sound power wide s5 read_only
          (splice offset bytes d) offset (length bytes) lba blocks skip h5 e in
      let same =
        slice-written bus usize_max g target sound power wide s1 d offset bytes lba blocks skip h1
          e in
      (
        first,
        s1,
        s2,
        s3,
        next,
        s5,
        s6,
        new-first bus t,
        e1,
        e2,
        e3,
        new-first bus s3.io,
        e5,
        e6 ∙ ap (λ b. (ok b, opened s6 read_only)) same,
        h6,
      )
