-- ===== src/Range/Refinement.antt =====
-- `read_range` and `write_range` of nusb-scsi/src/range.rs against a conforming device: byte ranges
-- over the device are byte ranges over the list of its bytes.
use mathlib.Core.Path.{subst}
use native.Mathlib.Nat.{le_refl}
use canoe_nusb_storage.Common.{
  ℕ, ◌+◌, ◌*◌, ◌≤◌, ◌≡◌, refl, ap, ◌∙◌, inl, inr, true, false, ◌&&◌, ◌==◌, List, length,
  length-slice, length-splice, slice, splice, arith, Bool-cases,
}
use canoe_nusb_storage.Common.Splice.{slice-slice, splice-splice}
use canoe_nusb_storage.Common.Bytes.{u32_max, u16_max}
use canoe_nusb_storage.Common.Outcome.{ok}
use canoe_nusb_storage.Scsi.Transport.{BulkIo, Scsi, Geometry}
use canoe_nusb_storage.Scsi.Operations.{is_power_of_two, read_blocks, write_blocks}
use canoe_nusb_storage.Scsi.Target.{Target, idle}
use canoe_nusb_storage.Scsi.Target.Steps.{advanced}
use canoe_nusb_storage.Scsi.Target.Blocks.{read_blocks_reads, write_blocks_writes}
use canoe_nusb_storage.Range.{RangeSession, Access, read_write, span, read_range, write_range}
use canoe_nusb_storage.Range.Span.{IsSupported, Covers, span-Covers, mul_mono}
use canoe_nusb_storage.Range.Arms.{read_range_by, write_range_whole, write_range_part}

-- A conforming device of the geometry `g`, and a target whose `usize` has 32 bits at least.
module _ {T : Type 0} (bus : BulkIo T) (usize_max : ℕ) (g : Geometry)
    (target : Target bus g.block_size) (sound : IsSupported g)
    (power : is_power_of_two g.block_size ≡ true) (wide : u32_max ≤ usize_max) where
  -- The session over `scsi`, opened with `access`.
  abbrev pub session : Scsi T → Access → RangeSession T
  session scsi access = record { scsi = scsi; geometry = g; access = access }

  -- The session is usable, and its device is idle and holds the bytes `d`, all of its capacity.
  pub record Stores (scsi : Scsi T) (d : List ℕ) : Type 0 where
    pub live : scsi.usable ≡ true
    pub at : target.At scsi.io d idle
    pub size : length d ≡ g.blocks * g.block_size

  module _ (scsi : Scsi T) (d : List ℕ) (stores : Stores scsi d) (offset n lba blocks skip : ℕ)
      (c : Covers g offset n lba blocks skip) where
    pub inside : (lba + blocks) * g.block_size ≤ length d
    inside = omega (
      arith,
      stores.size,
      mul_mono (lba + blocks) g.block_size g.blocks g.block_size c.inside (le_refl _),
    )

    few : blocks * g.block_size ≤ u32_max
    few = omega (arith, mul_mono blocks g.block_size u16_max 65536 c.few_blocks sound.few_bytes)

    fits : skip + n ≤ blocks * g.block_size
    fits = omega (arith, c.start, c.covered)

    reads :
        (t : T) × (read_blocks bus usize_max lba blocks g.block_size scsi
          ≡ (ok (slice (lba * g.block_size) (blocks * g.block_size) d), advanced scsi t))
        × target.At t d idle
    reads =
        read_blocks_reads bus g.block_size target lba blocks scsi d stores.live stores.at
          c.lba_range (omega (arith, c.few_blocks)) inside usize_max c.some_blocks
          (omega (arith, c.inside, sound.few_blocks)) power few wide

    content : List ℕ
    content = slice (lba * g.block_size) (blocks * g.block_size) d

    length-content : length content ≡ blocks * g.block_size
    unfolding content
    length-content =
        length-slice (lba * g.block_size) (blocks * g.block_size) d (omega (arith, inside))

    content-slice : slice skip n content ≡ slice offset n d
    unfolding content
    content-slice =
        slice-slice (lba * g.block_size) (blocks * g.block_size) skip n d fits
        ∙ ap (λ o. slice o n d) c.start

  -- Over a conforming device of a supported geometry whose block size is a power of two, on a
  -- target whose `usize` has 32 bits at least, where the session is usable, the device is idle and
  -- holds `d`, and the span of the range is granted: `read_range` returns that range of `d`, and
  -- the session again is usable over an idle device that holds `d`.
  pub read_range_reads :
      (scsi : Scsi T) (access : Access) (d : List ℕ) (offset n lba blocks skip : ℕ)
      → Stores scsi d
      → span g offset n ≡ ok (lba, blocks, skip)
      → (scsi' : Scsi T) × (read_range bus usize_max offset n (session scsi access)
          ≡ (ok (slice offset n d), session scsi' access))
        × Stores scsi' d
  unfolding content
  read_range_reads scsi access d offset n lba blocks skip stores e =
      done (reads scsi d stores offset n lba blocks skip c)
    where
      c : Covers g offset n lba blocks skip
      c = span-Covers g offset n sound e

      Goal : Type 0
      Goal =
          (scsi' : Scsi T) × (read_range bus usize_max offset n (session scsi access)
            ≡ (ok (slice offset n d), session scsi' access))
          × Stores scsi' d

      done :
          (t : T) × (read_blocks bus usize_max lba blocks g.block_size scsi
              ≡ (ok (content scsi d stores offset n lba blocks skip c), advanced scsi t))
            × target.At t d idle
          → Goal
      done (t, did, at') = (
        advanced scsi t,
        read_range_by bus usize_max (session scsi access) offset n lba blocks skip _ t e did (
              omega (
                arith,
                length-content scsi d stores offset n lba blocks skip c,
                fits scsi d stores offset n lba blocks skip c,
              ))
            ∙ ap (λ b. (ok b, session (advanced scsi t) access))
                (content-slice scsi d stores offset n lba blocks skip c),
        record { live = refl; at = at'; size = stores.size },
      )

  module _ (scsi : Scsi T) (d : List ℕ) (stores : Stores scsi d) (offset : ℕ) (bytes : List ℕ)
      (lba blocks skip : ℕ) (e : span g offset (length bytes) ≡ ok (lba, blocks, skip)) where
    Written : Type 0
    Written =
        (scsi' : Scsi T) × (write_range bus usize_max offset bytes (session scsi read_write)
          ≡ (ok tt, session scsi' read_write))
        × Stores scsi' (splice offset bytes d)

    cover : Covers g offset (length bytes) lba blocks skip
    cover = span-Covers g offset (length bytes) sound e

    size' : length (splice offset bytes d) ≡ g.blocks * g.block_size
    size' =
        length-splice offset bytes d (
          omega (
            arith,
            inside scsi d stores offset (length bytes) lba blocks skip cover,
            cover.covered,
          ))
        ∙ stores.size

    -- What `write_blocks` does to a session that stores `d`.
    writes :
        (now : Scsi T)
        → Stores now d
        → (sectors : List ℕ) → length sectors ≡ blocks * g.block_size
        → (t : T) × (write_blocks bus usize_max lba blocks g.block_size sectors now
            ≡ (ok tt, advanced now t))
          × target.At t (splice (lba * g.block_size) sectors d) idle
    writes now store =
        write_blocks_writes bus g.block_size target lba blocks now d store.live store.at
          cover.lba_range (omega (arith, cover.few_blocks))
          (inside scsi d stores offset (length bytes) lba blocks skip cover) usize_max
          cover.some_blocks (omega (arith, cover.inside, sound.few_blocks)) power
          (few scsi d stores offset (length bytes) lba blocks skip cover) wide

    written_whole : skip ≡ 0 → length bytes ≡ blocks * g.block_size → Written
    unfolding Written
    written_whole aligned whole = done (writes scsi stores bytes whole)
      where
        done :
            (t : T) × (write_blocks bus usize_max lba blocks g.block_size bytes scsi
                ≡ (ok tt, advanced scsi t))
              × target.At t (splice (lba * g.block_size) bytes d) idle
            → Written
        done (t, did, at') = (
          advanced scsi t,
          write_range_whole bus usize_max (session scsi read_write) offset lba blocks bytes t refl
              (rw aligned at e) whole did,
          record {
            live = refl;
            at = subst (λ o. target.At t (splice o bytes d) idle) (omega (arith, cover.start)) at';
            size = size';
          },
        )

    written_part : ((skip == 0) && (blocks * g.block_size == length bytes)) ≡ false → Written
    unfolding Written content
    written_part part = have (reads scsi d stores offset (length bytes) lba blocks skip cover)
      where
        sectors : List ℕ
        sectors = content scsi d stores offset (length bytes) lba blocks skip cover

        whole : length sectors ≡ blocks * g.block_size
        whole = length-content scsi d stores offset (length bytes) lba blocks skip cover

        room : skip + length bytes ≤ blocks * g.block_size
        room = fits scsi d stores offset (length bytes) lba blocks skip cover

        same : splice (lba * g.block_size) (splice skip bytes sectors) d ≡ splice offset bytes d
        same =
            splice-splice (lba * g.block_size) (blocks * g.block_size) skip bytes d room
              (omega (arith, inside scsi d stores offset (length bytes) lba blocks skip cover))
            ∙ ap (λ o. splice o bytes d) cover.start

        done :
            (t t' : T)
            → read_blocks bus usize_max lba blocks g.block_size scsi ≡ (ok sectors, advanced scsi t)
            → write_blocks bus usize_max lba blocks g.block_size
                (splice skip bytes sectors)
                (advanced scsi t)
              ≡ (ok tt, advanced (advanced scsi t) t')
            → target.At t' (splice (lba * g.block_size) (splice skip bytes sectors) d) idle
            → Written
        done t t' got put at' = (
          advanced (advanced scsi t) t',
          write_range_part bus usize_max (session scsi read_write) offset lba blocks skip bytes
              sectors t t' refl e part got (omega (arith, whole, room)) put,
          record { live = refl; at = subst (λ b. target.At t' b idle) same at'; size = size' },
        )

        have :
            (t : T) × (read_blocks bus usize_max lba blocks g.block_size scsi
                ≡ (ok sectors, advanced scsi t))
              × target.At t d idle
            → Written
        have (t, got, at') = put (
            writes (advanced scsi t) (record { live = refl; at = at'; size = stores.size })
              (splice skip bytes sectors)
              (length-splice skip bytes sectors (omega (arith, whole, room)) ∙ whole))
          where
            put :
                (t' : T) × (write_blocks bus usize_max lba blocks g.block_size
                      (splice skip bytes sectors)
                      (advanced scsi t)
                    ≡ (ok tt, advanced (advanced scsi t) t'))
                  × target.At t' (splice (lba * g.block_size) (splice skip bytes sectors) d) idle
                → Written
            put (t', stored, at'') = done t t' got stored at''

  -- Over a conforming device of a supported geometry whose block size is a power of two, on a
  -- target whose `usize` has 32 bits at least, where the session is usable, the device is idle and
  -- holds `d`, and the span of the range is granted: `write_range` on a session opened for writing
  -- succeeds, and leaves a usable session over an idle device that holds `d` with exactly that
  -- range replaced by the bytes, also where the range is not whole blocks.
  pub write_range_writes :
      (scsi : Scsi T) (d : List ℕ) (offset : ℕ) (bytes : List ℕ) (lba blocks skip : ℕ)
      → Stores scsi d
      → span g offset (length bytes) ≡ ok (lba, blocks, skip)
      → (scsi' : Scsi T) × (write_range bus usize_max offset bytes (session scsi read_write)
          ≡ (ok tt, session scsi' read_write))
        × Stores scsi' (splice offset bytes d)
  unfolding Written
  write_range_writes scsi d offset bytes lba blocks skip stores e =
      elim (Bool-cases ((skip == 0) && (blocks * g.block_size == length bytes))) [
        | inl whole ↦
            written_whole scsi d stores offset bytes lba blocks skip e (ground arith) (ground arith)
        | inr part ↦ written_part scsi d stores offset bytes lba blocks skip e part
      ]
