-- ===== src/Managed/Refinement.antt =====
-- `readRange` and `writeRange` of canoe-usb-web/src/managed.rs over a conforming device: any sequence
-- of calls reads and writes one list of bytes.
use canoe_nusb_storage.Common.{
  ℕ, ◌≤◌, ◌≡◌, refl, ap, true, none, some, List, [], ◌∷◌, length, slice, splice, arith,
}
use canoe_nusb_storage.Common.Bytes.{u32_max}
use canoe_nusb_storage.Common.Outcome.{ok, Action, pure, ◌>>=◌, ◌>>◌}
use canoe_nusb_storage.Scsi.Transport.{BulkIo, Scsi, Geometry}
use canoe_nusb_storage.Scsi.Operations.{is_power_of_two}
use canoe_nusb_storage.Scsi.Target.{Target}
use canoe_nusb_storage.Range
use canoe_nusb_storage.Range.{span, read_write}
use canoe_nusb_storage.Range.Span.{IsSupported, span-Covers}
use canoe_nusb_storage.Range.Refinement.{session, Stores, read_range_reads, write_range_writes}
use canoe_nusb_storage.Web.Browser.{Browser, Failure}
use canoe_nusb_storage.Managed
use canoe_nusb_storage.Managed.{ManagedStorageSession, take, bounded, finish}

pub data Call : Type 0 where
  reads : (offset count : ℕ) → Call
  writes : (offset : ℕ) → List ℕ → Call

-- What the calls answer, and what they leave, where the storage is the list `d` of its bytes.
unfoldable pub answers : List Call → List ℕ → List (List ℕ)
answers [] d = []
answers (reads offset count ∷ calls) d = slice offset count d ∷ answers calls d
answers (writes offset bytes ∷ calls) d = answers calls (splice offset bytes d)

unfoldable pub contents : List Call → List ℕ → List ℕ
contents [] d = d
contents (reads offset count ∷ calls) d = contents calls d
contents (writes offset bytes ∷ calls) d = contents calls (splice offset bytes d)

-- The span of every range is granted.
abbrev pub IsGranted : Geometry → ℕ → ℕ → Type 0
IsGranted g offset count = (lba blocks skip : ℕ) × (span g offset count ≡ ok (lba, blocks, skip))

abbrev pub AreGranted : Geometry → List Call → Type 0
AreGranted g [] = Unit {0}
AreGranted g (reads offset count ∷ calls) = IsGranted g offset count × AreGranted g calls
AreGranted g (writes offset bytes ∷ calls) = IsGranted g offset (length bytes) × AreGranted g calls

module _ {T W I : Type 0} (browser : Browser W I) (handle : T → W) (bus : BulkIo T)
    (usize_max : ℕ) where
  -- The calls one after the other, with the answers of those that read.
  unfoldable pub run : List Call → Action (ManagedStorageSession T W I) Failure (List (List ℕ))
  run [] = pure []
  run (reads offset count ∷ calls) = do
    bytes ← Managed.read_range browser handle bus usize_max offset count
    rest ← run calls
    pure (bytes ∷ rest)
  run (writes offset bytes ∷ calls) = do
    Managed.write_range browser handle bus usize_max offset bytes
    run calls

  module _ (g : Geometry) (target : Target bus g.block_size) (sound : IsSupported g)
      (power : is_power_of_two g.block_size ≡ true) (wide : u32_max ≤ usize_max) where
    -- The session `s` with a client over `scsi`.
    abbrev pub over : ManagedStorageSession T W I → Scsi T → ManagedStorageSession T W I
    over s scsi = record s {
      client = some (session bus usize_max g target sound power wide scsi s.access);
    }

    abbrev pub Holds : Scsi T → List ℕ → Type 0
    Holds = Stores bus usize_max g target sound power wide

    reads_at :
        (s : ManagedStorageSession T W I) (scsi scsi' : Scsi T) (offset count : ℕ) (bytes : List ℕ)
        → Range.read_range bus usize_max offset count
            (session bus usize_max g target sound power wide scsi s.access)
          ≡ (ok bytes, session bus usize_max g target sound power wide scsi' s.access)
        → Managed.read_range browser handle bus usize_max offset count (over s scsi)
          ≡ (ok bytes, over s scsi')
    unfolding Managed.read_range bounded take finish
    reads_at s scsi scsi' offset count bytes e =
        ap (λ ended. finish browser handle ended.1 ended.0 (record s { client = none })) e

    writes_at :
        (s : ManagedStorageSession T W I) (scsi scsi' : Scsi T) (offset : ℕ) (bytes : List ℕ)
        → s.access ≡ read_write
        → IsGranted g offset (length bytes)
        → Range.write_range bus usize_max offset bytes
            (session bus usize_max g target sound power wide scsi s.access)
          ≡ (ok tt, session bus usize_max g target sound power wide scsi' s.access)
        → Managed.write_range browser handle bus usize_max offset bytes (over s scsi)
          ≡ (ok tt, over s scsi')
    unfolding Managed.write_range bounded take finish
    writes_at s scsi scsi' offset bytes rights (lba, blocks, skip, granted) e =
        let covers = span-Covers g offset (length bytes) sound granted in
        let ends =
          ap (λ ended. finish browser handle ended.1 ended.0 (record s { client = none })) e in
        ground (arith, covers.some_bytes, covers.few_bytes, ends)

    -- Over a conforming device of a supported geometry whose block size is a power of two, on a
    -- target whose `usize` has 32 bits at least, where the session was opened for writing, its
    -- client is usable, and the device is idle and holds the bytes `d`: any sequence of `readRange`
    -- and `writeRange` calls, whose spans are all granted, succeeds, answers what the same reads
    -- and writes of the list `d` answer, and leaves the session with a usable client over an idle
    -- device that holds what those writes leave of `d`.
    pub run_serves :
        (calls : List Call) (s : ManagedStorageSession T W I) (scsi : Scsi T) (d : List ℕ)
        → s.access ≡ read_write
        → Holds scsi d
        → AreGranted g calls
        → (scsi' : Scsi T) × (run calls (over s scsi) ≡ (ok (answers calls d), over s scsi'))
          × Holds scsi' (contents calls d)
    unfolding run answers contents
    run_serves [] s scsi d rights holds granted = (scsi, refl, holds)
    run_serves (reads offset count ∷ calls) s scsi d rights holds
          ((lba, blocks, skip, e), granted) =
        let (now, read, held) =
          read_range_reads bus usize_max g target sound power wide scsi s.access d offset count lba
            blocks skip holds e in
        let (later, rest, held') = run_serves calls s now d rights held granted in
        (
          later,
          ground (arith, reads_at s scsi now offset count (slice offset count d) read, rest),
          held',
        )
    run_serves (writes offset bytes ∷ calls) s scsi d rights holds
          ((lba, blocks, skip, e), granted) =
        let (now, written, held) =
          write_range_writes bus usize_max g target sound power wide scsi d offset bytes lba blocks
            skip holds e in
        let (later, rest, held') =
          run_serves calls s now (splice offset bytes d) rights held granted in
        (
          later,
          ground (
            arith,
            writes_at s scsi now offset bytes rights (lba, blocks, skip, e) (rw rights written),
            rest,
          ),
          held',
        )
