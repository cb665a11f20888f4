-- ===== src/Range.antt =====
-- nusb-scsi/src/range.rs: bounded byte ranges over a SCSI session. `usize_max` is the largest
-- `usize` of the target, 32 bits wide at least.
pub mod Span
pub mod Safety
pub mod Arms
pub mod Requests
pub mod Refinement
pub mod Roundtrip
pub mod Reopening
use canoe_nusb_storage.Common.{
  ℕ, ◌+◌, ◌-◌, ◌*◌, ◌/◌, ◌%◌, ◌^◌, ◌==◌, Bool, true, false, not, ◌&&◌, ◌||◌, List, length, slice?,
  splice?, ltb, leb, if◌then◌else◌,
}
use canoe_nusb_storage.Common.Bytes.{u16_max, u32_max, u64_max}
use canoe_nusb_storage.Common.Outcome.{
  Outcome, ok, err, Action, pure, raise, finish, get, raise_if, or_panic, ◌>>=◌, ◌>>◌,
}
use canoe_nusb_storage.Scsi.Error.{Error, protocol}
use canoe_nusb_storage.Scsi.Transport.{BulkIo, Scsi, Geometry}
use canoe_nusb_storage.Scsi.Transport
use canoe_nusb_storage.Scsi.Operations

abbrev pub max_range_bytes : ℕ
max_range_bytes = 4 * 1024 * 1024

pub data Access : Type 0 where
  read_only read_write : Access

abbrev pub is_read_write : Access → Bool
is_read_write read_only = false
is_read_write read_write = true

pub record RangeSession (T : Type 0) : Type 0 where
  pub scsi : Scsi T
  pub geometry : Geometry
  pub access : Access

-- `RangeSession::is_usable`
abbrev pub is_usable : {T : Type 0} → RangeSession T → Bool
is_usable s = Transport.is_usable s.scsi

-- `RangeSession::into_inner`
abbrev pub into_inner : {T : Type 0} → RangeSession T → Scsi T
into_inner s = s.scsi

-- `u64::div_ceil`
unfoldable pub div_ceil : ℕ → ℕ → ℕ
div_ceil a b = if ltb 0 (a % b) then a / b + 1 else a / b

-- `self.geometry.blocks * u64::from(self.geometry.block_size)`
unfoldable pub size_bytes : Geometry → ℕ
size_bytes g = g.blocks * g.block_size

-- `span`: the first block, the number of blocks, and the bytes to skip in the first.
unfoldable pub span : Geometry → ℕ → ℕ → Outcome Error (ℕ × ℕ × ℕ)
unfolding size_bytes
span g offset count =
    if (count == 0) || ltb max_range_bytes count
    then err (protocol "range length must be 1 byte through 4 MiB")
    else if ltb u64_max (offset + count) || ltb (size_bytes g) (offset + count)
    then err (protocol "range lies outside managed storage")
    else (let first = offset / g.block_size in
        let last = div_ceil (offset + count) g.block_size in
        if ltb u16_max (last - first)
        then err (protocol "range exceeds READ/WRITE(10) block count")
        else ok (first % 2 ^ 32, last - first, offset % g.block_size))

-- A call of `self.scsi`.
abbrev pub on_scsi : {T A : Type 0} → Action (Scsi T) Error A → Action (RangeSession T) Error A
on_scsi m s = let (r, scsi') = m s.scsi in (r, record s { scsi = scsi' })

module _ {T : Type 0} (bus : BulkIo T) (usize_max : ℕ) where
  unfoldable pub connect : Access → Action (Scsi T) Error (RangeSession T)
  connect access = do
    Operations.initialize_ready bus
    geometry ← Operations.geometry bus
    raise_if
        ((geometry.blocks == 0) || (ltb u32_max geometry.blocks || ltb 65536 geometry.block_size))
        (protocol "unsupported managed storage geometry")
    scsi ← get
    pure (record { scsi = scsi; geometry = geometry; access = access })

  unfoldable pub read_range : ℕ → ℕ → Action (RangeSession T) Error (List ℕ)
  read_range offset count = do
    s ← get
    (lba, blocks, skip) ← finish (span s.geometry offset count)
    bytes ← on_scsi (Operations.read_blocks bus usize_max lba blocks s.geometry.block_size)
    or_panic (slice? skip count bytes)

  -- Read, modify, write: the arm of `write_range` for a range that is not whole blocks.
  unfoldable pub rewrite_blocks :
      (lba blocks block_size skip : ℕ) → List ℕ → Action (Scsi T) Error (Unit {0})
  rewrite_blocks lba blocks block_size skip bytes = do
    sectors ← Operations.read_blocks bus usize_max lba blocks block_size
    sectors' ← or_panic (splice? skip bytes sectors)
    Operations.write_blocks bus usize_max lba blocks block_size sectors'

  unfoldable pub write_range : ℕ → List ℕ → Action (RangeSession T) Error (Unit {0})
  write_range offset bytes = do
    s ← get
    raise_if (not (is_read_write s.access)) (protocol "managed storage was opened read-only")
    (lba, blocks, skip) ← finish (span s.geometry offset (length bytes))
    on_scsi (
        if (skip == 0) && (blocks * s.geometry.block_size == length bytes)
        then Operations.write_blocks bus usize_max lba blocks s.geometry.block_size bytes
        else rewrite_blocks lba blocks s.geometry.block_size skip bytes)

  unfoldable pub sync : Action (RangeSession T) Error (Unit {0})
  sync = on_scsi (Operations.flush bus)

  unfoldable pub eject : Action (RangeSession T) Error (Unit {0})
  eject = on_scsi (Operations.eject bus)
