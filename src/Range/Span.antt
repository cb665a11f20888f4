-- ===== src/Range/Span.antt =====
-- `RangeSession::span` of nusb-scsi/src/range.rs: which blocks cover a byte range.
use canoe_nusb_storage.Common.{ℕ, suc, ◌+◌, ◌-◌, ◌*◌, ◌/◌, ◌%◌, ◌^◌, ◌≤◌, ◌<◌, ◌≡◌, arith}
use canoe_nusb_storage.Common.Bytes.{u16_max, u32_max}
use canoe_nusb_storage.Common.Outcome.{ok, IsResult, IsResult-cases}
use canoe_nusb_storage.Scsi.Transport.{Geometry}
use canoe_nusb_storage.Range.{div_ceil, size_bytes, span, max_range_bytes}

-- What `connect` admits.
pub record IsSupported (g : Geometry) : Type 0 where
  pub some_blocks : 0 < g.blocks
  pub few_blocks : g.blocks ≤ u32_max
  pub some_bytes : 0 < g.block_size
  pub few_bytes : g.block_size ≤ 65536

div_ceil_bounds : (a b : ℕ) → 0 < b → (a ≤ div_ceil a b * b) × (div_ceil a b * b < a + b)
unfolding div_ceil
div_ceil_bounds a b h = grind arith

lt_of_mul : (a b c : ℕ) → a * c < b * c → a < b
lt_of_mul a b c h = grind arith

pub mul_mono : (a b c d : ℕ) → a ≤ c → b ≤ d → a * b ≤ c * d
mul_mono a b c d h k = grind arith

div-mul : (a b : ℕ) → 0 < b → (a / b * b + a % b ≡ a) × (a % b < b)
div-mul a b h = grind arith

-- The blocks `first .. first + blocks` are the fewest that cover the bytes `offset .. offset + n`.
pub record Covers (g : Geometry) (offset n lba blocks skip : ℕ) : Type 0 where
  pub start : lba * g.block_size + skip ≡ offset
  pub skip_short : skip < g.block_size
  pub covered : offset + n ≤ (lba + blocks) * g.block_size
  pub tight : (lba + blocks) * g.block_size < offset + n + g.block_size
  pub inside : lba + blocks ≤ g.blocks
  pub some_blocks : 0 < blocks
  pub few_blocks : blocks ≤ u16_max
  pub lba_range : lba < 2 ^ 32
  pub some_bytes : 0 < n
  pub few_bytes : n ≤ max_range_bytes

module _ (g : Geometry) (sound : IsSupported g) (offset n : ℕ)
    (fits : offset + n ≤ g.blocks * g.block_size) (some : 0 < n) where
  first-lt : offset / g.block_size < g.blocks
  first-lt =
      lt_of_mul _ _ g.block_size (omega (arith, div-mul offset g.block_size sound.some_bytes))

  last-le : div_ceil (offset + n) g.block_size ≤ g.blocks
  last-le = omega (
    arith,
    lt_of_mul (div_ceil (offset + n) g.block_size) (suc g.blocks) g.block_size
        (omega (arith, div_ceil_bounds (offset + n) g.block_size sound.some_bytes)),
  )

  first-lt-last : offset / g.block_size < div_ceil (offset + n) g.block_size
  first-lt-last = lt_of_mul _ _ g.block_size (
      omega (
        arith,
        div-mul offset g.block_size sound.some_bytes,
        div_ceil_bounds (offset + n) g.block_size sound.some_bytes,
      ))

  -- `first as u32` loses nothing.
  first_mod : offset / g.block_size % 2 ^ 32 ≡ offset / g.block_size
  first_mod = omega (arith, first-lt, sound.few_blocks)

  granted-Covers :
      div_ceil (offset + n) g.block_size - offset / g.block_size ≤ u16_max
      → n ≤ max_range_bytes
      → Covers g offset n
          (offset / g.block_size % 2 ^ 32)
          (div_ceil (offset + n) g.block_size - offset / g.block_size)
          (offset % g.block_size)
  granted-Covers few max = rw first_mod (record {
    start = (div-mul offset g.block_size sound.some_bytes).0;
    skip_short = (div-mul offset g.block_size sound.some_bytes).1;
    covered = rw last (div_ceil_bounds (offset + n) g.block_size sound.some_bytes).0;
    tight = rw last (div_ceil_bounds (offset + n) g.block_size sound.some_bytes).1;
    inside = rw last last-le;
    some_blocks = omega (arith, first-lt-last);
    few_blocks = few;
    lba_range = omega (arith, first-lt, sound.few_blocks);
    some_bytes = some;
    few_bytes = max;
  })
    where
      last :
          offset / g.block_size + (div_ceil (offset + n) g.block_size - offset / g.block_size)
          ≡ div_ceil (offset + n) g.block_size
      last = omega (arith, first-lt-last)

few_blocks :
    (g : Geometry)
    → IsSupported g
    → (offset n : ℕ) → 128 ≤ g.block_size
    → n ≤ max_range_bytes
    → div_ceil (offset + n) g.block_size - offset / g.block_size ≤ u16_max
few_blocks g sound offset n large max = omega (
  arith,
  lt_of_mul (div_ceil (offset + n) g.block_size) (offset / g.block_size + 65536) g.block_size (
      omega (
        arith,
        div-mul offset g.block_size sound.some_bytes,
        div_ceil_bounds (offset + n) g.block_size sound.some_bytes,
      )),
)

-- What the guards of `span` leave.
span-granted :
    (g : Geometry) (offset n : ℕ) {lba blocks skip : ℕ}
    → span g offset n ≡ ok (lba, blocks, skip)
    → (offset + n ≤ g.blocks * g.block_size)
      × (0 < n)
      × (n ≤ max_range_bytes)
      × (div_ceil (offset + n) g.block_size - offset / g.block_size ≤ u16_max)
      × (offset / g.block_size % 2 ^ 32 ≡ lba)
      × (div_ceil (offset + n) g.block_size - offset / g.block_size ≡ blocks)
      × (offset % g.block_size ≡ skip)
unfolding span size_bytes
span-granted g offset n h = ground arith

-- Over a supported geometry, a span that is granted covers the range with no block to spare: its
-- first block and the bytes skipped there add up to the offset, fewer bytes than a block are
-- skipped, and the range ends in the last block. The blocks lie inside the storage, there are 1 to
-- 65535 of them, the first is below 2^32, and the range has 1 byte to 4 MiB.
pub span-Covers :
    (g : Geometry) (offset n : ℕ) {lba blocks skip : ℕ}
    → IsSupported g
    → span g offset n ≡ ok (lba, blocks, skip)
    → Covers g offset n lba blocks skip
span-Covers g offset n sound h =
    let (fits, some, max, few, e, f, k) = span-granted g offset n h in
    rw (← e, ← f, ← k) (granted-Covers g sound offset n fits some few max)

-- The size of a supported geometry is below 2^49, so that its product cannot overflow 64 bits.
pub size_bytes-lt : (g : Geometry) → IsSupported g → size_bytes g < 2 ^ 49
unfolding size_bytes
size_bytes-lt g sound =
    omega (arith, mul_mono g.blocks g.block_size u32_max 65536 sound.few_blocks sound.few_bytes)

-- Over a supported geometry with blocks of 128 bytes or more, every range of 1 byte to 4 MiB inside
-- the storage is granted, with the quotients and the remainder of its ends by the block size.
pub span_accepts :
    (g : Geometry) (offset n : ℕ)
    → IsSupported g
    → 128 ≤ g.block_size
    → 0 < n
    → n ≤ max_range_bytes
    → offset + n ≤ size_bytes g
    → span g offset n
      ≡ ok (
        offset / g.block_size,
        div_ceil (offset + n) g.block_size - offset / g.block_size,
        offset % g.block_size,
      )
unfolding span
span_accepts g offset n sound large some max fits = ground (
  arith,
  size_bytes-lt g sound,
  few_blocks g sound offset n large max,
  first_mod g sound offset n (unfold size_bytes in fits) some,
)

pub span-IsResult : (g : Geometry) (offset n : ℕ) → IsResult (span g offset n)
unfolding span
span-IsResult g offset n =
    IsResult-cases (span g offset n) (ground arith) (ground arith) (ground arith)
