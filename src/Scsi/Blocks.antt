-- ===== src/Scsi/Blocks.antt =====
-- Block commands of nusb-scsi/src/lib.rs: `block_command`, `read_blocks`, `write_blocks` and
-- `geometry`, over every transport.
use canoe_nusb_storage.Common.{
  ℕ, ◌+◌, ◌*◌, ◌^◌, ◌≤◌, ◌<◌, ◌≡◌, refl, true, false, some, List, [], ◌∷◌, length, slice, take,
  drop, get_or, length-take, length-drop, arith,
}
use canoe_nusb_storage.Common.Bytes.{u32_to_be, u16_to_be, u32_from_be?}
use canoe_nusb_storage.Common.Outcome.{ok}
use canoe_nusb_storage.Common.Ends.{Ends}
use canoe_nusb_storage.Scsi.Transport.{BulkIo, Scsi}
use canoe_nusb_storage.Scsi.Command.{next_tag}
use canoe_nusb_storage.Scsi.Retirement.{command-Ends, Returned, Refused, Abandoned}
use canoe_nusb_storage.Scsi.Operations.{
  block_command, is_power_of_two, geometry, read_blocks, write_blocks,
}

pub mul_pos : (a b : ℕ) → 0 < a → 0 < b → 0 < a * b
mul_pos a b h k = grind arith

-- Where `block_command` grants a first block below 2^32 and a count below 2^16, its command block
-- has ten bytes, the operation first, the block number in bytes 2 to 5 and the count in bytes 7 and
-- 8, most significant byte first; the length is that of the blocks, is positive, and a `usize`
-- holds it; and the blocks end at 2^32 at most.
pub block_command_fields :
    (usize_max op lba count block_size : ℕ) {cdb : List ℕ} {n : ℕ}
    → lba < 2 ^ 32
    → count < 2 ^ 16
    → block_command usize_max op lba count block_size ≡ ok (cdb, n)
    → (length cdb ≡ 10)
      × (get_or cdb 0 0 ≡ op)
      × (u32_from_be? (slice 2 4 cdb) ≡ some lba)
      × (256 * get_or cdb 7 0 + get_or cdb 8 0 ≡ count)
      × (n ≡ count * block_size)
      × (n ≤ usize_max)
      × (0 < n)
      × (lba + count ≤ 2 ^ 32)
unfolding block_command u32_to_be u16_to_be u32_from_be?
block_command_fields usize_max op lba count block_size l c h =
    ground (arith, mul_pos count block_size)

four_bytes : (bytes : List ℕ) → length bytes ≡ 4 → (n : ℕ) × (u32_from_be? bytes ≡ some n)
unfolding u32_from_be?
four_bytes [] h = absurd (omega arith)
four_bytes (a ∷ []) h = absurd (omega arith)
four_bytes (a ∷ b ∷ []) h = absurd (omega arith)
four_bytes (a ∷ b ∷ c ∷ []) h = absurd (omega arith)
four_bytes (a ∷ b ∷ c ∷ d ∷ []) h = (_, refl)
four_bytes (a ∷ b ∷ c ∷ d ∷ e ∷ r) h = absurd (omega arith)

capacity :
    (bytes : List ℕ)
    → length bytes ≡ 8
    → (last : ℕ) × (size : ℕ) × (u32_from_be? (take 4 bytes) ≡ some last)
      × (u32_from_be? (drop 4 bytes) ≡ some size)
capacity bytes h =
    let (last, e) = four_bytes (take 4 bytes) (omega (arith, length-take 4 bytes)) in
    let (size, f) = four_bytes (drop 4 bytes) (omega (arith, length-drop 4 bytes)) in
    (last, size, e, f)

module _ {T : Type 0} (bus : BulkIo T) where
  -- On any reply, `geometry` ends without a panic. A geometry that it returns has at least one
  -- block, and a block size that is positive and a power of two; the session was usable and is
  -- usable, under the next tag. The LUN is the same after a result and after an error; where the
  -- future is dropped, the session is unusable.
  pub geometry-Ends :
      (s : Scsi T)
      → Ends
          (λ g s'.
            (0 < g.blocks)
            × (0 < g.block_size)
            × (is_power_of_two g.block_size ≡ true)
            × (s.usable ≡ true)
            × (s'.usable ≡ true)
            × (s'.tag ≡ next_tag s.tag)
            × (s'.lun ≡ s.lun))
          (λ _ s'. s'.lun ≡ s.lun)
          (λ s'. s'.usable ≡ false)
          (geometry bus s)
  unfolding geometry
  geometry-Ends s = grind (arith, command-Ends, capacity)

  -- `read_blocks` ends without a panic. The data that it returns has the length of the blocks, and
  -- then the session was usable and is usable again under the next tag. Where it fails, either the
  -- session is the same as before, or it was usable, has the next tag, and is unusable unless the
  -- error is `CommandFailed`. Where the future is dropped, the session is unusable.
  pub read_blocks-Ends :
      (usize_max lba count block_size : ℕ) (s : Scsi T)
      → Ends
          (Returned s (count * block_size))
          (Refused s (Unit {0}))
          (Abandoned s)
          (read_blocks bus usize_max lba count block_size s)
  unfolding read_blocks block_command
  read_blocks-Ends usize_max lba count block_size s = grind (arith, command-Ends)

  pub write_blocks-Ends :
      (usize_max lba count block_size : ℕ) (bytes : List ℕ) (s : Scsi T)
      → Ends
          (λ _ s'.
            (s.usable ≡ true)
            × (length bytes ≡ count * block_size)
            × (s'.usable ≡ true)
            × (s'.tag ≡ next_tag s.tag)
            × (s'.lun ≡ s.lun))
          (Refused s (Unit {0}))
          (Abandoned s)
          (write_blocks bus usize_max lba count block_size bytes s)
  unfolding write_blocks block_command
  write_blocks-Ends usize_max lba count block_size bytes s = grind (arith, command-Ends)
