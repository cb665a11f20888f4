-- ===== src/Scsi/Target.antt =====
-- The device behind the transport, which is no code of this repository: what the Bulk-Only
-- Transport and the SCSI block commands document of READ(10) and WRITE(10), as laws that a
-- transport may satisfy. nusb-scsi/src/lib.rs relies on them.
pub mod Transfers
pub mod Steps
pub mod Blocks
pub mod Answers
use canoe_nusb_storage.Common.{
  ℕ, ◌+◌, ◌-◌, ◌*◌, ◌≤◌, ◌<◌, ◌≡◌, List, [], ◌∷◌, ◌++◌, some, length, slice, splice, get_or, take,
  drop,
}
use canoe_nusb_storage.Common.Bytes.{u32_to_le, u32_from_le, u32_from_be?}
use canoe_nusb_storage.Scsi.Transport.{BulkIo, completed}
use canoe_nusb_storage.Scsi.Wire.{cbw_signature, csw_signature}

-- A command block wrapper for READ(10) or WRITE(10), by the offsets of the two standards.
pub record IsWrapper (msg : List ℕ) (tag total direction operation lba count : ℕ) : Type 0 where
  pub size : length msg ≡ 31
  pub signature : slice 0 4 msg ≡ cbw_signature
  pub tagged : u32_from_le (slice 4 4 msg) ≡ tag
  pub totalled : u32_from_le (slice 8 4 msg) ≡ total
  pub directed : get_or msg 12 0 ≡ direction
  pub cdb_size : get_or msg 14 0 ≡ 10
  pub operated : get_or msg 15 0 ≡ operation
  pub addressed : u32_from_be? (slice 17 4 msg) ≡ some lba
  pub counted : 256 * get_or msg 22 0 + get_or msg 23 0 ≡ count

-- Between commands; while bytes are left to send to the host; while bytes for the range from
-- `start` on arrive from it.
pub data Phase : Type 0 where
  idle : Phase
  sending : (tag : ℕ) → List ℕ → Phase
  receiving : (tag start total : ℕ) → List ℕ → Phase

-- The status wrapper of a command that was carried out in full.
abbrev pub good_status : ℕ → List ℕ
good_status tag = csw_signature ++ (u32_to_le tag ++ (u32_to_le 0 ++ (0 ∷ [])))

-- `At t d p`: the device in the state `t` holds the bytes `d`, and is in the phase `p`.
pub record Target {T : Type 0} (bus : BulkIo T) (block_size : ℕ) : Type 1 where
  pub At : T → List ℕ → Phase → Type 0
  pub starts_reading :
      (t : T) (d msg : List ℕ) (tag lba count : ℕ)
      → At t d idle
      → IsWrapper msg tag (count * block_size) 0x80 0x28 lba count
      → (lba + count) * block_size ≤ length d
      → (t' : T) × (bus.write t msg ≡ (completed 31, t'))
        × At t' d (sending tag (slice (lba * block_size) (count * block_size) d))
  -- At least one byte and at most as many as were asked for.
  pub sends :
      (t : T) (d : List ℕ) (tag : ℕ) (rest : List ℕ) (n : ℕ)
      → At t d (sending tag rest)
      → 0 < length rest
      → 0 < n
      → (k : ℕ) × (t' : T) × (0 < k)
        × (k ≤ n)
        × (k ≤ length rest)
        × (bus.read t n ≡ (completed (take k rest), t'))
        × At t' d (sending tag (drop k rest))
  pub ends_reading :
      (t : T) (d : List ℕ) (tag : ℕ)
      → At t d (sending tag [])
      → (t' : T) × (bus.read t 13 ≡ (completed (good_status tag), t')) × At t' d idle
  pub starts_writing :
      (t : T) (d msg : List ℕ) (tag lba count : ℕ)
      → At t d idle
      → IsWrapper msg tag (count * block_size) 0 0x2a lba count
      → (lba + count) * block_size ≤ length d
      → (t' : T) × (bus.write t msg ≡ (completed 31, t'))
        × At t' d (receiving tag (lba * block_size) (count * block_size) [])
  pub receives :
      (t : T) (d : List ℕ) (tag start total : ℕ) (sofar chunk : List ℕ)
      → At t d (receiving tag start total sofar)
      → 0 < length chunk
      → length sofar + length chunk ≤ total
      → (t' : T) × (bus.write t chunk ≡ (completed (length chunk), t'))
        × At t' d (receiving tag start total (sofar ++ chunk))
  pub ends_writing :
      (t : T) (d : List ℕ) (tag start total : ℕ) (bytes : List ℕ)
      → At t d (receiving tag start total bytes)
      → length bytes ≡ total
      → (t' : T) × (bus.read t 13 ≡ (completed (good_status tag), t'))
        × At t' (splice start bytes d) idle
