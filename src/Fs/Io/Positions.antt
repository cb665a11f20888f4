-- ===== src/Fs/Io/Positions.antt =====
-- The position of `Io` of canoe-fs/src/lib.rs.
use canoe_nusb_storage.Common.{ℕ, ◌+◌, ◌-◌, ◌*◌, ◌%◌, ◌^◌, ◌≤◌, ◌<◌, ◌≡◌, ◌⊎◌, arith}
use canoe_nusb_storage.Common.Bytes.{u32_max}
use canoe_nusb_storage.Common.Ends.{Ends}
use canoe_nusb_storage.Fs.Guarded.{BlockDevice}
use canoe_nusb_storage.Fs.Io.{
  Io, ℤ, pos, negsuc, SeekFrom, start, current, end, offset_by, target, seek, read,
}

nothing :
    (size position k : ℕ) → size ≡ position + k * 2 ^ 32 → (size - position) % (u32_max + 1) ≡ 0
nothing size position k h = omega arith

module _ {D : Type 0} (dev : BlockDevice D) where
  -- The position `n` is the base moved by `k`.
  abbrev pub Moved : ℕ → ℤ → ℕ → Type 0
  Moved base (pos k) n = n ≡ base + k
  Moved base (negsuc k) n = n + (k + 1) ≡ base

  -- The base moved by `k` is negative, or above the size of the device.
  abbrev pub Outside : (size base : ℕ) → ℤ → Type 0
  Outside size base (pos k) = size < base + k
  Outside size base (negsuc k) = (base < k + 1) ⊎ (size + (k + 1) < base)

  abbrev pub Sought : SeekFrom → Io D → ℕ → Type 0
  Sought (start m) s n = n ≡ m
  Sought (current k) s n = Moved s.position k n
  Sought (end k) s n = Moved (dev.size_bytes s.device.device) k n

  abbrev pub Missed : SeekFrom → Io D → Type 0
  Missed (start m) s = dev.size_bytes s.device.device < m
  Missed (current k) s = Outside (dev.size_bytes s.device.device) s.position k
  Missed (end k) s = Outside (dev.size_bytes s.device.device) (dev.size_bytes s.device.device) k

  -- `seek` ends with a result or an error. A result is the position sought (counted from the start,
  -- moved from the current position, or moved from the size of the device), the size of the device
  -- at most, and only the position changes, to the result. On an error nothing changes, and the
  -- position sought is negative or above the size of the device.
  pub seek-Ends :
      (from : SeekFrom) (s : Io D)
      → Ends
          (λ n s'.
            (n ≤ dev.size_bytes s.device.device)
            × Sought from s n
            × (s' ≡ record s { position = n }))
          (λ _ s'. (s' ≡ s) × Missed from s)
          (λ _. ⊥)
          (seek dev from s)
  unfolding seek target offset_by
  seek-Ends (start m) s = grind arith
  seek-Ends (current (pos k)) s = grind arith
  seek-Ends (current (negsuc k)) s = grind arith
  seek-Ends (end (pos k)) s = grind arith
  seek-Ends (end (negsuc k)) s = grind arith

  -- On a 32-bit target, a `read` at a multiple of 2^32 bytes before the end of the device is the
  -- same as a `read` of no bytes, whatever the length of its buffer.
  pub read-short :
      (s : Io D) (count k : ℕ)
      → dev.size_bytes s.device.device ≡ s.position + k * 2 ^ 32
      → read dev u32_max count s ≡ read dev u32_max 0 s
  unfolding read
  read-short s count k h =
      rw (nothing (dev.size_bytes s.device.device) s.position k h) (grind arith)
