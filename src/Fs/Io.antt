-- ===== src/Fs/Io.antt =====
-- `Io` of canoe-fs/src/lib.rs: the stream that the FAT file system reads, writes and seeks.
-- `usize_max` is the largest `usize` of the target.
pub mod Positions
use canoe_nusb_storage.Common.{
  ℕ, zero, suc, ◌+◌, ◌-◌, ◌%◌, ◌≤◌, ◌<◌, ◌≡◌, min, Bool, true, false, List, [], length, ltb,
  if◌then◌else◌, arith, String,
}
use canoe_nusb_storage.Common.Outcome.{
  Outcome, ok, err, Action, pure, raise, get, modify, ◌>>=◌, ◌>>◌,
}
use canoe_nusb_storage.Fs.Guarded.{BlockDevice, Guarded, FsError, io}
use canoe_nusb_storage.Fs.Guarded

-- Rust's `i64` and `i128`.
pub data ℤ : Type 0 where
  pos negsuc : ℕ → ℤ

-- `i128::from(n) + i128::from(k)`
unfoldable pub offset_by : ℕ → ℤ → ℤ
offset_by n (pos k) = pos (n + k)
offset_by n (negsuc k) = if ltb k n then pos (n - (k + 1)) else negsuc (k - n)

pub data SeekFrom : Type 0 where
  start : ℕ → SeekFrom
  current end : ℤ → SeekFrom

-- `device` is shared with the session in the source; it is one value here, which calls pass on.
pub record Io (D : Type 0) : Type 0 where
  pub device : Guarded D
  pub position : ℕ

abbrev pub on_guarded : {D A : Type 0} → Action (Guarded D) FsError A → Action (Io D) FsError A
on_guarded m s = let (r, g) = m s.device in (r, record s { device = g })

module _ {D : Type 0} (dev : BlockDevice D) where
  -- `(size - position) as usize` keeps the low bits.
  unfoldable pub read : (usize_max count : ℕ) → Action (Io D) FsError (List ℕ)
  read usize_max count = do
    s ← get
    let available = (dev.size_bytes s.device.device - s.position) % (usize_max + 1)
    bytes ← on_guarded (Guarded.read_at dev s.position (min count available))
    modify (λ r. record r { position = r.position + min count available })
    pure bytes

  unfoldable pub write : List ℕ → Action (Io D) FsError ℕ
  write bytes = do
    s ← get
    on_guarded (Guarded.write_at dev s.position bytes)
    modify (λ r. record r { position = r.position + length bytes })
    pure (length bytes)

  unfoldable pub target : SeekFrom → Io D → ℤ
  target (start n) s = pos n
  target (current k) s = offset_by s.position k
  target (end k) s = offset_by (dev.size_bytes s.device.device) k

  -- The test and the assignment of `seek`.
  abbrev pub settle : ℤ → Action (Io D) FsError ℕ
  settle (negsuc k) s = (err (io "seek outside filesystem device"), s)
  settle (pos n) s =
      if ltb (dev.size_bytes s.device.device) n
      then (err (io "seek outside filesystem device"), s)
      else (ok n, record s { position = n })

  unfoldable pub seek : SeekFrom → Action (Io D) FsError ℕ
  seek from s = settle (target from s) s
