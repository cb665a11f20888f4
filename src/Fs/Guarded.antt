-- ===== src/Fs/Guarded.antt =====
-- `Guarded` of canoe-fs/src/lib.rs: the block device that the file systems see.
use canoe_nusb_storage.Common.{ℕ, ◌+◌, Bool, true, not, ◌||◌, List, length, ltb, String}
use canoe_nusb_storage.Common.Bytes.{u64_max}
use canoe_nusb_storage.Common.Outcome.{
  Outcome, ok, err, dropped, panicked, stuck, Action, get, raise_if, ◌>>=◌, ◌>>◌,
}

-- `fs_ext4::Error`, as far as the code names its variants.
pub data FsError : Type 0 where
  out_of_bounds read_only : FsError
  io unsupported : String → FsError
  other : ℕ → FsError

-- The trait `BlockDevice`; `D` is the state of the device. `read_at` returns the bytes with which it
-- fills a buffer of the given length.
pub record BlockDevice (D : Type 0) : Type 0 where
  pub size_bytes : D → ℕ
  pub is_writable : D → Bool
  pub read_at : (offset count : ℕ) → Action D FsError (List ℕ)
  pub write_at : (offset : ℕ) → List ℕ → Action D FsError (Unit {0})
  pub flush : Action D FsError (Unit {0})

pub record Guarded (D : Type 0) : Type 0 where
  pub device : D
  pub writable : Bool
  pub retired : Bool

abbrev pub retire : {D : Type 0} → Guarded D → Guarded D
retire g = record g { retired = true }

-- How a call of `self.device` ends, as a value.
abbrev pub on_device :
    {D A : Type 0} → Action D FsError A → Action (Guarded D) FsError (Outcome FsError A)
on_device m g = let (r, d) = m g.device in (ok r, record g { device = d })

unfoldable pub complete : {D A : Type 0} → Outcome FsError A → Action (Guarded D) FsError A
complete (err e) g = (err e, retire g)
complete (ok a) g = (ok a, g)
complete dropped g = (dropped, g)
complete panicked g = (panicked, g)
complete stuck g = (stuck, g)

module _ {D : Type 0} (dev : BlockDevice D) where
  unfoldable pub check : (offset count : ℕ) → Action (Guarded D) FsError (Unit {0})
  check offset count = do
    g ← get
    raise_if g.retired (io "filesystem device retired")
    raise_if (ltb u64_max (offset + count) || ltb (dev.size_bytes g.device) (offset + count))
        out_of_bounds

  unfoldable pub read_at : (offset count : ℕ) → Action (Guarded D) FsError (List ℕ)
  unfolding complete
  read_at offset count = do check offset count; r ← on_device (dev.read_at offset count); complete r

  unfoldable pub write_at : (offset : ℕ) → List ℕ → Action (Guarded D) FsError (Unit {0})
  unfolding complete
  write_at offset bytes = do
    check offset (length bytes)
    g ← get
    raise_if (not g.writable) read_only
    r ← on_device (dev.write_at offset bytes)
    complete r

  unfoldable pub flush : Action (Guarded D) FsError (Unit {0})
  unfolding complete
  flush = do check 0 0; r ← on_device dev.flush; complete r
