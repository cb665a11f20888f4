-- ===== src/Fs/Operations.antt =====
-- The operations of `Session` on paths in canoe-fs/src/lib.rs.
use canoe_nusb_storage.Common.{
  ℕ, ◌+◌, ◌*◌, ◌==◌, Bool, true, false, not, ◌||◌, List, drop, length, ltb, if◌then◌else◌,
}
use canoe_nusb_storage.Common.Bytes.{bytes_eq, u64_max}
use canoe_nusb_storage.Common.Outcome.{Action, pure, raise, finish, get, raise_if, ◌>>=◌, ◌>>◌}
use canoe_nusb_storage.Fs.Text.{Text, text}
use canoe_nusb_storage.Fs.Guarded.{BlockDevice, Guarded}
use canoe_nusb_storage.Fs.Path.{path}
use canoe_nusb_storage.Fs.Engines.{FatFs, Ext4}
use canoe_nusb_storage.Fs.Session.{
  Session, Entry, Kind, file, on_engine, showing, mutation, mounted_engine, require_writable,
}
use canoe_nusb_storage.Fs.Stat.{stat, require_absent, root}
use canoe_nusb_storage.Fs.Files.{
  fat_read, fat_write, fat_truncate, ext4_create, ext4_mkdir, ext4_read, ext4_write, ext4_truncate,
  ext4_remove,
}

abbrev pub max_file_chunk : ℕ
max_file_chunk = 4 * 1024 * 1024

unfoldable pub is_file : Kind → Bool
is_file file = true
is_file _ = false

module _ {D F X Dir Item File Inode Raw : Type 0} (dev : BlockDevice D)
    (fs : FatFs (F × Guarded D) Dir Item File) (ext : Ext4 (X × Guarded D) Inode Raw) where
  unfoldable pub read : Text → (offset count : ℕ) → Action (Session D F X) Text (List ℕ)
  read value offset count = do
    _ ← finish (path value)
    raise_if (ltb max_file_chunk count) (text "file read exceeds4MiB")
    m ← mounted_engine
    on_engine (fat_read fs value offset count) (ext4_read ext value offset count) m

  unfoldable pub create_file : Text → Action (Session D F X) Text (Unit {0})
  create_file value = do
    _ ← finish (path value)
    require_writable
    raise_if (bytes_eq value root) (text "cannot replace root")
    require_absent fs ext value
    m ← mounted_engine
    mutation (on_engine (fs.create_file (drop 1 value)) (ext4_create ext value) m)

  unfoldable pub write : Text → ℕ → List ℕ → Action (Session D F X) Text (Unit {0})
  write value offset bytes = do
    _ ← finish (path value)
    require_writable
    s ← get
    raise_if
        (ltb max_file_chunk (length bytes)
          || (ltb u64_max (offset + length bytes)
              || ltb (dev.size_bytes s.device.device) (offset + length bytes)))
        (text "invalid file write range")
    entry ← stat fs ext value
    raise_if (not (is_file entry.kind)) (text "not a regular file")
    raise_if (ltb entry.size offset) (text "file write cannot leave a gap")
    mutation (
        mounted_engine
        >>= on_engine (fat_write fs value offset bytes) (ext4_write ext value offset bytes))

  -- What `truncate` does once it has the entry.
  unfoldable pub shrink : Text → ℕ → Entry → Action (Session D F X) Text (Unit {0})
  shrink value count item =
      if not (is_file item.kind) || ltb item.size count
      then raise (text "truncate only shrinks existing regular files")
      else if count == item.size
      then pure tt
      else mutation (
          mounted_engine
          >>= on_engine (fat_truncate fs value count) (ext4_truncate ext value count))

  unfoldable pub truncate : Text → ℕ → Action (Session D F X) Text (Unit {0})
  truncate value count = do
    _ ← finish (path value)
    require_writable
    item ← stat fs ext value
    shrink value count item

  unfoldable pub mkdir : Text → Action (Session D F X) Text (Unit {0})
  mkdir value = do
    _ ← finish (path value)
    require_writable
    require_absent fs ext value
    m ← mounted_engine
    mutation (on_engine (fs.create_dir (drop 1 value)) (ext4_mkdir ext value) m)

  unfoldable pub remove : Text → Action (Session D F X) Text (Unit {0})
  remove value = do
    _ ← finish (path value)
    require_writable
    raise_if (bytes_eq value root) (text "cannot remove root")
    entry ← stat fs ext value
    m ← mounted_engine
    mutation (on_engine (fs.remove (drop 1 value)) (ext4_remove ext entry.kind value) m)

  unfoldable pub rename : (source destination : Text) → Action (Session D F X) Text (Unit {0})
  rename source destination = do
    _ ← finish (path source)
    _ ← finish (path destination)
    require_writable
    raise_if (bytes_eq source root || bytes_eq destination root) (text "cannot rename root")
    _ ← stat fs ext source
    require_absent fs ext destination
    m ← mounted_engine
    mutation (
        on_engine (fs.rename (drop 1 source) (drop 1 destination))
          (showing ext.display (ext.rename source destination false)) m)
