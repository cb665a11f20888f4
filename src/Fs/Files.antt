-- ===== src/Fs/Files.antt =====
-- The arms of the operations of `Session` in canoe-fs/src/lib.rs, one for each file system.
use canoe_nusb_storage.Common.{
  ℕ, zero, suc, ◌-◌, ◌==◌, Bool, true, false, not, List, [], ◌++◌, drop, length, is_empty, ltb,
  if◌then◌else◌,
}
use canoe_nusb_storage.Common.Outcome.{stuck, Action, pure, finish, raise_if, ◌>>=◌, ◌>>◌}
use canoe_nusb_storage.Fs.Text.{Text, text}
use canoe_nusb_storage.Fs.Engines.{FatFs, Ext4}
use canoe_nusb_storage.Fs.Session.{Kind, directory, showing}
use canoe_nusb_storage.Fs.Stat.{ext_inode, inherit_label}

unfoldable pub is_directory : Kind → Bool
is_directory directory = true
is_directory _ = false

module _ {W Dir Item File : Type 0} (fs : FatFs W Dir Item File) where
  -- The loop of `read`; as many rounds as bytes are asked for are enough.
  unfoldable pub read_all : ℕ → ℕ → List ℕ → File → Action W Text (List ℕ)
  read_all zero count got handle = if ltb (length got) count then finish stuck else pure got
  read_all (suc fuel) count got handle =
      if ltb (length got) count
      then (do
        (bytes, handle') ← fs.read (count - length got) handle
        let rest = read_all fuel count (got ++ bytes) handle'
        (if is_empty bytes then pure got else rest))
      else pure got

  abbrev pub fat_read : Text → (offset count : ℕ) → Action W Text (List ℕ)
  fat_read value offset count = do
    opened ← fs.open_file (drop 1 value)
    handle ← fs.seek_start offset opened
    read_all count count [] handle

  abbrev pub fat_write : Text → ℕ → List ℕ → Action W Text (Unit {0})
  fat_write value offset bytes = do
    opened ← fs.open_file (drop 1 value)
    handle ← fs.seek_start offset opened
    written ← fs.write_all bytes handle
    fs.flush_file written

  abbrev pub fat_truncate : Text → ℕ → Action W Text (Unit {0})
  fat_truncate value count = do
    opened ← fs.open_file (drop 1 value)
    handle ← fs.seek_start count opened
    fs.truncate_file handle

module _ {W Inode Raw : Type 0} (ext : Ext4 W Inode Raw) where
  abbrev pub ext4_create : Text → Action W Text (Unit {0})
  ext4_create value = showing ext.display (ext.create value 0o600 >> inherit_label ext value)

  abbrev pub ext4_mkdir : Text → Action W Text (Unit {0})
  ext4_mkdir value = showing ext.display (ext.mkdir value 0o700 >> inherit_label ext value)

  abbrev pub ext4_read : Text → (offset count : ℕ) → Action W Text (List ℕ)
  ext4_read value offset count = do
    (ino, inode, raw) ← showing ext.display (ext_inode ext value)
    raise_if (not (ext.is_file inode)) (text "not a regular file")
    showing ext.display (ext.read_file ino inode raw offset count)

  abbrev pub ext4_write : Text → ℕ → List ℕ → Action W Text (Unit {0})
  ext4_write value offset bytes = do
    (_, inode, _) ← showing ext.display (ext_inode ext value)
    raise_if (not (ext.links_count inode == 1)) (text "writing multiply linked files is refused")
    showing ext.display (ext.pwrite value offset bytes)

  abbrev pub ext4_truncate : Text → ℕ → Action W Text (Unit {0})
  ext4_truncate value count = do
    (ino, inode, _) ← showing ext.display (ext_inode ext value)
    raise_if (not (ext.links_count inode == 1)) (text "truncating multiply linked files is refused")
    showing ext.display (ext.truncate_shrink ino count)

  abbrev pub ext4_remove : Kind → Text → Action W Text (Unit {0})
  ext4_remove kind value =
      if is_directory kind
      then showing ext.display (ext.rmdir value)
      else showing ext.display (ext.unlink value)
