-- ===== src/Fs/Engines.antt =====
-- The file systems that canoe-fs/src/lib.rs calls, as parameters: fatfs (by way of nusb-fatfs) and
-- fs_ext4 (with nusb-ext4's `finish`). `W` is the file system's own state with the guarded device, which
-- a call may use as often as it likes.
use canoe_nusb_storage.Common.{ℕ, Bool, Option, List, ◌⊎◌}
use canoe_nusb_storage.Common.Outcome.{Action}
use canoe_nusb_storage.Fs.Text.{Text}
use canoe_nusb_storage.Fs.Guarded.{FsError}

-- `FileSystemStats`
pub record FatStats : Type 0 where
  pub cluster_size : ℕ
  pub total_clusters : ℕ
  pub free_clusters : ℕ

-- An entry of an ext4 directory block.
pub record DirEntry : Type 0 where
  pub name : List ℕ
  pub inode : ℕ

pub record Features : Type 0 where
  pub compat : ℕ
  pub incompat : ℕ
  pub ro_compat : ℕ

-- The fields of `superblock::Superblock` and of the journal's that `inspect` reports.
pub record Superblock : Type 0 where
  pub state : ℕ
  pub block_size : ℕ
  pub blocks_count : ℕ
  pub free_blocks_count : ℕ
  pub r_blocks_count : ℕ
  pub free_inodes_count : ℕ
  pub uuid : List ℕ
  pub features : Features
  pub last_orphan : ℕ

pub record Journal : Type 0 where
  pub start : ℕ
  pub sequence : ℕ
  pub errno : ℕ
  pub features : Features

-- fatfs. `Dir`, `Item` and `File` are its directory iterators, directory entries and open files; the
-- errors are texts already (`map_err(error)`). `upper` is `str::to_uppercase`.
pub record FatFs (W Dir Item File : Type 0) : Type 0 where
  pub root_dir : W → Dir
  pub open_dir : Text → Action W Text Dir
  pub next : Dir → Action W Text (Option ((Text ⊎ Item) × Dir))
  pub file_name : Item → Text
  pub short_file_name : Item → Text
  pub is_dir : Item → Bool
  pub item_len : Item → ℕ
  pub open_file : Text → Action W Text File
  pub seek_start : ℕ → File → Action W Text File
  pub read : ℕ → File → Action W Text (List ℕ × File)
  pub write_all : List ℕ → File → Action W Text File
  pub flush_file : File → Action W Text (Unit {0})
  pub truncate_file : File → Action W Text (Unit {0})
  pub create_file : Text → Action W Text (Unit {0})
  pub create_dir : Text → Action W Text (Unit {0})
  pub remove : Text → Action W Text (Unit {0})
  pub rename : Text → Text → Action W Text (Unit {0})
  pub flush : Action W Text (Unit {0})
  pub unmount : Action W Text (Unit {0})
  pub upper : Text → Text
  pub stats : Action W Text FatStats
  pub dirty : Action W Text Bool

-- fs_ext4. `lookup` is `path::lookup_with_csum`; `get_label` and `set_label` are `get_resolved` and
-- `apply_setxattr` for "security.selinux"; `display` is the `Display` of its errors.
-- `parse_block` is `dir::parse_block_verified`, `from_utf8` that of `String`, with its error as a text.
pub record Ext4 (W Inode Raw : Type 0) : Type 0 where
  pub finish : Action W FsError (Unit {0})
  pub lookup : Text → Action W FsError ℕ
  pub read_inode : ℕ → Action W FsError (Inode × Raw)
  pub is_symlink : Inode → Bool
  pub is_dir : Inode → Bool
  pub is_file : Inode → Bool
  pub size : Inode → ℕ
  pub generation : Inode → ℕ
  pub links_count : Inode → ℕ
  pub get_label : Inode → Raw → Action W FsError (Option (List ℕ))
  pub set_label : Text → List ℕ → Action W FsError (Unit {0})
  pub read_file : ℕ → Inode → Raw → (offset count : ℕ) → Action W FsError (List ℕ)
  pub create : Text → ℕ → Action W FsError (Unit {0})
  pub pwrite : Text → ℕ → List ℕ → Action W FsError (Unit {0})
  pub truncate_shrink : ℕ → ℕ → Action W FsError (Unit {0})
  pub mkdir : Text → ℕ → Action W FsError (Unit {0})
  pub rmdir : Text → Action W FsError (Unit {0})
  pub unlink : Text → Action W FsError (Unit {0})
  pub rename : Text → Text → Bool → Action W FsError (Unit {0})
  pub flush : Action W FsError (Unit {0})
  pub fresh_read : Action W FsError (Unit {0})
  pub display : FsError → Text
  pub has_inline_data : Inode → Bool
  pub block_size : W → ℕ
  pub map_inode_logical : Inode → ℕ → Action W FsError (Option ℕ)
  pub read_block : ℕ → Action W FsError (List ℕ)
  pub parse_block : List ℕ → (ino generation : ℕ) → Action W FsError (List DirEntry)
  pub from_utf8 : List ℕ → Text ⊎ Text
  pub read_superblock : Action W FsError Superblock
  pub read_journal : Action W FsError (Option Journal)
  pub validates : Journal → (block_size blocks_count : ℕ) → Bool
