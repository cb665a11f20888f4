-- ===== src/Fs/Listing.antt =====
-- `list` of canoe-fs/src/lib.rs.
pub mod Bounds
use canoe_nusb_storage.Common.{
  ℕ, ◌⊎◌, zero, suc, ◌+◌, ◌*◌, Bool, not, ◌||◌, Option, none, some, List, [], ◌∷◌, ◌++◌, drop,
  length, leb, ltb, if◌then◌else◌,
}
use canoe_nusb_storage.Common.Bytes.{bytes_eq}
use canoe_nusb_storage.Common.Outcome.{
  ok, panicked, stuck, Action, pure, get, finish, raise_if, ◌>>=◌, ◌>>◌,
}
use canoe_nusb_storage.Range.{div_ceil}
use canoe_nusb_storage.Fs.Text.{Text, text}
use canoe_nusb_storage.Fs.Guarded.{Guarded}
use canoe_nusb_storage.Fs.Path.{path}
use canoe_nusb_storage.Fs.Engines.{FatFs, Ext4, DirEntry}
use canoe_nusb_storage.Fs.Session.{
  Session, Entry, Kind, symlink, on_engine, showing, mounted_engine,
}
use canoe_nusb_storage.Fs.Stat.{max_entries, root, item_of, fat_entry, ext_inode, kind_of}

abbrev pub max_directory_bytes : ℕ
max_directory_bytes = 16 * 1024 * 1024

-- `name == "." || name == ".."`
unfoldable pub is_dots : List ℕ → Bool
is_dots name = bytes_eq name (text ".") || bytes_eq name (text "..")

module _ {W Dir Item File : Type 0} (fs : FatFs W Dir Item File) where
  -- The body of the loop over the entries of a FAT directory, with what follows it.
  unfoldable pub list_item :
      List Entry → Item → (List Entry → Action W Text (List Entry)) → Action W Text (List Entry)
  list_item entries item rest = if is_dots (fs.file_name item) then rest entries else (do
    raise_if (leb max_entries (length entries)) (text "directory entry limit exceeded")
    rest (entries ++ (fat_entry fs item ∷ [])))

  -- What follows a step of the iterator.
  unfoldable pub list_next :
      List Entry
      → (List Entry → Dir → Action W Text (List Entry))
      → Option ((Text ⊎ Item) × Dir)
      → Action W Text (List Entry)
  list_next entries rest none = pure entries
  list_next entries rest (some (got, dir)) = do
    item ← item_of got
    list_item entries item (λ more. rest more dir)

  -- The loop, which ends with its iterator: `fuel` has to be more than the iterator's entries.
  unfoldable pub list_items : (fuel : ℕ) → List Entry → Dir → Action W Text (List Entry)
  list_items zero entries dir = finish stuck
  list_items (suc fuel) entries dir = do
    got ← fs.next dir
    list_next entries (λ more d. list_items fuel more d) got

  unfoldable pub open_listed : Text → Action W Text Dir
  open_listed value s =
      if bytes_eq value root then (ok (fs.root_dir s), s) else fs.open_dir (drop 1 value) s

  -- The FAT arm of `list`.
  unfoldable pub fat_list : ℕ → Text → Action W Text (List Entry)
  fat_list fuel value = do dir ← open_listed value; list_items fuel [] dir

module _ {W Inode Raw : Type 0} (ext : Ext4 W Inode Raw) where
  abbrev pub listed_kind : Inode → Kind
  listed_kind inode = if ext.is_symlink inode then symlink else kind_of ext inode

  unfoldable pub ext4_entry : DirEntry → Action W Text Entry
  ext4_entry entry = do
    (inode, _) ← showing ext.display (ext.read_inode entry.inode)
    name ← item_of (ext.from_utf8 entry.name)
    pure (record {
      name = name;
      kind = listed_kind inode;
      size = ext.size inode;
      inode = some entry.inode;
      generation = some (ext.generation inode);
    })

  -- The body of the loop over the entries of a block, with what follows it.
  unfoldable pub list_entry :
      List Entry → DirEntry → (List Entry → Action W Text (List Entry)) → Action W Text (List Entry)
  list_entry entries entry rest = if is_dots entry.name then rest entries else (do
    raise_if (leb max_entries (length entries)) (text "directory entry limit exceeded")
    item ← ext4_entry entry
    rest (entries ++ (item ∷ [])))

  unfoldable pub list_entries : List DirEntry → List Entry → Action W Text (List Entry)
  list_entries [] entries = pure entries
  list_entries (entry ∷ parsed) entries =
      list_entry entries entry (λ more. list_entries parsed more)

  -- What the loop over the blocks does with the block that a logical one is mapped to, if any.
  unfoldable pub list_block :
      (ino generation : ℕ) → List Entry → Option ℕ → Action W Text (List Entry)
  list_block ino generation entries none = pure entries
  list_block ino generation entries (some physical) = do
    block ← showing ext.display (ext.read_block physical)
    parsed ← showing ext.display (ext.parse_block block ino generation)
    list_entries parsed entries

  -- The loop over the logical blocks, of which `count` are left.
  unfoldable pub list_blocks :
      (count : ℕ) → ℕ → Inode → (logical : ℕ) → List Entry → Action W Text (List Entry)
  list_blocks zero ino inode logical entries = pure entries
  list_blocks (suc count) ino inode logical entries = do
    physical ← showing ext.display (ext.map_inode_logical inode logical)
    entries' ← list_block ino (ext.generation inode) entries physical
    list_blocks count ino inode (logical + 1) entries'

  -- `div_ceil`, which panics for blocks of no bytes.
  abbrev pub blocks_of : (size block_size : ℕ) → Action W Text ℕ
  blocks_of size zero s = (panicked, s)
  blocks_of size (suc k) s = (ok (div_ceil size (suc k)), s)

  -- The ext4 arm of `list`.
  unfoldable pub ext4_list : Text → Action W Text (List Entry)
  ext4_list value = do
    (ino, inode, _) ← showing ext.display (ext_inode ext value)
    raise_if (not (ext.is_dir inode)) (text "not a directory")
    raise_if (ltb max_directory_bytes (ext.size inode) || ext.has_inline_data inode)
        (text "unsupported or oversized directory layout")
    s ← get
    count ← blocks_of (ext.size inode) (ext.block_size s)
    list_blocks count ino inode 0 []

module _ {D F X Dir Item File Inode Raw : Type 0} (fs : FatFs (F × Guarded D) Dir Item File)
    (ext : Ext4 (X × Guarded D) Inode Raw) where
  -- `fuel` is that of `list_items`.
  unfoldable pub list : (fuel : ℕ) → Text → Action (Session D F X) Text (List Entry)
  list fuel value = do
    _ ← finish (path value)
    m ← mounted_engine
    on_engine (fat_list fs fuel value) (ext4_list ext value) m
