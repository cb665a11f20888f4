-- ===== src/Fs/Stat.antt =====
-- `stat` of canoe-fs/src/lib.rs, with `ext_inode` and `inherit_label`.
use canoe_nusb_storage.Common.{
  ℕ, zero, suc, ◌+◌, Bool, ◌||◌, ◌⊎◌, inl, inr, Option, none, some, List, [], ◌∷◌, drop, is_empty,
  leb, if◌then◌else◌,
}
use canoe_nusb_storage.Common.Bytes.{bytes_eq}
use canoe_nusb_storage.Common.Outcome.{
  Outcome, ok, err, stuck, Action, pure, raise, finish, raise_if, or_panic, ◌>>=◌, ◌>>◌,
}
use canoe_nusb_storage.Fs.Text.{Text, text, rsplit_once}
use canoe_nusb_storage.Fs.Guarded.{Guarded, FsError, unsupported}
use canoe_nusb_storage.Fs.Path.{path}
use canoe_nusb_storage.Fs.Engines.{FatFs, Ext4}
use canoe_nusb_storage.Fs.Session.{
  Session, Entry, Kind, directory, file, other, on_engine, showing, mounted_engine,
}

abbrev pub max_entries : ℕ
max_entries = 4096

abbrev pub root : Text
root = b'/' ∷ []

-- `String == "not found"`
unfoldable pub is_not_found : Text → Bool
is_not_found e = bytes_eq e (text "not found")

abbrev pub item_of : {S A : Type 0} → Text ⊎ A → Action S Text A
item_of (inl e) = raise e
item_of (inr a) = pure a

-- `value.rsplit('/').next()`, which is never `None`.
abbrev pub last_part : Text → Option (Text × Text) → Text
last_part value none = value
last_part value (some (_, name)) = name

module _ {W Dir Item File : Type 0} (fs : FatFs W Dir Item File) where
  abbrev pub fat_entry : Item → Entry
  fat_entry item = record {
    name = fs.file_name item;
    kind = if fs.is_dir item then directory else file;
    size = fs.item_len item;
    inode = none;
    generation = none;
  }

  unfoldable pub is_named : Text → Item → Bool
  is_named name item =
      bytes_eq (fs.upper (fs.file_name item)) (fs.upper name)
      || bytes_eq (fs.upper (fs.short_file_name item)) (fs.upper name)

  -- The loop over the entries of a directory, at the entry `index`: 4097 rounds are enough, since the
  -- round of the entry 4096 ends it.
  unfoldable pub find_item : (fuel index : ℕ) → Text → Dir → Action W Text Entry
  find_item zero index name dir = finish stuck
  find_item (suc fuel) index name dir = do
    got ← fs.next dir
    elim got [
      | none ↦ raise (text "not found")
      | some (got_item, dir') ↦ (do
        _ ← raise_if (leb max_entries index) (text "directory entry limit exceeded")
        item ← item_of got_item
        let rest = find_item fuel (index + 1) name dir'
        if is_named name item then pure (fat_entry item) else rest)
    ]

  abbrev pub open_parent : Text → Action W Text Dir
  open_parent parent s =
      if is_empty parent then (ok (fs.root_dir s), s) else fs.open_dir (drop 1 parent) s

  -- The FAT arm of `stat`.
  unfoldable pub fat_stat : Text → Action W Text Entry
  fat_stat value =
      if bytes_eq value root
      then pure
          (record { name = root; kind = directory; size = 0; inode = none; generation = none })
      else (do
        (parent, name) ← or_panic (rsplit_once value)
        dir ← open_parent parent
        find_item (suc max_entries) 0 name dir)

-- `value.rsplit_once('/')`'s parent, or "/".
abbrev pub parent_of : Option (Text × Text) → Text
parent_of none = root
parent_of (some (parent, _)) = if is_empty parent then root else parent

module _ {W Inode Raw : Type 0} (ext : Ext4 W Inode Raw) where
  unfoldable pub ext_inode : Text → Action W FsError (ℕ × Inode × Raw)
  ext_inode value = do
    ino ← ext.lookup value
    (inode, raw) ← ext.read_inode ino
    raise_if (ext.is_symlink inode) (unsupported "symbolic links are not followed")
    pure (ino, inode, raw)

  abbrev pub label_as : Text → Option (List ℕ) → Action W FsError (Unit {0})
  label_as value none = pure tt
  label_as value (some label) = ext.set_label value label

  -- The `match` on the parent's label.
  unfoldable pub label_from : Text → Inode → Raw → Action W FsError (Unit {0})
  label_from value inode raw = do label ← ext.get_label inode raw; label_as value label

  unfoldable pub inherit_label : Text → Action W FsError (Unit {0})
  inherit_label value = do
    (_, inode, raw) ← ext_inode (parent_of (rsplit_once value))
    label_from value inode raw

  abbrev pub kind_of : Inode → Kind
  kind_of inode = if ext.is_dir inode then directory else if ext.is_file inode then file else other

  -- The ext4 arm of `stat`.
  unfoldable pub ext4_stat : Text → Action W FsError Entry
  ext4_stat value = do
    (ino, inode, _) ← ext_inode value
    pure (record {
      name = last_part value (rsplit_once value);
      kind = kind_of inode;
      size = ext.size inode;
      inode = some ino;
      generation = some (ext.generation inode);
    })

module _ {D F X Dir Item File Inode Raw : Type 0} (fs : FatFs (F × Guarded D) Dir Item File)
    (ext : Ext4 (X × Guarded D) Inode Raw) where
  unfoldable pub stat : Text → Action (Session D F X) Text Entry
  stat value = do
    _ ← finish (path value)
    m ← mounted_engine
    on_engine (fat_stat fs value) (showing ext.display (ext4_stat ext value)) m

  -- `match self.stat(value)`: only "not found" goes on.
  unfoldable pub require_absent : Text → Action (Session D F X) Text (Unit {0})
  require_absent value s =
      let (r, s') = stat value s in
      elim r [
        | ok _ ↦ (err (text "already exists"), s')
        | err e ↦ (if is_not_found e then ok tt else err e, s')
        | Outcome.dropped ↦ (Outcome.dropped, s')
        | Outcome.panicked ↦ (Outcome.panicked, s')
        | Outcome.stuck ↦ (Outcome.stuck, s')
      ]
