-- ===== src/Fs/Confinement/Listings.antt =====
-- `list` and `inspect` of `Session` (canoe-fs/src/lib.rs) keep what the file systems' calls keep of
-- the guarded device.
use canoe_nusb_storage.Common.{
  ◌⊎◌, inl, inr, ◌++◌, ℕ, zero, suc, ◌+◌, Option, none, some, List, [], ◌∷◌, arith,
}
use canoe_nusb_storage.Common.Keeps.{Keeps, >>=-Keeps}
use canoe_nusb_storage.Common.Outcome.{Action}
use canoe_nusb_storage.Fs.Text.{Text}
use canoe_nusb_storage.Fs.Guarded.{BlockDevice, Guarded}
use canoe_nusb_storage.Fs.Engines.{FatFs, Ext4, DirEntry}
use canoe_nusb_storage.Fs.Session.{Entry, shown}
use canoe_nusb_storage.Fs.Stat.{ext_inode, fat_entry}
use canoe_nusb_storage.Fs.Listing.{
  open_listed, list_item, list_next, list_items, fat_list, ext4_entry, list_entry, list_entries,
  list_block, list_blocks, ext4_list,
}
use canoe_nusb_storage.Fs.Inspection.{fat_inspect, ext4_inspect}
use canoe_nusb_storage.Fs.Confinement.Sessions.{FatKeeps, Ext4Keeps, ext_inode-Keeps}

module _ {W : Type 0} (Inv : W → Type 0) where
  module _ {Dir Item File : Type 0} (fs : FatFs W Dir Item File) where
    list_item-kept :
        (entries : List Entry) (item : Item) (rest : List Entry → Action W Text (List Entry))
        → ((more : List Entry) → Keeps Inv (rest more))
        → Keeps Inv (list_item fs entries item rest)
    unfolding list_item
    list_item-kept entries item rest k s h =
        ground (arith, k entries s h, k (entries ++ (fat_entry fs item ∷ [])) s h)

    list_next-kept :
        (entries : List Entry) (rest : List Entry → Dir → Action W Text (List Entry))
        (got : Option ((Text ⊎ Item) × Dir))
        → ((more : List Entry) (d : Dir) → Keeps Inv (rest more d))
        → Keeps Inv (list_next fs entries rest got)
    unfolding list_next
    list_next-kept entries rest none k s h = h
    list_next-kept entries rest (some (inl e, d)) k s h = h
    list_next-kept entries rest (some (inr item, d)) k s h =
        list_item-kept entries item (λ more. rest more d) (λ more. k more d) s h

    list_items-kept :
        ((d : Dir) → Keeps Inv (fs.next d))
        → (fuel : ℕ) (entries : List Entry) (dir : Dir) → Keeps Inv (list_items fs fuel entries dir)
    unfolding list_items
    list_items-kept k zero entries dir s h = h
    list_items-kept k (suc fuel) entries dir s h =
        >>=-Keeps Inv (fs.next dir) (list_next fs entries (λ more d. list_items fs fuel more d))
          (k dir)
          (λ got.
            list_next-kept entries (λ more d. list_items fs fuel more d) got
              (list_items-kept k fuel))
          s h

    open_listed-kept :
        (value : Text) → ((v : Text) → Keeps Inv (fs.open_dir v)) → Keeps Inv (open_listed fs value)
    unfolding open_listed
    open_listed-kept value k s h = grind (arith, k)

    fat_list-kept :
        (fuel : ℕ) (value : Text)
        → Keeps Inv (open_listed fs value)
        → ((fuel : ℕ) (entries : List Entry) (d : Dir) → Keeps Inv (list_items fs fuel entries d))
        → Keeps Inv (fat_list fs fuel value)
    unfolding fat_list
    fat_list-kept fuel value k l s h = grind (arith, k s h, l)

  module _ {Inode Raw : Type 0} (ext : Ext4 W Inode Raw) where
    ext4_entry-kept :
        (entry : DirEntry)
        → Keeps Inv (ext.read_inode entry.inode)
        → Keeps Inv (ext4_entry ext entry)
    unfolding ext4_entry shown
    ext4_entry-kept entry k s h = grind (arith, k s h)

    list_entry-kept :
        (entries : List Entry) (entry : DirEntry) (rest : List Entry → Action W Text (List Entry))
        → Keeps Inv (ext4_entry ext entry)
        → ((more : List Entry) → Keeps Inv (rest more))
        → Keeps Inv (list_entry ext entries entry rest)
    unfolding list_entry
    list_entry-kept entries entry rest k l s h =
        let here = k s h in
        let later = λ (item : Entry). l (entries ++ (item ∷ [])) (ext4_entry ext entry s).1 here in
        grind (arith, here, l entries s h, later)

    list_entries-kept :
        ((entry : DirEntry) → Keeps Inv (ext4_entry ext entry))
        → (parsed : List DirEntry) (entries : List Entry)
        → Keeps Inv (list_entries ext parsed entries)
    unfolding list_entries
    list_entries-kept k [] entries s h = h
    list_entries-kept k (entry ∷ parsed) entries s h =
        list_entry-kept entries entry (λ more. list_entries ext parsed more) (k entry)
          (list_entries-kept k parsed) s h

    list_block-kept :
        (ino generation : ℕ) (entries : List Entry) (mapped : Option ℕ)
        → ((n : ℕ) → Keeps Inv (ext.read_block n))
        → ((b : List ℕ) → Keeps Inv (ext.parse_block b ino generation))
        → ((parsed : List DirEntry) → Keeps Inv (list_entries ext parsed entries))
        → Keeps Inv (list_block ext ino generation entries mapped)
    unfolding list_block shown
    list_block-kept ino generation entries none k l m s h = h
    list_block-kept ino generation entries (some n) k l m s h = grind (arith, k n s h, l, m)

    list_blocks-kept :
        (ino : ℕ) (inode : Inode)
        → ((n : ℕ) → Keeps Inv (ext.map_inode_logical inode n))
        → ((entries : List Entry) (mapped : Option ℕ)
            → Keeps Inv (list_block ext ino (ext.generation inode) entries mapped))
        → (count logical : ℕ) (entries : List Entry)
        → Keeps Inv (list_blocks ext count ino inode logical entries)
    unfolding list_blocks shown
    list_blocks-kept ino inode k l zero logical entries s h = h
    list_blocks-kept ino inode k l (suc count) logical entries s h =
        let step = k logical s h in
        let block =
          λ (mapped : Option ℕ). l entries mapped (ext.map_inode_logical inode logical s).1 step in
        let later = λ (mapped : Option ℕ) (got : List Entry).
          list_blocks-kept ino inode k l count (logical + 1) got
            (list_block ext ino (ext.generation inode) entries mapped
              (ext.map_inode_logical inode logical s).1).1
            (block mapped) in
        grind (arith, step, block, later)

    ext4_list-kept :
        (value : Text)
        → Keeps Inv (ext_inode ext value)
        → ((count ino : ℕ) (inode : Inode) → Keeps Inv (list_blocks ext count ino inode 0 []))
        → Keeps Inv (ext4_list ext value)
    unfolding ext4_list shown
    ext4_list-kept value k l s h = grind (arith, k s h, l)

  module _ {Dir Item File : Type 0} (fs : FatFs W Dir Item File) (keeps : FatKeeps Inv fs) where
    pub fat_list-Keeps : (fuel : ℕ) (value : Text) → Keeps Inv (fat_list fs fuel value)
    fat_list-Keeps fuel value =
        fat_list-kept fs fuel value (open_listed-kept fs value keeps.open_dir)
          (list_items-kept fs keeps.next)

  module _ {Inode Raw : Type 0} (ext : Ext4 W Inode Raw) (keeps : Ext4Keeps Inv ext) where
    block-Keeps :
        (ino generation : ℕ) (entries : List Entry) (mapped : Option ℕ)
        → Keeps Inv (list_block ext ino generation entries mapped)
    block-Keeps ino generation entries mapped =
        list_block-kept ext ino generation entries mapped keeps.read_block
          (λ b. keeps.parse_block b ino generation)
          (λ parsed.
            list_entries-kept ext
              (λ entry. ext4_entry-kept ext entry (keeps.read_inode entry.inode)) parsed entries)

    pub ext4_list-Keeps : (value : Text) → Keeps Inv (ext4_list ext value)
    ext4_list-Keeps value =
        ext4_list-kept ext value (ext_inode-Keeps Inv ext keeps value) (λ count ino inode.
          list_blocks-kept ext ino inode (keeps.map_inode_logical inode)
            (block-Keeps ino (ext.generation inode)) count 0 [])

module _ {D Y : Type 0} (dev : BlockDevice D) (Inv : Y × Guarded D → Type 0) where
  pub fat_inspect-Keeps :
      {Dir Item File : Type 0} (fs : FatFs (Y × Guarded D) Dir Item File)
      → Keeps Inv fs.stats
      → Keeps Inv fs.dirty
      → Keeps Inv (fat_inspect dev fs)
  unfolding fat_inspect
  fat_inspect-Keeps fs k l s h = grind (arith, k s h, l)

  pub ext4_inspect-Keeps :
      {Inode Raw : Type 0} (ext : Ext4 (Y × Guarded D) Inode Raw)
      → Keeps Inv ext.read_superblock
      → Keeps Inv ext.read_journal
      → Keeps Inv (ext4_inspect dev ext)
  unfolding ext4_inspect shown
  ext4_inspect-Keeps ext k l s h = grind (arith, k s h, l)
