-- ===== src/Fs/Confinement/Sessions.antt =====
-- Every operation of `Session` (canoe-fs/src/lib.rs) keeps what the file systems' calls and
-- retirement keep of the guarded device.
use canoe_nusb_storage.Common.{ℕ, zero, suc, ◌+◌, ◌-◌, Bool, List, length, arith}
use canoe_nusb_storage.Common.Keeps.{Keeps}
use canoe_nusb_storage.Fs.Text.{Text, rsplit_once}
use canoe_nusb_storage.Fs.Engines.{FatFs, Ext4}
use canoe_nusb_storage.Fs.Session.{shown}
use canoe_nusb_storage.Fs.Stat.{
  find_item, fat_stat, ext_inode, inherit_label, label_from, parent_of, ext4_stat,
}
use canoe_nusb_storage.Fs.Files.{
  read_all, fat_read, fat_write, fat_truncate, ext4_create, ext4_mkdir, ext4_read, ext4_write,
  ext4_truncate,
}

module _ {W : Type 0} (Inv : W → Type 0) where
  pub record FatKeeps {Dir Item File : Type 0} (fs : FatFs W Dir Item File) : Type 0 where
    pub open_dir : (t : Text) → Keeps Inv (fs.open_dir t)
    pub next : (d : Dir) → Keeps Inv (fs.next d)
    pub open_file : (t : Text) → Keeps Inv (fs.open_file t)
    pub seek_start : (n : ℕ) (f : File) → Keeps Inv (fs.seek_start n f)
    pub read : (n : ℕ) (f : File) → Keeps Inv (fs.read n f)
    pub write_all : (b : List ℕ) (f : File) → Keeps Inv (fs.write_all b f)
    pub flush_file : (f : File) → Keeps Inv (fs.flush_file f)
    pub truncate_file : (f : File) → Keeps Inv (fs.truncate_file f)
    pub create_file : (t : Text) → Keeps Inv (fs.create_file t)
    pub create_dir : (t : Text) → Keeps Inv (fs.create_dir t)
    pub remove : (t : Text) → Keeps Inv (fs.remove t)
    pub rename : (t u : Text) → Keeps Inv (fs.rename t u)
    pub flush : Keeps Inv fs.flush
    pub unmount : Keeps Inv fs.unmount
    pub stats : Keeps Inv fs.stats
    pub dirty : Keeps Inv fs.dirty

  pub record Ext4Keeps {Inode Raw : Type 0} (ext : Ext4 W Inode Raw) : Type 0 where
    pub finish : Keeps Inv ext.finish
    pub lookup : (t : Text) → Keeps Inv (ext.lookup t)
    pub read_inode : (n : ℕ) → Keeps Inv (ext.read_inode n)
    pub get_label : (i : Inode) (r : Raw) → Keeps Inv (ext.get_label i r)
    pub set_label : (t : Text) (l : List ℕ) → Keeps Inv (ext.set_label t l)
    pub read_file :
        (n : ℕ) (i : Inode) (r : Raw) (offset count : ℕ)
        → Keeps Inv (ext.read_file n i r offset count)
    pub create : (t : Text) (mode : ℕ) → Keeps Inv (ext.create t mode)
    pub pwrite : (t : Text) (offset : ℕ) (b : List ℕ) → Keeps Inv (ext.pwrite t offset b)
    pub truncate_shrink : (n count : ℕ) → Keeps Inv (ext.truncate_shrink n count)
    pub mkdir : (t : Text) (mode : ℕ) → Keeps Inv (ext.mkdir t mode)
    pub rmdir : (t : Text) → Keeps Inv (ext.rmdir t)
    pub unlink : (t : Text) → Keeps Inv (ext.unlink t)
    pub rename : (t u : Text) (b : Bool) → Keeps Inv (ext.rename t u b)
    pub flush : Keeps Inv ext.flush
    pub fresh_read : Keeps Inv ext.fresh_read
    pub map_inode_logical : (i : Inode) (n : ℕ) → Keeps Inv (ext.map_inode_logical i n)
    pub read_block : (n : ℕ) → Keeps Inv (ext.read_block n)
    pub parse_block :
        (b : List ℕ) (ino generation : ℕ) → Keeps Inv (ext.parse_block b ino generation)
    pub read_superblock : Keeps Inv ext.read_superblock
    pub read_journal : Keeps Inv ext.read_journal

  -- The loops and the shared steps, by the calls that they make.
  module _ {Dir Item File : Type 0} (fs : FatFs W Dir Item File) where
    find_item-kept :
        ((d : Dir) → Keeps Inv (fs.next d))
        → (fuel index : ℕ) (name : Text) (dir : Dir) → Keeps Inv (find_item fs fuel index name dir)
    unfolding find_item
    find_item-kept k zero index name dir s h = h
    find_item-kept k (suc fuel) index name dir s h =
        let later =
          λ (d : Dir). find_item-kept k fuel (index + 1) name d (fs.next dir s).1 (k dir s h) in
        grind (arith, k dir s h, later)

    read_all-kept :
        ((n : ℕ) (f : File) → Keeps Inv (fs.read n f))
        → (fuel count : ℕ) (got : List ℕ) (f : File) → Keeps Inv (read_all fs fuel count got f)
    unfolding read_all
    read_all-kept k zero count got f s h = grind arith
    read_all-kept k (suc fuel) count got f s h =
        let step = k (count - length got) f s h in
        let later = λ (got' : List ℕ) (f' : File).
          read_all-kept k fuel count got' f' (fs.read (count - length got) f s).1 step in
        grind (arith, step, later)

    fat_stat-kept :
        (value : Text)
        → ((t : Text) → Keeps Inv (fs.open_dir t))
        → ((fuel index : ℕ) (name : Text) (d : Dir) → Keeps Inv (find_item fs fuel index name d))
        → Keeps Inv (fat_stat fs value)
    unfolding fat_stat
    fat_stat-kept value k l s h = grind (arith, k, l)

    fat_read-kept :
        (value : Text) (offset count : ℕ)
        → ((t : Text) → Keeps Inv (fs.open_file t))
        → ((n : ℕ) (f : File) → Keeps Inv (fs.seek_start n f))
        → ((fuel n : ℕ) (got : List ℕ) (f : File) → Keeps Inv (read_all fs fuel n got f))
        → Keeps Inv (fat_read fs value offset count)
    fat_read-kept value offset count k l m s h = grind (arith, k, l, m)

    fat_write-kept :
        (value : Text) (offset : ℕ) (bytes : List ℕ)
        → ((t : Text) → Keeps Inv (fs.open_file t))
        → ((n : ℕ) (f : File) → Keeps Inv (fs.seek_start n f))
        → ((b : List ℕ) (f : File) → Keeps Inv (fs.write_all b f))
        → ((f : File) → Keeps Inv (fs.flush_file f))
        → Keeps Inv (fat_write fs value offset bytes)
    fat_write-kept value offset bytes k l m n s h = grind (arith, k, l, m, n)

    fat_truncate-kept :
        (value : Text) (count : ℕ)
        → ((t : Text) → Keeps Inv (fs.open_file t))
        → ((n : ℕ) (f : File) → Keeps Inv (fs.seek_start n f))
        → ((f : File) → Keeps Inv (fs.truncate_file f))
        → Keeps Inv (fat_truncate fs value count)
    fat_truncate-kept value count k l m s h = grind (arith, k, l, m)

  module _ {Inode Raw : Type 0} (ext : Ext4 W Inode Raw) (value : Text) where
    ext_inode-kept :
        Keeps Inv (ext.lookup value)
        → ((n : ℕ) → Keeps Inv (ext.read_inode n))
        → Keeps Inv (ext_inode ext value)
    unfolding ext_inode
    ext_inode-kept k l s h = grind (arith, k s h, l)

    label_from-kept :
        (i : Inode) (r : Raw)
        → Keeps Inv (ext.get_label i r)
        → ((b : List ℕ) → Keeps Inv (ext.set_label value b))
        → Keeps Inv (label_from ext value i r)
    unfolding label_from
    label_from-kept i r k l s h =
        let stored = λ (b : List ℕ). l b (ext.get_label i r s).1 (k s h) in
        grind (arith, k s h, stored)

    inherit_label-kept :
        Keeps Inv (ext_inode ext (parent_of (rsplit_once value)))
        → ((i : Inode) (r : Raw) → Keeps Inv (label_from ext value i r))
        → Keeps Inv (inherit_label ext value)
    unfolding inherit_label
    inherit_label-kept k l s h = grind (arith, k s h, l)

    ext4_read-kept :
        (offset count : ℕ)
        → Keeps Inv (ext_inode ext value)
        → ((n : ℕ) (i : Inode) (r : Raw) → Keeps Inv (ext.read_file n i r offset count))
        → Keeps Inv (ext4_read ext value offset count)
    unfolding shown
    ext4_read-kept offset count k l s h = grind (arith, k s h, l)

    ext4_write-kept :
        (offset : ℕ) (bytes : List ℕ)
        → Keeps Inv (ext_inode ext value)
        → Keeps Inv (ext.pwrite value offset bytes)
        → Keeps Inv (ext4_write ext value offset bytes)
    unfolding shown
    ext4_write-kept offset bytes k l s h = grind (arith, k s h, l)

    ext4_truncate-kept :
        (count : ℕ)
        → Keeps Inv (ext_inode ext value)
        → ((n : ℕ) → Keeps Inv (ext.truncate_shrink n count))
        → Keeps Inv (ext4_truncate ext value count)
    unfolding shown
    ext4_truncate-kept count k l s h = grind (arith, k s h, l)

  module _ {Dir Item File : Type 0} (fs : FatFs W Dir Item File) (keeps : FatKeeps fs) where
    pub fat_stat-Keeps : (value : Text) → Keeps Inv (fat_stat fs value)
    fat_stat-Keeps value = fat_stat-kept fs value keeps.open_dir (find_item-kept fs keeps.next)

    pub fat_read-Keeps :
        (value : Text) (offset count : ℕ) → Keeps Inv (fat_read fs value offset count)
    fat_read-Keeps value offset count =
        fat_read-kept fs value offset count keeps.open_file keeps.seek_start
          (read_all-kept fs keeps.read)

    pub fat_write-Keeps :
        (value : Text) (offset : ℕ) (bytes : List ℕ) → Keeps Inv (fat_write fs value offset bytes)
    fat_write-Keeps value offset bytes =
        fat_write-kept fs value offset bytes keeps.open_file keeps.seek_start keeps.write_all
          keeps.flush_file

    pub fat_truncate-Keeps : (value : Text) (count : ℕ) → Keeps Inv (fat_truncate fs value count)
    fat_truncate-Keeps value count =
        fat_truncate-kept fs value count keeps.open_file keeps.seek_start keeps.truncate_file

  module _ {Inode Raw : Type 0} (ext : Ext4 W Inode Raw) (keeps : Ext4Keeps ext) where
    pub ext_inode-Keeps : (value : Text) → Keeps Inv (ext_inode ext value)
    ext_inode-Keeps value = ext_inode-kept ext value (keeps.lookup value) keeps.read_inode

    inherit_label-Keeps : (value : Text) → Keeps Inv (inherit_label ext value)
    inherit_label-Keeps value =
        inherit_label-kept ext value (ext_inode-Keeps _)
          (λ i r. label_from-kept ext value i r (keeps.get_label i r) (keeps.set_label value))

    pub ext4_stat-Keeps : (value : Text) → Keeps Inv (ext4_stat ext value)
    unfolding ext4_stat
    ext4_stat-Keeps value s h = grind (arith, ext_inode-Keeps)

    pub ext4_create-Keeps : (value : Text) → Keeps Inv (ext4_create ext value)
    ext4_create-Keeps value s h = grind (arith, keeps.create, inherit_label-Keeps)

    pub ext4_mkdir-Keeps : (value : Text) → Keeps Inv (ext4_mkdir ext value)
    ext4_mkdir-Keeps value s h = grind (arith, keeps.mkdir, inherit_label-Keeps)

    pub ext4_read-Keeps :
        (value : Text) (offset count : ℕ) → Keeps Inv (ext4_read ext value offset count)
    ext4_read-Keeps value offset count =
        ext4_read-kept ext value offset count (ext_inode-Keeps value)
          (λ n i r. keeps.read_file n i r offset count)

    pub ext4_write-Keeps :
        (value : Text) (offset : ℕ) (bytes : List ℕ) → Keeps Inv (ext4_write ext value offset bytes)
    ext4_write-Keeps value offset bytes =
        ext4_write-kept ext value offset bytes (ext_inode-Keeps value)
          (keeps.pwrite value offset bytes)

    pub ext4_truncate-Keeps : (value : Text) (count : ℕ) → Keeps Inv (ext4_truncate ext value count)
    ext4_truncate-Keeps value count =
        ext4_truncate-kept ext value count (ext_inode-Keeps value)
          (λ n. keeps.truncate_shrink n count)
