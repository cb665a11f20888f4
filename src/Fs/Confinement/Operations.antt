-- ===== src/Fs/Confinement/Operations.antt =====
-- Each operation of `Session` (canoe-fs/src/lib.rs) keeps what its steps keep of the guarded device.
use canoe_nusb_storage.Common.Keeps.{Keeps}
use canoe_nusb_storage.Common.{ℕ, false, List, drop, arith}
use canoe_nusb_storage.Common.Outcome.{Outcome, ok, err, dropped, panicked, stuck, Action, ◌>>=◌}
use canoe_nusb_storage.Fs.Text.{Text}
use canoe_nusb_storage.Fs.Guarded.{BlockDevice, Guarded, FsError, retire}
use canoe_nusb_storage.Fs.Guarded
use canoe_nusb_storage.Fs.Engines.{FatFs, Ext4}
use canoe_nusb_storage.Fs.Session.{
  Session, Mounted, fat, ext4, on_engine, shown, showing, settle, mutation, mounted_engine,
  require_writable, usable,
}
use canoe_nusb_storage.Fs.Stat.{fat_stat, ext4_stat, require_absent}
use canoe_nusb_storage.Fs.Files.{
  fat_read, fat_write, fat_truncate, ext4_create, ext4_mkdir, ext4_read, ext4_write, ext4_truncate,
  ext4_remove,
}
use canoe_nusb_storage.Fs.Listing.{fat_list, ext4_list}
use canoe_nusb_storage.Fs.Listing
use canoe_nusb_storage.Fs.Inspection.{fat_inspect, ext4_inspect}
use canoe_nusb_storage.Fs.Inspection
use canoe_nusb_storage.Fs.Operations
use canoe_nusb_storage.Fs.Stat
use canoe_nusb_storage.Fs.Session
use canoe_nusb_storage.Fs.Lifecycle
use canoe_nusb_storage.Fs.Confinement.Sessions.{}

module _ {D F X Dir Item File Inode Raw : Type 0} (dev : BlockDevice D)
    (fs : FatFs (F × Guarded D) Dir Item File) (ext : Ext4 (X × Guarded D) Inode Raw) where
  module _ (Inv : Guarded D → Type 0) (down : (g : Guarded D) → Inv g → Inv (retire g)) where
    abbrev pub Kept : {A : Type 0} → Action (Session D F X) Text A → Type 0
    Kept m = (s : Session D F X) → Inv s.device → Inv (m s).1.device

    mounted_engine-Kept : Kept mounted_engine
    unfolding mounted_engine
    mounted_engine-Kept s h = grind arith

    require_writable-Kept : Kept require_writable
    unfolding require_writable mounted_engine
    require_writable-Kept s h = grind arith

    pub on_engine-Kept :
        {A : Type 0} (f : Action (F × Guarded D) Text A) (x : Action (X × Guarded D) Text A)
        → Keeps (λ s. Inv s.1) f
        → Keeps (λ s. Inv s.1) x
        → (m : Mounted F X) → Kept (on_engine f x m)
    unfolding on_engine
    on_engine-Kept f x k l (fat fs') s h = k (fs', s.device) h
    on_engine-Kept f x k l (ext4 fs') s h = l (fs', s.device) h

    settle-Kept : {A : Type 0} (r : Outcome Text A) → Kept (settle r)
    unfolding settle
    settle-Kept (ok a) s h = h
    settle-Kept (err e) s h = down s.device h
    settle-Kept dropped s h = h
    settle-Kept panicked s h = h
    settle-Kept stuck s h = h

    pub mutation-Kept :
        {A : Type 0} (m : Action (Session D F X) Text A) → Kept m → Kept (mutation m)
    unfolding mutation
    mutation-Kept m k s h = settle-Kept (m s).0 (m s).1 (k s h)

    pub engine-Kept :
        {A : Type 0} (f : Action (F × Guarded D) Text A) (x : Action (X × Guarded D) Text A)
        → ((m : Mounted F X) → Kept (on_engine f x m))
        → Kept (mounted_engine >>= on_engine f x)
    engine-Kept f x k s h = grind (arith, mounted_engine-Kept s h, k)

    pub stat-Kept' :
        (value : Text)
        → ((m : Mounted F X)
            → Kept (on_engine (fat_stat fs value) (showing ext.display (ext4_stat ext value)) m))
        → Kept (Stat.stat fs ext value)
    unfolding Stat.stat
    stat-Kept' value k s h = grind (arith, mounted_engine-Kept, k)

    pub list-Kept' :
        (fuel : ℕ) (value : Text)
        → ((m : Mounted F X) → Kept (on_engine (fat_list fs fuel value) (ext4_list ext value) m))
        → Kept (Listing.list fs ext fuel value)
    unfolding Listing.list
    list-Kept' fuel value k s h = grind (arith, mounted_engine-Kept, k)

    pub inspect-Kept' :
        ((m : Mounted F X) → Kept (on_engine (fat_inspect dev fs) (ext4_inspect dev ext) m))
        → Kept (Inspection.inspect dev fs ext)
    unfolding Inspection.inspect
    inspect-Kept' k s h = grind (arith, mounted_engine-Kept s h, k)

    pub require_absent-Kept' :
        (value : Text) → Kept (Stat.stat fs ext value) → Kept (require_absent fs ext value)
    unfolding require_absent
    require_absent-Kept' value k s h = grind (arith, k s h)

    pub read-Kept :
        (value : Text) (offset count : ℕ)
        → ((m : Mounted F X)
            → Kept
                (on_engine (fat_read fs value offset count) (ext4_read ext value offset count) m))
        → Kept (Operations.read dev fs ext value offset count)
    unfolding Operations.read
    read-Kept value offset count k s h = grind (arith, mounted_engine-Kept, k)

    pub create_file-Kept :
        (value : Text)
        → Kept (require_absent fs ext value)
        → ((m : Mounted F X)
            → Kept (mutation (on_engine (fs.create_file (drop 1 value)) (ext4_create ext value) m)))
        → Kept (Operations.create_file dev fs ext value)
    unfolding Operations.create_file
    create_file-Kept value k l s h = grind (arith, require_writable-Kept, k, mounted_engine-Kept, l)

    pub mkdir-Kept :
        (value : Text)
        → Kept (require_absent fs ext value)
        → ((m : Mounted F X)
            → Kept (mutation (on_engine (fs.create_dir (drop 1 value)) (ext4_mkdir ext value) m)))
        → Kept (Operations.mkdir dev fs ext value)
    unfolding Operations.mkdir
    mkdir-Kept value k l s h = grind (arith, require_writable-Kept, k, mounted_engine-Kept, l)

    pub write-Kept :
        (value : Text) (offset : ℕ) (bytes : List ℕ)
        → Kept (Stat.stat fs ext value)
        → Kept (
            mutation (
              mounted_engine
              >>= on_engine (fat_write fs value offset bytes) (ext4_write ext value offset bytes)))
        → Kept (Operations.write dev fs ext value offset bytes)
    unfolding Operations.write
    write-Kept value offset bytes k l s h = grind (arith, require_writable-Kept, k, l)

    pub shrink-Kept :
        (value : Text) (count : ℕ) (item : Session.Entry)
        → Kept (
            mutation (
              mounted_engine
              >>= on_engine (fat_truncate fs value count) (ext4_truncate ext value count)))
        → Kept (Operations.shrink dev fs ext value count item)
    unfolding Operations.shrink
    shrink-Kept value count item k s h = grind (arith, k s h)

    pub truncate-Kept :
        (value : Text) (count : ℕ)
        → Kept (Stat.stat fs ext value)
        → ((item : Session.Entry) → Kept (Operations.shrink dev fs ext value count item))
        → Kept (Operations.truncate dev fs ext value count)
    unfolding Operations.truncate
    truncate-Kept value count k l s h = grind (arith, require_writable-Kept, k, l)

    pub remove-Kept :
        (value : Text)
        → Kept (Stat.stat fs ext value)
        → ((kind : Session.Kind) (m : Mounted F X)
            → Kept (mutation (on_engine (fs.remove (drop 1 value)) (ext4_remove ext kind value) m)))
        → Kept (Operations.remove dev fs ext value)
    unfolding Operations.remove
    remove-Kept value k l s h = grind (arith, require_writable-Kept, k, mounted_engine-Kept, l)

    pub rename-Kept :
        (source destination : Text)
        → Kept (Stat.stat fs ext source)
        → Kept (require_absent fs ext destination)
        → ((m : Mounted F X)
            → Kept (
                mutation (
                  on_engine
                    (fs.rename (drop 1 source) (drop 1 destination))
                    (showing ext.display (ext.rename source destination false))
                    m)))
        → Kept (Operations.rename dev fs ext source destination)
    unfolding Operations.rename
    rename-Kept source destination k l m s h =
        grind (arith, require_writable-Kept, k, l, mounted_engine-Kept, m)

    pub flush-Kept :
        ((m : Mounted F X)
          → Kept (
              mutation
                (on_engine (Lifecycle.fat_flush dev fs ext) (showing ext.display ext.flush) m)))
        → Kept (Lifecycle.flush dev fs ext)
    unfolding Lifecycle.flush
    flush-Kept k s h = grind (arith, mounted_engine-Kept, k)

    pub fresh_read-Kept :
        ((m : Mounted F X)
          → Kept (
              mutation (
                on_engine (Lifecycle.fat_flush dev fs ext) (showing ext.display ext.fresh_read) m)))
        → Kept (Lifecycle.fresh_read dev fs ext)
    unfolding Lifecycle.fresh_read
    fresh_read-Kept k s h = grind (arith, mounted_engine-Kept, k)

    pub unmount-Kept :
        ((m : Mounted F X) → Kept (on_engine fs.unmount (showing ext.display ext.finish) m))
        → Kept (Lifecycle.unmount dev fs ext)
    unmount-Kept k s h = grind (arith, k)

    pub finish-Kept :
        Kept (mutation (Lifecycle.unmount dev fs ext))
        → ((g : Guarded D) → Inv g → Inv (Guarded.flush dev g).1)
        → Kept (Lifecycle.finish dev fs ext)
    unfolding Lifecycle.finish Session.abort
    finish-Kept k l s h = grind (arith, k s h, l, down s.device h)
