-- ===== src/Fs/Confinement/Requests.antt =====
-- The operations of `Session` (canoe-fs/src/lib.rs) as requests, and what any sequence of them keeps
-- of the guarded device.
use canoe_nusb_storage.Common.Keeps.{Keeps}
use canoe_nusb_storage.Common.{ℕ, false, List, [], ◌∷◌, drop, arith}
use canoe_nusb_storage.Common.Outcome.{Action, ◌>>=◌}
use canoe_nusb_storage.Fs.Text.{Text}
use canoe_nusb_storage.Fs.Guarded.{BlockDevice, Guarded, FsError, retire}
use canoe_nusb_storage.Fs.Guarded
use canoe_nusb_storage.Fs.Engines.{FatFs, Ext4}
use canoe_nusb_storage.Fs.Session.{
  Session, Mounted, fat, ext4, on_engine, shown, showing, settle, mutation, mounted_engine,
  require_writable, usable,
}
use canoe_nusb_storage.Fs.Stat.{fat_stat, ext4_stat, require_absent}
use canoe_nusb_storage.Fs.Files.{ext4_remove, is_directory}
use canoe_nusb_storage.Fs.Listing.{fat_list, ext4_list}
use canoe_nusb_storage.Fs.Listing
use canoe_nusb_storage.Fs.Inspection.{fat_inspect, ext4_inspect}
use canoe_nusb_storage.Fs.Inspection
use canoe_nusb_storage.Fs.Confinement.Listings.{
  fat_list-Keeps, ext4_list-Keeps, fat_inspect-Keeps, ext4_inspect-Keeps,
}
use canoe_nusb_storage.Fs.Operations
use canoe_nusb_storage.Fs.Stat
use canoe_nusb_storage.Fs.Session
use canoe_nusb_storage.Fs.Lifecycle
use canoe_nusb_storage.Fs.Confinement.Sessions.{
  FatKeeps, Ext4Keeps, fat_stat-Keeps, ext4_stat-Keeps, fat_read-Keeps, fat_write-Keeps,
  fat_truncate-Keeps, ext4_read-Keeps, ext4_write-Keeps, ext4_truncate-Keeps, ext4_create-Keeps,
  ext4_mkdir-Keeps,
}
use canoe_nusb_storage.Fs.Confinement.Operations.{
  Kept, mutation-Kept, on_engine-Kept, engine-Kept, stat-Kept', list-Kept', inspect-Kept',
  require_absent-Kept', read-Kept, create_file-Kept, mkdir-Kept, write-Kept, shrink-Kept,
  truncate-Kept, remove-Kept, rename-Kept, flush-Kept, fresh_read-Kept, unmount-Kept, finish-Kept,
}

pub data Request : Type 0 where
  stat create_file mkdir remove : Text → Request
  read : Text → (offset count : ℕ) → Request
  write : Text → ℕ → List ℕ → Request
  truncate : Text → ℕ → Request
  rename : (source destination : Text) → Request
  -- The number is the fuel of the FAT arm.
  list : ℕ → Text → Request
  inspect flush fresh_read finish abort : Request

module _ {D F X Dir Item File Inode Raw : Type 0} (dev : BlockDevice D)
    (fs : FatFs (F × Guarded D) Dir Item File) (ext : Ext4 (X × Guarded D) Inode Raw) where
  -- The session after a request, however it ended.
  unfoldable pub perform : Request → Session D F X → Session D F X
  perform (stat value) s = (Stat.stat fs ext value s).1
  perform (create_file value) s = (Operations.create_file dev fs ext value s).1
  perform (mkdir value) s = (Operations.mkdir dev fs ext value s).1
  perform (remove value) s = (Operations.remove dev fs ext value s).1
  perform (read value offset count) s = (Operations.read dev fs ext value offset count s).1
  perform (write value offset bytes) s = (Operations.write dev fs ext value offset bytes s).1
  perform (truncate value count) s = (Operations.truncate dev fs ext value count s).1
  perform (rename source destination) s = (Operations.rename dev fs ext source destination s).1
  perform (list fuel value) s = (Listing.list fs ext fuel value s).1
  perform inspect s = (Inspection.inspect dev fs ext s).1
  perform flush s = (Lifecycle.flush dev fs ext s).1
  perform fresh_read s = (Lifecycle.fresh_read dev fs ext s).1
  perform finish s = (Lifecycle.finish dev fs ext s).1
  perform abort s = Session.abort s

  unfoldable pub perform_all : List Request → Session D F X → Session D F X
  perform_all [] s = s
  perform_all (r ∷ rs) s = perform_all rs (perform r s)

  module _ (Inv : Guarded D → Type 0) (down : (g : Guarded D) → Inv g → Inv (retire g)) where
    module _ (fk : FatKeeps (λ s. Inv s.1) fs) (xk : Ext4Keeps (λ s. Inv s.1) ext)
        (flushing : (g : Guarded D) → Inv g → Inv (Guarded.flush dev g).1) where
      changed :
          {A : Type 0} (f : Action (F × Guarded D) Text A) (x : Action (X × Guarded D) Text A)
          → Keeps (λ s. Inv s.1) f
          → Keeps (λ s. Inv s.1) x
          → (m : Mounted F X) → Kept dev fs ext Inv down (mutation (on_engine f x m))
      changed f x k l m =
          mutation-Kept dev fs ext Inv down (on_engine f x m)
            (on_engine-Kept dev fs ext Inv down f x k l m)

      stat-Kept : (value : Text) → Kept dev fs ext Inv down (Stat.stat fs ext value)
      stat-Kept value = stat-Kept' dev fs ext Inv down value (
          on_engine-Kept dev fs ext Inv down _ _ (fat_stat-Keeps _ fs fk value)
            (λ s h. ext4_stat-Keeps _ ext xk value s h))

      require_absent-Kept : (value : Text) → Kept dev fs ext Inv down (require_absent fs ext value)
      require_absent-Kept value = require_absent-Kept' dev fs ext Inv down value (stat-Kept value)

      bound :
          {A : Type 0} (f : Action (F × Guarded D) Text A) (x : Action (X × Guarded D) Text A)
          → Keeps (λ s. Inv s.1) f
          → Keeps (λ s. Inv s.1) x
          → Kept dev fs ext Inv down (mutation (mounted_engine >>= on_engine f x))
      bound f x k l =
          mutation-Kept dev fs ext Inv down (mounted_engine >>= on_engine f x)
            (engine-Kept dev fs ext Inv down f x (on_engine-Kept dev fs ext Inv down f x k l))

      ext4_remove-Keeps :
          (kind : Session.Kind) (value : Text) → Keeps (λ s. Inv s.1) (ext4_remove ext kind value)
      unfolding is_directory
      ext4_remove-Keeps Session.directory value s h = xk.rmdir value s h
      ext4_remove-Keeps Session.file value s h = xk.unlink value s h
      ext4_remove-Keeps Session.symlink value s h = xk.unlink value s h
      ext4_remove-Keeps Session.other value s h = xk.unlink value s h

      fat_flush-Keeps : Keeps (λ s. Inv s.1) (Lifecycle.fat_flush dev fs ext)
      fat_flush-Keeps s h = grind (arith, fk.flush s h, flushing s.1 h)

      pub perform-Kept : (r : Request) (s : Session D F X) → Inv s.device → Inv (perform r s).device
      unfolding perform Session.abort
      perform-Kept (stat value) = stat-Kept value
      perform-Kept (create_file value) =
          create_file-Kept dev fs ext Inv down value (require_absent-Kept value)
            (changed _ _ (fk.create_file (drop 1 value)) (ext4_create-Keeps _ ext xk value))
      perform-Kept (mkdir value) =
          mkdir-Kept dev fs ext Inv down value (require_absent-Kept value)
            (changed _ _ (fk.create_dir (drop 1 value)) (ext4_mkdir-Keeps _ ext xk value))
      perform-Kept (remove value) =
          remove-Kept dev fs ext Inv down value (stat-Kept value)
            (λ kind. changed _ _ (fk.remove (drop 1 value)) (ext4_remove-Keeps kind value))
      perform-Kept (read value offset count) = read-Kept dev fs ext Inv down value offset count (
          on_engine-Kept dev fs ext Inv down _ _ (fat_read-Keeps _ fs fk value offset count)
            (ext4_read-Keeps _ ext xk value offset count))
      perform-Kept (write value offset bytes) =
          write-Kept dev fs ext Inv down value offset bytes (stat-Kept value) (
            bound _ _ (fat_write-Keeps _ fs fk value offset bytes)
              (ext4_write-Keeps _ ext xk value offset bytes))
      perform-Kept (truncate value count) =
          truncate-Kept dev fs ext Inv down value count (stat-Kept value) (λ item.
            shrink-Kept dev fs ext Inv down value count item (
              bound _ _ (fat_truncate-Keeps _ fs fk value count)
                (ext4_truncate-Keeps _ ext xk value count)))
      perform-Kept (rename source destination) =
          rename-Kept dev fs ext Inv down source destination (stat-Kept source)
            (require_absent-Kept destination)
            (changed _ _ (fk.rename (drop 1 source) (drop 1 destination))
              (λ s h. xk.rename source destination false s h))
      perform-Kept (list fuel value) = list-Kept' dev fs ext Inv down fuel value (
          on_engine-Kept dev fs ext Inv down _ _ (fat_list-Keeps _ fs fk fuel value)
            (ext4_list-Keeps _ ext xk value))
      perform-Kept inspect = inspect-Kept' dev fs ext Inv down (
          on_engine-Kept dev fs ext Inv down _ _ (fat_inspect-Keeps dev _ fs fk.stats fk.dirty)
            (ext4_inspect-Keeps dev _ ext xk.read_superblock xk.read_journal))
      perform-Kept flush =
          flush-Kept dev fs ext Inv down (changed _ _ fat_flush-Keeps (λ s h. xk.flush s h))
      perform-Kept fresh_read =
          fresh_read-Kept dev fs ext Inv down
            (changed _ _ fat_flush-Keeps (λ s h. xk.fresh_read s h))
      perform-Kept finish =
          finish-Kept dev fs ext Inv down
            (mutation-Kept dev fs ext Inv down _ (
              unmount-Kept dev fs ext Inv down
                (on_engine-Kept dev fs ext Inv down _ _ fk.unmount (λ s h. xk.finish s h))))
            flushing
      perform-Kept abort = λ s h. down s.device h

      pub perform_all-Kept :
          (rs : List Request) (s : Session D F X) → Inv s.device → Inv (perform_all rs s).device
      unfolding perform_all
      perform_all-Kept [] s h = h
      perform_all-Kept (r ∷ rs) s h = perform_all-Kept rs (perform r s) (perform-Kept r s h)
