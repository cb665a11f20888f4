-- ===== src/Fs/Lifecycle.antt =====
-- `open`, `flush`, `fresh_read` and `finish` of `Session` in canoe-fs/src/lib.rs.
use canoe_nusb_storage.Common.{Bool, false, not, ◌&&◌, none, some, if◌then◌else◌}
use canoe_nusb_storage.Common.Bytes.{bytes_eq}
use canoe_nusb_storage.Common.Outcome.{
  Outcome, ok, err, Action, pure, raise, get, or_panic, ◌>>=◌, ◌>>◌,
}
use canoe_nusb_storage.Fs.Text.{Text, text}
use canoe_nusb_storage.Fs.Guarded.{BlockDevice, Guarded, FsError}
use canoe_nusb_storage.Fs.Guarded
use canoe_nusb_storage.Fs.Engines.{FatFs, Ext4}
use canoe_nusb_storage.Fs.Session.{
  Session, Mounted, fat, ext4, on_engine, showing, shown, mutation, mounted_engine, usable, abort,
}

module _ {D F X Dir Item File Inode Raw : Type 0} (dev : BlockDevice D)
    (fs : FatFs (F × Guarded D) Dir Item File) (ext : Ext4 (X × Guarded D) Inode Raw) where
  -- `nusb_fatfs::mount` and `nusb_ext4::mount` on a guarded device.
  module _ (fat_mount : Action (Guarded D) Text F) (ext4_mount : Action (Guarded D) FsError X) where
    abbrev pub mount : Text → Action (Guarded D) Text (Mounted F X)
    mount kind =
        if bytes_eq kind (text "fat")
        then (fat_mount >>= λ m. pure (fat m))
        else if bytes_eq kind (text "ext4")
        then (showing ext.display ext4_mount >>= λ m. pure (ext4 m))
        else raise (text "filesystem must be fat or ext4")

    abbrev pub guard : Bool → D → Guarded D
    guard writable d = record { device = d; writable = writable; retired = false }

    abbrev pub mount_session : Text → Action (Guarded D) Text (Session D F X)
    mount_session kind = do m ← mount kind; g ← get; pure (record { mounted = some m; device = g })

    -- The session or the error, and the guarded device.
    unfoldable pub open_session : Text → Bool → D → Outcome Text (Session D F X) × Guarded D
    open_session kind writable d =
        if writable && not (dev.is_writable d)
        then (err (text "underlying storage is read-only"), guard writable d)
        else mount_session kind (guard writable d)

  -- `self.device` as a file system whose own state is `Y`.
  abbrev pub flush_device : {Y : Type 0} → Action (Y × Guarded D) Text (Unit {0})
  flush_device (y, g) = let (r, g') = Guarded.flush dev g in (shown ext.display r, (y, g'))

  abbrev pub fat_flush : Action (F × Guarded D) Text (Unit {0})
  fat_flush s = if s.1.writable then fs.flush s else flush_device s

  unfoldable pub flush : Action (Session D F X) Text (Unit {0})
  flush = do m ← mounted_engine; mutation (on_engine fat_flush (showing ext.display ext.flush) m)

  unfoldable pub fresh_read : Action (Session D F X) Text (Unit {0})
  fresh_read = do
    m ← mounted_engine
    mutation (on_engine fat_flush (showing ext.display ext.fresh_read) m)

  -- `self.mounted.take()`
  abbrev pub taken : Session D F X → Session D F X
  taken s = record s { mounted = none }

  -- The file system is consumed, whatever its call answers.
  abbrev pub unmount : Action (Session D F X) Text (Unit {0})
  unmount = do
    now ← get
    m ← or_panic now.mounted
    (λ s. let (r, s') = on_engine fs.unmount (showing ext.display ext.finish) m s in (r, taken s'))

  abbrev pub flush_last : Action (Session D F X) Text (Unit {0})
  flush_last s =
      let (r, g) = Guarded.flush dev s.device in (shown ext.display r, record s { device = g })

  unfoldable pub finish : Action (Session D F X) Text (Unit {0})
  finish s =
      if not (usable s)
      then (err (text "filesystem session is closed or retired"), s)
      else if not s.device.writable
      then (ok tt, abort s)
      else (mutation unmount >> flush_last) s
