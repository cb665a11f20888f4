-- ===== src/Fs/Closed.antt =====
-- How a session of canoe-fs/src/lib.rs ends: `finish`, `abort` and failed mutations.
use canoe_nusb_storage.Common.{ℕ, ◌+◌, ◌≤◌, ◌≡◌, ◌⊎◌, Bool, true, false, List, length, arith}
use canoe_nusb_storage.Common.Bytes.{bytes_eq→eq}
use canoe_nusb_storage.Common.Outcome.{Outcome, ok, err, Action}
use canoe_nusb_storage.Fs.Text.{Text, text}
use canoe_nusb_storage.Fs.Guarded.{BlockDevice, Guarded, FsError}
use canoe_nusb_storage.Fs.Engines.{FatFs, Ext4}
use canoe_nusb_storage.Fs.Session.{
  Session, usable, abort, mutation, settle, mounted_engine, require_writable, Entry,
}
use canoe_nusb_storage.Fs.Lifecycle.{finish, open_session}
use canoe_nusb_storage.Fs.Operations.{max_file_chunk, write, create_file, is_file}
use canoe_nusb_storage.Fs.Stat.{stat, require_absent, is_not_found}

module _ {D F X : Type 0} where
  settle-failed :
      {A : Type 0} (r : Outcome Text A) (s : Session D F X) (e : Text)
      → (settle r s).0 ≡ err e
      → (settle r s).1.device.retired ≡ true
  unfolding settle
  settle-failed r s e h = ground arith

  -- A mutation that fails retires the device, whatever its step did before.
  pub mutation-failed :
      {A : Type 0} (m : Action (Session D F X) Text A) (s : Session D F X) (e : Text)
      → (mutation m s).0 ≡ err e
      → usable (mutation m s).1 ≡ false
  unfolding mutation usable
  mutation-failed m s e h = ground (arith, settle-failed (m s).0 (m s).1 e h)

module _ {D F X Dir Item File Inode Raw : Type 0} (dev : BlockDevice D)
    (fs : FatFs (F × Guarded D) Dir Item File) (ext : Ext4 (X × Guarded D) Inode Raw) where
  -- After `finish` of a usable session, however it ended, the session is not usable.
  pub finish-closed : (s : Session D F X) → usable s ≡ true → usable (finish dev fs ext s).1 ≡ false
  unfolding finish usable abort mutation settle
  finish-closed s h = ground arith

  -- Where `write` succeeds, the session was usable and opened for writing, the bytes are 4 MiB at
  -- most and end inside the device, and `stat` found a file at the path whose size is the offset or
  -- more.
  pub write-granted :
      (value : Text) (offset : ℕ) (bytes : List ℕ) (s : Session D F X)
      → (write dev fs ext value offset bytes s).0 ≡ ok tt
      → (usable s ≡ true)
        × (s.device.writable ≡ true)
        × (length bytes ≤ max_file_chunk)
        × (offset + length bytes ≤ dev.size_bytes s.device.device)
        × ((entry : Entry) × ((stat fs ext value s).0 ≡ ok entry)
            × (is_file entry.kind ≡ true)
            × (offset ≤ entry.size))
  unfolding write require_writable mounted_engine
  write-granted value offset bytes s h = grind arith

  -- Where `create_file` succeeds, the session was usable and opened for writing, and `stat` of the
  -- path failed with "not found".
  pub create_file-exclusive :
      (value : Text) (s : Session D F X)
      → (create_file dev fs ext value s).0 ≡ ok tt
      → (usable s ≡ true)
        × (s.device.writable ≡ true)
        × ((e : Text) × ((stat fs ext value s).0 ≡ err e) × (is_not_found e ≡ true))
  unfolding create_file require_writable mounted_engine require_absent
  create_file-exclusive value s h = grind arith

  -- Where `open` returns a session with its guard, a session for writing has a writable device, the
  -- session's guard is that guard, and the kind is "fat" or "ext4".
  pub open_session-granted :
      (fat_mount : Action (Guarded D) Text F) (ext4_mount : Action (Guarded D) FsError X)
      (kind : Text) (writable : Bool) (d : D) (s : Session D F X) (g : Guarded D)
      → open_session dev fs ext fat_mount ext4_mount kind writable d ≡ (ok s, g)
      → ((writable ≡ false) ⊎ (dev.is_writable d ≡ true))
        × (s.device ≡ g)
        × ((kind ≡ text "fat") ⊎ (kind ≡ text "ext4"))
  unfolding open_session
  open_session-granted fat_mount ext4_mount kind writable d s g h =
      grind (arith, bytes_eq→eq kind (text "fat"), bytes_eq→eq kind (text "ext4"))
