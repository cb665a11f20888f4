-- ===== src/Fs/Confinement/Devices.antt =====
-- What sessions of canoe-fs/src/lib.rs do to the block device behind the guard, where the file
-- systems' calls reach it through the guard only.
use canoe_nusb_storage.Common.{ℕ, ◌≡◌, true, false, List}
use canoe_nusb_storage.Fs.Guarded.{BlockDevice, Guarded}
use canoe_nusb_storage.Fs.Engines.{FatFs, Ext4}
use canoe_nusb_storage.Fs.Session.{Session}
use canoe_nusb_storage.Fs.Confinement.{
  Reaches, stays, flushes, retires, Reaches-trans, Reaches-retired, Reaches-read_only,
}
use canoe_nusb_storage.Fs.Confinement.Sessions.{FatKeeps, Ext4Keeps}
use canoe_nusb_storage.Fs.Confinement.Requests.{Request, perform_all, perform_all-Kept}

module _ {D F X Dir Item File Inode Raw : Type 0} (dev : BlockDevice D)
    (fs : FatFs (F × Guarded D) Dir Item File) (ext : Ext4 (X × Guarded D) Inode Raw) where
  -- From every state, each call of the file systems leaves a guard that its calls reach.
  pub record ThroughGuard : Type 0 where
    pub by_fat : (g : Guarded D) → FatKeeps (λ s. Reaches dev g s.1) fs
    pub by_ext4 : (g : Guarded D) → Ext4Keeps (λ s. Reaches dev g s.1) ext

  pub perform_all-Reaches :
      ThroughGuard
      → (rs : List Request) (s : Session D F X)
      → Reaches dev s.device (perform_all dev fs ext rs s).device
  perform_all-Reaches through rs s =
      perform_all-Kept dev fs ext (Reaches dev s.device)
        (λ g h. Reaches-trans dev h (retires stays)) (through.by_fat s.device)
        (through.by_ext4 s.device) (λ g h. Reaches-trans dev h (flushes stays)) rs s stays

  -- A session that was opened read-only never changes what the device holds, under any sequence of
  -- requests, where every call of the file systems reaches the device through the guard only, and
  -- where reads and flushes of the device keep what it holds.
  pub perform_all-read_only :
      {C : Type 0} (contents : D → C)
      → ((offset count : ℕ) (d : D) → contents (dev.read_at offset count d).1 ≡ contents d)
      → ((d : D) → contents (dev.flush d).1 ≡ contents d)
      → ThroughGuard
      → (rs : List Request) (s : Session D F X) → s.device.writable ≡ false
      → contents (perform_all dev fs ext rs s).device.device ≡ contents s.device.device
  perform_all-read_only contents k l through rs s w =
      (Reaches-read_only dev contents k l (perform_all-Reaches through rs s) w).1

  -- Once the guard is retired, no sequence of requests changes the device or the guard, where every
  -- call of the file systems reaches the device through the guard only.
  pub perform_all-stopped :
      ThroughGuard
      → (rs : List Request) (s : Session D F X) → s.device.retired ≡ true
      → (perform_all dev fs ext rs s).device ≡ s.device
  perform_all-stopped through rs s r = Reaches-retired dev (perform_all-Reaches through rs s) r
