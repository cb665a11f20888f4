-- ===== src/Fs/Worker/Calls.antt =====
-- The methods of `BrowserFilesystem` (canoe-fs/src/wasm.rs) as calls, in any order and number.
use canoe_nusb_storage.Common.{
  ℕ, ◌≡◌, refl, sym, ap, ◌∙◌, Bool, false, List, [], ◌∷◌, ◌++◌, length, ltb, if◌then◌else◌, arith,
}
use canoe_nusb_storage.Common.Outcome.{ok, Action}
use canoe_nusb_storage.Fs.Text.{Text}
use canoe_nusb_storage.Fs.Guarded.{Guarded, FsError}
use canoe_nusb_storage.Fs.Engines.{FatFs, Ext4}
use canoe_nusb_storage.Fs.Session.{Session, shown}
use canoe_nusb_storage.Fs.Lifecycle.{open_session}
use canoe_nusb_storage.Fs.Confinement.{Reaches, Reaches-read_only, Reaches-trans}
use canoe_nusb_storage.Fs.Confinement.Requests.{perform, perform_all}
use canoe_nusb_storage.Fs.Confinement.Requests
use canoe_nusb_storage.Fs.Confinement.Devices.{ThroughGuard, perform_all-Reaches}
use canoe_nusb_storage.Fs.Worker.{Storage, BrokerDevice, broker, as_f64, open_filesystem}
use canoe_nusb_storage.Fs.Worker.Methods.{Serializer}
use canoe_nusb_storage.Fs.Worker.Methods
use canoe_nusb_storage.Fs.Operations.{max_file_chunk}

pub data Call : Type 0 where
  stat create_file mkdir remove : Text → Call
  read : Text → (offset count : ℕ) → Call
  write : Text → ℕ → List ℕ → Call
  truncate : Text → ℕ → Call
  rename : (source destination : Text) → Call
  -- The number is the fuel of the FAT arm.
  list : ℕ → Text → Call
  inspect flush fresh_read close abort : Call

module _ {J F X Dir Item File Inode Raw V : Type 0} (storage : Storage J)
    (fs : FatFs (F × Guarded (BrokerDevice J)) Dir Item File)
    (ext : Ext4 (X × Guarded (BrokerDevice J)) Inode Raw) (serializer : Serializer V) where
  -- The session after a call, however it ended.
  unfoldable pub serve : Call → Session (BrokerDevice J) F X → Session (BrokerDevice J) F X
  serve (stat value) s = (Methods.stat storage fs ext serializer value s).1
  serve (create_file value) s = (Methods.create_file storage fs ext serializer value s).1
  serve (mkdir value) s = (Methods.mkdir storage fs ext serializer value s).1
  serve (remove value) s = (Methods.remove storage fs ext serializer value s).1
  serve (read value offset count) s =
      (Methods.read storage fs ext serializer value offset count s).1
  serve (write value offset bytes) s =
      (Methods.write storage fs ext serializer value offset bytes s).1
  serve (truncate value count) s = (Methods.truncate storage fs ext serializer value count s).1
  serve (rename source destination) s =
      (Methods.rename storage fs ext serializer source destination s).1
  serve (list fuel value) s = (Methods.list storage fs ext serializer fuel value s).1
  serve inspect s = (Methods.inspect storage fs ext serializer s).1
  serve flush s = (Methods.flush storage fs ext serializer s).1
  serve fresh_read s = (Methods.fresh_read storage fs ext serializer s).1
  serve close s = (Methods.close storage fs ext serializer s).1
  serve abort s = Methods.abort storage fs ext serializer s

  unfoldable pub serve_all : List Call → Session (BrokerDevice J) F X → Session (BrokerDevice J) F X
  serve_all [] s = s
  serve_all (c ∷ cs) s = serve_all cs (serve c s)

-- The requests of the session that a call makes: one, or none where a write is refused before it.
unfoldable pub requests : Call → List Requests.Request
requests (stat value) = Requests.stat value ∷ []
requests (create_file value) = Requests.create_file value ∷ []
requests (mkdir value) = Requests.mkdir value ∷ []
requests (remove value) = Requests.remove value ∷ []
requests (read value offset count) = Requests.read value offset count ∷ []
requests (write value offset bytes) =
    if ltb max_file_chunk (length bytes) then [] else Requests.write value offset bytes ∷ []
requests (truncate value count) = Requests.truncate value count ∷ []
requests (rename source destination) = Requests.rename source destination ∷ []
requests (list fuel value) = Requests.list fuel value ∷ []
requests inspect = Requests.inspect ∷ []
requests flush = Requests.flush ∷ []
requests fresh_read = Requests.fresh_read ∷ []
requests close = Requests.finish ∷ []
requests abort = Requests.abort ∷ []

unfoldable pub all_requests : List Call → List Requests.Request
all_requests [] = []
all_requests (c ∷ cs) = requests c ++ all_requests cs

module _ {J F X Dir Item File Inode Raw V : Type 0} (storage : Storage J)
    (fs : FatFs (F × Guarded (BrokerDevice J)) Dir Item File)
    (ext : Ext4 (X × Guarded (BrokerDevice J)) Inode Raw) (serializer : Serializer V) where
  serve-requests :
      (c : Call) (s : Session (BrokerDevice J) F X)
      → serve storage fs ext serializer c s ≡ perform_all (broker storage) fs ext (requests c) s
  unfolding serve requests perform_all perform Methods.stat Methods.create_file Methods.mkdir
      Methods.remove Methods.read Methods.write Methods.truncate Methods.rename Methods.list
      Methods.inspect Methods.flush Methods.fresh_read Methods.close Methods.abort
  serve-requests (stat value) s = grind arith
  serve-requests (create_file value) s = refl
  serve-requests (mkdir value) s = refl
  serve-requests (remove value) s = refl
  serve-requests (read value offset count) s = refl
  serve-requests (write value offset bytes) s = ground arith
  serve-requests (truncate value count) s = refl
  serve-requests (rename source destination) s = refl
  serve-requests (list fuel value) s = grind arith
  serve-requests inspect s = grind arith
  serve-requests flush s = refl
  serve-requests fresh_read s = refl
  serve-requests close s = refl
  serve-requests abort s = refl

  perform_all-append :
      (rs rs' : List Requests.Request) (s : Session (BrokerDevice J) F X)
      → perform_all (broker storage) fs ext (rs ++ rs') s
        ≡ perform_all (broker storage) fs ext rs' (perform_all (broker storage) fs ext rs s)
  unfolding perform_all
  perform_all-append [] rs' s = refl
  perform_all-append (r ∷ rs) rs' s =
      perform_all-append rs rs' (perform (broker storage) fs ext r s)

  serve_all-requests :
      (cs : List Call) (s : Session (BrokerDevice J) F X)
      → serve_all storage fs ext serializer cs s
        ≡ perform_all (broker storage) fs ext (all_requests cs) s
  unfolding serve_all all_requests perform_all
  serve_all-requests [] s = refl
  serve_all-requests (c ∷ cs) s =
      serve_all-requests cs (serve storage fs ext serializer c s)
      ∙ ap (perform_all (broker storage) fs ext (all_requests cs)) (serve-requests c s)
      ∙ sym (perform_all-append (requests c) (all_requests cs) s)

  module _ (fat_mount : Action (Guarded (BrokerDevice J)) Text F)
      (ext4_mount : Action (Guarded (BrokerDevice J)) FsError X)
      (fat_mounts : (g : Guarded (BrokerDevice J)) → Reaches (broker storage) g (fat_mount g).1)
      (ext4_mounts : (g : Guarded (BrokerDevice J))
        → Reaches (broker storage) g (ext4_mount g).1) where
    mounted-Reaches :
        (kind : Text) (writable : Bool) (d : BrokerDevice J) (s : Session (BrokerDevice J) F X)
        → (open_session (broker storage) fs ext fat_mount ext4_mount kind writable d).0 ≡ ok s
        → Reaches
            (broker storage)
            (record { device = d; writable = writable; retired = false })
            s.device
    unfolding open_session shown
    mounted-Reaches kind writable d s h =
        let g : Guarded (BrokerDevice J) = record {
          device = d;
          writable = writable;
          retired = false;
        } in
        grind (arith, fat_mounts g, ext4_mounts g)

    opened-Reaches :
        (kind : Text) (writable : Bool) (count : ℕ) (page page' : J)
        (s : Session (BrokerDevice J) F X)
        → open_filesystem storage fs ext fat_mount ext4_mount kind writable count page
          ≡ (ok s, page')
        → Reaches
            (broker storage)
            (record {
              device = record { length = count; writable = writable; page = page };
              writable = writable;
              retired = false;
            })
            s.device
    unfolding open_filesystem
    opened-Reaches kind writable count page page' s h =
        mounted-Reaches kind writable (record { length = count; writable = writable; page = page })
          s (ground arith)

    -- A file system that `open_filesystem` opened read-only never changes what the page holds, from
    -- the mounting on and under any sequence of its methods, where the mounting and every call of the
    -- file systems reach the broker's device through the guard only, and where the page's reads and
    -- flushes keep what it holds.
    pub serve_all-opened :
        {C : Type 0} (contents : J → C)
        → ((offset count : ℕ) (j : J) → contents (storage.read_at offset count j).1 ≡ contents j)
        → ((j : J) → contents (storage.flush j).1 ≡ contents j)
        → ThroughGuard (broker storage) fs ext
        → (kind : Text) (capacity : ℕ) (page page' : J) (s : Session (BrokerDevice J) F X)
        → open_filesystem storage fs ext fat_mount ext4_mount kind false capacity page
          ≡ (ok s, page')
        → (cs : List Call)
        → contents (serve_all storage fs ext serializer cs s).device.device.page ≡ contents page
    serve_all-opened contents reads flushes through kind capacity page page' s h cs =
        let opened = opened-Reaches kind false capacity page page' s h in
        let served = perform_all-Reaches (broker storage) fs ext through (all_requests cs) s in
        let kept =
          Reaches-read_only (broker storage) (λ d. contents d.page)
            (λ offset count d. reads (as_f64 offset) count d.page) (λ d. flushes d.page)
            (Reaches-trans (broker storage) opened served) refl in
        ap (λ (q : Session (BrokerDevice J) F X). contents q.device.device.page)
          (serve_all-requests cs s)
        ∙ kept.1
