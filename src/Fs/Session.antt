-- ===== src/Fs/Session.antt =====
-- `Session` of canoe-fs/src/lib.rs: its state, and the guards that its operations share.
use canoe_nusb_storage.Common.{ℕ, Bool, true, false, not, ◌&&◌, Option, none, some}
use canoe_nusb_storage.Common.Outcome.{
  Outcome, ok, err, dropped, panicked, stuck, Action, get, raise_if, or_panic, ◌>>=◌, ◌>>◌,
}
use canoe_nusb_storage.Fs.Text.{Text, text}
use canoe_nusb_storage.Fs.Guarded.{Guarded, FsError, retire}

pub data Mounted (F X : Type 0) : Type 0 where
  fat : F → Mounted F X
  ext4 : X → Mounted F X

pub data Kind : Type 0 where
  directory file symlink other : Kind

pub record Entry : Type 0 where
  pub name : Text
  pub kind : Kind
  pub size : ℕ
  pub inode : Option ℕ
  pub generation : Option ℕ

pub record Session (D F X : Type 0) : Type 0 where
  pub mounted : Option (Mounted F X)
  pub device : Guarded D

abbrev pub is_some : {A : Type 0} → Option A → Bool
is_some none = false
is_some (some _) = true

-- `map_err(error)`
unfoldable pub shown : {A : Type 0} → (FsError → Text) → Outcome FsError A → Outcome Text A
shown display (ok a) = ok a
shown display (err e) = err (display e)
shown display dropped = dropped
shown display panicked = panicked
shown display stuck = stuck

abbrev pub showing : {S A : Type 0} → (FsError → Text) → Action S FsError A → Action S Text A
showing display m s = let (r, s') = m s in (shown display r, s')

module _ {D F X : Type 0} where
  unfoldable pub usable : Session D F X → Bool
  usable s = is_some s.mounted && not s.device.retired

  -- The method `mounted`.
  unfoldable pub mounted_engine : Action (Session D F X) Text (Mounted F X)
  mounted_engine = do
    s ← get
    raise_if (not (usable s)) (text "filesystem session is closed or retired")
    or_panic s.mounted

  -- The method `writable`.
  unfoldable pub require_writable : Action (Session D F X) Text (Unit {0})
  require_writable = do
    _ ← mounted_engine
    s ← get
    raise_if (not s.device.writable) (text "filesystem was opened read-only")

  -- The method `mutation`, on how its argument ended.
  unfoldable pub settle : {A : Type 0} → Outcome Text A → Action (Session D F X) Text A
  settle (err e) s = (err e, record s { device = retire s.device })
  settle (ok a) s = (ok a, s)
  settle dropped s = (dropped, s)
  settle panicked s = (panicked, s)
  settle stuck s = (stuck, s)

  unfoldable pub mutation :
      {A : Type 0} → Action (Session D F X) Text A → Action (Session D F X) Text A
  mutation m s = let (r, s') = m s in settle r s'

  -- `match` on the file system that is mounted: one arm for each.
  unfoldable pub on_engine :
      {A : Type 0}
      → Action (F × Guarded D) Text A
      → Action (X × Guarded D) Text A
      → Mounted F X
      → Action (Session D F X) Text A
  on_engine f x (fat fs) s =
      let (r, (fs', g)) = f (fs, s.device) in (r, record { mounted = some (fat fs'); device = g })
  on_engine f x (ext4 fs) s =
      let (r, (fs', g)) = x (fs, s.device) in (r, record { mounted = some (ext4 fs'); device = g })

  unfoldable pub abort : Session D F X → Session D F X
  abort s = record { mounted = none; device = retire s.device }
