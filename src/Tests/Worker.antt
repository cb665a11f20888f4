-- ===== src/Tests/Worker.antt =====
-- The storage broker of a page that holds sixteen bytes, and file systems that refuse every call but
-- a write of ext4, which is the guard's.
use canoe_nusb_storage.Common.{
  ℕ, inr, ◌↔◌, ◌≡◌, refl, false, true, some, List, [], ◌∷◌, slice, splice,
}
use canoe_nusb_storage.Common.Bytes.{bytes_eq}
use canoe_nusb_storage.Common.Outcome.{ok, err, Action}
use canoe_nusb_storage.Fs.Text.{text}
use canoe_nusb_storage.Fs.Guarded.{Guarded, read_only, write_at}
use canoe_nusb_storage.Fs.Engines.{FatFs, Ext4}
use canoe_nusb_storage.Fs.Session.{ext4, shown}
use canoe_nusb_storage.Fs.Lifecycle.{open_session}
use canoe_nusb_storage.Fs.Confinement.{Reaches, Reaches-trans, stays, writes}
use canoe_nusb_storage.Fs.Confinement.Sessions.{FatKeeps, Ext4Keeps}
use canoe_nusb_storage.Fs.Worker.Methods.{Serializer}
use canoe_nusb_storage.Fs.Worker.Calls.{Call, serve_all, serve_all-opened}
use canoe_nusb_storage.Fs.Worker.{Storage, BrokerDevice, broker, as_f64, open_filesystem}
use canoe_nusb_storage.Fs.Worker.Exact.{exact, open_filesystem-exact}
use canoe_nusb_storage.Tests.Device.{content}

abbrev page : Storage (List ℕ)
page = record {
  read_at = λ offset count d. (ok (slice offset count d), d);
  write_at = λ offset bytes d. (ok tt, splice offset bytes d);
  flush = λ d. (ok tt, d);
  debug = λ _. "storage broker: undefined";
}

abbrev Host : Type 0
Host = Unit {0} × Guarded (BrokerDevice (List ℕ))

abbrev refuses : {E A : Type 0} → E → Action Host E A
refuses e s = (err e, s)

abbrev fat : FatFs Host (Unit {0}) (Unit {0}) (Unit {0})
fat = record {
  root_dir = λ _. tt;
  open_dir = λ _. refuses [];
  next = λ _. refuses [];
  file_name = λ _. [];
  short_file_name = λ _. [];
  is_dir = λ _. false;
  item_len = λ _. 0;
  open_file = λ _. refuses [];
  seek_start = λ _ _. refuses [];
  read = λ _ _. refuses [];
  write_all = λ _ _. refuses [];
  flush_file = λ _. refuses [];
  truncate_file = λ _. refuses [];
  create_file = λ _. refuses [];
  create_dir = λ _. refuses [];
  remove = λ _. refuses [];
  rename = λ _ _. refuses [];
  flush = refuses [];
  unmount = refuses [];
  upper = λ s. s;
  stats = refuses [];
  dirty = refuses [];
}

abbrev ext : Ext4 Host (Unit {0}) (Unit {0})
ext = record {
  finish = refuses read_only;
  lookup = λ _. refuses read_only;
  read_inode = λ _. refuses read_only;
  is_symlink = λ _. false;
  is_dir = λ _. false;
  is_file = λ _. true;
  size = λ _. 0;
  generation = λ _. 0;
  links_count = λ _. 1;
  get_label = λ _ _. refuses read_only;
  set_label = λ _ _. refuses read_only;
  read_file = λ _ _ _ _ _. refuses read_only;
  create = λ _ _. refuses read_only;
  pwrite = λ _ offset bytes s. (
    (write_at (broker page) offset bytes s.1).0,
    (s.0, (write_at (broker page) offset bytes s.1).1),
  );
  truncate_shrink = λ _ _. refuses read_only;
  mkdir = λ _ _. refuses read_only;
  rmdir = λ _. refuses read_only;
  unlink = λ _. refuses read_only;
  rename = λ _ _ _. refuses read_only;
  flush = refuses read_only;
  fresh_read = refuses read_only;
  display = λ _. text "filesystem is read-only";
  has_inline_data = λ _. false;
  block_size = λ _. 4096;
  map_inode_logical = λ _ _. refuses read_only;
  read_block = λ _. refuses read_only;
  parse_block = λ _ _ _. refuses read_only;
  from_utf8 = inr;
  read_superblock = refuses read_only;
  read_journal = refuses read_only;
  validates = λ _ _ _. false;
}

abbrev guarded : Guarded (BrokerDevice (List ℕ))
guarded = record {
  device = record { length = 16; writable = true; page = content };
  writable = true;
  retired = false;
}

opened :
    open_filesystem page fat ext (λ g. (ok tt, g)) (λ g. (ok tt, g)) (text "ext4") true 16 content
    ≡ (ok (record { mounted = some (ext4 tt); device = guarded }), content)
unfolding open_filesystem open_session text bytes_eq shown
opened = refl

open_filesystem-exact_example :
    Reaches (broker page) guarded guarded ↔ Reaches (exact page) guarded guarded
open_filesystem-exact_example =
    open_filesystem-exact page fat ext (λ g. (ok tt, g)) (λ g. (ok tt, g)) (text "ext4") true 16
      content content (record { mounted = some (ext4 tt); device = guarded }) opened guarded guarded
      refl

-- Above 2^53 a conversion may move an offset: to the even one of two neighbours.
moved : as_f64 9007199254740993 ≡ 9007199254740992
unfolding as_f64
moved = refl

abbrev Behind : Guarded (BrokerDevice (List ℕ)) → Host → Type 0
Behind g s = Reaches (broker page) g s.1

fat-FatKeeps : (g : Guarded (BrokerDevice (List ℕ))) → FatKeeps (Behind g) fat
fat-FatKeeps g = record {
  open_dir = λ t s h. h;
  next = λ d s h. h;
  open_file = λ t s h. h;
  seek_start = λ n f s h. h;
  read = λ n f s h. h;
  write_all = λ b f s h. h;
  flush_file = λ f s h. h;
  truncate_file = λ f s h. h;
  create_file = λ t s h. h;
  create_dir = λ t s h. h;
  remove = λ t s h. h;
  rename = λ t u s h. h;
  flush = λ s h. h;
  unmount = λ s h. h;
  stats = λ s h. h;
  dirty = λ s h. h;
}

ext-Ext4Keeps : (g : Guarded (BrokerDevice (List ℕ))) → Ext4Keeps (Behind g) ext
ext-Ext4Keeps g = record {
  finish = λ s h. h;
  lookup = λ t s h. h;
  read_inode = λ n s h. h;
  get_label = λ i r s h. h;
  set_label = λ t l s h. h;
  read_file = λ n i r o c s h. h;
  create = λ t m s h. h;
  pwrite = λ t offset bytes s h. Reaches-trans (broker page) h (writes offset bytes stays);
  truncate_shrink = λ n c s h. h;
  mkdir = λ t m s h. h;
  rmdir = λ t s h. h;
  unlink = λ t s h. h;
  rename = λ t u b s h. h;
  flush = λ s h. h;
  fresh_read = λ s h. h;
  map_inode_logical = λ i n s h. h;
  read_block = λ n s h. h;
  parse_block = λ b i c s h. h;
  read_superblock = λ s h. h;
  read_journal = λ s h. h;
}

abbrev read_only_guard : Guarded (BrokerDevice (List ℕ))
read_only_guard = record {
  device = record { length = 16; writable = false; page = content };
  writable = false;
  retired = false;
}

opened_read_only :
    open_filesystem page fat ext (λ g. (ok tt, g)) (λ g. (ok tt, g)) (text "ext4") false 16 content
    ≡ (ok (record { mounted = some (ext4 tt); device = read_only_guard }), content)
unfolding open_filesystem open_session text bytes_eq shown
opened_read_only = refl

abbrev serializer : Serializer (Unit {0})
serializer = record { of_report = λ _. ok tt; of_entry = λ _. ok tt; of_entries = λ _. ok tt }

abbrev calls : List Call
calls = Call.read (text "/a") 0 4 ∷ Call.write (text "/a") 0 (7 ∷ []) ∷ Call.flush ∷ Call.close ∷ []

serve_all-opened_example :
    (serve_all page fat ext serializer calls
      (record { mounted = some (ext4 tt); device = read_only_guard })).device.device.page
    ≡ content
serve_all-opened_example =
    serve_all-opened page fat ext serializer (λ g. (ok tt, g)) (λ g. (ok tt, g)) (λ g. stays)
      (λ g. stays) (λ d. d) (λ offset count j. refl) (λ j. refl)
      (record { by_fat = fat-FatKeeps; by_ext4 = ext-Ext4Keeps }) (text "ext4") 16 content content
      (record { mounted = some (ext4 tt); device = read_only_guard }) opened_read_only calls
