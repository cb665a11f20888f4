-- ===== src/Tests/Listings.antt =====
-- The listing of a FAT directory of three files, over the device of `Tests.Files`.
use canoe_nusb_storage.Common.{
  ℕ, zero, suc, ◌+◌, ◌≤◌, ◌≡◌, ◌⊎◌, inr, refl, true, false, Option, none, some, List, [], ◌∷◌,
  length,
}
use canoe_nusb_storage.Common.Bytes.{bytes_eq}
use canoe_nusb_storage.Common.Outcome.{ok}
use canoe_nusb_storage.Fs.Text.{Text, text, split, contains, len, len_utf8}
use canoe_nusb_storage.Fs.Path.{
  path, any_bad, is_bad_component, has_forbidden, is_control, starts_with, ends_with,
}
use canoe_nusb_storage.Fs.Engines.{FatFs}
use canoe_nusb_storage.Fs.Session.{Session, Entry, file, fat, on_engine, mounted_engine, usable}
use canoe_nusb_storage.Fs.Listing.{
  list, fat_list, list_items, list_next, list_item, open_listed, is_dots,
}
use canoe_nusb_storage.Fs.Listing.Bounds.{list-bounded}
use canoe_nusb_storage.Tests.Files.{Bytes, World, small_ext4}

-- The iterator, by the number of entries that are left.
abbrev step : ℕ → Option ((Text ⊎ ℕ) × ℕ)
step zero = none
step (suc n) = some (inr n, n)

abbrev directory : FatFs World ℕ ℕ ℕ
directory = record {
  root_dir = λ _. 3;
  open_dir = λ _ s. (ok 3, s);
  next = λ left s. (ok (step left), s);
  file_name = λ n. (97 + n) ∷ [];
  short_file_name = λ n. (65 + n) ∷ [];
  is_dir = λ _. false;
  item_len = λ _. 4;
  open_file = λ _ s. (ok 0, s);
  seek_start = λ n _ s. (ok n, s);
  read = λ n f s. (ok ([], f), s);
  write_all = λ b f s. (ok f, s);
  flush_file = λ _ s. (ok tt, s);
  truncate_file = λ _ s. (ok tt, s);
  create_file = λ _ s. (ok tt, s);
  create_dir = λ _ s. (ok tt, s);
  remove = λ _ s. (ok tt, s);
  rename = λ _ _ s. (ok tt, s);
  flush = λ s. (ok tt, s);
  unmount = λ s. (ok tt, s);
  upper = λ t. t;
  stats = λ s. (ok (record { cluster_size = 512; total_clusters = 8; free_clusters = 8 }), s);
  dirty = λ s. (ok false, s);
}

abbrev mounted : Session Bytes (Unit {0}) (Unit {0})
mounted = record {
  mounted = some (fat tt);
  device = record { device = 1 ∷ []; writable = true; retired = false };
}

abbrev listed : ℕ → Entry
listed c = record { name = c ∷ []; kind = file; size = 4; inode = none; generation = none }

abbrev found : List Entry
found = listed 99 ∷ listed 98 ∷ listed 97 ∷ []

three : list directory small_ext4 5 (text "/") mounted ≡ (ok found, mounted)
unfolding list mounted_engine usable on_engine fat_list list_items list_next list_item open_listed
    is_dots path any_bad is_bad_component has_forbidden is_control starts_with ends_with len
    len_utf8 split contains bytes_eq text
three = refl

list-bounded_example :
    (usable mounted ≡ true) × (path (text "/") ≡ ok (text "/")) × (length found ≤ 4096)
list-bounded_example = list-bounded directory small_ext4 5 (text "/") mounted mounted found three
