-- ===== src/Tests/Files.antt =====
-- A block device over a list of bytes, and two small file systems that reach it through the guard:
-- the ext4 one has a file of four bytes at the start of the device, under every name; the FAT one has none.
use canoe_nusb_storage.Common.{
  ℕ, true, false, none, some, inr, List, [], ◌∷◌, length, slice, splice,
}
use canoe_nusb_storage.Common.Outcome.{Outcome, ok, err, dropped, panicked, stuck, Action}
use canoe_nusb_storage.Fs.Guarded.{BlockDevice, Guarded, FsError}
use canoe_nusb_storage.Fs.Guarded
use canoe_nusb_storage.Fs.Engines.{FatFs, Ext4}
use canoe_nusb_storage.Fs.Confinement.{Reaches, stays, writes, Reaches-trans}
use canoe_nusb_storage.Fs.Confinement.Sessions.{FatKeeps, Ext4Keeps}
use canoe_nusb_storage.Fs.Confinement.Devices.{ThroughGuard}

abbrev pub Bytes : Type 0
Bytes = List ℕ

abbrev pub memory : BlockDevice Bytes
memory = record {
  size_bytes = length;
  is_writable = λ _. true;
  read_at = λ offset count d. (ok (slice offset count d), d);
  write_at = λ offset bytes d. (ok tt, splice offset bytes d);
  flush = λ d. (ok tt, d);
}

abbrev pub World : Type 0
World = Unit {0} × Guarded Bytes

abbrev answered : {A B E E' : Type 0} → E' → B → Outcome E A → Outcome E' B
answered e b (ok _) = ok b
answered e b (err _) = err e
answered e b dropped = dropped
answered e b panicked = panicked
answered e b stuck = stuck

abbrev nothing : {E A : Type 0} → A → Action World E A
nothing a s = (ok a, s)

abbrev put : {E A : Type 0} → E → A → ℕ → List ℕ → Action World E A
put e a offset bytes s =
    let (r, g) = Guarded.write_at memory offset bytes s.1 in (answered e a r, (s.0, g))

abbrev pub small_fat : FatFs World (Unit {0}) (Unit {0}) ℕ
small_fat = record {
  root_dir = λ _. tt;
  open_dir = λ _. nothing tt;
  next = λ _. nothing none;
  file_name = λ _. 65 ∷ [];
  short_file_name = λ _. 65 ∷ [];
  is_dir = λ _. false;
  item_len = λ _. 4;
  open_file = λ _. nothing 0;
  seek_start = λ n _. nothing n;
  read = λ n f. nothing ([], f);
  write_all = λ b f. put [] f f b;
  flush_file = λ _. nothing tt;
  truncate_file = λ _. nothing tt;
  create_file = λ _. nothing tt;
  create_dir = λ _. nothing tt;
  remove = λ _. nothing tt;
  rename = λ _ _. nothing tt;
  flush = nothing tt;
  unmount = nothing tt;
  upper = λ t. t;
  stats = nothing (record { cluster_size = 512; total_clusters = 8; free_clusters = 8 });
  dirty = nothing false;
}

abbrev pub small_ext4 : Ext4 World (Unit {0}) (Unit {0})
small_ext4 = record {
  finish = nothing tt;
  lookup = λ _. nothing 12;
  read_inode = λ _. nothing (tt, tt);
  is_symlink = λ _. false;
  is_dir = λ _. false;
  is_file = λ _. true;
  size = λ _. 4;
  generation = λ _. 0;
  links_count = λ _. 1;
  get_label = λ _ _. nothing none;
  set_label = λ _ _. nothing tt;
  read_file = λ _ _ _ _ _. nothing [];
  create = λ _ _. nothing tt;
  pwrite = λ _ offset b. put FsError.out_of_bounds tt offset b;
  truncate_shrink = λ _ _. nothing tt;
  mkdir = λ _ _. nothing tt;
  rmdir = λ _. nothing tt;
  unlink = λ _. nothing tt;
  rename = λ _ _ _. nothing tt;
  flush = nothing tt;
  fresh_read = nothing tt;
  display = λ _. [];
  has_inline_data = λ _. false;
  block_size = λ _. 4096;
  map_inode_logical = λ _ n. nothing (some n);
  read_block = λ _. nothing [];
  parse_block = λ _ _ _. nothing [];
  from_utf8 = inr;
  read_superblock = λ s. (err FsError.read_only, s);
  read_journal = nothing none;
  validates = λ _ _ _. true;
}

module _ (g : Guarded Bytes) where
  abbrev Behind : World → Type 0
  Behind s = Reaches memory g s.1

  pub small_fat-FatKeeps : FatKeeps Behind small_fat
  small_fat-FatKeeps = record {
    open_dir = λ _ _ h. h;
    next = λ _ _ h. h;
    open_file = λ _ _ h. h;
    seek_start = λ _ _ _ h. h;
    read = λ _ _ _ h. h;
    write_all = λ b f _ h. Reaches-trans memory h (writes f b stays);
    flush_file = λ _ _ h. h;
    truncate_file = λ _ _ h. h;
    create_file = λ _ _ h. h;
    create_dir = λ _ _ h. h;
    remove = λ _ _ h. h;
    rename = λ _ _ _ h. h;
    flush = λ _ h. h;
    unmount = λ _ h. h;
    stats = λ _ h. h;
    dirty = λ _ h. h;
  }

  pub small_ext4-Ext4Keeps : Ext4Keeps Behind small_ext4
  small_ext4-Ext4Keeps = record {
    finish = λ _ h. h;
    lookup = λ _ _ h. h;
    read_inode = λ _ _ h. h;
    get_label = λ _ _ _ h. h;
    set_label = λ _ _ _ h. h;
    read_file = λ _ _ _ _ _ _ h. h;
    create = λ _ _ _ h. h;
    pwrite = λ _ offset b _ h. Reaches-trans memory h (writes offset b stays);
    truncate_shrink = λ _ _ _ h. h;
    mkdir = λ _ _ _ h. h;
    rmdir = λ _ _ h. h;
    unlink = λ _ _ h. h;
    rename = λ _ _ _ _ h. h;
    flush = λ _ h. h;
    fresh_read = λ _ h. h;
    map_inode_logical = λ _ _ _ h. h;
    read_block = λ _ _ h. h;
    parse_block = λ _ _ _ _ h. h;
    read_superblock = λ _ h. h;
    read_journal = λ _ h. h;
  }

pub small-ThroughGuard : ThroughGuard memory small_fat small_ext4
small-ThroughGuard = record { by_fat = small_fat-FatKeeps; by_ext4 = small_ext4-Ext4Keeps }
