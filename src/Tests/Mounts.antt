-- ===== src/Tests/Mounts.antt =====
-- A checked mount of an ext4 file system with a clean plain journal.
use canoe_nusb_storage.Common.{ℕ, ◌+◌, ◌≡◌, refl, ◌⊎◌, true, false, some, [], if◌then◌else◌}
use canoe_nusb_storage.Common.Outcome.{ok, err}
use canoe_nusb_storage.Ext4.{BlockDevice, Library, blocker, read_only, inspect, preflight, mount}
use canoe_nusb_storage.Ext4.Recovery.{IsSound, Mounts, mount-IsSound}

-- The device is a counter of the mounts; the journal is the number of its error.
abbrev counter : BlockDevice ℕ ℕ
counter = record {
  read_at = λ _ _ d. (ok [], d);
  size_bytes = λ _. 4096000;
  write_at = λ _ _ d. (ok tt, d);
  flush = λ d. (ok tt, d);
  is_writable = λ _. true;
}

abbrev clean : Library ℕ ℕ ℕ ℕ
clean = record {
  default_write_at = λ _ _ d. (err 2, d);
  default_flush = λ d. (ok tt, d);
  default_is_writable = λ _. false;
  mount = λ device d. (ok (if device.is_writable d then 8 else 7), d + 1);
  mount_recovering = λ device d. (ok 9, d + 1);
  read_superblock = λ _ d. (ok (some 0), d);
  feature_incompat = λ _. 4;
  state = λ _. 1;
  last_orphan = λ _. 0;
  block_size = λ _. 4096;
  blocks_count = λ _. 1000;
  start = λ _. 1;
  errno = λ j. j;
  validates = λ _ _ _. true;
  recover_bit = 4;
  corrupt = λ _. 1;
}

mounted : mount clean counter 0 ≡ (ok 9, 2)
unfolding mount preflight inspect blocker read_only
mounted = refl

mount-IsSound_example :
    ((true ≡ false) × (clean.mount counter 0 ≡ (ok 9, 2)))
    ⊎ ((true ≡ true) × ((d2 : ℕ) × IsSound clean counter 0 d2 × Mounts clean counter d2 (ok 9, 2)))
mount-IsSound_example = mount-IsSound clean counter 0 9 2 mounted
