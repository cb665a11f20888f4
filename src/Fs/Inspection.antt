-- ===== src/Fs/Inspection.antt =====
-- `inspect` of canoe-fs/src/lib.rs: what it reports of each file system. The JSON value is a record.
use canoe_nusb_storage.Common.{
  ℕ, ◌*◌, ◌%◌, ◌^◌, ◌==◌, Bool, false, not, ◌||◌, Option, none, some, List, bit_and, if◌then◌else◌,
  String,
}
use canoe_nusb_storage.Common.Outcome.{Action, pure, get, ◌>>=◌}
use canoe_nusb_storage.Fs.Text.{Text}
use canoe_nusb_storage.Fs.Guarded.{BlockDevice, Guarded}
use canoe_nusb_storage.Fs.Engines.{FatFs, Ext4, Features, Superblock, Journal}
use canoe_nusb_storage.Fs.Session.{Session, on_engine, showing, mounted_engine}

pub record FatReport : Type 0 where
  pub writable : Bool
  pub device_bytes : ℕ
  pub allocation_unit : ℕ
  pub total_units : ℕ
  pub free_bytes : ℕ
  pub dirty : Bool

pub record Ext4Report : Type 0 where
  pub writable : Bool
  pub device_bytes : ℕ
  pub allocation_unit : ℕ
  pub total_units : ℕ
  pub free_bytes : ℕ
  pub reserved_bytes : ℕ
  pub free_inodes : ℕ
  pub uuid : List ℕ
  pub features : Features
  pub needs_recovery : Bool
  pub orphan_head : ℕ
  pub journal : Option Journal
  pub checked_write_format_supported : Bool
  pub write_blocker : Option String

pub data Report : Type 0 where
  fat : FatReport → Report
  ext4 : Ext4Report → Report

-- `Option::is_some_and`
abbrev pub is_some_and : {A : Type 0} → (A → Bool) → Option A → Bool
is_some_and f none = false
is_some_and f (some a) = f a

unfoldable pub write_blocker : Superblock → Option Journal → (supported : Bool) → Option String
write_blocker sb journal supported =
    if not (bit_and sb.state 2 == 0) || is_some_and (λ j. not (j.errno == 0)) journal
    then some "filesystem or journal records an outstanding error"
    else if not supported
    then some "checked writes require a supported plain internal JBD2 journal"
    else none

module _ {D F Dir Item File : Type 0} (dev : BlockDevice D) where
  unfoldable pub fat_inspect :
      FatFs (F × Guarded D) Dir Item File → Action (F × Guarded D) Text Report
  fat_inspect fs = do
    stats ← fs.stats
    dirty ← fs.dirty
    s ← get
    pure (
        fat (record {
          writable = s.1.writable;
          device_bytes = dev.size_bytes s.1.device;
          allocation_unit = stats.cluster_size;
          total_units = stats.total_clusters;
          free_bytes = stats.free_clusters * stats.cluster_size;
          dirty = dirty;
        }))

module _ {D X Inode Raw : Type 0} (dev : BlockDevice D) where
  -- The products are those of `u64`, which wrap around where overflow is not checked.
  unfoldable pub ext4_inspect : Ext4 (X × Guarded D) Inode Raw → Action (X × Guarded D) Text Report
  ext4_inspect ext = do
    sb ← showing ext.display ext.read_superblock
    journal ← showing ext.display ext.read_journal
    s ← get
    (let supported = is_some_and (λ j. ext.validates j sb.block_size sb.blocks_count) journal in
        pure (
          ext4 (record {
            writable = s.1.writable;
            device_bytes = dev.size_bytes s.1.device;
            allocation_unit = sb.block_size;
            total_units = sb.blocks_count;
            free_bytes = sb.free_blocks_count * sb.block_size % 2 ^ 64;
            reserved_bytes = sb.r_blocks_count * sb.block_size % 2 ^ 64;
            free_inodes = sb.free_inodes_count;
            uuid = sb.uuid;
            features = sb.features;
            needs_recovery = not (bit_and sb.features.incompat 4 == 0);
            orphan_head = sb.last_orphan;
            journal = journal;
            checked_write_format_supported = supported;
            write_blocker = write_blocker sb journal supported;
          })))

module _ {D F X Dir Item File Inode Raw : Type 0} (dev : BlockDevice D) where
  unfoldable pub inspect :
      FatFs (F × Guarded D) Dir Item File
      → Ext4 (X × Guarded D) Inode Raw
      → Action (Session D F X) Text Report
  inspect fs ext = do m ← mounted_engine; on_engine (fat_inspect dev fs) (ext4_inspect dev ext) m
