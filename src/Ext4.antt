-- ===== src/Ext4.antt =====
-- nusb-ext4/src/lib.rs: inspection before a mount, and the mount that may replay a journal. `D` is
-- the state of the block device.
pub mod Recovery
use canoe_nusb_storage.Common.{
  ℕ, ◌==◌, Bool, true, false, not, ◌||◌, Option, none, some, List, if◌then◌else◌, bit_and, String,
}
use canoe_nusb_storage.Common.Outcome.{
  Outcome, ok, err, Action, pure, raise, get, raise_if, ◌>>=◌, ◌>>◌,
}

-- The trait `BlockDevice` of fs_ext4, by its methods. `read_at` returns the bytes with which it fills a
-- buffer of the given length.
pub record BlockDevice (D E : Type 0) : Type 0 where
  pub read_at : (offset count : ℕ) → Action D E (List ℕ)
  pub size_bytes : D → ℕ
  pub write_at : (offset : ℕ) → List ℕ → Action D E (Unit {0})
  pub flush : Action D E (Unit {0})
  pub is_writable : D → Bool

-- fs_ext4, as far as the file calls it. `default_write_at`, `default_flush` and `default_is_writable`
-- are the trait's own methods, for a device that does not define them; `corrupt` is `Error::Corrupt`.
-- `validates` says that `validate_plain_recovery` answers `Ok`; `recover_bit` is `Incompat::RECOVER`.
pub record Library (D X Journal E : Type 0) : Type 0 where
  pub default_write_at : (offset : ℕ) → List ℕ → Action D E (Unit {0})
  pub default_flush : Action D E (Unit {0})
  pub default_is_writable : D → Bool
  pub mount : BlockDevice D E → Action D E X
  pub mount_recovering : BlockDevice D E → Action D E X
  pub read_superblock : X → Action D E (Option Journal)
  pub feature_incompat : X → ℕ
  pub state : X → ℕ
  pub last_orphan : X → ℕ
  pub block_size : X → ℕ
  pub blocks_count : X → ℕ
  pub start : Journal → ℕ
  pub errno : Journal → ℕ
  pub validates : Journal → (block_size blocks_count : ℕ) → Bool
  pub recover_bit : ℕ
  pub corrupt : String → E

pub record Inspection : Type 0 where
  pub needs_recovery : Bool
  pub orphan_head : ℕ
  pub journal_start : Option ℕ
  pub journal_error : Option ℕ
  pub write_blocker : Option String

abbrev pub mapped : {A B : Type 0} → (A → B) → Option A → Option B
mapped f none = none
mapped f (some a) = some (f a)

-- `Option::is_some_and` and `Option::is_none_or`
abbrev pub is_some_and : {A : Type 0} → (A → Bool) → Option A → Bool
is_some_and f none = false
is_some_and f (some a) = f a

abbrev pub is_none_or : {A : Type 0} → (A → Bool) → Option A → Bool
is_none_or f none = true
is_none_or f (some a) = f a

module _ {D X Journal E : Type 0} (lib : Library D X Journal E) where
  unfoldable pub blocker : X → Option Journal → Option String
  blocker fs journal =
      if not (bit_and (lib.state fs) 2 == 0) || is_some_and (λ j. not (lib.errno j == 0)) journal
      then some "filesystem or journal records an outstanding error"
      else if is_none_or (λ j. not (lib.validates j (lib.block_size fs) (lib.blocks_count fs)))
          journal
      then some "checked writes require a supported plain internal JBD2 journal"
      else none

  -- `ReadOnly`, which defines two methods of the trait.
  unfoldable pub read_only : BlockDevice D E → BlockDevice D E
  read_only device = record {
    read_at = device.read_at;
    size_bytes = device.size_bytes;
    write_at = lib.default_write_at;
    flush = lib.default_flush;
    is_writable = lib.default_is_writable;
  }

  unfoldable pub inspect : BlockDevice D E → Action D E Inspection
  inspect device = do
    fs ← lib.mount (read_only device)
    journal ← lib.read_superblock fs
    pure (record {
      needs_recovery = not (bit_and (lib.feature_incompat fs) lib.recover_bit == 0);
      orphan_head = lib.last_orphan fs;
      journal_start = mapped lib.start journal;
      journal_error = mapped lib.errno journal;
      write_blocker = blocker fs journal;
    })

  abbrev pub refuse : Option String → Action D E (Unit {0})
  refuse none = pure tt
  refuse (some reason) = raise (lib.corrupt reason)

  -- The first `if` of `mount`.
  unfoldable pub preflight : BlockDevice D E → Action D E (Unit {0})
  preflight device = do found ← inspect device; refuse found.write_blocker

  unfoldable pub mount : BlockDevice D E → Action D E X
  mount device d =
      if device.is_writable d
      then (do
        preflight device
        now ← get
        (if device.is_writable now then lib.mount_recovering device else lib.mount device))
          d
      else lib.mount device d
