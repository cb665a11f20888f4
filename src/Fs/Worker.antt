-- ===== src/Fs/Worker.antt =====
-- canoe-fs/src/wasm.rs: the block device over the storage broker of the page, and its file system. `J`
-- is the state of the page.
pub mod Exact
pub mod Methods
pub mod Calls
use canoe_nusb_storage.Common.{
  ℕ, zero, suc, ◌+◌, ◌*◌, ◌/◌, ◌%◌, ◌^◌, ◌==◌, Bool, true, false, ◌&&◌, ◌||◌, List, length, ltb,
  if◌then◌else◌, String,
}
use canoe_nusb_storage.Common.Outcome.{
  Outcome, ok, err, dropped, panicked, stuck, Action, raise_if, ◌>>=◌, ◌>>◌,
}
use canoe_nusb_storage.Fs.Text.{Text, text}
use canoe_nusb_storage.Fs.Guarded.{BlockDevice, Guarded, FsError, io}
use canoe_nusb_storage.Fs.Engines.{FatFs, Ext4}
use canoe_nusb_storage.Fs.Session.{Session}
use canoe_nusb_storage.Fs.Lifecycle.{open_session}
use canoe_nusb_storage.Fs.Operations.{max_file_chunk}
use canoe_nusb_storage.Fs.Operations

-- The functions of the page. An offset is a JavaScript number; an error is the value that was thrown.
pub record Storage (J : Type 0) : Type 0 where
  pub read_at : (offset count : ℕ) → Action J ℕ (List ℕ)
  pub write_at : (offset : ℕ) → List ℕ → Action J ℕ (Unit {0})
  pub flush : Action J ℕ (Unit {0})
  -- `format!("storage broker: {value:?}")`
  pub debug : ℕ → String

-- How many low bits a number has beyond the 53 of an `f64`; a `u64` has 11 at most.
abbrev pub excess : (fuel : ℕ) → ℕ → ℕ
excess zero n = 0
excess (suc fuel) n = let more = suc (excess fuel (n / 2)) in if ltb n (2 ^ 53) then 0 else more

-- `n` in units, to the nearest, and between two of them to the even one.
abbrev pub nearest : (unit n : ℕ) → ℕ
nearest unit n =
    let low = n / unit in
    if ltb unit (2 * (n % unit)) || ((2 * (n % unit) == unit) && (low % 2 == 1))
    then low + 1
    else low

-- `n as f64`, of a `u64`.
unfoldable pub as_f64 : ℕ → ℕ
as_f64 n = let unit = 2 ^ excess 11 n in nearest unit n * unit

-- `BrokerDevice`, with the page.
pub record BrokerDevice (J : Type 0) : Type 0 where
  pub length : ℕ
  pub writable : Bool
  pub page : J

module _ {J : Type 0} (storage : Storage J) where
  unfoldable pub io_error : ℕ → FsError
  io_error value = io (storage.debug value)

  -- `map_err(io_error)`
  unfoldable pub broken : {A : Type 0} → Outcome ℕ A → Outcome FsError A
  broken (ok a) = ok a
  broken (err value) = err (io_error value)
  broken dropped = dropped
  broken panicked = panicked
  broken stuck = stuck

  abbrev pub on_page : {A : Type 0} → Action J ℕ A → Action (BrokerDevice J) FsError A
  on_page m d = let (r, page) = m d.page in (broken r, record d { page = page })

  -- The implementation of `BlockDevice`, by how it hands an offset to the page.
  abbrev pub broker_by : (ℕ → ℕ) → BlockDevice (BrokerDevice J)
  broker_by number = record {
    size_bytes = λ d. d.length;
    is_writable = λ d. d.writable;
    read_at = λ offset count. on_page (storage.read_at (number offset) count);
    write_at = λ offset bytes. on_page (storage.write_at (number offset) bytes);
    flush = on_page storage.flush;
  }

  abbrev pub broker : BlockDevice (BrokerDevice J)
  broker = broker_by as_f64

unfoldable pub filesystem_api_version : ℕ
filesystem_api_version = 2

module _ {J F X Dir Item File Inode Raw : Type 0} (storage : Storage J)
    (fs : FatFs (F × Guarded (BrokerDevice J)) Dir Item File)
    (ext : Ext4 (X × Guarded (BrokerDevice J)) Inode Raw)
    (fat_mount : Action (Guarded (BrokerDevice J)) Text F)
    (ext4_mount : Action (Guarded (BrokerDevice J)) FsError X) where
  -- The session, which is all of a `BrowserFilesystem`, or the error; and the page.
  unfoldable pub open_filesystem : Text → Bool → ℕ → Action J Text (Session (BrokerDevice J) F X)
  open_filesystem kind writable length page =
      if (length == 0) || ltb 9007199254740991 length
      then (err (text "filesystem capacity is not exactly representable"), page)
      else (let (r, g) =
            open_session (broker storage) fs ext fat_mount ext4_mount kind writable
              (record { length = length; writable = writable; page = page }) in
          (r, g.device.page))
