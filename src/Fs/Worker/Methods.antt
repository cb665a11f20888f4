-- ===== src/Fs/Worker/Methods.antt =====
-- The methods of `BrowserFilesystem` in canoe-fs/src/wasm.rs, which is a session over the broker's
-- device. An error is the text that `error` makes a JavaScript value of.
use canoe_nusb_storage.Common.{ℕ, Bool, List, length, ltb}
use canoe_nusb_storage.Common.Outcome.{Outcome, Action, finish, raise_if, ◌>>=◌, ◌>>◌}
use canoe_nusb_storage.Fs.Text.{Text, text}
use canoe_nusb_storage.Fs.Guarded.{Guarded}
use canoe_nusb_storage.Fs.Engines.{FatFs, Ext4}
use canoe_nusb_storage.Fs.Session.{Session, Entry}
use canoe_nusb_storage.Fs.Session
use canoe_nusb_storage.Fs.Inspection.{Report}
use canoe_nusb_storage.Fs.Inspection
use canoe_nusb_storage.Fs.Listing
use canoe_nusb_storage.Fs.Stat
use canoe_nusb_storage.Fs.Lifecycle
use canoe_nusb_storage.Fs.Operations.{max_file_chunk}
use canoe_nusb_storage.Fs.Operations
use canoe_nusb_storage.Fs.Worker.{Storage, BrokerDevice, broker}

-- The serializer of serde_wasm_bindgen, with the error as a text; `V` are JavaScript's values.
pub record Serializer (V : Type 0) : Type 0 where
  pub of_report : Report → Outcome Text V
  pub of_entry : Entry → Outcome Text V
  pub of_entries : List Entry → Outcome Text V

module _ {J F X Dir Item File Inode Raw V : Type 0} (storage : Storage J)
    (fs : FatFs (F × Guarded (BrokerDevice J)) Dir Item File)
    (ext : Ext4 (X × Guarded (BrokerDevice J)) Inode Raw) (serializer : Serializer V) where
  abbrev BrowserFilesystem : Type 0
  BrowserFilesystem = Session (BrokerDevice J) F X

  unfoldable pub usable : BrowserFilesystem → Bool
  usable s = Session.usable s

  unfoldable pub inspect : Action BrowserFilesystem Text V
  inspect = do
    report ← Inspection.inspect (broker storage) fs ext
    finish (serializer.of_report report)

  unfoldable pub stat : Text → Action BrowserFilesystem Text V
  stat value = do entry ← Stat.stat fs ext value; finish (serializer.of_entry entry)

  -- `fuel` is that of `Listing.list`.
  unfoldable pub list : (fuel : ℕ) → Text → Action BrowserFilesystem Text V
  list fuel value = do
    entries ← Listing.list fs ext fuel value
    finish (serializer.of_entries entries)

  unfoldable pub read : Text → (offset count : ℕ) → Action BrowserFilesystem Text (List ℕ)
  read value offset count = Operations.read (broker storage) fs ext value offset count

  unfoldable pub create_file : Text → Action BrowserFilesystem Text (Unit {0})
  create_file value = Operations.create_file (broker storage) fs ext value

  unfoldable pub write : Text → ℕ → List ℕ → Action BrowserFilesystem Text (Unit {0})
  write value offset bytes = do
    raise_if (ltb max_file_chunk (length bytes)) (text "file write exceeds4MiB")
    Operations.write (broker storage) fs ext value offset bytes

  unfoldable pub truncate : Text → ℕ → Action BrowserFilesystem Text (Unit {0})
  truncate value count = Operations.truncate (broker storage) fs ext value count

  unfoldable pub mkdir : Text → Action BrowserFilesystem Text (Unit {0})
  mkdir value = Operations.mkdir (broker storage) fs ext value

  unfoldable pub remove : Text → Action BrowserFilesystem Text (Unit {0})
  remove value = Operations.remove (broker storage) fs ext value

  unfoldable pub rename : (source destination : Text) → Action BrowserFilesystem Text (Unit {0})
  rename source destination = Operations.rename (broker storage) fs ext source destination

  unfoldable pub flush : Action BrowserFilesystem Text (Unit {0})
  flush = Lifecycle.flush (broker storage) fs ext

  unfoldable pub fresh_read : Action BrowserFilesystem Text (Unit {0})
  fresh_read = Lifecycle.fresh_read (broker storage) fs ext

  -- The method `finish`.
  unfoldable pub close : Action BrowserFilesystem Text (Unit {0})
  close = Lifecycle.finish (broker storage) fs ext

  unfoldable pub abort : BrowserFilesystem → BrowserFilesystem
  abort s = Session.abort s
