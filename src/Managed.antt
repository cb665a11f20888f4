-- ===== src/Managed.antt =====
-- `ManagedStorageSession` of canoe-usb-web/src/managed.rs: byte ranges for JavaScript, over one
-- `RangeSession`. `T` is the transport with the device behind it, `W` the state of the browser's
-- device handle, and `I` its claimed interfaces; `handle` is the state of the handle where a client
-- has the transport, so `device` is that state only once the client is dropped.
pub mod Opening
pub mod Requests
pub mod Closing
pub mod Refinement
pub mod Writeless
use canoe_nusb_storage.Common.{
  ℕ, ◌==◌, Bool, true, false, not, ◌&&◌, ◌||◌, Option, none, some, List, length, ltb, if◌then◌else◌,
  String,
}
use canoe_nusb_storage.Common.Outcome.{
  Outcome, ok, err, dropped, panicked, stuck, Action, pure, raise, get, raise_if, ◌>>=◌, ◌>>◌,
}
use canoe_nusb_storage.Scsi.Error.{Error}
use canoe_nusb_storage.Scsi.Transport.{BulkIo, Geometry}
use canoe_nusb_storage.Range
use canoe_nusb_storage.Range.{
  RangeSession, Access, read_only, read_write, is_read_write, max_range_bytes, size_bytes,
}
use canoe_nusb_storage.Web.Browser.{Browser, Failure, storage, message}
use canoe_nusb_storage.Web.Closing.{close_web, close_after_failure}

pub record ManagedStorageSession (T W I : Type 0) : Type 0 where
  pub client : Option (RangeSession T)
  pub interface_owner : Option I
  pub device : W
  pub interface : ℕ
  pub alternate : ℕ
  pub max_lun : ℕ
  pub access : Access

abbrev pub client_usable : {T : Type 0} → Option (RangeSession T) → Bool
client_usable none = false
client_usable (some client) = client.scsi.usable

-- What `capacity` answers: the geometry and the number of bytes.
abbrev pub capacity_of : {T : Type 0} → Option (RangeSession T) → Outcome Failure (Geometry × ℕ)
capacity_of none = err (message "managed session is closed")
capacity_of (some client) = ok (client.geometry, size_bytes client.geometry)

abbrev pub taken : {T : Type 0} → Option (RangeSession T) → Outcome Failure (RangeSession T)
taken none = err (message "managed session is closed or uncertain; reconnect")
taken (some client) = ok client

-- The method `access`, on the field.
unfoldable pub access_text : Access → String
access_text read_only = "read-only"
access_text read_write = "read-write"

-- What `identity` reports, with the facts of the descriptors.
pub record Identity : Type 0 where
  pub vendor_id : ℕ
  pub product_id : ℕ
  pub interface : ℕ
  pub alternate : ℕ
  pub interface_class : ℕ
  pub interface_subclass : ℕ
  pub interface_protocol : ℕ
  pub maximum_lun : ℕ
  pub selected_lun : ℕ
  pub access : String
  pub transport : String
  pub max_range_bytes : ℕ

module _ {T W I : Type 0} where
  unfoldable pub identity : (vendor_id product_id : W → ℕ) → ManagedStorageSession T W I → Identity
  identity vendor_id product_id s = record {
    vendor_id = vendor_id s.device;
    product_id = product_id s.device;
    interface = s.interface;
    alternate = s.alternate;
    interface_class = 255;
    interface_subclass = 6;
    interface_protocol = 80;
    maximum_lun = s.max_lun;
    selected_lun = 0;
    access = access_text s.access;
    transport = "usb-bot-scsi";
    max_range_bytes = max_range_bytes;
  }

  -- The method `usable`.
  unfoldable pub usable : ManagedStorageSession T W I → Bool
  usable s = client_usable s.client

  unfoldable pub capacity : Action (ManagedStorageSession T W I) Failure (Geometry × ℕ)
  capacity s = (capacity_of s.client, s)

  -- The method `take`.
  unfoldable pub take : Action (ManagedStorageSession T W I) Failure (RangeSession T)
  take s = (taken s.client, record s { client = none })

  abbrev pub put_back : RangeSession T → ManagedStorageSession T W I → ManagedStorageSession T W I
  put_back client s = record s { client = some client }

  module _ (browser : Browser W I) (handle : T → W) where
    -- `drop(client)`
    abbrev pub without : RangeSession T → ManagedStorageSession T W I → ManagedStorageSession T W I
    without client s = record s { client = none; device = handle client.scsi.io }

    -- `drop(self.client.take())`
    abbrev pub drop_client :
        Option (RangeSession T) → ManagedStorageSession T W I → ManagedStorageSession T W I
    drop_client none s = record s { client = none }
    drop_client (some client) s = without client s

    -- `close_after_failure(primary, self.interface_owner.take(), &self.device)`
    unfoldable pub fail : {A : Type 0} → Failure → Action (ManagedStorageSession T W I) Failure A
    fail primary s =
        let (e, w) = close_after_failure browser primary s.interface_owner s.device in
        (err e, record s { interface_owner = none; device = w })

    -- The method `finish`, on how the bounded call ended: `dropped` is a deadline that passed.
    unfoldable pub finish :
        {A : Type 0}
        → RangeSession T
        → Outcome Error A
        → Action (ManagedStorageSession T W I) Failure A
    finish client (ok value) s = (ok value, put_back client s)
    finish client (err failure) s =
        if client.scsi.usable
        then (err (storage failure), put_back client s)
        else fail (storage failure) (without client s)
    finish client dropped s =
        fail (message "managed USB operation timed out; reconnect") (without client s)
    finish client panicked s = (panicked, s)
    finish client stuck s = (stuck, s)

    -- `take`, a call of the client, and `finish`.
    unfoldable pub bounded :
        {A : Type 0}
        → Action (RangeSession T) Error A
        → Action (ManagedStorageSession T W I) Failure A
    bounded m = do client ← take; (let (r, client') = m client in finish client' r)

    module _ (bus : BulkIo T) (usize_max : ℕ) where
      unfoldable pub read_range : ℕ → ℕ → Action (ManagedStorageSession T W I) Failure (List ℕ)
      read_range offset count = bounded (Range.read_range bus usize_max offset count)

      unfoldable pub write_range :
          ℕ → List ℕ → Action (ManagedStorageSession T W I) Failure (Unit {0})
      write_range offset bytes = do
        s ← get
        raise_if ((length bytes == 0) || ltb max_range_bytes (length bytes))
            (message "range length must be 1 byte through 4 MiB")
        raise_if (not (is_read_write s.access)) (message "managed storage was opened read-only")
        bounded (Range.write_range bus usize_max offset bytes)

      unfoldable pub sync : Action (ManagedStorageSession T W I) Failure (Unit {0})
      sync = bounded (Range.sync bus usize_max)

      -- The arm `Ok(())` of `eject`, and of `close`.
      unfoldable pub release : Action (ManagedStorageSession T W I) Failure (Unit {0})
      release s =
          let (r, w) = close_web browser s.interface_owner s.device in
          (
            elim r [ err e ↦ err (storage e) | _ ↦ ok tt ],
            record s { interface_owner = none; device = w },
          )

      -- What `eject` does once the client is dropped.
      unfoldable pub ejected :
          Outcome Error (Unit {0}) → Action (ManagedStorageSession T W I) Failure (Unit {0})
      ejected (ok _) = release
      ejected (err failure) = fail (storage failure)
      ejected dropped = fail (message "managed eject timed out; reconnect")
      ejected panicked = λ s. (panicked, s)
      ejected stuck = λ s. (stuck, s)

      unfoldable pub eject : Action (ManagedStorageSession T W I) Failure (Unit {0})
      eject = do
        client ← take
        (let (r, client') = Range.eject bus usize_max client in λ s. ejected r (without client' s))

      unfoldable pub close : Action (ManagedStorageSession T W I) Failure (Unit {0})
      close s = release (drop_client s.client s)
