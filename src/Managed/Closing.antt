-- ===== src/Managed/Closing.antt =====
-- A `ManagedStorageSession` (canoe-usb-web/src/managed.rs) that loses its client has released its
-- interface and closed its device.
use canoe_nusb_storage.Common.{ℕ, ◌≡◌, refl, Option, none, some, List, arith}
use canoe_nusb_storage.Common.Ends.{Ends}
use canoe_nusb_storage.Common.Outcome.{Outcome, ok, err, dropped, panicked, stuck, Action}
use canoe_nusb_storage.Scsi.Error.{Error}
use canoe_nusb_storage.Scsi.Transport.{BulkIo}
use canoe_nusb_storage.Scsi.Retirement.{command-Ends}
use canoe_nusb_storage.Scsi.Operations
use canoe_nusb_storage.Range
use canoe_nusb_storage.Range.{RangeSession}
use canoe_nusb_storage.Web.Browser.{Browser}
use canoe_nusb_storage.Web.Closing.{close_web, close_after_failure}
use canoe_nusb_storage.Managed
use canoe_nusb_storage.Managed.{ManagedStorageSession, take, finish, fail, bounded, without}
use canoe_nusb_storage.Managed.Requests.{
  Request, perform, IsLive, HoldsLive, IsValid, Keeps, read_range-Keeps, write_range-Keeps,
  sync-Keeps,
}

module _ {T W I : Type 0} (browser : Browser W I) (handle : T → W) where
  -- The session after it released its interface and closed its device.
  abbrev pub IsClosed : ManagedStorageSession T W I → ManagedStorageSession T W I → Type 0
  IsClosed s s' =
      (s'.interface_owner ≡ none)
      × ((t : T) × (s'.device ≡ (close_web browser s.interface_owner (handle t)).1))

  finish-IsClosed :
      {A : Type 0} (client client' : RangeSession T) (r : Outcome Error A)
      (s : ManagedStorageSession T W I)
      → Keeps browser handle client (r, client')
      → (finish browser handle client' r (record s { client = none })).1.client ≡ none
      → IsClosed s (finish browser handle client' r (record s { client = none })).1
  unfolding finish fail close_after_failure
  finish-IsClosed client client' r s k h = (ground arith, (client'.scsi.io, ground arith))

  bounded_at :
      {A : Type 0} (m : Action (RangeSession T) Error A) (client : RangeSession T)
      (s : ManagedStorageSession T W I)
      → Keeps browser handle client (m client)
      → (bounded browser handle m (record s { client = some client })).1.client ≡ none
      → IsClosed s (bounded browser handle m (record s { client = some client })).1
  unfolding bounded take
  bounded_at m client s k h = finish-IsClosed client (m client).1 (m client).0 s k h

  module _ (bus : BulkIo T) (usize_max : ℕ) where
    write_range_at :
        (offset : ℕ) (bytes : List ℕ) (client : RangeSession T) (s : ManagedStorageSession T W I)
        → IsLive (record s { client = some client }) client
        → (Managed.write_range browser handle bus usize_max offset bytes
            (record s { client = some client })).1.client
          ≡ none
        → IsClosed s
            (Managed.write_range browser handle bus usize_max offset bytes
              (record s { client = some client })).1
    unfolding Managed.write_range
    write_range_at offset bytes client s live h = ground (
      arith,
      bounded_at (Range.write_range bus usize_max offset bytes) client s
          (write_range-Keeps browser handle bus usize_max offset bytes client live.supported),
    )

    eject-Ends :
        (c : RangeSession T)
        → Ends (λ _ _. Unit {0}) (λ _ _. Unit {0}) (λ _. Unit {0}) (Range.eject bus usize_max c)
    unfolding Range.eject Operations.eject
    eject-Ends c = grind (arith, command-Ends)

    ejected_at :
        (r : Outcome Error (Unit {0})) (c : RangeSession T) (s : ManagedStorageSession T W I)
        → Ends (λ _ _. Unit {0}) (λ _ _. Unit {0}) (λ _. Unit {0}) (r, c)
        → IsClosed s (Managed.ejected browser handle bus usize_max r (without browser handle c s)).1
    unfolding Managed.ejected Managed.release fail close_after_failure
    ejected_at (ok u) c s k = (refl, (c.scsi.io, refl))
    ejected_at (err e) c s k = (refl, (c.scsi.io, refl))
    ejected_at dropped c s k = (refl, (c.scsi.io, refl))
    ejected_at panicked c s k = absurd k
    ejected_at stuck c s k = absurd k

    perform_at :
        (r : Request) (client : RangeSession T) (s : ManagedStorageSession T W I)
        → IsLive (record s { client = some client }) client
        → (perform browser handle bus usize_max r (record s { client = some client })).client ≡ none
        → IsClosed s (perform browser handle bus usize_max r (record s { client = some client }))
    unfolding perform Managed.read_range Managed.sync Managed.close Managed.release Managed.eject
        take
    perform_at (Request.read_range offset count) client s live h =
        bounded_at _ client s
          (read_range-Keeps browser handle bus usize_max offset count client live.supported) h
    perform_at (Request.write_range offset bytes) client s live h =
        write_range_at offset bytes client s live h
    perform_at Request.sync client s live h =
        bounded_at _ client s (sync-Keeps browser handle bus usize_max client) h
    perform_at Request.eject client s live h =
        ejected_at (Range.eject bus usize_max client).0 (Range.eject bus usize_max client).1
          (record s { client = none }) (eject-Ends client)
    perform_at Request.close client s live h = (refl, (client.scsi.io, refl))

    holding :
        (r : Request) (held : Option (RangeSession T)) (s : ManagedStorageSession T W I)
        → HoldsLive (record s { client = held }) held
        → (client : RangeSession T) → held ≡ some client
        → (perform browser handle bus usize_max r (record s { client = held })).client ≡ none
        → IsClosed s (perform browser handle bus usize_max r (record s { client = held }))
    holding r none s live client e h = cc
    holding r (some c) s live client e h = perform_at r c s live h

    -- Where a session is valid and holds a client, a call that leaves it without one has taken the
    -- claimed interface from it and closed the device by `close_web` with that interface, in the
    -- state in which some state of the client's transport leaves the device's handle.
    pub perform-IsClosed :
        (r : Request) (s : ManagedStorageSession T W I) (client : RangeSession T)
        → IsValid s
        → s.client ≡ some client
        → (perform browser handle bus usize_max r s).client ≡ none
        → IsClosed s (perform browser handle bus usize_max r s)
    perform-IsClosed r s client v e h = holding r s.client s v client e h
