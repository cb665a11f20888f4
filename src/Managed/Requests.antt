-- ===== src/Managed/Requests.antt =====
-- What any sequence of calls on a `ManagedStorageSession` (canoe-usb-web/src/managed.rs) keeps.
use canoe_nusb_storage.Common.{
  ℕ, ◌≡◌, refl, ◌∙◌, if◌then◌else◌, Bool, true, false, Option, none, some, List, [], ◌∷◌, arith,
}
use canoe_nusb_storage.Common.Ends.{Ends}
use canoe_nusb_storage.Common.Outcome.{Outcome, ok, err, dropped, panicked, stuck, Action}
use canoe_nusb_storage.Scsi.Error.{Error}
use canoe_nusb_storage.Scsi.Transport.{BulkIo}
use canoe_nusb_storage.Scsi.Retirement.{command-Ends}
use canoe_nusb_storage.Scsi.Operations
use canoe_nusb_storage.Range
use canoe_nusb_storage.Range.{RangeSession, size_bytes}
use canoe_nusb_storage.Range.Span.{IsSupported}
use canoe_nusb_storage.Range.Safety.{read_range-Ends, write_range-Ends}
use canoe_nusb_storage.Web.Browser.{Browser, storage}
use canoe_nusb_storage.Managed
use canoe_nusb_storage.Managed.{
  ManagedStorageSession, take, finish, fail, bounded, put_back, without, drop_client,
}

pub data Request : Type 0 where
  read_range : (offset count : ℕ) → Request
  write_range : (offset : ℕ) → List ℕ → Request
  sync eject close : Request

module _ {T W I : Type 0} (browser : Browser W I) (handle : T → W) (bus : BulkIo T)
    (usize_max : ℕ) where
  -- The session after a call, however it ended.
  unfoldable pub perform : Request → ManagedStorageSession T W I → ManagedStorageSession T W I
  perform (read_range offset count) s =
      (Managed.read_range browser handle bus usize_max offset count s).1
  perform (write_range offset bytes) s =
      (Managed.write_range browser handle bus usize_max offset bytes s).1
  perform sync s = (Managed.sync browser handle bus usize_max s).1
  perform eject s = (Managed.eject browser handle bus usize_max s).1
  perform close s = (Managed.close browser handle bus usize_max s).1

  unfoldable pub perform_all :
      List Request → ManagedStorageSession T W I → ManagedStorageSession T W I
  perform_all [] s = s
  perform_all (r ∷ rs) s = perform_all rs (perform r s)

-- A client that a session holds can send its next command, over a supported geometry, and has the
-- session's access; and the session then holds the claimed interface.
pub record IsLive {T W I : Type 0} (s : ManagedStorageSession T W I) (client : RangeSession T)
    : Type 0 where
  pub usable : client.scsi.usable ≡ true
  pub supported : IsSupported client.geometry
  pub access : client.access ≡ s.access
  pub owner : I
  pub owned : s.interface_owner ≡ some owner

abbrev pub HoldsLive :
    {T W I : Type 0} → ManagedStorageSession T W I → Option (RangeSession T) → Type 0
HoldsLive s none = Unit {0}
HoldsLive s (some client) = IsLive s client

abbrev pub IsValid : {T W I : Type 0} → ManagedStorageSession T W I → Type 0
IsValid s = HoldsLive s s.client

module _ {T W I : Type 0} (browser : Browser W I) (handle : T → W) where
  -- How a call on a live client may end.
  abbrev pub Keeps : {A : Type 0} → RangeSession T → Outcome Error A × RangeSession T → Type 0
  Keeps client =
      Ends
        (λ _ c.
          (c.scsi.usable ≡ true) × (c.geometry ≡ client.geometry) × (c.access ≡ client.access))
        (λ _ c. (c.geometry ≡ client.geometry) × (c.access ≡ client.access)) (λ _. Unit {0})

  put_back-IsLive :
      (client client' : RangeSession T) (s : ManagedStorageSession T W I)
      → IsLive s client
      → client'.scsi.usable ≡ true
      → client'.geometry ≡ client.geometry
      → client'.access ≡ client.access
      → IsLive (put_back client' (record s { client = none })) client'
  put_back-IsLive client client' s live usable geometry access = record {
    usable = usable;
    supported = rw geometry live.supported;
    access = access ∙ live.access;
    owner = live.owner;
    owned = live.owned;
  }

  finish-IsValid :
      {A : Type 0} (client client' : RangeSession T) (r : Outcome Error A)
      (s : ManagedStorageSession T W I)
      → IsLive s client
      → Keeps client (r, client')
      → IsValid (finish browser handle client' r (record s { client = none })).1
  unfolding finish fail
  finish-IsValid client client' (ok value) s live (usable, same, access) =
      put_back-IsLive client client' s live usable same access
  finish-IsValid {A} client client' (err e) s live (same, access) = refused client'.scsi.usable refl
    where
      refused :
          (usable : Bool)
          → client'.scsi.usable ≡ usable
          → IsValid (
              (if usable
                then (err (storage e), put_back client' (record s { client = none }))
                else fail browser handle {A = A}
                    (storage e)
                    (without browser handle client' (record s { client = none }))).1)
      refused true usable = put_back-IsLive client client' s live usable same access
      refused false usable = tt
  finish-IsValid client client' dropped s live k = tt
  finish-IsValid client client' panicked s live k = absurd k
  finish-IsValid client client' stuck s live k = absurd k

  module _ {A : Type 0} (m : Action (RangeSession T) Error A)
      (keeps : (c : RangeSession T) → IsSupported c.geometry → Keeps c (m c)) where
    bounded_at :
        (client : Option (RangeSession T)) (s : ManagedStorageSession T W I)
        → HoldsLive (record s { client = client }) client
        → IsValid (bounded browser handle m (record s { client = client })).1
    unfolding bounded take
    bounded_at none s live = tt
    bounded_at (some c) s live =
        finish-IsValid c (m c).1 (m c).0 (record s { client = some c }) live
          (keeps c live.supported)

    bounded-IsValid :
        (s : ManagedStorageSession T W I) → IsValid s → IsValid (bounded browser handle m s).1
    bounded-IsValid s v = bounded_at s.client s v

  module _ (bus : BulkIo T) (usize_max : ℕ) where
    pub sync-Keeps : (c : RangeSession T) → Keeps c (Range.sync bus usize_max c)
    unfolding Range.sync Operations.flush
    sync-Keeps c = grind (arith, command-Ends)

    pub read_range-Keeps :
        (offset count : ℕ) (c : RangeSession T)
        → IsSupported c.geometry
        → Keeps c (Range.read_range bus usize_max offset count c)
    read_range-Keeps offset count c sound =
        ground (arith, read_range-Ends bus usize_max c offset count sound)

    pub write_range-Keeps :
        (offset : ℕ) (bytes : List ℕ) (c : RangeSession T)
        → IsSupported c.geometry
        → Keeps c (Range.write_range bus usize_max offset bytes c)
    write_range-Keeps offset bytes c sound =
        ground (arith, write_range-Ends bus usize_max c offset bytes sound)

    write_range-IsValid :
        (offset : ℕ) (bytes : List ℕ) (s : ManagedStorageSession T W I)
        → IsValid s
        → IsValid (Managed.write_range browser handle bus usize_max offset bytes s).1
    unfolding Managed.write_range
    write_range-IsValid offset bytes s v = ground (
      arith,
      bounded-IsValid (Range.write_range bus usize_max offset bytes)
          (write_range-Keeps offset bytes) s v,
    )

    eject_at :
        (client : Option (RangeSession T)) (s : ManagedStorageSession T W I)
        → IsValid (Managed.eject browser handle bus usize_max (record s { client = client })).1
    unfolding Managed.eject Managed.ejected Managed.release fail take
    eject_at none s = tt
    eject_at (some c) s = ground arith

    close_at :
        (held : Option (RangeSession T)) (s : ManagedStorageSession T W I)
        → IsValid
            (Managed.release browser handle bus usize_max (drop_client browser handle held s)).1
    unfolding Managed.release
    close_at none s = tt
    close_at (some c) s = tt

    perform-IsValid :
        (r : Request) (s : ManagedStorageSession T W I)
        → IsValid s
        → IsValid (perform browser handle bus usize_max r s)
    unfolding perform Managed.read_range Managed.sync Managed.close Managed.release
    perform-IsValid (read_range offset count) s v =
        bounded-IsValid _ (read_range-Keeps offset count) s v
    perform-IsValid (write_range offset bytes) s v = write_range-IsValid offset bytes s v
    perform-IsValid sync s v = bounded-IsValid _ (λ c _. sync-Keeps c) s v
    perform-IsValid eject s v = eject_at s.client s
    perform-IsValid close s v = close_at s.client s

    -- From a session whose client, if it has one, is usable over a supported geometry, with the
    -- session's access and with the claimed interface in the session, every sequence of reads,
    -- writes, syncs, ejects and closes leaves such a session, however each of them ends.
    pub perform_all-IsValid :
        (rs : List Request) (s : ManagedStorageSession T W I)
        → IsValid s
        → IsValid (perform_all browser handle bus usize_max rs s)
    unfolding perform_all
    perform_all-IsValid [] s v = v
    perform_all-IsValid (r ∷ rs) s v =
        perform_all-IsValid rs (perform browser handle bus usize_max r s) (perform-IsValid r s v)
