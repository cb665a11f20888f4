-- ===== src/Managed/Writeless.antt =====
-- What a `ManagedStorageSession` (canoe-usb-web/src/managed.rs) that was opened read-only sends.
use mathlib.Core.Path.{subst}
use canoe_nusb_storage.Common.{ℕ, ◌≡◌, refl, Option, none, some, List, [], ◌∷◌, arith}
use canoe_nusb_storage.Common.Outcome.{Outcome, ok, err, dropped, panicked, stuck, Action}
use canoe_nusb_storage.Scsi.Error.{Error}
use canoe_nusb_storage.Scsi.Transport.{BulkIo}
use canoe_nusb_storage.Scsi.Quiet.{IsQuiet}
use canoe_nusb_storage.Range
use canoe_nusb_storage.Range.{RangeSession, read_only}
use canoe_nusb_storage.Range.Requests
use canoe_nusb_storage.Range.Requests.{IsReader, perform-IsReader}
use canoe_nusb_storage.Web.Browser.{Browser, Failure}
use canoe_nusb_storage.Web.Closing.{close_web, close_after_failure}
use canoe_nusb_storage.Web.Closing
use canoe_nusb_storage.Managed
use canoe_nusb_storage.Managed.{ManagedStorageSession}
use canoe_nusb_storage.Managed.Requests.{
  Request, read_range, write_range, sync, eject, close, perform, perform_all,
}

-- `Inv` is of the transport, and `After` of the browser's handle, where it was dropped.
module _ {T W I : Type 0} (browser : Browser W I) (handle : T → W) (bus : BulkIo T) (usize_max : ℕ)
    (Inv : T → Type 0) (After : W → Type 0)
    (reads_keep : (t : T) (n : ℕ) → Inv t → Inv (bus.read t n).1)
    (messages_keep : (t : T) (msg : List ℕ) → IsQuiet msg → Inv t → Inv (bus.write t msg).1)
    (drops : (t : T) → Inv t → After (handle t))
    (releases : (i : I) (w : W) → After w → After (browser.release i w).1)
    (closes : (w : W) → After w → After (browser.close w).1) where
  abbrev Reads : RangeSession T → Type 0
  Reads client = IsReader bus usize_max Inv reads_keep messages_keep client

  abbrev HoldsReader : Option (RangeSession T) → Type 0
  HoldsReader none = Unit {0}
  HoldsReader (some client) = Reads client

  pub record IsWriteless (s : ManagedStorageSession T W I) : Type 0 where
    pub after : After s.device
    pub client : HoldsReader s.client

  close_web-After : (owner : Option I) (w : W) → After w → After (close_web browser owner w).1
  unfolding close_web Closing.release
  close_web-After none w h = closes w h
  close_web-After (some i) w h = closes (browser.release i w).1 (releases i w h)

  fail-IsWriteless :
      (A : Type 0) (e : Failure) (s : ManagedStorageSession T W I)
      → After s.device
      → HoldsReader s.client
      → IsWriteless (Managed.fail browser handle {A = A} e s).1
  unfolding Managed.fail close_after_failure
  fail-IsWriteless A e s h k = record {
    after = close_web-After s.interface_owner s.device h;
    client = k;
  }

  finish-IsWriteless :
      {A : Type 0} (client : RangeSession T) (r : Outcome Error A) (s : ManagedStorageSession T W I)
      → Reads client
      → IsWriteless s
      → IsWriteless (Managed.finish browser handle client r s).1
  unfolding Managed.finish
  finish-IsWriteless client (ok value) s k v = record { after = v.after; client = k }
  finish-IsWriteless {A} client (err e) s k v =
      let lost =
        fail-IsWriteless A (Failure.storage e) (Managed.without browser handle client s)
          (drops client.scsi.io k.held) tt in
      ground (arith, lost)
  finish-IsWriteless {A} client dropped s k v =
      fail-IsWriteless A _ (Managed.without browser handle client s) (drops client.scsi.io k.held)
        tt
  finish-IsWriteless client panicked s k v = v
  finish-IsWriteless client stuck s k v = v

  bounded-IsWriteless :
      {A : Type 0} (m : Action (RangeSession T) Error A)
      → ((client : RangeSession T) → Reads client → Reads (m client).1)
      → (s : ManagedStorageSession T W I) → IsWriteless s
      → IsWriteless (Managed.bounded browser handle m s).1
  unfolding Managed.bounded Managed.take
  bounded-IsWriteless m k s v = from_client s.client refl
    where
      after_take : IsWriteless (record s { client = none })
      after_take = record { after = v.after; client = tt }

      from_client :
          (held : Option (RangeSession T))
          → s.client ≡ held
          → IsWriteless (Managed.bounded browser handle m (record s { client = held })).1
      from_client none e = after_take
      from_client (some client) e =
          finish-IsWriteless (m client).1 (m client).0 (record s { client = none })
            (k client (subst HoldsReader e v.client)) after_take

  ranged :
      (r : Requests.Request) (client : RangeSession T)
      → Reads client
      → Reads (Requests.perform bus usize_max r client)
  ranged r client v = perform-IsReader bus usize_max Inv reads_keep messages_keep r client v

  ejected-IsWriteless :
      (r : Outcome Error (Unit {0})) (s : ManagedStorageSession T W I)
      → After s.device
      → HoldsReader s.client
      → IsWriteless (Managed.ejected browser handle bus usize_max r s).1
  unfolding Managed.ejected Managed.release
  ejected-IsWriteless (ok u) s h k = record {
    after = close_web-After s.interface_owner s.device h;
    client = k;
  }
  ejected-IsWriteless (err e) s h k = fail-IsWriteless (Unit {0}) _ s h k
  ejected-IsWriteless dropped s h k = fail-IsWriteless (Unit {0}) _ s h k
  ejected-IsWriteless panicked s h k = record { after = h; client = k }
  ejected-IsWriteless stuck s h k = record { after = h; client = k }

  eject-IsWriteless :
      (s : ManagedStorageSession T W I)
      → IsWriteless s
      → IsWriteless (Managed.eject browser handle bus usize_max s).1
  unfolding Managed.eject Managed.take Requests.perform
  eject-IsWriteless s v = from_client s.client refl
    where
      from_client :
          (held : Option (RangeSession T))
          → s.client ≡ held
          → IsWriteless (Managed.eject browser handle bus usize_max (record s { client = held })).1
      from_client none e = record { after = v.after; client = tt }
      from_client (some client) e =
          let after_call = ranged Requests.ejects client (subst HoldsReader e v.client) in
          ejected-IsWriteless (Range.eject bus usize_max client).0 _
            (drops (Range.eject bus usize_max client).1.scsi.io after_call.held) tt

  close-IsWriteless :
      (s : ManagedStorageSession T W I)
      → IsWriteless s
      → IsWriteless (Managed.close browser handle bus usize_max s).1
  unfolding Managed.close Managed.release
  close-IsWriteless s v = from_client s.client refl
    where
      from_client :
          (held : Option (RangeSession T))
          → s.client ≡ held
          → IsWriteless (Managed.close browser handle bus usize_max (record s { client = held })).1
      from_client none e = record {
        after = close_web-After s.interface_owner s.device v.after;
        client = tt;
      }
      from_client (some client) e =
          let reader : Reads client = subst HoldsReader e v.client in
          record {
            after =
                close_web-After s.interface_owner (handle client.scsi.io)
                  (drops client.scsi.io reader.held);
            client = tt;
          }

  perform-IsWriteless :
      (r : Request) (s : ManagedStorageSession T W I)
      → IsWriteless s
      → IsWriteless (perform browser handle bus usize_max r s)
  unfolding perform Managed.read_range Managed.write_range Managed.sync Requests.perform
  perform-IsWriteless (read_range offset count) s v =
      bounded-IsWriteless (Range.read_range bus usize_max offset count)
        (ranged (Requests.reads offset count)) s v
  perform-IsWriteless (write_range offset bytes) s v =
      let written =
        bounded-IsWriteless (Range.write_range bus usize_max offset bytes)
          (ranged (Requests.writes offset bytes)) s v in
      ground (arith, written, v)
  perform-IsWriteless sync s v =
      bounded-IsWriteless (Range.sync bus usize_max) (ranged Requests.syncs) s v
  perform-IsWriteless eject s v = eject-IsWriteless s v
  perform-IsWriteless close s v = close-IsWriteless s v

  -- A session whose client was connected read-only sends quiet messages only, under any sequence of
  -- reads, writes, syncs, ejects and closes, however each of them ends: what is kept by every read of
  -- the transport, by every such message, by dropping the transport, and by the browser's release and
  -- close, is true of the transport as long as the session has a client, and of the device's handle
  -- afterwards.
  pub perform_all-IsWriteless :
      (rs : List Request) (s : ManagedStorageSession T W I)
      → IsWriteless s
      → IsWriteless (perform_all browser handle bus usize_max rs s)
  unfolding perform_all
  perform_all-IsWriteless [] s v = v
  perform_all-IsWriteless (r ∷ rs) s v =
      perform_all-IsWriteless rs (perform browser handle bus usize_max r s)
        (perform-IsWriteless r s v)
