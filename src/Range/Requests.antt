-- ===== src/Range/Requests.antt =====
-- The operations of `RangeSession` (nusb-scsi/src/range.rs) as requests, in any order and number.
use mathlib.Core.Path.{subst}
use canoe_nusb_storage.Common.{ℕ, ◌≡◌, sym, ap, ◌∙◌, List, [], ◌∷◌, arith}
use canoe_nusb_storage.Common.Outcome.{ok}
use canoe_nusb_storage.Common.Keeps.{Keeps}
use canoe_nusb_storage.Scsi.Transport.{BulkIo, Scsi}
use canoe_nusb_storage.Scsi.Quiet.{
  IsQuiet, initialize_ready-Keeps, geometry-Keeps, read_blocks-Keeps, flush-Keeps, eject-Keeps,
}
use canoe_nusb_storage.Range.{
  RangeSession, Access, read_only, connect, read_range, write_range, sync, eject,
}
use canoe_nusb_storage.Range.Safety.{write_range-read_only}

pub data Request : Type 0 where
  reads : (offset count : ℕ) → Request
  writes : (offset : ℕ) → List ℕ → Request
  syncs ejects : Request

module _ {T : Type 0} (bus : BulkIo T) (usize_max : ℕ) where
  -- The session after a request, however it ended.
  unfoldable pub perform : Request → RangeSession T → RangeSession T
  perform (reads offset count) s = (read_range bus usize_max offset count s).1
  perform (writes offset bytes) s = (write_range bus usize_max offset bytes s).1
  perform syncs s = (sync bus usize_max s).1
  perform ejects s = (eject bus usize_max s).1

  unfoldable pub perform_all : List Request → RangeSession T → RangeSession T
  perform_all [] s = s
  perform_all (r ∷ rs) s = perform_all rs (perform r s)

module _ {T : Type 0} (bus : BulkIo T) (usize_max : ℕ) (Inv : T → Type 0)
    (reads_keep : (t : T) (n : ℕ) → Inv t → Inv (bus.read t n).1)
    (messages_keep : (t : T) (msg : List ℕ) → IsQuiet msg → Inv t → Inv (bus.write t msg).1) where
  -- A session that was opened read-only, over a transport where `Inv` holds.
  pub record IsReader (s : RangeSession T) : Type 0 where
    pub access : s.access ≡ read_only
    pub held : Inv s.scsi.io

  pub perform-IsReader :
      (r : Request) (s : RangeSession T) → IsReader s → IsReader (perform bus usize_max r s)
  unfolding perform read_range sync eject
  perform-IsReader (reads offset count) s v =
      let kept = λ (lba n size : ℕ).
        read_blocks-Keeps bus Inv reads_keep messages_keep usize_max lba n size s.scsi v.held in
      record { access = grind (arith, v.access); held = grind (arith, kept, v.held) }
  perform-IsReader (writes offset bytes) s v =
      let refused = write_range-read_only bus usize_max s offset bytes v.access in
      record { access = ap (λ q. q.1.access) refused ∙ v.access; held = grind (arith, v.held) }
  perform-IsReader syncs s v = record {
    access = v.access;
    held = flush-Keeps bus Inv reads_keep messages_keep s.scsi v.held;
  }
  perform-IsReader ejects s v = record {
    access = v.access;
    held = eject-Keeps bus Inv reads_keep messages_keep s.scsi v.held;
  }

  perform_all-IsReader :
      (rs : List Request) (s : RangeSession T)
      → IsReader s
      → IsReader (perform_all bus usize_max rs s)
  unfolding perform_all
  perform_all-IsReader [] s v = v
  perform_all-IsReader (r ∷ rs) s v =
      perform_all-IsReader rs (perform bus usize_max r s) (perform-IsReader r s v)

  pub connect-Keeps :
      (access : Access) → Keeps (λ (s : Scsi T). Inv s.io) (connect bus usize_max access)
  unfolding connect
  connect-Keeps access s held =
      let ready = initialize_ready-Keeps bus Inv reads_keep messages_keep s held in
      grind (arith, ready, geometry-Keeps bus Inv reads_keep messages_keep)

  connected :
      (s s' : Scsi T) (opened : RangeSession T)
      → connect bus usize_max read_only s ≡ (ok opened, s')
      → (opened.scsi ≡ (connect bus usize_max read_only s).1) × (opened.access ≡ read_only)
  unfolding connect
  connected s s' opened h = grind arith

  -- What is true of the transport, and is kept by every read of it and by every message to it that
  -- is a command block wrapper of TEST UNIT READY, REQUEST SENSE, INQUIRY, START STOP UNIT, READ
  -- CAPACITY, READ(10) or SYNCHRONIZE CACHE, is true of it still when a session was connected
  -- read-only and any sequence of reads, writes, syncs and ejects was made, however each of them
  -- ends: such a session sends no other message, so no WRITE(10) and no data.
  pub perform_all-connect :
      (rs : List Request) (s s' : Scsi T) (opened : RangeSession T)
      → connect bus usize_max read_only s ≡ (ok opened, s')
      → Inv s.io
      → Inv (perform_all bus usize_max rs opened).scsi.io
  perform_all-connect rs s s' opened h held =
      let c = connected s s' opened h in
      let here = connect-Keeps read_only s held in
      let v : IsReader opened = record {
        access = c.1;
        held = subst (λ q. Inv q.io) (sym c.0) here;
      } in
      (perform_all-IsReader rs opened v).held
