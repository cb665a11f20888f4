-- ===== src/Scsi/Command.antt =====
-- `Scsi::command` of nusb-scsi/src/lib.rs, stage by stage.
use canoe_nusb_storage.Common.{
  ℕ, zero, suc, ◌+◌, ◌-◌, ◌*◌, ◌%◌, ◌^◌, min, max, ◌==◌, Bool, true, false, not, ◌&&◌, ◌||◌, List,
  [], ◌++◌, length, is_empty, take, drop, ltb, if◌then◌else◌,
}
use canoe_nusb_storage.Common.Bytes.{u32_max}
use canoe_nusb_storage.Common.Outcome.{
  Action, stuck, pure, raise, finish, get, modify, raise_if, ◌>>=◌, ◌>>◌,
}
use canoe_nusb_storage.Scsi.Error.{Error, protocol, command_failed, retired}
use canoe_nusb_storage.Scsi.Transport.{BulkIo, Scsi, io_write, io_read, set_usable}
use canoe_nusb_storage.Scsi.Wire.{cbw, is_bad_csw, csw_residue, csw_status}

abbrev pub chunk_bytes : ℕ
chunk_bytes = 1024 * 1024

-- `cdb.is_empty() || cdb.len() > 16 || (incoming > 0 && !outgoing.is_empty())`
unfoldable pub is_bad_shape : List ℕ → ℕ → List ℕ → Bool
is_bad_shape cdb incoming outgoing =
    is_empty cdb || (ltb 16 (length cdb) || (ltb 0 incoming && not (is_empty outgoing)))

unfoldable pub next_tag : ℕ → ℕ
next_tag tag = (tag + 1) % 2 ^ 32

module _ {T : Type 0} (bus : BulkIo T) where
  -- The loop of the data-in stage. Each round adds a byte at least, so `incoming` rounds are enough.
  unfoldable pub receive : ℕ → ℕ → List ℕ → Action (Scsi T) Error (List ℕ)
  receive zero incoming received =
      if ltb (length received) incoming then finish stuck else pure received
  receive (suc fuel) incoming received =
      if ltb (length received) incoming
      then (do
        chunk ← io_read bus (min (incoming - length received) chunk_bytes)
        _ ←
            raise_if (is_empty chunk || ltb (incoming - length received) (length chunk))
              (protocol "short or oversized data stage")
        receive fuel incoming (received ++ chunk))
      else pure received

  -- `for chunk in outgoing.chunks(size)`; as many rounds as bytes are enough.
  unfoldable pub send : (size : ℕ) → ℕ → List ℕ → Action (Scsi T) Error (Unit {0})
  send size zero outgoing = if is_empty outgoing then pure tt else finish stuck
  send size (suc fuel) outgoing = if is_empty outgoing then pure tt else (do
    written ← io_write bus (take size outgoing)
    _ ← raise_if (not (written == length (take size outgoing))) (protocol "short data write")
    send size fuel (drop size outgoing))

  unfoldable pub data_stage : ℕ → List ℕ → Action (Scsi T) Error (List ℕ)
  data_stage incoming outgoing =
      if ltb 0 incoming
      then receive incoming incoming []
      else if is_empty outgoing
      then pure []
      else (send chunk_bytes (length outgoing) outgoing >> pure [])

  -- The final `match csw[12]`.
  unfoldable pub conclude : ℕ → ℕ → List ℕ → Action (Scsi T) Error (List ℕ)
  conclude status residue received =
      if status == 0 && residue == 0
      then (modify (set_usable true) >> pure received)
      else if status == 1
      then (modify (set_usable true) >> raise command_failed)
      else raise (protocol "CSW phase error or incomplete transfer")

  unfoldable pub status_stage : ℕ → ℕ → List ℕ → Action (Scsi T) Error (List ℕ)
  status_stage tag transfer_length received = do
    csw ← io_read bus 13
    raise_if (is_bad_csw tag csw) (protocol "invalid CSW length, signature or tag")
    raise_if (ltb transfer_length (csw_residue csw)) (protocol "invalid CSW residue")
    conclude (csw_status csw) (csw_residue csw) received

  -- From the first `await` on; the session was made unusable just before.
  unfoldable pub exchange : ℕ → ℕ → List ℕ → ℕ → List ℕ → Action (Scsi T) Error (List ℕ)
  exchange tag lun cdb incoming outgoing = do
    let transfer_length = max incoming (length outgoing)
    let wrapper = cbw tag transfer_length incoming lun cdb
    written ← io_write bus wrapper
    raise_if (not (written == length wrapper)) (protocol "short CBW")
    received ← data_stage incoming outgoing
    status_stage tag transfer_length received

  unfoldable pub command : List ℕ → ℕ → List ℕ → Action (Scsi T) Error (List ℕ)
  command cdb incoming outgoing = do
    s ← get
    raise_if (not s.usable) retired
    raise_if (is_bad_shape cdb incoming outgoing) (protocol "invalid command shape")
    raise_if (ltb u32_max (max incoming (length outgoing))) (protocol "transfer exceeds BOT limit")
    modify (λ r. record r { tag = next_tag r.tag; usable = false })
    exchange (next_tag s.tag) s.lun cdb incoming outgoing
