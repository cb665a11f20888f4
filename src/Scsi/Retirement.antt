-- ===== src/Scsi/Retirement.antt =====
-- What a call of `Scsi::command` (nusb-scsi/src/lib.rs) does to the session, over every transport.
use canoe_nusb_storage.Common.{
  ℕ, zero, suc, ◌+◌, ◌≤◌, ◌<◌, ◌≡◌, refl, ◌⊎◌, true, false, List, [], max, length, length-append,
  length-drop, arith,
}
use canoe_nusb_storage.Common.Bytes.{u32_max}
use canoe_nusb_storage.Common.Ends.{Ends}
use canoe_nusb_storage.Common.Outcome.{err}
use canoe_nusb_storage.Scsi.Error.{Error, command_failed, retired}
use canoe_nusb_storage.Scsi.Transport.{BulkIo, Scsi, io_read, io_write}
use canoe_nusb_storage.Scsi.Command.{
  receive, send, data_stage, conclude, status_stage, exchange, next_tag, is_bad_shape, command,
  chunk_bytes,
}

module _ {T : Type 0} (bus : BulkIo T) (tag lun : ℕ) where
  -- During a command the session is unusable, under the command's tag.
  abbrev InFlight : Scsi T → Type 0
  InFlight s = (s.usable ≡ false) × (s.tag ≡ tag) × (s.lun ≡ lun)

  -- A command that failed: only a refusal by the device leaves the session usable.
  abbrev Failed : Error → Scsi T → Type 0
  Failed e s = ((s.usable ≡ false) ⊎ (e ≡ command_failed)) × (s.tag ≡ tag) × (s.lun ≡ lun)

  abbrev Done : List ℕ → Scsi T → Type 0
  Done d s = (s.usable ≡ true) × (s.tag ≡ tag) × (s.lun ≡ lun)

  io_read-Ends :
      (n : ℕ) (s : Scsi T) → InFlight s → Ends (λ _. InFlight) Failed InFlight (io_read bus n s)
  unfolding io_read
  io_read-Ends n s h = ground arith

  io_write-Ends :
      (bytes : List ℕ) (s : Scsi T)
      → InFlight s
      → Ends (λ _. InFlight) Failed InFlight (io_write bus bytes s)
  unfolding io_write
  io_write-Ends bytes s h = ground arith

  InFlight→Failed : (e : Error) (s : Scsi T) → InFlight s → Failed e s
  InFlight→Failed e s h = ground arith

  receive-Ends :
      (fuel incoming : ℕ) (received : List ℕ) (s : Scsi T)
      → length received ≤ incoming
      → incoming ≤ length received + fuel
      → InFlight s
      → Ends
          (λ d s'. (length d ≡ incoming) × InFlight s')
          Failed
          InFlight
          (receive bus fuel incoming received s)
  unfolding receive io_read
  receive-Ends zero incoming received s h k v = ground arith
  receive-Ends (suc fuel) incoming received s h k v =
      grind (arith, length-append, receive-Ends fuel)

  send-Ends :
      (size : ℕ)
      → 0 < size
      → (fuel : ℕ) (outgoing : List ℕ) (s : Scsi T) → length outgoing ≤ fuel
      → InFlight s
      → Ends (λ _. InFlight) Failed InFlight (send bus size fuel outgoing s)
  unfolding send io_write
  send-Ends size p zero outgoing s h v = ground arith
  send-Ends size p (suc fuel) outgoing s h v = grind (arith, length-drop, send-Ends size p fuel)

  data_stage-Ends :
      (incoming : ℕ) (outgoing : List ℕ) (s : Scsi T)
      → InFlight s
      → Ends
          (λ d s'. (length d ≡ incoming) × InFlight s')
          Failed
          InFlight
          (data_stage bus incoming outgoing s)
  unfolding data_stage
  data_stage-Ends incoming outgoing s v = ground (
    arith,
    receive-Ends incoming incoming [] s (omega arith) (omega arith) v,
    send-Ends chunk_bytes (omega arith) (length outgoing) outgoing s (omega arith) v,
  )

  status_stage-Ends :
      (transfer_length : ℕ) (received : List ℕ) (s : Scsi T)
      → InFlight s
      → Ends
          (λ d s'. (d ≡ received) × Done d s')
          Failed
          InFlight
          (status_stage bus tag transfer_length received s)
  unfolding status_stage conclude io_read
  status_stage-Ends transfer_length received s v = ground arith

  exchange-Ends :
      (cdb : List ℕ) (incoming : ℕ) (outgoing : List ℕ) (s : Scsi T)
      → InFlight s
      → Ends
          (λ d s'. (length d ≡ incoming) × Done d s')
          Failed
          InFlight
          (exchange bus tag lun cdb incoming outgoing s)
  unfolding exchange io_write
  exchange-Ends cdb incoming outgoing s v = grind (arith, data_stage-Ends, status_stage-Ends)

-- The states in which a call of `command` on the session `s` may leave it.
module _ {T : Type 0} (s : Scsi T) where
  abbrev pub Returned : ℕ → List ℕ → Scsi T → Type 0
  Returned incoming d s' =
      (s.usable ≡ true)
      × (length d ≡ incoming)
      × (s'.usable ≡ true)
      × (s'.tag ≡ next_tag s.tag)
      × (s'.lun ≡ s.lun)

  -- Refused before any transfer, for the reason `Why`, or failed later.
  abbrev pub Refused : Type 0 → Error → Scsi T → Type 0
  Refused Why e s' =
      ((s' ≡ s) × Why)
      ⊎ ((s.usable ≡ true)
          × ((s'.usable ≡ false) ⊎ (e ≡ command_failed))
          × (s'.tag ≡ next_tag s.tag)
          × (s'.lun ≡ s.lun))

  abbrev pub Abandoned : Scsi T → Type 0
  Abandoned s' =
      (s.usable ≡ true) × (s'.usable ≡ false) × (s'.tag ≡ next_tag s.tag) × (s'.lun ≡ s.lun)

  -- Why `command` makes no transfer.
  abbrev pub Unsendable : List ℕ → ℕ → List ℕ → Type 0
  Unsendable cdb incoming outgoing =
      (s.usable ≡ false)
      ⊎ ((is_bad_shape cdb incoming outgoing ≡ true) ⊎ (u32_max < max incoming (length outgoing)))

module _ {T : Type 0} (bus : BulkIo T) where
  -- `command` ends without a panic, and its loops with the fuel given. Where it returns data, the
  -- session was usable and is usable again under the next tag, and the data has the requested
  -- length. Where it fails, either nothing of the session has changed, its transport included, and
  -- the session was unusable, the command's shape invalid or its transfer above 32 bits; or the
  -- session was usable, has the next tag, and is unusable unless the error is `CommandFailed`.
  -- Where the future is dropped, the session was usable, has the next tag, and is unusable. The LUN
  -- never changes.
  pub command-Ends :
      (cdb : List ℕ) (incoming : ℕ) (outgoing : List ℕ) (s : Scsi T)
      → Ends
          (Returned s incoming)
          (Refused s (Unsendable s cdb incoming outgoing))
          (Abandoned s)
          (command bus cdb incoming outgoing s)
  unfolding command
  command-Ends cdb incoming outgoing s = ground (
    arith,
    exchange-Ends bus (next_tag s.tag) s.lun cdb incoming outgoing
        (record s { tag = next_tag s.tag; usable = false }) (refl, refl, refl),
  )

  -- On a retired session `command` answers `Retired`, and makes no transfer.
  pub command-retired :
      (cdb : List ℕ) (incoming : ℕ) (outgoing : List ℕ) (s : Scsi T)
      → s.usable ≡ false
      → command bus cdb incoming outgoing s ≡ (err retired, s)
  unfolding command
  command-retired cdb incoming outgoing s h = ground arith
