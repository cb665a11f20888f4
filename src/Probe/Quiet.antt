-- ===== src/Probe/Quiet.antt =====
-- What nusb-scsi/examples/managed_probe.rs sends to the device.
use canoe_nusb_storage.Common.{ℕ, Option, List, arith, String}
use canoe_nusb_storage.Common.Keeps.{Keeps}
use canoe_nusb_storage.Common.Outcome.{Action}
use canoe_nusb_storage.Scsi.Error.{Error}
use canoe_nusb_storage.Scsi.Transport.{BulkIo, Scsi}
use canoe_nusb_storage.Scsi.Operations
use canoe_nusb_storage.Scsi.Quiet.{
  IsQuiet, inquiry-Keeps, test_unit_ready-Keeps, geometry-Keeps, read_blocks-Keeps, flush-Keeps,
  eject-Keeps, request_sense-Keeps,
}
use canoe_nusb_storage.Usb.{Nusb, NusbIo, nusb_bus}
use canoe_nusb_storage.Probe.{
  Line, Printing, emit, bounded, emit_inquiry, introduce, measure, take_sample, conclude, commands,
  settled,
}
use canoe_nusb_storage.Probe.Connected.{Session, ask_sense, investigate}

module _ {T : Type 0} (bus : BulkIo T) (Inv : T → Type 0)
    (reads_keep : (t : T) (n : ℕ) → Inv t → Inv (bus.read t n).1)
    (messages_keep : (t : T) (msg : List ℕ) → IsQuiet msg → Inv t → Inv (bus.write t msg).1) where
  abbrev Held : Printing (Scsi T) → Type 0
  Held p = Inv p.state.io

  emit-kept : (line : Line) → Keeps Held (emit line)
  unfolding emit
  emit-kept line p h = h

  emit_inquiry-kept : (reply : List ℕ) → Keeps Held (emit_inquiry reply)
  unfolding emit_inquiry
  emit_inquiry-kept reply p h = grind (arith, emit-kept)

  pub bounded-kept :
      {A : Type 0} (stage : String) (m : Action (Scsi T) Error A)
      → Keeps (λ (s : Scsi T). Inv s.io) m
      → Keeps Held (bounded stage m)
  unfolding bounded
  bounded-kept stage m k p h = k p.state h

  introduce-Keeps : Keeps Held (introduce bus)
  unfolding introduce
  introduce-Keeps p h =
      let inquired =
        bounded-kept "inquiry" (Operations.inquiry bus)
          (inquiry-Keeps bus Inv reads_keep messages_keep) p h in
      let tested =
        bounded-kept "test-unit-ready" (Operations.test_unit_ready bus)
          (test_unit_ready-Keeps bus Inv reads_keep messages_keep) in
      grind (arith, inquired, emit_inquiry-kept, tested, emit-kept)

  measure-Keeps : Keeps Held (measure bus)
  unfolding measure
  measure-Keeps p h =
      let measured =
        bounded-kept "capacity" (Operations.geometry bus)
          (geometry-Keeps bus Inv reads_keep messages_keep) p h in
      grind (arith, measured, emit-kept)

  take_sample-Keeps :
      (usize_max : ℕ) (digest : List ℕ → List ℕ) (count block_size : ℕ)
      → Keeps Held (take_sample bus usize_max digest count block_size)
  unfolding take_sample
  take_sample-Keeps usize_max digest count block_size p h =
      let sampled =
        bounded-kept "read-blocks" (Operations.read_blocks bus usize_max 0 count block_size)
          (read_blocks-Keeps bus Inv reads_keep messages_keep usize_max 0 count block_size) p h in
      grind (arith, sampled, emit-kept)

  conclude-Keeps : Keeps Held (conclude bus)
  unfolding conclude
  conclude-Keeps p h =
      let flushed =
        bounded-kept "synchronize-cache" (Operations.flush bus)
          (flush-Keeps bus Inv reads_keep messages_keep) p h in
      let ejected =
        bounded-kept "eject" (Operations.eject bus)
          (eject-Keeps bus Inv reads_keep messages_keep) in
      grind (arith, flushed, ejected, emit-kept)

  pub commands-Keeps :
      (usize_max : ℕ) (digest : List ℕ → List ℕ) → Keeps Held (commands bus usize_max digest)
  unfolding commands
  commands-Keeps usize_max digest p h =
      let introduced = introduce-Keeps p h in
      grind (arith, introduced, measure-Keeps, take_sample-Keeps usize_max digest, conclude-Keeps)

pub settled-kept :
    {S E A : Type 0} (Inv : S → Type 0) (m : Action S E A) → Keeps Inv m → Keeps Inv (settled m)
unfolding settled
settled-kept Inv m k p h = k p h

module _ {W I P : Type 0} (nusb : Nusb W I P) (Inv : NusbIo I P × W → Type 0)
    (reads_keep : (t : NusbIo I P × W) (n : ℕ) → Inv t → Inv ((nusb_bus nusb).read t n).1)
    (messages_keep : (t : NusbIo I P × W) (msg : List ℕ)
      → IsQuiet msg
      → Inv t
      → Inv ((nusb_bus nusb).write t msg).1) where
  abbrev Lasts : Session W I P → Type 0
  Lasts p = Inv p.state.io

  ask_sense-Keeps : Keeps Lasts (ask_sense nusb)
  unfolding ask_sense emit
  ask_sense-Keeps p h =
      let sensed = request_sense-Keeps (nusb_bus nusb) Inv reads_keep messages_keep in
      let asked =
        bounded-kept (nusb_bus nusb) Inv reads_keep messages_keep "request-sense"
          (Operations.request_sense (nusb_bus nusb)) sensed in
      let kept =
        settled-kept Lasts (bounded "request-sense" (Operations.request_sense (nusb_bus nusb)))
          asked p h in
      grind (arith, kept)

  pub investigate-Keeps :
      (overtaken : NusbIo I P → W → Option W) (usize_max : ℕ) (digest : List ℕ → List ℕ)
      → Keeps Lasts (investigate nusb overtaken usize_max digest)
  unfolding investigate
  investigate-Keeps overtaken usize_max digest p h =
      let served = commands-Keeps (nusb_bus nusb) Inv reads_keep messages_keep usize_max digest in
      let kept = settled-kept Lasts (commands (nusb_bus nusb) usize_max digest) served p h in
      grind (arith, kept, ask_sense-Keeps)
