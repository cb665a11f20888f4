-- ===== src/Probe/Teardown.antt =====
-- How `run_connected` and `run` of nusb-scsi/examples/managed_probe.rs end.
use canoe_nusb_storage.Common.{
  ℕ, ◌<◌, ◌≡◌, refl, true, Option, none, some, List, [], ◌∷◌, arith, String,
}
use canoe_nusb_storage.Common.Outcome.{Outcome, ok, err, dropped, panicked, stuck}
use canoe_nusb_storage.Common.Ends.{Ends}
use canoe_nusb_storage.Scsi.Transport.{Scsi, new-first}
use canoe_nusb_storage.Scsi.Retirement.{command-Ends}
use canoe_nusb_storage.Scsi.Operations
use canoe_nusb_storage.Usb.{Nusb, NusbIo, nusb_bus, next_multiple_of, fetched, read, write}
use canoe_nusb_storage.Usb.Draining.{Completes, close_native-drains}
use canoe_nusb_storage.Probe.{Failure, Printing, stage, emit, commands, settled, settled_end}
use canoe_nusb_storage.Probe.Stages.{AllSound, stages, bounded-Ends, commands-Ends}
use canoe_nusb_storage.Probe.Quiet.{investigate-Keeps}
use canoe_nusb_storage.Probe.Connected.{
  Session, ask_sense, investigate, drained, close_end, close_bounded, teardown, finished,
  run_connected,
}

module _ {W I P : Type 0} (nusb : Nusb W I P) where
  read-same : (io : NusbIo I P) (t : NusbIo I P × W) (n : ℕ) → t.0 ≡ io → (read nusb t n).1.0 ≡ io
  unfolding read
  read-same io (own, w) n h =
      elim (next_multiple_of n own.input_packet_size)
        as (λ size. (fetched nusb size (own, w)).1.0 ≡ io) [ none ↦ h | some size ↦ h ]

  write-same :
      (io : NusbIo I P) (t : NusbIo I P × W) (msg : List ℕ) → t.0 ≡ io → (write nusb t msg).1.0 ≡ io
  unfolding write
  write-same io (own, w) msg h = h

  ask_sense-Ends :
      (p : Session W I P)
      → AllSound p.printed
      → Ends (λ _ (q : Session W I P). AllSound q.printed) (λ _ _. ⊥) (λ _. ⊥) (ask_sense nusb p)
  unfolding ask_sense emit settled settled_end Operations.request_sense
  ask_sense-Ends p sound =
      let cdb : List ℕ = 3 ∷ 0 ∷ 0 ∷ 0 ∷ 18 ∷ 0 ∷ [] in
      let asked =
        bounded-Ends _ _ _ "request-sense" p.printed (Operations.request_sense (nusb_bus nusb)) p
          refl (command-Ends (nusb_bus nusb) cdb 18 [] p.state) in
      grind (arith, asked)

  -- Where the five seconds do not pass meanwhile, the transport closes; where they do, that is an
  -- error. It prints nothing.
  close_bounded-Ends :
      (overtaken : NusbIo I P → W → Option W) (io : NusbIo I P) (p : Printing W)
      → Completes nusb io.input io.output
      → Ends
          (λ _ (q : Printing W). q.printed ≡ p.printed)
          (λ _ (q : Printing W). q.printed ≡ p.printed)
          (λ _. ⊥)
          (close_bounded nusb overtaken io p)
  unfolding close_bounded close_end drained
  close_bounded-Ends overtaken io p c = grind (arith, close_native-drains)

  -- What the commands leave: the six lines where they succeeded, and never a panic.
  abbrev Served : List String → Outcome Failure (Unit {0}) → List String → Type 0
  Served before (ok u) now =
      now
      ≡ "eject" ∷ "synchronize-cache" ∷ "sample" ∷ "capacity" ∷ "test-unit-ready" ∷ "inquiry"
        ∷ before
  Served before (err e) now = Unit {0}
  Served before _ now = ⊥

  module _ (overtaken : NusbIo I P → W → Option W) where
    -- The result is that of the commands, or of the closing where they succeeded.
    teardown-Ends :
        (before : List String) (result : Outcome Failure (Unit {0})) (io : NusbIo I P)
        (p : Printing W)
        → Completes nusb io.input io.output
        → AllSound p.printed
        → Served before result (stages p.printed)
        → Ends
            (λ _ (q : Printing W).
              Served before (ok tt) (stages p.printed)
              × (stages q.printed ≡ "transfers-drained" ∷ stages p.printed)
              × AllSound q.printed)
            (λ _ (q : Printing W). AllSound q.printed)
            (λ _. ⊥)
            (teardown nusb overtaken result io p)
    unfolding teardown emit stage settled settled_end
    teardown-Ends before (ok u) io p c sound served =
        grind (arith, close_bounded-Ends overtaken io p c)
    teardown-Ends before (err e) io p c sound served =
        grind (arith, close_bounded-Ends overtaken io p c)
    teardown-Ends before dropped io p c sound served = absurd served
    teardown-Ends before panicked io p c sound served = absurd served
    teardown-Ends before stuck io p c sound served = absurd served

    module _ (usize_max : ℕ) (digest : List ℕ → List ℕ) where
      settled-commands-Ends :
          (p : Session W I P)
          → AllSound p.printed
          → Ends
              (λ r (q : Session W I P).
                AllSound q.printed × Served (stages p.printed) r (stages q.printed))
              (λ _ _. ⊥)
              (λ _. ⊥)
              (settled (commands (nusb_bus nusb) usize_max digest) p)
      unfolding settled settled_end
      settled-commands-Ends p sound =
          grind (arith, commands-Ends (nusb_bus nusb) usize_max digest p sound)

      -- Where the commands fail, one line about the sense data may follow theirs.
      investigate-Ends :
          (p : Session W I P)
          → AllSound p.printed
          → Ends
              (λ r (q : Session W I P).
                AllSound q.printed × Served (stages p.printed) r (stages q.printed))
              (λ _ _. ⊥)
              (λ _. ⊥)
              (investigate nusb overtaken usize_max digest p)
      unfolding investigate
      investigate-Ends p sound = grind (arith, settled-commands-Ends p sound, ask_sense-Ends)

      finished-Ends :
          (before : List String) (io : NusbIo I P)
          (r : Outcome Failure (Outcome Failure (Unit {0}))) (p : Session W I P)
          → Completes nusb io.input io.output
          → p.state.io.0 ≡ io
          → Ends
              (λ result (q : Session W I P).
                AllSound q.printed × Served before result (stages q.printed))
              (λ _ _. ⊥)
              (λ _. ⊥)
              (r, p)
          → Ends
              (λ _ (q : Printing W).
                (stages q.printed
                  ≡ "transfers-drained" ∷ "eject" ∷ "synchronize-cache" ∷ "sample" ∷ "capacity"
                    ∷ "test-unit-ready" ∷ "inquiry" ∷ before)
                × AllSound q.printed)
              (λ _ (q : Printing W). AllSound q.printed)
              (λ _. ⊥)
              (finished nusb overtaken r p)
      finished-Ends before io (ok result) p c e h =
          let printing : Printing W = record { state = p.state.io.1; printed = p.printed } in
          rw e (grind (arith, teardown-Ends before result io printing c h.0 h.1))
      finished-Ends before io (err e) p c k h = absurd h
      finished-Ends before io dropped p c e h = absurd h
      finished-Ends before io panicked p c e h = absurd h
      finished-Ends before io stuck p c e h = absurd h

      -- `run_connected` never panics, its drain loops end, and a deadline that passes is an error,
      -- where nusb completes the transfers of the two endpoints and the packet size is above 0. What
      -- it prints is sound. Where it succeeds, it has printed the six lines of the commands and that
      -- of the closing, in their order.
      pub run_connected-Ends :
          (io : NusbIo I P) (p : Printing W)
          → Completes nusb io.input io.output
          → 0 < io.input_packet_size
          → AllSound p.printed
          → Ends
              (λ _ (q : Printing W).
                (stages q.printed
                  ≡ "transfers-drained"
                    ∷ "eject"
                    ∷ "synchronize-cache"
                    ∷ "sample"
                    ∷ "capacity"
                    ∷ "test-unit-ready"
                    ∷ "inquiry"
                    ∷ stages p.printed)
                × AllSound q.printed)
              (λ _ (q : Printing W). AllSound q.printed)
              (λ _. ⊥)
              (run_connected nusb overtaken usize_max digest io p)
      unfolding run_connected
      run_connected-Ends io p c packets sound =
          let scsi : Scsi (NusbIo I P × W) = record {
            io = (io, p.state);
            tag = 0;
            lun = 0;
            usable = true;
          } in
          let start : Session W I P = record { state = scsi; printed = p.printed } in
          let same =
            investigate-Keeps nusb (λ t. t.0 ≡ io) (λ t n h. read-same io t n h)
              (λ t msg q h. write-same io t msg h) overtaken usize_max digest start refl in
          rw (new-first (nusb_bus nusb) (io, p.state)) (
            finished-Ends (stages p.printed) io
              (investigate nusb overtaken usize_max digest start).0
              (investigate nusb overtaken usize_max digest start).1 c same
              (investigate-Ends start sound))
