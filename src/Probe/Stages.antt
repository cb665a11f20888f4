-- ===== src/Probe/Stages.antt =====
-- What nusb-scsi/examples/managed_probe.rs prints, and how its commands end.
use canoe_nusb_storage.Common.{
  ℕ, ◌*◌, ◌≤◌, ◌≡◌, refl, true, false, List, [], ◌∷◌, map, length, get_elem?-lt, arith, String,
}
use canoe_nusb_storage.Common.Outcome.{Outcome, ok, err, dropped, panicked, stuck, Action}
use canoe_nusb_storage.Common.Ends.{Ends}
use canoe_nusb_storage.Scsi.Error.{Error}
use canoe_nusb_storage.Scsi.Transport.{BulkIo, Scsi}
use canoe_nusb_storage.Scsi.Retirement.{command-Ends, Returned}
use canoe_nusb_storage.Scsi.Blocks.{geometry-Ends, read_blocks-Ends}
use canoe_nusb_storage.Scsi.Operations
use canoe_nusb_storage.Probe.{
  Line, capacity, sample, eject, Printing, stage, emit, bounded, bounded_end, emit_inquiry,
  sample_blocks, introduce, measure, take_sample, conclude, commands,
}

-- What the lines with numbers say: the sample starts at the first block and has 4096 bytes at most,
-- the blocks have 4096 bytes at most, and a session that has ejected is retired.
abbrev pub IsSound : Line → Type 0
IsSound (capacity blocks block_size bytes) = (block_size ≤ 4096) × (bytes ≡ blocks * block_size)
IsSound (sample lba blocks bytes sha256) = (lba ≡ 0) × (bytes ≤ 4096)
IsSound (eject session_retired) = session_retired ≡ true
IsSound _ = Unit {0}

abbrev pub AllSound : List Line → Type 0
AllSound [] = Unit {0}
AllSound (line ∷ lines) = IsSound line × AllSound lines

abbrev pub stages : List Line → List String
stages lines = map stage lines

sample_blocks_small : (blocks block_size : ℕ) → sample_blocks blocks block_size * block_size ≤ 4096
unfolding sample_blocks
sample_blocks_small blocks block_size = grind arith

module _ {S A : Type 0} (Q : A → S → Type 0) (R : Error → S → Type 0) (D : S → Type 0)
    (name : String) (lines : List Line) where
  bounded_result :
      (r : Outcome Error A) (s : S)
      → Ends Q R D (r, s)
      → Ends
          (λ a (p : Printing S). Q a p.state × (p.printed ≡ lines))
          (λ _ (p : Printing S). p.printed ≡ lines)
          (λ _. ⊥)
          (bounded_end name r, record { state = s; printed = lines })
  unfolding bounded_end
  bounded_result (ok a) s h = (h, refl)
  bounded_result (err e) s h = refl
  bounded_result dropped s h = refl
  bounded_result panicked s h = absurd h
  bounded_result stuck s h = absurd h

  pub bounded-Ends :
      (m : Action S Error A) (p : Printing S)
      → p.printed ≡ lines
      → Ends Q R D (m p.state)
      → Ends
          (λ a (q : Printing S). Q a q.state × (q.printed ≡ lines))
          (λ _ (q : Printing S). q.printed ≡ lines)
          (λ _. ⊥)
          (bounded name m p)
  unfolding bounded
  bounded-Ends m p e h = rw e (bounded_result (m p.state).0 (m p.state).1 h)

emit_inquiry-Ends :
    {S : Type 0} (reply : List ℕ) (p : Printing S)
    → length reply ≡ 36
    → AllSound p.printed
    → Ends
        (λ _ (q : Printing S).
          (q.state ≡ p.state)
          × (stages q.printed ≡ "inquiry" ∷ stages p.printed)
          × AllSound q.printed)
        (λ _ _. ⊥)
        (λ _. ⊥)
        (emit_inquiry reply p)
unfolding emit_inquiry emit stage
emit_inquiry-Ends reply p h sound =
    grind (arith, get_elem?-lt reply 0 (omega arith), get_elem?-lt reply 1 (omega arith))

module _ {T : Type 0} (bus : BulkIo T) where
  abbrev Lines : Type 0
  Lines = Printing (Scsi T)

  test_unit_ready-Ends :
      (s : Scsi T)
      → Ends (λ _ _. Unit {0}) (λ _ _. Unit {0}) (λ _. Unit {0}) (Operations.test_unit_ready bus s)
  unfolding Operations.test_unit_ready
  test_unit_ready-Ends s = grind (arith, command-Ends)

  geometry-some :
      (s : Scsi T)
      → Ends (λ _ _. Unit {0}) (λ _ _. Unit {0}) (λ _. Unit {0}) (Operations.geometry bus s)
  geometry-some s = grind (arith, geometry-Ends bus s)

  flush-Ends :
      (s : Scsi T)
      → Ends (λ _ _. Unit {0}) (λ _ _. Unit {0}) (λ _. Unit {0}) (Operations.flush bus s)
  unfolding Operations.flush
  flush-Ends s = grind (arith, command-Ends)

  eject-Ends :
      (s : Scsi T)
      → Ends
          (λ _ (s' : Scsi T). s'.usable ≡ false)
          (λ _ _. Unit {0})
          (λ _. Unit {0})
          (Operations.eject bus s)
  unfolding Operations.eject
  eject-Ends s = grind (arith, command-Ends)

  introduce-Ends :
      (p : Lines)
      → AllSound p.printed
      → Ends
          (λ _ (q : Lines).
            (stages q.printed ≡ "test-unit-ready" ∷ "inquiry" ∷ stages p.printed)
            × AllSound q.printed)
          (λ _ (q : Lines). AllSound q.printed)
          (λ _. ⊥)
          (introduce bus p)
  unfolding introduce emit stage Operations.inquiry
  introduce-Ends p sound =
      let cdb : List ℕ = 0x12 ∷ 0 ∷ 0 ∷ 0 ∷ 36 ∷ 0 ∷ [] in
      let inquired =
        bounded-Ends (Returned p.state 36) _ _ "inquiry" p.printed (Operations.inquiry bus) p refl
          (command-Ends bus cdb 36 [] p.state) in
      let tested = λ (q : Lines).
        bounded-Ends (λ _ _. Unit {0}) (λ _ _. Unit {0}) (λ _. Unit {0}) "test-unit-ready" q.printed
          (Operations.test_unit_ready bus) q refl (test_unit_ready-Ends q.state) in
      grind (arith, inquired, emit_inquiry-Ends, tested)

  measure-Ends :
      (p : Lines)
      → AllSound p.printed
      → Ends
          (λ g (q : Lines). (stages q.printed ≡ "capacity" ∷ stages p.printed) × AllSound q.printed)
          (λ _ (q : Lines). AllSound q.printed)
          (λ _. ⊥)
          (measure bus p)
  unfolding measure emit stage
  measure-Ends p sound =
      let measured =
        bounded-Ends (λ _ _. Unit {0}) (λ _ _. Unit {0}) (λ _. Unit {0}) "capacity" p.printed
          (Operations.geometry bus) p refl (geometry-some p.state) in
      grind (arith, measured)

  conclude-Ends :
      (p : Lines)
      → AllSound p.printed
      → Ends
          (λ _ (q : Lines).
            (stages q.printed ≡ "eject" ∷ "synchronize-cache" ∷ stages p.printed)
            × AllSound q.printed
            × (q.state.usable ≡ false))
          (λ _ (q : Lines). AllSound q.printed)
          (λ _. ⊥)
          (conclude bus p)
  unfolding conclude emit stage
  conclude-Ends p sound =
      let flushed =
        bounded-Ends (λ _ _. Unit {0}) (λ _ _. Unit {0}) (λ _. Unit {0}) "synchronize-cache"
          p.printed (Operations.flush bus) p refl (flush-Ends p.state) in
      let ejected = λ (q : Lines).
        bounded-Ends (λ _ (s : Scsi T). s.usable ≡ false) (λ _ _. Unit {0}) (λ _. Unit {0}) "eject"
          q.printed (Operations.eject bus) q refl (eject-Ends q.state) in
      grind (arith, flushed, ejected)

  module _ (usize_max : ℕ) (digest : List ℕ → List ℕ) where
    take_sample-Ends :
        (count block_size : ℕ) (p : Lines)
        → count * block_size ≤ 4096
        → AllSound p.printed
        → Ends
            (λ _ (q : Lines). (stages q.printed ≡ "sample" ∷ stages p.printed) × AllSound q.printed)
            (λ _ (q : Lines). AllSound q.printed)
            (λ _. ⊥)
            (take_sample bus usize_max digest count block_size p)
    unfolding take_sample emit stage
    take_sample-Ends count block_size p small sound =
        let sampled =
          bounded-Ends (Returned p.state (count * block_size)) _ _ "read-blocks" p.printed
            (Operations.read_blocks bus usize_max 0 count block_size) p refl
            (read_blocks-Ends bus usize_max 0 count block_size p.state) in
        grind (arith, sampled)

    -- `commands` never panics, and a deadline that passes is an error. Whatever it prints is sound:
    -- the sample that it reports starts at the first block and has 4096 bytes at most. Where it
    -- succeeds, it has printed its six lines in their order, and the session is retired.
    pub commands-Ends :
        (p : Lines)
        → AllSound p.printed
        → Ends
            (λ _ (q : Lines).
              (stages q.printed
                ≡ "eject"
                  ∷ "synchronize-cache"
                  ∷ "sample"
                  ∷ "capacity"
                  ∷ "test-unit-ready"
                  ∷ "inquiry"
                  ∷ stages p.printed)
              × AllSound q.printed
              × (q.state.usable ≡ false))
            (λ _ (q : Lines). AllSound q.printed)
            (λ _. ⊥)
            (commands bus usize_max digest p)
    unfolding commands
    commands-Ends p sound = grind (
      arith,
      introduce-Ends p sound,
      measure-Ends,
      sample_blocks_small,
      take_sample-Ends,
      conclude-Ends,
    )
