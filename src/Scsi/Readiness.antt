-- ===== src/Scsi/Readiness.antt =====
-- `Scsi::initialize_ready` of nusb-scsi/src/lib.rs, over every transport.
use canoe_nusb_storage.Common.{ℕ, ◌≡◌, ◌⊎◌, true, false, List, [], arith, if◌then◌else◌}
use canoe_nusb_storage.Common.Outcome.{Outcome, ok, err, dropped, panicked, stuck}
use canoe_nusb_storage.Common.Ends.{Ends}
use canoe_nusb_storage.Scsi.Error.{Error, command_failed}
use canoe_nusb_storage.Scsi.Transport.{BulkIo, Scsi}
use canoe_nusb_storage.Scsi.Command.{next_tag, is_bad_shape}
use canoe_nusb_storage.Scsi.Retirement.{command-Ends, Returned, Refused, Abandoned}
use canoe_nusb_storage.Scsi.Operations.{
  test_unit_ready, request_sense, retry_ready, after_test, initialize_ready, reset_or_new_medium,
}

module _ {T : Type 0} (bus : BulkIo T) where
  test_unit_ready-Ends :
      (s : Scsi T)
      → Ends
          (λ _. Returned s 0 [])
          (Refused s (s.usable ≡ false))
          (Abandoned s)
          (test_unit_ready bus s)
  unfolding test_unit_ready is_bad_shape
  test_unit_ready-Ends s = grind (arith, command-Ends)

  request_sense-Ends :
      (s : Scsi T)
      → Ends (Returned s 18) (Refused s (s.usable ≡ false)) (Abandoned s) (request_sense bus s)
  unfolding request_sense is_bad_shape
  request_sense-Ends s = grind (arith, command-Ends)

  -- After two commands: the sense request and the second readiness test.
  retry_ready-Ends :
      (s : Scsi T)
      → Ends
          (λ _ s'.
            (s.usable ≡ true)
            × (s'.usable ≡ true)
            × (s'.lun ≡ s.lun)
            × (s'.tag ≡ next_tag (next_tag s.tag)))
          (λ e s'.
            ((s'.usable ≡ false) ⊎ (e ≡ command_failed))
            × (s'.lun ≡ s.lun)
            × ((s'.tag ≡ s.tag)
                ⊎ ((s'.tag ≡ next_tag s.tag) ⊎ (s'.tag ≡ next_tag (next_tag s.tag)))))
          (λ s'. (s'.usable ≡ false) × (s'.lun ≡ s.lun))
          (retry_ready bus s)
  unfolding retry_ready
  retry_ready-Ends s = grind (arith, request_sense-Ends s, test_unit_ready-Ends)

  -- How the first test ends, in the words of the theorem below.
  abbrev Ready : Scsi T → Outcome Error (Unit {0}) × Scsi T → Type 0
  Ready s =
      Ends
        (λ _ s'.
          (s.usable ≡ true)
          × (s'.usable ≡ true)
          × (s'.lun ≡ s.lun)
          × ((s'.tag ≡ next_tag s.tag) ⊎ (s'.tag ≡ next_tag (next_tag (next_tag s.tag)))))
        (λ e s'. ((s'.usable ≡ false) ⊎ (e ≡ command_failed)) × (s'.lun ≡ s.lun))
        (λ s'. (s'.usable ≡ false) × (s'.lun ≡ s.lun))

  after_test-Ready :
      (s s' : Scsi T) (r : Outcome Error (Unit {0}))
      → Ends (λ _. Returned s 0 []) (Refused s (s.usable ≡ false)) (Abandoned s) (r, s')
      → Ready s (after_test bus r s')
  unfolding after_test
  after_test-Ready s s' (err command_failed) h = grind (arith, retry_ready-Ends s')
  after_test-Ready s s' (ok u) h = ground arith
  after_test-Ready s s' (err e) h = ground arith
  after_test-Ready s s' dropped h = ground arith
  after_test-Ready s s' panicked h = h
  after_test-Ready s s' stuck h = h

  -- `initialize_ready` ends without a panic. Where it succeeds, the session was usable and is
  -- usable, and its tag has moved by one (the test) or by three (the test, the sense request and
  -- one more test). Where it fails, the session is unusable or the error is `CommandFailed`; where
  -- the future is dropped, the session is unusable. The LUN never changes.
  pub initialize_ready-Ends :
      (s : Scsi T)
      → Ends
          (λ _ s'.
            (s.usable ≡ true)
            × (s'.usable ≡ true)
            × (s'.lun ≡ s.lun)
            × ((s'.tag ≡ next_tag s.tag) ⊎ (s'.tag ≡ next_tag (next_tag (next_tag s.tag)))))
          (λ e s'. ((s'.usable ≡ false) ⊎ (e ≡ command_failed)) × (s'.lun ≡ s.lun))
          (λ s'. (s'.usable ≡ false) × (s'.lun ≡ s.lun))
          (initialize_ready bus s)
  unfolding initialize_ready
  initialize_ready-Ends s = after_test-Ready s _ _ (test_unit_ready-Ends s)

  -- Where the first test is refused and the sense data shows neither a reset nor a new medium, the
  -- refusal is the result, and no second test is made.
  pub initialize_ready-refused :
      (s s1 s2 : Scsi T) (sense : List ℕ)
      → test_unit_ready bus s ≡ (err command_failed, s1)
      → request_sense bus s1 ≡ (ok sense, s2)
      → initialize_ready bus s
        ≡ (if reset_or_new_medium sense then test_unit_ready bus s2 else (err command_failed, s2))
  unfolding initialize_ready retry_ready
  initialize_ready-refused s s1 s2 sense h k = ground arith
