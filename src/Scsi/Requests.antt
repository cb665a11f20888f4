-- ===== src/Scsi/Requests.antt =====
-- The public operations of `Scsi` (nusb-scsi/src/lib.rs) as requests, in any order and number.
use canoe_nusb_storage.Common.{ℕ, ◌≤◌, ◌<◌, ◌^◌, ◌≡◌, refl, false, List, [], ◌∷◌, arith}
use canoe_nusb_storage.Common.Outcome.{Outcome, ok, err}
use canoe_nusb_storage.Scsi.Error.{Error, command_failed}
use canoe_nusb_storage.Scsi.Transport.{BulkIo, Scsi, new}
use canoe_nusb_storage.Scsi.Command.{command, next_tag}
use canoe_nusb_storage.Scsi.Retirement.{command-Ends, command-retired}
use canoe_nusb_storage.Scsi.Operations

pub data Request : Type 0 where
  test_unit_ready initialize_ready inquiry eject request_sense geometry flush : Request
  read_blocks : (lba count block_size : ℕ) → Request
  write_blocks : (lba count block_size : ℕ) → List ℕ → Request

module _ {T : Type 0} (bus : BulkIo T) (usize_max : ℕ) where
  -- The session after a request, however it ended.
  unfoldable pub perform : Request → Scsi T → Scsi T
  perform test_unit_ready s = (Operations.test_unit_ready bus s).1
  perform initialize_ready s = (Operations.initialize_ready bus s).1
  perform inquiry s = (Operations.inquiry bus s).1
  perform eject s = (Operations.eject bus s).1
  perform request_sense s = (Operations.request_sense bus s).1
  perform geometry s = (Operations.geometry bus s).1
  perform flush s = (Operations.flush bus s).1
  perform (read_blocks lba count size) s = (Operations.read_blocks bus usize_max lba count size s).1
  perform (write_blocks lba count size bytes) s =
      (Operations.write_blocks bus usize_max lba count size bytes s).1

  unfoldable pub perform_all : List Request → Scsi T → Scsi T
  perform_all [] s = s
  perform_all (r ∷ rs) s = perform_all rs (perform r s)

module _ {T : Type 0} (bus : BulkIo T) (usize_max : ℕ) where
  perform-retired : (r : Request) (s : Scsi T) → s.usable ≡ false → perform bus usize_max r s ≡ s
  unfolding perform Operations.test_unit_ready Operations.initialize_ready Operations.inquiry
      Operations.eject Operations.request_sense Operations.geometry Operations.flush
      Operations.read_blocks Operations.write_blocks
  perform-retired test_unit_ready s h = grind (arith, command-retired)
  perform-retired initialize_ready s h = grind (arith, command-retired)
  perform-retired inquiry s h = grind (arith, command-retired)
  perform-retired eject s h = grind (arith, command-retired)
  perform-retired request_sense s h = grind (arith, command-retired)
  perform-retired geometry s h = grind (arith, command-retired)
  perform-retired flush s h = grind (arith, command-retired)
  perform-retired (read_blocks lba count size) s h = grind (arith, command-retired)
  perform-retired (write_blocks lba count size bytes) s h = grind (arith, command-retired)

  -- An unusable session stays as it is under any sequence of requests: its transport, its tag and
  -- its LUN do not change, and it stays unusable.
  pub perform_all-retired :
      (rs : List Request) (s : Scsi T) → s.usable ≡ false → perform_all bus usize_max rs s ≡ s
  unfolding perform_all
  perform_all-retired [] s h = refl
  perform_all-retired (r ∷ rs) s h =
      ground (arith, perform-retired r s h, perform_all-retired rs s h)

  pub record IsValid (s : Scsi T) : Type 0 where
    pub tag_range : s.tag < 2 ^ 32
    pub lun_range : s.lun ≤ 15

  command-IsValid :
      (cdb : List ℕ) (incoming : ℕ) (outgoing : List ℕ) (s : Scsi T)
      → IsValid s
      → IsValid (command bus cdb incoming outgoing s).1
  unfolding next_tag
  command-IsValid cdb incoming outgoing s v =
      ground (arith, command-Ends bus cdb incoming outgoing s)

  test_unit_ready-IsValid : (s : Scsi T) → IsValid s → IsValid (Operations.test_unit_ready bus s).1
  unfolding Operations.test_unit_ready
  test_unit_ready-IsValid s v = grind (arith, command-IsValid)

  retry_ready-IsValid : (s : Scsi T) → IsValid s → IsValid (Operations.retry_ready bus s).1
  unfolding Operations.retry_ready Operations.request_sense Operations.test_unit_ready
  retry_ready-IsValid s v = grind (arith, command-IsValid)

  after_test-IsValid :
      (r : Outcome Error (Unit {0})) (s : Scsi T)
      → IsValid s
      → IsValid (Operations.after_test bus r s).1
  unfolding Operations.after_test
  after_test-IsValid (err command_failed) s v = retry_ready-IsValid s v
  after_test-IsValid (ok u) s v = v
  after_test-IsValid _ s v = v

  perform-IsValid : (r : Request) (s : Scsi T) → IsValid s → IsValid (perform bus usize_max r s)
  unfolding perform Operations.test_unit_ready Operations.initialize_ready Operations.inquiry
      Operations.eject Operations.request_sense Operations.geometry Operations.flush
      Operations.read_blocks Operations.write_blocks
  perform-IsValid test_unit_ready s v = grind (arith, command-IsValid)
  perform-IsValid initialize_ready s v = after_test-IsValid _ _ (test_unit_ready-IsValid s v)
  perform-IsValid inquiry s v = grind (arith, command-IsValid)
  perform-IsValid eject s v = grind (arith, command-IsValid)
  perform-IsValid request_sense s v = grind (arith, command-IsValid)
  perform-IsValid geometry s v = grind (arith, command-IsValid)
  perform-IsValid flush s v = grind (arith, command-IsValid)
  perform-IsValid (read_blocks lba count size) s v = grind (arith, command-IsValid)
  perform-IsValid (write_blocks lba count size bytes) s v = grind (arith, command-IsValid)

  perform_all-IsValid :
      (rs : List Request) (s : Scsi T) → IsValid s → IsValid (perform_all bus usize_max rs s)
  unfolding perform_all
  perform_all-IsValid [] s v = v
  perform_all-IsValid (r ∷ rs) s v =
      perform_all-IsValid rs (perform bus usize_max r s) (perform-IsValid r s v)

  -- Of every session that `new` opens, after any sequence of requests, the tag is below 2^32 and
  -- the LUN is 15 at most.
  pub new-IsValid :
      (io : T) (lun : ℕ) (rs : List Request) (s : Scsi T)
      → new bus io lun ≡ ok s
      → IsValid (perform_all bus usize_max rs s)
  unfolding new
  new-IsValid io lun rs s h = perform_all-IsValid rs s (ground arith)
