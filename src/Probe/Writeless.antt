-- ===== src/Probe/Writeless.antt =====
-- The whole run of nusb-scsi/examples/managed_probe.rs sends quiet messages only.
use canoe_nusb_storage.Common.{ℕ, ◌*◌, ◌≡◌, refl, Option, none, some, List, arith}
use canoe_nusb_storage.Common.Keeps.{Keeps}
use canoe_nusb_storage.Common.Outcome.{Outcome, ok, err, dropped, panicked, stuck}
use canoe_nusb_storage.Scsi.Error.{Error}
use canoe_nusb_storage.Scsi.Transport.{Scsi, new}
use canoe_nusb_storage.Usb.{Nusb, NusbIo, nanoseconds}
use canoe_nusb_storage.Usb.Quiet.{
  NusbKeeps, read-kept, write-kept, close_native-Keeps, initialize-Keeps,
}
use canoe_nusb_storage.Fs.Text.{Text}
use canoe_nusb_storage.Probe.{Failure, Printing, emit, settled}
use canoe_nusb_storage.Probe.Quiet.{settled-kept, investigate-Keeps}
use canoe_nusb_storage.Probe.Arguments.{Options}
use canoe_nusb_storage.Probe.Connected.{
  Session, investigate, drained, close_bounded, teardown, finished, connected, run_connected,
}
use canoe_nusb_storage.Probe.Running.{
  Host, DeviceInfo, connect_and_run, on_host, use_interface, select_device, claim, probe_device,
  Configuration, run_with, run, main,
}

abbrev Lasting : {W : Type 0} → (W → Type 0) → Printing W → Type 0
Lasting Inv p = Inv p.state

module _ {W I P : Type 0} (Inv : W → Type 0) (nusb : Nusb W I P) (keeps : NusbKeeps Inv nusb) where
  close_bounded-kept :
      (overtaken : NusbIo I P → W → Option W)
      → ((io : NusbIo I P) (w w' : W) → overtaken io w ≡ some w' → Inv w → Inv w')
      → (io : NusbIo I P) → Keeps (Lasting Inv) (close_bounded nusb overtaken io)
  unfolding close_bounded drained
  close_bounded-kept overtaken k io p h =
      let closed = λ (fuel fuel' : ℕ). close_native-Keeps Inv nusb keeps fuel fuel' io p.state h in
      grind (arith, closed, k)

  module _ (overtaken : NusbIo I P → W → Option W)
      (drop_keeps : (io : NusbIo I P) (w w' : W) → overtaken io w ≡ some w' → Inv w → Inv w') where
    teardown-kept :
        (result : Outcome Failure (Unit {0})) (io : NusbIo I P)
        → Keeps (Lasting Inv) (teardown nusb overtaken result io)
    unfolding teardown emit
    teardown-kept result io p h =
        let kept =
          settled-kept (Lasting Inv) (close_bounded nusb overtaken io)
            (close_bounded-kept overtaken drop_keeps io) p h in
        grind (arith, kept)

    module _ (usize_max : ℕ) (digest : List ℕ → List ℕ) where
      investigated :
          Keeps
            (λ (p : Session W I P). Inv p.state.io.1)
            (investigate nusb overtaken usize_max digest)
      investigated =
          investigate-Keeps nusb (λ t. Inv t.1) (read-kept Inv nusb keeps)
            (write-kept Inv nusb keeps) overtaken usize_max digest

      finished-kept :
          (r : Outcome Failure (Outcome Failure (Unit {0}))) (p : Session W I P)
          → Inv p.state.io.1
          → Lasting Inv (finished nusb overtaken r p).1
      finished-kept (ok result) p h = teardown-kept result p.state.io.0 _ h
      finished-kept (err e) p h = h
      finished-kept dropped p h = h
      finished-kept panicked p h = h
      finished-kept stuck p h = h

      connected-kept :
          (r : Outcome Error (Scsi (NusbIo I P × W))) (p : Printing W)
          → Lasting Inv p
          → ((s : Scsi (NusbIo I P × W)) → r ≡ ok s → Inv s.io.1)
          → Lasting Inv (connected nusb overtaken usize_max digest r p).1
      connected-kept (ok s) p h k = finished-kept _ _ (investigated _ (k s refl))
      connected-kept (err e) p h k = h
      connected-kept dropped p h k = h
      connected-kept panicked p h k = h
      connected-kept stuck p h k = h

      run_connected-Keeps :
          (io : NusbIo I P) → Keeps (Lasting Inv) (run_connected nusb overtaken usize_max digest io)
      unfolding run_connected new
      run_connected-Keeps io p h = connected-kept _ p h (λ s e. grind arith)

-- `Inv` is kept by what `run` calls of nusb besides.
pub record HostKeeps {W I H : Type 0} (Inv : W → Type 0) (host : Host W I H) : Type 0 where
  pub list_devices : Keeps Inv host.list_devices
  pub open_device : (info : DeviceInfo) → Keeps Inv (host.open_device info)
  pub active_configuration : (h : H) → Keeps Inv (host.active_configuration h)
  pub claim_interface : (h : H) (n : ℕ) → Keeps Inv (host.claim_interface h n)
  pub release : (i : I) → Keeps Inv (host.release i)
  pub drop_device : (h : H) (w : W) → Inv w → Inv (host.drop_device h w)

module _ {W I P H : Type 0} (Inv : W → Type 0) (nusb : Nusb W I P) (host : Host W I H)
    (usize_max : ℕ) (digest : List ℕ → List ℕ) (overtaken : NusbIo I P → W → Option W)
    (keeps : NusbKeeps Inv nusb) (host_keeps : HostKeeps Inv host)
    (drop_keeps : (io : NusbIo I P) (w w' : W) → overtaken io w ≡ some w' → Inv w → Inv w') where
  connect_and_run-kept :
      (claimed : I) (alternate : ℕ)
      → Keeps (Lasting Inv) (connect_and_run nusb host usize_max digest overtaken claimed alternate)
  unfolding connect_and_run emit
  connect_and_run-kept claimed alternate p h =
      let began = initialize-Keeps Inv nusb keeps claimed alternate (5 * nanoseconds) p.state h in
      let ran = run_connected-Keeps Inv nusb keeps overtaken drop_keeps usize_max digest in
      grind (arith, began, ran)

  use_interface-kept :
      (h : H) (claimed : I) (alternate : ℕ)
      → Keeps (Lasting Inv) (use_interface nusb host usize_max digest overtaken h claimed alternate)
  unfolding use_interface emit settled on_host
  use_interface-kept h claimed alternate p k =
      let ran = connect_and_run-kept claimed alternate p k in
      let released = host_keeps.release claimed in
      let dropped' = host_keeps.drop_device h in grind (arith, ran, released, dropped')

  select_device-kept :
      (o : Options) → Keeps (Lasting Inv) (select_device nusb host usize_max digest overtaken o)
  unfolding select_device emit on_host
  select_device-kept o p h = let listed = host_keeps.list_devices p.state h in grind (arith, listed)

  claim-kept :
      (h : H) (configuration : Configuration)
      → Keeps (Lasting Inv) (claim nusb host usize_max digest overtaken h configuration)
  unfolding claim emit on_host
  claim-kept h configuration p k = grind (arith, host_keeps.claim_interface)

  probe_device-kept :
      (info : DeviceInfo)
      → Keeps (Lasting Inv) (probe_device nusb host usize_max digest overtaken info)
  unfolding probe_device on_host
  probe_device-kept info p h =
      let opened = host_keeps.open_device info p.state h in
      grind (arith, opened, host_keeps.active_configuration, claim-kept, use_interface-kept)

  run_with-kept :
      (o : Option Options) → Keeps (Lasting Inv) (run_with nusb host usize_max digest overtaken o)
  unfolding run_with emit
  run_with-kept none p h = h
  run_with-kept (some o) p h = grind (arith, select_device-kept, probe_device-kept)

  run-kept :
      (arguments : List Text)
      → Keeps (Lasting Inv) (run nusb host usize_max digest overtaken arguments)
  unfolding run
  run-kept arguments p h = grind (arith, run_with-kept)

  -- What is true of the bus, and is kept by each call of nusb that the probe makes, where a message on
  -- a bulk OUT endpoint is a command block wrapper of TEST UNIT READY, REQUEST SENSE, INQUIRY, START
  -- STOP UNIT, READ CAPACITY, READ(10) or SYNCHRONIZE CACHE, is true of it still after `main`, for any
  -- arguments and however it ends: the probe sends no other message, so no WRITE(10) and no data.
  pub main-Keeps :
      (arguments : List Text) (p : Printing W)
      → Inv p.state
      → Inv (main nusb host usize_max digest overtaken arguments p).1.state
  unfolding main
  main-Keeps arguments p h = grind (arith, run-kept arguments p h)
