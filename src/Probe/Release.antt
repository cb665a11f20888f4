-- ===== src/Probe/Release.antt =====
-- `run` of nusb-scsi/examples/managed_probe.rs releases the interface that it claimed.
use canoe_nusb_storage.Common.{ℕ, ◌*◌, ◌≡◌, ap, Option, List, [], ◌∷◌, take, arith}
use canoe_nusb_storage.Common.Outcome.{ok, IsResult}
use canoe_nusb_storage.Common.Ends.{Ends}
use canoe_nusb_storage.Usb.{Nusb, NusbIo, ControlIn, HasPackets, initialize, nanoseconds}
use canoe_nusb_storage.Usb.Packets.{initialize-lt}
use canoe_nusb_storage.Usb.Results.{initialize-IsResult}
use canoe_nusb_storage.Usb.Draining.{Completes}
use canoe_nusb_storage.Probe.{Printing, get_max_lun, stage, emit, settled, settled_end}
use canoe_nusb_storage.Probe.Stages.{AllSound, stages}
use canoe_nusb_storage.Probe.Teardown.{run_connected-Ends}
use canoe_nusb_storage.Probe.Running.{
  Host, on_host, of_host, of_connect, connect_and_run, use_interface,
}

-- What `run` needs of nusb: opening an endpoint and the control transfer end with a result or an
-- error, no endpoint has a packet size of 0, and the transfers of the endpoints that the connection
-- opens complete.
pub record Connects {W I P : Type 0} (nusb : Nusb W I P) (claimed : I) (alternate : ℕ)
    : Type 0 where
  pub endpoint : (address : ℕ) (w : W) → IsResult (nusb.endpoint claimed address w).0
  pub control_in :
      (c : ControlIn) (timeout : ℕ) (w : W) → IsResult (nusb.control_in claimed c timeout w).0
  pub packets : HasPackets nusb
  pub completes :
      (w : W) (io : NusbIo I P)
      → (initialize nusb claimed alternate (5 * nanoseconds) w).0 ≡ ok io
      → Completes nusb io.input io.output

module _ {W I P H : Type 0} (nusb : Nusb W I P) (host : Host W I H) (usize_max : ℕ)
    (digest : List ℕ → List ℕ) (overtaken : NusbIo I P → W → Option W) where
  connect_and_run-Ends :
      (claimed : I) (alternate : ℕ) (p : Printing W)
      → Connects nusb claimed alternate
      → AllSound p.printed
      → Ends
          (λ _ (q : Printing W).
            (stages q.printed
              ≡ "transfers-drained"
                ∷ "eject"
                ∷ "synchronize-cache"
                ∷ "sample"
                ∷ "capacity"
                ∷ "test-unit-ready"
                ∷ "inquiry"
                ∷ "get-max-lun"
                ∷ stages p.printed)
            × AllSound q.printed)
          (λ _ (q : Printing W). AllSound q.printed)
          (λ _. ⊥)
          (connect_and_run nusb host usize_max digest overtaken claimed alternate p)
  unfolding connect_and_run emit stage of_connect
  connect_and_run-Ends claimed alternate p c sound =
      let w : W = (initialize nusb claimed alternate (5 * nanoseconds) p.state).1 in
      let served =
        λ (io : NusbIo I P)
            (e : (initialize nusb claimed alternate (5 * nanoseconds) p.state).0 ≡ ok io).
          run_connected-Ends nusb overtaken usize_max digest io
            (record { state = w; printed = get_max_lun io.max_lun ∷ p.printed })
            (c.completes p.state io e)
            (initialize-lt nusb claimed alternate (5 * nanoseconds) p.state io w c.packets
              (ap (λ r. (r, w)) e))
            (tt, sound) in
      let connected =
        initialize-IsResult nusb claimed alternate (5 * nanoseconds) c.endpoint c.control_in
          p.state in
      grind (arith, connected, served)

  -- Where opening an endpoint, the control transfer and the release of the interface each end with a
  -- result or an error, nusb completes the transfers of the endpoints that the connection opens and
  -- reports no packet size of 0, and the lines printed before are sound: whether the connection and the
  -- commands succeed or fail, the interface is then released in the state that they left, and the
  -- device handle dropped after that; the last two lines say so. What is printed is sound. Where the
  -- call succeeds, it has printed the ten lines of a complete qualification.
  pub use_interface-Ends :
      (h : H) (claimed : I) (alternate : ℕ) (p : Printing W)
      → Connects nusb claimed alternate
      → ((w : W) → IsResult (host.release claimed w).0)
      → AllSound p.printed
      → Ends
          (λ _ (q : Printing W).
            (stages q.printed
              ≡ "device-close"
                ∷ "interface-release"
                ∷ "transfers-drained"
                ∷ "eject"
                ∷ "synchronize-cache"
                ∷ "sample"
                ∷ "capacity"
                ∷ "test-unit-ready"
                ∷ "inquiry"
                ∷ "get-max-lun"
                ∷ stages p.printed)
            × AllSound q.printed
            × (q.state
                ≡ host.drop_device h
                    (host.release claimed
                      (connect_and_run nusb host usize_max digest overtaken claimed alternate
                        p).1.state).1))
          (λ _ (q : Printing W).
            (take 2 (stages q.printed) ≡ "device-close" ∷ "interface-release" ∷ [])
            × AllSound q.printed
            × (q.state
                ≡ host.drop_device h
                    (host.release claimed
                      (connect_and_run nusb host usize_max digest overtaken claimed alternate
                        p).1.state).1))
          (λ _. ⊥)
          (use_interface nusb host usize_max digest overtaken h claimed alternate p)
  unfolding use_interface emit stage settled settled_end on_host of_host
  use_interface-Ends h claimed alternate p c released sound = grind (
    arith,
    connect_and_run-Ends claimed alternate p c sound,
    released (connect_and_run nusb host usize_max digest overtaken claimed alternate p).1.state,
  )
