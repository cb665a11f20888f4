-- ===== src/Probe/Ending.antt =====
-- `run` and `main` of nusb-scsi/examples/managed_probe.rs end.
use canoe_nusb_storage.Common.{
  ℕ, ◌≡◌, refl, ◌⊎◌, inl, inr, Option, none, some, List, [], ◌∷◌, take, arith, String,
}
use canoe_nusb_storage.Common.Outcome.{ok, err, Action, IsResult}
use canoe_nusb_storage.Common.Ends.{Ends}
use canoe_nusb_storage.Usb.{Nusb, NusbIo}
use canoe_nusb_storage.Fs.Text.{Text}
use canoe_nusb_storage.Probe.{Failure, Printing, usage, stage, emit}
use canoe_nusb_storage.Probe.Stages.{AllSound, stages}
use canoe_nusb_storage.Probe.Arguments.{Options, parse_arguments-IsResult}
use canoe_nusb_storage.Probe.Running.{
  Host, DeviceInfo, on_host, of_host, single, use_interface, select_device, claim, probe_device,
  Configuration, run_with, run, main,
}
use canoe_nusb_storage.Probe.Release.{Connects, use_interface-Ends}

on_host-Ends :
    {W A : Type 0} (m : Action W ℕ A) (p : Printing W)
    → IsResult (m p.state).0
    → Ends
        (λ _ (q : Printing W). q.printed ≡ p.printed)
        (λ _ (q : Printing W). q.printed ≡ p.printed)
        (λ _. ⊥)
        (on_host m p)
unfolding on_host of_host
on_host-Ends m p h = grind (arith, h)

-- The calls of nusb end, with a result or an error.
pub record HostEnds {W I P H : Type 0} (nusb : Nusb W I P) (host : Host W I H) : Type 0 where
  pub list_devices : (w : W) → IsResult (host.list_devices w).0
  pub open_device : (info : DeviceInfo) (w : W) → IsResult (host.open_device info w).0
  pub active_configuration : (h : H) (w : W) → IsResult (host.active_configuration h w).0
  pub claim_interface : (h : H) (n : ℕ) (w : W) → IsResult (host.claim_interface h n w).0
  pub release : (i : I) (w : W) → IsResult (host.release i w).0
  pub connects : (i : I) (alternate : ℕ) → Connects nusb i alternate

-- The stages of a complete qualification, the last one first.
abbrev pub complete : List String → List String
complete before =
    "device-close" ∷ "interface-release" ∷ "transfers-drained" ∷ "eject" ∷ "synchronize-cache"
    ∷ "sample" ∷ "capacity" ∷ "test-unit-ready" ∷ "inquiry" ∷ "get-max-lun" ∷ "interface" ∷ "device"
    ∷ before

single-cases :
    {A : Type 0} (e : Failure) (xs : List A)
    → (single e xs ≡ err e) ⊎ ((a : A) × (single e xs ≡ ok a))
unfolding single
single-cases e [] = inl refl
single-cases e (a ∷ []) = inr (a, refl)
single-cases e (a ∷ b ∷ xs) = inl refl

module _ {W I P H : Type 0} (nusb : Nusb W I P) (host : Host W I H) (usize_max : ℕ)
    (digest : List ℕ → List ℕ) (overtaken : NusbIo I P → W → Option W) where
  abbrev Sound : Failure → Printing W → Type 0
  Sound e q = AllSound q.printed

  claimed-Ends :
      (h : H) (claimed : I) (alternate : ℕ) (p : Printing W)
      → Connects nusb claimed alternate
      → ((w : W) → IsResult (host.release claimed w).0)
      → AllSound p.printed
      → (before : List String) → stages p.printed ≡ "interface" ∷ "device" ∷ before
      → Ends
          (λ _ (q : Printing W). (stages q.printed ≡ complete before) × AllSound q.printed)
          Sound
          (λ _. ⊥)
          (use_interface nusb host usize_max digest overtaken h claimed alternate p)
  claimed-Ends h claimed alternate p c released sound before e = grind (
    arith,
    use_interface-Ends nusb host usize_max digest overtaken h claimed alternate p c released sound,
  )

  select_device-Ends :
      (o : Options) (p : Printing W)
      → ((w : W) → IsResult (host.list_devices w).0)
      → AllSound p.printed
      → Ends
          (λ _ (q : Printing W).
            (stages q.printed ≡ "device" ∷ stages p.printed) × AllSound q.printed)
          Sound
          (λ _. ⊥)
          (select_device nusb host usize_max digest overtaken o p)
  unfolding select_device emit stage
  select_device-Ends o p listed sound =
      grind (arith, on_host-Ends host.list_devices p (listed p.state), single-cases)

  claim-Ends :
      (h : H) (configuration : Configuration) (p : Printing W)
      → ((n : ℕ) (w : W) → IsResult (host.claim_interface h n w).0)
      → AllSound p.printed
      → Ends
          (λ _ (q : Printing W).
            (stages q.printed ≡ "interface" ∷ stages p.printed) × AllSound q.printed)
          Sound
          (λ _. ⊥)
          (claim nusb host usize_max digest overtaken h configuration p)
  unfolding claim emit stage
  claim-Ends h configuration p claims sound =
      let claimed = λ (n : ℕ). on_host-Ends (host.claim_interface h n) p (claims n p.state) in
      grind (arith, claimed, single-cases)

  probe_device-Ends :
      (info : DeviceInfo) (before : List String) (p : Printing W)
      → HostEnds nusb host
      → AllSound p.printed
      → stages p.printed ≡ "device" ∷ before
      → Ends
          (λ _ (q : Printing W). (stages q.printed ≡ complete before) × AllSound q.printed)
          Sound
          (λ _. ⊥)
          (probe_device nusb host usize_max digest overtaken info p)
  unfolding probe_device
  probe_device-Ends info before p ends sound e =
      let last = λ (h : H) (claimed : I) (alternate : ℕ) (q : Printing W).
        claimed-Ends h claimed alternate q (ends.connects claimed alternate)
          (ends.release claimed) in
      let opened = on_host-Ends (host.open_device info) p (ends.open_device info p.state) in
      let active = λ (h : H) (q : Printing W).
        on_host-Ends (host.active_configuration h) q (ends.active_configuration h q.state) in
      grind (
        arith,
        opened,
        active,
        λ (h : H) (c : Configuration) (q : Printing W). claim-Ends h c q (ends.claim_interface h),
        last,
      )

  run_with-Ends :
      (o : Option Options) (p : Printing W)
      → HostEnds nusb host
      → AllSound p.printed
      → Ends
          (λ _ (q : Printing W).
            AllSound q.printed
            × ((q.printed ≡ usage ∷ p.printed) ⊎ (stages q.printed ≡ complete (stages p.printed))))
          Sound
          (λ _. ⊥)
          (run_with nusb host usize_max digest overtaken o p)
  unfolding run_with emit
  run_with-Ends none p ends sound = ((tt, sound), inl refl)
  run_with-Ends (some o) p ends sound =
      let last =
        λ (info : DeviceInfo) (q : Printing W). probe_device-Ends info (stages p.printed) q ends in
      grind (arith, select_device-Ends o p ends.list_devices sound, last)

  -- Where the calls of nusb end with a result or an error, it completes the transfers of the
  -- endpoints that the connection opens and reports no packet size of 0, and the lines printed before
  -- are sound: `main` ends with the code 0 or 1, for any arguments. With 0, it has printed the usage
  -- only, or the twelve lines of a complete qualification in their order, the release of the interface
  -- and the closing of the device included; with 1, its last line is the failure. Every line that it
  -- prints is sound: the sample starts at the first block and has 4096 bytes at most, and an ejected
  -- session is retired.
  pub main-Ends :
      (arguments : List Text) (p : Printing W)
      → HostEnds nusb host
      → AllSound p.printed
      → Ends
          (λ code (q : Printing W).
            AllSound q.printed
            × (((code ≡ 0)
                  × ((q.printed ≡ usage ∷ p.printed)
                      ⊎ (stages q.printed ≡ complete (stages p.printed))))
                ⊎ ((code ≡ 1) × (take 1 (stages q.printed) ≡ "failed" ∷ []))))
          (λ _ _. ⊥)
          (λ _. ⊥)
          (main nusb host usize_max digest overtaken arguments p)
  unfolding main run stage
  main-Ends arguments p ends sound =
      let later = λ (o : Option Options). run_with-Ends o p ends sound in
      grind
        (arith, parse_arguments-IsResult arguments (record { bus = none; address = none }), later)
