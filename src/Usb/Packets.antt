-- ===== src/Usb/Packets.antt =====
-- The length that `read` of nusb-scsi/src/lib.rs asks for, where no packet size is 0.
use canoe_nusb_storage.Common.{
  ℕ, zero, suc, ◌+◌, ◌-◌, ◌%◌, ◌≤◌, ◌<◌, ◌==◌, ◌≡◌, refl, sym, ap, ◌∙◌, Bool, false, some, List, [],
  ◌∷◌, ◌++◌, any, if◌then◌else◌, arith,
}
use canoe_nusb_storage.Common.Outcome.{ok}
use canoe_nusb_storage.Usb.{Nusb, NusbIo, HasPackets, next_multiple_of, initialize}
use canoe_nusb_storage.Usb.Selection.{initialize-IsTransport}

any-false :
    {A : Type 0} (test : A → Bool) (before : List A) (x : A) (after : List A)
    → any test (before ++ (x ∷ after)) ≡ false
    → test x ≡ false
any-false test [] x after h = ground arith
any-false test (y ∷ before) x after h = any-false test before x after (ground arith)

-- For a packet size above 0, the length is there, and has room for the bytes asked for.
pub next_multiple_of-le :
    (n size : ℕ) → 0 < size → (m : ℕ) × (next_multiple_of n size ≡ some m) × (n ≤ m)
unfolding next_multiple_of
next_multiple_of-le n zero h = absurd (omega arith)
next_multiple_of-le n (suc k) h =
    ((if n % (suc k) == 0 then n else n + (suc k - n % (suc k))), refl, ground arith)

module _ {W I P : Type 0} (nusb : Nusb W I P) (claimed : I) (alternate timeout : ℕ) where
  -- Where no descriptor has an endpoint with a packet size of 0, a transport that the connection
  -- answers has a packet size above 0.
  pub initialize-lt :
      (w : W) (io : NusbIo I P) (w' : W)
      → HasPackets nusb
      → initialize nusb claimed alternate timeout w ≡ (ok io, w')
      → 0 < io.input_packet_size
  initialize-lt w io w' packets h =
      let t = initialize-IsTransport nusb claimed alternate timeout w io w' h in
      let at_descriptor =
        any-false (λ d. any (λ e. e.max_packet_size == 0) d.endpoints) t.listed.before t.descriptor
          t.listed.after (ap (any _) (sym t.listed.split) ∙ packets claimed) in
      let at_endpoint =
        any-false (λ e. e.max_packet_size == 0) t.first_input.before t.input t.first_input.after
          (ap (any _) (sym t.first_input.split) ∙ at_descriptor) in
      ground (arith, at_endpoint, t.packet_size)
