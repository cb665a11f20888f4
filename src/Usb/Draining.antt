-- ===== src/Usb/Draining.antt =====
-- The native `NusbIo::close` of nusb-scsi/src/lib.rs ends with no transfer pending.
use canoe_nusb_storage.Common.{ℕ, zero, suc, ◌≤◌, ◌<◌, ◌≡◌, arith}
use canoe_nusb_storage.Common.Outcome.{ok}
use canoe_nusb_storage.Usb.{Nusb, NusbIo, drain, close_native}

-- What nusb documents: a completion that is awaited is pending no longer, and belongs to one
-- endpoint. `input` and `output` are different endpoints.
pub record Completes {W I P : Type 0} (nusb : Nusb W I P) (input output : P) : Type 0 where
  pub fewer_input :
      (w : W)
      → 0 < nusb.pending input w
      → nusb.pending input (nusb.next_complete input w) < nusb.pending input w
  pub fewer_output :
      (w : W)
      → 0 < nusb.pending output w
      → nusb.pending output (nusb.next_complete output w) < nusb.pending output w
  pub output_apart :
      (w : W) → nusb.pending output (nusb.next_complete input w) ≡ nusb.pending output w
  pub input_apart :
      (w : W) → nusb.pending input (nusb.next_complete output w) ≡ nusb.pending input w

module _ {W I P : Type 0} (nusb : Nusb W I P) where
  drain-Drained :
      (p q : P)
      → ((w : W)
          → 0 < nusb.pending p w
          → nusb.pending p (nusb.next_complete p w) < nusb.pending p w)
      → ((w : W) → nusb.pending q (nusb.next_complete p w) ≡ nusb.pending q w)
      → (fuel : ℕ) (w : W) → nusb.pending p w ≤ fuel
      → ((drain nusb fuel p w).0 ≡ ok tt)
        × (nusb.pending p (drain nusb fuel p w).1 ≡ 0)
        × (nusb.pending q (drain nusb fuel p w).1 ≡ nusb.pending q w)
  unfolding drain
  drain-Drained p q fewer apart zero w h = ground arith
  drain-Drained p q fewer apart (suc fuel) w h =
      ground (arith, fewer w, apart w, drain-Drained p q fewer apart fuel (nusb.next_complete p w))

  -- Where an awaited completion is pending no longer and belongs to one endpoint, and each loop of
  -- the native `close` has as many rounds as transfers are pending after the cancelling, `close`
  -- ends, succeeds, and leaves no transfer pending on either endpoint.
  pub close_native-drains :
      (io : NusbIo I P)
      → Completes nusb io.input io.output
      → (fuel fuel' : ℕ) (w : W)
      → nusb.pending io.input (nusb.cancel_all io.output (nusb.cancel_all io.input w)) ≤ fuel
      → nusb.pending io.output (nusb.cancel_all io.output (nusb.cancel_all io.input w)) ≤ fuel'
      → ((close_native nusb fuel fuel' io w).0 ≡ ok tt)
        × (nusb.pending io.input (close_native nusb fuel fuel' io w).1 ≡ 0)
        × (nusb.pending io.output (close_native nusb fuel fuel' io w).1 ≡ 0)
  unfolding close_native
  close_native-drains io laws fuel fuel' w h k =
      let now = nusb.cancel_all io.output (nusb.cancel_all io.input w) in
      let first = drain-Drained io.input io.output laws.fewer_input laws.output_apart fuel now h in
      let second =
        drain-Drained io.output io.input laws.fewer_output laws.input_apart fuel'
          (drain nusb fuel io.input now).1 (omega (arith, first)) in
      ground (arith, first, second)
