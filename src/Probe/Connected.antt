-- ===== src/Probe/Connected.antt =====
-- `run_connected` of nusb-scsi/examples/managed_probe.rs, over the transport of nusb.
use canoe_nusb_storage.Common.{ℕ, ◌&&◌, Option, none, some, List, if◌then◌else◌}
use canoe_nusb_storage.Common.Outcome.{
  Outcome, ok, err, dropped, panicked, stuck, Action, pure, finish, get, ◌>>=◌, ◌>>◌,
}
use canoe_nusb_storage.Scsi.Error.{Error}
use canoe_nusb_storage.Scsi.Transport
use canoe_nusb_storage.Scsi.Transport.{Scsi, new}
use canoe_nusb_storage.Scsi.Operations
use canoe_nusb_storage.Usb.{Nusb, NusbIo, nusb_bus, close_native}
use canoe_nusb_storage.Probe.{
  Failure, of_scsi, message, Printing, sense, transfers_drained, emit, bounded, commands, settled,
  is_err,
}

-- The lines over the session's state.
abbrev pub Session : Type 0 → Type 0 → Type 0 → Type 0
Session W I P = Printing (Scsi (NusbIo I P × W))

module _ {W I P : Type 0} (nusb : Nusb W I P) where
  -- The arms of the `match` on the bounded `request_sense`.
  unfoldable pub ask_sense : Action (Session W I P) Failure (Unit {0})
  ask_sense = do
    reply ← settled (bounded "request-sense" (Operations.request_sense (nusb_bus nusb)))
    emit (sense reply)

  -- The native `close`, each loop with as many rounds as transfers are pending after the cancelling.
  unfoldable pub drained : NusbIo I P → Action W Error (Unit {0})
  drained io w =
      let w' = nusb.cancel_all io.output (nusb.cancel_all io.input w) in
      close_native nusb (nusb.pending io.input w') (nusb.pending io.output w') io w

  unfoldable pub close_end : Outcome Error (Unit {0}) → Outcome Failure (Unit {0})
  close_end (ok u) = ok u
  close_end (err e) = err (of_scsi e)
  close_end dropped = err (message "transfer teardown deadline expired")
  close_end panicked = panicked
  close_end stuck = stuck

  -- Where the five seconds pass while the transfers are drained, the state in which that is dropped.
  module _ (overtaken : NusbIo I P → W → Option W) where
    abbrev pub raced : NusbIo I P → Option W → W → Outcome Error (Unit {0}) × W
    raced io none w = drained io w
    raced io (some w') w = (dropped, w')

    unfoldable pub close_bounded : NusbIo I P → Action (Printing W) Failure (Unit {0})
    close_bounded io p =
        let (r, w) = raced io (overtaken io p.state) p.state in
        (close_end r, record p { state = w })

    -- From `into_inner` on.
    unfoldable pub teardown :
        Outcome Failure (Unit {0}) → NusbIo I P → Action (Printing W) Failure (Unit {0})
    teardown result io = do
      closed ← settled (close_bounded io)
      emit (transfers_drained closed)
      finish result
      finish closed

    abbrev pub finished :
        Outcome Failure (Outcome Failure (Unit {0}))
        → Session W I P
        → Outcome Failure (Unit {0}) × Printing W
    finished (ok result) p =
        let (io, w) = Transport.into_inner p.state in
        teardown result io (record { state = w; printed = p.printed })
    finished (err e) p = (err e, record { state = p.state.io.1; printed = p.printed })
    finished dropped p = (dropped, record { state = p.state.io.1; printed = p.printed })
    finished panicked p = (panicked, record { state = p.state.io.1; printed = p.printed })
    finished stuck p = (stuck, record { state = p.state.io.1; printed = p.printed })

    module _ (usize_max : ℕ) (digest : List ℕ → List ℕ) where
      -- The commands, and the sense data where they failed on a session that is usable still. The result
      -- is that of the commands.
      unfoldable pub investigate : Action (Session W I P) Failure (Outcome Failure (Unit {0}))
      investigate = do
        result ← settled (commands (nusb_bus nusb) usize_max digest)
        p ← get
        (if is_err result && Transport.is_usable p.state then ask_sense else pure tt)
        pure result

      abbrev pub connected :
          Outcome Error (Scsi (NusbIo I P × W)) → Action (Printing W) Failure (Unit {0})
      connected (ok scsi) p =
          let (r, q) = investigate (record { state = scsi; printed = p.printed }) in finished r q
      connected (err e) p = (err (of_scsi e), p)
      connected dropped p = (dropped, p)
      connected panicked p = (panicked, p)
      connected stuck p = (stuck, p)

      unfoldable pub run_connected : NusbIo I P → Action (Printing W) Failure (Unit {0})
      run_connected io p = connected (new (nusb_bus nusb) (io, p.state) 0) p
