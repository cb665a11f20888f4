-- ===== src/Scsi/Target/Transfers.antt =====
-- The stages of `Scsi::command` (nusb-scsi/src/lib.rs) against a conforming device.
use mathlib.Core.Path.{subst}
use mathlib.Core.List.{append-nil, append_assoc}
use canoe_nusb_storage.Common.{
  ℕ, zero, suc, ◌+◌, ◌-◌, ◌≤◌, ◌<◌, ◌≡◌, refl, sym, ap, ◌∙◌, List, [], ◌∷◌, ◌++◌, min, length,
  length-append, take, drop, take-append-drop, length-take, length-drop, arith,
}
use canoe_nusb_storage.Common.Outcome.{ok}
use canoe_nusb_storage.Scsi.Transport.{BulkIo, Scsi, io_read, io_write, completed}
use canoe_nusb_storage.Scsi.Command.{receive, send, chunk_bytes}
use canoe_nusb_storage.Scsi.Target.{Target, sending, receiving}

module _ {T : Type 0} (bus : BulkIo T) where
  receive_full :
      (fuel incoming : ℕ) (received : List ℕ) (s : Scsi T)
      → length received ≡ incoming
      → receive bus fuel incoming received s ≡ (ok received, s)
  unfolding receive
  receive_full zero incoming received s h = ground arith
  receive_full (suc fuel) incoming received s h = ground arith

  receive_round :
      (fuel incoming : ℕ) (received chunk : List ℕ) (s : Scsi T) (t : T)
      → bus.read s.io (min (incoming - length received) chunk_bytes) ≡ (completed chunk, t)
      → length received < incoming
      → 0 < length chunk
      → length chunk ≤ incoming - length received
      → receive bus (suc fuel) incoming received s
        ≡ receive bus fuel incoming (received ++ chunk) (record s { io = t })
  unfolding receive io_read
  receive_round fuel incoming received [] s t e more some fit = absurd (omega arith)
  receive_round fuel incoming received (x ∷ chunk) s t e more some fit = ground arith

  send_done : (size fuel : ℕ) (s : Scsi T) → send bus size fuel [] s ≡ (ok tt, s)
  unfolding send
  send_done size zero s = refl
  send_done size (suc fuel) s = refl

  send_round :
      (size fuel : ℕ) (x : ℕ) (outgoing : List ℕ) (s : Scsi T) (t : T)
      → bus.write s.io (take size (x ∷ outgoing))
        ≡ (completed (length (take size (x ∷ outgoing))), t)
      → send bus size (suc fuel) (x ∷ outgoing) s
        ≡ send bus size fuel (drop size (x ∷ outgoing)) (record s { io = t })
  unfolding send io_write
  send_round size fuel x outgoing s t e = ground arith

module _ {T : Type 0} (bus : BulkIo T) (block_size : ℕ) (target : Target bus block_size) where
  open target use {At, sends, ends_reading, receives, ends_writing}

  -- The data-in stage collects what the device has left to send.
  pub receive-sending :
      (fuel incoming : ℕ) (received rest : List ℕ) (s : Scsi T) (d : List ℕ) (tag : ℕ)
      → At s.io d (sending tag rest)
      → length received + length rest ≡ incoming
      → length rest ≤ fuel
      → (t : T) × (receive bus fuel incoming received s
          ≡ (ok (received ++ rest), record s { io = t }))
        × At t d (sending tag [])
  receive-sending zero incoming received (x ∷ rest) s d tag at e f = absurd (omega arith)
  receive-sending (suc fuel) incoming received (x ∷ rest) s d tag at e f =
      let (k, t, pos, fit, short, did, at') =
        sends s.io d tag (x ∷ rest) (min (incoming - length received) chunk_bytes) at (omega arith)
          (omega arith) in
      let (t', did', at'') =
        receive-sending fuel incoming (received ++ take k (x ∷ rest)) (drop k (x ∷ rest))
          (record s { io = t }) d tag at'
          (omega (
            arith,
            length-append received (take k (x ∷ rest)),
            length-take k (x ∷ rest),
            length-drop k (x ∷ rest),
          ))
          (omega (arith, length-drop k (x ∷ rest))) in
      let round =
        receive_round bus fuel incoming received (take k (x ∷ rest)) s t did (omega arith)
          (omega (arith, length-take k (x ∷ rest))) (omega (arith, length-take k (x ∷ rest))) in
      let joined : (received ++ take k (x ∷ rest)) ++ drop k (x ∷ rest) ≡ received ++ (x ∷ rest) =
        append_assoc received (take k (x ∷ rest)) (drop k (x ∷ rest))
        ∙ ap (◌++◌ received) (take-append-drop k (x ∷ rest)) in
      (t', round ∙ did' ∙ ap (λ b. (ok b, record s { io = t' })) joined, at'')
  receive-sending fuel incoming received [] s d tag at e f = (
    s.io,
    receive_full bus fuel incoming received s (omega arith)
        ∙ ap (λ b. (ok b, s)) (sym (append-nil received)),
    at,
  )

  -- The data-out stage hands over every byte, in order.
  pub send-receiving :
      (size fuel total : ℕ) (sofar outgoing : List ℕ) (s : Scsi T) (d : List ℕ) (tag start : ℕ)
      → 0 < size
      → At s.io d (receiving tag start total sofar)
      → length sofar + length outgoing ≤ total
      → length outgoing ≤ fuel
      → (t : T) × (send bus size fuel outgoing s ≡ (ok tt, record s { io = t }))
        × At t d (receiving tag start total (sofar ++ outgoing))
  send-receiving size zero total sofar (x ∷ outgoing) s d tag start pos at e f =
      absurd (omega arith)
  send-receiving size (suc fuel) total sofar (x ∷ outgoing) s d tag start pos at e f =
      let (t, did, at') =
        receives s.io d tag start total sofar (take size (x ∷ outgoing)) at
          (omega (arith, length-take size (x ∷ outgoing)))
          (omega (arith, length-take size (x ∷ outgoing))) in
      let (t', did', at'') =
        send-receiving size fuel total (sofar ++ take size (x ∷ outgoing))
          (drop size (x ∷ outgoing)) (record s { io = t }) d tag start pos at'
          (omega (
            arith,
            length-append sofar (take size (x ∷ outgoing)),
            length-take size (x ∷ outgoing),
            length-drop size (x ∷ outgoing),
          ))
          (omega (arith, length-drop size (x ∷ outgoing))) in
      let joined : (sofar ++ take size (x ∷ outgoing)) ++ drop size (x ∷ outgoing)
          ≡ sofar ++ (x ∷ outgoing) =
        append_assoc sofar (take size (x ∷ outgoing)) (drop size (x ∷ outgoing))
        ∙ ap (◌++◌ sofar) (take-append-drop size (x ∷ outgoing)) in
      (
        t',
        send_round bus size fuel x outgoing s t did ∙ did',
        subst (λ b. At t' d (receiving tag start total b)) joined at'',
      )
  send-receiving size fuel total sofar [] s d tag start pos at e f = (
    s.io,
    send_done bus size fuel s,
    subst (λ b. At s.io d (receiving tag start total b)) (sym (append-nil sofar)) at,
  )
