-- ===== src/Usb/Quiet.antt =====
-- What the transport of nusb-scsi/src/lib.rs keeps of the bus and of the device, where it is given
-- quiet messages only.
use canoe_nusb_storage.Common.{ℕ, zero, suc, none, some, List, arith}
use canoe_nusb_storage.Common.Keeps.{Keeps}
use canoe_nusb_storage.Scsi.Quiet.{IsQuiet}
use canoe_nusb_storage.Usb.{
  Nusb, NusbIo, ControlIn, write, read, drain, close_native, from_interface, with_max_lun,
  initialize, next_multiple_of, fetched,
}

-- `Inv` is kept by what the transport calls of nusb, the messages on the bulk OUT endpoint being quiet.
pub record NusbKeeps {W I P : Type 0} (Inv : W → Type 0) (nusb : Nusb W I P) : Type 0 where
  pub endpoint : (i : I) (address : ℕ) → Keeps Inv (nusb.endpoint i address)
  pub control_in : (i : I) (c : ControlIn) (timeout : ℕ) → Keeps Inv (nusb.control_in i c timeout)
  pub transfer_in : (p : P) (n : ℕ) (w : W) → Inv w → Inv (nusb.transfer_in p n w).1
  pub transfer_out :
      (p : P) (msg : List ℕ) (w : W) → IsQuiet msg → Inv w → Inv (nusb.transfer_out p msg w).1
  pub cancel_all : (p : P) (w : W) → Inv w → Inv (nusb.cancel_all p w)
  pub next_complete : (p : P) (w : W) → Inv w → Inv (nusb.next_complete p w)

module _ {W I P : Type 0} (Inv : W → Type 0) (nusb : Nusb W I P) (keeps : NusbKeeps Inv nusb) where
  pub read-kept : (t : NusbIo I P × W) (n : ℕ) → Inv t.1 → Inv (read nusb t n).1.1
  unfolding read
  read-kept (io, w) n h =
      elim (next_multiple_of n io.input_packet_size)
        as (λ size. Inv (fetched nusb size (io, w)).1.1) [
          | none ↦ h
          | some size ↦ keeps.transfer_in io.input size w h
        ]

  pub write-kept :
      (t : NusbIo I P × W) (msg : List ℕ) → IsQuiet msg → Inv t.1 → Inv (write nusb t msg).1.1
  unfolding write
  write-kept (io, w) msg q h = keeps.transfer_out io.output msg w q h

  drain-kept : (fuel : ℕ) (p : P) → Keeps Inv (drain nusb fuel p)
  unfolding drain
  drain-kept zero p w h = ground arith
  drain-kept (suc fuel) p w h =
      let rest = drain-kept fuel p (nusb.next_complete p w) (keeps.next_complete p w h) in
      ground (arith, rest)

  pub close_native-Keeps :
      (fuel fuel' : ℕ) (io : NusbIo I P) → Keeps Inv (close_native nusb fuel fuel' io)
  unfolding close_native
  close_native-Keeps fuel fuel' io w h =
      let cancelled = keeps.cancel_all io.output _ (keeps.cancel_all io.input w h) in
      let first = drain-kept fuel io.input _ cancelled in
      let then' = drain-kept fuel' io.output in grind (arith, first, then')

  from_interface-kept :
      ((i : I) (address : ℕ) → Keeps Inv (nusb.endpoint i address))
      → (i : I) (alternate : ℕ) → Keeps Inv (from_interface nusb i alternate)
  unfolding from_interface
  from_interface-kept k i alternate w h = grind (arith, k)

  with_max_lun-kept :
      (i : I) (timeout : ℕ) (io : NusbIo I P) → Keeps Inv (with_max_lun nusb i timeout io)
  unfolding with_max_lun
  with_max_lun-kept i timeout io w h = grind (arith, keeps.control_in i _ timeout w h)

  pub initialize-Keeps :
      (i : I) (alternate timeout : ℕ) → Keeps Inv (initialize nusb i alternate timeout)
  unfolding initialize
  initialize-Keeps i alternate timeout w h =
      let opened = from_interface-kept keeps.endpoint i alternate w h in
      grind (arith, opened, with_max_lun-kept)
