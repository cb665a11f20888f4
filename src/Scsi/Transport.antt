-- ===== src/Scsi/Transport.antt =====
-- `BulkIo`, `Geometry` and `Scsi` of nusb-scsi/src/lib.rs, and `Scsi::new`.
use canoe_nusb_storage.Common.{ℕ, ◌≡◌, arith, Bool, true, List, ◌||◌, ltb, if◌then◌else◌}
use canoe_nusb_storage.Common.Outcome.{Outcome, ok, err, dropped, Action}
use canoe_nusb_storage.Scsi.Error.{Error, protocol}

-- How an awaited bulk transfer ends: the trait's `Result`, or the future is dropped meanwhile.
pub data Transfer (A : Type 0) : Type 0 where
  completed : A → Transfer A
  failed : Error → Transfer A
  abandoned : Transfer A

-- The trait `BulkIo`; `T` is the state of the transport and of the device behind it.
pub record BulkIo (T : Type 0) : Type 0 where
  pub max_lun : T → ℕ
  pub write : T → List ℕ → Transfer ℕ × T
  pub read : T → ℕ → Transfer (List ℕ) × T

pub record Geometry : Type 0 where
  pub blocks : ℕ
  pub block_size : ℕ

pub record Scsi (T : Type 0) : Type 0 where
  pub io : T
  pub tag : ℕ
  pub lun : ℕ
  pub usable : Bool

abbrev pub outcome : {A : Type 0} → Transfer A → Outcome Error A
outcome (completed a) = ok a
outcome (failed e) = err e
outcome abandoned = dropped

module _ {T : Type 0} (bus : BulkIo T) where
  -- `Scsi::new`: no transfer is made.
  unfoldable pub new : T → ℕ → Outcome Error (Scsi T)
  new io lun =
      if ltb 15 lun || ltb (bus.max_lun io) lun
      then err (protocol "invalid LUN")
      else ok (record { io = io; tag = 0; lun = lun; usable = true })

  -- The first LUN is always there.
  pub new-first : (io : T) → new io 0 ≡ ok (record { io = io; tag = 0; lun = 0; usable = true })
  unfolding new
  new-first io = ground arith

  -- `self.io.write(data).await?` and `self.io.read(n).await?`
  unfoldable pub io_write : List ℕ → Action (Scsi T) Error ℕ
  io_write bytes s = let (r, io') = bus.write s.io bytes in (outcome r, record s { io = io' })

  unfoldable pub io_read : ℕ → Action (Scsi T) Error (List ℕ)
  io_read n s = let (r, io') = bus.read s.io n in (outcome r, record s { io = io' })

abbrev pub set_usable : {T : Type 0} → Bool → Scsi T → Scsi T
set_usable b s = record s { usable = b }

-- `Scsi::is_usable`
abbrev pub is_usable : {T : Type 0} → Scsi T → Bool
is_usable s = s.usable

-- `Scsi::into_inner`
abbrev pub into_inner : {T : Type 0} → Scsi T → T
into_inner s = s.io
