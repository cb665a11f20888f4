-- ===== src/Tests/Device.antt =====
-- A device that conforms to the laws of a target: blocks of four bytes, over a list of bytes.
use canoe_nusb_storage.Common.{
  ℕ, zero, suc, sym, ap, ◌∙◌, refl, replicate, ◌-◌, Bool, true, false, ◌+◌, ◌*◌, ◌≤◌, ◌<◌, ◌==◌,
  ◌≡◌, min, List, [], ◌∷◌, ◌++◌, length, slice, splice, take, drop, get_or, if◌then◌else◌, arith,
}
use mathlib.Core.Option
use canoe_nusb_storage.Common.Bytes.{u32_to_be, u32_from_le, u32_from_be?}
use canoe_nusb_storage.Scsi.Transport.{Geometry, BulkIo, Transfer, completed, failed, abandoned}
use canoe_nusb_storage.Scsi.Quiet.{
  IsQuiet, IsReading, tests, senses, inquires, stops, measures, reads, synchronizes,
}
use canoe_nusb_storage.Scsi.Error.{disconnected, usb}
use canoe_nusb_storage.Scsi.Target.Answers.{
  Answers, IsCommand, test_cdb, synchronize_cdb, measure_cdb,
}
use canoe_nusb_storage.Scsi.Target.{Target, Phase, idle, sending, receiving, good_status, IsWrapper}

pub record Device : Type 0 where
  pub held : List ℕ
  pub phase : Phase

abbrev pub sector : ℕ
sector = 4

-- The first block that a wrapper names.
abbrev first_block : List ℕ → ℕ
first_block msg = Option.get_or (u32_from_be? (slice 17 4 msg)) 0

abbrev block_count : List ℕ → ℕ
block_count msg = 256 * get_or msg 22 0 + get_or msg 23 0

-- What the device has to send for a command that is not a write.
abbrev reply : List ℕ → List ℕ → List ℕ
reply held msg =
    if get_or msg 15 0 == 0x28
    then slice (first_block msg * sector) (block_count msg * sector) held
    else if get_or msg 15 0 == 0x25
    then u32_to_be 3 ++ u32_to_be sector
    else if get_or msg 15 0 == 0x12
    then replicate 36 b' '
    else []

abbrev begin : List ℕ → List ℕ → Phase
begin held msg =
    if get_or msg 15 0 == 0x2a
    then receiving (u32_from_le (slice 4 4 msg)) (first_block msg * sector)
        (block_count msg * sector) []
    else sending (u32_from_le (slice 4 4 msg)) (reply held msg)

abbrev write_in : Phase → List ℕ → List ℕ → Transfer ℕ × Device
write_in idle held msg = (completed 31, record { held = held; phase = begin held msg })
write_in (receiving tag start total sofar) held msg = (
  completed (length msg),
  record { held = held; phase = receiving tag start total (sofar ++ msg) },
)
write_in (sending tag rest) held msg =
    (failed (usb disconnected), record { held = held; phase = sending tag rest })

abbrev read_in : Phase → List ℕ → ℕ → Transfer (List ℕ) × Device
read_in (sending tag []) held n =
    (completed (good_status tag), record { held = held; phase = idle })
read_in (sending tag (x ∷ rest)) held n =
    let k = min n (length (x ∷ rest)) in
    (completed (take k (x ∷ rest)), record { held = held; phase = sending tag (drop k (x ∷ rest)) })
read_in (receiving tag start total bytes) held n =
    (completed (good_status tag), record { held = splice start bytes held; phase = idle })
read_in idle held n = (abandoned, record { held = held; phase = idle })

abbrev pub device_bus : BulkIo Device
device_bus = record {
  max_lun = λ _. 0;
  write = λ t msg. write_in t.phase t.held msg;
  read = λ t n. read_in t.phase t.held n;
}

abbrev pub At : Device → List ℕ → Phase → Type 0
At t d p = (t.held ≡ d) × (t.phase ≡ p)

module _ (t : Device) (d : List ℕ) where
  pub starts_reading :
      (msg : List ℕ) (tag lba count : ℕ)
      → At t d idle
      → IsWrapper msg tag (count * sector) 0x80 0x28 lba count
      → (lba + count) * sector ≤ length d
      → (t' : Device) × (device_bus.write t msg ≡ (completed 31, t'))
        × At t' d (sending tag (slice (lba * sector) (count * sector) d))
  starts_reading msg tag lba count at w fits =
      ((device_bus.write t msg).1, ground arith, ground arith)

  pub starts_writing :
      (msg : List ℕ) (tag lba count : ℕ)
      → At t d idle
      → IsWrapper msg tag (count * sector) 0 0x2a lba count
      → (lba + count) * sector ≤ length d
      → (t' : Device) × (device_bus.write t msg ≡ (completed 31, t'))
        × At t' d (receiving tag (lba * sector) (count * sector) [])
  starts_writing msg tag lba count at w fits =
      ((device_bus.write t msg).1, ground arith, ground arith)

  pub sends :
      (tag : ℕ) (rest : List ℕ) (n : ℕ)
      → At t d (sending tag rest)
      → 0 < length rest
      → 0 < n
      → (k : ℕ) × (t' : Device) × (0 < k)
        × (k ≤ n)
        × (k ≤ length rest)
        × (device_bus.read t n ≡ (completed (take k rest), t'))
        × At t' d (sending tag (drop k rest))
  sends tag [] n at left pos = absurd (omega arith)
  sends tag (x ∷ rest) n at left pos = (
    min n (length (x ∷ rest)),
    (device_bus.read t n).1,
    omega arith,
    omega arith,
    omega arith,
    ground arith,
    ground arith,
  )

  pub ends_reading :
      (tag : ℕ)
      → At t d (sending tag [])
      → (t' : Device) × (device_bus.read t 13 ≡ (completed (good_status tag), t')) × At t' d idle
  ends_reading tag at = ((device_bus.read t 13).1, ground arith, ground arith)

  pub receives :
      (tag start total : ℕ) (sofar chunk : List ℕ)
      → At t d (receiving tag start total sofar)
      → 0 < length chunk
      → length sofar + length chunk ≤ total
      → (t' : Device) × (device_bus.write t chunk ≡ (completed (length chunk), t'))
        × At t' d (receiving tag start total (sofar ++ chunk))
  receives tag start total sofar chunk at left fits =
      ((device_bus.write t chunk).1, ground arith, ground arith)

  pub ends_writing :
      (tag start total : ℕ) (bytes : List ℕ)
      → At t d (receiving tag start total bytes)
      → length bytes ≡ total
      → (t' : Device) × (device_bus.read t 13 ≡ (completed (good_status tag), t'))
        × At t' (splice start bytes d) idle
  ends_writing tag start total bytes at e = ((device_bus.read t 13).1, ground arith, ground arith)

abbrev pub device_target : Target device_bus sector
device_target = record {
  At = At;
  starts_reading = starts_reading;
  sends = sends;
  ends_reading = ends_reading;
  starts_writing = starts_writing;
  receives = receives;
  ends_writing = ends_writing;
}

-- The geometry of the device: four blocks.
abbrev pub small : Geometry
small = record { blocks = 4; block_size = sector }

get_or-slice : (lo n : ℕ) (xs : List ℕ) → 0 < n → get_or (slice lo n xs) 0 0 ≡ get_or xs lo 0
get_or-slice zero zero xs h = absurd (omega arith)
get_or-slice zero (suc n) [] h = refl
get_or-slice zero (suc n) (x ∷ xs) h = refl
get_or-slice (suc lo) n (x ∷ xs) h = get_or-slice lo n xs h
get_or-slice (suc lo) zero [] h = refl
get_or-slice (suc lo) (suc n) [] h = refl

module _ (t : Device) (d msg : List ℕ) (tag : ℕ) (at : At t d idle) where
  operated :
      (total direction op : ℕ) (rest : List ℕ)
      → IsCommand msg tag total direction (op ∷ rest)
      → get_or msg 15 0 ≡ op
  operated total direction op rest w =
      sym (get_or-slice 15 (length (op ∷ rest)) msg (omega arith)) ∙ ap (λ l. get_or l 0 0) w.stated

  starts_testing :
      IsCommand msg tag 0 0 test_cdb
      → (t' : Device) × (device_bus.write t msg ≡ (completed 31, t')) × At t' d (sending tag [])
  starts_testing w =
      let op = operated 0 0 0 (replicate 5 0) w in
      ((device_bus.write t msg).1, ground (arith, op), ground (arith, op))

  starts_synchronizing :
      IsCommand msg tag 0 0 synchronize_cdb
      → (t' : Device) × (device_bus.write t msg ≡ (completed 31, t')) × At t' d (sending tag [])
  starts_synchronizing w =
      let op = operated 0 0 0x35 (replicate 9 0) w in
      ((device_bus.write t msg).1, ground (arith, op), ground (arith, op))

  starts_measuring :
      IsCommand msg tag 8 0x80 measure_cdb
      → (t' : Device) × (device_bus.write t msg ≡ (completed 31, t'))
        × At t' d (sending tag (u32_to_be (small.blocks - 1) ++ u32_to_be small.block_size))
  starts_measuring w =
      let op = operated 8 0x80 0x25 (replicate 9 0) w in
      ((device_bus.write t msg).1, ground (arith, op), ground (arith, op))

pub device-Answers : Answers device_bus small device_target
device-Answers = record {
  starts_testing = starts_testing;
  starts_synchronizing = starts_synchronizing;
  starts_measuring = starts_measuring;
}

abbrev is_writing : Phase → Bool
is_writing (receiving tag start total sofar) = true
is_writing _ = false

-- The device holds `d`, and no write of it is under way.
abbrev pub Unwritten : List ℕ → Device → Type 0
Unwritten d t = (t.held ≡ d) × (is_writing t.phase ≡ false)

read_in-Unwritten :
    (p : Phase) (held d : List ℕ) (n : ℕ)
    → Unwritten d (record { held = held; phase = p })
    → Unwritten d (read_in p held n).1
read_in-Unwritten idle held d n u = u
read_in-Unwritten (sending tag []) held d n u = ground arith
read_in-Unwritten (sending tag (x ∷ rest)) held d n u = ground arith
read_in-Unwritten (receiving tag start total sofar) held d n u = absurd (ground arith)

pub reads_keep :
    (d : List ℕ) (t : Device) (n : ℕ) → Unwritten d t → Unwritten d (device_bus.read t n).1
reads_keep d t n u = read_in-Unwritten t.phase t.held d n u

reading-other : (op : ℕ) → IsReading op → (op == 0x2a) ≡ false
reading-other _ tests = refl
reading-other _ senses = refl
reading-other _ inquires = refl
reading-other _ stops = refl
reading-other _ measures = refl
reading-other _ reads = refl
reading-other _ synchronizes = refl

write_in-Unwritten :
    (p : Phase) (held d msg : List ℕ)
    → IsQuiet msg
    → Unwritten d (record { held = held; phase = p })
    → Unwritten d (write_in p held msg).1
write_in-Unwritten idle held d msg q u = ground (arith, reading-other _ q.operation)
write_in-Unwritten (sending tag rest) held d msg q u = u
write_in-Unwritten (receiving tag start total sofar) held d msg q u = absurd (ground arith)

pub messages_keep :
    (d : List ℕ) (t : Device) (msg : List ℕ)
    → IsQuiet msg
    → Unwritten d t
    → Unwritten d (device_bus.write t msg).1
messages_keep d t msg q u = write_in-Unwritten t.phase t.held d msg q u

-- What a device of four blocks may hold.
abbrev pub content : List ℕ
content = 10 ∷ 11 ∷ 12 ∷ 13 ∷ 20 ∷ 21 ∷ 22 ∷ 23 ∷ 30 ∷ 31 ∷ 32 ∷ 33 ∷ 40 ∷ 41 ∷ 42 ∷ 43 ∷ []

abbrev pub ready : Device
ready = record { held = content; phase = idle }
