-- ===== src/Scsi/Operations.antt =====
-- The commands of `Scsi` in nusb-scsi/src/lib.rs. `usize_max` is the largest `usize` of the target.
use canoe_nusb_storage.Common.{
  ℕ, ◌+◌, ◌-◌, ◌*◌, ◌==◌, Bool, false, not, ◌&&◌, ◌||◌, List, [], ◌∷◌, ◌++◌, length, get_or, take,
  drop, replicate, ltb, leb, if◌then◌else◌, bit_and,
}
use canoe_nusb_storage.Common.Bytes.{u32_max, u32_to_be, u16_to_be, u32_from_be?}
use canoe_nusb_storage.Common.Outcome.{
  Outcome, ok, err, Action, pure, finish, modify, raise_if, or_panic, ◌>>=◌, ◌>>◌,
}
use canoe_nusb_storage.Scsi.Error.{Error, protocol, command_failed}
use canoe_nusb_storage.Scsi.Transport.{BulkIo, Scsi, Geometry, set_usable}
use canoe_nusb_storage.Scsi.Command.{command}

-- `u32::is_power_of_two`: `0 < n` and `n & (n - 1) == 0`.
unfoldable pub is_power_of_two : ℕ → Bool
is_power_of_two n = ltb 0 n && (bit_and n (n - 1) == 0)

-- `block_command`. The first and last test of its guard: a count of 0, and `lba + (count - 1)`
-- above the largest `u32`.
unfoldable pub block_command : (usize_max op lba count block_size : ℕ) → Outcome Error (List ℕ × ℕ)
unfolding is_power_of_two
block_command usize_max op lba count block_size =
    if count == 0
      || (block_size == 0 || (not (is_power_of_two block_size) || ltb u32_max (lba + (count - 1))))
    then err (protocol "invalid block range")
    else if ltb usize_max (count * block_size)
    then err (protocol "block range overflow")
    else ok (op ∷ 0 ∷ (u32_to_be lba ++ (0 ∷ (u16_to_be count ++ (0 ∷ [])))), count * block_size)

-- `matches!((sense[12], sense[13]), (0x28, 0) | (0x29, 0..=7))` and the tests before it.
unfoldable pub reset_or_new_medium : List ℕ → Bool
reset_or_new_medium sense =
    leb 14 (length sense)
    && ((bit_and (get_or sense 0 0) 0x7f == 0x70)
        && (leb 6 (get_or sense 7 0)
            && ((bit_and (get_or sense 2 0) 0x0f == 6)
                && (((get_or sense 12 0 == 0x28) && (get_or sense 13 0 == 0))
                    || ((get_or sense 12 0 == 0x29) && leb (get_or sense 13 0) 7)))))

module _ {T : Type 0} (bus : BulkIo T) where
  unfoldable pub test_unit_ready : Action (Scsi T) Error (Unit {0})
  test_unit_ready = do _ ← command bus (replicate 6 0) 0 []; pure tt

  unfoldable pub request_sense : Action (Scsi T) Error (List ℕ)
  request_sense = command bus (3 ∷ 0 ∷ 0 ∷ 0 ∷ 18 ∷ 0 ∷ []) 18 []

  unfoldable pub inquiry : Action (Scsi T) Error (List ℕ)
  inquiry = command bus (0x12 ∷ 0 ∷ 0 ∷ 0 ∷ 36 ∷ 0 ∷ []) 36 []

  -- The arm `Err(Error::CommandFailed)` of `initialize_ready`.
  unfoldable pub retry_ready : Action (Scsi T) Error (Unit {0})
  retry_ready = do
    sense ← request_sense
    raise_if (not (reset_or_new_medium sense)) command_failed
    test_unit_ready

  -- The `match` of `initialize_ready` on the result of its first test.
  unfoldable pub after_test : Outcome Error (Unit {0}) → Action (Scsi T) Error (Unit {0})
  after_test (ok _) = pure tt
  after_test (err command_failed) = retry_ready
  after_test other = finish other

  unfoldable pub initialize_ready : Action (Scsi T) Error (Unit {0})
  unfolding after_test
  initialize_ready s = let (r, s') = test_unit_ready s in after_test r s'

  -- `eject`: on success the session is retired.
  unfoldable pub eject : Action (Scsi T) Error (Unit {0})
  eject = do _ ← command bus (0x1b ∷ 0 ∷ 0 ∷ 0 ∷ 2 ∷ 0 ∷ []) 0 []; modify (set_usable false)

  unfoldable pub flush : Action (Scsi T) Error (Unit {0})
  flush = do _ ← command bus (0x35 ∷ replicate 9 0) 0 []; pure tt

  -- `geometry`; `bytes[..4]` and `bytes[4..]` panic where they are not four bytes.
  unfoldable pub geometry : Action (Scsi T) Error Geometry
  unfolding is_power_of_two
  geometry = do
    bytes ← command bus (0x25 ∷ replicate 9 0) 8 []
    last ← or_panic (u32_from_be? (take 4 bytes))
    size ← or_panic (u32_from_be? (drop 4 bytes))
    raise_if ((last == u32_max) || ((size == 0) || not (is_power_of_two size)))
        (protocol "unsupported capacity or sector size")
    pure (record { blocks = last + 1; block_size = size })

  unfoldable pub read_blocks : (usize_max lba count block_size : ℕ) → Action (Scsi T) Error (List ℕ)
  read_blocks usize_max lba count block_size = do
    (cdb, transfer_length) ← finish (block_command usize_max 0x28 lba count block_size)
    command bus cdb transfer_length []

  unfoldable pub write_blocks :
      (usize_max lba count block_size : ℕ) → List ℕ → Action (Scsi T) Error (Unit {0})
  write_blocks usize_max lba count block_size bytes = do
    (cdb, transfer_length) ← finish (block_command usize_max 0x2a lba count block_size)
    raise_if (not (length bytes == transfer_length))
        (protocol "write length differs from sector count")
    _ ← command bus cdb 0 bytes
    pure tt
