-- ===== src/Scsi/Wire.antt =====
-- The wrappers of `Scsi::command` in nusb-scsi/src/lib.rs: the 31 bytes of a command block
-- wrapper, and what the 13 bytes of a command status wrapper say.
use canoe_nusb_storage.Common.{
  ℕ, ◌-◌, ◌==◌, Bool, not, ◌||◌, List, [], ◌∷◌, ◌++◌, length, slice, get_or, replicate, ltb,
  if◌then◌else◌,
}
use canoe_nusb_storage.Common.Bytes.{u32_to_le, u32_from_le, bytes_eq}

-- b"USBC" and b"USBS"
abbrev pub cbw_signature : List ℕ
cbw_signature = b'U' ∷ b'S' ∷ b'B' ∷ b'C' ∷ []

abbrev pub csw_signature : List ℕ
csw_signature = b'U' ∷ b'S' ∷ b'B' ∷ b'S' ∷ []

unfoldable pub cbw : (tag transfer_length incoming lun : ℕ) → List ℕ → List ℕ
cbw tag transfer_length incoming lun cdb =
    cbw_signature
    ++ (u32_to_le tag
        ++ (u32_to_le transfer_length
            ++ ((if ltb 0 incoming then 0x80 else 0)
                ∷ lun
                ∷ length cdb
                ∷ (cdb ++ replicate (16 - length cdb) 0))))

-- `csw.len() != 13 || &csw[..4] != b"USBS" || csw[4..8] != tag.to_le_bytes()`
unfoldable pub is_bad_csw : ℕ → List ℕ → Bool
is_bad_csw tag csw =
    not (length csw == 13)
    || (not (bytes_eq (slice 0 4 csw) csw_signature)
        || not (bytes_eq (slice 4 4 csw) (u32_to_le tag)))

unfoldable pub csw_residue : List ℕ → ℕ
csw_residue csw = u32_from_le (slice 8 4 csw)

unfoldable pub csw_status : List ℕ → ℕ
csw_status csw = get_or csw 12 0
