-- ===== src/Fastboot/Hash.antt =====
-- The command of `hash_range` of canoe-usb-web/src/lib.rs.
pub mod Reading
use canoe_nusb_storage.Common.{
  ℕ, zero, suc, ◌+◌, ◌-◌, ◌*◌, ◌/◌, ◌%◌, ◌^◌, ◌≤◌, ◌<◌, ◌==◌, ◌≡◌, refl, Bool, true, false, Option,
  none, some, List, [], ◌∷◌, ◌++◌, ltb, if◌then◌else◌, arith,
}
use canoe_nusb_storage.Fs.Text.{Text, text}

abbrev pub hex_digit : ℕ → ℕ
hex_digit d = if ltb d 10 then 48 + d else 87 + d

-- `{n:x}`, in front of a text; a `u64` has 16 digits at most.
unfoldable pub hex_onto : (fuel : ℕ) → ℕ → Text → Text
hex_onto zero n s = s
hex_onto (suc fuel) n s =
    let rest = hex_onto fuel (n / 16) (hex_digit (n % 16) ∷ s) in
    if ltb n 16 then hex_digit n ∷ s else rest

unfoldable pub hex : ℕ → Text
hex n = hex_onto 16 n []

-- `format!("hash:{partition}:{offset:x}:{length:x}")`
unfoldable pub hash_command : Text → (offset length : ℕ) → Text
hash_command partition offset count =
    text "hash:" ++ (partition ++ (b':' ∷ (hex offset ++ (b':' ∷ hex count))))
