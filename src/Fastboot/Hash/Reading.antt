-- ===== src/Fastboot/Hash/Reading.antt =====
-- What the command of `hash_range` (canoe-usb-web/src/lib.rs) says: a reader of it.
use canoe_nusb_storage.Common.{
  ℕ, zero, suc, ◌+◌, ◌-◌, ◌*◌, ◌/◌, ◌%◌, ◌^◌, ◌≤◌, ◌<◌, ◌==◌, ◌≡◌, refl, ap, ap₂, ◌∙◌, false,
  Option, none, some, [], ◌∷◌, ◌++◌, ltb, if◌then◌else◌, take, drop, inl, inr, Bool-cases, arith,
}
use canoe_nusb_storage.Common.Bytes.{bytes_eq, u64_max}
use canoe_nusb_storage.Fs.Text.{Text, text, contains}
use canoe_nusb_storage.Fastboot.Hash.{hex_digit, hex_onto, hex, hash_command}

-- The number that hexadecimal digits write.
abbrev pub digit_value : ℕ → ℕ
digit_value c = if ltb c 58 then c - 48 else c - 87

unfoldable pub value_from : ℕ → Text → ℕ
value_from n [] = n
value_from n (c ∷ s) = value_from (n * 16 + digit_value c) s

-- A text before and after its first colon.
abbrev pub in_front : ℕ → Option (Text × Text) → Option (Text × Text)
in_front c (some (before, after)) = some (c ∷ before, after)
in_front c none = none

unfoldable pub split_once : Text → Option (Text × Text)
split_once [] = none
split_once (c ∷ s) =
    let rest = in_front c (split_once s) in if c == b':' then some ([], s) else rest

-- The texts between the colons of a command, and what its last two write.
abbrev pub numbers : Text → Option (Text × Text) → Option (Text × (ℕ × ℕ))
numbers partition (some (offset, count)) =
    some (partition, (value_from 0 offset, value_from 0 count))
numbers partition none = none

abbrev pub fields : Option (Text × Text) → Option (Text × (ℕ × ℕ))
fields (some (partition, rest)) = numbers partition (split_once rest)
fields none = none

unfoldable pub read_hash : Text → Option (Text × (ℕ × ℕ))
read_hash line =
    if bytes_eq (take 5 line) (text "hash:") then fields (split_once (drop 5 line)) else none

digit_value-hex_digit : (d : ℕ) → d < 16 → digit_value (hex_digit d) ≡ d
digit_value-hex_digit d h = grind arith

hex_onto_small : (fuel n : ℕ) (s : Text) → n < 16 → hex_onto (suc fuel) n s ≡ hex_digit n ∷ s
unfolding hex_onto
hex_onto_small fuel n s h = ground arith

hex_onto_large :
    (fuel n : ℕ) (s : Text)
    → 16 ≤ n
    → hex_onto (suc fuel) n s ≡ hex_onto fuel (n / 16) (hex_digit (n % 16) ∷ s)
unfolding hex_onto
hex_onto_large fuel n s h = ground arith

value_from-digit :
    (m d n : ℕ) (s : Text)
    → d < 16
    → m * 16 + d ≡ n
    → value_from m (hex_digit d ∷ s) ≡ value_from n s
unfolding value_from
value_from-digit m d n s h e =
    ap (λ k. value_from k s) (ap (λ digit. m * 16 + digit) (digit_value-hex_digit d h) ∙ e)

value_from-hex_onto :
    (fuel n : ℕ) (s : Text)
    → n < 16 ^ suc fuel
    → value_from 0 (hex_onto (suc fuel) n s) ≡ value_from n s
value_from-hex_onto zero n s h =
    ap (value_from 0) (hex_onto_small zero n s (omega arith))
    ∙ value_from-digit 0 n n s (omega arith) (omega arith)
value_from-hex_onto (suc fuel) n s h = elim (Bool-cases (ltb n 16)) [
  | inl small ↦
      ap (value_from 0) (hex_onto_small (suc fuel) n s (ground arith))
      ∙ value_from-digit 0 n n s (ground arith) (omega arith)
  | inr large ↦
      ap (value_from 0) (hex_onto_large (suc fuel) n s (ground arith))
      ∙ value_from-hex_onto fuel (n / 16) (hex_digit (n % 16) ∷ s) (shorter fuel h)
      ∙ value_from-digit (n / 16) (n % 16) n s (omega arith) (omega arith)
]
  where
    shorter : (fuel : ℕ) → n < 16 ^ suc (suc fuel) → n / 16 < 16 ^ suc fuel
    shorter fuel h = omega arith

split_once-++ :
    (before after : Text)
    → contains before b':' ≡ false
    → split_once (before ++ (b':' ∷ after)) ≡ some (before, after)
unfolding split_once contains
split_once-++ [] after h = refl
split_once-++ (c ∷ before) after h = ground (arith, split_once-++ before after)

contains-digit :
    (d : ℕ) (s : Text) → d < 16 → contains s b':' ≡ false → contains (hex_digit d ∷ s) b':' ≡ false
unfolding contains
contains-digit d s h k = ground arith

contains-hex_onto :
    (fuel n : ℕ) (s : Text) → contains s b':' ≡ false → contains (hex_onto fuel n s) b':' ≡ false
unfolding hex_onto
contains-hex_onto zero n s h = h
contains-hex_onto (suc fuel) n s h = ground (
  arith,
  contains-digit n s,
  contains-hex_onto fuel (n / 16) (hex_digit (n % 16) ∷ s)
      (contains-digit (n % 16) s (omega arith) h),
)

value_from-hex : (n : ℕ) → n ≤ u64_max → value_from 0 (hex n) ≡ n
unfolding hex value_from
value_from-hex n h = value_from-hex_onto 15 n [] (omega arith)

contains-hex : (n : ℕ) → contains (hex n) b':' ≡ false
unfolding hex contains
contains-hex n = contains-hex_onto 16 n [] refl

-- The command of `hash_range` says one thing only: for a partition without a colon, and an offset
-- and a length of 64 bits, a reader that splits it at its colons and reads hexadecimal digits gets
-- back just that partition, offset and length.
pub read_hash-hash_command :
    (partition : Text) (offset count : ℕ)
    → contains partition b':' ≡ false
    → offset ≤ u64_max
    → count ≤ u64_max
    → read_hash (hash_command partition offset count) ≡ some (partition, (offset, count))
unfolding read_hash hash_command text bytes_eq
read_hash-hash_command partition offset count h k l =
    let rest = split_once-++ (hex offset) (hex count) (contains-hex offset) in
    let first = split_once-++ partition (hex offset ++ (b':' ∷ hex count)) h in
    ap fields first
    ∙ ap (numbers partition) rest
    ∙ ap₂ (λ o n. some (partition, (o, n))) (value_from-hex offset k) (value_from-hex count l)
