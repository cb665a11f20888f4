-- ===== src/Common/Bytes.antt =====
-- `to_le_bytes`, `from_le_bytes`, `to_be_bytes`, `from_be_bytes` of `u32` and `u16`. A byte is a
-- number below 256, and a byte string a list of them.
use canoe_nusb_storage.Common.Tests.{◌==◌}
use canoe_nusb_storage.Common.Lists.{length}
use Prim.Native.Nat.{ℕ, ◌+◌, ◌*◌, ◌/◌, ◌%◌, ◌^◌, ◌<◌}
use mathlib.Core.Path.{◌≡◌, refl}
use mathlib.Core.Bool.{Bool, true, false, ◌&&◌}
use mathlib.Core.Option.{Option, none, some}
use mathlib.Core.List.{List, [], ◌∷◌}
use native.Mathlib.Omega.{arith}

abbrev pub u32_max : ℕ
u32_max = 0xffff_ffff

abbrev pub u64_max : ℕ
u64_max = 0xffff_ffff_ffff_ffff

abbrev pub u16_max : ℕ
u16_max = 0xffff

abbrev pub IsBytes : List ℕ → Type 0
IsBytes [] = Unit {0}
IsBytes (b ∷ bs) = (b < 256) × IsBytes bs

unfoldable pub u32_to_le : ℕ → List ℕ
u32_to_le n = (n % 256) ∷ (n / 256 % 256) ∷ (n / 65536 % 256) ∷ (n / 16777216 % 256) ∷ []

unfoldable pub u32_to_be : ℕ → List ℕ
u32_to_be n = (n / 16777216 % 256) ∷ (n / 65536 % 256) ∷ (n / 256 % 256) ∷ (n % 256) ∷ []

unfoldable pub u16_to_be : ℕ → List ℕ
u16_to_be n = (n / 256 % 256) ∷ (n % 256) ∷ []

-- Four bytes, least significant first; another length gives 0, and no caller passes one.
unfoldable pub u32_from_le : List ℕ → ℕ
u32_from_le (a ∷ b ∷ c ∷ d ∷ []) = a + 256 * b + 65536 * c + 16777216 * d
u32_from_le _ = 0

-- `try_into` of a slice that is not four bytes long fails: `none`.
unfoldable pub u32_from_be? : List ℕ → Option ℕ
u32_from_be? (a ∷ b ∷ c ∷ d ∷ []) = some (16777216 * a + 65536 * b + 256 * c + d)
u32_from_be? _ = none

-- Equality of byte strings.
unfoldable pub bytes_eq : List ℕ → List ℕ → Bool
bytes_eq [] [] = true
bytes_eq (x ∷ xs) (y ∷ ys) = (x == y) && bytes_eq xs ys
bytes_eq _ _ = false

pub bytes_eq→eq : (xs ys : List ℕ) → bytes_eq xs ys ≡ true → xs ≡ ys
unfolding bytes_eq
bytes_eq→eq [] [] h = refl
bytes_eq→eq [] (y ∷ ys) h = cc
bytes_eq→eq (x ∷ xs) [] h = cc
bytes_eq→eq (x ∷ xs) (y ∷ ys) h = ground (arith, bytes_eq→eq xs ys)

pub bytes_eq_refl : (xs : List ℕ) → bytes_eq xs xs ≡ true
unfolding bytes_eq
bytes_eq_refl [] = refl
bytes_eq_refl (x ∷ xs) = ground (arith, bytes_eq_refl xs)

pub length-u32_to_le : (n : ℕ) → length (u32_to_le n) ≡ 4
unfolding u32_to_le
length-u32_to_le n = refl

pub u32_from_le-to_le : (n : ℕ) → n < 2 ^ 32 → u32_from_le (u32_to_le n) ≡ n
unfolding u32_to_le u32_from_le
u32_from_le-to_le n h = omega arith

pub u32_from_be-to_be : (n : ℕ) → n < 2 ^ 32 → u32_from_be? (u32_to_be n) ≡ some n
unfolding u32_to_be u32_from_be?
u32_from_be-to_be n h = ground arith
