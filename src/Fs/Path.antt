-- ===== src/Fs/Path.antt =====
-- `path` of canoe-fs/src/lib.rs: which texts are taken as absolute paths.
pub mod Components
use canoe_nusb_storage.Common.{
  ℕ, zero, suc, ◌+◌, ◌≤◌, ◌<◌, ◌==◌, ◌≡◌, refl, ◌≢◌, ◌⊎◌, inl, inr, Bool, true, false, not, ◌&&◌,
  ◌||◌, List, [], ◌∷◌, length, is_empty, ltb, leb, if◌then◌else◌, arith, drop,
}
use canoe_nusb_storage.Common.Bytes.{bytes_eq}
use canoe_nusb_storage.Common.Outcome.{Outcome, ok, err}
use canoe_nusb_storage.Fs.Text.{Text, text, len, split, push, contains}

-- `char::is_control`: Unicode's category Cc.
unfoldable pub is_control : ℕ → Bool
is_control c = ltb c 0x20 || (leb 0x7f c && leb c 0x9f)

-- "\\:*?\"<>|"
abbrev pub reserved : Text
reserved = 92 ∷ 58 ∷ 42 ∷ 63 ∷ 34 ∷ 60 ∷ 62 ∷ 124 ∷ []

unfoldable pub has_forbidden : Text → Bool
has_forbidden [] = false
has_forbidden (c ∷ s) = if is_control c || contains reserved c then true else has_forbidden s

unfoldable pub starts_with : ℕ → Text → Bool
starts_with c [] = false
starts_with c (d ∷ s) = d == c

unfoldable pub ends_with : ℕ → Text → Bool
ends_with c [] = false
ends_with c (d ∷ s) = if is_empty s then d == c else ends_with c s

-- The tests on one component.
unfoldable pub is_bad_component : Text → Bool
is_bad_component c =
    is_empty c
    || (bytes_eq c (b'.' ∷ [])
        || (bytes_eq c (b'.' ∷ b'.' ∷ [])
            || (ltb 255 (len c) || ((ends_with b'.' c || ends_with b' ' c) || has_forbidden c))))

unfoldable pub any_bad : List Text → Bool
any_bad [] = false
any_bad (c ∷ cs) = if is_bad_component c then true else any_bad cs

unfoldable pub path : Text → Outcome Text Text
path value =
    if bytes_eq value (b'/' ∷ [])
    then ok value
    else if not (starts_with b'/' value) || (ltb 4096 (len value) || ends_with b'/' value)
    then err (text "invalid filesystem path")
    else if any_bad (split (drop 1 value))
    then err (text "invalid filesystem path component")
    else ok value
