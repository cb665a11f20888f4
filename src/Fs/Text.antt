-- ===== src/Fs/Text.antt =====
-- Texts of canoe-fs/src/lib.rs: a `str` is the list of its code points.
use canoe_nusb_storage.Common.{
  ℕ, ◌+◌, ◌==◌, Bool, true, false, Option, none, some, List, [], ◌∷◌, ltb, if◌then◌else◌, String,
}
use Prim.Native.Char.{code}

abbrev pub Text : Type 0
Text = List ℕ

unfoldable pub text : String → Text
text String.[] = []
text (String.◌∷◌ c s) = code c ∷ text s

-- `char::len_utf8` and `str::len`
unfoldable pub len_utf8 : ℕ → ℕ
len_utf8 c = if ltb c 0x80 then 1 else if ltb c 0x800 then 2 else if ltb c 0x10000 then 3 else 4

unfoldable pub len : Text → ℕ
len [] = 0
len (c ∷ s) = len_utf8 c + len s

unfoldable pub contains : Text → ℕ → Bool
contains [] c = false
contains (d ∷ s) c = if d == c then true else contains s c

-- `split('/')`
abbrev pub push : ℕ → List Text → List Text
push c [] = (c ∷ []) ∷ []
push c (part ∷ parts) = (c ∷ part) ∷ parts

unfoldable pub split : Text → List Text
split [] = [] ∷ []
split (c ∷ s) = if c == b'/' then [] ∷ split s else push c (split s)

-- `rsplit_once('/')`
abbrev after_last : ℕ → Text → Option (Text × Text) → Option (Text × Text)
after_last c s (some (parent, name)) = some (c ∷ parent, name)
after_last c s none = if c == b'/' then some ([], s) else none

unfoldable pub rsplit_once : Text → Option (Text × Text)
rsplit_once [] = none
rsplit_once (c ∷ s) = after_last c s (rsplit_once s)
