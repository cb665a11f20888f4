-- ===== src/Probe/Arguments.antt =====
-- The arguments of nusb-scsi/examples/managed_probe.rs. An argument is the list of its code points.
use canoe_nusb_storage.Common.{
  ℕ, ◌+◌, ◌-◌, ◌*◌, ◌==◌, refl, inl, inr, Bool, true, false, not, ◌&&◌, ◌||◌, Option, none, some,
  List, [], ◌∷◌, leb, ltb, if◌then◌else◌,
}
use canoe_nusb_storage.Common.Bytes.{bytes_eq}
use canoe_nusb_storage.Common.Outcome.{Outcome, ok, err, IsResult}
use canoe_nusb_storage.Fs.Text.{Text, text}
use canoe_nusb_storage.Probe.{Failure, message, unknown_argument}

-- The digits of `str::parse::<u8>`, after those that made `value`.
unfoldable pub digits_u8 : (value : ℕ) → Text → Option ℕ
digits_u8 value [] = some value
digits_u8 value (c ∷ s) =
    let rest = digits_u8 (value * 10 + (c - b'0')) s in
    if not (leb b'0' c && leb c b'9') || ltb 255 (value * 10 + (c - b'0')) then none else rest

unfoldable pub unsigned_u8 : Text → Option ℕ
unsigned_u8 [] = none
unsigned_u8 (c ∷ s) = digits_u8 0 (c ∷ s)

-- `str::parse::<u8>`: an optional sign `+`, one digit at least, and 255 at most.
unfoldable pub parse_u8 : Text → Option ℕ
parse_u8 [] = none
parse_u8 (c ∷ s) = if c == b'+' then unsigned_u8 s else digits_u8 0 (c ∷ s)

pub record Options : Type 0 where
  pub bus : Option Text
  pub address : Option ℕ

-- `.parse::<u8>().map_err(..)?`, and what follows it.
abbrev parsed : Option ℕ → (ℕ → Outcome Failure (Option Options)) → Outcome Failure (Option Options)
parsed none next = err (message "invalid address")
parsed (some n) next = next n

-- The loop over the arguments; `none` where `--help` ends the program.
unfoldable pub parse_arguments : List Text → Options → Outcome Failure (Option Options)
parse_arguments [] o = ok (some o)
parse_arguments (arg ∷ []) o =
    if bytes_eq arg (text "--bus")
    then err (message "--bus needs a value")
    else if bytes_eq arg (text "--address")
    then err (message "--address needs a value")
    else if bytes_eq arg (text "--help")
    then ok none
    else err (unknown_argument arg)
parse_arguments (arg ∷ value ∷ rest) o =
    let on_bus = parse_arguments rest (record o { bus = some value }) in
    let on_address = λ (n : ℕ). parse_arguments rest (record o { address = some n }) in
    if bytes_eq arg (text "--bus")
    then on_bus
    else if bytes_eq arg (text "--address")
    then parsed (parse_u8 value) on_address
    else if bytes_eq arg (text "--help")
    then ok none
    else err (unknown_argument arg)

abbrev pub is_some : {A : Type 0} → Option A → Bool
is_some none = false
is_some (some a) = true

-- `bus.is_some() != address.is_some()`
unfoldable pub is_half_given : Options → Bool
is_half_given o =
    is_some o.bus && not (is_some o.address) || is_some o.address && not (is_some o.bus)

parsed-IsResult :
    (n : Option ℕ) (next : ℕ → Outcome Failure (Option Options))
    → ((k : ℕ) → IsResult (next k))
    → IsResult (parsed n next)
parsed-IsResult none next h = inr (_, refl)
parsed-IsResult (some n) next h = h n

if-IsResult :
    {A : Type 0} (test : Bool) (r r' : Outcome Failure A)
    → IsResult r
    → IsResult r'
    → IsResult (if test then r else r')
if-IsResult true r r' h k = h
if-IsResult false r r' h k = k

pub parse_arguments-IsResult :
    (arguments : List Text) (o : Options) → IsResult (parse_arguments arguments o)
unfolding parse_arguments
parse_arguments-IsResult [] o = inl (_, refl)
parse_arguments-IsResult (arg ∷ []) o =
    if-IsResult (bytes_eq arg (text "--bus")) (err (message "--bus needs a value")) _
      (inr (_, refl))
      (if-IsResult (bytes_eq arg (text "--address")) (err (message "--address needs a value")) _
        (inr (_, refl))
        (if-IsResult (bytes_eq arg (text "--help")) (ok none) (err (unknown_argument arg))
          (inl (_, refl)) (inr (_, refl))))
parse_arguments-IsResult (arg ∷ value ∷ rest) o =
    let on_bus = parse_arguments-IsResult rest (record o { bus = some value }) in
    let on_address =
      parsed-IsResult (parse_u8 value) (λ n. parse_arguments rest (record o { address = some n }))
        (λ n. parse_arguments-IsResult rest (record o { address = some n })) in
    if-IsResult (bytes_eq arg (text "--bus")) (parse_arguments rest (record o { bus = some value }))
      _ on_bus
      (if-IsResult (bytes_eq arg (text "--address"))
        (parsed (parse_u8 value) (λ n. parse_arguments rest (record o { address = some n }))) _
        on_address
        (if-IsResult (bytes_eq arg (text "--help")) (ok none) (err (unknown_argument arg))
          (inl (_, refl)) (inr (_, refl))))
