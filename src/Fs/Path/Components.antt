-- ===== src/Fs/Path/Components.antt =====
-- What a path that `path` of canoe-fs/src/lib.rs takes is made of.
use canoe_nusb_storage.Common.{
  ℕ, ◌≤◌, ◌==◌, ◌≡◌, refl, ap, ◌∙◌, ◌≢◌, ◌⊎◌, true, false, List, [], ◌∷◌, ◌++◌, drop, arith,
}
use canoe_nusb_storage.Common.Bytes.{bytes_eq→eq, bytes_eq_refl}
use canoe_nusb_storage.Common.Outcome.{ok}
use canoe_nusb_storage.Fs.Text.{Text, len, split, push, contains}
use canoe_nusb_storage.Fs.Path.{path, any_bad, is_bad_component, has_forbidden, starts_with}

abbrev pub Every : (Text → Type 0) → List Text → Type 0
Every P [] = Unit
Every P (c ∷ cs) = P c × Every P cs

-- The components, with '/' between them.
unfoldable pub join : List Text → Text
join [] = []
join (c ∷ []) = c
join (c ∷ d ∷ cs) = c ++ (b'/' ∷ join (d ∷ cs))

-- A component that names an entry of its directory, and neither the directory nor its parent.
pub record IsSafe (c : Text) : Type 0 where
  pub no_slash : contains c b'/' ≡ false
  pub some_name : c ≢ []
  pub no_self : c ≢ (b'.' ∷ [])
  pub no_parent : c ≢ (b'.' ∷ b'.' ∷ [])
  pub short : len c ≤ 255
  pub plain : has_forbidden c ≡ false

join-push : (c : ℕ) (parts : List Text) → join (push c parts) ≡ c ∷ join parts
unfolding join
join-push c [] = refl
join-push c (p ∷ []) = refl
join-push c (p ∷ q ∷ ps) = refl

join-slash : (parts : List Text) → parts ≢ [] → join ([] ∷ parts) ≡ b'/' ∷ join parts
unfolding join
join-slash [] h = absurd (h refl)
join-slash (p ∷ ps) h = refl

cons_some : (c : Text) (cs : List Text) → (c ∷ cs) ≢ []
cons_some c cs h = grind arith

push_some : (c : ℕ) (parts : List Text) → push c parts ≢ []
push_some c [] h = grind arith
push_some c (p ∷ ps) h = grind arith

-- What holds of both branches of `split`'s test.
split_cases :
    (P : List Text → Type 0) (c : ℕ) (s : Text)
    → (c ≡ b'/' → P ([] ∷ split s))
    → ((c == b'/') ≡ false → P (push c (split s)))
    → P (split (c ∷ s))
unfolding split
split_cases P c s h k = grind arith

split_some : (s : Text) → split s ≢ []
unfolding split
split_some [] = cons_some [] []
split_some (c ∷ s) =
    split_cases (λ p. p ≢ []) c s (λ _. cons_some [] (split s)) (λ _. push_some c (split s))

-- The components of a text are the text.
join-split : (s : Text) → join (split s) ≡ s
unfolding join split
join-split [] = refl
join-split (c ∷ s) =
    split_cases (λ p. join p ≡ c ∷ s) c s
      (λ e. join-slash (split s) (split_some s) ∙ grind (arith, join-split s))
      (λ e. join-push c (split s) ∙ ap (λ t. c ∷ t) (join-split s))

abbrev NoSlash : Text → Type 0
NoSlash c = contains c b'/' ≡ false

push-NoSlash :
    (c : ℕ) (parts : List Text)
    → (c == b'/') ≡ false
    → Every NoSlash parts
    → Every NoSlash (push c parts)
unfolding contains
push-NoSlash c [] e h = (grind arith, tt)
push-NoSlash c (p ∷ ps) e (h, k) = (grind arith, k)

split-NoSlash : (s : Text) → Every NoSlash (split s)
unfolding split contains
split-NoSlash [] = (refl, tt)
split-NoSlash (c ∷ s) =
    split_cases (Every NoSlash) c s (λ _. (unfold contains in refl, split-NoSlash s))
      (λ e. push-NoSlash c (split s) e (split-NoSlash s))

-- A component that passes the tests is safe.
component-IsSafe : (c : Text) → contains c b'/' ≡ false → is_bad_component c ≡ false → IsSafe c
unfolding is_bad_component
component-IsSafe c h k = record {
  no_slash = h;
  some_name = λ e. grind arith;
  no_self = λ e. grind (arith, bytes_eq_refl c);
  no_parent = λ e. grind (arith, bytes_eq_refl c);
  short = ground arith;
  plain = ground arith;
}

any_bad-IsSafe : (cs : List Text) → Every NoSlash cs → any_bad cs ≡ false → Every IsSafe cs
unfolding any_bad
any_bad-IsSafe [] h k = tt
any_bad-IsSafe (c ∷ cs) (h, hs) k =
    (component-IsSafe c h (ground arith), any_bad-IsSafe cs hs (ground arith))

-- The components of a path.
abbrev pub components : Text → List Text
components value = split (drop 1 value)

starts_with-join :
    (value : Text) → starts_with b'/' value ≡ true → value ≡ b'/' ∷ join (split (drop 1 value))
unfolding starts_with
starts_with-join [] h = grind arith
starts_with-join (c ∷ s) h = grind (arith, join-split s)

-- A text that `path` takes is returned as it is, and is "/" or has 4096 bytes at most and is its
-- components, with "/" before each; and every component is safe: it holds no "/", is not empty, "."
-- or "..", has 255 bytes at most, and no control or reserved character.
pub path-IsSafe :
    (value p : Text)
    → path value ≡ ok p
    → (p ≡ value)
      × ((value ≡ b'/' ∷ [])
          ⊎ ((len value ≤ 4096)
              × (value ≡ b'/' ∷ join (components value))
              × Every IsSafe (components value)))
unfolding path
path-IsSafe value p h = grind (
  arith,
  starts_with-join value,
  any_bad-IsSafe (split (drop 1 value)) (split-NoSlash (drop 1 value)),
  bytes_eq→eq value (b'/' ∷ []),
)
