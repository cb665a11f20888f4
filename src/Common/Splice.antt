-- ===== src/Common/Splice.antt =====
-- Cutting a list and writing a part of it anew.
use Prim.Native.Nat.{ℕ, zero, suc, ◌+◌, ◌-◌, ◌≤◌}
use Prim.Native.Nat.add
use mathlib.Core.Path.{◌≡◌, refl, sym, ap, ap₂, ◌∙◌}
use mathlib.Core.List.{List, [], ◌∷◌, ◌++◌, append_assoc}
use native.Mathlib.Omega.{arith}
use canoe_nusb_storage.Common.Lists.{
  length, take, drop, slice, splice, length-take, length-slice, length-splice, take-append_length,
  drop-append_length,
}

module _ {ℓ} {A : Type ℓ} where
  pub drop-drop : (m n : ℕ) (xs : List A) → drop n (drop m xs) ≡ drop (m + n) xs
  drop-drop zero n xs = rw (add.zero n)
  drop-drop (suc m) zero [] = rw (add.suc m zero)
  drop-drop (suc m) (suc n) [] = rw (add.suc m (suc n))
  drop-drop (suc m) n (x ∷ xs) = rw (add.suc m n) (drop-drop m n xs)

  pub take-add : (m n : ℕ) (xs : List A) → take (m + n) xs ≡ take m xs ++ take n (drop m xs)
  take-add zero n xs = rw (add.zero n)
  take-add (suc m) zero [] = rw (add.suc m zero)
  take-add (suc m) (suc n) [] = rw (add.suc m (suc n))
  take-add (suc m) n (x ∷ xs) = rw (add.suc m n) (ap (◌∷◌ x) (take-add m n xs))

  pub take-take : (m n : ℕ) (xs : List A) → m ≤ n → take m (take n xs) ≡ take m xs
  take-take zero n xs h = refl
  take-take (suc m) zero xs h = absurd (omega arith)
  take-take (suc m) (suc n) [] h = refl
  take-take (suc m) (suc n) (x ∷ xs) h = ap (◌∷◌ x) (take-take m n xs (omega arith))

  pub drop-take-append :
      (m n : ℕ) (xs : List A) → m ≤ n → drop m (take n xs) ++ drop n xs ≡ drop m xs
  drop-take-append zero zero xs h = refl
  drop-take-append zero (suc n) [] h = refl
  drop-take-append zero (suc n) (x ∷ xs) h = ap (◌∷◌ x) (drop-take-append zero n xs (omega arith))
  drop-take-append (suc m) zero xs h = absurd (omega arith)
  drop-take-append (suc m) (suc n) [] h = refl
  drop-take-append (suc m) (suc n) (x ∷ xs) h = drop-take-append m n xs (omega arith)

  drop-take : (m n : ℕ) (xs : List A) → drop m (take (m + n) xs) ≡ take n (drop m xs)
  drop-take zero n xs = rw (add.zero n)
  drop-take (suc m) zero [] = rw (add.suc m zero)
  drop-take (suc m) (suc n) [] = rw (add.suc m (suc n))
  drop-take (suc m) n (x ∷ xs) = rw (add.suc m n) (drop-take m n xs)

  -- A part of a part.
  pub slice-slice :
      (a m k n : ℕ) (xs : List A) → k + n ≤ m → slice k n (slice a m xs) ≡ slice (a + k) n xs
  slice-slice a m k n xs h =
      let e : m ≡ k + (m - k) = omega arith in
      rw (e, drop-take k (m - k) (drop a xs), drop-drop a k xs)
        (take-take n (m - k) (drop (a + k) xs) (omega arith))

  -- What was written is read back.
  pub slice-splice :
      (lo : ℕ) (ys xs : List A)
      → lo + length ys ≤ length xs
      → slice lo (length ys) (splice lo ys xs) ≡ ys
  slice-splice lo ys xs h =
      let e : length (take lo xs) ≡ lo = omega (arith, length-take lo xs) in
      ap (take (length ys))
        (ap (λ k. drop k (splice lo ys xs)) (sym e) ∙ drop-append_length (take lo xs) _)
      ∙ take-append_length ys _

  splice-take :
      (k n : ℕ) (ys xs : List A)
      → k + length ys ≤ n
      → splice k ys (take n xs) ++ drop n xs ≡ splice k ys xs
  splice-take k n ys xs h =
      append_assoc (take k (take n xs)) (ys ++ drop (k + length ys) (take n xs)) (drop n xs)
      ∙ ap₂ ◌++◌ (take-take k n xs (omega arith)) (
          append_assoc ys (drop (k + length ys) (take n xs)) (drop n xs)
          ∙ ap (◌++◌ ys) (drop-take-append (k + length ys) n xs h))

  -- Reading a part, changing a part of it, and writing it back changes that part of the whole.
  pub splice-splice :
      (a n k : ℕ) (ys xs : List A)
      → k + length ys ≤ n
      → a + n ≤ length xs
      → splice a (splice k ys (slice a n xs)) xs ≡ splice (a + k) ys xs
  splice-splice a n k ys xs h fits =
      let size : length (splice k ys (slice a n xs)) ≡ n =
        length-splice k ys (slice a n xs) (omega (arith, length-slice a n xs fits))
        ∙ length-slice a n xs fits in
      let tail : drop (a + length (splice k ys (slice a n xs))) xs ≡ drop n (drop a xs) =
        ap (λ t. drop (a + t) xs) size ∙ sym (drop-drop a n xs) in
      let rest : drop (k + length ys) (drop a xs) ≡ drop (a + k + length ys) xs =
        drop-drop a (k + length ys) xs ∙ ap (λ t. drop t xs) (omega arith) in
      ap (λ r. take a xs ++ (splice k ys (slice a n xs) ++ r)) tail
      ∙ ap (◌++◌ (take a xs)) (splice-take k n ys (drop a xs) h)
      ∙ sym (append_assoc (take a xs) (take k (drop a xs)) (ys ++ drop (k + length ys) (drop a xs)))
      ∙ ap₂ (λ u v. u ++ (ys ++ v)) (sym (take-add a k xs)) rest
