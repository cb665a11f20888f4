-- ===== src/Common/Outcome.antt =====
-- How a call ends, and the calls that carry a state. An error keeps the state that was reached.
use mathlib.Core.Path.{◌≡◌, refl}
use mathlib.Core.Logic.{◌⊎◌, inl, inr, ◌≢◌}
use mathlib.Core.Bool.{Bool}
use mathlib.Core.Option.{Option, none, some}
use canoe_nusb_storage.Common.Tests.{if◌then◌else◌}

-- `ok` and `err` are `Result`'s. `dropped`: the caller dropped the future at an `await`.
-- `panicked`: an index, a slice or an `unwrap` failed. `stuck` is no end of the program's: the
-- fuel of a loop ran out.
pub data Outcome (E : Type 0) (A : Type 0) : Type 0 where
  ok : A → Outcome E A
  err : E → Outcome E A
  dropped panicked stuck : Outcome E A

abbrev pub Action : Type 0 → Type 0 → Type 0 → Type 0
Action S E A = S → Outcome E A × S

module _ {S E : Type 0} where
  abbrev pub pure : {A : Type 0} → A → Action S E A
  pure a s = (ok a, s)

  abbrev pub raise : {A : Type 0} → E → Action S E A
  raise e s = (err e, s)

  abbrev pub finish : {A : Type 0} → Outcome E A → Action S E A
  finish o s = (o, s)

  abbrev pub get : Action S E S
  get s = (ok s, s)

  abbrev pub modify : (S → S) → Action S E (Unit {0})
  modify f s = (ok tt, f s)

  abbrev pub raise_if : Bool → E → Action S E (Unit {0})
  raise_if c e s = (if c then err e else ok tt, s)

  -- Indexing and `unwrap`: `none` is a panic.
  abbrev pub or_panic : {A : Type 0} → Option A → Action S E A
  or_panic none s = (panicked, s)
  or_panic (some a) s = (ok a, s)

infixl 5 ◌>>=◌ ◌>>◌
abbrev pub ◌>>=◌ : {S E A B : Type 0} → Action S E A → (A → Action S E B) → Action S E B
◌>>=◌ m f s =
    let (r, s') = m s in
    elim r [
      | ok a ↦ f a s'
      | err e ↦ (err e, s')
      | dropped ↦ (dropped, s')
      | panicked ↦ (panicked, s')
      | stuck ↦ (stuck, s')
    ]

abbrev pub ◌>>◌ : {S E B : Type 0} → Action S E (Unit {0}) → Action S E B → Action S E B
m >> k = m >>= λ _. k

-- The ends of a call that neither waits nor panics.
abbrev pub IsResult : {E A : Type 0} → Outcome E A → Type 0
IsResult {E} {A} r = ((a : A) × (r ≡ ok a)) ⊎ ((e : E) × (r ≡ err e))

pub IsResult-cases :
    {E A : Type 0} (r : Outcome E A) → r ≢ dropped → r ≢ panicked → r ≢ stuck → IsResult r
IsResult-cases (ok a) d p s = inl (a, refl)
IsResult-cases (err e) d p s = inr (e, refl)
IsResult-cases dropped d p s = absurd (d refl)
IsResult-cases panicked d p s = absurd (p refl)
IsResult-cases stuck d p s = absurd (s refl)

-- What a step that succeeds leaves to the steps after it. The step is given by how it ended.
pub >>=-ok :
    {S E A B : Type 0} (f : A → Action S E B) (r : Outcome E A) (s s' : S) {b : B} {t : S}
    → ((λ (_ : S). (r, s')) >>= f) s ≡ (ok b, t)
    → (a : A) × (r ≡ ok a) × (f a s' ≡ (ok b, t))
>>=-ok f (ok a) s s' h = (a, refl, h)
>>=-ok f (err e) s s' h = cc
>>=-ok f dropped s s' h = cc
>>=-ok f panicked s s' h = cc
>>=-ok f stuck s s' h = cc
