-- ===== src/Common/Ends.antt =====
-- Postconditions of an `Action`, by how it ends: total correctness, since an end that panics or
-- runs out of fuel satisfies none.
use mathlib.Core.Path.{◌≡◌, refl}
use mathlib.Core.Bool.{Bool, true, false}
use canoe_nusb_storage.Common.Tests.{if◌then◌else◌}
use canoe_nusb_storage.Common.Outcome.{
  Outcome, ok, err, dropped, panicked, stuck, Action, raise_if, ◌>>=◌,
}

module _ {S E : Type 0} where
  -- `Q` of a value and the state, `R` of an error and the state, `D` of the state of a call that
  -- the caller dropped.
  abbrev pub Ends :
      {A : Type 0} → (A → S → Type 0) → (E → S → Type 0) → (S → Type 0) → Outcome E A × S → Type 0
  Ends Q R D (ok a, s) = Q a s
  Ends Q R D (err e, s) = R e s
  Ends Q R D (dropped, s) = D s
  Ends Q R D (panicked, s) = ⊥
  Ends Q R D (stuck, s) = ⊥

  module _ (R : E → S → Type 0) (D : S → Type 0) where
    bind_result :
        {A B : Type 0} (P : A → S → Type 0) (Q : B → S → Type 0) (f : A → Action S E B)
        (r : Outcome E A) (s : S)
        → Ends P R D (r, s)
        → ((a : A) (s' : S) → P a s' → Ends Q R D (f a s'))
        → Ends Q R D (((λ (_ : S). (r, s)) >>= f) s)
    bind_result P Q f (ok a) s p k = k a s p
    bind_result P Q f (err e) s p k = p
    bind_result P Q f dropped s p k = p
    bind_result P Q f panicked s p k = absurd p
    bind_result P Q f stuck s p k = absurd p

    -- The rule for a step and what follows it.
    pub >>=-Ends :
        {A B : Type 0} (P : A → S → Type 0) (Q : B → S → Type 0) (m : Action S E A)
        (f : A → Action S E B) (s : S)
        → Ends P R D (m s)
        → ((a : A) (s' : S) → P a s' → Ends Q R D (f a s'))
        → Ends Q R D ((m >>= f) s)
    >>=-Ends P Q m f s p k = bind_result P Q f (m s).0 (m s).1 p k

    -- The rule for a guard: what follows may use that its test failed.
    pub raise_if-Ends :
        {B : Type 0} (Q : B → S → Type 0) (test : Bool) (e : E) (f : Unit {0} → Action S E B)
        (s : S)
        → (test ≡ true → R e s)
        → (test ≡ false → Ends Q R D (f tt s))
        → Ends Q R D ((raise_if test e >>= f) s)
    raise_if-Ends Q true e f s bad good = bad refl
    raise_if-Ends Q false e f s bad good = good refl

    -- The rule for a branch.
    pub if-Ends :
        {A : Type 0} (Q : A → S → Type 0) (test : Bool) (m k : Action S E A) (s : S)
        → (test ≡ true → Ends Q R D (m s))
        → (test ≡ false → Ends Q R D (k s))
        → Ends Q R D ((if test then m else k) s)
    if-Ends Q true m k s yes_case no_case = yes_case refl
    if-Ends Q false m k s yes_case no_case = no_case refl

    -- A weaker postcondition.
    pub Ends-mono :
        {A : Type 0} (R' : E → S → Type 0) (D' : S → Type 0) (P Q : A → S → Type 0)
        (r : Outcome E A × S)
        → ((a : A) (s : S) → P a s → Q a s)
        → ((e : E) (s : S) → R e s → R' e s)
        → ((s : S) → D s → D' s)
        → Ends P R D r
        → Ends Q R' D' r
    Ends-mono R' D' P Q (ok a, s) p r d h = p a s h
    Ends-mono R' D' P Q (err e, s) p r d h = r e s h
    Ends-mono R' D' P Q (dropped, s) p r d h = d s h
    Ends-mono R' D' P Q (panicked, s) p r d h = absurd h
    Ends-mono R' D' P Q (stuck, s) p r d h = absurd h
