-- ===== src/Common/Keeps.antt =====
-- Calls that keep what is true of the state.
use canoe_nusb_storage.Common.Outcome.{Outcome, ok, err, Action, ◌>>=◌}

-- `Inv` is kept by the call `m`, from any state and however it ends.
abbrev pub Keeps : {S : Type 0} → (S → Type 0) → {E A : Type 0} → Action S E A → Type 0
Keeps {S} Inv m = (s : S) → Inv s → Inv (m s).1

module _ {S : Type 0} (Inv : S → Type 0) {E A B : Type 0} where
  bind_kept :
      (f : A → Action S E B) (r : Outcome E A) (s : S)
      → Inv s
      → ((a : A) → Keeps Inv (f a))
      → Inv (((λ (_ : S). (r, s)) >>= f) s).1
  bind_kept f (ok a) s h k = k a s h
  bind_kept f (err e) s h k = h
  bind_kept f _ s h k = h

  -- The rule for a step and what follows it.
  pub >>=-Keeps :
      (m : Action S E A) (f : A → Action S E B)
      → Keeps Inv m
      → ((a : A) → Keeps Inv (f a))
      → Keeps Inv (m >>= f)
  >>=-Keeps m f k l s h = bind_kept f (m s).0 (m s).1 (k s h) l
