-- ===== src/Usb/Results.antt =====
-- `NusbIo::initialize` of nusb-scsi/src/lib.rs ends where the calls of nusb end.
use canoe_nusb_storage.Common.{ℕ, List, refl, inl, inr, arith}
use canoe_nusb_storage.Common.Outcome.{Outcome, ok, err, dropped, panicked, stuck, IsResult}
use canoe_nusb_storage.Common.Ends.{Ends}
use canoe_nusb_storage.Scsi.Error.{TransferError}
use canoe_nusb_storage.Usb.{
  Nusb, NusbIo, ControlIn, parse_max_lun, from_interface, with_max_lun, validate_timeout,
  initialize,
}

-- The call ends with a result or an error, as a postcondition.
abbrev Returns : {S E A : Type 0} → Outcome E A × S → Type 0
Returns {S} {E} {A} p = Ends (λ (_ : A) (_ : S). Unit {0}) (λ (_ : E) _. Unit {0}) (λ _. ⊥) p

Returns-IsResult : {S E A : Type 0} (r : Outcome E A) (s : S) → Returns (r, s) → IsResult r
Returns-IsResult (ok a) s h = inl (a, refl)
Returns-IsResult (err e) s h = inr (e, refl)
Returns-IsResult dropped s h = absurd h
Returns-IsResult panicked s h = absurd h
Returns-IsResult stuck s h = absurd h

IsResult-Returns : {S E A : Type 0} (r : Outcome E A) (s : S) → IsResult r → Returns (r, s)
IsResult-Returns (ok a) s h = tt
IsResult-Returns (err e) s h = tt
IsResult-Returns dropped s h = grind (arith, h)
IsResult-Returns panicked s h = grind (arith, h)
IsResult-Returns stuck s h = grind (arith, h)

module _ {W I P : Type 0} (nusb : Nusb W I P) (claimed : I) (alternate timeout : ℕ)
    (opens : (address : ℕ) (w : W) → IsResult (nusb.endpoint claimed address w).0)
    (asks : (c : ControlIn) (t : ℕ) (w : W) → IsResult (nusb.control_in claimed c t w).0) where
  endpoint-Returns : (address : ℕ) (w : W) → Returns (nusb.endpoint claimed address w)
  endpoint-Returns address w = IsResult-Returns _ _ (opens address w)

  from_interface-Returns : (w : W) → Returns (from_interface nusb claimed alternate w)
  unfolding from_interface
  from_interface-Returns w = grind (arith, endpoint-Returns)

  parse_max_lun-Returns :
      (r : Outcome TransferError (List ℕ)) (w : W) → Returns (r, w) → Returns (parse_max_lun r, w)
  unfolding parse_max_lun
  parse_max_lun-Returns r w h = grind (arith, h)

  with_max_lun-Returns :
      (io : NusbIo I P) (w : W) → Returns (with_max_lun nusb claimed timeout io w)
  unfolding with_max_lun
  with_max_lun-Returns io w =
      let asked = λ (c : ControlIn).
        parse_max_lun-Returns (nusb.control_in claimed c timeout w).0 w
          (IsResult-Returns _ _ (asks c timeout w)) in
      grind (arith, asked)

  initialize-Returns : (w : W) → Returns (initialize nusb claimed alternate timeout w)
  unfolding initialize validate_timeout
  initialize-Returns w = grind (arith, from_interface-Returns w, with_max_lun-Returns)

  -- The connection ends with a result or an error where opening an endpoint and the control transfer do.
  pub initialize-IsResult : (w : W) → IsResult (initialize nusb claimed alternate timeout w).0
  initialize-IsResult w = Returns-IsResult _ _ (initialize-Returns w)
