-- ===== src/Web/Connecting/Stops.antt =====
-- Where `connect_web` of nusb-scsi/src/lib.rs stops, and which interface is claimed by then.
use canoe_nusb_storage.Common.{
  ℕ, ◌==◌, ◌≡◌, ◌≢◌, refl, ◌⊎◌, inl, inr, true, false, Option, none, some, List, find, arith,
  Bool-cases,
}
use canoe_nusb_storage.Common.Outcome.{Outcome, ok, err}
use canoe_nusb_storage.Common.Stops.{Stop, met, stop, StopsAt}
use canoe_nusb_storage.Scsi.Error.{Error, protocol}
use canoe_nusb_storage.Usb.{Nusb, NusbIo, initialize}
use canoe_nusb_storage.Web.Browser.{Browser}
use canoe_nusb_storage.Web.Connecting.{Opener, Opening, Listed, attempt}

module _ {W I P : Type 0} (nusb : Nusb W I P) (browser : Browser W I) (opener : Opener W I)
    (number alternate timeout : ℕ) where
  -- The interface is not listed, or not with its alternate setting.
  abbrev pub Unlisted : W → Error → Type 0
  Unlisted w e =
      ((opener.configuration w ≡ none) × (e ≡ protocol "no active USB configuration"))
      ⊎ ((xs : List Listed) × (opener.configuration w ≡ some xs)
          × (((find (λ entry. entry.interface_number == number) xs ≡ none)
                × (e ≡ protocol "selected USB interface is missing"))
              ⊎ ((entry : Listed) × (find (λ entry. entry.interface_number == number) xs
                    ≡ some entry)
                  × (entry.alternate_setting ≢ alternate)
                  × (e ≡ protocol "selected alternate setting is not active"))))

  -- From `w` on, the calls of the listed interface stop so in the state `world`, and this is the
  -- interface claimed by then.
  abbrev pub Later : W → Option I → W → Stop Error → Type 0
  Later w claimed world f =
      ((claimed ≡ none) × StopsAt (opener.from_js w) world f)
      ⊎ ((w1 : W) × (opener.from_js w ≡ (ok tt, w1))
          × (((claimed ≡ none) × StopsAt (opener.claim_interface number w1) world f)
              ⊎ ((i : I) × (w2 : W) × (opener.claim_interface number w1 ≡ (ok i, w2))
                  × (claimed ≡ some i)
                  × StopsAt (initialize nusb i alternate timeout w2) world f)))

  abbrev pub Stops : W → Option I → W → Stop Error → Type 0
  Stops w claimed world f =
      ((claimed ≡ none) × (world ≡ w) × ((e : Error) × Unlisted w e × (f ≡ met e)))
      ⊎ Later w claimed world f

  abbrev attempted : W → Outcome Error (NusbIo I P) × Opening W I
  attempted w =
      attempt nusb browser opener number alternate timeout (record { world = w; claimed = none })

  attempt-unconfigured :
      (w : W)
      → opener.configuration w ≡ none
      → attempted w
        ≡ (err (protocol "no active USB configuration"), record { world = w; claimed = none })
  unfolding attempt
  attempt-unconfigured w h = rw h refl

  attempt-missing :
      (w : W) (xs : List Listed)
      → opener.configuration w ≡ some xs
      → find (λ entry. entry.interface_number == number) xs ≡ none
      → attempted w
        ≡ (err (protocol "selected USB interface is missing"), record { world = w; claimed = none })
  unfolding attempt
  attempt-missing w xs h k = rw h (rw k refl)

  attempt-inactive :
      (w : W) (xs : List Listed) (entry : Listed)
      → opener.configuration w ≡ some xs
      → find (λ entry. entry.interface_number == number) xs ≡ some entry
      → (entry.alternate_setting == alternate) ≡ false
      → attempted w ≡ (
        err (protocol "selected alternate setting is not active"),
        record { world = w; claimed = none },
      )
  unfolding attempt
  attempt-inactive w xs entry h k n = rw h (rw k (rw n refl))

  attempt-Later :
      (w : W) (xs : List Listed) (entry : Listed)
      → opener.configuration w ≡ some xs
      → find (λ entry. entry.interface_number == number) xs ≡ some entry
      → (entry.alternate_setting == alternate) ≡ true
      → (f : Stop Error) → stop (attempted w).0 ≡ some f
      → Later w (attempted w).1.claimed (attempted w).1.world f
  unfolding attempt
  attempt-Later w xs entry h k n = rw h (rw k (rw n (λ f e. grind arith)))

  refused-Stops :
      (w : W) (e : Error)
      → Unlisted w e
      → (f : Stop Error) → stop {A = NusbIo I P} (err e) ≡ some f
      → Stops w none w f
  refused-Stops w e u f h = inl (refl, refl, (e, u, ground arith))

  apart : (n m : ℕ) → (n == m) ≡ false → n ≢ m
  apart n m h = ground arith

  listed-Stops :
      (w : W) (xs : List Listed) (r : Option Listed)
      → opener.configuration w ≡ some xs
      → find (λ entry. entry.interface_number == number) xs ≡ r
      → (f : Stop Error) → stop (attempted w).0 ≡ some f
      → Stops w (attempted w).1.claimed (attempted w).1.world f
  listed-Stops w xs none h k =
      rw (attempt-missing w xs h k) (refused-Stops w _ (inr (xs, h, inl (k, refl))))
  listed-Stops w xs (some entry) h k = elim (Bool-cases (entry.alternate_setting == alternate)) [
    | inl same ↦ λ f e. inr (attempt-Later w xs entry h k same f e)
    | inr other ↦
        rw (attempt-inactive w xs entry h k other)
          (refused-Stops w _ (inr (xs, h, inr (entry, k, apart _ _ other, refl))))
  ]

  pub attempt-Stops :
      (w : W) (r : Option (List Listed))
      → opener.configuration w ≡ r
      → (f : Stop Error) → stop (attempted w).0 ≡ some f
      → Stops w (attempted w).1.claimed (attempted w).1.world f
  attempt-Stops w none h = rw (attempt-unconfigured w h) (refused-Stops w _ (inl (h, refl)))
  attempt-Stops w (some xs) h = listed-Stops w xs _ h refl

  -- What the attempt did where it answers a transport.
  pub attempt-connected :
      (w : W) (inner : NusbIo I P)
      → (attempted w).0 ≡ ok inner
      → (claimed : I) × (w1 w2 : W) × (opener.from_js w ≡ (ok tt, w1))
        × (opener.claim_interface number w1 ≡ (ok claimed, w2))
        × (initialize nusb claimed alternate timeout w2 ≡ (ok inner, (attempted w).1.world))
        × ((attempted w).1.claimed ≡ some claimed)
  unfolding attempt
  attempt-connected w inner h = grind arith
