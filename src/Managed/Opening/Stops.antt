-- ===== src/Managed/Opening/Stops.antt =====
-- Where the opening of canoe-usb-web/src/managed.rs stops, and which interface is claimed by then.
use canoe_nusb_storage.Common.{
  ℕ, ◌*◌, min, ◌≡◌, ◌≢◌, refl, sym, ap, ◌∙◌, ◌⊎◌, inl, inr, Option, none, some, arith,
}
use canoe_nusb_storage.Common.Outcome.{Outcome, ok, err, dropped, panicked, stuck, >>=-ok}
use canoe_nusb_storage.Common.Stops.{Stop, met, late, broken, endless, stop, StopsAt}
use canoe_nusb_storage.Scsi.Error.{Error}
use canoe_nusb_storage.Range.{RangeSession, Access}
use canoe_nusb_storage.Usb.{Nusb, NusbIo, validate_timeout, nanoseconds}
use canoe_nusb_storage.Web.Browser.{Browser, Failure}
use canoe_nusb_storage.Web.Connecting
use canoe_nusb_storage.Web.Connecting.{Opener, Opening, connect_web, retain_web_interface}
use canoe_nusb_storage.Managed.Opening.{
  Device, connect, attempt, thrown, throwing, managed_interface, connect_selected,
}

module _ {W I P : Type 0} (nusb : Nusb W I P) (browser : Browser W I) (opener : Opener W I) where
  attempt_claims :
      (number alternate timeout : ℕ) (o : Opening W I) (io : NusbIo I P)
      → (Connecting.attempt nusb browser opener number alternate timeout o).0 ≡ ok io
      → (Connecting.attempt nusb browser opener number alternate timeout o).1.claimed ≢ none
  unfolding Connecting.attempt
  attempt_claims number alternate timeout o io h = grind arith

  settle_claims :
      (r : Outcome Error (NusbIo I P)) (o : Opening W I) (io : NusbIo I P) (w' : W)
      → ((first : NusbIo I P) → r ≡ ok first → o.claimed ≢ none)
      → Connecting.settle nusb browser opener r o ≡ (ok io, w')
      → io.web_interface ≢ none
  unfolding Connecting.settle Connecting.give_up
  settle_claims (ok first) o io w' claims h = let claimed = claims first refl in grind arith
  settle_claims (err e) o io w' claims h = cc
  settle_claims dropped o io w' claims h = cc
  settle_claims panicked o io w' claims h = cc
  settle_claims stuck o io w' claims h = cc

  pub connect_web-claims :
      (number alternate timeout : ℕ) (w w' : W) (io : NusbIo I P)
      → connect_web nusb browser opener number alternate timeout w ≡ (ok io, w')
      → io.web_interface ≢ none
  unfolding connect_web
  connect_web-claims number alternate timeout w w' io h =
      let o : Opening W I = record { world = w; claimed = none } in
      let (_, _, raced) =
        >>=-ok (λ _. Connecting.race nusb browser opener number alternate timeout)
          (validate_timeout timeout) w w h in
      settle_claims _ _ io w' (attempt_claims number alternate timeout o) raced

module _ {W I P : Type 0} (nusb : Nusb W I P) (browser : Browser W I) (opener : Opener W I)
    (device : Device W) (usize_max : ℕ) where
  abbrev attempted :
      Access → W → Outcome Failure (RangeSession (NusbIo I P × W) × (ℕ × (ℕ × ℕ))) × Opening W I
  attempted access w =
      attempt nusb browser opener device usize_max access (record { world = w; claimed = none })

  -- Once the interface `number` with its alternate setting is selected in the state `w`, the
  -- calls stop so in the state `world`, and this is the interface claimed by then.
  abbrev pub Later : Access → (number alternate : ℕ) → W → Option I → W → Stop Failure → Type 0
  Later access number alternate w claimed world f =
      ((claimed ≡ none) × (device.overtaken w ≡ some world) × (f ≡ late))
      ⊎ ((device.overtaken w ≡ none)
          × (((claimed ≡ none)
                × StopsAt
                    (throwing (connect_web nusb browser opener number alternate (5 * nanoseconds))
                      w)
                    world f)
              ⊎ ((io : NusbIo I P) × (i : I) × (w1 : W) × (connect_web nusb browser opener number
                      alternate (5 * nanoseconds) w
                    ≡ (ok io, w1))
                  × (io.web_interface ≡ some i)
                  × (claimed ≡ some i)
                  × StopsAt (connect nusb browser opener device usize_max io access w1) world f)))

  abbrev pub Stops : Access → W → Option I → W → Stop Failure → Type 0
  Stops access w claimed world f =
      ((claimed ≡ none) × StopsAt (managed_interface device w) world f)
      ⊎ ((number setting : ℕ) × (w1 : W) × (managed_interface device w ≡ (ok (number, setting), w1))
          × Later access (min number 255) (min setting 255) w1 claimed world f)

  module _ (access : Access) (number alternate : ℕ) where
    abbrev selected :
        W → Outcome Failure (RangeSession (NusbIo I P × W) × (ℕ × (ℕ × ℕ))) × Opening W I
    selected w =
        connect_selected nusb browser opener device usize_max access number alternate
          (record { world = w; claimed = none })

    abbrev Connection : W → Outcome Error (NusbIo I P) × W
    Connection w = connect_web nusb browser opener number alternate (5 * nanoseconds) w

    -- Once the interface is claimed, the connection of the client decides.
    owned :
        (w : W) (io : NusbIo I P) (i : I)
        → device.overtaken w ≡ none
        → (Connection w).0 ≡ ok io
        → io.web_interface ≡ some i
        → let p = connect nusb browser opener device usize_max io access (Connection w).1 in
          (stop (selected w).0 ≡ stop p.0)
          × ((selected w).1 ≡ record { world = p.1; claimed = some i })
    unfolding connect_selected retain_web_interface thrown
    owned w io i h c k = grind (arith, h, c, k)

    owned-Later :
        (w : W) (io : NusbIo I P) (i : I)
        → device.overtaken w ≡ none
        → (Connection w).0 ≡ ok io
        → io.web_interface ≡ some i
        → (f : Stop Failure) → stop (selected w).0 ≡ some f
        → Later access number alternate w (selected w).1.claimed (selected w).1.world f
    owned-Later w io i h c k f e =
        let (same, after) = owned w io i h c k in
        inr (
          h,
          inr (
            io,
            i,
            (Connection w).1,
            ap (λ r. (r, (Connection w).1)) c,
            k,
            ap (λ o. o.claimed) after,
            (sym same ∙ e, sym (ap (λ o. o.world) after)),
          ),
        )

    connected-Later :
        (w : W) (r : Outcome Error (NusbIo I P))
        → device.overtaken w ≡ none
        → (Connection w).0 ≡ r
        → (f : Stop Failure) → stop (selected w).0 ≡ some f
        → Later access number alternate w (selected w).1.claimed (selected w).1.world f
    unfolding connect_selected thrown
    connected-Later w (ok io) h c = held io.web_interface refl
      where
        held :
            (o : Option I)
            → io.web_interface ≡ o
            → (f : Stop Failure) → stop (selected w).0 ≡ some f
            → Later access number alternate w (selected w).1.claimed (selected w).1.world f
        held none k = absurd (
            connect_web-claims nusb browser opener number alternate (5 * nanoseconds) w
              (Connection w).1 io (ap (λ r. (r, (Connection w).1)) c) k)
        held (some i) k = owned-Later w io i h c k
    connected-Later w (err e) h c = rw h (rw c (λ f e. grind arith))
    connected-Later w dropped h c = rw h (rw c (λ f e. grind arith))
    connected-Later w panicked h c = rw h (rw c (λ f e. grind arith))
    connected-Later w stuck h c = rw h (rw c (λ f e. grind arith))

    selected-Later :
        (w : W) (r : Option W)
        → device.overtaken w ≡ r
        → (f : Stop Failure) → stop (selected w).0 ≡ some f
        → Later access number alternate w (selected w).1.claimed (selected w).1.world f
    unfolding connect_selected
    selected-Later w none h = connected-Later w _ h refl
    selected-Later w (some w') h = rw h (λ f e. grind arith)

  attempt-selected :
      (access : Access) (w : W) (number setting : ℕ)
      → (managed_interface device w).0 ≡ ok (number, setting)
      → attempted access w
        ≡ selected access (min number 255) (min setting 255) (managed_interface device w).1
  unfolding attempt
  attempt-selected access w number setting h = grind (arith, h)

  attempt-unselected :
      (access : Access) (w : W) (r : Outcome Failure (ℕ × ℕ))
      → (managed_interface device w).0 ≡ r
      → (f : Stop Failure) → stop r ≡ some f
      → (stop (attempted access w).0 ≡ some f)
        × ((attempted access w).1
            ≡ record { world = (managed_interface device w).1; claimed = none })
  unfolding attempt
  attempt-unselected access w (ok n) h f e = cc
  attempt-unselected access w (err e') h f e = grind (arith, h, e)
  attempt-unselected access w dropped h f e = grind (arith, h, e)
  attempt-unselected access w panicked h f e = grind (arith, h, e)
  attempt-unselected access w stuck h f e = grind (arith, h, e)

  unselected :
      (access : Access) (w : W) (r : Outcome Failure (ℕ × ℕ))
      → (managed_interface device w).0 ≡ r
      → (f : Stop Failure) → stop (attempted access w).0 ≡ some f
      → (g : Stop Failure) → stop r ≡ some g
      → Stops access w (attempted access w).1.claimed (attempted access w).1.world f
  unselected access w r h f e g k =
      let (same, after) = attempt-unselected access w r h g k in
      inl (ap (λ o. o.claimed) after, (ap stop h ∙ k ∙ sym same ∙ e, sym (ap (λ o. o.world) after)))

  pub attempt-Stops :
      (access : Access) (w : W) (r : Outcome Failure (ℕ × ℕ))
      → (managed_interface device w).0 ≡ r
      → (f : Stop Failure) → stop (attempted access w).0 ≡ some f
      → Stops access w (attempted access w).1.claimed (attempted access w).1.world f
  attempt-Stops access w (ok (number, setting)) h =
      let w1 = (managed_interface device w).1 in
      let rest =
        selected-Later access (min number 255) (min setting 255) w1 (device.overtaken w1) refl in
      rw (attempt-selected access w number setting h)
        (λ f e. inr (number, setting, w1, ap (λ r. (r, w1)) h, rest f e))
  attempt-Stops access w (err e') h = λ f e. unselected access w (err e') h f e (met e') refl
  attempt-Stops access w dropped h = λ f e. unselected access w dropped h f e late refl
  attempt-Stops access w panicked h = λ f e. unselected access w panicked h f e broken refl
  attempt-Stops access w stuck h = λ f e. unselected access w stuck h f e endless refl
