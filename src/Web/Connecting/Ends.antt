-- ===== src/Web/Connecting/Ends.antt =====
-- How `connect_web` of nusb-scsi/src/lib.rs ends: with a transport, or with the device closed.
use canoe_nusb_storage.Common.{
  ℕ, ◌<◌, ◌*◌, ◌==◌, ◌≡◌, ◌||◌, ltb, refl, sym, ap, ◌∙◌, ◌⊎◌, inl, inr, true, Option, none, some,
  arith, Bool-cases,
}
use canoe_nusb_storage.Common.Outcome.{Outcome, ok, err, dropped, panicked, stuck}
use canoe_nusb_storage.Common.Stops.{Stop, met, late, broken, endless, stop}
use canoe_nusb_storage.Scsi.Error.{Error, protocol, initialization_timeout, with_cleanup}
use canoe_nusb_storage.Usb.{Nusb, NusbIo, initialize, validate_timeout, nanoseconds}
use canoe_nusb_storage.Web.Browser.{Browser}
use canoe_nusb_storage.Web.Closing.{close_web}
use canoe_nusb_storage.Web.Closing.Outcomes.{close_web-cases}
use canoe_nusb_storage.Web.Connecting
use canoe_nusb_storage.Web.Connecting.{Opener, Opening, attempt, settle, give_up, connect_web}
use canoe_nusb_storage.Web.Connecting.Stops

module _ {W I P : Type 0} (nusb : Nusb W I P) (browser : Browser W I) (opener : Opener W I)
    (number alternate timeout : ℕ) where
  abbrev Stopped : W → Option I → W → Stop Error → Type 0
  Stopped = Stops.Stops nusb browser opener number alternate timeout

  abbrev attempted : W → Outcome Error (NusbIo I P) × Opening W I
  attempted w =
      attempt nusb browser opener number alternate timeout (record { world = w; claimed = none })

  -- The error that stands for the stop.
  abbrev pub Reports : Stop Error → Error → Type 0
  Reports (met e) primary = primary ≡ e
  Reports late primary = primary ≡ initialization_timeout
  Reports broken primary = ⊥
  Reports endless primary = ⊥

  -- `connect_web` stopped, and closed the device with the interface claimed by then, in the state that
  -- the stop left. It answers `e`: the error that it met, or that of the timeout, with that of the
  -- closing if that failed too.
  pub record IsClosed (w : W) (e : Error) (w' : W) : Type 0 where
    pub claimed : Option I
    pub world : W
    pub cause : Stop Error
    pub stops : Stopped w claimed world cause
    pub primary : Error
    pub reports : Reports cause primary
    pub after : w' ≡ (close_web browser claimed world).1
    pub answer :
        (((close_web browser claimed world).0 ≡ ok tt) × (e ≡ primary))
        ⊎ ((failure : Error) × ((close_web browser claimed world).0 ≡ err failure)
            × (e ≡ with_cleanup primary failure))

  -- The transport over the interface that was claimed, with the device and that interface in it.
  pub record IsConnected (w : W) (io : NusbIo I P) (w' : W) : Type 0 where
    pub claimed : I
    pub opened : W
    pub held : W
    pub inner : NusbIo I P
    pub opens : opener.from_js w ≡ (ok tt, opened)
    pub claims : opener.claim_interface number opened ≡ (ok claimed, held)
    pub initializes : initialize nusb claimed alternate timeout held ≡ (ok inner, w')
    pub keeps : io ≡ record inner { web_device = true; web_interface = some claimed }

  -- How the connection ends that starts in the state `w`.
  abbrev pub Settled : W → Outcome Error (NusbIo I P) × W → Type 0
  Settled w (ok io, w') = IsConnected w io w'
  Settled w (err e, w') =
      ((w' ≡ w)
        × ((timeout ≡ 0) ⊎ (60 * nanoseconds < timeout))
        × (e ≡ protocol "initialization timeout must be positive and at most 60 seconds"))
      ⊎ IsClosed w e w'
  Settled w (dropped, w') = ⊥
  Settled w (panicked, w') = (claimed : Option I) × Stopped w claimed w' broken
  Settled w (stuck, w') = (claimed : Option I) × Stopped w claimed w' endless

  give_up-IsClosed :
      (w : W) (o : Opening W I) (cause : Stop Error) (primary : Error)
      → Stopped w o.claimed o.world cause
      → Reports cause primary
      → Settled w (give_up nusb browser opener primary o)
  unfolding give_up
  give_up-IsClosed w o cause primary stops reports = inr (record {
    claimed = o.claimed;
    world = o.world;
    cause = cause;
    stops = stops;
    primary = primary;
    reports = reports;
    after = refl;
    answer = elim (close_web-cases browser o.claimed o.world) [
      | inl fine ↦ inl (fine, ground arith)
      | inr (failure, bad) ↦ inr (failure, bad, ground arith)
    ];
  })

  settle-Settled :
      (w : W) (r : Outcome Error (NusbIo I P)) (o : Opening W I)
      → attempted w ≡ (r, o)
      → ((f : Stop Error) → stop r ≡ some f → Stopped w o.claimed o.world f)
      → Settled w (settle nusb browser opener r o)
  unfolding settle
  settle-Settled w (ok inner) o h k =
      let (claimed, w1, w2, opens, claims, initializes, held) =
        Stops.attempt-connected nusb browser opener number alternate timeout w inner
          (ap (λ p. p.0) h) in
      record {
        claimed = claimed;
        opened = w1;
        held = w2;
        inner = inner;
        opens = opens;
        claims = claims;
        initializes = initializes ∙ ap (λ p. (ok inner, p.1.world)) h;
        keeps =
            ap (λ c. record inner { web_device = true; web_interface = c })
              (sym (ap (λ p. p.1.claimed) h) ∙ held);
      }
  settle-Settled w (err e) o h k = give_up-IsClosed w o (met e) e (k (met e) refl) refl
  settle-Settled w dropped o h k =
      give_up-IsClosed w o late initialization_timeout (k late refl) refl
  settle-Settled w panicked o h k = (o.claimed, k broken refl)
  settle-Settled w stuck o h k = (o.claimed, k endless refl)

  raced : (w : W) → Settled w (Connecting.race nusb browser opener number alternate timeout w)
  raced w =
      settle-Settled w (attempted w).0 (attempted w).1 refl
        (Stops.attempt-Stops nusb browser opener number alternate timeout w _ refl)

  -- `connect_web` ends in one of these ways. A transport is that of `initialize` over the interface of
  -- the given number, which was claimed in the opened device, and holds the device and that interface.
  -- On an error, either the timeout is zero or above 60 seconds and the device is as it was; or the
  -- first call that stopped (the configuration's test, `from_js`, the claim or `initialize`) left the
  -- device in some state, and there it was closed by `close_web`: with the interface where that was
  -- claimed, and without one before that. The error is the one that this call met, or the timeout
  -- that overtook it, and it carries the error of the closing just where that failed too. Where it
  -- panics or runs out of fuel, one of these calls does.
  pub connect_web-Settled :
      (w : W) → Settled w (connect_web nusb browser opener number alternate timeout w)
  unfolding connect_web validate_timeout
  connect_web-Settled w = elim (Bool-cases ((timeout == 0) || ltb (60 * nanoseconds) timeout)) [
    | inl bad ↦ rw bad (inl (refl, ground arith, refl))
    | inr good ↦ rw good (raced w)
  ]
