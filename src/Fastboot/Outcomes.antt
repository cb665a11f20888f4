-- ===== src/Fastboot/Outcomes.antt =====
-- How a call on a `FastbootSession` (canoe-usb-web/src/lib.rs) leaves it.
use canoe_nusb_storage.Common.{
  ℕ, ◌≡◌, ◌≢◌, refl, ap, ◌∙◌, ◌⊎◌, inl, inr, Option, none, some, List, arith,
}
use canoe_nusb_storage.Common.Outcome.{Outcome, ok, err, dropped, panicked, stuck, Action, ◌>>=◌}
use canoe_nusb_storage.Fs.Text.{Text, text}
use canoe_nusb_storage.Web.Browser.{Browser, Failure, FastbootError, fastboot_failed, engine_error}
use canoe_nusb_storage.Web.Closing.{close_web, close_after_failure}
use canoe_nusb_storage.Fastboot
use canoe_nusb_storage.Fastboot.Hash.{hash_command}
use canoe_nusb_storage.Fastboot.{
  Engine, FastbootSession, take, settle, settle_flash, fail, bounded, send_image, decoded,
}

pub data Request : Type 0 where
  get_var command : Text → Request
  fetch : Text → (offset length : ℕ) → Request
  flash : Text → List ℕ → Request
  hash_range : Text → (offset length : ℕ) → Request

module _ {T W I : Type 0} (browser : Browser W I) (handle : T → W) (engine : Engine T)
    (decode : Text → Failure ⊎ List ℕ) where
  abbrev pub forget :
      {A : Type 0}
      → Outcome Failure A × FastbootSession T W I
      → Outcome Failure (Unit {0}) × FastbootSession T W I
  forget (r, s) = (
    elim r [
      | ok _ ↦ ok tt
      | err e ↦ err e
      | dropped ↦ dropped
      | panicked ↦ panicked
      | stuck ↦ stuck
    ],
    s,
  )

  -- A call other than `close`, without the value that it answers.
  unfoldable pub perform : Request → Action (FastbootSession T W I) Failure (Unit {0})
  perform (get_var name) s = forget (Fastboot.get_var browser handle engine name s)
  perform (command line) s = forget (Fastboot.command browser handle engine line s)
  perform (fetch partition offset count) s =
      forget (Fastboot.fetch browser handle engine partition offset count s)
  perform (flash partition image) s = Fastboot.flash browser handle engine partition image s
  perform (hash_range partition offset count) s =
      forget (Fastboot.hash_range browser handle engine decode partition offset count s)

-- The session that was `s` still has a client, and its interface, or it has neither and closed the
-- device.
module _ {T W I : Type 0} (browser : Browser W I) (handle : T → W) where
  abbrev pub IsOpen : FastbootSession T W I → FastbootSession T W I → Type 0
  IsOpen s s' = (s'.client ≢ none) × ((s'.interface ≡ s.interface) × (s'.device ≡ s.device))

  abbrev pub IsClosed : FastbootSession T W I → FastbootSession T W I → Type 0
  IsClosed s s' =
      (s'.client ≡ none)
      × ((s'.interface ≡ none)
          × ((t : T) × (s'.device ≡ (close_web browser s.interface (handle t)).1)))

  -- An answer leaves the session open; an error leaves it open or closed.
  abbrev pub Leaves :
      {A : Type 0} → FastbootSession T W I → Outcome Failure A × FastbootSession T W I → Type 0
  Leaves s (ok _, s') = IsOpen s s'
  Leaves s (err _, s') = IsOpen s s' ⊎ IsClosed s s'
  Leaves s (dropped, s') = ⊥
  Leaves s (panicked, s') = Unit {0}
  Leaves s (stuck, s') = Unit {0}

  settle-Leaves :
      {A : Type 0} (client : T) (r : Outcome FastbootError A) (s : FastbootSession T W I)
      → Leaves s (settle browser handle client r s)
  unfolding settle fail close_after_failure
  settle-Leaves client (ok value) s = ((λ e. cc), (refl, refl))
  settle-Leaves client (err (fastboot_failed reason)) s = inl ((λ e. cc), (refl, refl))
  settle-Leaves client (err (engine_error e)) s = inr (refl, (refl, (client, refl)))
  settle-Leaves client dropped s = inr (refl, (refl, (client, refl)))
  settle-Leaves client panicked s = tt
  settle-Leaves client stuck s = tt

  Leaves-trans :
      {A : Type 0} (s s' : FastbootSession T W I) (r : Outcome Failure A × FastbootSession T W I)
      → IsOpen s s'
      → Leaves s' r
      → Leaves s r
  Leaves-trans s s' (ok a, last) (live, (i, d)) (live', (i', d')) = (live', (i' ∙ i, d' ∙ d))
  Leaves-trans s s' (err e, last) (live, (i, d)) (inl (live', (i', d'))) =
      inl (live', (i' ∙ i, d' ∙ d))
  Leaves-trans s s' (err e, last) (live, (i, d)) (inr (gone, (released, (t, at)))) =
      inr (gone, (released, (t, at ∙ ap (λ held. (close_web browser held (handle t)).1) i)))
  Leaves-trans s s' (dropped, last) o h = absurd h
  Leaves-trans s s' (panicked, last) o h = tt
  Leaves-trans s s' (stuck, last) o h = tt

  bind_Leaves :
      {A B : Type 0} (f : A → Action (FastbootSession T W I) Failure B) (s : FastbootSession T W I)
      (r : Outcome Failure A) (s' : FastbootSession T W I)
      → Leaves s (r, s')
      → ((a : A) → IsOpen s s' → Leaves s (f a s'))
      → Leaves s (((λ (_ : FastbootSession T W I). (r, s')) >>= f) s)
  bind_Leaves f s (ok a) s' h k = k a h
  bind_Leaves f s (err e) s' h k = h
  bind_Leaves f s dropped s' h k = absurd h
  bind_Leaves f s panicked s' h k = tt
  bind_Leaves f s stuck s' h k = tt

  bounded_at :
      {A : Type 0} (m : Action T FastbootError A) (held : Option T) (s : FastbootSession T W I)
      → held ≢ none
      → Leaves s (bounded browser handle m (record s { client = held }))
  unfolding bounded take
  bounded_at m none s h = absurd (h refl)
  bounded_at m (some c) s h = settle-Leaves (m c).1 (m c).0 (record s { client = none })

  bounded-Leaves :
      {A : Type 0} (m : Action T FastbootError A) (s s' : FastbootSession T W I)
      → IsOpen s s'
      → Leaves s (bounded browser handle m s')
  bounded-Leaves m s s' (live, same) =
      Leaves-trans s s' _ (live, same) (bounded_at m s'.client s' live)

  settle_flash-Leaves :
      (client : T) (r : Outcome FastbootError (Unit {0})) (s : FastbootSession T W I)
      → Leaves s (settle_flash browser handle client r s)
  unfolding settle_flash fail close_after_failure
  settle_flash-Leaves client (ok _) s = ((λ e. cc), (refl, refl))
  settle_flash-Leaves client (err e) s = inr (refl, (refl, (client, refl)))
  settle_flash-Leaves client dropped s = inr (refl, (refl, (client, refl)))
  settle_flash-Leaves client panicked s = tt
  settle_flash-Leaves client stuck s = tt

  decoded-Leaves :
      (s s' : FastbootSession T W I) (d : Failure ⊎ List ℕ) → IsOpen s s' → Leaves s (decoded d, s')
  decoded-Leaves s s' (inl e) o = inl o
  decoded-Leaves s s' (inr bytes) o = o

  now-IsOpen : (s : FastbootSession T W I) → s.client ≢ none → IsOpen s s
  now-IsOpen s live = (live, (refl, refl))

  module _ (engine : Engine T) (decode : Text → Failure ⊎ List ℕ) where
    flash_at :
        (partition : Text) (image : List ℕ) (held : Option T) (s : FastbootSession T W I)
        → held ≢ none
        → Leaves s
            (Fastboot.flash browser handle engine partition image (record s { client = held }))
    unfolding Fastboot.flash take
    flash_at partition image none s live = absurd (live refl)
    flash_at partition image (some c) s live =
        let sent = send_image browser handle engine partition image c in
        let last = settle_flash-Leaves sent.1 sent.0 (record s { client = none }) in
        ground (arith, last)

    hash_reply-Leaves :
        (reply : Text) (s s' : FastbootSession T W I)
        → IsOpen s s'
        → Leaves s (Fastboot.hash_reply browser handle engine decode reply s')
    unfolding Fastboot.hash_reply
    hash_reply-Leaves reply s s' o = ground arith

    hash_request-Leaves :
        (partition : Text) (offset count : ℕ) (version : Text) (s s' : FastbootSession T W I)
        → IsOpen s s'
        → Leaves s
            (Fastboot.hash_request browser handle engine decode partition offset count version s')
    unfolding Fastboot.hash_request Fastboot.command
    hash_request-Leaves partition offset count version s s' o =
        let sent =
          bounded browser handle (engine.command (hash_command partition offset count)) s' in
        let last =
          bind_Leaves (λ reply. Fastboot.hash_reply browser handle engine decode reply) s sent.0
            sent.1 (bounded-Leaves (engine.command (hash_command partition offset count)) s s' o)
            (λ reply o'. hash_reply-Leaves reply s sent.1 o') in
        ground (arith, last)

    hash_range-Leaves :
        (partition : Text) (offset count : ℕ) (s : FastbootSession T W I)
        → s.client ≢ none
        → Leaves s (Fastboot.hash_range browser handle engine decode partition offset count s)
    unfolding Fastboot.hash_range Fastboot.get_var
    hash_range-Leaves partition offset count s live =
        let asked = bounded browser handle (engine.get_var (text "canoe-hash")) s in
        bind_Leaves
          (λ version.
            Fastboot.hash_request browser handle engine decode partition offset count version)
          s asked.0 asked.1
          (bounded-Leaves (engine.get_var (text "canoe-hash")) s s (now-IsOpen s live))
          (λ version o. hash_request-Leaves partition offset count version s asked.1 o)

    forget-Leaves :
        {A : Type 0} (s s' : FastbootSession T W I) (r : Outcome Failure A)
        → Leaves s (r, s')
        → Leaves s (forget browser handle engine decode (r, s'))
    forget-Leaves s s' (ok a) h = h
    forget-Leaves s s' (err e) h = h
    forget-Leaves s s' dropped h = h
    forget-Leaves s s' panicked h = h
    forget-Leaves s s' stuck h = h

    -- Where the session has a client: a call of `get_var`, `command`, `fetch`, `flash` or
    -- `hash_range` that answers leaves it with a client, the same interface and the device not
    -- closed; one that fails leaves it so, or without client and interface and with the device
    -- closed by `close_web` with that interface. No call ends as dropped, since a deadline is an
    -- error.
    pub perform-Leaves :
        (r : Request) (s : FastbootSession T W I)
        → s.client ≢ none
        → Leaves s (perform browser handle engine decode r s)
    unfolding perform Fastboot.get_var Fastboot.command Fastboot.fetch
    perform-Leaves (get_var name) s live =
        forget-Leaves s _ _ (bounded-Leaves (engine.get_var name) s s (now-IsOpen s live))
    perform-Leaves (command line) s live =
        forget-Leaves s _ _ (bounded-Leaves (engine.command line) s s (now-IsOpen s live))
    perform-Leaves (fetch partition offset count) s live =
        forget-Leaves s _ _
          (bounded-Leaves (engine.fetch partition offset count) s s (now-IsOpen s live))
    perform-Leaves (flash partition image) s live = flash_at partition image s.client s live
    perform-Leaves (hash_range partition offset count) s live =
        forget-Leaves s _ _ (hash_range-Leaves partition offset count s live)
