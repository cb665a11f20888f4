-- ===== src/Fastboot.antt =====
-- `FastbootSession` of canoe-usb-web/src/lib.rs. The fastboot engine is a parameter, of whose client
-- `T` is the state; `W` is the state of the browser's device handle, `I` its claimed interfaces, and
-- `handle` is the state of the handle where a client has the connection.
pub mod Hash
pub mod Outcomes
pub mod Checks
pub mod Opening
use canoe_nusb_storage.Common.{
  ℕ, ◌⊎◌, inl, inr, ◌+◌, ◌==◌, Bool, true, false, not, ◌&&◌, ◌||◌, Option, none, some, List, [],
  ◌∷◌, ◌++◌, length, ltb, if◌then◌else◌,
}
use canoe_nusb_storage.Common.Bytes.{bytes_eq, bytes_eq→eq, u32_max, u64_max}
use canoe_nusb_storage.Common.Outcome.{
  Outcome, ok, err, dropped, panicked, stuck, Action, pure, get, finish, raise_if, ◌>>=◌, ◌>>◌,
}
use canoe_nusb_storage.Fs.Text.{Text, text, contains}
use canoe_nusb_storage.Web.Browser.{
  Browser, Failure, FastbootError, fastboot_failed, engine_error, fastboot, message, storage,
}
use canoe_nusb_storage.Web.Closing.{close_web, close_after_failure}
use canoe_nusb_storage.Fastboot.Hash.{hash_command}

-- The engine, `fastboot_protocol`. A call that the deadline overtakes ends as `dropped`.
pub record Engine (T : Type 0) : Type 0 where
  pub get_var : Text → Action T FastbootError Text
  pub command : Text → Action T FastbootError Text
  pub fetch : Text → (offset length : ℕ) → Action T FastbootError (List ℕ)
  pub download : ℕ → Action T FastbootError (Unit {0})
  pub extend_from_slice : List ℕ → Action T FastbootError (Unit {0})
  pub finish_download : Action T FastbootError (Unit {0})
  pub flash : Text → Action T FastbootError (Unit {0})

pub record FastbootSession (T W I : Type 0) : Type 0 where
  pub client : Option T
  pub interface : Option I
  pub device : W

abbrev pub taken : {T : Type 0} → Option T → Outcome Failure T
taken none = err (message "session is closed or uncertain; reconnect")
taken (some client) = ok client

abbrev pub decoded : Failure ⊎ List ℕ → Outcome Failure (List ℕ)
decoded (inl e) = err e
decoded (inr bytes) = ok bytes

module _ {T W I : Type 0} where
  unfoldable pub usable : FastbootSession T W I → Bool
  usable s = elim s.client [ none ↦ false | some _ ↦ true ]

  unfoldable pub take : Action (FastbootSession T W I) Failure T
  take s = (taken s.client, record s { client = none })

  abbrev pub put_back : T → FastbootSession T W I → FastbootSession T W I
  put_back client s = record s { client = some client }

  module _ (browser : Browser W I) (handle : T → W) where
    -- `drop(client)`
    abbrev pub without : T → FastbootSession T W I → FastbootSession T W I
    without client s = record s { client = none; device = handle client }

    -- `drop(self.client.take())`
    abbrev pub drop_client : Option T → FastbootSession T W I → FastbootSession T W I
    drop_client none s = record s { client = none }
    drop_client (some client) s = without client s

    unfoldable pub fail : {A : Type 0} → Failure → Action (FastbootSession T W I) Failure A
    fail primary s =
        let (e, w) = close_after_failure browser primary s.interface s.device in
        (err e, record s { interface = none; device = w })

    abbrev pub timed_out : Failure
    timed_out = message "USB operation timed out; reconnect"

    -- The method `finish`, on how the bounded call ended: `dropped` is a deadline that passed.
    unfoldable pub settle :
        {A : Type 0} → T → Outcome FastbootError A → Action (FastbootSession T W I) Failure A
    settle client (ok value) s = (ok value, put_back client s)
    settle client (err (fastboot_failed reason)) s =
        (err (fastboot (fastboot_failed reason)), put_back client s)
    settle client (err (engine_error e)) s = fail (fastboot (engine_error e)) (without client s)
    settle client dropped s = fail timed_out (without client s)
    settle client panicked s = (panicked, s)
    settle client stuck s = (stuck, s)

    -- The `match` of `flash`: there a FAIL reply is as fatal as any error.
    unfoldable pub settle_flash :
        T → Outcome FastbootError (Unit {0}) → Action (FastbootSession T W I) Failure (Unit {0})
    settle_flash client (ok _) s = (ok tt, put_back client s)
    settle_flash client (err e) s = fail (fastboot e) (without client s)
    settle_flash client dropped s = fail timed_out (without client s)
    settle_flash client panicked s = (panicked, s)
    settle_flash client stuck s = (stuck, s)

    -- `take`, a call of the client, and `finish`.
    unfoldable pub bounded :
        {A : Type 0} → Action T FastbootError A → Action (FastbootSession T W I) Failure A
    bounded m = do client ← take; (let (r, client') = m client in settle client' r)

    unfoldable pub release : Action (FastbootSession T W I) Failure (Unit {0})
    release s =
        let (r, w) = close_web browser s.interface s.device in
        (elim r [ err e ↦ err (storage e) | _ ↦ ok tt ], record s { interface = none; device = w })

    unfoldable pub close : Action (FastbootSession T W I) Failure (Unit {0})
    close s = release (drop_client s.client s)

    module _ (engine : Engine T) where
      unfoldable pub get_var : Text → Action (FastbootSession T W I) Failure Text
      get_var name = bounded (engine.get_var name)

      unfoldable pub command : Text → Action (FastbootSession T W I) Failure Text
      command line = bounded (engine.command line)

      unfoldable pub fetch :
          Text → (offset length : ℕ) → Action (FastbootSession T W I) Failure (List ℕ)
      fetch partition offset length = bounded (engine.fetch partition offset length)

      -- The bounded block of `flash`.
      unfoldable pub send_image : Text → List ℕ → Action T FastbootError (Unit {0})
      send_image partition image = do
        engine.download (length image)
        engine.extend_from_slice image
        engine.finish_download
        engine.flash partition

      unfoldable pub flash : Text → List ℕ → Action (FastbootSession T W I) Failure (Unit {0})
      flash partition image = do
        raise_if (ltb u32_max (length image))
            (message "out of range integral type conversion attempted")
        raise_if (length image == 0) (message "empty image")
        client ← take
        (let (r, client') = send_image partition image client in settle_flash client' r)

      -- `decode` is base64's, with its error as JavaScript gets it.
      module _ (decode : Text → Failure ⊎ List ℕ) where
        -- The steps of `hash_range` on the reply to its command.
        unfoldable pub hash_reply : Text → Action (FastbootSession T W I) Failure (List ℕ)
        hash_reply reply = do
          hash ← finish (decoded (decode reply))
          raise_if (not (length hash == 32)) (message "invalid SHA-256 reply length")
          pure hash

        -- The steps of `hash_range` after `get_var`.
        unfoldable pub hash_request :
            Text → (offset length : ℕ) → Text → Action (FastbootSession T W I) Failure (List ℕ)
        hash_request partition offset count version = do
          raise_if (not (bytes_eq version (text "sha256-range-v1")))
              (message "partition hash is not supported")
          raise_if (contains partition b':' || ((count == 0) || ltb u64_max (offset + count)))
              (message "invalid hash range")
          reply ← command (hash_command partition offset count)
          hash_reply reply

        unfoldable pub hash_range :
            Text → (offset length : ℕ) → Action (FastbootSession T W I) Failure (List ℕ)
        hash_range partition offset count = do
          version ← get_var (text "canoe-hash")
          hash_request partition offset count version
