-- ===== src/Fastboot/Checks.antt =====
-- What a hash that `hash_range` of canoe-usb-web/src/lib.rs answers went through.
use canoe_nusb_storage.Common.{
  ℕ, ◌+◌, ◌≤◌, ◌<◌, ◌≡◌, refl, ap, ◌⊎◌, inr, true, false, Option, none, some, List, length, arith,
}
use canoe_nusb_storage.Common.Bytes.{bytes_eq, bytes_eq→eq, u64_max}
use canoe_nusb_storage.Common.Outcome.{ok, Action, ◌>>=◌, >>=-ok}
use canoe_nusb_storage.Fs.Text.{Text, text, contains}
use canoe_nusb_storage.Web.Browser.{Browser, Failure, FastbootError}
use canoe_nusb_storage.Fastboot
use canoe_nusb_storage.Fastboot.{Engine, FastbootSession, take, settle, fail, bounded, decoded}
use canoe_nusb_storage.Fastboot.Hash.{hash_command}

module _ {T W I : Type 0} (browser : Browser W I) (handle : T → W) where
  -- What a bounded call that succeeds did.
  bounded_at :
      {A : Type 0} (m : Action T FastbootError A) (held : Option T) (s s' : FastbootSession T W I)
      (a : A)
      → bounded browser handle m (record s { client = held }) ≡ (ok a, s')
      → (client : T) × (held ≡ some client)
        × ((m client).0 ≡ ok a)
        × (s'.client ≡ some (m client).1)
  unfolding bounded take settle fail
  bounded_at m none s s' a h = cc
  bounded_at m (some c) s s' a h = (c, refl, ground arith, ground arith)

  module _ (engine : Engine T) (decode : Text → Failure ⊎ List ℕ) (partition : Text)
      (offset count : ℕ) where
    -- The client that `s` holds says that it hashes ranges, the range is checked, the client then
    -- answers the command, and the reply decodes to the hash of 32 bytes; `s'` holds the client after
    -- that.
    pub record IsChecked (hash : List ℕ) (s s' : FastbootSession T W I) : Type 0 where
      pub first : T
      pub held : s.client ≡ some first
      pub version : Text
      pub asked : (engine.get_var (text "canoe-hash") first).0 ≡ ok version
      pub supported : version ≡ text "sha256-range-v1"
      pub one_name : contains partition b':' ≡ false
      pub some_bytes : 0 < count
      pub in_range : offset + count ≤ u64_max
      pub client : T
      pub next : client ≡ (engine.get_var (text "canoe-hash") first).1
      pub reply : Text
      pub answered : (engine.command (hash_command partition offset count) client).0 ≡ ok reply
      pub decodes : decode reply ≡ inr hash
      pub whole : length hash ≡ 32
      pub kept : s'.client ≡ some (engine.command (hash_command partition offset count) client).1

    reply_checked :
        (reply : Text) (hash : List ℕ) (s s' : FastbootSession T W I)
        → Fastboot.hash_reply browser handle engine decode reply s ≡ (ok hash, s')
        → (decode reply ≡ inr hash) × (length hash ≡ 32) × (s' ≡ s)
    unfolding Fastboot.hash_reply
    reply_checked reply hash s s' h = grind arith

    request_checked :
        (version : Text) (hash : List ℕ) (s s' : FastbootSession T W I)
        → Fastboot.hash_request browser handle engine decode partition offset count version s
          ≡ (ok hash, s')
        → (bytes_eq version (text "sha256-range-v1") ≡ true)
          × (contains partition b':' ≡ false)
          × (0 < count)
          × (offset + count ≤ u64_max)
          × (((λ (_ : FastbootSession T W I).
                    Fastboot.command browser handle engine (hash_command partition offset count) s)
                  >>= Fastboot.hash_reply browser handle engine decode)
                s
              ≡ (ok hash, s'))
    unfolding Fastboot.hash_request
    request_checked version hash s s' h = grind arith

    -- Where `hash_range` answers a hash, the session's client answered `canoe-hash` with
    -- `sha256-range-v1`, the partition has no colon, the range is not empty and ends at 2^64 - 1 at
    -- most, the client then answered the command for just that range, its reply decodes to the
    -- hash, which has 32 bytes, and the session holds the client after that command.
    pub hash_range-IsChecked :
        (hash : List ℕ) (s s' : FastbootSession T W I)
        → Fastboot.hash_range browser handle engine decode partition offset count s ≡ (ok hash, s')
        → IsChecked hash s s'
    unfolding Fastboot.hash_range Fastboot.get_var Fastboot.command
    hash_range-IsChecked hash s s' h =
        let line = hash_command partition offset count in
        let (r₁, s₁) = bounded browser handle (engine.get_var (text "canoe-hash")) s in
        let (version, heard, request) =
          >>=-ok (λ v. Fastboot.hash_request browser handle engine decode partition offset count v)
            r₁ s s₁ h in
        let (first, held, asked, next) =
          bounded_at (engine.get_var (text "canoe-hash")) s.client s s₁ version
            (ap (λ r. (r, s₁)) heard) in
        let (supported, one_name, some_bytes, in_range, rest) =
          request_checked version hash s₁ s' request in
        let (r₂, s₂) = bounded browser handle (engine.command line) s₁ in
        let (reply, answer, last) =
          >>=-ok (λ t. Fastboot.hash_reply browser handle engine decode t) r₂ s₁ s₂ rest in
        let (client, held', answered, kept) =
          bounded_at (engine.command line) s₁.client s₁ s₂ reply (ap (λ r. (r, s₂)) answer) in
        let (decodes, whole, same) = reply_checked reply hash s₂ s' last in
        record {
          first = first;
          held = held;
          version = version;
          asked = asked;
          supported = bytes_eq→eq version (text "sha256-range-v1") supported;
          one_name = one_name;
          some_bytes = some_bytes;
          in_range = in_range;
          client = client;
          next = cc;
          reply = reply;
          answered = answered;
          decodes = decodes;
          whole = whole;
          kept = cc;
        }
