-- ===== src/Tests/Fastboot.antt =====
-- Fastboot sessions over an engine that answers, and the browser of `Tests.Browsers`.
use canoe_nusb_storage.Common.{
  true, false, ℕ, ◌+◌, ◌≡◌, refl, false, none, some, List, [], ◌∷◌, ◌⊎◌, inr, arith,
}
use canoe_nusb_storage.Common.Bytes.{bytes_eq}
use canoe_nusb_storage.Common.Outcome.{ok}
use canoe_nusb_storage.Fs.Text.{Text, text, contains}
use canoe_nusb_storage.Web.Browser.{Failure, message}
use canoe_nusb_storage.Fastboot
use canoe_nusb_storage.Fastboot.{Engine, FastbootSession, hash_range}
use canoe_nusb_storage.Fastboot.Hash.{hash_command}
use canoe_nusb_storage.Fastboot.Hash.Reading.{read_hash, read_hash-hash_command}
use canoe_nusb_storage.Fastboot.Outcomes.{Request, Leaves, perform, perform-Leaves}
use canoe_nusb_storage.Fastboot.Checks.{IsChecked, hash_range-IsChecked}
use canoe_nusb_storage.Managed.Opening.{Device, Alternate, Configuration}
use canoe_nusb_storage.Fastboot.Opening.{
  FastbootOpener, open_fastboot, open_native, attempt, settle, fastboot_interface, select_config,
  is_fastboot,
}
use canoe_nusb_storage.Tests.Browsers.{plain}

-- The client counts its calls; every command is answered by an empty text.
abbrev engine : Engine ℕ
engine = record {
  get_var = λ _ t. (ok (text "sha256-range-v1"), t + 1);
  command = λ _ t. (ok [], t + 1);
  fetch = λ _ _ _ t. (ok [], t + 1);
  download = λ _ t. (ok tt, t + 1);
  extend_from_slice = λ _ t. (ok tt, t + 1);
  finish_download = λ t. (ok tt, t + 1);
  flash = λ _ t. (ok tt, t + 1);
}

abbrev zeros : List ℕ
zeros =
    0 ∷ 0 ∷ 0 ∷ 0 ∷ 0 ∷ 0 ∷ 0 ∷ 0 ∷ 0 ∷ 0 ∷ 0 ∷ 0 ∷ 0 ∷ 0 ∷ 0 ∷ 0 ∷ 0 ∷ 0 ∷ 0 ∷ 0 ∷ 0 ∷ 0 ∷ 0 ∷ 0
    ∷ 0 ∷ 0 ∷ 0 ∷ 0 ∷ 0 ∷ 0 ∷ 0 ∷ 0 ∷ []

abbrev decode : Text → Failure ⊎ List ℕ
decode _ = inr zeros

abbrev handle : ℕ → ℕ
handle _ = 1

abbrev holding : ℕ → FastbootSession ℕ ℕ ℕ
holding t = record { client = some t; interface = some 3; device = 1 }

perform-Leaves_example :
    Leaves plain handle
      (holding 0)
      (perform plain handle engine decode (Request.flash (text "boot_a") zeros) (holding 0))
perform-Leaves_example =
    perform-Leaves plain handle engine decode (Request.flash (text "boot_a") zeros) (holding 0)
      (λ e. cc)

no_colon : contains (text "boot_a") b':' ≡ false
unfolding contains text
no_colon = refl

read_hash-hash_command_example :
    read_hash (hash_command (text "boot_a") 4096 65536) ≡ some (text "boot_a", (4096, 65536))
read_hash-hash_command_example =
    read_hash-hash_command (text "boot_a") 4096 65536 no_colon (omega arith) (omega arith)

hashed :
    hash_range plain handle engine decode (text "boot_a") 4096 65536 (holding 0)
    ≡ (ok zeros, holding 2)
unfolding hash_range Fastboot.hash_request Fastboot.hash_reply Fastboot.get_var Fastboot.command
    Fastboot.bounded Fastboot.take Fastboot.settle bytes_eq contains text
hashed = refl

hash_range-IsChecked_example :
    IsChecked plain handle engine decode (text "boot_a") 4096 65536 zeros (holding 0) (holding 2)
hash_range-IsChecked_example =
    hash_range-IsChecked plain handle engine decode (text "boot_a") 4096 65536 zeros (holding 0)
      (holding 2) hashed

-- A device in its only configuration, with a fastboot interface.
abbrev alternate : Alternate
alternate = record {
  alternate_setting = 0;
  interface_class = 255;
  interface_subclass = 66;
  interface_protocol = 3;
}

abbrev configured : Configuration
configured = record {
  configuration_value = 1;
  interfaces =
      record {
        interface_number = 3;
        claimed = false;
        alternate = alternate;
        alternates = alternate ∷ [];
      }
      ∷ [];
}

abbrev device : Device ℕ
device = record {
  vendor_id = λ _. 0x18d1;
  product_id = λ _. 0x4ee0;
  opened = λ _. true;
  configuration = λ _. some configured;
  configurations = λ _. configured ∷ [];
  open_device = λ w. (ok tt, w);
  select_configuration = λ _ w. (ok tt, w);
  null_error = message "null";
  overtaken = λ _. none;
}

abbrev opener : FastbootOpener ℕ ℕ ℕ
opener = record {
  from_js = λ w. (ok tt, w);
  claim_interface = λ number w. (ok number, w);
  from_interface = λ _ w. (ok 0, w);
}

connected : open_fastboot plain device opener 1 ≡ (ok (holding 0), 1)
unfolding open_fastboot open_native attempt settle fastboot_interface select_config is_fastboot
connected = refl
