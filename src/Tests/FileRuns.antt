-- ===== src/Tests/FileRuns.antt =====
-- File sessions over the device and the file systems of `Tests.Files`.
use canoe_nusb_storage.Common.{
  ◌+◌, ◌^◌, ◌≤◌, ◌<◌, ◌≡◌, refl, ◌⊎◌, Bool, true, false, some, List, [], ◌∷◌, splice,
}
use canoe_nusb_storage.Common.Bytes.{u32_max, u64_max, bytes_eq}
use canoe_nusb_storage.Common.Ends.{Ends}
use canoe_nusb_storage.Common.Outcome.{ok, err}
use canoe_nusb_storage.Fs.Text.{Text, text, len, len_utf8, split, contains, rsplit_once}
use canoe_nusb_storage.Fs.Guarded.{BlockDevice, Guarded, FsError, write_at, complete, check}
use canoe_nusb_storage.Fs.Io.{Io, negsuc, end, seek, read}
use canoe_nusb_storage.Fs.Io.Positions.{seek-Ends, read-short}
use canoe_nusb_storage.Fs.Path.{
  path, any_bad, is_bad_component, has_forbidden, is_control, starts_with, ends_with,
}
use canoe_nusb_storage.Fs.Path.Components.{path-IsSafe, IsSafe, Every, components, join}
use canoe_nusb_storage.Fs.Session.{
  Session, fat, ext4, Entry, usable, mounted_engine, require_writable, on_engine, mutation, settle,
  shown,
}
use canoe_nusb_storage.Fs.Stat.{
  stat, require_absent, is_not_found, fat_stat, find_item, ext4_stat, ext_inode,
}
use canoe_nusb_storage.Fs.Operations.{write, create_file, is_file, max_file_chunk}
use canoe_nusb_storage.Fs.Lifecycle.{open_session, finish}
use canoe_nusb_storage.Fs.Confinement.{write_at-cases}
use canoe_nusb_storage.Fs.Confinement.Requests.{Request, perform_all}
use canoe_nusb_storage.Fs.Confinement.Devices.{perform_all-read_only, perform_all-stopped}
use canoe_nusb_storage.Fs.Closed.{finish-closed, write-granted}
use canoe_nusb_storage.Tests.Files.{Bytes, memory, small_fat, small_ext4, small-ThroughGuard}

abbrev held : Bytes
held = 1 ∷ 2 ∷ 3 ∷ 4 ∷ 5 ∷ 6 ∷ []

abbrev guard : (writable retired : Bool) → Guarded Bytes
guard writable retired = record { device = held; writable = writable; retired = retired }

abbrev on_ext4 : (writable retired : Bool) → Session Bytes (Unit {0}) (Unit {0})
on_ext4 writable retired = record { mounted = some (ext4 tt); device = guard writable retired }

abbrev on_fat : Session Bytes (Unit {0}) (Unit {0})
on_fat = record { mounted = some (fat tt); device = guard true false }

-- "/a"
abbrev name : Text
name = b'/' ∷ b'a' ∷ []

abbrev requests : List Request
requests = Request.write name 1 (9 ∷ []) ∷ Request.remove name ∷ Request.flush ∷ Request.finish ∷ []

perform_all-read_only_example :
    (perform_all memory small_fat small_ext4 requests (on_ext4 false false)).device.device ≡ held
perform_all-read_only_example =
    perform_all-read_only memory small_fat small_ext4 (λ d. d) (λ _ _ _. refl) (λ _. refl)
      small-ThroughGuard requests (on_ext4 false false) refl

perform_all-stopped_example :
    (perform_all memory small_fat small_ext4 requests (on_ext4 true true)).device ≡ guard true true
perform_all-stopped_example =
    perform_all-stopped memory small_fat small_ext4 small-ThroughGuard requests (on_ext4 true true)
      refl

ext4_usable : usable (on_ext4 true false) ≡ true
unfolding usable
ext4_usable = refl

finish-closed_example : usable (finish memory small_fat small_ext4 (on_ext4 true false)).1 ≡ false
finish-closed_example = finish-closed memory small_fat small_ext4 (on_ext4 true false) ext4_usable

name-taken : path name ≡ ok name
unfolding path any_bad is_bad_component has_forbidden is_control starts_with ends_with len len_utf8
    split contains bytes_eq
name-taken = refl

path-IsSafe_example :
    (name ≡ name)
    × ((name ≡ b'/' ∷ [])
        ⊎ ((len name ≤ 4096)
            × (name ≡ b'/' ∷ join (components name))
            × Every IsSafe (components name)))
path-IsSafe_example = path-IsSafe name name name-taken

written : (write memory small_fat small_ext4 name 1 (9 ∷ []) (on_ext4 true false)).0 ≡ ok tt
unfolding write require_writable mounted_engine usable stat on_engine ext4_stat ext_inode shown
    mutation settle is_file write_at complete check rsplit_once path any_bad is_bad_component
    has_forbidden is_control starts_with ends_with len len_utf8 split contains bytes_eq
written = refl

write-granted_example :
    (usable (on_ext4 true false) ≡ true)
    × (true ≡ true)
    × (1 ≤ max_file_chunk)
    × (2 ≤ 6)
    × ((entry : Entry) × ((stat small_fat small_ext4 name (on_ext4 true false)).0 ≡ ok entry)
        × (is_file entry.kind ≡ true)
        × (1 ≤ entry.size))
write-granted_example =
    write-granted memory small_fat small_ext4 name 1 (9 ∷ []) (on_ext4 true false) written

created : (create_file memory small_fat small_ext4 name on_fat).0 ≡ ok tt
unfolding create_file require_writable mounted_engine usable stat require_absent is_not_found
    on_engine fat_stat find_item mutation settle rsplit_once path any_bad is_bad_component
    has_forbidden is_control starts_with ends_with len len_utf8 split contains bytes_eq text
created = refl

opened :
    open_session memory small_fat small_ext4
      (λ g. (ok tt, g))
      (λ g. (ok tt, g))
      (text "fat")
      true
      held
    ≡ (ok on_fat, guard true false)
unfolding open_session text bytes_eq
opened = refl

write_at-cases_example :
    ((e : FsError) × (write_at memory 1 (9 ∷ []) (guard true false) ≡ (err e, guard true false))
      × ((false ≡ true) ⊎ ((u64_max < 2) ⊎ ((6 < 2) ⊎ (true ≡ false)))))
    ⊎ ((false ≡ false)
        × (2 ≤ 6)
        × (true ≡ true)
        × (write_at memory 1 (9 ∷ []) (guard true false) ≡ (
          ok tt,
          record { device = splice 1 (9 ∷ []) held; writable = true; retired = false },
        )))
write_at-cases_example = write_at-cases memory 1 (9 ∷ []) (guard true false)

abbrev stream : Io Bytes
stream = record { device = guard true false; position = 2 }

seek-Ends_example :
    Ends
      (λ n s'. (n ≤ 6) × (n + 2 ≡ 6) × (s' ≡ record { device = guard true false; position = n }))
      (λ _ s'. (s' ≡ stream) × ((6 < 2) ⊎ (8 < 6)))
      (λ _. ⊥)
      (seek memory (end (negsuc 1)) stream)
seek-Ends_example = seek-Ends memory (end (negsuc 1)) stream

-- A device of 2^32 bytes and more.
abbrev large : BlockDevice Bytes
large = record memory { size_bytes = λ _. 2 + 2 ^ 32 }

read-short_example : read large u32_max 512 stream ≡ read large u32_max 0 stream
read-short_example = read-short large stream 512 1 refl
