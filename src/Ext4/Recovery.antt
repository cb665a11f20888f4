-- ===== src/Ext4/Recovery.antt =====
-- When `mount` of nusb-ext4/src/lib.rs may replay a journal.
use mathlib.Core.Path.{subst}
use canoe_nusb_storage.Common.{
  ◌≡◌, refl, sym, ap, ◌∙◌, ◌⊎◌, inl, inr, true, false, Option, none, some, if◌then◌else◌, bit_and,
  arith, Bool-cases,
}
use canoe_nusb_storage.Common.Outcome.{Outcome, ok, err, dropped, panicked, stuck, ◌>>=◌}
use canoe_nusb_storage.Ext4.{
  BlockDevice, Library, Inspection, blocker, read_only, inspect, preflight, mount,
}

module _ {D X Journal E : Type 0} (lib : Library D X Journal E) where
  -- What the checks of `blocker` leave.
  pub blocker-none :
      (fs : X) (journal : Option Journal)
      → blocker lib fs journal ≡ none
      → (bit_and (lib.state fs) 2 ≡ 0)
        × ((j : Journal) × (journal ≡ some j)
            × (lib.errno j ≡ 0)
            × (lib.validates j (lib.block_size fs) (lib.blocks_count fs) ≡ true))
  unfolding blocker
  blocker-none fs none h = grind arith
  blocker-none fs (some j) h = (ground arith, (j, refl, ground arith, ground arith))

module _ {D X Journal E : Type 0} (lib : Library D X Journal E) (device : BlockDevice D E) where
  -- The device whose reads are those of `device`, and that refuses writes as the trait does.
  abbrev pub reading : BlockDevice D E
  reading = record {
    read_at = device.read_at;
    size_bytes = device.size_bytes;
    write_at = lib.default_write_at;
    flush = lib.default_flush;
    is_writable = lib.default_is_writable;
  }

  inspect-found :
      (d : D) (i : Inspection) (d2 : D)
      → inspect lib device d ≡ (ok i, d2)
      → (fs : X) × (journal : Option Journal) × (d1 : D) × (lib.mount reading d ≡ (ok fs, d1))
        × (lib.read_superblock fs d1 ≡ (ok journal, d2))
        × (i.write_blocker ≡ blocker lib fs journal)
  unfolding inspect read_only
  inspect-found d i d2 h = grind arith

  preflight-found :
      (d : D) (d2 : D)
      → preflight lib device d ≡ (ok tt, d2)
      → (i : Inspection) × (inspect lib device d ≡ (ok i, d2)) × (i.write_blocker ≡ none)
  unfolding preflight
  preflight-found d d2 h = grind arith

  -- The file system and the journal that are read on `d` through a device that refuses writes, which
  -- leaves it as `d2`, record no error, and the journal is plain.
  pub record IsSound (d d2 : D) : Type 0 where
    pub fs : X
    pub journal : Journal
    pub between : D
    pub mounts : lib.mount reading d ≡ (ok fs, between)
    pub reads : lib.read_superblock fs between ≡ (ok (some journal), d2)
    pub no_error : bit_and (lib.state fs) 2 ≡ 0
    pub no_errno : lib.errno journal ≡ 0
    pub plain : lib.validates journal (lib.block_size fs) (lib.blocks_count fs) ≡ true

  preflight-IsSound : (d d2 : D) → preflight lib device d ≡ (ok tt, d2) → IsSound d d2
  preflight-IsSound d d2 h =
      let (i, inspected, free) = preflight-found d d2 h in
      let (fs, journal, d1, mounted, read, e) = inspect-found d i d2 inspected in
      let (clean, (j, same, no_errno, plain)) = blocker-none lib fs journal (sym e ∙ free) in
      record {
        fs = fs;
        journal = j;
        between = d1;
        mounts = mounted;
        reads = read ∙ ap (λ o. (ok o, d2)) same;
        no_error = clean;
        no_errno = no_errno;
        plain = plain;
      }

  -- The mount that answers on `d2`: with recovery where the device is writable there, and the
  -- plain one where it is not.
  abbrev pub Mounts : D → Outcome E X × D → Type 0
  Mounts d2 p =
      ((device.is_writable d2 ≡ true) × (lib.mount_recovering device d2 ≡ p))
      ⊎ ((device.is_writable d2 ≡ false) × (lib.mount device d2 ≡ p))

  chosen : (d2 : D) → D → Outcome E X × D
  chosen d2 = if device.is_writable d2 then lib.mount_recovering device else lib.mount device

  chosen-Mounts : (d2 : D) → Mounts d2 (chosen d2 d2)
  unfolding chosen
  chosen-Mounts d2 = grind arith

  continued :
      (d : D) (r : Outcome E (Unit {0})) (d2 : D) (x : X) (d' : D)
      → preflight lib device d ≡ (r, d2)
      → ((λ (_ : D). (r, d2)) >>= λ _. λ now. chosen now now) d ≡ (ok x, d')
      → (d3 : D) × (preflight lib device d ≡ (ok tt, d3)) × Mounts d3 (ok x, d')
  continued d (ok u) d2 x d' e h = (d2, e, subst (Mounts d2) h (chosen-Mounts d2))
  continued d (err y) d2 x d' e h = cc
  continued d dropped d2 x d' e h = cc
  continued d panicked d2 x d' e h = cc
  continued d stuck d2 x d' e h = cc

  mount-found :
      (d : D) (x : X) (d' : D)
      → mount lib device d ≡ (ok x, d')
      → device.is_writable d ≡ true
      → (d2 : D) × (preflight lib device d ≡ (ok tt, d2)) × Mounts d2 (ok x, d')
  unfolding mount chosen
  mount-found d x d' h w =
      continued d (preflight lib device d).0 (preflight lib device d).1 x d' refl (rw w at h)

  mount-unwritable :
      (d : D) → device.is_writable d ≡ false → mount lib device d ≡ lib.mount device d
  unfolding mount
  mount-unwritable d w = rw w refl

  -- Where `mount` succeeds, either the device is not writable, and it is the library's plain mount;
  -- or it is writable, and before it was mounted, the file system and its journal were read through a
  -- device with the same reads whose writes are the trait's own: the file system's state has no
  -- error bit, and there is a journal, with no error, which is valid for plain recovery. The mount
  -- is then the recovering one where the device is still writable after these reads, and the
  -- plain one where it no longer is.
  pub mount-IsSound :
      (d : D) (x : X) (d' : D)
      → mount lib device d ≡ (ok x, d')
      → ((device.is_writable d ≡ false) × (lib.mount device d ≡ (ok x, d')))
        ⊎ ((device.is_writable d ≡ true) × ((d2 : D) × IsSound d d2 × Mounts d2 (ok x, d')))
  mount-IsSound d x d' h = elim (Bool-cases (device.is_writable d)) [
    | inl w ↦
        let (d2, checked, mounted) = mount-found d x d' h w in
        inr (w, (d2, preflight-IsSound d d2 checked, mounted))
    | inr w ↦ inl (w, sym (mount-unwritable d w) ∙ h)
  ]
