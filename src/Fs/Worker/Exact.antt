-- ===== src/Fs/Worker/Exact.antt =====
-- Offsets of canoe-fs/src/wasm.rs are exact as JavaScript numbers.
use mathlib.Core.Path.{subst}
use canoe_nusb_storage.Common.{
  ℕ, suc, ◌*◌, ◌^◌, ◌≤◌, ◌<◌, ◌≡◌, ◌↔◌, refl, sym, ap, ◌∙◌, Bool, List, arith,
}
use canoe_nusb_storage.Common.Outcome.{ok, Action}
use canoe_nusb_storage.Fs.Guarded.{
  BlockDevice, Guarded, FsError, check, complete, read_at, write_at, flush,
}
use canoe_nusb_storage.Fs.Confinement.{Reaches, stays, reads, writes, flushes, retires}
use canoe_nusb_storage.Fs.Worker.{
  Storage, BrokerDevice, broker, broker_by, as_f64, excess, nearest, open_filesystem,
}
use canoe_nusb_storage.Fs.Text.{Text}
use canoe_nusb_storage.Fs.Engines.{FatFs, Ext4}
use canoe_nusb_storage.Fs.Session.{Session}

excess_small : (fuel n : ℕ) → n < 2 ^ 53 → excess (suc fuel) n ≡ 0
excess_small fuel n h = ground arith

nearest_one : (n : ℕ) → nearest 1 n * 1 ≡ n
nearest_one n = ground arith

as_f64_exact : (n : ℕ) → n < 2 ^ 53 → as_f64 n ≡ n
unfolding as_f64
as_f64_exact n h = ap (λ e. nearest (2 ^ e) n * 2 ^ e) (excess_small 10 n h) ∙ nearest_one n

module _ {J : Type 0} (storage : Storage J) where
  -- The device that hands the page the offset itself.
  abbrev pub exact : BlockDevice (BrokerDevice J)
  exact = broker_by storage (λ n. n)

  abbrev pub IsSmall : Guarded (BrokerDevice J) → Type 0
  IsSmall g = g.device.length ≤ 9007199254740991

  read_at-exact :
      (offset count : ℕ) (g : Guarded (BrokerDevice J))
      → IsSmall g
      → read_at (broker storage) offset count g ≡ read_at exact offset count g
  unfolding read_at check
  read_at-exact offset count g h = ground (arith, as_f64_exact offset)

  write_at-exact :
      (offset : ℕ) (bytes : List ℕ) (g : Guarded (BrokerDevice J))
      → IsSmall g
      → write_at (broker storage) offset bytes g ≡ write_at exact offset bytes g
  unfolding write_at check
  write_at-exact offset bytes g h = ground (arith, as_f64_exact offset)

  read_at-IsSmall :
      (number : ℕ → ℕ) (offset count : ℕ) (g : Guarded (BrokerDevice J))
      → IsSmall g
      → IsSmall (read_at (broker_by storage number) offset count g).1
  unfolding read_at check complete
  read_at-IsSmall number offset count g h = ground arith

  write_at-IsSmall :
      (number : ℕ → ℕ) (offset : ℕ) (bytes : List ℕ) (g : Guarded (BrokerDevice J))
      → IsSmall g
      → IsSmall (write_at (broker_by storage number) offset bytes g).1
  unfolding write_at check complete
  write_at-IsSmall number offset bytes g h = ground arith

  flush-IsSmall :
      (number : ℕ → ℕ) (g : Guarded (BrokerDevice J))
      → IsSmall g
      → IsSmall (flush (broker_by storage number) g).1
  unfolding flush check complete
  flush-IsSmall number g h = ground arith

  flush-exact : (g : Guarded (BrokerDevice J)) → flush (broker storage) g ≡ flush exact g
  unfolding flush check
  flush-exact g = refl

  to_exact :
      {g g' : Guarded (BrokerDevice J)}
      → Reaches (broker storage) g g'
      → IsSmall g
      → Reaches exact g g'
  to_exact stays small = stays
  to_exact {g} {g'} (reads o n h) small =
      let rest = to_exact h (read_at-IsSmall as_f64 o n g small) in
      reads o n (subst (λ r. Reaches exact r.1 g') (read_at-exact o n g small) rest)
  to_exact {g} {g'} (writes o b h) small =
      let rest = to_exact h (write_at-IsSmall as_f64 o b g small) in
      writes o b (subst (λ r. Reaches exact r.1 g') (write_at-exact o b g small) rest)
  to_exact {g} {g'} (flushes h) small =
      let rest = to_exact h (flush-IsSmall as_f64 g small) in
      flushes (subst (λ r. Reaches exact r.1 g') (flush-exact g) rest)
  to_exact (retires h) small = retires (to_exact h small)

  from_exact :
      {g g' : Guarded (BrokerDevice J)}
      → Reaches exact g g'
      → IsSmall g
      → Reaches (broker storage) g g'
  from_exact stays small = stays
  from_exact {g} {g'} (reads o n h) small =
      let rest = from_exact h (read_at-IsSmall (λ n. n) o n g small) in
      reads o n
        (subst (λ r. Reaches (broker storage) r.1 g') (sym (read_at-exact o n g small)) rest)
  from_exact {g} {g'} (writes o b h) small =
      let rest = from_exact h (write_at-IsSmall (λ n. n) o b g small) in
      writes o b
        (subst (λ r. Reaches (broker storage) r.1 g') (sym (write_at-exact o b g small)) rest)
  from_exact {g} {g'} (flushes h) small =
      let rest = from_exact h (flush-IsSmall (λ n. n) g small) in
      flushes (subst (λ r. Reaches (broker storage) r.1 g') (sym (flush-exact g)) rest)
  from_exact (retires h) small = retires (from_exact h small)

module _ {J F X Dir Item File Inode Raw : Type 0} (storage : Storage J)
    (fs : FatFs (F × Guarded (BrokerDevice J)) Dir Item File)
    (ext : Ext4 (X × Guarded (BrokerDevice J)) Inode Raw)
    (fat_mount : Action (Guarded (BrokerDevice J)) Text F)
    (ext4_mount : Action (Guarded (BrokerDevice J)) FsError X) where
  open_filesystem_small :
      (kind : Text) (writable : Bool) (capacity : ℕ) (page page' : J)
      (s : Session (BrokerDevice J) F X)
      → open_filesystem storage fs ext fat_mount ext4_mount kind writable capacity page
        ≡ (ok s, page')
      → capacity ≤ 9007199254740991
  unfolding open_filesystem
  open_filesystem_small kind writable capacity page page' s h = ground arith

  -- Where `open_filesystem` answers a session on a storage of some length: whatever calls of the
  -- guarded broker device of that length, and retirements, can lead to, they can lead to where the
  -- page is handed the offsets themselves instead of their conversions to an `f64`, and the other
  -- way round.
  pub open_filesystem-exact :
      (kind : Text) (writable : Bool) (capacity : ℕ) (page page' : J)
      (s : Session (BrokerDevice J) F X)
      → open_filesystem storage fs ext fat_mount ext4_mount kind writable capacity page
        ≡ (ok s, page')
      → (g g' : Guarded (BrokerDevice J)) → g.device.length ≡ capacity
      → Reaches (broker storage) g g' ↔ Reaches (exact storage) g g'
  open_filesystem-exact kind writable capacity page page' s h g g' e =
      let small = open_filesystem_small kind writable capacity page page' s h in
      let fits : g.device.length ≤ 9007199254740991 = omega arith in
      (λ k. to_exact storage k fits, λ k. from_exact storage k fits)
