-- ===== src/Fs/Confinement.antt =====
-- What reaches the device of `Guarded` (canoe-fs/src/lib.rs) through any number of its calls.
pub mod Sessions
pub mod Listings
pub mod Operations
pub mod Requests
pub mod Devices
use canoe_nusb_storage.Common.{
  ℕ, ◌+◌, ◌≤◌, ◌<◌, ◌≡◌, refl, sym, ap, ◌∙◌, ◌⊎◌, inl, inr, Bool, true, false, List, length, arith,
}
use canoe_nusb_storage.Common.Bytes.{u64_max}
use canoe_nusb_storage.Common.Outcome.{Outcome, ok, err, dropped, panicked, stuck}
use canoe_nusb_storage.Fs.Guarded.{
  BlockDevice, Guarded, FsError, io, out_of_bounds, read_only, retire, check, complete, read_at,
  write_at, flush,
}

module _ {D : Type 0} (dev : BlockDevice D) where
  -- `Reaches g g'`: some calls of the guarded device, and retirements, lead from `g` to `g'`.
  pub data Reaches : Guarded D → Guarded D → Type 0 where
    stays : {g : Guarded D} → Reaches g g
    reads :
        {g g' : Guarded D} (offset count : ℕ)
        → Reaches (read_at dev offset count g).1 g'
        → Reaches g g'
    writes :
        {g g' : Guarded D} (offset : ℕ) (bytes : List ℕ)
        → Reaches (write_at dev offset bytes g).1 g'
        → Reaches g g'
    flushes : {g g' : Guarded D} → Reaches (flush dev g).1 g' → Reaches g g'
    retires : {g g' : Guarded D} → Reaches (retire g) g' → Reaches g g'

  pub Reaches-trans : {g g' g'' : Guarded D} → Reaches g g' → Reaches g' g'' → Reaches g g''
  Reaches-trans stays k = k
  Reaches-trans (reads o n h) k = reads o n (Reaches-trans h k)
  Reaches-trans (writes o b h) k = writes o b (Reaches-trans h k)
  Reaches-trans (flushes h) k = flushes (Reaches-trans h k)
  Reaches-trans (retires h) k = retires (Reaches-trans h k)

  -- Each call of a retired guard is refused, and changes nothing.
  pub read_at-stopped :
      (offset count : ℕ) (g : Guarded D)
      → g.retired ≡ true
      → read_at dev offset count g ≡ (err (io "filesystem device retired"), g)
  unfolding read_at check
  read_at-stopped offset count g h = ground arith

  pub write_at-stopped :
      (offset : ℕ) (bytes : List ℕ) (g : Guarded D)
      → g.retired ≡ true
      → write_at dev offset bytes g ≡ (err (io "filesystem device retired"), g)
  unfolding write_at check
  write_at-stopped offset bytes g h = ground arith

  pub flush-stopped :
      (g : Guarded D) → g.retired ≡ true → flush dev g ≡ (err (io "filesystem device retired"), g)
  unfolding flush check
  flush-stopped g h = ground arith

  retire_same : (g : Guarded D) → g.retired ≡ true → retire g ≡ g
  retire_same g h = cc

  stopped :
      {A : Type 0} {g g' : Guarded D} {o : Outcome FsError A} {p : Outcome FsError A × Guarded D}
      → Reaches p.1 g'
      → p ≡ (o, g)
      → g.retired ≡ true
      → (p.1.retired ≡ true → g' ≡ p.1)
      → g' ≡ g
  stopped h e r k = k (ap (λ q. q.1.retired) e ∙ r) ∙ ap (λ q. q.1) e

  -- Nothing reaches the device behind a guard that is retired: whatever is called, the guard and the
  -- device behind it stay as they are.
  pub Reaches-retired : {g g' : Guarded D} → Reaches g g' → g.retired ≡ true → g' ≡ g
  Reaches-retired stays r = refl
  Reaches-retired (reads o n h) r = stopped h (read_at-stopped o n _ r) r (Reaches-retired h)
  Reaches-retired (writes o b h) r = stopped h (write_at-stopped o b _ r) r (Reaches-retired h)
  Reaches-retired (flushes h) r = stopped h (flush-stopped _ r) r (Reaches-retired h)
  Reaches-retired {g} (retires h) r = Reaches-retired h refl ∙ retire_same g r

  read_at-retires :
      (offset count : ℕ) (g : Guarded D) (e : FsError) (d : D)
      → g.retired ≡ false
      → offset + count ≤ dev.size_bytes g.device
      → dev.size_bytes g.device ≤ u64_max
      → dev.read_at offset count g.device ≡ (err e, d)
      → read_at dev offset count g
        ≡ (err e, record { device = d; writable = g.writable; retired = true })
  unfolding read_at check complete
  read_at-retires offset count g e d live fits wide h = ground arith

  -- Calls of a guard that is not writable leave what the device holds.
  module _ {C : Type 0} (contents : D → C)
      (read_keeps : (offset count : ℕ) (d : D)
        → contents (dev.read_at offset count d).1 ≡ contents d)
      (flush_keeps : (d : D) → contents (dev.flush d).1 ≡ contents d) where
    abbrev Same : Guarded D → Guarded D → Type 0
    Same g g' = (g'.writable ≡ g.writable) × (contents g'.device ≡ contents g.device)

    read_at-Same : (offset count : ℕ) (g : Guarded D) → Same g (read_at dev offset count g).1
    unfolding read_at check complete
    read_at-Same offset count g = ground (arith, read_keeps offset count g.device)

    flush-Same : (g : Guarded D) → Same g (flush dev g).1
    unfolding flush check complete
    flush-Same g = ground (arith, flush_keeps g.device)

    write_at-Same :
        (offset : ℕ) (bytes : List ℕ) (g : Guarded D)
        → g.writable ≡ false
        → Same g (write_at dev offset bytes g).1
    unfolding write_at check complete
    write_at-Same offset bytes g h = ground arith

    -- Whatever is called on a guard that is not writable, the device holds what it held before, where
    -- reads and flushes of the device itself keep what it holds.
    pub Reaches-read_only : {g g' : Guarded D} → Reaches g g' → g.writable ≡ false → Same g g'
    Reaches-read_only stays w = (refl, refl)
    Reaches-read_only {g} (reads o n h) w =
        let k = read_at-Same o n g in
        let m = Reaches-read_only h (k.0 ∙ w) in (m.0 ∙ k.0, m.1 ∙ k.1)
    Reaches-read_only {g} (writes o b h) w =
        let k = write_at-Same o b g w in
        let m = Reaches-read_only h (k.0 ∙ w) in (m.0 ∙ k.0, m.1 ∙ k.1)
    Reaches-read_only {g} (flushes h) w =
        let k = flush-Same g in let m = Reaches-read_only h (k.0 ∙ w) in (m.0 ∙ k.0, m.1 ∙ k.1)
    Reaches-read_only (retires h) w = Reaches-read_only h w

  -- How a live writable guard ends a call that the device ends so: the same way, with the device in
  -- the state that it left, and retired just where that is an error.
  abbrev pub Passed : {A : Type 0} → Outcome FsError A × D → Outcome FsError A × Guarded D → Type 0
  Passed (err e, d) p = p ≡ (err e, record { device = d; writable = true; retired = true })
  Passed (ok a, d) p = p ≡ (ok a, record { device = d; writable = true; retired = false })
  Passed (dropped, d) p = p ≡ (dropped, record { device = d; writable = true; retired = false })
  Passed (panicked, d) p = p ≡ (panicked, record { device = d; writable = true; retired = false })
  Passed (stuck, d) p = p ≡ (stuck, record { device = d; writable = true; retired = false })

  complete-Passed :
      {A : Type 0} (r : Outcome FsError A) (d : D) (g : Guarded D)
      → g.retired ≡ false
      → g.writable ≡ true
      → Passed (r, d) (complete r (record g { device = d }))
  unfolding complete
  complete-Passed (ok a) d g h w = cc
  complete-Passed (err e) d g h w = cc
  complete-Passed dropped d g h w = cc
  complete-Passed panicked d g h w = cc
  complete-Passed stuck d g h w = cc

  -- A write of the guard either is refused and changes nothing, and then the guard is retired, the
  -- range ends above 64 bits or outside the device, or the guard is not writable; or it is the
  -- device's own write of that range, inside the device, on a live writable guard: it ends as that
  -- write ends, in the state of the device that it left, and an error, and nothing else, retires
  -- the guard.
  pub write_at-cases :
      (offset : ℕ) (bytes : List ℕ) (g : Guarded D)
      → ((e : FsError) × (write_at dev offset bytes g ≡ (err e, g))
          × ((g.retired ≡ true)
              ⊎ ((u64_max < offset + length bytes)
                  ⊎ ((dev.size_bytes g.device < offset + length bytes) ⊎ (g.writable ≡ false)))))
        ⊎ ((g.retired ≡ false)
            × (offset + length bytes ≤ dev.size_bytes g.device)
            × (g.writable ≡ true)
            × Passed (dev.write_at offset bytes g.device) (write_at dev offset bytes g))
  unfolding write_at check
  write_at-cases offset bytes g = grind (
    arith,
    complete-Passed (dev.write_at offset bytes g.device).0 (dev.write_at offset bytes g.device).1 g,
  )
