-- ===== src/Fs/Listing/Bounds.antt =====
-- `list` of canoe-fs/src/lib.rs answers a bounded number of entries.
use canoe_nusb_storage.Common.{
  ℕ, zero, suc, ◌+◌, ◌≤◌, ◌≡◌, ◌⊎◌, inl, inr, true, Option, none, some, List, [], ◌∷◌, ◌++◌, length,
  length-append, arith,
}
use canoe_nusb_storage.Common.Outcome.{
  Outcome, ok, err, dropped, panicked, stuck, Action, ◌>>=◌, >>=-ok,
}
use canoe_nusb_storage.Fs.Text.{Text}
use canoe_nusb_storage.Fs.Guarded.{Guarded}
use canoe_nusb_storage.Fs.Path.{path}
use canoe_nusb_storage.Fs.Engines.{FatFs, Ext4, DirEntry}
use canoe_nusb_storage.Fs.Session.{
  Session, Mounted, fat, ext4, Entry, on_engine, showing, mounted_engine, usable,
}
use canoe_nusb_storage.Fs.Stat.{max_entries, fat_entry}
use canoe_nusb_storage.Fs.Listing.{
  list_item, list_next, list_items, open_listed, fat_list, ext4_entry, list_entry, list_entries,
  list_block, list_blocks, ext4_list, list,
}

-- A result has `max_entries` entries at most.
abbrev pub Bounded : {S : Type 0} → Outcome Text (List Entry) × S → Type 0
Bounded (ok entries, s) = length entries ≤ max_entries
Bounded _ = Unit {0}

-- From any state, the call answers so many at most.
abbrev Bounds : {S : Type 0} → Action S Text (List Entry) → Type 0
Bounds {S} m = (s : S) → Bounded (m s)

bind-Bounded :
    {S A : Type 0} (f : A → Action S Text (List Entry)) (r : Outcome Text A) (s : S)
    → ((a : A) → Bounds (f a))
    → Bounded (((λ (_ : S). (r, s)) >>= f) s)
bind-Bounded f (ok a) s k = k a s
bind-Bounded f (err e) s k = tt
bind-Bounded f dropped s k = tt
bind-Bounded f panicked s k = tt
bind-Bounded f stuck s k = tt

>>=-Bounds :
    {S A : Type 0} (m : Action S Text A) (f : A → Action S Text (List Entry))
    → ((a : A) → Bounds (f a))
    → Bounds (m >>= f)
>>=-Bounds m f k s = bind-Bounded f (m s).0 (m s).1 k

bind_entries :
    {S : Type 0} (f : List Entry → Action S Text (List Entry)) (r : Outcome Text (List Entry))
    (s : S)
    → Bounded (r, s)
    → ((more : List Entry) → length more ≤ max_entries → Bounds (f more))
    → Bounded (((λ (_ : S). (r, s)) >>= f) s)
bind_entries f (ok more) s few k = k more few s
bind_entries f (err e) s few k = tt
bind_entries f dropped s few k = tt
bind_entries f panicked s few k = tt
bind_entries f stuck s few k = tt

length-snoc :
    (entries : List Entry) (e : Entry) → length (entries ++ (e ∷ [])) ≡ suc (length entries)
length-snoc entries e = omega (arith, length-append entries (e ∷ []))

module _ {W Dir Item File : Type 0} (fs : FatFs W Dir Item File) where
  list_item-bounded :
      (entries : List Entry) (item : Item) (rest : List Entry → Action W Text (List Entry))
      → length entries ≤ max_entries
      → ((more : List Entry) → length more ≤ max_entries → Bounds (rest more))
      → Bounds (list_item fs entries item rest)
  unfolding list_item
  list_item-bounded entries item rest few k s = ground (
    arith,
    length-snoc entries (fat_entry fs item),
    λ (h : length entries ≤ max_entries). k entries h s,
    λ (h : length (entries ++ (fat_entry fs item ∷ [])) ≤ max_entries).
        k (entries ++ (fat_entry fs item ∷ [])) h s,
  )

  list_next-bounded :
      (entries : List Entry) (rest : List Entry → Dir → Action W Text (List Entry))
      (got : Option ((Text ⊎ Item) × Dir))
      → length entries ≤ max_entries
      → ((more : List Entry) (d : Dir) → length more ≤ max_entries → Bounds (rest more d))
      → Bounds (list_next fs entries rest got)
  unfolding list_next
  list_next-bounded entries rest none few k s = few
  list_next-bounded entries rest (some (inl e, d)) few k s = tt
  list_next-bounded entries rest (some (inr item, d)) few k s =
      list_item-bounded entries item (λ more. rest more d) few (λ more. k more d) s

  list_items-bounded :
      (fuel : ℕ) (entries : List Entry) (dir : Dir)
      → length entries ≤ max_entries
      → Bounds (list_items fs fuel entries dir)
  unfolding list_items
  list_items-bounded zero entries dir few s = tt
  list_items-bounded (suc fuel) entries dir few s =
      >>=-Bounds (fs.next dir) (list_next fs entries (λ more d. list_items fs fuel more d))
        (λ got.
          list_next-bounded entries (λ more d. list_items fs fuel more d) got few
            (λ more d h. list_items-bounded fuel more d h))
        s

  fat_list-bounded : (fuel : ℕ) (value : Text) → Bounds (fat_list fs fuel value)
  unfolding fat_list
  fat_list-bounded fuel value =
      >>=-Bounds (open_listed fs value) (λ dir. list_items fs fuel [] dir)
        (λ dir. list_items-bounded fuel [] dir (omega arith))

module _ {W Inode Raw : Type 0} (ext : Ext4 W Inode Raw) where
  list_entry-bounded :
      (entries : List Entry) (entry : DirEntry) (rest : List Entry → Action W Text (List Entry))
      → length entries ≤ max_entries
      → ((more : List Entry) → length more ≤ max_entries → Bounds (rest more))
      → Bounds (list_entry ext entries entry rest)
  unfolding list_entry
  list_entry-bounded entries entry rest few k s =
      let later = λ (room : suc (length entries) ≤ max_entries).
        >>=-Bounds (ext4_entry ext entry) (λ item. rest (entries ++ (item ∷ [])))
          (λ item. k (entries ++ (item ∷ [])) (omega (arith, length-snoc entries item))) s in
      ground (arith, k entries few s, later)

  list_entries-bounded :
      (parsed : List DirEntry) (entries : List Entry)
      → length entries ≤ max_entries
      → Bounds (list_entries ext parsed entries)
  unfolding list_entries
  list_entries-bounded [] entries few s = few
  list_entries-bounded (entry ∷ parsed) entries few s =
      list_entry-bounded entries entry (λ more. list_entries ext parsed more) few
        (list_entries-bounded parsed) s

  list_block-bounded :
      (ino generation : ℕ) (entries : List Entry) (mapped : Option ℕ)
      → length entries ≤ max_entries
      → Bounds (list_block ext ino generation entries mapped)
  unfolding list_block
  list_block-bounded ino generation entries none few s = few
  list_block-bounded ino generation entries (some physical) few s =
      >>=-Bounds (showing ext.display (ext.read_block physical)) _
        (λ block.
          >>=-Bounds (showing ext.display (ext.parse_block block ino generation))
            (λ parsed. list_entries ext parsed entries)
            (λ parsed. list_entries-bounded parsed entries few))
        s

  list_blocks-bounded :
      (count ino : ℕ) (inode : Inode) (logical : ℕ) (entries : List Entry)
      → length entries ≤ max_entries
      → Bounds (list_blocks ext count ino inode logical entries)
  unfolding list_blocks
  list_blocks-bounded zero ino inode logical entries few s = few
  list_blocks-bounded (suc count) ino inode logical entries few s =
      let block = list_block ext ino (ext.generation inode) entries in
      let later = λ (more : List Entry). list_blocks ext count ino inode (logical + 1) more in
      >>=-Bounds (showing ext.display (ext.map_inode_logical inode logical))
        (λ mapped. block mapped >>= later)
        (λ mapped s'.
          bind_entries later (block mapped s').0 (block mapped s').1
            (list_block-bounded ino (ext.generation inode) entries mapped few s')
            (λ more h. list_blocks-bounded count ino inode (logical + 1) more h))
        s

  ext4_list-bounded : (value : Text) → Bounds (ext4_list ext value)
  unfolding ext4_list
  ext4_list-bounded value s =
      let later = λ (count ino : ℕ) (inode : Inode) (w : W).
        list_blocks-bounded count ino inode 0 [] (omega arith) w in
      grind (arith, later)

module _ {D F X Dir Item File Inode Raw : Type 0} (fs : FatFs (F × Guarded D) Dir Item File)
    (ext : Ext4 (X × Guarded D) Inode Raw) where
  path-ok : (value r : Text) → path value ≡ ok r → path value ≡ ok value
  unfolding path
  path-ok value r h = ground arith

  engine-Bounded :
      (f : Action (F × Guarded D) Text (List Entry)) (x : Action (X × Guarded D) Text (List Entry))
      (m : Mounted F X)
      → Bounds f
      → Bounds x
      → (s : Session D F X) → Bounded (on_engine f x m s)
  unfolding on_engine
  engine-Bounded f x (fat own) k l s = grind (arith, k (own, s.device))
  engine-Bounded f x (ext4 own) k l s = grind (arith, l (own, s.device))

  -- Where `list` answers, however many rounds the loop over a FAT directory is given, the session was
  -- usable, the path is one that `path` takes, and there are 4096 entries at most.
  pub list-bounded :
      (fuel : ℕ) (value : Text) (s s' : Session D F X) (entries : List Entry)
      → list fs ext fuel value s ≡ (ok entries, s')
      → (usable s ≡ true) × (path value ≡ ok value) × (length entries ≤ 4096)
  unfolding list mounted_engine
  list-bounded fuel value s s' entries h =
      let each = λ (m : Mounted F X).
        engine-Bounded (fat_list fs fuel value) (ext4_list ext value) m
          (fat_list-bounded fs fuel value) (ext4_list-bounded ext value) s in
      (
        grind arith,
        (let (r, known, _) =
              >>=-ok
                (λ _. mounted_engine >>= on_engine (fat_list fs fuel value) (ext4_list ext value))
                (path value) s s h in
            path-ok value r known),
        grind (arith, each),
      )
