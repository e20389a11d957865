-- ===== src/Ramfs/Tests.antt =====
-- Runs of the model of kernel/fs/ramfs/ramfs.c at concrete inputs.
use cs402_os.Base.{
  ℕ, zero, suc, ◌+◌, ◌-◌, ◌*◌, ◌≤◌, ◌<◌, ◌≡◌, refl, Bool, true, false, ◌&&◌, Option, none, some,
  List, [], ◌∷◌, ◌==◌, get_elem?, arith, ap, sym, ◌∙◌, inl, inr, ◌⊎◌, Exec, done,
}
use cs402_os.Ramfs.Vnodes.{
  FileType, data_file, dir_file, chr_file, Vnode, vget, vput, vput_vnode, drop_vnode,
}
use cs402_os.Ramfs.Inode.{
  Dirent, Inode, Sizes, Allocators, inode_of, is_named, find_slot, take, copies, free_slot,
  first_free,
}
use cs402_os.Ramfs.Ops.{
  RamErr, State, Made, made, fails, dots, ramfs_lookup, ramfs_create, ramfs_mknod, ramfs_mkdir,
  ramfs_link, ramfs_unlink, find_space, allocate, ramfs_alloc_inode, install, ramfs_read_vnode,
  set_entry, drop_link, clear_entry, ramfs_delete_vnode, ramfs_query_vnode,
}
use cs402_os.Ramfs.Links.{count, total, at, no_extra, is_proper, IsSafe, refs}
use cs402_os.Ramfs.Steps.{mode_or}
use cs402_os.Ramfs.Nodes.{Ends, ramfs_adds_lem}
use cs402_os.Ramfs.Removal.{ramfs_unlink_lem}
use cs402_os.Ramfs.Names.{ramfs_create-lookup}
use cs402_os.Ramfs.Data.{ramfs_read, ramfs_write, ramfs_readdir, ramfs_mount}
use cs402_os.Ramfs.DataLaws.{ramfs_write-ramfs_read}
use cs402_os.Ramfs.Mount.{ramfs_mount_lem}
use cs402_os.Ramfs.Listing.{ramfs_readdir_lem}

abbrev sz : Sizes
sz = record { page_size = 8; name_len = 4; dirent_size = 2; max_files = 4; max_dirent = 4 }

-- Allocators that count what they have given out.
abbrev mem : Allocators ℕ
mem = record {
  kmalloc = λ h. (true, h + 1);
  kfree = λ h. h - 1;
  page_alloc = λ h. (true, h + 1);
  page_free = λ h. h - 1;
}

abbrev same : List ℕ → List ℕ → Bool
same [] [] = true
same [] (d ∷ ys) = false
same (c ∷ xs) [] = false
same (c ∷ xs) (d ∷ ys) = (c == d) && same xs ys

unfoldable match : List ℕ → List ℕ → ℕ → Bool
match f name len = same f (take len name)

abbrev entry : ℕ → List ℕ → Dirent
entry ino name = record { rd_ino = ino; rd_name = name }

abbrev ab : List ℕ
ab = 97 ∷ 98 ∷ []

abbrev cd : List ℕ
cd = 99 ∷ 100 ∷ []

-- A root directory with the file `ab`.
abbrev root : Inode
root = record {
  rf_size = 6;
  rf_ino = 0;
  rf_mode = dir_file;
  rf_linkcount = 2;
  entries = entry 0 (46 ∷ []) ∷ entry 0 dots ∷ entry 1 ab ∷ entry 0 [] ∷ [];
  bytes = [];
  devid = 0;
}

abbrev file : Inode
file = record {
  rf_size = 3;
  rf_ino = 1;
  rf_mode = data_file;
  rf_linkcount = 2;
  entries = [];
  bytes = 7 ∷ 8 ∷ 9 ∷ 0 ∷ 0 ∷ 0 ∷ 0 ∷ 0 ∷ [];
  devid = 0;
}

-- Both are in use.
abbrev vnode_of : ℕ → Option Vnode
vnode_of zero = some (record { vn_refcount = 1; vn_nrespages = 0; vn_len = 6; vn_mode = dir_file })
vnode_of (suc zero) =
    some (record { vn_refcount = 1; vn_nrespages = 0; vn_len = 3; vn_mode = data_file })
vnode_of (suc (suc v)) = none

abbrev mode_of_vnode : Option Vnode → FileType
mode_of_vnode none = data_file
mode_of_vnode (some v) = v.vn_mode

abbrev pages : Option Vnode → ℕ
pages none = 0
pages (some v) = v.vn_nrespages

abbrev count_of : Option Vnode → ℕ
count_of o = refs o

abbrev small : State {M = ℕ} sz mem match
small = record {
  inuse = vnode_of;
  rest = record { rfs_inodes = some root ∷ some file ∷ none ∷ none ∷ []; heap = 4 };
}

small-IsSafe : IsSafe no_extra no_extra small
unfolding total count
small-IsSafe = record {
  numbered = λ i x e. number i x e;
  linked = λ i. link i;
  held = λ v y e. hold v y e;
  modes = λ v y x e f. mode v y x e f;
}
  where
    number : (i : ℕ) (x : Inode) → inode_of i small.rest ≡ some x → x.rf_ino ≡ i
    number zero x e = ap (λ (o : Option Inode). elim o [ none ↦ 0 | some y ↦ y.rf_ino ]) (sym e)
    number (suc zero) x e =
        ap (λ (o : Option Inode). elim o [ none ↦ 0 | some y ↦ y.rf_ino ]) (sym e)
    number (suc (suc zero)) x e = cc
    number (suc (suc (suc zero))) x e = cc
    number (suc (suc (suc (suc i)))) x e = cc

    link :
        (i : ℕ)
        → total i small.rest.rfs_inodes + (elim (vnode_of i) [ none ↦ 0 | some y ↦ 1 ]) + at 0 i + 0
          ≤ (elim (inode_of i small.rest) [ none ↦ 0 | some x ↦ x.rf_linkcount ]) + 0
    link zero = omega arith
    link (suc zero) = omega arith
    link (suc (suc i)) = grind arith

    hold : (v : ℕ) (y : Vnode) → vnode_of v ≡ some y → (y.vn_nrespages ≡ 0) × (0 < y.vn_refcount)
    hold zero y e = ground (arith, ap pages e, ap count_of e)
    hold (suc zero) y e = ground (arith, ap pages e, ap count_of e)
    hold (suc (suc v)) y e = absurd (ground (arith, e))

    mode :
        (v : ℕ) (y : Vnode) (x : Inode)
        → vnode_of v ≡ some y
        → inode_of v small.rest ≡ some x
        → y.vn_mode ≡ x.rf_mode
    mode zero y x e f = sym (ap mode_of_vnode e) ∙ ap mode_or f
    mode (suc zero) y x e f = sym (ap mode_of_vnode e) ∙ ap mode_or f
    mode (suc (suc v)) y x e f = absurd (ground (arith, e))

match-proper : (e : Dirent) → match e.rd_name ab 2 ≡ true → is_proper e.rd_name ≡ true
unfolding match take
match-proper e h = go e.rd_name h
  where
    go : (f : List ℕ) → same f ab ≡ true → is_proper f ≡ true
    go [] h = cc
    go (c ∷ []) h = ground (arith, h)
    go (c ∷ d ∷ []) h = ground (arith, h)
    go (c ∷ d ∷ e ∷ f) h = ground (arith, h)

same_refl : (f : List ℕ) → same f f ≡ true
same_refl [] = refl
same_refl (c ∷ f) = ground (arith, same_refl f)

match-take : (f name : List ℕ) (len : ℕ) → f ≡ take len name → match f name len ≡ true
unfolding match
match-take f name len e = rw e (same_refl (take len name))

missing_cd : find_slot match cd 2 root.entries ≡ none
unfolding find_slot match take
missing_cd = refl

found_ab : find_slot match ab 2 root.entries ≡ some 2
unfolding find_slot match take
found_ab = refl

ramfs_adds_example :
    Ends sz mem match small (ramfs_mknod sz mem match 0 cd 2 chr_file 5 small)
    × Ends sz mem match small (ramfs_mkdir sz mem match 0 cd 2 small)
    × Ends sz mem match small (ramfs_link sz mem match 1 0 cd 2 small)
ramfs_adds_example =
    ramfs_adds_lem sz mem match 0 2 cd root small small-IsSafe refl missing_cd chr_file 5 1 refl
      (omega arith)

ramfs_unlink_example : Ends sz mem match small (ramfs_unlink sz mem match 0 ab 2 small)
ramfs_unlink_example =
    ramfs_unlink_lem sz mem match 0 2 ab match-proper root 2 (entry 1 ab) file small small-IsSafe
      refl found_ab refl refl refl

create-lookup_example :
    ((e : RamErr) × (t : State {M = ℕ} sz mem match) × (ramfs_create sz mem match 0 cd 2 small
        ≡ done (fails e, t))
      × IsSafe no_extra no_extra t
      × ((u : ℕ) → refs (t.inuse u) ≡ refs (small.inuse u)))
    ⊎ ((ino : ℕ) × (t t' : State {M = ℕ} sz mem match) × (ramfs_create sz mem match 0 cd 2 small
          ≡ done (made ino, t))
        × IsSafe no_extra no_extra t
        × ((u : ℕ) → refs (t.inuse u) ≡ refs (small.inuse u) + at ino u)
        × (ramfs_lookup sz mem match 0 cd 2 t ≡ done (some ino, t')))
create-lookup_example =
    ramfs_create-lookup sz mem match match-take 0 2 cd root small small-IsSafe refl missing_cd
      (omega arith)

write-read_example :
    (y : Inode) × (t : State {M = ℕ} sz mem match) × (ramfs_write sz mem match 1 6 ab small
      ≡ done (2, t))
    × (inode_of 1 t.rest ≡ some y)
    × (ramfs_read sz mem match 1 6 2 t ≡ done (take 2 ab))
    × ((p : ℕ) → (p < 6) ⊎ (8 ≤ p) → get_elem? y.bytes p ≡ get_elem? file.bytes p)
    × (8 ≤ y.rf_size)
    × (3 ≤ y.rf_size)
write-read_example =
    ramfs_write-ramfs_read sz mem match 1 6 ab file
      (record { vn_refcount = 1; vn_nrespages = 0; vn_len = 3; vn_mode = data_file }) small refl
      refl refl refl refl (omega arith)

ramfs_mount_example :
    ((e : RamErr) × (ramfs_mount sz mem match 0 ≡ done (inl e)))
    ⊎ ((t : State {M = ℕ} sz mem match) × (ramfs_mount sz mem match 0 ≡ done (inr t))
        × IsSafe no_extra no_extra t
        × ((u : ℕ) → refs (t.inuse u) ≡ at 0 u))
ramfs_mount_example = ramfs_mount_lem sz mem match 0

ramfs_readdir_example :
    ((ramfs_readdir sz mem match 0 6 small ≡ done (0, none))
      × ((i : ℕ) (f : Dirent)
          → 3 ≤ i
          → get_elem? root.entries i ≡ some f
          → is_named f.rd_name ≡ false))
    ⊎ ((j : ℕ) × (e : Dirent) × (ramfs_readdir sz mem match 0 6 small
          ≡ done ((suc j - 3) * 2, some (record { rd_ino = e.rd_ino; rd_name = take 3 e.rd_name })))
        × (3 ≤ j)
        × (get_elem? root.entries j ≡ some e)
        × (is_named e.rd_name ≡ true)
        × ((i : ℕ) (f : Dirent)
            → 3 ≤ i
            → i < j
            → get_elem? root.entries i ≡ some f
            → is_named f.rd_name ≡ false))
ramfs_readdir_example =
    ramfs_readdir_lem sz mem match 0 3 root
      (record { vn_refcount = 1; vn_nrespages = 0; vn_len = 6; vn_mode = dir_file }) small
      (omega arith) refl refl refl

-- What `ramfs_create` returns here, and what is left behind `ramfs_unlink`.
abbrev outcome : Exec (Made sz mem match × State {M = ℕ} sz mem match) → ℕ
outcome (done (made ino, t)) = ino
outcome run = 0

creates_file : outcome (ramfs_create sz mem match 0 cd 2 small) ≡ 2
unfolding ramfs_create find_space ramfs_lookup find_slot match take free_slot allocate
    ramfs_alloc_inode first_free install copies vget ramfs_read_vnode set_entry
creates_file = refl

abbrev links_left : Exec (Option RamErr × State {M = ℕ} sz mem match) → ℕ
links_left (done (none, t)) = elim (inode_of 1 t.rest) [ none ↦ 0 | some x ↦ x.rf_linkcount ]
links_left run = 9

unlinks_file : links_left (ramfs_unlink sz mem match 0 ab 2 small) ≡ 1
unfolding ramfs_unlink ramfs_lookup find_slot match take vget drop_link clear_entry vput vput_vnode
    drop_vnode ramfs_delete_vnode ramfs_query_vnode
unlinks_file = refl
