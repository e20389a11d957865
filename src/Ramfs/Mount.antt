-- ===== src/Ramfs/Mount.antt =====
-- The file system that `ramfs_mount` of kernel/fs/ramfs/ramfs.c starts with.
use cs402_os.Base.{
  ℕ, zero, suc, ◌+◌, ◌≤◌, ◌≡◌, refl, Bool, true, false, Option, none, some, List, [], ◌∷◌,
  get_elem?, set, arith, ◌∙◌, ap, sym, Bool-cases, inl, inr, ◌⊎◌, Exec, done,
}
use cs402_os.Ramfs.Vnodes.{dir_file}
use cs402_os.Ramfs.Inode.{
  Dirent, Inode, Sizes, Allocators, got, nothing, inode_of, join, copies, first_free,
}
use cs402_os.Ramfs.Ops.{
  RamErr, enomem, enospc, blank, with_dots, dots, allocate, ramfs_alloc_inode, install,
}
use cs402_os.Ramfs.Links.{count, total, at, no_extra, IsSafe, refs}
use cs402_os.Ramfs.Steps.{S, vget_lem}
use cs402_os.Ramfs.Alloc.{count-set-le, count-blank}
use cs402_os.Ramfs.Data.{ramfs_mount}

get_elem?-copies : (n i : ℕ) → join (get_elem? (copies {A = Option Inode} n none) i) ≡ none
unfolding copies
get_elem?-copies zero i = refl
get_elem?-copies (suc n) zero = refl
get_elem?-copies (suc n) (suc i) = get_elem?-copies n i

total-copies : (i n : ℕ) → total i (copies n none) ≡ 0
unfolding copies total
total-copies i zero = refl
total-copies i (suc n) = omega (arith, total-copies i n)

module _ {M : Type 0} (sz : Sizes) (mem : Allocators M)
    (name_match : List ℕ → List ℕ → ℕ → Bool) where
  -- A file system without vnodes in use.
  abbrev unused : List (Option Inode) → M → S sz mem name_match
  unused l h = record { inuse = λ v. none; rest = record { rfs_inodes = l; heap = h } }

  root-IsSafe :
      (n : ℕ) (y : Inode) (h : M)
      → y.rf_ino ≡ 0
      → y.rf_linkcount ≡ 1
      → ((i : ℕ) → count i y.entries ≡ 0)
      → IsSafe no_extra no_extra (unused (some y ∷ copies n none) h)
  unfolding total
  root-IsSafe n y h ino links bare = record {
    numbered = λ i x e. number i x e;
    linked = λ i. link i;
    held = λ v z e. absurd (ground (arith, e));
    modes = λ v z x e f. absurd (ground (arith, e));
  }
    where
      number :
          (i : ℕ) (x : Inode)
          → inode_of i (unused (some y ∷ copies n none) h).rest ≡ some x
          → x.rf_ino ≡ i
      number zero x e =
          ap (λ (o : Option Inode). elim o [ none ↦ 0 | some w ↦ w.rf_ino ]) (sym e) ∙ ino
      number (suc i) x e = absurd (ground (arith, e, get_elem?-copies n i))

      link :
          (i : ℕ)
          → total i (some y ∷ copies n none) + 0 + at 0 i + 0
            ≤ elim (inode_of i (unused (some y ∷ copies n none) h).rest) [
              | none ↦ 0
              | some x ↦ x.rf_linkcount
            ]
              + 0
      link zero = omega (arith, bare 0, links, total-copies 0 n)
      link (suc i) = grind (arith, bare (suc i), total-copies (suc i) n)

  -- The new file system: its root is in use, once.
  abbrev Mounts : Exec (RamErr ⊎ S sz mem name_match) → Type 0
  Mounts run =
      ((e : RamErr) × (run ≡ done (inl e)))
      ⊎ ((t : S sz mem name_match) × (run ≡ done (inr t))
          × IsSafe no_extra no_extra t
          × ((u : ℕ) → refs (t.inuse u) ≡ at 0 u))

  table-copies : (n m : ℕ) → n ≡ suc m → copies {A = Option Inode} n none ≡ none ∷ copies m none
  unfolding copies
  table-copies zero m e = absurd (omega (arith, e))
  table-copies (suc n) m e = ap (λ (k : ℕ). copies (suc k) none) (omega (arith, e))

  -- The first inode of a table, if there is memory for it.
  Allocated : List (Option Inode) → M → Type 0
  Allocated later h =
      ((t : S sz mem name_match) × (allocate sz mem name_match dir_file 0 (unused (none ∷ later) h)
          ≡ nothing t))
      ⊎ ((k : M) × (allocate sz mem name_match dir_file 0 (unused (none ∷ later) h)
            ≡ got 0 (unused (some (blank sz mem name_match dir_file 0 0) ∷ later) k)))

  allocate_first : (later : List (Option Inode)) (h : M) → Allocated later h
  unfolding Allocated allocate ramfs_alloc_inode install first_free
  allocate_first later h =
      let k = mem.kmalloc h in
      let p = mem.page_alloc k.1 in
      elim (Bool-cases k.0) [
        | inr out ↦ inl (unused (none ∷ later) k.1, ground (arith, out))
        | inl given ↦ elim (Bool-cases p.0) [
          | inl page ↦ inr (p.1, ground (arith, given, page))
          | inr out ↦ inl (unused (none ∷ later) (mem.kfree p.1), ground (arith, given, out))
        ]
      ]

  no_table :
      (h : M)
      → sz.max_files ≡ 0
      → allocate sz mem name_match dir_file 0 (unused (copies sz.max_files none) h)
        ≡ nothing (unused (copies sz.max_files none) h)
  unfolding allocate ramfs_alloc_inode first_free copies
  no_table h e = ground (arith, ap (λ (n : ℕ). first_free (copies n none)) e)

  bare_root :
      (i : ℕ)
      → count i (with_dots sz mem name_match 0 0 (blank sz mem name_match dir_file 0 0)).entries ≡ 0
  bare_root i =
      let es = (blank sz mem name_match dir_file 0 0).entries in
      let e : Dirent = record { rd_ino = 0; rd_name = 46 ∷ [] } in
      let f : Dirent = record { rd_ino = 0; rd_name = dots } in
      ground (
        arith,
        count-blank sz mem name_match dir_file 0 0 i,
        count-set-le i es 0 e refl,
        count-set-le i (set es 0 e) 1 f refl,
      )

  with_root :
      (n : ℕ) (h : M)
      → (mem.kmalloc h).0 ≡ true
      → sz.max_files ≡ suc n
      → Allocated (copies n none) (mem.kmalloc h).1
      → Mounts (ramfs_mount sz mem name_match h)
  unfolding ramfs_mount Allocated
  with_root n h given e (inl (t, out)) =
      let start : allocate sz mem name_match dir_file 0
            (unused (copies sz.max_files none) (mem.kmalloc h).1)
          ≡ nothing t =
        ap
          (λ (l : List (Option Inode)).
            allocate sz mem name_match dir_file 0 (unused l (mem.kmalloc h).1))
          (table-copies sz.max_files n e)
        ∙ out in
      inl (enospc, ground (arith, given, start))
  with_root n h given e (inr (k, in_it)) =
      let x = blank sz mem name_match dir_file 0 0 in
      let y = with_dots sz mem name_match 0 0 x in
      let s = unused (some y ∷ copies n none) k in
      let start : allocate sz mem name_match dir_file 0
            (unused (copies sz.max_files none) (mem.kmalloc h).1)
          ≡ got 0 (unused (some x ∷ copies n none) k) =
        ap
          (λ (l : List (Option Inode)).
            allocate sz mem name_match dir_file 0 (unused l (mem.kmalloc h).1))
          (table-copies sz.max_files n e)
        ∙ in_it in
      let safe = root-IsSafe n y k refl refl (λ i. bare_root i) in
      let (t, got_it, safe', kept, more) =
        vget_lem sz mem name_match no_extra no_extra 0 y s safe refl in
      inr (t, ground (arith, given, start, got_it), safe', λ u. ground (arith, more u))

  -- `ramfs_mount` fails no assertion and returns an error or a file system where link counts are safe
  -- and the only reference to a vnode is one to the root.
  pub ramfs_mount_lem : (h : M) → Mounts (ramfs_mount sz mem name_match h)
  unfolding ramfs_mount
  ramfs_mount_lem h = elim (Bool-cases (mem.kmalloc h).0) [
    | inr out ↦ inl (enomem, no_memory h out)
    | inl given ↦ with_size sz.max_files h given refl
  ]
    where
      no_memory :
          (h : M) → (mem.kmalloc h).0 ≡ false → ramfs_mount sz mem name_match h ≡ done (inl enomem)
      no_memory h out = ground (arith, out)

      with_size :
          (n : ℕ) (h : M)
          → (mem.kmalloc h).0 ≡ true
          → sz.max_files ≡ n
          → Mounts (ramfs_mount sz mem name_match h)
      with_size zero h given e = inl (enospc, ground (arith, given, no_table (mem.kmalloc h).1 e))
      with_size (suc n) h given e =
          with_root n h given e (allocate_first (copies n none) (mem.kmalloc h).1)
