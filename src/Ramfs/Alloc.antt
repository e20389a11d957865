-- ===== src/Ramfs/Alloc.antt =====
-- Link counts in `ramfs_alloc_inode` of kernel/fs/ramfs/ramfs.c.
use cs402_os.Base.{
  ℕ, zero, suc, ◌≤◌, ◌≡◌, refl, Bool, Option, none, some, List, [], ◌∷◌, ◌==◌, set, arith, ◌∙◌, ap,
  sym, Option-cases, Bool-cases, inl, inr, ◌⊎◌,
}
use cs402_os.Ramfs.Vnodes.{FileType}
use cs402_os.Ramfs.Inode.{
  Dirent, Inode, Sizes, Allocators, nothing, got, inode_of, set_inode, first_free,
}
use cs402_os.Ramfs.Ops.{has_page, blank, install, ramfs_alloc_inode, allocate}
use cs402_os.Ramfs.Links.{
  at, one, count, inode_of-install, inode_of-free, total-install, no_extra, IsSafe,
}
use cs402_os.Ramfs.Steps.{S, Kept, set_or, count-copies}

-- An entry that names nothing adds nothing.
pub count-set-le :
    (i : ℕ) (es : List Dirent) (k : ℕ) (f : Dirent)
    → one i f ≡ 0
    → count i (set es k f) ≤ count i es
unfolding count
count-set-le i [] k f h = omega arith
count-set-le i (e ∷ later) zero f h = omega (arith, h)
count-set-le i (e ∷ later) (suc k) f h = omega (arith, count-set-le i later k f h)

module _ {M : Type 0} (sz : Sizes) (mem : Allocators M)
    (name_match : List ℕ → List ℕ → ℕ → Bool) where
  abbrev with_heap : M → S sz mem name_match → S sz mem name_match
  with_heap h s = record s { rest = record s.rest { heap = h } }

  abbrev installed : FileType → ℕ → ℕ → S sz mem name_match → S sz mem name_match
  installed type devid i s = record s {
    rest = set_inode i (some (blank sz mem name_match type devid i)) s.rest;
  }

  pub count-blank :
      (type : FileType) (devid i j : ℕ) → count j (blank sz mem name_match type devid i).entries ≡ 0
  unfolding count
  count-blank type devid i j = ground (arith, count-copies j sz.max_dirent)

  heap_lem :
      (extra debt : ℕ → ℕ) (h : M) (s : S sz mem name_match)
      → IsSafe extra debt s
      → IsSafe extra debt (with_heap h s)
  heap_lem extra debt h s safe = record {
    numbered = safe.numbered;
    linked = safe.linked;
    held = safe.held;
    modes = safe.modes;
  }

  install_lem :
      (type : FileType) (devid i : ℕ) (s : S sz mem name_match)
      → IsSafe no_extra no_extra s
      → first_free s.rest.rfs_inodes ≡ some i
      → IsSafe (at i) no_extra (installed type devid i s)
  install_lem type devid i s safe free =
      let x = blank sz mem name_match type devid i in
      record {
        numbered = λ j z e.
            elim (set_or i j (some x) (inode_of j s.rest) z
              (sym (inode_of-install s.rest i free x j) ∙ e)) [
                | inl (here, same) ↦
                    ap (λ (o : Option Inode). elim o [ none ↦ 0 | some w ↦ w.rf_ino ]) (sym same)
                    ∙ here
                | inr old ↦ safe.numbered j z old
              ];
        linked = λ j. ground (
          arith,
          inode_of-install s.rest i free x j,
          inode_of-free s.rest i free,
          total-install s.rest i free x j,
          count-blank type devid i j,
          safe.linked j,
        );
        held = safe.held;
        modes = λ u y z h e.
            elim (set_or i u (some x) (inode_of u s.rest) z
              (sym (inode_of-install s.rest i free x u) ∙ e)) [
                | inl (here, same) ↦
                    let h' : s.inuse i ≡ some y = rw here h in
                    absurd (ground (arith, inode_of-free s.rest i free, safe.linked i, h'))
                | inr old ↦ safe.modes u y z h old
              ];
      }

  install-Kept :
      (type : FileType) (devid i : ℕ) (s : S sz mem name_match)
      → first_free s.rest.rfs_inodes ≡ some i
      → Kept sz mem name_match s (installed type devid i s)
  install-Kept type devid i s free j z e = elim (Bool-cases (i == j)) [
    | inl here ↦
        let eq : i ≡ j = ground (arith, here) in
        let gone : inode_of j s.rest ≡ none = rw (← eq) (inode_of-free s.rest i free) in
        absurd (ground (arith, gone, e))
    | inr other ↦ (
      z,
      inode_of-install s.rest i free (blank sz mem name_match type devid i) j ∙ rw other e,
      refl,
      refl,
    )
  ]

  -- A new inode, or none.
  abbrev pub Allocates : FileType → ℕ → S sz mem name_match → Type 0
  Allocates type devid s =
      ((t : S sz mem name_match) × (allocate sz mem name_match type devid s ≡ nothing t)
        × IsSafe no_extra no_extra t
        × (t.inuse ≡ s.inuse))
      ⊎ ((ino : ℕ) × (t : S sz mem name_match) × (allocate sz mem name_match type devid s
            ≡ got ino t)
          × IsSafe (at ino) no_extra t
          × (t.inuse ≡ s.inuse)
          × (inode_of ino s.rest ≡ none)
          × (inode_of ino t.rest ≡ some (blank sz mem name_match type devid ino))
          × Kept sz mem name_match s t)

  installs :
      (type : FileType) (devid i : ℕ) (h : M) (s : S sz mem name_match)
      → IsSafe no_extra no_extra s
      → first_free s.rest.rfs_inodes ≡ some i
      → allocate sz mem name_match type devid s ≡ got i (installed type devid i (with_heap h s))
      → Allocates type devid s
  installs type devid i h s safe free e = inr (
    i,
    installed type devid i (with_heap h s),
    e,
    install_lem type devid i (with_heap h s) (heap_lem no_extra no_extra h s safe) free,
    refl,
    inode_of-free s.rest i free,
    inode_of-install s.rest i free (blank sz mem name_match type devid i) i ∙ ground arith,
    λ j z k. install-Kept type devid i (with_heap h s) free j z k,
  )

  pub allocate_lem :
      (type : FileType) (devid : ℕ) (s : S sz mem name_match)
      → IsSafe no_extra no_extra s
      → Allocates type devid s
  unfolding allocate ramfs_alloc_inode install
  allocate_lem type devid s safe = elim (Option-cases (first_free s.rest.rfs_inodes)) [
    | inl full ↦ inl (s, ground (arith, full), safe, refl)
    | inr (i, free) ↦
        let k = mem.kmalloc s.rest.heap in
        let p = mem.page_alloc k.1 in
        elim (Bool-cases k.0) [
          | inr out ↦ inl (
            with_heap k.1 s,
            ground (arith, free, out),
            heap_lem no_extra no_extra k.1 s safe,
            refl,
          )
          | inl given ↦ elim (Bool-cases (has_page type)) [
            | inr device ↦
                installs type devid i k.1 s safe free (ground (arith, free, given, device))
            | inl paged ↦ elim (Bool-cases p.0) [
              | inl page ↦
                  installs type devid i p.1 s safe free (ground (arith, free, given, paged, page))
              | inr out ↦ inl (
                with_heap (mem.kfree p.1) s,
                ground (arith, free, given, paged, out),
                heap_lem no_extra no_extra (mem.kfree p.1) s safe,
                refl,
              )
            ]
          ]
        ]
  ]
