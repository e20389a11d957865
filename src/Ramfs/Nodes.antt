-- ===== src/Ramfs/Nodes.antt =====
-- Link counts in `ramfs_mknod`, `ramfs_mkdir` and `ramfs_link` of kernel/fs/ramfs/ramfs.c.
use cs402_os.Base.{
  ℕ, ◌+◌, ◌<◌, ◌≡◌, refl, Bool, false, Option, none, some, List, [], ◌∷◌, ◌==◌, if◌then◌else◌, set,
  arith, ◌∙◌, ap, Option-cases, inl, inr, Exec, done,
}
use cs402_os.Ramfs.Vnodes.{FileType, dir_file, Vnode}
use cs402_os.Ramfs.Inode.{Inode, Sizes, Allocators, inode_of, free_slot, find_slot}
use cs402_os.Ramfs.Ops.{
  RamErr, enospc, has_page, blank, set_file, ramfs_mknod, ramfs_link, ramfs_mkdir, add_links,
  with_dots, dots,
}
use cs402_os.Ramfs.Links.{at, inode_of-set, no_extra, IsSafe, refs, used-inode}
use cs402_os.Ramfs.Steps.{S, set_file_lem}
use cs402_os.Ramfs.Alloc.{count-set-le, Allocates, allocate_lem}
use cs402_os.Ramfs.Create.{with_entry, set_entry_runs, set_entry_lem, find_space_lem}

module _ {M : Type 0} (sz : Sizes) (mem : Allocators M)
    (name_match : List ℕ → List ℕ → ℕ → Bool) where
  -- A run that ends, with safe link counts and the references that there were.
  abbrev pub Ends : S sz mem name_match → Exec (Option RamErr × S sz mem name_match) → Type 0
  Ends s run =
      (r : Option RamErr) × (t : S sz mem name_match) × (run ≡ done (r, t))
      × IsSafe no_extra no_extra t
      × ((u : ℕ) → refs (t.inuse u) ≡ refs (s.inuse u))

  same_refs :
      (s t : S sz mem name_match)
      → t.inuse ≡ s.inuse
      → (u : ℕ) → refs (t.inuse u) ≡ refs (s.inuse u)
  same_refs s t same u = ap (λ (f : ℕ → Option Vnode). refs (f u)) same

  -- A write of an inode leaves the others, and itself in another form.
  written :
      (v u : ℕ) (x y z : Inode) (s : S sz mem name_match)
      → inode_of v s.rest ≡ some x
      → inode_of u s.rest ≡ some z
      → inode_of u (set_file sz mem name_match v y s).rest ≡ (if v == u then some y else some z)
  written v u x y z s at_v at_u = inode_of-set s.rest v x at_v (some y) u ∙ ground (arith, at_u)

  module _ (dir len : ℕ) (name : List ℕ) (d : Inode) (s : S sz mem name_match)
      (safe : IsSafe no_extra no_extra s) (there : inode_of dir s.rest ≡ some d)
      (missing : find_slot name_match name len d.entries ≡ none) where
    made_node :
        (type : FileType) (devid k : ℕ)
        → has_page type ≡ false
        → free_slot d.entries ≡ some k
        → Allocates sz mem name_match type devid s
        → Ends s (ramfs_mknod sz mem name_match dir name len type devid s)
    unfolding ramfs_mknod
    made_node type devid k device free (inl (t, e, safe', same)) = (
      some enospc,
      t,
      ground
          (arith, find_space_lem sz mem name_match dir len name d s there missing, free, device, e),
      safe',
      same_refs s t same,
    )
    made_node type devid k device free (inr (ino, t, e, safe', same, fresh, is_blank, kept)) =
        let (d1, there1, same1, mode1) = kept dir d there in
        let free1 : free_slot d1.entries ≡ some k = rw same1 free in
        (
          none,
          set_file sz mem name_match dir (with_entry sz mem name_match k ino name len d1) t,
          ground (
            arith,
            find_space_lem sz mem name_match dir len name d s there missing,
            free,
            device,
            e,
            set_entry_runs sz mem name_match dir k ino len name d1 t there1,
          ),
          set_entry_lem sz mem name_match (at ino) no_extra no_extra dir k ino len name d1 t safe'
              there1 free1 (λ i. omega arith),
          same_refs s t same,
        )

    full_node :
        (type : FileType) (devid : ℕ)
        → free_slot d.entries ≡ none
        → Ends s (ramfs_mknod sz mem name_match dir name len type devid s)
    unfolding ramfs_mknod
    full_node type devid full = (
      some enospc,
      s,
      ground (arith, find_space_lem sz mem name_match dir len name d s there missing, full),
      safe,
      λ u. refl,
    )

    ramfs_mknod_lem :
        (type : FileType) (devid : ℕ)
        → has_page type ≡ false
        → Ends s (ramfs_mknod sz mem name_match dir name len type devid s)
    ramfs_mknod_lem type devid device = elim (Option-cases (free_slot d.entries)) [
      | inl full ↦ full_node type devid full
      | inr (k, free) ↦
          made_node type devid k device free (allocate_lem sz mem name_match type devid s safe)
    ]

    -- The new directory gets its two entries.
    dotted_lem :
        (ino : ℕ) (y : Inode) (t : S sz mem name_match)
        → IsSafe no_extra no_extra t
        → inode_of ino t.rest ≡ some y
        → IsSafe no_extra no_extra
            (set_file sz mem name_match ino (with_dots sz mem name_match ino dir y) t)
    dotted_lem ino y t safe' at_ino =
        set_file_lem sz mem name_match no_extra no_extra no_extra no_extra ino y
          (with_dots sz mem name_match ino dir y) t safe' at_ino refl refl
          (λ i. ground (
            arith,
            count-set-le i y.entries 0 (record { rd_ino = ino; rd_name = 46 ∷ [] }) refl,
            count-set-le i (set y.entries 0 (record { rd_ino = ino; rd_name = 46 ∷ [] })) 1
                (record { rd_ino = dir; rd_name = dots }) refl,
          ))

    made_dir :
        (k : ℕ)
        → free_slot d.entries ≡ some k
        → Allocates sz mem name_match dir_file 0 s
        → Ends s (ramfs_mkdir sz mem name_match dir name len s)
    unfolding ramfs_mkdir
    made_dir k free (inl (t, e, safe', same)) = (
      some enospc,
      t,
      ground (arith, find_space_lem sz mem name_match dir len name d s there missing, free, e),
      safe',
      same_refs s t same,
    )
    made_dir k free (inr (ino, t, e, safe', same, fresh, is_blank, kept)) =
        let (d1, there1, same1, mode1) = kept dir d there in
        let free1 : free_slot d1.entries ≡ some k = rw same1 free in
        let d2 = with_entry sz mem name_match k ino name len d1 in
        let t1 = set_file sz mem name_match dir d2 t in
        let safe1 =
          set_entry_lem sz mem name_match (at ino) no_extra no_extra dir k ino len name d1 t safe'
            there1 free1 (λ i. omega arith) in
        let y = blank sz mem name_match dir_file 0 ino in
        let other : (dir == ino) ≡ false =
          ground (arith, fresh, there, ap (λ (i : ℕ). inode_of i s.rest)) in
        let at_ino : inode_of ino t1.rest ≡ some y =
          written dir ino d1 d2 y t there1 is_blank ∙ rw other refl in
        (
          none,
          set_file sz mem name_match ino (with_dots sz mem name_match ino dir y) t1,
          ground (
            arith,
            find_space_lem sz mem name_match dir len name d s there missing,
            free,
            e,
            set_entry_runs sz mem name_match dir k ino len name d1 t there1,
            at_ino,
          ),
          dotted_lem ino y t1 safe1 at_ino,
          same_refs s t same,
        )

    full_dir : free_slot d.entries ≡ none → Ends s (ramfs_mkdir sz mem name_match dir name len s)
    unfolding ramfs_mkdir
    full_dir full = (
      some enospc,
      s,
      ground (arith, find_space_lem sz mem name_match dir len name d s there missing, full),
      safe,
      λ u. refl,
    )

    ramfs_mkdir_lem : Ends s (ramfs_mkdir sz mem name_match dir name len s)
    ramfs_mkdir_lem = elim (Option-cases (free_slot d.entries)) [
      | inl full ↦ full_dir full
      | inr (k, free) ↦ made_dir k free (allocate_lem sz mem name_match dir_file 0 s safe)
    ]

    linked_lem :
        (old k : ℕ) (x : Inode)
        → inode_of old s.rest ≡ some x
        → free_slot d.entries ≡ some k
        → Ends s (ramfs_link sz mem name_match old dir name len s)
    unfolding ramfs_link add_links
    linked_lem old k x at_old free =
        let d1 = with_entry sz mem name_match k old name len d in
        let t = set_file sz mem name_match dir d1 s in
        let safe1 =
          set_entry_lem sz mem name_match no_extra no_extra (at old) dir k old len name d s safe
            there free (λ i. omega arith) in
        let y = if dir == old then d1 else x in
        let at_y : inode_of old t.rest ≡ some y =
          written dir old d d1 x s there at_old ∙ ground arith in
        (
          none,
          set_file sz mem name_match old (record y { rf_linkcount = y.rf_linkcount + 1 }) t,
          ground (
            arith,
            find_space_lem sz mem name_match dir len name d s there missing,
            free,
            set_entry_runs sz mem name_match dir k old len name d s there,
            at_y,
          ),
          set_file_lem sz mem name_match no_extra (at old) no_extra no_extra old y
              (record y { rf_linkcount = y.rf_linkcount + 1 }) t safe1 at_y refl refl
              (λ i. ground arith),
          λ u. refl,
        )

    ramfs_link_lem :
        (old : ℕ)
        → 0 < refs (s.inuse old)
        → Ends s (ramfs_link sz mem name_match old dir name len s)
    unfolding ramfs_link
    ramfs_link_lem old held = elim (Option-cases (free_slot d.entries)) [
      | inl full ↦ (
        some enospc,
        s,
        ground (arith, find_space_lem sz mem name_match dir len name d s there missing, full),
        safe,
        λ u. refl,
      )
      | inr (k, free) ↦
          let (x, at_old, some_links) =
            used-inode s no_extra no_extra old safe refl (ground (arith, held)) in
          linked_lem old k x at_old free
    ]

    -- Where link counts are safe and the directory does not have the name, `ramfs_mknod` of a device,
    -- `ramfs_mkdir`, and `ramfs_link` to a vnode in use fail no assertion. They return with link counts
    -- that are safe and with the references to vnodes that there were.
    pub ramfs_adds_lem :
        (type : FileType) (devid old : ℕ)
        → has_page type ≡ false
        → 0 < refs (s.inuse old)
        → Ends s (ramfs_mknod sz mem name_match dir name len type devid s)
          × Ends s (ramfs_mkdir sz mem name_match dir name len s)
          × Ends s (ramfs_link sz mem name_match old dir name len s)
    ramfs_adds_lem type devid old device held =
        (ramfs_mknod_lem type devid device, ramfs_mkdir_lem, ramfs_link_lem old held)
