-- ===== src/Ramfs/Removal.antt =====
-- Link counts in `ramfs_unlink` and `ramfs_rmdir` of kernel/fs/ramfs/ramfs.c, for names other than
-- `.` and `..`.
use cs402_os.Base.{
  Exec, ℕ, ◌+◌, ◌-◌, ◌≤◌, ◌<◌, ◌≡◌, refl, Bool, true, false, Option, none, some, List, [],
  get_elem?, set, arith, ◌∙◌, ap, sym, Option-cases, inl, inr, done,
}
use cs402_os.Ramfs.Vnodes.{FileType, vget}
use cs402_os.Ramfs.Inode.{Dirent, Inode, Sizes, Allocators, inode_of, find_slot}
use cs402_os.Ramfs.Ops.{RamErr, is_dir_file, set_file, ramfs_lookup}
use cs402_os.Ramfs.Links.{is_proper, at, count-set, no_extra, IsSafe, refs, used-inode}
use cs402_os.Ramfs.Steps.{FS, S, Kept, set_file_lem, vget_lem}
use cs402_os.Ramfs.Nodes.{Ends}
use cs402_os.Ramfs.Steps.{find_slot_lem, vput_lem}
use cs402_os.Ramfs.Ops.{
  mode_of, clear_entry, drop_link, ramfs_unlink, ramfs_rmdir, is_empty_dir, enoent, enotdir,
  enotempty,
}

module _ {M : Type 0} (sz : Sizes) (mem : Allocators M) (name_match : List ℕ → List ℕ → ℕ → Bool)
    (dir len : ℕ) (name : List ℕ)
    (proper : (e : Dirent)
      → name_match e.rd_name name len ≡ true
      → is_proper e.rd_name ≡ true) where
  lookup_runs :
      (d : Inode) (k : ℕ) (e : Dirent) (s t : S sz mem name_match)
      → inode_of dir s.rest ≡ some d
      → find_slot name_match name len d.entries ≡ some k
      → get_elem? d.entries k ≡ some e
      → vget (FS sz mem name_match) e.rd_ino s ≡ done t
      → ramfs_lookup sz mem name_match dir name len s ≡ done (some e.rd_ino, t)
  unfolding ramfs_lookup
  lookup_runs d k e s t there found at_k got_it = ground (arith, there, found, at_k, got_it)

  -- A run that ends in a given way, with safe link counts and the references that there were.
  abbrev EndsAs :
      S sz mem name_match → Exec (Option RamErr × S sz mem name_match) → Option RamErr → Type 0
  EndsAs s run r =
      (t : S sz mem name_match) × (run ≡ done (r, t))
      × IsSafe no_extra no_extra t
      × ((u : ℕ) → refs (t.inuse u) ≡ refs (s.inuse u))

  -- Why `ramfs_rmdir` ends as it does: there is no entry of the name, or the first one names an inode
  -- that is no directory, or one that is not empty, or one that is.
  abbrev pub Reason : Inode → S sz mem name_match → Option RamErr → Type 0
  Reason d s (some enoent) = find_slot name_match name len d.entries ≡ none
  Reason d s (some enotdir) =
      (k : ℕ) × (e : Dirent) × (x : Inode) × (find_slot name_match name len d.entries ≡ some k)
      × (get_elem? d.entries k ≡ some e)
      × (inode_of e.rd_ino s.rest ≡ some x)
      × (is_dir_file x.rf_mode ≡ false)
  Reason d s (some enotempty) =
      (k : ℕ) × (e : Dirent) × (x : Inode) × (find_slot name_match name len d.entries ≡ some k)
      × (get_elem? d.entries k ≡ some e)
      × (inode_of e.rd_ino s.rest ≡ some x)
      × (is_dir_file x.rf_mode ≡ true)
      × (is_empty_dir sz mem name_match x.entries ≡ false)
  Reason d s none =
      (k : ℕ) × (e : Dirent) × (x : Inode) × (find_slot name_match name len d.entries ≡ some k)
      × (get_elem? d.entries k ≡ some e)
      × (inode_of e.rd_ino s.rest ≡ some x)
      × (is_dir_file x.rf_mode ≡ true)
      × (is_empty_dir sz mem name_match x.entries ≡ true)
  Reason d s (some e) = 1 ≤ 0

  -- A run of `ramfs_rmdir` that ends with its reason.
  abbrev pub Removes : Inode → S sz mem name_match → Type 0
  Removes d s =
      (r : Option RamErr) × (t : S sz mem name_match) × (ramfs_rmdir sz mem name_match dir name len
          s
        ≡ done (r, t))
      × IsSafe no_extra no_extra t
      × ((u : ℕ) → refs (t.inuse u) ≡ refs (s.inuse u))
      × Reason d s r

  -- The end of `ramfs_unlink` and `ramfs_rmdir`, for an entry with a vnode in use.
  drop_link_lem :
      (d : Inode) (k : ℕ) (e : Dirent) (s : S sz mem name_match)
      → IsSafe no_extra no_extra s
      → inode_of dir s.rest ≡ some d
      → find_slot name_match name len d.entries ≡ some k
      → get_elem? d.entries k ≡ some e
      → is_proper e.rd_name ≡ true
      → 0 < refs (s.inuse e.rd_ino)
      → (t : S sz mem name_match) × (drop_link sz mem name_match e.rd_ino dir name len s
          ≡ done (none, t))
        × IsSafe no_extra no_extra t
        × ((u : ℕ) → refs (t.inuse u) + at e.rd_ino u ≡ refs (s.inuse u))
  unfolding drop_link clear_entry
  drop_link_lem d k e s safe there found at_k named held =
      let v = e.rd_ino in
      let gone : Dirent = record e { rd_name = [] } in
      let d1 = record d { entries = set d.entries k gone; rf_size = d.rf_size - sz.dirent_size } in
      let s1 = set_file sz mem name_match dir d1 s in
      let safe1 : IsSafe (at v) no_extra s1 =
        set_file_lem sz mem name_match no_extra no_extra (at v) no_extra dir d d1 s safe there refl
          refl (λ i. ground (arith, count-set i d.entries k e gone at_k, named)) in
      let (x, at_v, linked) = used-inode s1 (at v) no_extra v safe1 refl (ground (arith, held)) in
      let x1 = record x { rf_linkcount = x.rf_linkcount - 1 } in
      let s2 = set_file sz mem name_match v x1 s1 in
      let safe2 =
        set_file_lem sz mem name_match (at v) no_extra no_extra no_extra v x x1 s1 safe1 at_v refl
          refl (λ i. ground (arith, linked)) in
      let (t, put, safe', fewer) =
        vput_lem sz mem name_match no_extra v s2 safe2 (ground (arith, held)) in
      (t, ground (arith, there, found, at_k, at_v, put), safe', fewer)

  module _ (d : Inode) (k : ℕ) (e : Dirent) (x : Inode) (s : S sz mem name_match)
      (safe : IsSafe no_extra no_extra s) (there : inode_of dir s.rest ≡ some d)
      (found : find_slot name_match name len d.entries ≡ some k)
      (at_k : get_elem? d.entries k ≡ some e) (at_x : inode_of e.rd_ino s.rest ≡ some x) where
    -- The state behind the lookup, where the vnode is held.
    abbrev Looks : Type 0
    Looks =
        (t : S sz mem name_match) × (ramfs_lookup sz mem name_match dir name len s
          ≡ done (some e.rd_ino, t))
        × IsSafe no_extra no_extra t
        × Kept sz mem name_match s t
        × ((u : ℕ) → refs (t.inuse u) ≡ refs (s.inuse u) + at e.rd_ino u)

    looks : Looks
    looks =
        let (t, got_it, safe', kept, more) =
          vget_lem sz mem name_match no_extra no_extra e.rd_ino x s safe at_x in
        (t, lookup_runs d k e s t there found at_k got_it, safe', kept, more)

    mode_lem :
        (t : S sz mem name_match)
        → IsSafe no_extra no_extra t
        → Kept sz mem name_match s t
        → 0 < refs (t.inuse e.rd_ino)
        → mode_of sz mem name_match e.rd_ino t ≡ done x.rf_mode
    mode_lem t safe' kept held = elim (Option-cases (t.inuse e.rd_ino)) [
      | inl unused ↦ absurd (ground (arith, unused))
      | inr (y, used_y) ↦
          let (z, at_z, same, mode) = kept e.rd_ino x at_x in
          let eq : y.vn_mode ≡ x.rf_mode = safe'.modes e.rd_ino y z used_y at_z ∙ mode in
          rw (used_y, mode_of) (ap (λ (m : FileType). done m) eq)
    ]

    -- Both operations, when they have found the entry and drop it.
    dropped :
        (t : S sz mem name_match)
        → IsSafe no_extra no_extra t
        → Kept sz mem name_match s t
        → ((u : ℕ) → refs (t.inuse u) ≡ refs (s.inuse u) + at e.rd_ino u)
        → EndsAs s (drop_link sz mem name_match e.rd_ino dir name len t) none
    dropped t safe' kept more =
        let (d1, there1, same, mode) = kept dir d there in
        let (e', at_e, fits) = find_slot_lem name_match name len d.entries k found in
        let is_e : some e ≡ some e' = sym at_k ∙ at_e in
        let named : is_proper e.rd_name ≡ true = proper e (
          ap
            (λ (o : Option Dirent). elim o [
              | none ↦ false
              | some f ↦ name_match f.rd_name name len
            ])
            is_e
          ∙ fits) in
        let (u, run, safe2, fewer) =
          drop_link_lem d1 k e t safe' there1 (rw same found) (rw same at_k) named
            (ground (arith, more e.rd_ino)) in
        (u, run, safe2, λ i. omega (arith, fewer i, more i))

    -- For a name that only entries with names other than `.` and `..` match, and an entry of that name
    -- that names a file which is no directory, `ramfs_unlink` fails no assertion where link counts are
    -- safe. It returns with link counts that are safe and with the references that there were.
    pub ramfs_unlink_lem :
        is_dir_file x.rf_mode ≡ false
        → Ends sz mem name_match s (ramfs_unlink sz mem name_match dir name len s)
    unfolding ramfs_unlink
    ramfs_unlink_lem plain =
        let (t, run, safe', kept, more) = looks in
        let mode = mode_lem t safe' kept (ground (arith, more e.rd_ino)) in
        let (u, ends, safe2, same) = dropped t safe' kept more in
        (none, u, ground (arith, run, mode, plain, ends), safe2, same)
