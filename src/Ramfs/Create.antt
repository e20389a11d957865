-- ===== src/Ramfs/Create.antt =====
-- Link counts in `ramfs_create` of kernel/fs/ramfs/ramfs.c, and in the new entry that the operations
-- that add a name have in common.
use cs402_os.Base.{
  ℕ, ◌+◌, ◌-◌, ◌≤◌, ◌≡◌, refl, Bool, Option, none, some, List, min, set, arith, ◌∙◌, ap,
  Option-cases, inl, inr, done,
}
use cs402_os.Ramfs.Vnodes.{data_file, Vnode}
use cs402_os.Ramfs.Inode.{Dirent, Inode, Sizes, Allocators, inode_of, free_slot, take, find_slot}
use cs402_os.Ramfs.Ops.{
  enospc, blank, set_file, set_entry, ramfs_lookup, find_space, Made, made, fails, ramfs_create,
}
use cs402_os.Ramfs.Links.{at, count-set, inode_of-set, no_extra, IsSafe, refs}
use cs402_os.Ramfs.Steps.{S, free_slot_lem, set_file_lem, vget_lem}
use cs402_os.Ramfs.Alloc.{Allocates, allocate_lem}

module _ {M : Type 0} (sz : Sizes) (mem : Allocators M)
    (name_match : List ℕ → List ℕ → ℕ → Bool) where
  -- The entry that is set, and the directory with it.
  abbrev pub new_entry : ℕ → List ℕ → ℕ → Dirent
  new_entry ino name len = record { rd_ino = ino; rd_name = take (min len (sz.name_len - 1)) name }

  abbrev pub with_entry : ℕ → ℕ → List ℕ → ℕ → Inode → Inode
  with_entry k ino name len d = record d {
    entries = set d.entries k (new_entry ino name len);
    rf_size = d.rf_size + sz.dirent_size;
  }

  pub set_entry_runs :
      (dir k ino len : ℕ) (name : List ℕ) (d : Inode) (s : S sz mem name_match)
      → inode_of dir s.rest ≡ some d
      → set_entry sz mem name_match dir k ino name len s
        ≡ done (set_file sz mem name_match dir (with_entry k ino name len d) s)
  unfolding set_entry
  set_entry_runs dir k ino len name d s there = ground (arith, there)

  pub set_entry_lem :
      (extra extra' debt' : ℕ → ℕ) (dir k ino len : ℕ) (name : List ℕ) (d : Inode)
      (s : S sz mem name_match)
      → IsSafe extra no_extra s
      → inode_of dir s.rest ≡ some d
      → free_slot d.entries ≡ some k
      → ((i : ℕ) → at ino i + extra' i ≤ extra i + debt' i)
      → IsSafe extra' debt' (set_file sz mem name_match dir (with_entry k ino name len d) s)
  set_entry_lem extra extra' debt' dir k ino len name d s safe there free order =
      let (e, at_k, none_named) = free_slot_lem d.entries k free in
      set_file_lem sz mem name_match extra no_extra extra' debt' dir d (with_entry k ino name len d)
        s safe there refl refl
        (λ i.
          ground
            (arith, count-set i d.entries k e (new_entry ino name len) at_k, none_named i, order i))

  pub find_space_lem :
      (dir len : ℕ) (name : List ℕ) (d : Inode) (s : S sz mem name_match)
      → inode_of dir s.rest ≡ some d
      → find_slot name_match name len d.entries ≡ none
      → find_space sz mem name_match dir name len s ≡ done (free_slot d.entries, s)
  unfolding find_space ramfs_lookup
  find_space_lem dir len name d s there missing = ground (arith, there, missing)

  module _ (dir len : ℕ) (name : List ℕ) (d : Inode) (s : S sz mem name_match)
      (safe : IsSafe no_extra no_extra s) (there : inode_of dir s.rest ≡ some d)
      (missing : find_slot name_match name len d.entries ≡ none) where
    -- The reference to the vnode of a new file.
    abbrev pub gains : Made sz mem name_match → ℕ → ℕ
    gains (made v) u = at v u
    gains (fails e) u = 0

    -- What a new file changes in the directory.
    abbrev pub Wrote : Made sz mem name_match → S sz mem name_match → Type 0
    Wrote (made ino) t =
        (k : ℕ) × (d' : Inode) × (free_slot d.entries ≡ some k)
        × (inode_of dir t.rest ≡ some d')
        × (d'.entries ≡ set d.entries k (new_entry ino name len))
    Wrote (fails e) t = 0 ≤ 0

    -- How `ramfs_create` ends.
    abbrev pub Creates : Type 0
    Creates =
        (r : Made sz mem name_match) × (t : S sz mem name_match) × (ramfs_create sz mem name_match
            dir name len s
          ≡ done (r, t))
        × IsSafe no_extra no_extra t
        × ((u : ℕ) → refs (t.inuse u) ≡ refs (s.inuse u) + gains r u)
        × Wrote r t

    full_lem : free_slot d.entries ≡ none → Creates
    unfolding ramfs_create
    full_lem full = (
      fails enospc,
      s,
      rw (find_space_lem dir len name d s there missing) (rw full refl),
      safe,
      λ u. omega arith,
      omega arith,
    )

    created :
        (k : ℕ) → free_slot d.entries ≡ some k → Allocates sz mem name_match data_file 0 s → Creates
    unfolding ramfs_create
    created k free (inl (t, e, safe', same)) = (
      fails enospc,
      t,
      ground (arith, find_space_lem dir len name d s there missing, free, e),
      safe',
      λ u. ground (arith, ap (λ (f : ℕ → Option Vnode). refs (f u)) same),
      omega arith,
    )
    created k free (inr (ino, t, e, safe', same, fresh, is_blank, kept)) =
        let (t1, got_it, safe1, kept1, more) =
          vget_lem sz mem name_match (at ino) no_extra ino (blank sz mem name_match data_file 0 ino)
            t safe' is_blank in
        let (d1, there1, same1, mode1) = kept dir d there in
        let (d2, there2, same2, mode2) = kept1 dir d1 there1 in
        let free2 : free_slot d2.entries ≡ some k = rw (same2 ∙ same1) free in
        (
          made ino,
          set_file sz mem name_match dir (with_entry k ino name len d2) t1,
          ground (
            arith,
            find_space_lem dir len name d s there missing,
            free,
            e,
            got_it,
            set_entry_runs dir k ino len name d2 t1 there2,
          ),
          set_entry_lem (at ino) no_extra no_extra dir k ino len name d2 t1 safe1 there2 free2
              (λ i. omega arith),
          λ u. more u ∙ ap (λ (f : ℕ → Option Vnode). refs (f u) + at ino u) same,
          (
            k,
            with_entry k ino name len d2,
            free,
            inode_of-set t1.rest dir d2 there2 (some (with_entry k ino name len d2)) dir
                ∙ ground arith,
            ap (λ (es : List Dirent). set es k (new_entry ino name len)) (same2 ∙ same1),
          ),
        )

    pub ramfs_create_lem : Creates
    ramfs_create_lem = elim (Option-cases (free_slot d.entries)) [
      | inl full ↦ full_lem full
      | inr (k, free) ↦ created k free (allocate_lem sz mem name_match data_file 0 s safe)
    ]
