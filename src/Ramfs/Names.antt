-- ===== src/Ramfs/Names.antt =====
-- `ramfs_create` with a `ramfs_lookup` behind it: kernel/fs/ramfs/ramfs.c.
use cs402_os.Base.{
  ℕ, zero, suc, ◌+◌, ◌-◌, ◌<◌, ◌≡◌, refl, Bool, true, none, some, List, [], ◌∷◌, min, get_elem?,
  set, arith, ap, Option-cases, Bool-cases, inl, inr, ◌⊎◌, done,
}
use cs402_os.Ramfs.Inode.{Dirent, Inode, Sizes, Allocators, inode_of, behind, take, find_slot}
use cs402_os.Ramfs.Ops.{RamErr, Made, made, fails, ramfs_create, ramfs_lookup}
use cs402_os.Ramfs.Links.{at, no_extra, IsSafe, refs, used-inode}
use cs402_os.Ramfs.Steps.{S, free_slot_lem, vget_lem}
use cs402_os.Ramfs.Create.{new_entry, gains, Wrote, ramfs_create_lem}

-- An entry that matches, in a directory where none did.
find_slot-set :
    (name_match : List ℕ → List ℕ → ℕ → Bool) (name : List ℕ) (len : ℕ) (es : List Dirent) (k : ℕ)
    (e f : Dirent)
    → find_slot name_match name len es ≡ none
    → get_elem? es k ≡ some e
    → name_match f.rd_name name len ≡ true
    → (find_slot name_match name len (set es k f) ≡ some k) × (get_elem? (set es k f) k ≡ some f)
unfolding find_slot
find_slot-set name_match name len [] k e f missing there fits = cc
find_slot-set name_match name len (g ∷ later) zero e f missing there fits = (rw fits refl, refl)
find_slot-set name_match name len (g ∷ later) (suc k) e f missing there fits =
    elim (Bool-cases (name_match g.rd_name name len)) [
      | inl here ↦ absurd (ground (arith, missing, here))
      | inr other ↦
          let rest : find_slot name_match name len later ≡ none =
            elim (Option-cases (find_slot name_match name len later)) [
              | inl e ↦ e
              | inr (j, found) ↦ absurd (ground (arith, missing, other, found))
            ] in
          let (found, at_k) = find_slot-set name_match name len later k e f rest there fits in
          (rw other (ap behind found), at_k)
    ]

module _ {M : Type 0} (sz : Sizes) (mem : Allocators M) (name_match : List ℕ → List ℕ → ℕ → Bool)
    (matches : (f name : List ℕ) (len : ℕ) → f ≡ take len name → name_match f name len ≡ true) where
  stored-matches :
      (name : List ℕ) (len ino : ℕ)
      → len < sz.name_len
      → name_match (new_entry sz mem name_match ino name len).rd_name name len ≡ true
  stored-matches name len ino short =
      let whole : min len (sz.name_len - 1) ≡ len = omega arith in
      matches (take (min len (sz.name_len - 1)) name) name len (ap (λ (n : ℕ). take n name) whole)

  -- Where link counts are safe, `ramfs_create` of a name that the directory does not have, and that
  -- fits into an entry, fails no assertion. It returns an error and changes no reference count, or a
  -- new file with a reference to its vnode; and `ramfs_lookup` of the name then finds that file.
  -- Link counts stay safe.
  pub ramfs_create-lookup :
      (dir len : ℕ) (name : List ℕ) (d : Inode) (s : S sz mem name_match)
      → IsSafe no_extra no_extra s
      → inode_of dir s.rest ≡ some d
      → find_slot name_match name len d.entries ≡ none
      → len < sz.name_len
      → ((e : RamErr) × (t : S sz mem name_match) × (ramfs_create sz mem name_match dir name len s
            ≡ done (fails e, t))
          × IsSafe no_extra no_extra t
          × ((u : ℕ) → refs (t.inuse u) ≡ refs (s.inuse u)))
        ⊎ ((ino : ℕ) × (t t' : S sz mem name_match) × (ramfs_create sz mem name_match dir name len s
              ≡ done (made ino, t))
            × IsSafe no_extra no_extra t
            × ((u : ℕ) → refs (t.inuse u) ≡ refs (s.inuse u) + at ino u)
            × (ramfs_lookup sz mem name_match dir name len t ≡ done (some ino, t')))
  unfolding ramfs_lookup
  ramfs_create-lookup dir len name d s safe there missing short =
      let (r, t, run, safe', more, wrote) =
        ramfs_create_lem sz mem name_match dir len name d s safe there missing in
      created r t run safe' more wrote
    where
      created :
          (r : Made sz mem name_match) (t : S sz mem name_match)
          → ramfs_create sz mem name_match dir name len s ≡ done (r, t)
          → IsSafe no_extra no_extra t
          → ((u : ℕ)
              → refs (t.inuse u)
                ≡ refs (s.inuse u)
                  + gains sz mem name_match dir len name d s safe there missing r u)
          → Wrote sz mem name_match dir len name d s safe there missing r t
          → ((e : RamErr) × (t : S sz mem name_match) × (ramfs_create sz mem name_match dir name len
                  s
                ≡ done (fails e, t))
              × IsSafe no_extra no_extra t
              × ((u : ℕ) → refs (t.inuse u) ≡ refs (s.inuse u)))
            ⊎ ((ino : ℕ) × (t t' : S sz mem name_match) × (ramfs_create sz mem name_match dir name
                    len s
                  ≡ done (made ino, t))
                × IsSafe no_extra no_extra t
                × ((u : ℕ) → refs (t.inuse u) ≡ refs (s.inuse u) + at ino u)
                × (ramfs_lookup sz mem name_match dir name len t ≡ done (some ino, t')))
      created (fails e) t run safe' more wrote = inl (e, t, run, safe', λ u. omega (arith, more u))
      created (made ino) t run safe' more (k, d', free, at_dir, es) =
          let (e, at_k, unnamed) = free_slot_lem d.entries k free in
          let (found, entry) =
            find_slot-set name_match name len d.entries k e
              (new_entry sz mem name_match ino name len) missing at_k
              (stored-matches name len ino short) in
          let (x, at_ino, linked) =
            used-inode t no_extra no_extra ino safe' refl (ground (arith, more ino)) in
          let (t', got_it, safe2, kept, again) =
            vget_lem sz mem name_match no_extra no_extra ino x t safe' at_ino in
          let found' : find_slot name_match name len d'.entries ≡ some k = rw es found in
          let entry' : get_elem? d'.entries k ≡ some (new_entry sz mem name_match ino name len) =
            rw es entry in
          inr (ino, t, t', run, safe', more, ground (arith, at_dir, found', entry', got_it))
