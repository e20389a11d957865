-- ===== src/Ramfs/Listing.antt =====
-- What `ramfs_readdir` of kernel/fs/ramfs/ramfs.c returns.
use cs402_os.Base.{
  ℕ, zero, suc, ◌+◌, ◌-◌, ◌*◌, ◌≤◌, ◌<◌, ◌≡◌, refl, Bool, true, false, Option, none, some, List, [],
  ◌∷◌, get_elem?, arith, ◌∙◌, ap, sym, Bool-cases, inl, inr, ◌⊎◌, done,
}
use native.Mathlib.Nat.{suc-mul, mul-div_cancel, mul-mod_left}
use cs402_os.Ramfs.Vnodes.{Vnode}
use cs402_os.Ramfs.Inode.{Dirent, Inode, Sizes, Allocators, inode_of, is_named, take}
use cs402_os.Ramfs.Ops.{is_dir_file, State}
use cs402_os.Ramfs.Data.{drop, skip_one, next_named, ramfs_readdir}

get_elem?-drop : (k i : ℕ) (es : List Dirent) → get_elem? (drop k es) i ≡ get_elem? es (k + i)
unfolding drop
get_elem?-drop zero i es = ap (λ (n : ℕ). get_elem? es n) {x = i} (omega arith)
get_elem?-drop (suc k) i [] = ground arith
get_elem?-drop (suc k) i (e ∷ es) =
    get_elem?-drop k i es ∙ ap (λ (n : ℕ). get_elem? (e ∷ es) n) {x = suc (k + i)} (omega arith)

-- The first entry with a name, or that there is none.
First : List Dirent → Option (ℕ × Dirent) → Type 0
First es none = (i : ℕ) (f : Dirent) → get_elem? es i ≡ some f → is_named f.rd_name ≡ false
First es (some r) =
    (get_elem? es r.0 ≡ some r.1)
    × (is_named r.1.rd_name ≡ true)
    × ((i : ℕ) (f : Dirent) → i < r.0 → get_elem? es i ≡ some f → is_named f.rd_name ≡ false)

First-skip :
    (e : Dirent) (es : List Dirent) (r : Option (ℕ × Dirent))
    → is_named e.rd_name ≡ false
    → First es r
    → First (e ∷ es) (skip_one r)
unfolding First
First-skip e es none unnamed rest = none_named
  where
    none_named : (i : ℕ) (f : Dirent) → get_elem? (e ∷ es) i ≡ some f → is_named f.rd_name ≡ false
    none_named zero f at_i =
        sym (ap (λ (o : Option Dirent). elim o [ none ↦ false | some g ↦ is_named g.rd_name ]) at_i)
        ∙ unnamed
    none_named (suc i) f at_i = rest i f at_i
First-skip e es (some r) unnamed (at_r, named, before) = (at_r, named, none_before)
  where
    none_before :
        (i : ℕ) (f : Dirent)
        → i < suc r.0
        → get_elem? (e ∷ es) i ≡ some f
        → is_named f.rd_name ≡ false
    none_before zero f lt at_i =
        sym (ap (λ (o : Option Dirent). elim o [ none ↦ false | some g ↦ is_named g.rd_name ]) at_i)
        ∙ unnamed
    none_before (suc i) f lt at_i = before i f (omega (arith, lt)) at_i

next_named-First : (es : List Dirent) → First es (next_named es)
unfolding First next_named
next_named-First [] = λ i f h. cc
next_named-First (e ∷ es) = elim (Bool-cases (is_named e.rd_name)) [
  | inl named ↦ rw named (refl, named, λ i f lt h. absurd (omega (arith, lt)))
  | inr unnamed ↦ rw unnamed (First-skip e es (next_named es) unnamed (next_named-First es))
]

module _ {M : Type 0} (sz : Sizes) (mem : Allocators M) (name_match : List ℕ → List ℕ → ℕ → Bool)
    (dir k : ℕ) (d : Inode) (v : Vnode) (s : State {M = M} sz mem name_match) where
  -- At the offset of the entry `k`, `ramfs_readdir` of a directory in use returns 0 where no entry from
  -- `k` on has a name. Otherwise it returns the distance to the end of the first that has one, which
  -- it fills in, with as many characters as a name may have.
  pub ramfs_readdir_lem :
      0 < sz.dirent_size
      → inode_of dir s.rest ≡ some d
      → s.inuse dir ≡ some v
      → is_dir_file v.vn_mode ≡ true
      → ((ramfs_readdir sz mem name_match dir (k * sz.dirent_size) s ≡ done (0, none))
          × ((i : ℕ) (f : Dirent)
              → k ≤ i
              → get_elem? d.entries i ≡ some f
              → is_named f.rd_name ≡ false))
        ⊎ ((j : ℕ) × (e : Dirent) × (ramfs_readdir sz mem name_match dir (k * sz.dirent_size) s
              ≡ done (
                (suc j - k) * sz.dirent_size,
                some (record { rd_ino = e.rd_ino; rd_name = take (sz.name_len - 1) e.rd_name }),
              ))
            × (k ≤ j)
            × (get_elem? d.entries j ≡ some e)
            × (is_named e.rd_name ≡ true)
            × ((i : ℕ) (f : Dirent)
                → k ≤ i
                → i < j
                → get_elem? d.entries i ≡ some f
                → is_named f.rd_name ≡ false))
  unfolding ramfs_readdir First
  ramfs_readdir_lem size there used is_dir =
      go (next_named (drop k d.entries)) refl (next_named-First (drop k d.entries))
    where
      at_place : (i : ℕ) → k ≤ i → get_elem? (drop k d.entries) (i - k) ≡ get_elem? d.entries i
      at_place i le =
          get_elem?-drop k (i - k) d.entries
          ∙ ap (λ (n : ℕ). get_elem? d.entries n) (omega (arith, le))

      go :
          (r : Option (ℕ × Dirent))
          → next_named (drop k d.entries) ≡ r
          → First (drop k d.entries) r
          → ((ramfs_readdir sz mem name_match dir (k * sz.dirent_size) s ≡ done (0, none))
              × ((i : ℕ) (f : Dirent)
                  → k ≤ i
                  → get_elem? d.entries i ≡ some f
                  → is_named f.rd_name ≡ false))
            ⊎ ((j : ℕ) × (e : Dirent) × (ramfs_readdir sz mem name_match dir (k * sz.dirent_size) s
                  ≡ done (
                    (suc j - k) * sz.dirent_size,
                    some (record { rd_ino = e.rd_ino; rd_name = take (sz.name_len - 1) e.rd_name }),
                  ))
                × (k ≤ j)
                × (get_elem? d.entries j ≡ some e)
                × (is_named e.rd_name ≡ true)
                × ((i : ℕ) (f : Dirent)
                    → k ≤ i
                    → i < j
                    → get_elem? d.entries i ≡ some f
                    → is_named f.rd_name ≡ false))
      go none next rest = inl (
        ground (
          arith,
          there,
          used,
          is_dir,
          mul-mod_left k sz.dirent_size,
          mul-div_cancel k size,
          next,
        ),
        λ i f le h. rest (i - k) f (at_place i le ∙ h),
      )
      go (some r) next (at_r, named, before) =
          let dist : sz.dirent_size + r.0 * sz.dirent_size ≡ (suc (k + r.0) - k) * sz.dirent_size =
            omega (arith, suc-mul r.0 sz.dirent_size)
            ∙ ap (λ (n : ℕ). n * sz.dirent_size) {x = suc r.0} (omega arith) in
          inr (
            k + r.0,
            r.1,
            ground (
              arith,
              there,
              used,
              is_dir,
              mul-mod_left k sz.dirent_size,
              mul-div_cancel k size,
              next,
              dist,
            ),
            omega arith,
            sym (get_elem?-drop k r.0 d.entries) ∙ at_r,
            named,
            λ i f le lt h. before (i - k) f (omega (arith, lt, le)) (at_place i le ∙ h),
          )
