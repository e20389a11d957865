-- ===== src/Ramfs/Links.antt =====
-- Link counts of the file system in memory: no inode has fewer than the entries that name it, its
-- vnode in use, and the root need.
use cs402_os.Base.{
  ℕ, zero, suc, ◌+◌, ◌≤◌, ◌<◌, ◌≡◌, refl, Bool, true, false, ◌&&◌, not, Option, none, some, List,
  [], ◌∷◌, ◌==◌, if◌then◌else◌, get_elem?, set, length, arith, ap, Option-cases, Bool-cases, inl,
  inr, get_elem?-set_self, get_elem?-set_ne,
}
use cs402_os.Ramfs.Vnodes.{Vnode, Vnodes}
use cs402_os.Ramfs.Inode.{Dirent, Inode, Ram, join, inode_of, set_inode, first_free}

-- A name that a file can be made under.
abbrev pub is_proper : List ℕ → Bool
is_proper [] = false
is_proper (c ∷ []) = not (c == 46)
is_proper (c ∷ d ∷ []) = not ((c == 46) && (d == 46))
is_proper (c ∷ d ∷ e ∷ name) = true

abbrev pub at : ℕ → ℕ → ℕ
at v i = if v == i then 1 else 0

abbrev pub one : ℕ → Dirent → ℕ
one i e = if is_proper e.rd_name then at e.rd_ino i else 0

-- The entries that name inode `i`: in a directory, and in all of them.
unfoldable pub count : ℕ → List Dirent → ℕ
count i [] = 0
count i (e ∷ later) = one i e + count i later

abbrev pub weight : ℕ → Option Inode → ℕ
weight i none = 0
weight i (some x) = count i x.entries

unfoldable pub total : ℕ → List (Option Inode) → ℕ
total i [] = 0
total i (o ∷ later) = weight i o + total i later

pub count-set :
    (i : ℕ) (es : List Dirent) (k : ℕ) (e f : Dirent)
    → get_elem? es k ≡ some e
    → count i (set es k f) + one i e ≡ count i es + one i f
unfolding count
count-set i [] k e f h = cc
count-set i (g ∷ later) zero e f h =
    let same : one i g ≡ one i e =
      ap (λ (o : Option Dirent). elim o [ none ↦ 0 | some x ↦ one i x ]) h in
    omega (arith, same)
count-set i (g ∷ later) (suc k) e f h = omega (arith, count-set i later k e f h)

pub total-set :
    (i : ℕ) (os : List (Option Inode)) (k : ℕ) (o p : Option Inode)
    → get_elem? os k ≡ some o
    → total i (set os k p) + weight i o ≡ total i os + weight i p
unfolding total
total-set i [] k o p h = cc
total-set i (q ∷ later) zero o p h =
    let same : weight i q ≡ weight i o =
      ap (λ (x : Option (Option Inode)). elim x [ none ↦ 0 | some y ↦ weight i y ]) h in
    omega (arith, same)
total-set i (q ∷ later) (suc k) o p h = omega (arith, total-set i later k o p h)

get_elem?-join :
    (os : List (Option Inode)) (k : ℕ) (x : Inode)
    → join (get_elem? os k) ≡ some x
    → (get_elem? os k ≡ some (some x)) × (k < length os)
get_elem?-join [] k x h = cc
get_elem?-join (o ∷ later) zero x h = (ap some h, omega arith)
get_elem?-join (o ∷ later) (suc k) x h =
    let (e, lt) = get_elem?-join later k x h in (e, omega arith)

join-set :
    (os : List (Option Inode)) (k : ℕ) (p : Option Inode) (i : ℕ)
    → k < length os
    → join (get_elem? (set os k p) i) ≡ (if k == i then p else join (get_elem? os i))
join-set os k p i lt = elim (Bool-cases (k == i)) [
  | inl same ↦
      let e : k ≡ i = ground (arith, same) in
      rw same (rw (← e) (ap join (get_elem?-set_self os k p lt)))
  | inr other ↦ rw other (ap join (get_elem?-set_ne os p (λ (e : k ≡ i). ground (arith, other, e))))
]

-- What a write of an inode that is there changes.
module _ {M : Type 0} (r : Ram M) (k : ℕ) (x : Inode) (held : inode_of k r ≡ some x) where
  pub inode_of-set :
      (p : Option Inode) (i : ℕ)
      → inode_of i (set_inode k p r) ≡ (if k == i then p else inode_of i r)
  inode_of-set p i =
      let (e, lt) = get_elem?-join r.rfs_inodes k x held in join-set r.rfs_inodes k p i lt

  pub total-set_inode :
      (p : Option Inode) (i : ℕ)
      → total i (set_inode k p r).rfs_inodes + count i x.entries ≡ total i r.rfs_inodes + weight i p
  total-set_inode p i =
      let (e, lt) = get_elem?-join r.rfs_inodes k x held in total-set i r.rfs_inodes k (some x) p e

-- The same where there is none.
pub first_free_lem :
    (os : List (Option Inode)) (k : ℕ)
    → first_free os ≡ some k
    → (get_elem? os k ≡ some none) × (k < length os)
unfolding first_free
first_free_lem [] k h = cc
first_free_lem (none ∷ later) zero h = (refl, omega arith)
first_free_lem (none ∷ later) (suc k) h = cc
first_free_lem (some x ∷ later) zero h = ground (arith, h)
first_free_lem (some x ∷ later) (suc k) h = ground (arith, h, first_free_lem later k)

module _ {M : Type 0} (r : Ram M) (k : ℕ) (free : first_free r.rfs_inodes ≡ some k) where
  pub inode_of-install :
      (x : Inode) (i : ℕ)
      → inode_of i (set_inode k (some x) r) ≡ (if k == i then some x else inode_of i r)
  inode_of-install x i =
      let (e, lt) = first_free_lem r.rfs_inodes k free in join-set r.rfs_inodes k (some x) i lt

  pub inode_of-free : inode_of k r ≡ none
  inode_of-free = let (e, lt) = first_free_lem r.rfs_inodes k free in ap join e

  pub total-install :
      (x : Inode) (i : ℕ)
      → total i (set_inode k (some x) r).rfs_inodes ≡ total i r.rfs_inodes + count i x.entries
  total-install x i =
      let (e, lt) = first_free_lem r.rfs_inodes k free in
      omega (arith, total-set i r.rfs_inodes k none (some x) e)

-- The links of an inode, and whether its vnode is in use.
abbrev pub links : Option Inode → ℕ
links none = 0
links (some x) = x.rf_linkcount

abbrev pub used : Option Vnode → ℕ
used none = 0
used (some y) = 1

abbrev pub no_extra : ℕ → ℕ
no_extra i = 0

-- The invariant, where `extra` links are set aside and `debt` ones are still to be counted.
pub record IsSafe {M : Type 0} (extra debt : ℕ → ℕ) (s : Vnodes (Ram M)) : Type 0 where
  pub numbered : (i : ℕ) (x : Inode) → inode_of i s.rest ≡ some x → x.rf_ino ≡ i
  pub linked :
      (i : ℕ)
      → total i s.rest.rfs_inodes + used (s.inuse i) + at 0 i + extra i
        ≤ links (inode_of i s.rest) + debt i
  pub held : (v : ℕ) (y : Vnode) → s.inuse v ≡ some y → (y.vn_nrespages ≡ 0) × (0 < y.vn_refcount)
  pub modes :
      (v : ℕ) (y : Vnode) (x : Inode)
      → s.inuse v ≡ some y
      → inode_of v s.rest ≡ some x
      → y.vn_mode ≡ x.rf_mode

-- How many references there are to a vnode.
abbrev pub refs : Option Vnode → ℕ
refs none = 0
refs (some y) = y.vn_refcount

-- A vnode in use has an inode.
pub used-inode :
    {M : Type 0} (s : Vnodes (Ram M)) (extra debt : ℕ → ℕ) (v : ℕ)
    → IsSafe extra debt s
    → debt v ≡ 0
    → 0 < used (s.inuse v) + extra v
    → (x : Inode) × (inode_of v s.rest ≡ some x) × (0 < x.rf_linkcount)
used-inode s extra debt v safe even needs = elim (Option-cases (inode_of v s.rest)) [
  | inl missing ↦ absurd (ground (arith, safe.linked v, missing))
  | inr (x, e) ↦ (x, e, ground (arith, safe.linked v, e))
]
