-- ===== src/Ramfs/Inode.antt =====
-- Inodes and directory entries of kernel/fs/ramfs/ramfs.c. The memory of an inode is read as the
-- entries of a directory, the bytes of a file, or the number of a device. A name is its characters
-- up to the first NUL, and an entry without a name is free.
use cs402_os.Base.{
  ℕ, zero, suc, Bool, true, false, Option, none, some, List, [], ◌∷◌, if◌then◌else◌, get_elem?, set,
}
use cs402_os.Ramfs.Vnodes.{FileType}

pub record Dirent : Type 0 where
  pub rd_ino : ℕ
  pub rd_name : List ℕ

pub record Inode : Type 0 where
  pub rf_size : ℕ
  pub rf_ino : ℕ
  pub rf_mode : FileType
  pub rf_linkcount : ℕ
  pub entries : List Dirent
  pub bytes : List ℕ
  pub devid : ℕ

-- `rfs_inodes`, and the state of the allocators.
pub record Ram (M : Type 0) : Type 0 where
  pub rfs_inodes : List (Option Inode)
  pub heap : M

-- PAGE_SIZE, NAME_LEN and sizeof(ramfs_dirent_t).
pub record Sizes : Type 0 where
  pub page_size : ℕ
  pub name_len : ℕ
  pub dirent_size : ℕ
  -- RAMFS_MAX_FILES and RAMFS_MAX_DIRENT
  pub max_files : ℕ
  pub max_dirent : ℕ

-- `kmalloc`, `page_alloc` and their counterparts, over the state `M`: `false` for NULL.
pub record Allocators (M : Type 0) : Type 0 where
  pub kmalloc : M → Bool × M
  pub kfree : M → M
  pub page_alloc : M → Bool × M
  pub page_free : M → M

-- An inode number or none, with the state behind.
pub data Got (A : Type 0) : Type 0 where
  nothing : A → Got A
  got : ℕ → A → Got A

abbrev pub got_of : {A : Type 0} → Option ℕ → A → Got A
got_of none a = nothing a
got_of (some i) a = got i a

abbrev pub join {ℓ} : {A : Type ℓ} → Option (Option A) → Option A
join none = none
join (some o) = o

abbrev pub inode_of : {M : Type 0} → ℕ → Ram M → Option Inode
inode_of v r = join (get_elem? r.rfs_inodes v)

abbrev pub set_inode : {M : Type 0} → ℕ → Option Inode → Ram M → Ram M
set_inode v x r = record r { rfs_inodes = set r.rfs_inodes v x }

-- `n` copies, as `memset` makes them.
unfoldable pub copies {ℓ} : {A : Type ℓ} → ℕ → A → List A
copies zero x = []
copies (suc n) x = x ∷ copies n x

abbrev pub is_named : List ℕ → Bool
is_named [] = false
is_named (c ∷ name) = true

-- A place in the rest of a list.
abbrev pub behind : Option ℕ → Option ℕ
behind none = none
behind (some i) = some (suc i)

-- The first place of the table that is NULL.
unfoldable pub first_free : List (Option Inode) → Option ℕ
first_free [] = none
first_free (none ∷ later) = some 0
first_free (some x ∷ later) = behind (first_free later)

-- The first free entry of a directory.
unfoldable pub free_slot : List Dirent → Option ℕ
free_slot [] = none
free_slot (e ∷ later) =
    let more = behind (free_slot later) in if is_named e.rd_name then more else some 0

-- What `strncpy` copies.
unfoldable pub take : ℕ → List ℕ → List ℕ
take zero name = []
take (suc n) [] = []
take (suc n) (c ∷ name) = c ∷ take n name

-- `name_match` of fs/dirent.h.
module _ (name_match : List ℕ → List ℕ → ℕ → Bool) where
  -- The place of the first entry with a name.
  unfoldable pub find_slot : List ℕ → ℕ → List Dirent → Option ℕ
  find_slot name len [] = none
  find_slot name len (e ∷ later) =
      let more = behind (find_slot name len later) in
      if name_match e.rd_name name len then some 0 else more
