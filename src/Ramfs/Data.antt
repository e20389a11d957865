-- ===== src/Ramfs/Data.antt =====
-- `ramfs_read`, `ramfs_write`, `ramfs_readdir`, `ramfs_stat`, `ramfs_mount` and `ramfs_umount` of
-- kernel/fs/ramfs/ramfs.c.
use cs402_os.Base.{
  ℕ, zero, suc, ◌+◌, ◌-◌, ◌*◌, ◌/◌, ◌%◌, ◌⊎◌, inl, inr, Bool, not, Option, none, some, List, [],
  ◌∷◌, ◌++◌, min, ltb, leb, ◌==◌, if◌then◌else◌, length, Exec, done, panic, ◌>>=◌, ◌>>◌, kassert,
}
use cs402_os.Ramfs.Vnodes.{FileType, dir_file, Vnode, set_inuse, vget, vput}
use cs402_os.Ramfs.Inode.{Dirent, Inode, Sizes, Allocators, nothing, got, copies, is_named, take}
use cs402_os.Ramfs.Ops.{
  RamErr, enomem, enospc, is_dir_file, has_page, allocate, ramfs_ops, State, set_file, inode,
  mode_of, with_dots,
}

unfoldable pub drop {ℓ} : {A : Type ℓ} → ℕ → List A → List A
drop zero xs = xs
drop (suc n) [] = []
drop (suc n) (x ∷ xs) = drop n xs

-- The bytes of a file from `offset` on are overwritten.
unfoldable pub overwrite : ℕ → List ℕ → List ℕ → List ℕ
overwrite zero bytes mem = bytes ++ drop (length bytes) mem
overwrite (suc offset) bytes [] = []
overwrite (suc offset) bytes (b ∷ mem) = b ∷ overwrite offset bytes mem

abbrev pub skip_one : Option (ℕ × Dirent) → Option (ℕ × Dirent)
skip_one none = none
skip_one (some r) = some (suc r.0, r.1)

-- The loop of `ramfs_readdir`: the free entries that it skips, and the entry behind them.
unfoldable pub next_named : List Dirent → Option (ℕ × Dirent)
next_named [] = none
next_named (e ∷ later) =
    let more = skip_one (next_named later) in if is_named e.rd_name then some (0, e) else more

module _ {M : Type 0} (sz : Sizes) (mem : Allocators M)
    (name_match : List ℕ → List ℕ → ℕ → Bool) where
  open sz use {page_size, dirent_size, max_files, max_dirent}

  -- `ramfs_read`: the bytes that it has put into the buffer, as many as it returns. For an offset
  -- behind the end there are none.
  unfoldable pub ramfs_read : ℕ → ℕ → ℕ → State {M = M} sz mem name_match → Exec (List ℕ)
  ramfs_read file offset count s = do
    x ← inode sz mem name_match file s
    t ← mode_of sz mem name_match file s
    kassert (not (is_dir_file t))
    done (take (min count (x.rf_size - offset)) (drop offset x.bytes))

  abbrev vnode_of : ℕ → State {M = M} sz mem name_match → Exec Vnode
  vnode_of file s = elim (s.inuse file) [ none ↦ panic | some v ↦ done v ]

  -- `ramfs_write`: what it returns. For an offset behind the page the count is negative, and the
  -- copy that the code makes runs out of all memory.
  unfoldable pub ramfs_write :
      ℕ → ℕ → List ℕ → State {M = M} sz mem name_match → Exec (ℕ × State {M = M} sz mem name_match)
  ramfs_write file offset buf s = do
    x ← inode sz mem name_match file s
    t ← mode_of sz mem name_match file s
    kassert (not (is_dir_file t))
    kassert (leb offset page_size)
    let n = min (length buf) (page_size - offset)
    v ← vnode_of file s
    kassert (v.vn_len == x.rf_size)
    let len = if ltb v.vn_len (offset + n) then offset + n else v.vn_len
    let s1 = set_inuse (ramfs_ops sz mem name_match) file (some (record v { vn_len = len })) s
    let bytes = overwrite offset (take n buf) x.bytes
    done (n, set_file sz mem name_match file (record x { bytes = bytes; rf_size = len }) s1)

  -- `ramfs_readdir`: what it returns, and the entry that it fills in, if it does.
  unfoldable pub ramfs_readdir : ℕ → ℕ → State {M = M} sz mem name_match → Exec (ℕ × Option Dirent)
  ramfs_readdir dir offset s = do
    x ← inode sz mem name_match dir s
    t ← mode_of sz mem name_match dir s
    kassert (is_dir_file t)
    kassert (offset % dirent_size == 0)
    elim (next_named (drop (offset / dirent_size) x.entries)) [
      | none ↦ done (0, none)
      | some r ↦ done (
        dirent_size + r.0 * dirent_size,
        some (record { rd_ino = r.1.rd_ino; rd_name = take (sz.name_len - 1) r.1.rd_name }),
      )
    ]

  -- What `ramfs_stat` fills in: the mode, the number, the device, the links and the size.
  pub record Stat : Type 0 where
    pub st_mode : FileType
    pub st_ino : ℕ
    pub st_rdev : ℕ
    pub st_nlink : ℕ
    pub st_size : ℕ

  unfoldable pub ramfs_stat : ℕ → State {M = M} sz mem name_match → Exec Stat
  ramfs_stat file s = do
    x ← inode sz mem name_match file s
    t ← mode_of sz mem name_match file s
    done (record {
      st_mode = t;
      st_ino = file;
      st_rdev = if has_page t then 0 else x.devid;
      st_nlink = x.rf_linkcount - 1;
      st_size = x.rf_size;
    })

  -- `ramfs_mount`: an error, or the new file system with its root in use.
  unfoldable pub ramfs_mount : M → Exec (RamErr ⊎ State {M = M} sz mem name_match)
  ramfs_mount h =
      let k = mem.kmalloc h in
      let s : State sz mem name_match = record {
        inuse = λ v. none;
        rest = record { rfs_inodes = copies max_files none; heap = k.1 };
      } in
      if not k.0 then done (inl enomem) else elim (allocate sz mem name_match dir_file 0 s) [
        | nothing t ↦ done (inl enospc)
        | got ino t ↦ do
          kassert (ino == 0)
          x ← inode sz mem name_match 0 t
          t' ←
              vget (ramfs_ops sz mem name_match) 0
                (set_file sz mem name_match 0 (with_dots sz mem name_match 0 0 x) t)
          done (inr t')
      ]

  -- The loop of `ramfs_umount` that frees the inodes.
  unfoldable pub free_loop : List (Option Inode) → M → M
  free_loop [] h = h
  free_loop (none ∷ later) h = free_loop later h
  free_loop (some x ∷ later) h =
      free_loop later (mem.kfree (if has_page x.rf_mode then mem.page_free h else h))

  -- `ramfs_umount` of the file system with the root vnode `root`.
  unfoldable pub ramfs_umount : ℕ → State {M = M} sz mem name_match → Exec M
  ramfs_umount root s = vput (ramfs_ops sz mem name_match) root s >>= λ t.
      done (free_loop t.rest.rfs_inodes t.rest.heap)
