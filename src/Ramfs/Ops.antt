-- ===== src/Ramfs/Ops.antt =====
-- The operations of kernel/fs/ramfs/ramfs.c on inodes and directories. They return an inode number,
-- none for 0, or an error.
use cs402_os.Base.{
  ℕ, ◌+◌, ◌-◌, Bool, true, false, ◌&&◌, not, Option, none, some, List, [], ◌∷◌, min, ltb, ◌==◌,
  if◌then◌else◌, get_elem?, set, Exec, done, panic, ◌>>=◌, ◌>>◌, kassert,
}
use cs402_os.Ramfs.Vnodes.{FileType, data_file, dir_file, Vnodes, FsOps, vget, vput}
use cs402_os.Ramfs.Inode.{
  Dirent, Inode, Ram, Sizes, Allocators, Got, nothing, got, got_of, inode_of, set_inode, copies,
  first_free, free_slot, take, find_slot,
}

pub data RamErr : Type 0 where
  enospc enoent enotdir enotempty enomem : RamErr

abbrev pub has_page : FileType → Bool
has_page data_file = true
has_page dir_file = true
has_page _ = false

abbrev pub is_dir_file : FileType → Bool
is_dir_file dir_file = true
is_dir_file _ = false

abbrev pub dots : List ℕ
dots = 46 ∷ 46 ∷ []

module _ {M : Type 0} (sz : Sizes) (mem : Allocators M)
    (name_match : List ℕ → List ℕ → ℕ → Bool) where
  open sz use {page_size, name_len, dirent_size, max_files, max_dirent}
  open mem use {kmalloc, kfree, page_alloc, page_free}

  abbrev pub blank : FileType → ℕ → ℕ → Inode
  blank type devid i = record {
    rf_size = 0;
    rf_ino = i;
    rf_mode = type;
    rf_linkcount = 1;
    entries =
        if is_dir_file type then copies max_dirent (record { rd_ino = 0; rd_name = [] }) else [];
    bytes = if is_dir_file type then [] else if has_page type then copies page_size 0 else [];
    devid = if has_page type then 0 else devid;
  }

  -- The end of `ramfs_alloc_inode`, with the place `i` and memory for the inode. None is -ENOSPC.
  unfoldable pub install : FileType → ℕ → ℕ → Ram M → Option ℕ × Ram M
  install type devid i r =
      let p = page_alloc r.heap in
      if not (has_page type)
      then (some i, set_inode i (some (blank type devid i)) r)
      else if p.0
      then (some i, set_inode i (some (blank type devid i)) (record r { heap = p.1 }))
      else (none, record r { heap = kfree p.1 })

  unfoldable pub ramfs_alloc_inode : FileType → ℕ → Ram M → Option ℕ × Ram M
  ramfs_alloc_inode type devid r = elim (first_free r.rfs_inodes) [
    | none ↦ (none, r)
    | some i ↦
        let k = kmalloc r.heap in
        let r1 = record r { heap = k.1 } in if k.0 then install type devid i r1 else (none, r1)
  ]

  unfoldable pub ramfs_read_vnode : ℕ → Ram M → Exec (ℕ × FileType × Ram M)
  ramfs_read_vnode v r = elim (inode_of v r) [
    | none ↦ panic
    | some x ↦
        kassert (x.rf_ino == v)
        >> done (
          x.rf_size,
          x.rf_mode,
          set_inode v (some (record x { rf_linkcount = x.rf_linkcount + 1 })) r,
        )
  ]

  -- A file that loses its last link is freed.
  unfoldable pub ramfs_delete_vnode : ℕ → Ram M → Exec (Ram M)
  ramfs_delete_vnode v r = elim (inode_of v r) [
    | none ↦ panic
    | some x ↦
        let h = if has_page x.rf_mode then page_free r.heap else r.heap in
        done (
          if x.rf_linkcount == 1
          then set_inode v none (record r { heap = kfree h })
          else set_inode v (some (record x { rf_linkcount = x.rf_linkcount - 1 })) r)
  ]

  unfoldable pub ramfs_query_vnode : ℕ → Ram M → Bool
  ramfs_query_vnode v r = elim (inode_of v r) [ none ↦ false | some x ↦ ltb 1 x.rf_linkcount ]

  abbrev pub ramfs_ops : FsOps (Ram M)
  ramfs_ops = record {
    read_vnode = ramfs_read_vnode;
    query_vnode = ramfs_query_vnode;
    delete_vnode = ramfs_delete_vnode;
  }

  abbrev pub State : Type 0
  State = Vnodes (Ram M)

  abbrev pub set_file : ℕ → Inode → State → State
  set_file v x s = record s { rest = set_inode v (some x) s.rest }

  -- `VNODE_TO_RAMFSINODE`: the inode of a vnode in use is the one of its number.
  abbrev pub inode : ℕ → State → Exec Inode
  inode v s = elim (inode_of v s.rest) [ none ↦ panic | some x ↦ done x ]

  abbrev pub mode_of : ℕ → State → Exec FileType
  mode_of v s = elim (s.inuse v) [ none ↦ panic | some x ↦ done x.vn_mode ]

  -- `ramfs_lookup`: none for -ENOENT.
  unfoldable pub ramfs_lookup : ℕ → List ℕ → ℕ → State → Exec (Option ℕ × State)
  ramfs_lookup dir name len s = inode dir s >>= λ d.
      elim (find_slot name_match name len d.entries) [
        | none ↦ done (none, s)
        | some k ↦ elim (get_elem? d.entries k) [
          | none ↦ panic
          | some e ↦ vget ramfs_ops e.rd_ino s >>= λ s'. done (some e.rd_ino, s')
        ]
      ]

  abbrev pub absent : Option ℕ → Bool
  absent none = true
  absent (some v) = false

  -- The search for a free entry, behind the assertion that the name is not there.
  unfoldable pub find_space : ℕ → List ℕ → ℕ → State → Exec (Option ℕ × State)
  find_space dir name len s = do
    r ← ramfs_lookup dir name len s
    kassert (absent r.0)
    d ← inode dir r.1
    done (free_slot d.entries, r.1)

  -- The entry `k` of a directory is set, and its size goes up.
  unfoldable pub set_entry : ℕ → ℕ → ℕ → List ℕ → ℕ → State → Exec State
  set_entry dir k ino name len s = do
    d ← inode dir s
    let e : Dirent = record { rd_ino = ino; rd_name = take (min len (name_len - 1)) name }
    done (
        set_file dir (record d { entries = set d.entries k e; rf_size = d.rf_size + dirent_size })
          s)

  unfoldable pub clear_entry : ℕ → List ℕ → ℕ → State → Exec State
  clear_entry dir name len s = inode dir s >>= λ d.
      let size = d.rf_size - dirent_size in
      elim (find_slot name_match name len d.entries) [
        | none ↦ done (set_file dir (record d { rf_size = size }) s)
        | some k ↦ elim (get_elem? d.entries k) [
          | none ↦ panic
          | some e ↦
              let gone : Dirent = record e { rd_name = [] } in
              done (set_file dir (record d { entries = set d.entries k gone; rf_size = size }) s)
        ]
      ]

  -- A new inode, if there is one.
  unfoldable pub allocate : FileType → ℕ → State → Got State
  allocate type devid s =
      let a = ramfs_alloc_inode type devid s.rest in got_of a.0 (record s { rest = a.1 })

  pub data Made : Type 0 where
    made : ℕ → Made
    fails : RamErr → Made

  unfoldable pub ramfs_create : ℕ → List ℕ → ℕ → State → Exec (Made × State)
  ramfs_create dir name len s = find_space dir name len s >>= λ f. elim (f.0) [
    | none ↦ done (fails enospc, f.1)
    | some k ↦ elim (allocate data_file 0 f.1) [
      | nothing t ↦ done (fails enospc, t)
      | got ino t ↦ do
        s1 ← vget ramfs_ops ino t
        s2 ← set_entry dir k ino name len s1
        done (made ino, s2)
    ]
  ]

  -- `ramfs_mknod` for a device of the given kind; for any other mode it panics.
  unfoldable pub ramfs_mknod : ℕ → List ℕ → ℕ → FileType → ℕ → State → Exec (Option RamErr × State)
  ramfs_mknod dir name len type devid s = find_space dir name len s >>= λ f. elim (f.0) [
    | none ↦ done (some enospc, f.1)
    | some k ↦ if has_page type then panic else elim (allocate type devid f.1) [
      | nothing t ↦ done (some enospc, t)
      | got ino t ↦ set_entry dir k ino name len t >>= λ s'. done (none, s')
    ]
  ]

  unfoldable pub add_links : ℕ → State → Exec State
  add_links v s =
      inode v s >>= λ x. done (set_file v (record x { rf_linkcount = x.rf_linkcount + 1 }) s)

  unfoldable pub ramfs_link : ℕ → ℕ → List ℕ → ℕ → State → Exec (Option RamErr × State)
  ramfs_link old dir name len s = find_space dir name len s >>= λ f. elim (f.0) [
    | none ↦ done (some enospc, f.1)
    | some k ↦ do s1 ← set_entry dir k old name len f.1; s2 ← add_links old s1; done (none, s2)
  ]

  -- The end of `ramfs_unlink` and `ramfs_rmdir`: the entry goes, and with it a link.
  unfoldable pub drop_link : ℕ → ℕ → List ℕ → ℕ → State → Exec (Option RamErr × State)
  drop_link v dir name len s = do
    s1 ← clear_entry dir name len s
    x ← inode v s1
    s2 ← vput ramfs_ops v (set_file v (record x { rf_linkcount = x.rf_linkcount - 1 }) s1)
    done (none, s2)

  unfoldable pub ramfs_unlink : ℕ → List ℕ → ℕ → State → Exec (Option RamErr × State)
  ramfs_unlink dir name len s = ramfs_lookup dir name len s >>= λ r. elim (r.0) [
    | none ↦ panic
    | some v ↦ do t ← mode_of v r.1; kassert (not (is_dir_file t)); drop_link v dir name len r.1
  ]

  -- The entries that `ramfs_mkdir` sets up in the new directory.
  abbrev pub with_dots : ℕ → ℕ → Inode → Inode
  with_dots ino parent x = record x {
    entries =
        set (set x.entries 0 (record { rd_ino = ino; rd_name = 46 ∷ [] })) 1
          (record { rd_ino = parent; rd_name = dots });
    rf_size = dirent_size + dirent_size;
  }

  unfoldable pub ramfs_mkdir : ℕ → List ℕ → ℕ → State → Exec (Option RamErr × State)
  ramfs_mkdir dir name len s = find_space dir name len s >>= λ f. elim (f.0) [
    | none ↦ done (some enospc, f.1)
    | some k ↦ elim (allocate dir_file 0 f.1) [
      | nothing t ↦ done (some enospc, t)
      | got ino t ↦ do
        s1 ← set_entry dir k ino name len t
        x ← inode ino s1
        done (none, set_file ino (with_dots ino dir x) s1)
    ]
  ]

  -- Whether only `.` and `..` have names.
  unfoldable pub is_empty_dir : List Dirent → Bool
  is_empty_dir [] = true
  is_empty_dir (e ∷ later) = is_dots e.rd_name && is_empty_dir later
    where
      is_dots : List ℕ → Bool
      is_dots [] = true
      is_dots (c ∷ []) = c == 46
      is_dots (c ∷ d ∷ []) = (c == 46) && (d == 46)
      is_dots name = false

  unfoldable pub ramfs_rmdir : ℕ → List ℕ → ℕ → State → Exec (Option RamErr × State)
  ramfs_rmdir dir name len s =
      kassert (not (name_match (46 ∷ []) name len) && not (name_match dots name len))
      >> (ramfs_lookup dir name len s >>= λ r. elim (r.0) [
        | none ↦ done (some enoent, r.1)
        | some v ↦ do
          t ← mode_of v r.1
          x ← inode v r.1
          if not (is_dir_file t)
              then (vput ramfs_ops v r.1 >>= λ s'. done (some enotdir, s'))
              else if is_empty_dir x.entries
              then drop_link v dir name len r.1
              else (vput ramfs_ops v r.1 >>= λ s'. done (some enotempty, s'))
      ])
