-- ===== src/Ramfs/Vnodes.antt =====
-- `vref`, `vget` and `vput` of kernel/fs/vnode.c, for the vnodes of one file system. A vnode is given
-- by its number `vn_vno`, as `vnode_inuse_list` holds at most one for each. The operations of the
-- file system do not sleep, so that no vnode is ever seen with VN_BUSY.
use cs402_os.Base.{
  ℕ, ◌+◌, ◌-◌, Bool, ◌&&◌, not, Option, none, some, ltb, ◌==◌, if◌then◌else◌, Exec, done, panic,
  ◌>>=◌, ◌>>◌, kassert,
}

-- The kinds of file, S_IFREG to S_IFBLK.
pub data FileType : Type 0 where
  data_file dir_file chr_file blk_file : FileType

pub record Vnode : Type 0 where
  pub vn_refcount : ℕ
  pub vn_nrespages : ℕ
  pub vn_len : ℕ
  pub vn_mode : FileType

-- `inuse` is `vnode_inuse_list`, and `rest` the state of the file system.
pub record Vnodes (R : Type 0) : Type 0 where
  pub inuse : ℕ → Option Vnode
  pub rest : R

-- `fs_ops_t`. `read_vnode` returns what it sets `vn_len` and `vn_mode` to.
pub record FsOps (R : Type 0) : Type 0 where
  pub read_vnode : ℕ → R → Exec (ℕ × FileType × R)
  pub query_vnode : ℕ → R → Bool
  pub delete_vnode : ℕ → R → Exec R

module _ {R : Type 0} (fs : FsOps R) where
  abbrev pub set_inuse : ℕ → Option Vnode → Vnodes R → Vnodes R
  set_inuse v x s = record s { inuse = λ u. if v == u then x else s.inuse u }

  abbrev pub vref_held : ℕ → Vnode → Vnodes R → Exec (Vnodes R)
  vref_held v x s =
      kassert (ltb 0 x.vn_refcount)
      >> done (set_inuse v (some (record x { vn_refcount = x.vn_refcount + 1 })) s)

  unfoldable pub vget : ℕ → Vnodes R → Exec (Vnodes R)
  vget v s = elim (s.inuse v) [
    | some x ↦ vref_held v x s
    | none ↦ fs.read_vnode v s.rest >>= λ r.
        let x : Vnode = record { vn_refcount = 1; vn_nrespages = 0; vn_len = r.0; vn_mode = r.1 } in
        done (set_inuse v (some x) (record s { rest = r.2 }))
  ]

  -- The pages of a vnode that is not linked go with its last reference but those of the pages; each
  -- of them drops one.
  abbrev pub without_pages : ℕ → Vnode → Vnodes R → Vnode
  without_pages v x s =
      if (x.vn_nrespages == x.vn_refcount - 1) && not (fs.query_vnode v s.rest)
      then record x { vn_refcount = x.vn_refcount - x.vn_nrespages; vn_nrespages = 0 }
      else x

  -- The last reference is dropped.
  unfoldable pub drop_vnode : ℕ → Vnodes R → Exec (Vnodes R)
  drop_vnode v s = fs.delete_vnode v s.rest >>= λ r. done (set_inuse v none (record s { rest = r }))

  unfoldable pub vput_vnode : ℕ → Vnode → Vnodes R → Exec (Vnodes R)
  vput_vnode v x s =
      let left = record x { vn_refcount = x.vn_refcount - 1 } in
      if ltb 0 left.vn_refcount
      then done (set_inuse v (some left) s)
      else (kassert (x.vn_nrespages == 0) >> drop_vnode v s)

  unfoldable pub vput : ℕ → Vnodes R → Exec (Vnodes R)
  vput v s = elim (s.inuse v) [
    | none ↦ panic
    | some x ↦ kassert (ltb x.vn_nrespages x.vn_refcount) >> vput_vnode v (without_pages v x s) s
  ]
