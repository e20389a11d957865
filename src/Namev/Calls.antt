-- ===== src/Namev/Calls.antt =====
-- The calls of kernel/fs/vfs_syscall.c that take a path: `do_mknod`, `do_mkdir`, `do_rmdir`,
-- `do_unlink`, `do_link`, `do_chdir` and `do_stat`. They return none for 0. Each is split where
-- `dir_namev` or `open_namev` has returned. No result stands for want of fuel.
use cs402_os.Base.{
  ℕ, Bool, false, ◌||◌, not, Option, none, some, List, ltb, if◌then◌else◌, length, Exec, done,
  panic, ◌>>=◌,
}
use cs402_os.Namev.Vnode.{
  Err, einval, enametoolong, enotdir, eexist, enotempty, eisdir, Vfs, at, failed, VnodeOps, vput,
}
use cs402_os.Namev.Lookup.{
  in_dir, no_dir, Limits, is_dot, is_dot_dot, lookup, dir_namev, open_namev,
}

module _ {R : Type 0} (ops : VnodeOps R) (lim : Limits) where
  -- The end of most calls: `vput` of the directory, and the result.
  unfoldable pub finish : ℕ → Option Err → Vfs R → Exec (Option Err × Vfs R)
  finish dir r s = vput ops dir s >>= λ s'. done (r, s')

  -- The same for the result of an operation.
  abbrev pub end_in : ℕ → Option Err × Vfs R → Exec (Option Err × Vfs R)
  end_in dir r = finish dir r.0 r.1

  -- A name that exists already: both vnodes are put.
  unfoldable pub exists : ℕ → ℕ → Vfs R → Exec (Option Err × Vfs R)
  exists a b s = vput ops a s >>= finish b (some eexist)

  -- A call from the place where its path has been looked up.
  abbrev pub with_dir :
      (ℕ → List ℕ → ℕ → Vfs R → Exec (Option Err × Vfs R))
      → List ℕ
      → Vfs R
      → Exec (Option (Option Err × Vfs R))
  with_dir go path s = dir_namev ops lim path s >>= λ found. elim found [
    | none ↦ done none
    | some (no_dir e, s') ↦ done (some (some e, s'))
    | some (in_dir d name len, s') ↦ go d name len s' >>= λ r. done (some r)
  ]

  unfoldable pub mknod_in : ℕ → ℕ → ℕ → List ℕ → ℕ → Vfs R → Exec (Option Err × Vfs R)
  mknod_in mode dev dir name len s = lookup ops dir name len s >>= λ r. elim (r.0) [
    | at v ↦ exists dir v r.1
    | failed e ↦ ops.fs_mknod dir name len mode dev r.1 >>= end_in dir
  ]

  -- `device` is the test that `mode` is S_IFCHR or S_IFBLK.
  unfoldable pub do_mknod : (ℕ → Bool) → List ℕ → ℕ → ℕ → Vfs R → Exec (Option (Option Err × Vfs R))
  do_mknod device path mode dev s =
      if ltb lim.max_path (length path)
      then done (some (some enametoolong, s))
      else if not (device mode)
      then done (some (some einval, s))
      else with_dir (mknod_in mode dev) path s

  unfoldable pub mkdir_in : ℕ → List ℕ → ℕ → Vfs R → Exec (Option Err × Vfs R)
  mkdir_in dir name len s =
      if ltb lim.name_len (length name)
      then finish dir (some enametoolong) s
      else (lookup ops dir name len s >>= λ r. elim (r.0) [
        | at v ↦ exists dir v r.1
        | failed e ↦
            if not (ops.is_dir dir (r.1).rest)
            then finish dir (some enotdir) r.1
            else (ops.fs_mkdir dir name len r.1 >>= end_in dir)
      ])

  unfoldable pub do_mkdir : List ℕ → Vfs R → Exec (Option (Option Err × Vfs R))
  do_mkdir path s =
      if ltb lim.max_path (length path)
      then done (some (some enametoolong, s))
      else with_dir mkdir_in path s

  unfoldable pub rmdir_in : ℕ → List ℕ → ℕ → Vfs R → Exec (Option Err × Vfs R)
  rmdir_in dir name len s =
      if is_dot_dot name
      then finish dir (some enotempty) s
      else if is_dot name
      then finish dir (some einval) s
      else if not (ops.is_dir dir s.rest)
      then finish dir (some enotdir) s
      else (ops.fs_rmdir dir name len s >>= end_in dir)

  unfoldable pub do_rmdir : List ℕ → Vfs R → Exec (Option (Option Err × Vfs R))
  do_rmdir path s =
      if ltb lim.max_path (length path)
      then done (some (some enametoolong, s))
      else with_dir rmdir_in path s

  -- `do_unlink`, from the place where it has found the vnode `v`.
  unfoldable pub unlink_found : ℕ → List ℕ → ℕ → ℕ → Vfs R → Exec (Option Err × Vfs R)
  unlink_found dir name len v s =
      if ops.is_dir v s.rest
      then (vput ops v s >>= finish dir (some eisdir))
      else (ops.fs_unlink dir name len s >>= λ gone. vput ops dir gone.1 >>= finish v gone.0)

  unfoldable pub unlink_in : ℕ → List ℕ → ℕ → Vfs R → Exec (Option Err × Vfs R)
  unlink_in dir name len s =
      if is_dot name
      then finish dir (some einval) s
      else if is_dot_dot name
      then finish dir (some enotempty) s
      else if not (ops.is_dir dir s.rest)
      then finish dir (some enotdir) s
      else (lookup ops dir name len s >>= λ r. elim (r.0) [
        | failed e ↦ finish dir (some e) r.1
        | at v ↦ unlink_found dir name len v r.1
      ])

  unfoldable pub do_unlink : List ℕ → Vfs R → Exec (Option (Option Err × Vfs R))
  do_unlink path s =
      if ltb lim.max_path (length path)
      then done (some (some enametoolong, s))
      else with_dir unlink_in path s

  unfoldable pub link_in : ℕ → ℕ → List ℕ → ℕ → Vfs R → Exec (Option Err × Vfs R)
  link_in old dir name len s = lookup ops dir name len s >>= λ r. elim (r.0) [
    | failed e ↦
        ops.fs_link old dir name len r.1 >>= λ made. vput ops old made.1 >>= finish dir made.0
    | at v ↦ vput ops old r.1 >>= exists dir v
  ]

  -- `do_link`. It follows `open_res` without a test of what `open_namev` returned, which is not set
  -- where that failed; and it bounds the paths by NAME_LEN.
  unfoldable pub do_link : List ℕ → List ℕ → Vfs R → Exec (Option (Option Err × Vfs R))
  do_link from to s =
      if ltb lim.name_len (length to) || ltb lim.name_len (length from)
      then done (some (some enametoolong, s))
      else (open_namev ops lim false from s >>= λ opened. elim opened [
        | none ↦ done none
        | some (failed e, s') ↦ panic
        | some (at old, s') ↦
            if ops.is_dir old s'.rest
            then (finish old (some eisdir) s' >>= λ r. done (some r))
            else with_dir (link_in old) to s'
      ])

  -- `do_chdir`, from the place where it has found the vnode `v`.
  unfoldable pub chdir_to : ℕ → Vfs R → Exec (Option Err × Vfs R)
  chdir_to v s = if not (ops.is_dir v s.rest) then finish v (some enotdir) s else elim (s.p_cwd) [
    | none ↦ panic
    | some old ↦ vput ops old s >>= λ s'. done (none, record s' { p_cwd = some v })
  ]

  unfoldable pub do_chdir : List ℕ → Vfs R → Exec (Option (Option Err × Vfs R))
  do_chdir path s = open_namev ops lim false path s >>= λ opened. elim opened [
    | none ↦ done none
    | some (failed e, s') ↦ done (some (some e, s'))
    | some (at v, s') ↦ chdir_to v s' >>= λ r. done (some r)
  ]

  unfoldable pub do_stat : List ℕ → Vfs R → Exec (Option (Option Err × Vfs R))
  do_stat path s =
      if ltb lim.max_path (length path)
      then done (some (some enametoolong, s))
      else (open_namev ops lim false path s >>= λ opened. elim opened [
        | none ↦ done none
        | some (failed e, s') ↦ done (some (some e, s'))
        | some (at v, s') ↦ ops.fs_stat v s' >>= end_in v >>= λ x. done (some x)
      ])
