-- ===== src/Files/Getdent.antt =====
-- `do_getdent` of kernel/fs/vfs_syscall.c.
use cs402_os.Base.{
  ℕ, zero, suc, negsuc, none, some, not, if◌then◌else◌, ℤ, pos, ◌+ℤ◌, Exec, done, panic, ◌>>=◌,
}
use cs402_os.Files.Table.{Vnodes, State, fget, open_file}
use cs402_os.Files.Calls.{Ret, value, fail, ebadf, set_file, vnode_of, file_of, put_back, Modes}

-- `enotdir` is -ENOTDIR, `readdir n p` is what the vnode's readdir at `p` returns and does, and
-- `dirent_size` is sizeof(dirent_t).
module _ {V : Type 0} (vn : Vnodes V) (nfiles : ℕ) (modes : Modes) (enotdir : ℤ)
    (readdir : ℕ → ℤ → V → ℤ × V) (dirent_size : ℕ) where
  -- The result for what readdir has returned, which the offset has been moved by in any case.
  unfoldable pub getdent_result : ℤ → ℤ
  getdent_result (pos zero) = pos zero
  getdent_result (pos (suc n)) = pos dirent_size
  getdent_result (negsuc n) = negsuc n

  unfoldable pub getdent_file : ℕ → State V → Exec (Ret × State V)
  getdent_file f s = do
    x ← file_of vn nfiles modes f s
    n ← vnode_of vn nfiles modes x
    let got = readdir n x.f_pos s.rest
    let moved = record x { f_pos = x.f_pos +ℤ got.0 }
    let after = set_file vn nfiles f moved (record s { rest = got.1 })
    if not (vn.is_dir n s.rest)
        then put_back vn nfiles modes f (value enotdir) s
        else put_back vn nfiles modes f (value (getdent_result got.0)) after

  unfoldable pub do_getdent : ℤ → State V → Exec (Ret × State V)
  do_getdent fd s = elim (open_file vn nfiles fd s) [
    | none ↦ done (fail ebadf, s)
    | some _ ↦
        fget vn nfiles fd s >>= λ r. elim (r.0) [ none ↦ panic | some f ↦ getdent_file f r.1 ]
  ]
